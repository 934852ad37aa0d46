-- ===== src/Examples/Thousandths.antt =====
-- Numbers for the tests: thousandths, with the operations that mig/analyser/*.py needs of a float,
-- below zero and between thousandths cut off.
use dnstools.Chart.{Text, Floats}
use dnstools.Prelude.Int.{pos_part, ◌+ℤ◌, ◌≤ℤ◌, leb_ℤ, leb_ℤ→gt, ℤ, pos, negsuc}
use dnstools.Prelude.{
  ltb, leb, if◌then◌else◌, le→leb, gt→leb, leb→le, leb→gt, ok, ℕ, zero, suc, ◌+◌, ◌-◌, ◌*◌, ◌/◌,
  ◌^◌, ◌≤◌, ◌<◌, ◌≡◌, ap, ◌∙◌, true, [], ◌∷◌, ◌++◌, arith,
}
use native.Mathlib.Nat.{pow-suc, le-div_iff_mul-le, div-mul-le_self, mul-div_cancel}
use dnstools.Preview.Rounding.{IsDecimal}
use dnstools.Preview.Search.{IsHalving}
use dnstools.Grinder.Processing.Buckets.{IsMonotone}
use dnstools.Strings.{decimal}
use dnstools.Grinder.Inputs.Labels.{IsFixed, digit}
use dnstools.Grinder.Main.Points.{IsOrdered}
use dnstools.Grinder.Processing.Heights.{IsScaling}

abbrev pub Milli : Type 0
Milli = ℕ

abbrev pub whole : ℕ → ℕ
whole a = a / 1000 * 1000

abbrev pub exponent : ℕ → ℕ → ℕ
exponent zero a = 0
exponent (suc fuel) a = let rest = exponent fuel (a / 10) in if ltb a 10 then 0 else rest + 1

instance abbrev pub milli : Floats Milli
milli = record {
  of_int = λ z. pos_part z * 1000;
  add = ◌+◌;
  sub = ◌-◌;
  mul = λ a b. a * b / 1000;
  div = λ a b. a * 1000 / b;
  lt = ltb;
  log10 = λ a. exponent 30 (a / 1000) * 1000;
  floor = whole;
  ceil = λ a. whole (a + 999);
  pow = λ a b. (a / 1000) ^ (b / 1000) * 1000;
  round = λ a. whole (a + 500);
  to_int = λ a. ok (pos (a / 1000));
  le = leb;
  le_int = λ a z. leb_ℤ (pos a) (pos (pos_part z * 1000));
  int_le = λ z a. leb_ℤ (pos (pos_part z * 1000)) (pos a);
}

half_double_lem : (a : ℤ) → 500 * (pos_part (a +ℤ a) * 1000) / 1000 ≡ pos_part a * 1000
unfolding ◌+ℤ◌
half_double_lem (pos n) = ground arith
half_double_lem (negsuc n) = ground arith

half_mono_lem :
    (a b : ℤ)
    → a ≤ℤ b
    → leb (500 * (pos_part a * 1000) / 1000) (500 * (pos_part b * 1000) / 1000) ≡ true
half_mono_lem (pos m) (pos n) h = le→leb _ _ (omega arith)
half_mono_lem (pos m) (negsuc n) h = absurd (omega arith)
half_mono_lem (negsuc m) b h = le→leb _ _ (omega arith)

pub milli-IsDecimal : IsDecimal Milli
milli-IsDecimal = record {
  div_mono = λ a b h. le→leb (a * 1000 / 10000) (b * 1000 / 10000) (omega (arith, leb→le a b h));
  div_pow = λ k h. omega (arith, pow-suc 10 k);
  le_not_lt = λ a b h. ground arith;
}

pub milli-IsHalving : IsHalving Milli
milli-IsHalving = record { half_double = half_double_lem; half_mono = half_mono_lem }

pub milli-IsMonotone : IsMonotone Milli
milli-IsMonotone x (pos m) (pos n) h l =
    let g = leb_ℤ→gt (pos (m * 1000)) (pos x) l in gt→leb (n * 1000 + 0) (x + 0) (omega arith)
milli-IsMonotone x (pos m) (negsuc n) h l = absurd (omega arith)
milli-IsMonotone x (negsuc m) b h l = let g = leb_ℤ→gt (pos 0) (pos x) l in absurd (omega arith)

div_mono_lem : (x y k : ℕ) → 0 < k → x ≤ y → x * 1000 / k ≤ y * 1000 / k
div_mono_lem x y k p h = (le-div_iff_mul-le p).1 (omega (arith, div-mul-le_self (x * 1000) k))

whole_quotient_lem : (n : ℕ) → 100_000 * (suc n * 1000) / 1000 * 1000 / (suc n * 1000) ≡ 100_000
whole_quotient_lem n =
    let e : 100_000 * (suc n * 1000) / 1000 * 1000 ≡ 100_000 * (suc n * 1000) = omega arith in
    ap (λ z. z / (suc n * 1000)) e ∙ mul-div_cancel 100_000 (omega arith)

pub milli-IsScaling : IsScaling Milli
milli-IsScaling = record {
  mul_mono =
      λ a b h. le→leb (100_000 * (a * 1000) / 1000) (100_000 * (b * 1000) / 1000) (omega arith);
  div_mono = λ x y n h.
      le→leb (x * 1000 / (suc n * 1000)) (y * 1000 / (suc n * 1000))
        (div_mono_lem x y (suc n * 1000) (omega arith) (leb→le x y h));
  div_mul = λ n h. whole_quotient_lem n;
}

pub milli-IsOrdered : IsOrdered Milli
milli-IsOrdered x y h k l = let g = leb→gt x y l in le→leb y x (omega arith)

-- The printing with a number of decimal places.
abbrev pub printed : ℕ → Milli → Text
printed zero x = decimal (x / 1000)
printed (suc zero) x = decimal (x / 1000) ++ (b'.' ∷ digit (x / 100) ∷ [])
printed (suc (suc zero)) x = decimal (x / 1000) ++ (b'.' ∷ digit (x / 100) ∷ digit (x / 10) ∷ [])
printed (suc (suc (suc n))) x =
    decimal (x / 1000) ++ (b'.' ∷ digit (x / 100) ∷ digit (x / 10) ∷ digit x ∷ [])

quotient_lem : (v : ℕ) → v * 1000 * 1000 / 1_000_000 ≡ v
quotient_lem v = omega arith

pub milli-IsFixed : IsFixed Milli printed
milli-IsFixed = record {
  one_place = λ v h z. ap (printed 1) (quotient_lem v);
  two_places = λ v h z. ap (printed 2) (quotient_lem v);
  three_places = λ v h. ap (printed 3) (quotient_lem v);
}
