-- ===== src/Strings/Decimal.antt =====
-- `"%d" % n` and `int` of mig/analyser/grinder.py, the printing and the reading of a number, and the
-- speed in the name of a file.
use mathlib.Core.Option
use dnstools.Chart.{Text}
use dnstools.Prelude.{
  ltb, ltb→lt, le→leb, ltb→ge, Bool-cases, All, ℕ, zero, suc, ◌+◌, ◌-◌, ◌*◌, ◌/◌, ◌%◌, ◌≤◌, ◌<◌,
  ◌≡◌, refl, sym, ap, ◌∙◌, ◌≢◌, inl, inr, false, some, [], ◌∷◌, arith,
}
use dnstools.Prelude.Int.{pos}
use dnstools.Strings.{
  digits, natural, int_of, strip, strip_left, strip_right, keep_char, is_space, lower, lower_char,
}
use dnstools.Strings.{decimal_digits, decimal}

abbrev pub IsDigit : ℕ → Type 0
IsDigit c = (48 ≤ c) × (c ≤ 57)

digits_digit : (n c : ℕ) (cs : Text) → IsDigit c → digits n (c ∷ cs) ≡ digits (10 * n + (c - 48)) cs
unfolding digits
digits_digit n c cs h = rw (le→leb 48 c h.0, le→leb c 57 h.1) refl

last-IsDigit : (n : ℕ) → IsDigit (n % 10 + 48)
last-IsDigit n = omega arith

-- Reading the last digit behind the other ones.
digits_last :
    (m n : ℕ) (acc : Text) → 10 * m + n % 10 ≡ n → digits m ((n % 10 + 48) ∷ acc) ≡ digits n acc
digits_last m n acc h =
    let e : 10 * m + (n % 10 + 48 - 48) ≡ n = omega arith in
    digits_digit m (n % 10 + 48) acc (last-IsDigit n) ∙ ap (λ k. digits k acc) e

digits-decimal_digits :
    (fuel n : ℕ) (acc : Text) → n < fuel → digits 0 (decimal_digits fuel n acc) ≡ digits n acc
unfolding decimal_digits
digits-decimal_digits zero n acc h = absurd (omega arith)
digits-decimal_digits (suc fuel) n acc h = elim (Bool-cases (ltb n 10)) [
  | inl e ↦ let l = ltb→lt n 10 e in rw e (digits_last 0 n acc (omega arith))
  | inr e ↦
      let l = ltb→ge n 10 e in
      let lt : n / 10 < fuel = omega arith in
      rw e (
        digits-decimal_digits fuel (n / 10) ((n % 10 + 48) ∷ acc) lt
        ∙ digits_last (n / 10) n acc (omega arith))
]

decimal_digits-IsDigit :
    (fuel n : ℕ) (acc : Text) → All IsDigit acc → All IsDigit (decimal_digits fuel n acc)
unfolding decimal_digits
decimal_digits-IsDigit zero n acc h = h
decimal_digits-IsDigit (suc fuel) n acc h = elim (Bool-cases (ltb n 10)) [
  | inl e ↦ rw e (last-IsDigit n, h)
  | inr e ↦ rw e (decimal_digits-IsDigit fuel (n / 10) ((n % 10 + 48) ∷ acc) (last-IsDigit n, h))
]

decimal_digits-cons :
    (fuel n : ℕ) (c : ℕ) (cs : Text)
    → (d : ℕ) × (ds : Text) × (decimal_digits fuel n (c ∷ cs) ≡ d ∷ ds)
unfolding decimal_digits
decimal_digits-cons zero n c cs = (c, cs, refl)
decimal_digits-cons (suc fuel) n c cs = elim (Bool-cases (ltb n 10)) [
  | inl e ↦ (n % 10 + 48, c ∷ cs, rw e refl)
  | inr e ↦
      let (d, ds, h) = decimal_digits-cons fuel (n / 10) (n % 10 + 48) (c ∷ cs) in (d, ds, rw e h)
]

decimal-cons : (n : ℕ) → (d : ℕ) × (ds : Text) × (decimal n ≡ d ∷ ds)
unfolding decimal decimal_digits
decimal-cons n = elim (Bool-cases (ltb n 10)) [
  | inl e ↦ (n % 10 + 48, [], rw e refl)
  | inr e ↦ let (d, ds, h) = decimal_digits-cons n (n / 10) (n % 10 + 48) [] in (d, ds, rw e h)
]

pub decimal-IsDigit : (n : ℕ) → All IsDigit (decimal n)
unfolding decimal
decimal-IsDigit n = decimal_digits-IsDigit (suc n) n [] tt

natural-cons : (c : ℕ) (cs : Text) → natural (c ∷ cs) ≡ digits 0 (c ∷ cs)
unfolding natural
natural-cons c cs = refl

-- A number is read back from its digits.
pub natural-decimal : (n : ℕ) → natural (decimal n) ≡ some n
natural-decimal n =
    let (d, ds, e) = decimal-cons n in
    let r : digits 0 (decimal n) ≡ some n =
      unfold decimal digits in digits-decimal_digits (suc n) n [] (omega arith) in
    ap natural e ∙ natural-cons d ds ∙ ap (digits 0) (sym e) ∙ r

int_of_digits : (cs : Text) → All IsDigit cs → cs ≢ [] → int_of cs ≡ Option.map pos (natural cs)
unfolding int_of
int_of_digits [] h n = absurd (n refl)
int_of_digits (c ∷ cs) h n = ground (arith, h.0)

pub int_of-decimal : (n : ℕ) → int_of (decimal n) ≡ some (pos n)
int_of-decimal n =
    let (d, ds, e) = decimal-cons n in
    int_of_digits (decimal n) (decimal-IsDigit n) (λ z. cc)
    ∙ ap (Option.map pos) (natural-decimal n)

-- Digits hold no space, no separator and no upper-case letter.
space_digit : (c : ℕ) → IsDigit c → is_space c ≡ false
space_digit c h = ground arith

strip_left_digits : (cs : Text) → All IsDigit cs → strip_left cs ≡ cs
unfolding strip_left
strip_left_digits [] h = refl
strip_left_digits (c ∷ cs) h = rw (space_digit c h.0) refl

keep_char_digits : (c : ℕ) (cs : Text) → IsDigit c → keep_char c cs ≡ c ∷ cs
keep_char_digits c [] h = rw (space_digit c h) refl
keep_char_digits c (d ∷ ds) h = refl

strip_right_digits : (cs : Text) → All IsDigit cs → strip_right cs ≡ cs
unfolding strip_right
strip_right_digits [] h = refl
strip_right_digits (c ∷ cs) h = rw (strip_right_digits cs h.1) (keep_char_digits c cs h.0)

pub strip_digits : (cs : Text) → All IsDigit cs → strip cs ≡ cs
unfolding strip
strip_digits cs h = rw (strip_left_digits cs h) (strip_right_digits cs h)

lower_digit : (c : ℕ) → IsDigit c → lower_char c ≡ c
lower_digit c h = ground arith

pub lower_digits : (cs : Text) → All IsDigit cs → lower cs ≡ cs
unfolding lower
lower_digits [] h = refl
lower_digits (c ∷ cs) h = rw (lower_digit c h.0) (ap (◌∷◌ c) (lower_digits cs h.1))
