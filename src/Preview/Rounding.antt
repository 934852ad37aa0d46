-- ===== src/Preview/Rounding.antt =====
-- The loop of `rate_round` ends.
use dnstools.Chart.{of_nat, Floats}
use dnstools.Prelude.{
  Bool-cases, ℕ, zero, suc, ◌+◌, ◌^◌, ◌≤◌, ◌<◌, ◌≡◌, ap, ◌∙◌, subst, inl, inr, true, false, some,
  arith,
}
use dnstools.Preview.{rate_round_loop, rate_round}

-- What the proof uses of floats, as IEEE 754 has it: division is monotone, since it rounds the
-- exact quotient, a power of ten up to 10^22 is exact, and so is its tenth; a number is not below one
-- that is no larger.
pub record IsDecimal {ℓ} (F : Type ℓ) ⦃f : Floats F⦄ : Type ℓ where
  pub div_mono :
      (a b : F) → f.le a b ≡ true → f.le (f.div a (of_nat 10)) (f.div b (of_nat 10)) ≡ true
  pub div_pow : (k : ℕ) → k < 22 → f.div (of_nat (10 ^ suc k)) (of_nat 10) ≡ of_nat (10 ^ k)
  pub le_not_lt : (a b : F) → f.le a b ≡ true → f.lt b a ≡ false

module _ {ℓ} {F : Type ℓ} ⦃f : Floats F⦄ where
  -- `r` behind `i` rounds of the loop.
  abbrev pub tenths : ℕ → F → F
  tenths zero r = r
  tenths (suc i) r = tenths i (f.div r (of_nat 10))

module _ {ℓ} {F : Type ℓ} ⦃f : Floats F⦄ where
  rate_round-some :
      (fuel : ℕ) (r : F) {r' : F} {n : ℕ}
      → rate_round_loop fuel r 0 ≡ some (r', n)
      → rate_round fuel r ≡ some (f.to_int (f.mul (f.round r') (f.pow (of_nat 10) (of_nat n))))
  unfolding rate_round
  rate_round-some fuel r h = rw (h, rate_round)

module _ {ℓ} {F : Type ℓ} ⦃f : Floats F⦄ (laws : IsDecimal F) where
  open laws use {div_mono, div_pow, le_not_lt}

  rate_round_loop_ends :
      (k i : ℕ) (r : F)
      → k ≤ 20
      → f.le r (of_nat (10 ^ (2 + k))) ≡ true
      → (n : ℕ) × (n ≤ k)
        × (rate_round_loop (suc k) r i ≡ some (tenths n r, i + n))
        × (f.lt (of_nat 100) (tenths n r) ≡ false)
  unfolding rate_round_loop
  rate_round_loop_ends zero i r b h = (
    0,
    omega arith,
    rw (le_not_lt r (of_nat 100) h, rate_round_loop) (ap (λ n. some (r, n)) (omega arith)),
    le_not_lt r (of_nat 100) h,
  )
  rate_round_loop_ends (suc k) i r b h = elim (Bool-cases (f.lt (of_nat 100) r)) [
    | inr small ↦
        (0, omega arith, rw (small, rate_round_loop) (ap (λ n. some (r, n)) (omega arith)), small)
    | inl large ↦
        let e : 2 + suc k ≡ suc (2 + k) = omega arith in
        let bound : f.le r (of_nat (10 ^ suc (2 + k))) ≡ true =
          subst (λ n. f.le r (of_nat (10 ^ n)) ≡ true) e h in
        let less : f.le (f.div r (of_nat 10)) (of_nat (10 ^ (2 + k))) ≡ true =
          subst (λ z. f.le (f.div r (of_nat 10)) z ≡ true) (div_pow (2 + k) (omega arith))
            (div_mono r (of_nat (10 ^ suc (2 + k))) bound) in
        let (n, le, ends, done) =
          rate_round_loop_ends k (i + 1) (f.div r (of_nat 10)) (omega arith) less in
        (
          suc n,
          omega arith,
          rw (large, rate_round_loop)
              (ends ∙ ap (λ m. some (tenths n (f.div r (of_nat 10)), m)) (omega arith)),
          done,
        )
  ]

  -- `rate_round` returns for every rate up to 10^22, the loop taking at most k rounds for a rate up to
  -- 10^(k + 2): what it returns is the rounded tenth of the rate, taken as often as it
  -- needs to be no longer above 100, times that power of ten.
  pub rate_round_ends :
      (k : ℕ) (r : F)
      → k ≤ 20
      → f.le r (of_nat (10 ^ (2 + k))) ≡ true
      → (n : ℕ) × (n ≤ k)
        × (f.lt (of_nat 100) (tenths n r) ≡ false)
        × (rate_round (suc k) r
            ≡ some (f.to_int (f.mul (f.round (tenths n r)) (f.pow (of_nat 10) (of_nat n)))))
  rate_round_ends k r b h =
      let (n, le, ends, done) = rate_round_loop_ends k 0 r b h in
      (n, le, done, rate_round-some (suc k) r (ends ∙ ap (λ m. some (tenths n r, m)) (omega arith)))
