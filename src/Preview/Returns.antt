-- ===== src/Preview/Returns.antt =====
-- mig/analyser/preview.py returns, for every file that MIG writes and that has a query.
use dnstools.Chart.{of_nat, Floats}
use dnstools.Prelude.{
  length, All, replicate, ◌>>=◌, Result, ok, ℕ, suc, ◌+◌, ◌^◌, ◌≤◌, ◌≡◌, refl, ap, ◌∙◌, true, false,
  some, List, [], ◌∷◌, ◌++◌,
}
use dnstools.Prelude.Int.{◌-ℤ◌, ◌<ℤ◌, ℤ, int_laws, pos}
use dnstools.Prelude.Sort.{IsSorted, self}
use dnstools.Dump.{Document}
use dnstools.LinearFit.{Solver, calculate_fit}
use dnstools.LinearFit.Whole.{IsFit, fit_sorted}
use dnstools.Preview.{jload, preview_rates, next_rate, main, rate_round}
use dnstools.Preview.Rounding.{IsDecimal, tenths, rate_round_ends}
use dnstools.Preview.Search.{jload_padded}

module _ {ℓ} {F : Type ℓ} ⦃f : Floats F⦄ where
  preview_rates_run :
      (leastsq : Solver F) (d : Document F) (low high test : ℤ) (t : ℤ) (ts answers : List ℤ)
      (a b : F)
      → (jload d).sends ≡ t ∷ ts
      → (jload d).receives ≡ answers
      → calculate_fit leastsq (t ∷ ts) (some t) [] ≡ ok (a ∷ b ∷ [])
      → let lost = pos (length (t ∷ ts)) -ℤ pos (length answers) in
        preview_rates leastsq d low high test ≡ ok (b, lost, next_rate low high test b lost)
  unfolding preview_rates
  preview_rates_run leastsq d low high test t ts answers a b s e fit = rw (s, e) (rw fit refl)

  -- For a file with a query and k lost ones, the sending times in order, where `leastsq` returns two
  -- parameters, preview.py gets its three numbers: the slope of the fit, k, and the next rate.
  preview_rates_returns :
      (leastsq : Solver F) (d : Document F) (low high test : ℤ) (t : ℤ) (ts answers : List ℤ)
      (k : ℕ) (a b : F)
      → d.sends ≡ some (t ∷ ts)
      → d.receives ≡ some (answers ++ replicate k (pos 0))
      → All (λ r. pos 0 <ℤ r) answers
      → length answers + k ≡ length (t ∷ ts)
      → IsSorted self (t ∷ ts)
      → IsFit leastsq t (t ∷ ts) a b
      → preview_rates leastsq d low high test ≡ ok (b, pos k, next_rate low high test b (pos k))
  preview_rates_returns leastsq d low high test t ts answers k a b es er p n o fit =
      let (s, e) = jload_padded d (t ∷ ts) answers k es er p in
      let count : pos (length (t ∷ ts)) -ℤ pos (length answers) ≡ pos k = omega int_laws in
      preview_rates_run leastsq d low high test t ts answers a b s e
        (fit_sorted leastsq t t ts a b o fit)
      ∙ ap (λ l. ok (b, l, next_rate low high test b l)) count

-- A rate with `n` digits taken off and put back as zeros, before it is made an integer.
abbrev pub rounded {ℓ} : {F : Type ℓ} ⦃f : Floats F⦄ → ℕ → F → F
rounded ⦃f⦄ n r = f.mul (f.round (tenths n r)) (f.pow (of_nat 10) (of_nat n))

-- The rounds of the loop: as many as it takes to come to 100 or below.
abbrev pub IsRounds {ℓ} : {F : Type ℓ} ⦃f : Floats F⦄ → ℕ → F → Type 0
IsRounds ⦃f⦄ n r = f.lt (of_nat 100) (tenths n r) ≡ false

module _ {ℓ} {F : Type ℓ} ⦃f : Floats F⦄ where
  main_run :
      (fuel : ℕ) (leastsq : Solver F) (d : Document F) (low high test : ℤ) {rate next : F}
      {lost : ℤ} {r n : Result ℤ}
      → preview_rates leastsq d low high test ≡ ok (rate, lost, next)
      → rate_round fuel rate ≡ some r
      → rate_round fuel next ≡ some n
      → main fuel leastsq d low high test
        ≡ some (r >>= λ x. n >>= λ y. ok record { rate = x; lost = lost; next = y })
  unfolding main
  main_run fuel leastsq d low high test p r n = rw (p, main) (rw r (rw n refl))

  -- A file as MIG writes it lists a positive time for each answer and then a zero for each of the k
  -- lost queries. For such a file with a query, the sending times in order, where `leastsq` returns
  -- two parameters, and neither the rate nor the next rate is above 10^22 (above 10^(2 + j) for some
  -- j up to 20), `main` of preview.py ends, each loop of `rate_round` within j rounds: it prints the
  -- rounded slope of the fit, k and the rounded next rate, or raises what `int` of one of the two
  -- rounded floats raises.
  pub main_ends :
      (laws : IsDecimal F) (leastsq : Solver F) (d : Document F) (low high test : ℤ) (t : ℤ)
      (ts answers : List ℤ) (k j : ℕ) (a b : F)
      → d.sends ≡ some (t ∷ ts)
      → d.receives ≡ some (answers ++ replicate k (pos 0))
      → All (λ r. pos 0 <ℤ r) answers
      → length answers + k ≡ length (t ∷ ts)
      → IsSorted self (t ∷ ts)
      → IsFit leastsq t (t ∷ ts) a b
      → j ≤ 20
      → let next = next_rate low high test b (pos k) in
        f.le b (of_nat (10 ^ (2 + j))) ≡ true
        → f.le next (of_nat (10 ^ (2 + j))) ≡ true
        → (m n : ℕ) × (m ≤ j)
          × (n ≤ j)
          × IsRounds m b
          × IsRounds n next
          × (main (suc j) leastsq d low high test
              ≡ some (
                  f.to_int (rounded m b) >>= λ x. f.to_int (rounded n next) >>= λ y.
                  ok record { rate = x; lost = pos k; next = y }))
  main_ends laws leastsq d low high test t ts answers k j a b es er p c o fit le hb hn =
      let next = next_rate low high test b (pos k) in
      let (m, lm, cm, rm) = rate_round_ends laws j b le hb in
      let (n, ln, cn, rn) = rate_round_ends laws j next le hn in
      let rates =
        preview_rates_returns leastsq d low high test t ts answers k a b es er p c o fit in
      (m, n, lm, ln, cm, cn, main_run (suc j) leastsq d low high test rates rm rn)
