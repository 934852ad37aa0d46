-- ===== src/Preview/Search.antt =====
-- The next rate of the binary search.
use dnstools.Chart.{of_nat, item, Floats}
use dnstools.Prelude.Int.{◌+ℤ◌, ◌-ℤ◌, ◌≤ℤ◌, ◌<ℤ◌, ltb_ℤ, lt→ltb_ℤ, ℤ, int_laws, pos}
use dnstools.Prelude.{
  length, get_elem?, All, replicate, >>=-eq-ok, ok-injective, ok, ℕ, suc, ◌+◌, ◌-◌, ◌<◌, ◌≡◌, sym,
  ap, ◌∙◌, subst, true, false, some, List, [], ◌++◌, arith,
}
use dnstools.Dump.{Document}
use dnstools.Dump.Members.{members_padded}
use dnstools.LinearFit.{Solver, calculate_fit}
use dnstools.Preview.{jload, next_rate, preview_rates}

-- What the proof uses of floats: twice an integer and then a half gives the integer back, and
-- a half and the conversion of an integer are monotone, as they are in IEEE 754 for integers up
-- to 2^53.
pub record IsHalving {ℓ} (F : Type ℓ) ⦃f : Floats F⦄ : Type ℓ where
  pub half_double : (a : ℤ) → f.mul (f.div (of_nat 1) (of_nat 2)) (f.of_int (a +ℤ a)) ≡ f.of_int a
  pub half_mono :
      (a b : ℤ)
      → a ≤ℤ b
      → f.le
          (f.mul (f.div (of_nat 1) (of_nat 2)) (f.of_int a))
          (f.mul (f.div (of_nat 1) (of_nat 2)) (f.of_int b))
        ≡ true

module _ {ℓ} {F : Type ℓ} where
  pub jload_padded :
      (d : Document F) (sends answers : List ℤ) (k : ℕ)
      → d.sends ≡ some sends
      → d.receives ≡ some (answers ++ replicate k (pos 0))
      → All (λ t. pos 0 <ℤ t) answers
      → ((jload d).sends ≡ sends) × ((jload d).receives ≡ answers)
  unfolding jload
  jload_padded = members_padded

module _ {ℓ} {F : Type ℓ} ⦃f : Floats F⦄ where
  preview_rates_result :
      (leastsq : Solver F) (d : Document F) (low high test : ℤ) {rate next : F} {lost : ℤ}
      → preview_rates leastsq d low high test ≡ ok (rate, lost, next)
      → (lost ≡ pos (length (jload d).sends) -ℤ pos (length (jload d).receives))
        × (next ≡ next_rate low high test rate lost)
  unfolding preview_rates
  preview_rates_result leastsq d low high test h =
      let run = jload d in
      let (start, _, h1) = >>=-eq-ok (item (get_elem? run.sends 0)) _ h in
      let (fit, _, h2) = >>=-eq-ok (calculate_fit leastsq run.sends (some start) []) _ h1 in
      let (r, _, h3) = >>=-eq-ok (item (get_elem? fit 1)) _ h2 in
      let e = ok-injective h3 in
      (
        sym (ap (λ (t : F × ℤ × F). t.1) e),
        sym (ap (λ (t : F × ℤ × F). t.2) e)
            ∙ ap (λ (t : F × ℤ × F). next_rate low high test t.0 t.1) e,
      )

module _ {ℓ} {F : Type ℓ} ⦃f : Floats F⦄ (laws : IsHalving F) where
  open laws use {half_double, half_mono}

  between :
      (a b : ℤ)
      → a ≤ℤ b
      → let mid = f.mul (f.div (of_nat 1) (of_nat 2)) (f.of_int (a +ℤ b)) in
        (f.le (f.of_int a) mid ≡ true) × (f.le mid (f.of_int b) ≡ true)
  between a b h =
      let mid = f.mul (f.div (of_nat 1) (of_nat 2)) (f.of_int (a +ℤ b)) in
      (
        subst (λ z. f.le z mid ≡ true) (half_double a)
            (half_mono (a +ℤ a) (a +ℤ b) (omega int_laws)),
        subst (λ z. f.le mid z ≡ true) (half_double b)
            (half_mono (a +ℤ b) (b +ℤ b) (omega int_laws)),
      )

  Between : F → F → F → Type 0
  Between low x high = (f.le low x ≡ true) × (f.le x high ≡ true)

  next_rate_down :
      (low high test : ℤ) (rate : F) (k : ℕ)
      → low ≤ℤ test
      → Between (f.of_int low) (next_rate low high test rate (pos (suc k))) (f.of_int test)
  unfolding next_rate Between
  next_rate_down low high test rate k lt =
      rw (lt→ltb_ℤ (pos 0) (pos (suc k)) (omega arith), next_rate) (between low test lt)

  next_rate_up :
      (low high test : ℤ) (rate : F)
      → pos 0 ≤ℤ high
      → test ≤ℤ high
      → Between (f.of_int test) (next_rate low high test rate (pos 0)) (f.of_int high)
  unfolding next_rate Between
  next_rate_up low high test rate h th =
      let e : ltb_ℤ high (pos 0) ≡ false = ground arith in
      let c : high +ℤ test ≡ test +ℤ high = omega int_laws in
      rw (e, next_rate) (rw c (between test high th))

  -- A file as MIG writes it lists a positive time for each answer and then a zero for each of the
  -- k lost queries. With limits low ≤ test ≤ high that are not below zero, whenever preview.py gets
  -- a rate from such a file, it counts k lost queries, and the next rate of the search lies between
  -- the low limit and the tested one if k is positive, and between the tested one and the high
  -- limit if k is 0.
  pub preview_rates_between :
      (leastsq : Solver F) (d : Document F) (sends answers : List ℤ) (k : ℕ) (low high test : ℤ)
      {rate next : F} {lost : ℤ}
      → d.sends ≡ some sends
      → d.receives ≡ some (answers ++ replicate k (pos 0))
      → All (λ t. pos 0 <ℤ t) answers
      → length answers + k ≡ length sends
      → pos 0 ≤ℤ high
      → low ≤ℤ test
      → test ≤ℤ high
      → preview_rates leastsq d low high test ≡ ok (rate, lost, next)
      → (lost ≡ pos k)
        × (0 < k → (f.le (f.of_int low) next ≡ true) × (f.le next (f.of_int test) ≡ true))
        × (k ≡ 0 → (f.le (f.of_int test) next ≡ true) × (f.le next (f.of_int high) ≡ true))
  unfolding Between
  preview_rates_between leastsq d sends answers k low high test {rate} {next} {lost} es er pa n hh
        lt th h =
      let (s, a) = jload_padded d sends answers k es er pa in
      let (l, x) = preview_rates_result leastsq d low high test h in
      let count : lost ≡ pos k = l ∙ rw (s, a) (omega int_laws) in
      let next_of : (j : ℕ) → k ≡ j → next ≡ next_rate low high test rate (pos j) =
        λ j e. x ∙ ap (next_rate low high test rate) (count ∙ ap pos e) in
      (
        count,
        λ p.
            let e : k ≡ suc (k - 1) = omega arith in
            rw (next_of (suc (k - 1)) e) (next_rate_down low high test rate (k - 1) lt),
        λ z. rw (next_of 0 z) (next_rate_up low high test rate hh th),
      )
