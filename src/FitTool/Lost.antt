-- ===== src/FitTool/Lost.antt =====
-- The lost queries that fit.py reports.
use dnstools.Chart.{item, Floats, Num}
use dnstools.Prelude.Int.{◌-ℤ◌, ◌<ℤ◌, ℤ, int_laws, pos}
use dnstools.Prelude.{
  length, get_elem?, All, replicate, >>=-eq-ok, ok-injective, ok, ℕ, ◌+◌, ◌≡◌, refl, sym, ap, ◌∙◌,
  some, List, [], ◌++◌,
}
use dnstools.Dump.{Document}
use dnstools.Dump.Members.{members_padded}
use dnstools.LinearFit.{Solver, calculate_fit}
use dnstools.FitTool.{jload, FitReport, receiving_rate, main}

module _ {ℓ} {F : Type ℓ} where
  pub jload_padded :
      (d : Document F) (sends answers : List ℤ) (k : ℕ)
      → d.sends ≡ some sends
      → d.receives ≡ some (answers ++ replicate k (pos 0))
      → All (λ t. pos 0 <ℤ t) answers
      → ((jload d).sends ≡ sends) × ((jload d).receives ≡ answers)
  unfolding jload
  jload_padded = members_padded

module _ {ℓ} {F : Type ℓ} ⦃f : Floats F⦄ where
  main_result :
      (leastsq : Solver F) (d : Document F) {r : FitReport F}
      → main leastsq d ≡ ok r
      → (start : ℤ) × (r.lost ≡ pos (length (jload d).sends) -ℤ pos (length (jload d).receives))
        × (receiving_rate leastsq start (jload d).receives ≡ ok r.recv)
  unfolding main
  main_result leastsq d h =
      let run = jload d in
      let (start, _, h1) = >>=-eq-ok (item (get_elem? run.sends 0)) _ h in
      let (fit, _, h2) = >>=-eq-ok (calculate_fit leastsq run.sends (some start) []) _ h1 in
      let (rate, _, h3) = >>=-eq-ok (item (get_elem? fit 1)) _ h2 in
      let (recv, e, h4) = >>=-eq-ok (receiving_rate leastsq start run.receives) _ h3 in
      (
        start,
        ap (λ (q : FitReport F). q.lost) (sym (ok-injective h4)),
        e ∙ ap (λ (q : FitReport F). ok q.recv) (ok-injective h4),
      )

  -- A file as MIG writes it lists a positive time for each answer and then a zero for each lost
  -- query. Whenever `main` of fit.py returns on such a file, it reports that number of lost queries,
  -- and a receiving rate of 0 if there is no answer at all.
  pub main_lost :
      (leastsq : Solver F) (d : Document F) (sends answers : List ℤ) (k : ℕ) {r : FitReport F}
      → d.sends ≡ some sends
      → d.receives ≡ some (answers ++ replicate k (pos 0))
      → All (λ t. pos 0 <ℤ t) answers
      → length answers + k ≡ length sends
      → main leastsq d ≡ ok r
      → (r.lost ≡ pos k) × (answers ≡ [] → r.recv ≡ Num.int (pos 0))
  main_lost leastsq d sends answers k es er pa n h =
      let (start, lost, recv) = main_result leastsq d h in
      let (s, a) = jload_padded d sends answers k es er pa in
      let none_left : (xs : List ℤ)
          → xs ≡ []
          → receiving_rate leastsq start xs ≡ ok (Num.int (pos 0)) =
        λ xs e. rw e (unfold receiving_rate in refl) in
      (
        rw (s, a) at lost ∙ omega int_laws,
        λ e. ok-injective (sym recv ∙ none_left (jload d).receives (a ∙ e)),
      )
