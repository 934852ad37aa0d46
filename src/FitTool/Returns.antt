-- ===== src/FitTool/Returns.antt =====
-- mig/analyser/fit.py returns, for every file that MIG writes and that has a query.
use dnstools.Chart.{Floats, Num}
use dnstools.Prelude.{length, All, replicate, ok, ℕ, ◌+◌, ◌≡◌, refl, some, List, [], ◌∷◌, ◌++◌}
use dnstools.Prelude.Int.{◌-ℤ◌, ◌<ℤ◌, ℤ, int_laws, pos}
use dnstools.Prelude.Sort.{IsSorted, self}
use dnstools.Dump.{Document}
use dnstools.LinearFit.{Solver, calculate_fit}
use dnstools.LinearFit.Whole.{IsFit, fit_sorted}
use dnstools.FitTool.{FitReport, receiving_rate, main, jload}
use dnstools.FitTool.Lost.{jload_padded}

module _ {ℓ} {F : Type ℓ} ⦃f : Floats F⦄ where
  -- What `fit.py` says of the receiving rate: the slope of the answers, or 0 where there is none.
  abbrev pub IsRate : Solver F → ℤ → List ℤ → Num F → Type ℓ
  IsRate leastsq s [] rate = rate ≡ Num.int (pos 0)
  IsRate leastsq s (t ∷ ts) rate = (a b : F) × IsFit leastsq s (t ∷ ts) a b × (rate ≡ Num.float b)

  -- `leastsq` returns two parameters for timestamps.
  abbrev pub HasFit : Solver F → ℤ → List ℤ → Type ℓ
  HasFit leastsq s [] = Unit
  HasFit leastsq s (t ∷ ts) = (a b : F) × IsFit leastsq s (t ∷ ts) a b

  receiving_rate-IsRate :
      (leastsq : Solver F) (s : ℤ) (ts : List ℤ)
      → IsSorted self ts
      → HasFit leastsq s ts
      → (r : Num F) × (receiving_rate leastsq s ts ≡ ok r) × IsRate leastsq s ts r
  unfolding receiving_rate
  receiving_rate-IsRate leastsq s [] o h = (Num.int (pos 0), refl, refl)
  receiving_rate-IsRate leastsq s (t ∷ ts) o (a, b, fit) =
      (Num.float b, rw (fit_sorted leastsq s t ts a b o fit) refl, (a, b, fit, refl))

  main_run :
      (leastsq : Solver F) (d : Document F) (t : ℤ) (ts answers : List ℤ) (a b : F) (r : Num F)
      → (jload d).sends ≡ t ∷ ts
      → (jload d).receives ≡ answers
      → calculate_fit leastsq (t ∷ ts) (some t) [] ≡ ok (a ∷ b ∷ [])
      → receiving_rate leastsq t answers ≡ ok r
      → main leastsq d
        ≡ ok record { send = b; recv = r; lost = pos (length (t ∷ ts)) -ℤ pos (length answers) }
  unfolding main
  main_run leastsq d t ts answers a b r s e fit recv = rw (s, e) (rw (fit, recv) refl)

  -- A file as MIG writes it lists a positive time for each answer and then a zero for each of the k
  -- lost queries. For such a file with a query, both kinds of times in order, where `leastsq` returns
  -- two parameters for the queries and for the answers, if there is one, fit.py returns: as rates the
  -- slopes of the two fits, that of the answers also taken from the first query on, or 0 where there
  -- is no answer, and k as the lost queries.
  pub main_returns :
      (leastsq : Solver F) (d : Document F) (t : ℤ) (ts answers : List ℤ) (k : ℕ) (a b : F)
      → d.sends ≡ some (t ∷ ts)
      → d.receives ≡ some (answers ++ replicate k (pos 0))
      → All (λ r. pos 0 <ℤ r) answers
      → length answers + k ≡ length (t ∷ ts)
      → IsSorted self (t ∷ ts)
      → IsSorted self answers
      → IsFit leastsq t (t ∷ ts) a b
      → HasFit leastsq t answers
      → (r : FitReport F) × (main leastsq d ≡ ok r)
        × (r.send ≡ b)
        × IsRate leastsq t answers r.recv
        × (r.lost ≡ pos k)
  main_returns leastsq d t ts answers k a b es er positive n os oa fit has =
      let (s, e) = jload_padded d (t ∷ ts) answers k es er positive in
      let (r, recv, is) = receiving_rate-IsRate leastsq t answers oa has in
      let lost = pos (length (t ∷ ts)) -ℤ pos (length answers) in
      let count : lost ≡ pos k = omega int_laws in
      (
        record { send = b; recv = r; lost = lost },
        main_run leastsq d t ts answers a b r s e (fit_sorted leastsq t t ts a b os fit) recv,
        refl,
        is,
        count,
      )
