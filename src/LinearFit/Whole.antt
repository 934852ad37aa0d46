-- ===== src/LinearFit/Whole.antt =====
-- `calculate_fit` with no parameters, as the three programs call it for the rate of a run.
use dnstools.Chart.{of_nat, num_le, Floats, Num}
use dnstools.Prelude.{
  if◌then◌else◌, get_last?, ok, ℕ, ◌+◌, ◌≡◌, refl, ◌∙◌, true, ◌&&◌, some, List, [], ◌∷◌, arith,
}
use dnstools.Prelude.Int.{◌-ℤ◌, ◌≤ℤ◌, leb_ℤ, le→leb_ℤ, ℤ, int_laws}
use dnstools.Prelude.Sort.{IsSorted, self, get_last?_above}
use dnstools.LinearFit.{Solver, residuals, window, points_between, calculate_fit}

module _ {ℓ} {F : Type ℓ} ⦃f : Floats F⦄ where
  points_between-ok :
      (s : ℤ) (l r : Num F) (i : ℕ) (ts : List ℤ)
      → (ps : List (ℤ × ℕ)) × (points_between (some s) l r i ts ≡ ok ps)
  unfolding points_between
  points_between-ok s l r i [] = ([], refl)
  points_between-ok s l r i (t ∷ ts) =
      let (ps, e) = points_between-ok s l r (i + 1) ts in
      (
        (if num_le l (Num.int (t -ℤ s)) && num_le (Num.int (t -ℤ s)) r
            then (t, i + 1) ∷ ps
            else ps),
        rw e refl,
      )

  points_between-cons :
      (s : ℤ) (l r : Num F) (i : ℕ) (t : ℤ) (ts : List ℤ)
      → num_le l (Num.int (t -ℤ s)) ≡ true
      → num_le (Num.int (t -ℤ s)) r ≡ true
      → (ps : List (ℤ × ℕ)) × (points_between (some s) l r i (t ∷ ts) ≡ ok ((t, i + 1) ∷ ps))
  unfolding points_between
  points_between-cons s l r i t ts a b =
      let (ps, e) = points_between-ok s l r (i + 1) ts in (ps, rw e (rw (a, b) refl))

  -- The slope and the offset that `leastsq` finds for timestamps, from the first guess.
  abbrev pub IsFit : Solver F → ℤ → List ℤ → F → F → Type ℓ
  IsFit leastsq s ts offset slope =
      leastsq (residuals s ts) (of_nat 0 ∷ of_nat 1 ∷ []) ≡ ok (offset ∷ slope ∷ [])

  -- For a list of timestamps, the last of which is no smaller than the first, the fit with no
  -- parameters is what `leastsq` makes of all of them, from the guess 0 and 1.
  calculate_fit_all :
      (leastsq : Solver F) (s t : ℤ) (ts : List ℤ) {last : ℤ}
      → get_last? (t ∷ ts) ≡ some last
      → t ≤ℤ last
      → calculate_fit leastsq (t ∷ ts) (some s) []
        ≡ leastsq (residuals s (t ∷ ts)) (of_nat 0 ∷ of_nat 1 ∷ [])
  unfolding calculate_fit window
  calculate_fit_all leastsq s t ts {last} h le =
      let low : leb_ℤ (t -ℤ s) (t -ℤ s) ≡ true = le→leb_ℤ (t -ℤ s) (t -ℤ s) (omega arith) in
      let high : leb_ℤ (t -ℤ s) (last -ℤ s) ≡ true =
        le→leb_ℤ (t -ℤ s) (last -ℤ s) (omega int_laws) in
      let (ps, e) =
        points_between-cons s (Num.int (t -ℤ s)) (Num.int (last -ℤ s)) 0 t ts low high in
      rw h (rw e refl)

  pub fit_sorted :
      (leastsq : Solver F) (s t : ℤ) (ts : List ℤ) (a b : F)
      → IsSorted self (t ∷ ts)
      → IsFit leastsq s (t ∷ ts) a b
      → calculate_fit leastsq (t ∷ ts) (some s) [] ≡ ok (a ∷ b ∷ [])
  fit_sorted leastsq s t ts a b o fit =
      let (last, h, le) = get_last?_above t ts o in calculate_fit_all leastsq s t ts h le ∙ fit
