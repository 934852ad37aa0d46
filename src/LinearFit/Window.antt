-- ===== src/LinearFit/Window.antt =====
-- The window of a fit, and the exceptions of `make_fit`, of mig/analyser/grinder.py.
use dnstools.Chart.{Text, Floats, Num}
use dnstools.Prelude.Int.{ℤ}
use dnstools.Prelude.{
  ◌>>=◌, >>=-eq-ok, Result-cases, ok-injective, Error, ok, err, ◌≡◌, refl, sym, ap, ◌∙◌, ◌⊎◌, inl,
  inr, Option, some, List, [], ◌∷◌,
}
use dnstools.Dump.{Params}
use dnstools.LinearFit.{
  Solver, residuals, first_guess, window, points_between, unzip_points, calculate_fit, make_fit,
}

module _ {ℓ} {F : Type ℓ} ⦃f : Floats F⦄ where
  -- If `calculate_fit` returns, it returns what the solver makes of all timestamps.
  calculate_fit_result :
      (leastsq : Solver F) (ts : List ℤ) (s : ℤ) (params : Params F) {u : List F}
      → calculate_fit leastsq ts (some s) params ≡ ok u
      → leastsq (residuals s ts) (first_guess params) ≡ ok u
  unfolding calculate_fit
  calculate_fit_result leastsq ts s params h =
      let (w, _, h1) = >>=-eq-ok (window ts (some s) params) _ h in
      let (ps, _, h2) = >>=-eq-ok (points_between (some s) w.0 w.1 0 ts) _ h1 in
      let (t, _, h3) = >>=-eq-ok (unzip_points ps) _ h2 in h3

  -- Two fits of one list that differ in the window alone give the same result, whenever both give
  -- one: the window that the caller asks for is not fitted, all timestamps are.
  pub calculate_fit_any_window :
      (leastsq : Solver F) (ts : List ℤ) (s : ℤ) (v w : List (Num F)) (rest : Params F)
      {a b : List F}
      → calculate_fit leastsq ts (some s) (v ∷ rest) ≡ ok a
      → calculate_fit leastsq ts (some s) (w ∷ rest) ≡ ok b
      → a ≡ b
  calculate_fit_any_window leastsq ts s v w rest h k = ok-injective (
      sym (calculate_fit_result leastsq ts s (v ∷ rest) h)
      ∙ same rest
      ∙ calculate_fit_result leastsq ts s (w ∷ rest) k)
    where
      same :
          (r : Params F)
          → leastsq (residuals s ts) (first_guess (v ∷ r))
            ≡ leastsq (residuals s ts) (first_guess (w ∷ r))
      same [] = refl
      same (x ∷ r) = refl

  make_fit_of :
      (leastsq : Solver F) (ts : List ℤ) (n r : Text) (start : Option ℤ) (params : Params F)
      (c : Text)
      → make_fit leastsq ts n r start params c
        ≡ (calculate_fit leastsq ts start params >>= λ _. err Error.name_error)
  unfolding make_fit
  make_fit_of leastsq ts n r start params c = refl

  -- `make_fit` raises an exception whatever its arguments are: that of `calculate_fit`, or, where
  -- `calculate_fit` returns, a `NameError`.
  pub make_fit_raises :
      (leastsq : Solver F) (ts : List ℤ) (n r : Text) (start : Option ℤ) (params : Params F)
      (c : Text)
      → ((u : List F) × (calculate_fit leastsq ts start params ≡ ok u)
          × (make_fit leastsq ts n r start params c ≡ err Error.name_error))
        ⊎ ((e : Error) × (calculate_fit leastsq ts start params ≡ err e)
            × (make_fit leastsq ts n r start params c ≡ err e))
  make_fit_raises leastsq ts n r start params c =
      elim (Result-cases (calculate_fit leastsq ts start params)) [
        | inl (u, h) ↦ inl (
          u,
          h,
          make_fit_of leastsq ts n r start params c ∙ ap (λ m. m >>= λ _. err Error.name_error) h,
        )
        | inr (e, h) ↦ inr (
          e,
          h,
          make_fit_of leastsq ts n r start params c ∙ ap (λ m. m >>= λ _. err Error.name_error) h,
        )
      ]
