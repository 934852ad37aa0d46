-- ===== src/LinearFit.antt =====
-- `calculate_fit`, which mig/analyser/grinder.py, fit.py and preview.py have in the same words, and
-- `make_fit` of grinder.py. `scipy.optimize.leastsq` is not part of the repository: it is an
-- argument.
pub mod Window
pub mod Whole
use dnstools.Chart.{
  Text, of_nat, nanoseconds, to_float, num_le, minus, known, item, Floats, Num, Series, int,
}
use dnstools.Prelude.Int.{◌-ℤ◌, ℤ}
use dnstools.Prelude.{
  if◌then◌else◌, get_elem?, get_last?, enumerate_from, ◌>>=◌, map_result, Error, Result, ok, err, ℕ,
  ◌+◌, ◌&&◌, Option, List, [], ◌∷◌, map,
}
use dnstools.Dump.{Params}

-- `leastsq(f, x0)[0]`: from the residuals as a function of the parameters, and a first guess.
abbrev pub Solver {ℓ} : Type ℓ → Type ℓ
Solver F = (List F → Result (List F)) → List F → Result (List F)

-- `timestamp_train, count_train = zip(*points)` of no points is an unpacking of nothing.
abbrev pub unzip_points : List (ℤ × ℕ) → Result (List ℤ × List ℕ)
unzip_points [] = err Error.value_error
unzip_points (p ∷ ps) = ok (map (λ (t, n). t) (p ∷ ps), map (λ (t, n). n) (p ∷ ps))

module _ {ℓ} {F : Type ℓ} ⦃f : Floats F⦄ where
  -- `x[0] + x[1]*(timestamp - start)/__NANOSECONDS`
  pub linear_count : ℤ → List F → ℤ → Result F
  linear_count start x timestamp = do
    x0 ← item (get_elem? x 0)
    x1 ← item (get_elem? x 1)
    ok (f.add x0 (f.div (f.mul x1 (f.of_int (timestamp -ℤ start))) nanoseconds))

  -- One residual for each timestamp: the fitted count less the count.
  unfoldable pub residuals : ℤ → List ℤ → List F → Result (List F)
  unfolding linear_count
  residuals start timestamps x =
      map_result (λ (i, t). do fitted ← linear_count start x t; ok (f.sub fitted (of_nat (i + 1))))
        (enumerate_from 0 timestamps)

  -- `left` and `right`.
  pub window : List ℤ → Option ℤ → Params F → Result (Num F × Num F)
  window timestamps start [] = do
    first ← item (get_elem? timestamps 0)
    left ← minus first start
    last ← item (get_last? timestamps)
    right ← minus last start
    ok (Num.int left, Num.int right)
  window timestamps start ((left ∷ right ∷ []) ∷ _) = ok (left, right)
  window timestamps start (_ ∷ _) = err Error.value_error

  -- The list `points`: the timestamps of the window with their numbers.
  pub points_between : Option ℤ → Num F → Num F → ℕ → List ℤ → Result (List (ℤ × ℕ))
  points_between start left right i [] = ok []
  points_between start left right i (t ∷ ts) = do
    d ← minus t start
    rest ← points_between start left right (i + 1) ts
    ok (if num_le left (Num.int d) && num_le (Num.int d) right then (t, i + 1) ∷ rest else rest)

  -- `params[1] if len(params) > 1 else [0., 1.]`
  abbrev pub first_guess : Params F → List F
  first_guess (_ ∷ x0 ∷ _) = map to_float x0
  first_guess _ = of_nat 0 ∷ of_nat 1 ∷ []

  -- The training lists that the window selects are assigned again, from all timestamps.
  unfoldable pub calculate_fit : Solver F → List ℤ → Option ℤ → Params F → Result (List F)
  unfolding window points_between residuals
  calculate_fit leastsq timestamps start params = do
    (left, right) ← window timestamps start params
    ps ← points_between start left right 0 timestamps
    trained ← unzip_points ps
    s ← known start
    leastsq (residuals s timestamps) (first_guess params)

  -- Behind the call of `calculate_fit` the code of `make_fit` reads `right`, `left` and
  -- `linear_count`, which are local to `calculate_fit`: the first of them raises.
  unfoldable pub make_fit :
      Solver F → List ℤ → Text → Text → Option ℤ → Params F → Text → Result (Series F × Series F)
  unfolding calculate_fit
  make_fit leastsq timestamps count_name rate_name start params color = do
    fit ← calculate_fit leastsq timestamps start params
    err Error.name_error
