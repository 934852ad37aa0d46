-- ===== src/Grinder/Counts.antt =====
-- `make_count` of mig/analyser/grinder.py, the chart of the number of messages over time: all
-- timestamps, or every `step`-th of a long list.
pub mod Samples
pub mod Size
use dnstools.Prelude.{
  ltb, leb, if◌then◌else◌, length, get_elem?, get_last?, enumerate_from, every, ◌>>=◌, map_result,
  Error, Result, ok, err, ℕ, ◌+◌, ◌-◌, ◌*◌, ◌/◌, ◌≤◌, ◌<◌, ◌≡◌, ap, Option, List, [], ◌∷◌, ◌++◌,
  arith,
}
use dnstools.Prelude.Int.{ℤ, pos}
use dnstools.Chart.{
  Text, series, truthy, millisecond, points, fit_points, minus, item, Floats, Num, Point, Series,
  int,
}

-- The variable `i` behind `for i, x in enumerate(xs)`.
abbrev pub last_index {ℓ} : {A : Type ℓ} → List A → Result ℕ
last_index [] = err Error.unbound_local
last_index (x ∷ xs) = ok (length xs)

pub last_index_lem {ℓ} :
    {A : Type ℓ} (xs : List A) → 0 < length xs → last_index xs ≡ ok (length xs - 1)
last_index_lem [] h = absurd (omega arith)
last_index_lem (x ∷ xs) h = ap ok (omega arith)

-- `step = len(timestamps)/(__POINTS if fit else __FITPOINTS)`
abbrev pub step_of {ℓ} : {F : Type ℓ} → List ℤ → List (Series F) → ℕ
step_of timestamps fit = length timestamps / (if truthy fit then points else fit_points)

pub step_of_le {ℓ} : {F : Type ℓ} (ts : List ℤ) (fit : List (Series F)) → step_of ts fit ≤ length ts
step_of_le ts [] = omega arith
step_of_le ts (x ∷ fit) = omega arith

module _ {ℓ} {F : Type ℓ} ⦃f : Floats F⦄ where
  -- `{"x": (timestamp - start)/__MILLISECOND, "y": n}`
  abbrev pub count_point : Option ℤ → ℤ → ℕ → Result (Point F)
  count_point start timestamp n = do
    d ← minus timestamp start
    ok (record { x = f.div (f.of_int d) millisecond; y = Num.int (pos n) })

  -- The last point, where the slice stops short of the end.
  count_tail : Option ℤ → List ℤ → ℕ → Result (List (Point F))
  count_tail start timestamps done =
      if ltb done (length timestamps)
      then (do
        t ← item (get_last? timestamps)
        p ← count_point start t (length timestamps)
        ok (p ∷ []))
      else ok []

  -- The branch of long lists: the first timestamp, every `step`-th, and the last.
  sampled_points : Option ℤ → List ℤ → ℕ → Result (List (Point F))
  unfolding count_tail
  sampled_points start timestamps step = do
    t0 ← item (get_elem? timestamps 0)
    first ← count_point start t0 1
    let samples = every (step - 1) step timestamps
    rest ← map_result (λ (i, t). count_point start t ((i + 1) * step)) (enumerate_from 0 samples)
    i ← last_index samples
    tail ← count_tail start timestamps ((i + 1) * step)
    ok (first ∷ rest ++ tail)

  unfoldable pub make_count : List ℤ → Text → Option ℤ → List (Series F) → Text → Result (Series F)
  unfolding sampled_points
  make_count timestamps name start fit color = do
    let step = step_of timestamps fit
    ps ←
        if leb step 1
        then map_result (λ (i, t). count_point start t (i + 1)) (enumerate_from 0 timestamps)
        else sampled_points start timestamps step
    ok (series ps name color)
