-- ===== src/Grinder/Rates.antt =====
-- `make_rate` of mig/analyser/grinder.py, the chart of the message rate over time: one point for
-- each pair of successive different timestamps, of all messages or of every `step`-th.
pub mod Segments
pub mod Whole
use dnstools.Chart.{
  Text, series, of_nat, millisecond, nanoseconds, over, item, Floats, Num, Point, Series, float,
}
use dnstools.Prelude.Int.{◌+ℤ◌, ◌-ℤ◌, ltb_ℤ, leb_ℤ, ℤ}
use dnstools.Prelude.{
  ltb, leb, if◌then◌else◌, length, get_elem?, drop, get_last?, every, ◌>>=◌, Error, Result, ok, err,
  ℕ, ◌+◌, ◌-◌, ◌*◌, true, false, Option, none, some, List, [], ◌∷◌, ◌++◌,
}
use dnstools.Grinder.Counts.{last_index, step_of}

module _ {ℓ} {F : Type ℓ} ⦃f : Floats F⦄ where
  -- `(timestamp + previous - 2*start)/__MILLISECOND/2`
  abbrev pub middle : Option ℤ → ℤ → ℤ → Result F
  middle none previous timestamp = err Error.type_error
  middle (some s) previous timestamp =
      ok (f.div (f.div (f.of_int (timestamp +ℤ previous -ℤ (s +ℤ s))) millisecond) (of_nat 2))

  -- The point between two timestamps, for a number of messages per second and step.
  pub rate_point : Option ℤ → F → ℤ → ℤ → ℕ → Result (Point F)
  rate_point start scale previous timestamp count = do
    at ← middle start previous timestamp
    rate ← over (f.mul scale (of_nat count)) (timestamp -ℤ previous)
    ok (record { x = at; y = Num.float rate })

  -- The `for`, with what `data`, `previous` and the counter are behind it. The counter is `count`
  -- in the one branch and `steps` in the other, where `scale` is `__NANOSECONDS*step`.
  pub rate_loop : Option ℤ → F → ℤ → ℕ → List ℤ → Result (List (Point F) × ℤ × ℕ)
  unfolding rate_point
  rate_loop start scale previous count [] = ok ([], previous, count)
  rate_loop start scale previous count (t ∷ ts) = elim (leb_ℤ t previous) [
    | true ↦ rate_loop start scale previous (count + 1) ts
    | false ↦ do
      p ← rate_point start scale previous t count
      (ps, last, n) ← rate_loop start scale t 1 ts
      ok (p ∷ ps, last, n)
  ]

  rate_to : Option ℤ → ℤ → ℤ → ℕ → Result (List (Point F))
  unfolding rate_point
  rate_to start previous t count =
      if ltb_ℤ previous t
      then (do p ← rate_point start nanoseconds previous t count; ok (p ∷ []))
      else ok []

  -- The last point, where the slice stops short of the end.
  pub rate_tail : Option ℤ → List ℤ → ℤ → ℕ → Result (List (Point F))
  unfolding rate_to
  rate_tail start timestamps previous done =
      if ltb done (length timestamps)
      then (do t ← item (get_last? timestamps); rate_to start previous t (length timestamps - done))
      else ok []

  -- The branch of long lists.
  pub sampled_rates : Option ℤ → List ℤ → ℕ → ℤ → Result (List (Point F))
  unfolding rate_loop rate_tail
  sampled_rates start timestamps step t0 = do
    let samples = every (step - 1) step timestamps
    (ps, previous, steps) ← rate_loop start (f.mul nanoseconds (of_nat step)) t0 1 samples
    i ← last_index samples
    tail ← rate_tail start timestamps previous ((i + 1) * step)
    ok (ps ++ tail)

  unfoldable pub make_rate : List ℤ → Text → Option ℤ → List (Series F) → Text → Result (Series F)
  unfolding sampled_rates
  make_rate timestamps name start fit color = do
    let step = step_of timestamps fit
    t0 ← item (get_elem? timestamps 0)
    ps ←
        if leb step 1
        then (do
          (ps, previous, count) ← rate_loop start nanoseconds t0 1 (drop 1 timestamps)
          ok ps)
        else sampled_rates start timestamps step t0
    ok (series ps name color)
