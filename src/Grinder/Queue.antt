-- ===== src/Grinder/Queue.antt =====
-- `make_queue` of mig/analyser/grinder.py, the chart of the queries in the air: a query counts from
-- its sending to its answer.
pub mod Balance
pub mod Levels
pub mod Means
pub mod Windows
pub mod Whole
pub mod InAir
use dnstools.Chart.{
  Text, series, millisecond, over, fit_points, minus, known, Floats, Num, Point, Series, float, int,
}
use dnstools.Prelude.Int.{◌+ℤ◌, ℤ, pos, negsuc}
use dnstools.Prelude.{
  leb, ◌==◌, if◌then◌else◌, length, ◌>>=◌, Result, ok, ℕ, ◌+◌, ◌/◌, ◌%◌, true, false, Option, List,
  [], ◌∷◌, ◌++◌,
}
use dnstools.Prelude.Sort.{sorted}
use dnstools.Dump.{Pair}
use dnstools.Grinder.Counts.{last_index}

-- A time, and the change of the queue.
abbrev pub Event : Type 0
Event = ℤ × ℤ

abbrev pub time : Event → ℤ
time e = e.0

-- The list `counter`, before it is sorted.
unfoldable pub counter_of : List Pair → List Event
counter_of [] = []
counter_of ([] ∷ pairs) = counter_of pairs
counter_of ((sent ∷ []) ∷ pairs) = (sent, pos 1) ∷ counter_of pairs
counter_of ((sent ∷ received ∷ _) ∷ pairs) = (sent, pos 1) ∷ (received, negsuc 0) ∷ counter_of pairs

module _ {ℓ} {F : Type ℓ} ⦃f : Floats F⦄ where
  -- The `for` of short lists: one point for each event.
  pub queue_loop : Option ℤ → ℤ → List Event → Result (List (Point F))
  queue_loop start queue [] = ok []
  queue_loop start queue ((timestamp, increment) ∷ events) = do
    d ← minus timestamp start
    ps ← queue_loop start (queue +ℤ increment) events
    ok (record { x = f.div (f.of_int d) millisecond; y = Num.int (queue +ℤ increment) } ∷ ps)

  -- `{"x": (float(timestamps)/n - start)/__MILLISECOND, "y": float(queues)/n}`
  pub average_point : Option ℤ → ℤ → ℤ → ℕ → Result (Point F)
  average_point start timestamps queues n = do
    t ← over (f.of_int timestamps) (pos n)
    s ← known start
    q ← over (f.of_int queues) (pos n)
    ok (record { x = f.div (f.sub t (f.of_int s)) millisecond; y = Num.float q })

  -- The `for` of long lists, from the i-th event, with `timestamps` and `queues` behind it.
  pub average_loop : Option ℤ → ℕ → ℕ → ℤ → ℤ → ℤ → List Event → Result (List (Point F) × ℤ × ℤ)
  unfolding average_point
  average_loop start step i queue timestamps queues [] = ok ([], timestamps, queues)
  average_loop start step i queue timestamps queues ((timestamp, increment) ∷ events) =
      let q = queue +ℤ increment in
      let ts = timestamps +ℤ timestamp in
      let qs = queues +ℤ q in
      elim ((i + 1) % step == 0) [
        | true ↦ do
          p ← average_point start ts qs step
          (ps, t', q') ← average_loop start step (i + 1) q (pos 0) (pos 0) events
          ok (p ∷ ps, t', q')
        | false ↦ average_loop start step (i + 1) q ts qs events
      ]

  -- The branch of long lists.
  pub averages : Option ℤ → ℕ → List Event → Result (List (Point F))
  unfolding average_loop
  averages start step counter = do
    (ps, timestamps, queues) ← average_loop start step 0 (pos 0) (pos 0) (pos 0) counter
    i ← last_index counter
    tail ←
        (let remainder = (i + 1) % step in
          if remainder == 0
          then ok []
          else (do p ← average_point start timestamps queues remainder; ok (p ∷ [])))
    ok (ps ++ tail)

  unfoldable pub make_queue : List Pair → Text → Option ℤ → Text → Result (Series F)
  unfolding queue_loop averages counter_of sorted
  make_queue pairs name start color = do
    let step = length pairs / fit_points
    let counter = sorted time (counter_of pairs)
    ps ← if leb step 1 then queue_loop start (pos 0) counter else averages start step counter
    ok (series ps name color)
