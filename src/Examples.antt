-- ===== src/Examples.antt =====
-- The theorems at concrete inputs, and tests of the definitions. The floats are thousandths, with
-- every operation rounded down to a whole one: a type that meets the laws that the theorems ask.
mod Thousandths
mod Readers
mod Runs
mod Charts
mod Pages
use dnstools.Examples.Thousandths.{Milli, milli, milli-IsDecimal, milli-IsHalving}
use dnstools.Chart.{series, of_nat, nanoseconds, Num, Point, Series, float, int}
use dnstools.Prelude.Int.{◌+ℤ◌, ◌-ℤ◌, ℤ, pos}
use dnstools.Prelude.{
  leb, length, get_elem?, get_last?, All, every, ◌>>=◌, map_result, ok, ℕ, zero, suc, ◌+◌, ◌*◌, ◌≤◌,
  ◌<◌, ◌≡◌, refl, ◌≢◌, true, false, none, some, List, [], ◌∷◌, ◌++◌, map, arith,
}
use dnstools.Dump.Members.{find_fits-jload}
use dnstools.Dump.{find_fits, Document, Pair, jload}
use dnstools.LinearFit.{Solver, calculate_fit}
use dnstools.LinearFit.Window.{calculate_fit_any_window}
use dnstools.Preview
use dnstools.Preview.{rate_round, next_rate, preview_rates}
use dnstools.Preview.Rounding.{tenths, rate_round_ends}
use dnstools.Preview.Search.{preview_rates_between}
use dnstools.FitTool
use dnstools.FitTool.Lost.{main_lost}
use dnstools.Grinder.Counts.{make_count}
use dnstools.Grinder.Counts.Samples.{IsSample, point_at, make_count-IsSample}
use dnstools.Grinder.Counts.Size.{length-make_count}
use dnstools.Grinder.Rates.{make_rate}
use dnstools.Grinder.Rates.Segments.{Segments, IsQuiet}
use dnstools.Grinder.Rates.Whole.{make_rate-Segments, make_rate-Segments_sampled, IsTail}
use dnstools.Grinder.Queue.{make_queue, counter_of}
use dnstools.Grinder.Queue.Balance.{IsCausal}
use dnstools.Prelude.Sort.{sorted}
use dnstools.Grinder.Queue.{time}
use dnstools.Grinder.Queue.Means.{levels, IsMeans}
use dnstools.Grinder.Queue.Levels.{IsLevel, IsAverage}
use dnstools.Grinder.Queue.Whole.{make_queue-IsLevel, make_queue-IsAverage}

-- `leastsq` on whole data: the slope from the first to the last count, for the tests.
abbrev slope : Solver Milli
slope residual guess = do rs ← residual (0 ∷ 0 ∷ []); ok (0 ∷ (length rs * 1000) ∷ [])

abbrev times : List ℤ
times = pos 1000 ∷ pos 1500 ∷ pos 1500 ∷ pos 2500 ∷ []

abbrev long_times : ℕ → ℕ → List ℤ
long_times zero t = []
long_times (suc n) t = pos t ∷ long_times n (t + 1_000_000)

abbrev no_fits : List (Series Milli)
no_fits = []

-- A line beside the count, so that the chart has a quarter of a hundred points.
abbrev one_fit : List (Series Milli)
one_fit = series [] [] [] ∷ []

-- 60 timestamps beside a fit: every second one, the first, and no tail.
count_example :
    (make_count {F = Milli} (long_times 5 0) [] (some (pos 0)) no_fits [])
    ≡ ok (
        series
          (map (λ k. record { x = k * 1000; y = Num.int (pos (k + 1)) }) (0 ∷ 1 ∷ 2 ∷ 3 ∷ 4 ∷ []))
          []
          [])
unfolding make_count map_result ◌-ℤ◌
count_example = refl

make_count-IsSample_example :
    (ps : List (Point Milli)) × (make_count (long_times 61 0) [] (some (pos 0)) one_fit []
      ≡ ok (series ps [] []))
    × All (IsSample (pos 0) (long_times 61 0)) ps
    × (long_times 61 0 ≢ []
        → (t : ℤ) × (get_last? (long_times 61 0) ≡ some t)
          × (get_last? ps ≡ some (point_at (pos 0) t 61)))
make_count-IsSample_example = make_count-IsSample (long_times 61 0) [] (pos 0) one_fit []

length-make_count_example :
    (c : Series Milli) × (make_count (long_times 61 0) [] (some (pos 0)) one_fit [] ≡ ok c)
    × (length c.values < 50)
length-make_count_example = length-make_count (long_times 61 0) [] (pos 0) one_fit []

make_rate-Segments_example :
    (ps : List (Point Milli)) × (j : ℕ) × (last : ℤ) × (make_rate times []
        (some (pos 1000))
        no_fits
        []
      ≡ ok (series ps [] []))
    × Segments (pos 1000) nanoseconds times 0 ps j
    × (get_elem? times j ≡ some last)
    × IsQuiet times j 4 last
make_rate-Segments_example =
    make_rate-Segments (pos 1000) (pos 1500 ∷ pos 1500 ∷ pos 2500 ∷ []) [] (pos 1000) no_fits []
      (omega arith)

make_rate-Segments_sampled_example :
    let ts = long_times 61 0 in
    let samples = every 1 2 ts in
    (ps tail : List (Point Milli)) × (j : ℕ) × (last : ℤ) × (make_rate ts []
        (some (pos 0))
        one_fit
        []
      ≡ ok (series (ps ++ tail) [] []))
    × Segments (pos 0) (milli.mul nanoseconds (of_nat 2)) (pos 0 ∷ samples) 0 ps j
    × (get_elem? (pos 0 ∷ samples) j ≡ some last)
    × IsQuiet (pos 0 ∷ samples) j (suc (length samples)) last
    × IsTail (pos 0) ts last (length samples * 2) tail
make_rate-Segments_sampled_example =
    make_rate-Segments_sampled (pos 0) (long_times 60 1_000_000) [] (pos 0) one_fit [] (omega arith)

abbrev exchanges : List Pair
exchanges = (pos 10 ∷ pos 40 ∷ pos 30 ∷ []) ∷ (pos 20 ∷ []) ∷ (pos 30 ∷ pos 30 ∷ pos 0 ∷ []) ∷ []

make_queue-IsLevel_example :
    (ps : List (Point Milli)) × (make_queue exchanges [] (some (pos 10)) [] ≡ ok (series ps [] []))
    × All IsLevel ps
    × (counter_of exchanges ≢ []
        → (p : Point Milli) × (get_last? ps ≡ some p) × (p.y ≡ Num.int (pos 1)))
make_queue-IsLevel_example =
    make_queue-IsLevel Milli exchanges [] (pos 10) [] (omega arith) (omega arith)

abbrev many : ℕ → List Pair
many zero = []
many (suc n) = (pos 1 ∷ pos 2 ∷ pos 1 ∷ []) ∷ many n

many-IsCausal : (n : ℕ) → IsCausal (many n)
many-IsCausal zero = tt
many-IsCausal (suc n) = (omega arith, many-IsCausal n)

counter_of-many : (n : ℕ) → counter_of (many (suc n)) ≢ []
unfolding counter_of
counter_of-many n e = cc

make_queue-IsAverage_example :
    (ps : List (Point Milli)) × (make_queue (many 1000) [] (some (pos 0)) [] ≡ ok (series ps [] []))
    × IsMeans (pos 0) 2 (levels (pos 0) (sorted time (counter_of (many 1000)))) ps
    × All IsAverage ps
make_queue-IsAverage_example =
    make_queue-IsAverage Milli (many 1000) [] (pos 0) [] (many-IsCausal 1000) (omega arith)
      (counter_of-many 999)

abbrev dump : Document Milli
dump = record {
  sends = some (pos 1 ∷ pos 2 ∷ pos 3 ∷ []);
  receives = some (pos 5 ∷ pos 6 ∷ pos 0 ∷ []);
  pairs = none;
  fits = none;
}

find_fits-jload_example : find_fits "sends" (jload dump).fits ≡ some []
unfolding find_fits
find_fits-jload_example = find_fits-jload "sends" dump

abbrev wide : List (Num Milli)
wide = Num.int (pos 0) ∷ Num.int (pos 5000) ∷ []

abbrev narrow : List (Num Milli)
narrow = Num.int (pos 0) ∷ Num.int (pos 600) ∷ []

calculate_fit_any_window_example : ◌≡◌ {A = List Milli} (0 ∷ 4000 ∷ []) (0 ∷ 4000 ∷ [])
unfolding calculate_fit map_result ◌-ℤ◌
calculate_fit_any_window_example =
    calculate_fit_any_window slope times (pos 1000) wide narrow [] {a = 0 ∷ 4000 ∷ []}
      {b = 0 ∷ 4000 ∷ []} refl refl

rate_round_ends_example :
    (n : ℕ) × (n ≤ 5)
    × (milli.lt (of_nat 100) (tenths {F = Milli} n 54_321_000) ≡ false)
    × (rate_round {F = Milli} 6 54_321_000
        ≡ some (
            milli.to_int (
              milli.mul
                (milli.round (tenths {F = Milli} n 54_321_000))
                (milli.pow (of_nat 10) (of_nat n)))))
rate_round_ends_example = rate_round_ends milli-IsDecimal 5 54_321_000 (omega arith) refl

rounded : rate_round {F = Milli} 6 54_321_000 ≡ some (ok (pos 54_000))
unfolding rate_round
rounded = refl

preview_rates_between_example :
    (pos 1 ≡ pos 1)
    × (0 < 1 → (leb 10_000 15_000 ≡ true) × (leb 15_000 20_000 ≡ true))
    × (◌≡◌ {A = ℕ} 1 0 → (leb 20_000 15_000 ≡ true) × (leb 15_000 40_000 ≡ true))
unfolding preview_rates next_rate Preview.jload calculate_fit map_result ◌-ℤ◌ ◌+ℤ◌
preview_rates_between_example =
    preview_rates_between milli-IsHalving slope dump (pos 1 ∷ pos 2 ∷ pos 3 ∷ [])
      (pos 5 ∷ pos 6 ∷ []) 1 (pos 10) (pos 40) (pos 20) {rate = 3000} {next = 15_000} {lost = pos 1}
      refl refl (omega arith) refl (omega arith) (omega arith) (omega arith) refl

main_lost_example :
    (pos 1 ≡ pos 1)
    × ((pos 5 ∷ pos 6 ∷ []) ≡ [] → ◌≡◌ {A = Num Milli} (Num.float 2000) (Num.int (pos 0)))
unfolding FitTool.main FitTool.jload calculate_fit map_result ◌-ℤ◌
main_lost_example =
    main_lost slope dump (pos 1 ∷ pos 2 ∷ pos 3 ∷ []) (pos 5 ∷ pos 6 ∷ []) 1
      {r = record { send = 3000; recv = Num.float 2000; lost = pos 1 }} refl refl (omega arith) refl
      refl
