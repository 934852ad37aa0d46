-- ===== src/Examples/Runs.antt =====
-- Tests of `main` of mig/analyser/grinder.py, and the theorems about it at concrete inputs.
use dnstools.Chart.{Text, codes, Series}
use dnstools.Prelude.Int.{◌-ℤ◌, pos}
use dnstools.Prelude.{
  length, ◌>>=◌, map_result, Result, IsRaised, ok, ℕ, ◌*◌, ◌≡◌, refl, true, false, Option, none,
  some, List, [], ◌∷◌, ◌++◌, map, arith,
}
use dnstools.Examples.Thousandths.{Milli, milli, milli-IsMonotone, milli-IsOrdered}
use dnstools.Examples.Readers.{is_folder, no_fixed}
use dnstools.LinearFit.{Solver, residuals}
use dnstools.Dump.{jload, Document, Pair, find_fits, sends_mark}
use dnstools.Grinder.Queue.{counter_of}
use dnstools.Grinder.Inputs.{Input, enumerate_inputs, label_inputs}
use dnstools.Grinder.Report.{
  Options, Page, RateSeries, rate_chart, counts_chart, rates_chart, latency_chart, queue_chart,
  Report, add_run, add_rates, limited, additional,
}
use dnstools.Grinder.Report.Raises.{add_run_no_answers, add_run_fits}
use dnstools.Grinder.Report.Returns.{IsChartable, rated, add_run_returns}
use dnstools.Grinder.Report.Drawn.{IsExtended, SameRates, IsSourced}
use dnstools.Grinder.Main.{main, empty_report}
use mathlib.Core.List.{Perm}
use dnstools.Grinder.Main.Points.{IsAscending}
use dnstools.Grinder.Main.Rates.{references, receptions, main_rates}
use dnstools.Grinder.Main.Raises.{main_no_answers}
use dnstools.Grinder.Main.Whole.{AllChartable, IsShown, names_of, name_of, main_charts}

-- `leastsq` on whole data: the slope from the first to the last count.
abbrev pub count_slope : Solver Milli
count_slope residual guess = do rs ← residual (0 ∷ 0 ∷ []); ok (0 ∷ (length rs * 1000) ∷ [])

abbrev pub exchanged : List Pair
exchanged = (pos 10 ∷ pos 40 ∷ pos 30 ∷ []) ∷ (pos 20 ∷ []) ∷ []

abbrev pub answered : Document Milli
answered = record {
  sends = some (pos 10 ∷ pos 20 ∷ []);
  receives = some (pos 40 ∷ pos 0 ∷ []);
  pairs = some exchanged;
  fits = none;
}

abbrev lost : Document Milli
lost = record {
  sends = some (pos 10 ∷ pos 20 ∷ []);
  receives = some (pos 0 ∷ pos 0 ∷ []);
  pairs = none;
  fits = none;
}

abbrev fitted : Document Milli
fitted = record {
  sends = some (pos 10 ∷ pos 20 ∷ []);
  receives = some (pos 40 ∷ pos 0 ∷ []);
  pairs = some exchanged;
  fits = some ((sends_mark, [] ∷ []) ∷ []);
}

abbrev pub plain_options : Options
plain_options = record {
  title = codes "Receiving";
  details = [];
  from_point = none;
  to_point = none;
  no_fit = false;
  rates = true;
}

abbrev pub two_names : Text → List Text
two_names path = map codes ("test-200.json" ∷ "test-40.json" ∷ [])

abbrev pub folder : List Text
folder = map codes ("a" ∷ [])

abbrev two_inputs : List Input
two_inputs = label_inputs {F = Milli} no_fixed (enumerate_inputs is_folder two_names folder)

-- The slower run comes first; it has the colour and the number of its place in the directory.
two_inputs_listed :
    map {B = ℕ × Option Text} (λ i. (i.count, i.label)) two_inputs
    ≡ (1, some (codes "40")) ∷ (0, some (codes "200")) ∷ []
unfolding enumerate_inputs label_inputs
two_inputs_listed = refl

pub always : Document Milli → Text → Result (Document Milli)
always d path = ok d

answered-IsChartable : IsChartable count_slope plain_options (jload answered)
unfolding limited find_fits jload residuals counter_of map_result ◌-ℤ◌
answered-IsChartable = record {
  first_send = pos 10;
  sends = pos 20 ∷ [];
  first_receive = pos 40;
  receives = [];
  sends_left = refl;
  receives_left = refl;
  causal = omega arith;
  some_pair = λ e. cc;
  no_sends_fit = refl;
  no_receives_fit = refl;
  sent = some 2000;
  received = some 1000;
  sends_rated = rated (pos 10) (pos 20 ∷ []) 0 2000 refl refl (omega arith) refl refl;
  receives_rated = rated (pos 40) [] 0 1000 refl refl (omega arith) refl refl;
}

pub two_inputs-AllChartable : AllChartable (always answered) count_slope plain_options two_inputs
unfolding enumerate_inputs label_inputs always
two_inputs-AllChartable =
    ((answered, refl, answered-IsChartable), ((answered, refl, answered-IsChartable), tt))

main_charts_example :
    (charts : List (Page Milli)) × (cs rs ps qs : List (Series Milli)) × (main no_fixed is_folder
        two_names
        (always answered)
        count_slope
        plain_options
        folder
      ≡ ok (charts ++ (counts_chart cs ∷ rates_chart rs ∷ latency_chart ps ∷ queue_chart qs ∷ [])))
    × IsShown 2 (names_of (codes "Sent") (codes "Received") [] two_inputs) cs
    × IsShown 2 (names_of (codes "Sending") (codes "Receiving") [] two_inputs) rs
    × IsShown 1 (name_of (codes "Delay") [] two_inputs) ps
    × IsShown 1 (name_of (codes "Queue") [] two_inputs) qs
main_charts_example =
    main_charts milli-IsMonotone no_fixed is_folder two_names (always answered) count_slope
      plain_options folder two_inputs-AllChartable

named_series :
    names_of (codes "Sent") (codes "Received") [] two_inputs
    ≡ map codes ("Sent (40)" ∷ "Received (40)" ∷ "Sent (200)" ∷ "Received (200)" ∷ [])
unfolding enumerate_inputs label_inputs additional
named_series = refl

abbrev one_input : Input
one_input = record { count = 0; path = codes "a"; speed = none; label = none }

add_run_returns_example :
    (r' : Report Milli) × (add_run count_slope plain_options one_input (jload answered) empty_report
      ≡ ok r')
    × IsExtended (additional [] 0 none) (add_rates none (some 2000) (some 1000) empty_report) r'
    × SameRates (add_rates none (some 2000) (some 1000) empty_report) r'
    × IsSourced
        (pos 10 ∷ pos 20 ∷ [])
        (pos 40 ∷ [])
        exchanged
        (some (pos 10))
        (additional [] 0 none)
        (add_rates none (some 2000) (some 1000) empty_report)
        r'
unfolding limited jload answered-IsChartable
add_run_returns_example =
    add_run_returns milli-IsMonotone count_slope plain_options one_input (jload answered)
      empty_report answered-IsChartable

add_run_no_answers_example :
    IsRaised (add_run count_slope plain_options one_input (jload lost) empty_report)
unfolding limited jload
add_run_no_answers_example =
    add_run_no_answers count_slope plain_options one_input (jload lost) empty_report refl

add_run_fits_example :
    IsRaised (add_run count_slope plain_options one_input (jload fitted) empty_report)
unfolding find_fits jload
add_run_fits_example =
    add_run_fits count_slope plain_options one_input (jload fitted) empty_report [] [] refl refl

main_no_answers_example :
    IsRaised (main no_fixed is_folder two_names (always lost) count_slope plain_options folder)
unfolding enumerate_inputs label_inputs always limited jload
main_no_answers_example =
    main_no_answers no_fixed is_folder two_names (always lost) count_slope plain_options folder
      ((record {
        count = 1;
        path = codes "a/test-40.json";
        speed = some 40;
        label = some (codes "40");
      })
        ∷ [])
      (record {
        count = 0;
        path = codes "a/test-200.json";
        speed = some 200;
        label = some (codes "200");
      })
      [] lost refl refl refl

-- The rates of the two inputs: 2000 queries and 1000 answers a second.
abbrev known_rates : List (Option Milli × Option Milli)
known_rates = (some 2000, some 1000) ∷ (some 2000, some 1000) ∷ []

main_rates_example :
    (before after : List (Page Milli)) × (a b : RateSeries Milli) × (main no_fixed is_folder
        two_names
        (always answered)
        count_slope
        plain_options
        folder
      ≡ ok (before ++ (rate_chart a b ∷ after)))
    × (b.key ≡ codes "Receiving")
    × Perm a.values (references known_rates)
    × Perm b.values (receptions known_rates)
    × IsAscending a.values
    × IsAscending b.values
unfolding enumerate_inputs label_inputs two_inputs-AllChartable answered-IsChartable
main_rates_example =
    main_rates milli-IsMonotone milli-IsOrdered no_fixed is_folder two_names (always answered)
      count_slope plain_options folder two_inputs-AllChartable refl (refl, (refl, tt))
