-- ===== src/Examples/Pages.antt =====
-- Tests of the page that mig/analyser/grinder.py writes, and the theorems about it at concrete inputs.
use dnstools.Chart.{Text, codes}
use dnstools.Prelude.{Error, ok, err, ◌≡◌, refl, List, [], ◌∷◌, map}
use dnstools.Examples.Thousandths.{Milli, milli, milli-IsMonotone}
use dnstools.Examples.Readers.{is_folder, no_fixed}
use dnstools.Examples.Runs.{
  count_slope, answered, folder, plain_options, two_names, always, two_inputs-AllChartable,
}
use dnstools.Strings.Format.{format, plain, tuple, mapping, find_text}
use dnstools.Strings.{same}
use dnstools.Grinder.Report.{Page, RateSeries, run_chart, queue_chart}
use dnstools.Grinder.Main.{main}
use dnstools.Grinder.Page.{Dumps, Assets, content, written}
use dnstools.Grinder.Page.Whole.{IsPage, content-IsPage, written-IsPage}

-- Data by the names of the series.
abbrev by_name : Dumps Milli
by_name = record { dumps_rates = λ s. s.key; dumps_series = λ ss. codes "[]" }

abbrev assets : Assets
assets = record { style = codes "body {}"; d3 = codes "var d3"; nvd3 = codes "var nv" }

filled :
    format plain (codes "75%% of [%s, %s]") (tuple (map codes ("a%" ∷ "b" ∷ [])))
    ≡ ok (codes "75% of [a%, b]")
unfolding format
filled = refl

too_few : format plain (codes "[%s, %s]") (tuple (map codes ("a" ∷ []))) ≡ err Error.type_error
unfolding format
too_few = refl

too_many : format plain (codes "[%s]") (tuple (map codes ("a" ∷ "b" ∷ []))) ≡ err Error.type_error
unfolding format
too_many = refl

named_value :
    format plain (codes "<%(b)s>") (mapping ((codes "a", codes "1") ∷ (codes "b", codes "2") ∷ []))
    ≡ ok (codes "<2>")
unfolding format find_text same
named_value = refl

abbrev rates_of : Text → RateSeries Milli
rates_of name = record { values = []; key = name; color = [] }

abbrev two_charts : List (Page Milli)
two_charts =
    run_chart (rates_of (codes "Sending")) (rates_of (codes "Receiving")) ∷ queue_chart [] ∷ []

content-IsPage_example :
    (text : Text) × (content by_name assets (codes "Test") two_charts ≡ ok text)
    × IsPage by_name assets (codes "Test") two_charts text
content-IsPage_example = content-IsPage by_name assets (codes "Test") two_charts

written-IsPage_example :
    (ps : List (Page Milli)) × (text : Text) × (main no_fixed is_folder two_names
        (always answered)
        count_slope
        plain_options
        folder
      ≡ ok ps)
    × (written by_name assets no_fixed is_folder two_names
          (always answered)
          count_slope
          plain_options
          folder
        ≡ ok text)
    × IsPage by_name assets (codes "Receiving") ps text
written-IsPage_example =
    written-IsPage milli-IsMonotone by_name assets no_fixed is_folder two_names (always answered)
      count_slope plain_options folder two_inputs-AllChartable
