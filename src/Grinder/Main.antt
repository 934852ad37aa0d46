-- ===== src/Grinder/Main.antt =====
-- `main` of mig/analyser/grinder.py as a whole: the inputs, the loop over them, and the charts of the
-- page. The file system, the parsed files, `leastsq` and the printing of floats are arguments.
pub mod Whole
pub mod Points
pub mod Rates
pub mod Raises
use dnstools.Chart.{Text, codes, num_le, Floats}
use dnstools.Prelude.{if◌then◌else◌, ◌>>=◌, Result, ok, ℕ, Bool, List, [], ◌∷◌, ◌++◌}
use dnstools.Dump.{Document, jload}
use dnstools.LinearFit.{Solver}
use dnstools.Grinder.Inputs.{Input, enumerate_inputs, label_inputs}
use dnstools.Grinder.Report.{
  Options, RatePoint, RateSeries, Report, Page, run_chart, rate_chart, counts_chart, rates_chart,
  latency_chart, queue_chart, add_run, hide,
}

abbrev pub gray : Text
gray = codes "#c0c0c0"

abbrev pub black : Text
black = codes "#000000"

module _ {ℓ} {F : Type ℓ} ⦃f : Floats F⦄ where
  -- `sorted(values, key=lambda x: x["x"])`: the stable sort by `<`. On keys that are not ordered, as a
  -- NaN, Python's sort may leave another order.
  pub insert_point : RatePoint F → List (RatePoint F) → List (RatePoint F)
  insert_point p [] = p ∷ []
  insert_point p (q ∷ qs) = if num_le p.x q.x then p ∷ q ∷ qs else q ∷ insert_point p qs

  pub sort_points : List (RatePoint F) → List (RatePoint F)
  unfolding insert_point
  sort_points [] = []
  sort_points (p ∷ ps) = insert_point p (sort_points ps)

  abbrev pub rate_series : List (RatePoint F) → Text → Text → RateSeries F
  rate_series ps name tint = record { values = sort_points ps; key = name; color = tint }

  -- The loop over the inputs.
  unfoldable pub add_runs :
      (Text → Result (Document F)) → Solver F → Options → List Input → Report F → Result (Report F)
  unfolding add_run jload
  add_runs read leastsq o [] r = ok r
  add_runs read leastsq o (input ∷ inputs) r = read input.path >>= λ d.
      add_run leastsq o input (jload d) r >>= λ r'. add_runs read leastsq o inputs r'

  -- The chart of the rates by speed, where an input has a speed.
  abbrev pub run_charts : Report F → List (Page F)
  run_charts r = elim (r.sending_labels ++ r.receiving_labels) [
    | [] ↦ []
    | _ ∷ _ ↦
        run_chart (rate_series r.sending_labels (codes "Sending") gray)
          (rate_series r.receiving_labels (codes "Receiving") black)
        ∷ []
  ]

  abbrev pub rate_charts : Options → Report F → List (Page F)
  rate_charts o r =
      if o.rates
      then run_charts r
        ++ (rate_chart (rate_series r.reference (codes "Reference") gray)
              (rate_series r.receiving o.title black)
            ∷ [])
      else []

  -- The charts behind the loop.
  unfoldable pub pages : Options → Report F → List (Page F)
  unfolding hide sort_points
  pages o r =
      rate_charts o r
      ++ (counts_chart (hide 2 r.counts)
          ∷ rates_chart (hide 2 r.rates)
          ∷ latency_chart (hide 1 r.processing)
          ∷ queue_chart (hide 1 r.queue)
          ∷ [])

  abbrev pub empty_report : Report F
  empty_report = record {
    counts = [];
    rates = [];
    processing = [];
    queue = [];
    reference = [];
    receiving = [];
    sending_labels = [];
    receiving_labels = [];
  }

  unfoldable pub main :
      (ℕ → F → Text)
      → (Text → Bool)
      → (Text → List Text)
      → (Text → Result (Document F))
      → Solver F
      → Options
      → List Text
      → Result (List (Page F))
  unfolding enumerate_inputs label_inputs add_runs pages
  main fixed is_dir listdir read leastsq o args = do
    let inputs = label_inputs fixed (enumerate_inputs is_dir listdir args)
    r ← add_runs read leastsq o inputs empty_report
    ok (pages o r)
