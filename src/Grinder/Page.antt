-- ===== src/Grinder/Page.antt =====
-- The page that `main` of mig/analyser/grinder.py writes: the templates, filled with the charts. What
-- `json.dumps` makes of series is an argument; so are the copies of the style and the programs of nvd3
-- and d3, which the source holds as texts. The printing to a file is left out.
pub mod Shell
pub mod RunChart
pub mod RateChart
pub mod CountsChart
pub mod RatesChart
pub mod LatencyChart
pub mod QueueChart
pub mod Places
pub mod Whole
use dnstools.Chart.{Text, codes, Floats, Series}
use dnstools.Prelude.{◌>>=◌, map_result, Result, ℕ, Bool, List, [], ◌∷◌}
use dnstools.Strings.{paragraphs}
use dnstools.Strings.Format.{format, plain, tuple, mapping}
use dnstools.Dump.{Document}
use dnstools.LinearFit.{Solver}
use dnstools.Grinder.Report.{
  Options, RateSeries, Page, run_chart, rate_chart, counts_chart, rates_chart, latency_chart,
  queue_chart,
}
use dnstools.Grinder.Main.{main}
use dnstools.Grinder.Page.Shell.{html}
use dnstools.Grinder.Page.RunChart.{html_run_chart}
use dnstools.Grinder.Page.RateChart.{html_rate_chart}
use dnstools.Grinder.Page.CountsChart.{html_counts_chart}
use dnstools.Grinder.Page.RatesChart.{html_rates_chart}
use dnstools.Grinder.Page.LatencyChart.{html_latency_chart}
use dnstools.Grinder.Page.QueueChart.{html_queue_chart}

-- `json.dumps` of the data of a chart.
pub record Dumps {ℓ} (F : Type ℓ) : Type ℓ where
  pub dumps_rates : RateSeries F → Text
  pub dumps_series : List (Series F) → Text

-- The texts that the page includes: the style, d3 and nvd3.
pub record Assets : Type 0 where
  pub style : Text
  pub d3 : Text
  pub nvd3 : Text

module _ {ℓ} {F : Type ℓ} (dumps : Dumps F) where
  open dumps use {dumps_rates, dumps_series}

  -- The elements of `charts`.
  unfoldable pub chart_html : Page F → Result Text
  chart_html (run_chart a b) =
      format plain html_run_chart (tuple (dumps_rates a ∷ dumps_rates b ∷ []))
  chart_html (rate_chart a b) =
      format plain html_rate_chart (tuple (dumps_rates a ∷ dumps_rates b ∷ []))
  chart_html (counts_chart ss) = format plain html_counts_chart (tuple (dumps_series ss ∷ []))
  chart_html (rates_chart ss) = format plain html_rates_chart (tuple (dumps_series ss ∷ []))
  chart_html (latency_chart ss) = format plain html_latency_chart (tuple (dumps_series ss ∷ []))
  chart_html (queue_chart ss) = format plain html_queue_chart (tuple (dumps_series ss ∷ []))

  -- `content`
  unfoldable pub content : Assets → Text → List (Page F) → Result Text
  content assets title pages = map_result chart_html pages >>= λ charts. format plain html (
      mapping (
        (codes "charts", paragraphs charts)
        ∷ (codes "title", title)
        ∷ (codes "style", assets.style)
        ∷ (codes "d3", assets.d3)
        ∷ (codes "nvd3", assets.nvd3)
        ∷ []))

module _ {ℓ} {F : Type ℓ} ⦃f : Floats F⦄ (dumps : Dumps F) where
  -- `main`, up to the text that it writes.
  unfoldable pub written :
      Assets
      → (ℕ → F → Text)
      → (Text → Bool)
      → (Text → List Text)
      → (Text → Result (Document F))
      → Solver F
      → Options
      → List Text
      → Result Text
  written assets fixed is_dir listdir read leastsq o args =
      main fixed is_dir listdir read leastsq o args >>= λ pages. content dumps assets o.title pages
