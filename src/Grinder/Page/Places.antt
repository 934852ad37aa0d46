-- ===== src/Grinder/Page/Places.antt =====
-- Where the templates of mig/analyser/grinder.py have places for values.
use dnstools.Chart.{Text, codes}
use dnstools.Prelude.{take, drop, ◌≡◌, refl, ◌++◌}
use dnstools.Strings.Format.Escaped.{escaped, unescaped}
use dnstools.Grinder.Page.Shell.{html}
use dnstools.Grinder.Page.RunChart.{html_run_chart}
use dnstools.Grinder.Page.RateChart.{html_rate_chart}
use dnstools.Grinder.Page.CountsChart.{html_counts_chart}
use dnstools.Grinder.Page.RatesChart.{html_rates_chart}
use dnstools.Grinder.Page.LatencyChart.{html_latency_chart}
use dnstools.Grinder.Page.QueueChart.{html_queue_chart}

-- A template has one place for a value, behind `Data = `.
abbrev pub IsOne : Text → Type 0
IsOne t =
    (front rest : Text) × (t
      ≡ escaped front ++ (escaped (codes "Data = ") ++ (codes "%s" ++ escaped rest)))

-- A template has two places for values, in an array behind `Data = `.
abbrev pub IsTwo : Text → Type 0
IsTwo t =
    (front rest : Text) × (t
      ≡ escaped front
        ++ (escaped (codes "Data = [")
            ++ (codes "%s"
                ++ (escaped (codes ", ") ++ (codes "%s" ++ escaped (codes "]" ++ rest))))))

pub html_run_chart-IsTwo : IsTwo html_run_chart
unfolding html_run_chart escaped unescaped
html_run_chart-IsTwo =
    (unescaped (take 691 html_run_chart), unescaped (drop 706 html_run_chart), refl)

pub html_rate_chart-IsTwo : IsTwo html_rate_chart
unfolding html_rate_chart escaped unescaped
html_rate_chart-IsTwo =
    (unescaped (take 726 html_rate_chart), unescaped (drop 741 html_rate_chart), refl)

pub html_counts_chart-IsOne : IsOne html_counts_chart
unfolding html_counts_chart escaped unescaped
html_counts_chart-IsOne =
    (unescaped (take 580 html_counts_chart), unescaped (drop 589 html_counts_chart), refl)

pub html_rates_chart-IsOne : IsOne html_rates_chart
unfolding html_rates_chart escaped unescaped
html_rates_chart-IsOne =
    (unescaped (take 564 html_rates_chart), unescaped (drop 573 html_rates_chart), refl)

pub html_latency_chart-IsOne : IsOne html_latency_chart
unfolding html_latency_chart escaped unescaped
html_latency_chart-IsOne =
    (unescaped (take 231 html_latency_chart), unescaped (drop 240 html_latency_chart), refl)

pub html_queue_chart-IsOne : IsOne html_queue_chart
unfolding html_queue_chart escaped unescaped
html_queue_chart-IsOne =
    (unescaped (take 579 html_queue_chart), unescaped (drop 588 html_queue_chart), refl)

-- The page has a place for each of its five values: `%(title)s` and so on, in this order.
abbrev pub IsShell : Text → Type 0
IsShell t =
    (a b c d e g : Text) × (t
      ≡ escaped a
        ++ (codes "%(title)s"
            ++ (escaped b
                ++ (codes "%(style)s"
                    ++ (escaped c
                        ++ (codes "%(d3)s"
                            ++ (escaped d
                                ++ (codes "%(nvd3)s"
                                    ++ (escaped e ++ (codes "%(charts)s" ++ escaped g))))))))))

pub html-IsShell : IsShell html
unfolding html escaped unescaped
html-IsShell = (
  take 129 html,
  take 27 (drop 138 html),
  take 33 (drop 174 html),
  take 34 (drop 213 html),
  take 38 (drop 255 html),
  drop 303 html,
  refl,
)
