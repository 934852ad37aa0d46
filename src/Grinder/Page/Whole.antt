-- ===== src/Grinder/Page/Whole.antt =====
-- What the page that `main` of mig/analyser/grinder.py writes holds.
use dnstools.Chart.{Text, codes, Floats}
use dnstools.Prelude.{
  map_result, Result, ok, ℕ, ◌≡◌, refl, sym, ap, ◌∙◌, Bool, List, [], ◌∷◌, ◌++◌, append_assoc,
}
use dnstools.Strings.{paragraphs, same}
use dnstools.Strings.Format.{Values, format, plain, tuple, mapping, find_text}
use dnstools.Strings.Format.Escaped.{
  behind, format_one, format_two, format-escaped, format-escaped_end,
}
use dnstools.Dump.{Document}
use dnstools.LinearFit.{Solver}
use dnstools.Grinder.Processing.Buckets.{IsMonotone}
use dnstools.Grinder.Inputs.{enumerate_inputs, label_inputs}
use dnstools.Grinder.Report.{
  Options, Page, run_chart, rate_chart, counts_chart, rates_chart, latency_chart, queue_chart,
}
use dnstools.Grinder.Main.{main}
use dnstools.Grinder.Main.Whole.{AllChartable, main_charts}
use dnstools.Grinder.Page.{Dumps, Assets, chart_html, content, written}
use dnstools.Grinder.Page.Shell.{html}
use dnstools.Grinder.Page.QueueChart.{html_queue_chart}
use dnstools.Grinder.Page.LatencyChart.{html_latency_chart}
use dnstools.Grinder.Page.RatesChart.{html_rates_chart}
use dnstools.Grinder.Page.CountsChart.{html_counts_chart}
use dnstools.Grinder.Page.RateChart.{html_rate_chart}
use dnstools.Grinder.Page.RunChart.{html_run_chart}
use dnstools.Grinder.Page.Places.{
  IsOne, IsTwo, html_run_chart-IsTwo, html_rate_chart-IsTwo, html_counts_chart-IsOne,
  html_rates_chart-IsOne, html_latency_chart-IsOne, html_queue_chart-IsOne, html-IsShell,
}

-- A text has a script that sets its data to a value.
abbrev pub IsScript : Text → Text → Type 0
IsScript value text = (front rest : Text) × (text ≡ front ++ (codes "Data = " ++ (value ++ rest)))

module _ {ℓ} {F : Type ℓ} (dumps : Dumps F) where
  open dumps use {dumps_rates, dumps_series}

  -- The data of a chart, as its script reads it.
  abbrev pub data_of : Page F → Text
  data_of (run_chart a b) =
      codes "[" ++ (dumps_rates a ++ (codes ", " ++ (dumps_rates b ++ codes "]")))
  data_of (rate_chart a b) =
      codes "[" ++ (dumps_rates a ++ (codes ", " ++ (dumps_rates b ++ codes "]")))
  data_of (counts_chart ss) = dumps_series ss
  data_of (rates_chart ss) = dumps_series ss
  data_of (latency_chart ss) = dumps_series ss
  data_of (queue_chart ss) = dumps_series ss

  one-IsScript :
      (t a : Text)
      → IsOne t
      → (text : Text) × (format plain t (tuple (a ∷ [])) ≡ ok text) × IsScript a text
  one-IsScript t a (front, rest, e) = (
    front ++ (codes "Data = " ++ (a ++ rest)),
    format_one front (codes "Data = ") rest a t e,
    (front, rest, refl),
  )

  two-IsScript :
      (t a b : Text)
      → IsTwo t
      → (text : Text) × (format plain t (tuple (a ∷ b ∷ [])) ≡ ok text)
        × IsScript (codes "[" ++ (a ++ (codes ", " ++ (b ++ codes "]")))) text
  two-IsScript t a b (front, rest, e) =
      let pair = a ++ (codes ", " ++ (b ++ codes "]")) in
      let joined : pair ++ rest ≡ a ++ (codes ", " ++ (b ++ (codes "]" ++ rest))) =
        append_assoc a (codes ", " ++ (b ++ codes "]")) rest
        ∙ ap (λ l. a ++ (codes ", " ++ l)) (append_assoc b (codes "]") rest) in
      (
        front ++ (codes "Data = " ++ ((codes "[" ++ pair) ++ rest)),
        format_two front (codes "Data = [") (codes ", ") (codes "]" ++ rest) a b t e
            ∙ sym (ap (λ l. ok (front ++ (codes "Data = [" ++ l))) joined),
        (front, rest, refl),
      )

  chart_html-IsScript :
      (p : Page F) → (text : Text) × (chart_html dumps p ≡ ok text) × IsScript (data_of p) text
  unfolding chart_html
  chart_html-IsScript (run_chart a b) =
      two-IsScript html_run_chart (dumps_rates a) (dumps_rates b) html_run_chart-IsTwo
  chart_html-IsScript (rate_chart a b) =
      two-IsScript html_rate_chart (dumps_rates a) (dumps_rates b) html_rate_chart-IsTwo
  chart_html-IsScript (counts_chart ss) =
      one-IsScript html_counts_chart (dumps_series ss) html_counts_chart-IsOne
  chart_html-IsScript (rates_chart ss) =
      one-IsScript html_rates_chart (dumps_series ss) html_rates_chart-IsOne
  chart_html-IsScript (latency_chart ss) =
      one-IsScript html_latency_chart (dumps_series ss) html_latency_chart-IsOne
  chart_html-IsScript (queue_chart ss) =
      one-IsScript html_queue_chart (dumps_series ss) html_queue_chart-IsOne

  -- Every chart has its text.
  abbrev pub AllScripts : List (Page F) → List Text → Type 0
  AllScripts [] [] = Unit
  AllScripts (p ∷ ps) (t ∷ ts) = IsScript (data_of p) t × AllScripts ps ts
  AllScripts [] (t ∷ ts) = ⊥
  AllScripts (p ∷ ps) [] = ⊥

  charts-AllScripts :
      (ps : List (Page F))
      → (ts : List Text) × (map_result (chart_html dumps) ps ≡ ok ts) × AllScripts ps ts
  unfolding map_result
  charts-AllScripts [] = ([], refl, tt)
  charts-AllScripts (p ∷ ps) =
      let (t, e, h) = chart_html-IsScript p in
      let (ts, es, hs) = charts-AllScripts ps in (t ∷ ts, rw (e, es) refl, (h, hs))

-- `values`, by the names that the page has for them.
abbrev page_values : Text → Assets → Text → Values
page_values charts assets title = mapping (
    (codes "charts", charts)
    ∷ (codes "title", title)
    ∷ (codes "style", assets.style)
    ∷ (codes "d3", assets.d3)
    ∷ (codes "nvd3", assets.nvd3)
    ∷ [])

format-html :
    (a b c d e g : Text) × ((assets : Assets) (title charts : Text)
      → format plain html (page_values charts assets title)
        ≡ ok (
            a
            ++ (title
                ++ (b
                    ++ (assets.style
                        ++ (c ++ (assets.d3 ++ (d ++ (assets.nvd3 ++ (e ++ (charts ++ g)))))))))))
unfolding format find_text same
format-html =
    let (a, b, c, d, e, g, h) = html-IsShell in
    (
      a,
      b,
      c,
      d,
      e,
      g,
      λ assets title charts.
          let v = page_values charts assets title in
          ap (λ t. format plain t v) h
          ∙ format-escaped a _ v
          ∙ ap (λ r. behind a (behind title r))
              (format-escaped b _ v
                ∙ ap (λ r. behind b (behind assets.style r))
                    (format-escaped c _ v
                      ∙ ap (λ r. behind c (behind assets.d3 r))
                          (format-escaped d _ v
                            ∙ ap (λ r. behind d (behind assets.nvd3 r))
                                (format-escaped e _ v
                                  ∙ ap (λ r. behind e (behind charts r))
                                      (format-escaped_end g v refl))))),
    )

module _ {ℓ} {F : Type ℓ} (dumps : Dumps F) where
  -- The text of a page: the title, the style, the programs and the charts, in this order.
  abbrev pub IsPage : Assets → Text → List (Page F) → Text → Type 0
  IsPage assets title ps text =
      (ts : List Text) × AllScripts dumps ps ts
      × (a b c d e g : Text) × (text
          ≡ a
            ++ (title
                ++ (b
                    ++ (assets.style
                        ++ (c
                            ++ (assets.d3
                                ++ (d ++ (assets.nvd3 ++ (e ++ (paragraphs ts ++ g))))))))))

  -- Whatever the charts are, no template raises: the page holds the title, the style, d3, nvd3 and
  -- the text of each chart, in this order; the text of a chart sets the data of its script to the
  -- JSON of its series, or to an array of its two.
  pub content-IsPage :
      (assets : Assets) (title : Text) (ps : List (Page F))
      → (text : Text) × (content dumps assets title ps ≡ ok text) × IsPage assets title ps text
  unfolding content
  content-IsPage assets title ps =
      let (ts, e, h) = charts-AllScripts dumps ps in
      let (a, b, c, d, e', g, page) = format-html in
      (_, rw e (page assets title (paragraphs ts)), (ts, h, a, b, c, d, e', g, refl))

module _ {ℓ} {F : Type ℓ} ⦃f : Floats F⦄ (mono : IsMonotone F) (dumps : Dumps F) where
  -- grinder.py writes a page if each of its inputs can be read and charted: one with the title, and
  -- with the text of each chart that `main` makes.
  pub written-IsPage :
      (assets : Assets) (fixed : ℕ → F → Text) (is_dir : Text → Bool) (listdir : Text → List Text)
      (read : Text → Result (Document F)) (leastsq : Solver F) (o : Options) (args : List Text)
      → AllChartable read leastsq o (label_inputs fixed (enumerate_inputs is_dir listdir args))
      → (ps : List (Page F)) × (text : Text) × (main fixed is_dir listdir read leastsq o args
          ≡ ok ps)
        × (written dumps assets fixed is_dir listdir read leastsq o args ≡ ok text)
        × IsPage dumps assets o.title ps text
  unfolding written
  written-IsPage assets fixed is_dir listdir read leastsq o args h =
      let r = main_charts mono fixed is_dir listdir read leastsq o args h in
      let ps =
        r.0 ++ (counts_chart r.1 ∷ rates_chart r.2 ∷ latency_chart r.3 ∷ queue_chart r.4 ∷ []) in
      let (text, e, is) = content-IsPage dumps assets o.title ps in (ps, text, r.5, rw r.5 e, is)
