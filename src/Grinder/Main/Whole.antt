-- ===== src/Grinder/Main/Whole.antt =====
-- `main` of mig/analyser/grinder.py over all inputs: the series that it charts.
use mathlib.Core.List
use dnstools.Chart.{Text, codes, Floats, Series}
use dnstools.Prelude.{
  take, drop, All, All-append, Result, ok, ℕ, zero, suc, ◌≡◌, refl, sym, ap, ◌∙◌, subst, Bool, true,
  false, List, [], ◌∷◌, ◌++◌, append-nil, append_assoc,
}
use dnstools.Dump.{Document, jload}
use dnstools.LinearFit.{Solver}
use dnstools.Grinder.Processing.Buckets.{IsMonotone}
use dnstools.Grinder.Inputs.{Input, enumerate_inputs, label_inputs}
use dnstools.Grinder.Report.{
  Options, Report, Page, counts_chart, rates_chart, latency_chart, queue_chart, additional, hide,
}
use dnstools.Grinder.Report.Drawn.{keys, AllShown, IsExtended, IsExtended-add_rates}
use dnstools.Grinder.Report.Returns.{IsChartable, add_run_returns}
use dnstools.Grinder.Main.{add_runs, main, pages, rate_charts, empty_report}

-- The names of the series that the inputs get, two for each.
abbrev pub names_of : Text → Text → List Text → List Input → List Text
names_of a b details [] = []
names_of a b details (i ∷ is) =
    let more = additional details i.count i.label in
    (a ++ more) ∷ (b ++ more) ∷ names_of a b details is

abbrev pub name_of : Text → List Text → List Input → List Text
name_of a details [] = []
name_of a details (i ∷ is) = (a ++ additional details i.count i.label) ∷ name_of a details is

module _ {ℓ} {F : Type ℓ} ⦃f : Floats F⦄ where
  -- Every input can be read and charted.
  abbrev pub AllChartable : (Text → Result (Document F)) → Solver F → Options → List Input → Type ℓ
  AllChartable read leastsq o [] = Unit
  AllChartable read leastsq o (i ∷ is) =
      ((d : Document F) × (read i.path ≡ ok d) × IsChartable leastsq o (jload d))
      × AllChartable read leastsq o is

  -- What a loop over inputs adds to a list of series.
  abbrev pub IsAppended : List (Series F) → List (Series F) → List Text → Type ℓ
  IsAppended before after names =
      (ss : List (Series F)) × (after ≡ before ++ ss) × (keys ss ≡ names) × AllShown ss

  IsAppended-append :
      (xs ys zs : List (Series F)) (ms ns : List Text)
      → IsAppended xs ys ms
      → IsAppended ys zs ns
      → IsAppended xs zs (ms ++ ns)
  IsAppended-append xs ys zs ms ns (ss, e, k, a) (ts, e', k', a') = (
    ss ++ ts,
    e' ∙ ap (λ l. l ++ ts) e ∙ append_assoc xs ss ts,
    List.map-append (λ (s : Series F). s.key) ss ts ∙ rw (k, k') refl,
    All-append (λ (s : Series F). s.disabled ≡ false) ss ts a a',
  )

  IsAppended-nil : (xs : List (Series F)) → IsAppended xs xs []
  IsAppended-nil xs = ([], sym (append-nil xs), refl, tt)

  -- What the loop over inputs adds to the lists of a report.
  record IsCharted (details : List Text) (inputs : List Input) (r r' : Report F) : Type ℓ where
    counts :
        IsAppended r.counts r'.counts (names_of (codes "Sent") (codes "Received") details inputs)
    rates :
        IsAppended r.rates r'.rates (names_of (codes "Sending") (codes "Receiving") details inputs)
    processing : IsAppended r.processing r'.processing (name_of (codes "Delay") details inputs)
    queue : IsAppended r.queue r'.queue (name_of (codes "Queue") details inputs)

  one-IsCharted :
      (details : List Text) (i : Input) (r r' : Report F)
      → IsExtended (additional details i.count i.label) r r'
      → IsCharted details (i ∷ []) r r'
  one-IsCharted details i r r' x =
      let (a, b, e, k, h) = x.counts in
      let (a', b', e', k', h') = x.rates in
      let (p, pe, pk, ph) = x.processing in
      let (q, qe, qk, qh) = x.queue in
      record {
        counts = (a ∷ b ∷ [], e, k, h);
        rates = (a' ∷ b' ∷ [], e', k', h');
        processing = (p ∷ [], pe, pk, ph);
        queue = (q ∷ [], qe, qk, qh);
      }

  add_IsCharted :
      (details : List Text) (i : Input) (is : List Input) (r r' r'' : Report F)
      → IsCharted details (i ∷ []) r r'
      → IsCharted details is r' r''
      → IsCharted details (i ∷ is) r r''
  add_IsCharted details i is r r' r'' x y =
      let join = λ (a b : List (Series F)). IsAppended-append a b in
      record {
        counts = join _ _ _ _ _ x.counts y.counts;
        rates = join _ _ _ _ _ x.rates y.rates;
        processing = join _ _ _ _ _ x.processing y.processing;
        queue = join _ _ _ _ _ x.queue y.queue;
      }

  -- A list of series in a chart: its names, where those behind the first `n` are hidden and the
  -- others are not.
  abbrev pub IsShown : ℕ → List Text → List (Series F) → Type 0
  IsShown n names ss =
      (keys ss ≡ names)
      × AllShown (take n ss)
      × All (λ (s : Series F). s.disabled ≡ true) (drop n ss)

  hide-IsShown : (n : ℕ) (ss : List (Series F)) → AllShown ss → IsShown n (keys ss) (hide n ss)
  unfolding hide
  hide-IsShown zero [] h = (refl, tt, tt)
  hide-IsShown zero (s ∷ ss) (h, hs) =
      let (k, a, b) = hide-IsShown zero ss hs in (ap (λ l. s.key ∷ l) k, tt, (refl, b))
  hide-IsShown (suc n) [] h = (refl, tt, tt)
  hide-IsShown (suc n) (s ∷ ss) (h, hs) =
      let (k, a, b) = hide-IsShown n ss hs in (ap (λ l. s.key ∷ l) k, (h, a), b)

  chart-IsShown :
      (n : ℕ) (ss : List (Series F)) (names : List Text)
      → IsAppended [] ss names
      → IsShown n names (hide n ss)
  chart-IsShown n ss names (ts, e, k, a) =
      rw e (subst (λ l. IsShown n l (hide n ts)) k (hide-IsShown n ts a))

module _ {ℓ} {F : Type ℓ} ⦃f : Floats F⦄ (mono : IsMonotone F) where
  add_runs_returns :
      (read : Text → Result (Document F)) (leastsq : Solver F) (o : Options) (inputs : List Input)
      (r : Report F)
      → AllChartable read leastsq o inputs
      → (r' : Report F) × (add_runs read leastsq o inputs r ≡ ok r')
        × IsCharted o.details inputs r r'
  unfolding add_runs
  add_runs_returns read leastsq o [] r h = (
    r,
    refl,
    record {
      counts = IsAppended-nil r.counts;
      rates = IsAppended-nil r.rates;
      processing = IsAppended-nil r.processing;
      queue = IsAppended-nil r.queue;
    },
  )
  add_runs_returns read leastsq o (i ∷ is) r ((d, e, c), h) =
      let (r', p, x, _, _) = add_run_returns mono leastsq o i (jload d) r c in
      let (r'', q, y) = add_runs_returns read leastsq o is r' h in
      let one =
        one-IsCharted o.details i r r' (IsExtended-add_rates _ i.speed c.sent c.received r r' x) in
      (r'', rw e (rw p q), add_IsCharted o.details i is r r' r'' one y)

  -- `main` charts all inputs if each can be charted: behind the charts of the rates the page has the
  -- counts, the rates, the delays and the queue, with two series for each input in the first two and
  -- one in the others, named and ordered as the inputs are. In each chart only the series of the
  -- first input are not hidden.
  pub main_charts :
      (fixed : ℕ → F → Text) (is_dir : Text → Bool) (listdir : Text → List Text)
      (read : Text → Result (Document F)) (leastsq : Solver F) (o : Options) (args : List Text)
      → AllChartable read leastsq o (label_inputs fixed (enumerate_inputs is_dir listdir args))
      → (charts : List (Page F)) × (cs rs ps qs : List (Series F)) × (main fixed is_dir listdir read
            leastsq o args
          ≡ ok (
              charts
              ++ (counts_chart cs ∷ rates_chart rs ∷ latency_chart ps ∷ queue_chart qs ∷ [])))
        × IsShown 2
            (names_of
              (codes "Sent")
              (codes "Received")
              o.details
              (label_inputs fixed (enumerate_inputs is_dir listdir args)))
            cs
        × IsShown 2
            (names_of
              (codes "Sending")
              (codes "Receiving")
              o.details
              (label_inputs fixed (enumerate_inputs is_dir listdir args)))
            rs
        × IsShown 1
            (name_of
              (codes "Delay")
              o.details
              (label_inputs fixed (enumerate_inputs is_dir listdir args)))
            ps
        × IsShown 1
            (name_of
              (codes "Queue")
              o.details
              (label_inputs fixed (enumerate_inputs is_dir listdir args)))
            qs
  unfolding main pages
  main_charts fixed is_dir listdir read leastsq o args h =
      let inputs = label_inputs fixed (enumerate_inputs is_dir listdir args) in
      let (r, e, x) = add_runs_returns read leastsq o inputs empty_report h in
      (
        rate_charts o r,
        hide 2 r.counts,
        hide 2 r.rates,
        hide 1 r.processing,
        hide 1 r.queue,
        rw e refl,
        chart-IsShown 2 r.counts _ x.counts,
        chart-IsShown 2 r.rates _ x.rates,
        chart-IsShown 1 r.processing _ x.processing,
        chart-IsShown 1 r.queue _ x.queue,
      )
