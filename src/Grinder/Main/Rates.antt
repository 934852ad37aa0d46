-- ===== src/Grinder/Main/Rates.antt =====
-- The chart of the receiving rate by the sending rate that `main` of mig/analyser/grinder.py makes.
use dnstools.Chart.{Text, codes, Floats, Num}
use dnstools.Prelude.{
  All, Result, ok, ℕ, ◌≡◌, refl, sym, ap, ◌∙◌, subst, Bool, true, Option, none, some, List, [], ◌∷◌,
  ◌++◌, append-nil, append_assoc,
}
use mathlib.Core.List.{Perm}
use dnstools.Dump.{Document, jload}
use dnstools.LinearFit.{Solver}
use dnstools.Grinder.Processing.Buckets.{IsMonotone}
use dnstools.Grinder.Inputs.{Input, enumerate_inputs, label_inputs}
use dnstools.Grinder.Report.{
  Options, RatePoint, RateSeries, Report, Page, rate_chart, counts_chart, rates_chart,
  latency_chart, queue_chart, hide, add_rates,
}
use dnstools.Grinder.Report.Returns.{add_run_returns}
use dnstools.Grinder.Main.{
  sort_points, rate_series, gray, black, add_runs, main, pages, empty_report, run_charts,
}
use dnstools.Grinder.Main.Whole.{AllChartable}
use dnstools.Grinder.Main.Points.{
  IsOrdered, IsAscending, IsKnown, sort_points-perm, sort_points-IsAscending,
}

module _ {ℓ} {F : Type ℓ} ⦃f : Floats F⦄ where
  -- The points of the references and those of the receiving rates, for the rates of inputs.
  abbrev pub references : List (Option F × Option F) → List (RatePoint F)
  references [] = []
  references ((some s, t) ∷ rates) = record { x = Num.float s; y = s } ∷ references rates
  references ((none, t) ∷ rates) = references rates

  abbrev pub receptions : List (Option F × Option F) → List (RatePoint F)
  receptions [] = []
  receptions ((some s, some t) ∷ rates) = record { x = Num.float s; y = t } ∷ receptions rates
  receptions ((some s, none) ∷ rates) = receptions rates
  receptions ((none, t) ∷ rates) = receptions rates

  -- The sending and the receiving rate of each input.
  abbrev pub rates_in :
      (read : Text → Result (Document F)) (leastsq : Solver F) (o : Options) (inputs : List Input)
      → AllChartable read leastsq o inputs
      → List (Option F × Option F)
  rates_in read leastsq o [] h = []
  rates_in read leastsq o (i ∷ is) ((d, e, c), h) =
      (c.sent, c.received) ∷ rates_in read leastsq o is h

  add_rates_points :
      (speed : Option ℕ) (s t : Option F) (rates : List (Option F × Option F)) (r : Report F)
      → ((add_rates speed s t r).reference ++ references rates
          ≡ r.reference ++ references ((s, t) ∷ rates))
        × ((add_rates speed s t r).receiving ++ receptions rates
            ≡ r.receiving ++ receptions ((s, t) ∷ rates))
  unfolding add_rates
  add_rates_points speed none t rates r = (refl, refl)
  add_rates_points speed (some s) none rates r =
      (append_assoc r.reference _ (references rates), refl)
  add_rates_points speed (some s) (some t) rates r =
      (append_assoc r.reference _ (references rates), append_assoc r.receiving _ (receptions rates))

module _ {ℓ} {F : Type ℓ} ⦃f : Floats F⦄ (mono : IsMonotone F) where
  add_runs_rates :
      (read : Text → Result (Document F)) (leastsq : Solver F) (o : Options) (inputs : List Input)
      (r : Report F) (h : AllChartable read leastsq o inputs)
      → (r' : Report F) × (add_runs read leastsq o inputs r ≡ ok r')
        × (r'.reference ≡ r.reference ++ references (rates_in read leastsq o inputs h))
        × (r'.receiving ≡ r.receiving ++ receptions (rates_in read leastsq o inputs h))
  unfolding add_runs
  add_runs_rates read leastsq o [] r h =
      (r, refl, sym (append-nil r.reference), sym (append-nil r.receiving))
  add_runs_rates read leastsq o (i ∷ is) r ((d, e, c), h) =
      let (r', p, x, same, _) = add_run_returns mono leastsq o i (jload d) r c in
      let (r'', q, a, b) = add_runs_rates read leastsq o is r' h in
      let rates = rates_in read leastsq o is h in
      let (a', b') = add_rates_points i.speed c.sent c.received rates r in
      (
        r'',
        rw e (rw p q),
        a ∙ ap (λ l. l ++ references rates) same.0 ∙ a',
        b ∙ ap (λ l. l ++ receptions rates) same.1 ∙ b',
      )

module _ {ℓ} {F : Type ℓ} ⦃f : Floats F⦄ where
  -- The rate is not NaN, if it is there.
  abbrev pub IsNumber : Option F → Type 0
  IsNumber none = Unit
  IsNumber (some x) = f.le x x ≡ true

  references-IsKnown :
      (rates : List (Option F × Option F))
      → All (λ r. IsNumber r.0) rates
      → All IsKnown (references rates)
  references-IsKnown [] h = tt
  references-IsKnown ((some s, t) ∷ rates) h = ((s, refl, h.0), references-IsKnown rates h.1)
  references-IsKnown ((none, t) ∷ rates) h = references-IsKnown rates h.1

  receptions-IsKnown :
      (rates : List (Option F × Option F))
      → All (λ r. IsNumber r.0) rates
      → All IsKnown (receptions rates)
  receptions-IsKnown [] h = tt
  receptions-IsKnown ((some s, some t) ∷ rates) h = ((s, refl, h.0), receptions-IsKnown rates h.1)
  receptions-IsKnown ((some s, none) ∷ rates) h = receptions-IsKnown rates h.1
  receptions-IsKnown ((none, t) ∷ rates) h = receptions-IsKnown rates h.1

module _ {ℓ} {F : Type ℓ} ⦃f : Floats F⦄ (mono : IsMonotone F) (ordered : IsOrdered F) where
  -- With `--rates`, where each input can be read and charted, `main` makes a chart of the receiving
  -- rate by the sending rate: its one series has the sending rate of each input on both axes, the
  -- other, with the title of the page, the receiving rate over the sending rate. Both have just these
  -- points, from left to right, where no sending rate is NaN. Of the floats it asks that two which are
  -- not NaN are in one order or the other.
  pub main_rates :
      (fixed : ℕ → F → Text) (is_dir : Text → Bool) (listdir : Text → List Text)
      (read : Text → Result (Document F)) (leastsq : Solver F) (o : Options) (args : List Text)
      (h : AllChartable read leastsq o (label_inputs fixed (enumerate_inputs is_dir listdir args)))
      → o.rates ≡ true
      → All
          (λ r. IsNumber (r.0))
          (rates_in read leastsq o (label_inputs fixed (enumerate_inputs is_dir listdir args)) h)
      → let rates =
          rates_in read leastsq o (label_inputs fixed (enumerate_inputs is_dir listdir args)) h in
        (before after : List (Page F)) × (a b : RateSeries F) × (main fixed is_dir listdir read
            leastsq o args
          ≡ ok (before ++ (rate_chart a b ∷ after)))
        × (b.key ≡ o.title)
        × Perm a.values (references rates)
        × Perm b.values (receptions rates)
        × IsAscending a.values
        × IsAscending b.values
  unfolding main pages
  main_rates fixed is_dir listdir read leastsq o args h build numbers =
      let inputs = label_inputs fixed (enumerate_inputs is_dir listdir args) in
      let (r, e, x, y) = add_runs_rates mono read leastsq o inputs empty_report h in
      (
        run_charts r,
        counts_chart (hide 2 r.counts)
            ∷ rates_chart (hide 2 r.rates)
            ∷ latency_chart (hide 1 r.processing)
            ∷ queue_chart (hide 1 r.queue)
            ∷ [],
        rate_series r.reference (codes "Reference") gray,
        rate_series r.receiving o.title black,
        rw e (rw build (ap ok (append_assoc (run_charts r) _ _))),
        refl,
        subst (Perm (sort_points r.reference)) x (sort_points-perm r.reference),
        subst (Perm (sort_points r.receiving)) y (sort_points-perm r.receiving),
        (sort_points-IsAscending ordered r.reference (
            subst (All IsKnown) (sym x)
              (references-IsKnown (rates_in read leastsq o inputs h) numbers))).0,
        (sort_points-IsAscending ordered r.receiving (
            subst (All IsKnown) (sym y)
              (receptions-IsKnown (rates_in read leastsq o inputs h) numbers))).0,
      )
