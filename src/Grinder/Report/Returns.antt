-- ===== src/Grinder/Report/Returns.antt =====
-- The runs that `main` of mig/analyser/grinder.py charts.
use dnstools.Chart.{Text, item, Floats}
use dnstools.Prelude.{
  get_elem?_of_lt, ok, ℕ, ◌+◌, ◌*◌, ◌%◌, ◌≡◌, refl, ap, ◌≢◌, Bool, true, false, Option, none, some,
  List, [], ◌∷◌, arith,
}
use dnstools.Prelude.Int.{ℤ}
use dnstools.Dump.{Run, sends_mark, receives_mark, find_fits}
use dnstools.LinearFit.{Solver}
use dnstools.LinearFit.Whole.{IsFit, fit_sorted}
use dnstools.Prelude.Sort.{IsSorted, self}
use dnstools.Grinder.Queue.{counter_of}
use dnstools.Grinder.Queue.Balance.{IsCausal}
use dnstools.Grinder.Processing.Buckets.{IsMonotone}
use dnstools.Grinder.Inputs.{Input}
use dnstools.Grinder.Report.{
  Options, Report, add_run, receiving_part, limited, fit_loop, fitted_rate, color_of, fits_of,
  first_of, additional, add_rates, colors,
}
use dnstools.Grinder.Report.Drawn.{IsExtended, SameRates, IsSourced, draw_run_returns}

-- What `main` finds as the rate of a list of times, where there is no fit in the file: nothing
-- without `--rates`, and else the slope that `leastsq` finds.
pub data IsRated {ℓ} {F : Type ℓ} ⦃f : Floats F⦄ (build : Bool) (leastsq : Solver F) (s : ℤ)
    (ts : List ℤ) (rate : Option F) : Type ℓ where
  unrated : build ≡ false → rate ≡ none → IsRated build leastsq s ts rate
  rated :
      (t : ℤ) (us : List ℤ) (a b : F)
      → build ≡ true
      → ts ≡ t ∷ us
      → IsSorted self (t ∷ us)
      → IsFit leastsq s (t ∷ us) a b
      → rate ≡ some b
      → IsRated build leastsq s ts rate

color_of-ok : (i : ℕ) → (c : Text) × (color_of i ≡ ok c)
color_of-ok i = let (c, h) = get_elem?_of_lt colors (i % 10) (omega arith) in (c, ap item h)

module _ {ℓ} {F : Type ℓ} ⦃f : Floats F⦄ where
  fitted_rate-IsRated :
      (build : Bool) (leastsq : Solver F) (s : ℤ) (ts : List ℤ) (rate : Option F)
      → IsRated build leastsq s ts rate
      → fitted_rate leastsq ts (some s) build none ≡ ok rate
  unfolding fitted_rate
  fitted_rate-IsRated build leastsq s ts rate (unrated h e) = rw (h, e) refl
  fitted_rate-IsRated build leastsq s ts rate (rated t us a b h e o fit r) =
      rw (h, e, r) (rw (fit_sorted leastsq s t us a b o fit) refl)

-- An input that `main` charts: the options leave a query and an answer, the pairs are in order, the
-- fits are empty or left out, and the rates are found if they are asked for.
pub record IsChartable {ℓ} {F : Type ℓ} ⦃f : Floats F⦄ (leastsq : Solver F) (o : Options)
    (run : Run F) : Type ℓ where
  pub first_send : ℤ
  pub sends : List ℤ
  pub first_receive : ℤ
  pub receives : List ℤ
  pub sends_left : limited o.from_point o.to_point run.sends ≡ first_send ∷ sends
  pub receives_left : limited o.from_point o.to_point run.receives ≡ first_receive ∷ receives
  pub causal : IsCausal (limited o.from_point o.to_point run.pairs)
  pub some_pair : counter_of (limited o.from_point o.to_point run.pairs) ≢ []
  pub no_sends_fit : find_fits sends_mark (fits_of o.no_fit run) ≡ some []
  pub no_receives_fit : find_fits receives_mark (fits_of o.no_fit run) ≡ some []
  pub sent : Option F
  pub received : Option F
  pub sends_rated : IsRated o.rates leastsq first_send (first_send ∷ sends) sent
  pub receives_rated : IsRated o.rates leastsq first_send (first_receive ∷ receives) received

module _ {ℓ} {F : Type ℓ} ⦃f : Floats F⦄ where
  sends-IsRated :
      (leastsq : Solver F) (o : Options) (run : Run F) (h : IsChartable leastsq o run)
      → fitted_rate leastsq
          (limited o.from_point o.to_point run.sends)
          (first_of (limited o.from_point o.to_point run.sends))
          o.rates
          none
        ≡ ok h.sent
  sends-IsRated leastsq o run h = rw h.sends_left (
      fitted_rate-IsRated o.rates leastsq h.first_send (h.first_send ∷ h.sends) h.sent
        h.sends_rated)

module _ {ℓ} {F : Type ℓ} ⦃f : Floats F⦄ (mono : IsMonotone F) where
  receiving_part_returns :
      (leastsq : Solver F) (o : Options) (input : Input) (run : Run F) (r : Report F)
      (c1 c2 c : Text) (h : IsChartable leastsq o run)
      → (r' : Report F) × (receiving_part leastsq o input run r c1 c2 c h.sent [] [] ≡ ok r')
        × IsExtended
            (additional o.details input.count input.label)
            (add_rates input.speed h.sent h.received r)
            r'
        × SameRates (add_rates input.speed h.sent h.received r) r'
        × IsSourced
            (limited o.from_point o.to_point run.sends)
            (limited o.from_point o.to_point run.receives)
            (limited o.from_point o.to_point run.pairs)
            (first_of (limited o.from_point o.to_point run.sends))
            (additional o.details input.count input.label)
            (add_rates input.speed h.sent h.received r)
            r'
  unfolding receiving_part fit_loop
  receiving_part_returns leastsq o input run r c1 c2 c h =
      let more = additional o.details input.count input.label in
      let pairs = limited o.from_point o.to_point run.pairs in
      let (r', e, x, same, source) =
        draw_run_returns mono h.first_send h.first_receive h.sends h.receives pairs more c1 c2 c
          (add_rates input.speed h.sent h.received r) h.causal h.some_pair in
      let rate =
        fitted_rate-IsRated o.rates leastsq h.first_send (h.first_receive ∷ h.receives) h.received
          h.receives_rated in
      (
        r',
        rw (h.no_receives_fit, h.sends_left, h.receives_left) (rw rate e),
        x,
        same,
        rw (h.sends_left, h.receives_left) source,
      )

  -- An input with no fits that the options leave a query and an answer of is drawn from its own data:
  -- the loop of `main` adds the counts and rates that `make_count` and `make_rate` make of its sending
  -- times and of its receiving times, the delays and the queue of its pairs, each list cut to the
  -- points of the options, and all times taken from the first query on. The names carry the input's
  -- label, no series is hidden, and the two rates go to the chart of the rates. The pairs are in
  -- order, and the rates, where they are asked for, are found.
  pub add_run_returns :
      (leastsq : Solver F) (o : Options) (input : Input) (run : Run F) (r : Report F)
      (h : IsChartable leastsq o run)
      → (r' : Report F) × (add_run leastsq o input run r ≡ ok r')
        × IsExtended
            (additional o.details input.count input.label)
            (add_rates input.speed h.sent h.received r)
            r'
        × SameRates (add_rates input.speed h.sent h.received r) r'
        × IsSourced
            (limited o.from_point o.to_point run.sends)
            (limited o.from_point o.to_point run.receives)
            (limited o.from_point o.to_point run.pairs)
            (first_of (limited o.from_point o.to_point run.sends))
            (additional o.details input.count input.label)
            (add_rates input.speed h.sent h.received r)
            r'
  unfolding add_run fit_loop
  add_run_returns leastsq o input run r h =
      let i = input.count in
      let (c1, e1) = color_of-ok (2 * i) in
      let (c2, e2) = color_of-ok (2 * i + 1) in
      let (c, e) = color_of-ok i in
      let (r', part, x, same, source) = receiving_part_returns leastsq o input run r c1 c2 c h in
      let rate = sends-IsRated leastsq o run h in
      (r', rw (e1, e2, e, h.no_sends_fit) (rw rate part), x, same, source)
