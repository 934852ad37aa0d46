-- ===== src/Grinder/Report.antt =====
-- `main` of mig/analyser/grinder.py behind its labels: the charts of all inputs. The parsed command
-- line is a record of options; the opened and parsed files are `read`, and `leastsq` is a solver. The
-- printed lines are left out; Grinder/Page has the page.
pub mod Drawn
pub mod Raises
pub mod Returns
use mathlib.Core.Option
use dnstools.Chart.{Text, codes, to_float, item, Floats, Num, Point, Series, float, int}
use dnstools.Prelude.{
  if◌then◌else◌, length, get_elem?, take, drop, ◌>>=◌, Error, Result, ok, err, ℕ, suc, ◌+◌, ◌-◌,
  ◌*◌, ◌%◌, Bool, true, Option, none, some, List, [], ◌∷◌, ◌++◌, map,
}
use dnstools.Prelude.Int.{ℤ, pos, negsuc}
use dnstools.Dump.{Pair, Run, Fits, Params, find_fits, sends_mark, receives_mark}
use dnstools.LinearFit.{Solver, calculate_fit, make_fit}
use dnstools.Grinder.Counts.{make_count}
use dnstools.Grinder.Rates.{make_rate}
use dnstools.Grinder.Queue.{make_queue}
use dnstools.Grinder.Processing.{make_processing}
use dnstools.Grinder.Inputs.{Input}

-- What `get_arguments` returns, but the inputs and the output.
pub record Options : Type 0 where
  pub title : Text
  pub details : List Text
  pub from_point : Option ℤ
  pub to_point : Option ℤ
  pub no_fit : Bool
  pub rates : Bool

-- The points of the charts of rates; `x` is a rate or an integer speed.
pub record RatePoint {ℓ} (F : Type ℓ) : Type ℓ where
  pub x : Num F
  pub y : F

pub record RateSeries {ℓ} (F : Type ℓ) : Type ℓ where
  pub values : List (RatePoint F)
  pub key : Text
  pub color : Text

-- The lists that the loop over the inputs appends to.
pub record Report {ℓ} (F : Type ℓ) : Type ℓ where
  pub counts : List (Series F)
  pub rates : List (Series F)
  pub processing : List (Series F)
  pub queue : List (Series F)
  pub reference : List (RatePoint F)
  pub receiving : List (RatePoint F)
  pub sending_labels : List (RatePoint F)
  pub receiving_labels : List (RatePoint F)

-- The charts of the page.
pub data Page {ℓ} (F : Type ℓ) : Type ℓ where
  run_chart rate_chart : RateSeries F → RateSeries F → Page F
  counts_chart rates_chart latency_chart queue_chart : List (Series F) → Page F

abbrev pub colors : List Text
colors = map codes (
    "#7cb5ec" ∷ "#434348" ∷ "#90ed7d" ∷ "#f7a35c" ∷ "#8085e9" ∷ "#f15c80" ∷ "#e4d354" ∷ "#8085e8"
    ∷ "#8d4653" ∷ "#91e8e1" ∷ [])

abbrev pub color_of : ℕ → Result Text
color_of i = item (get_elem? colors (i % 10))

-- A bound of a slice: a negative one counts from the end.
abbrev pub bound : ℕ → ℤ → ℕ
bound n (pos i) = i
bound n (negsuc i) = n - suc i

module _ {ℓ} {A : Type ℓ} where
  abbrev pub slice_from : ℤ → List A → List A
  slice_from i xs = drop (bound (length xs) i) xs

  abbrev pub slice_to : ℤ → List A → List A
  slice_to i xs = take (bound (length xs) i) xs

  -- `xs[i:j]`
  abbrev pub slice : ℤ → ℤ → List A → List A
  slice i j xs = drop (bound (length xs) i) (slice_to j xs)

  -- The points that the options leave.
  unfoldable pub limited : Option ℤ → Option ℤ → List A → List A
  limited (some i) (some j) xs = slice i j xs
  limited (some i) none xs = slice_from i xs
  limited none (some j) xs = slice_to j xs
  limited none none xs = xs

-- `(details[i] if i < len(details) else "") or label`, then `" (%s)" % additional` and the `%s` of
-- the series' names: a missing label is printed as `None`.
unfoldable pub additional : List Text → ℕ → Option Text → Text
additional details i label = elim (get_elem? details i) [
  | some (c ∷ cs) ↦ codes " (" ++ (c ∷ cs) ++ codes ")"
  | _ ↦ elim label [
    | none ↦ codes "None"
    | some [] ↦ []
    | some (c ∷ cs) ↦ codes " (" ++ (c ∷ cs) ++ codes ")"
  ]
]

module _ {ℓ} {F : Type ℓ} where
  abbrev pub disable : Series F → Series F
  disable s = record s { disabled = true }

  -- `hide(series, start)`
  unfoldable pub hide : ℕ → List (Series F) → List (Series F)
  hide start ss = take start ss ++ map disable (drop start ss)

  abbrev pub first_value : List (Point F) → Option (Num F)
  first_value [] = none
  first_value (p ∷ ps) = some p.y

abbrev pub key_of {ℓ} : {A : Type ℓ} → Option A → Result A
key_of none = err Error.key_error
key_of (some a) = ok a

abbrev pub first_of : List ℤ → Option ℤ
first_of ts = get_elem? ts 0

module _ {ℓ} {F : Type ℓ} ⦃f : Floats F⦄ where
  -- The rate of the first fit with no parameters.
  abbrev pub rate_of_fit : Bool → Params F → Option F → Series F → Option F
  rate_of_fit true [] none s = Option.map to_float (first_value s.values)
  rate_of_fit build params rate s = rate

  -- A loop over the fits of one kind of message.
  pub fit_loop :
      Solver F
      → List ℤ
      → Text
      → Text
      → Option ℤ
      → Text
      → Bool
      → Option F
      → List (Params F)
      → Result (Option F × List (Series F) × List (Series F))
  unfolding make_fit
  fit_loop leastsq ts count_name rate_name start color build rate [] = ok (rate, [], [])
  fit_loop leastsq ts count_name rate_name start color build rate (fit ∷ fits) = do
    (count, speed) ← make_fit leastsq ts count_name rate_name start fit color
    let next = rate_of_fit build fit rate speed
    (last, counts, rates) ← fit_loop leastsq ts count_name rate_name start color build next fits
    ok (last, count ∷ counts, speed ∷ rates)

  -- `calculate_fit(...)[1]`, where no fit has given the rate.
  pub fitted_rate : Solver F → List ℤ → Option ℤ → Bool → Option F → Result (Option F)
  unfolding calculate_fit
  fitted_rate leastsq ts start true none = do
    fit ← calculate_fit leastsq ts start []
    rate ← item (get_elem? fit 1)
    ok (some rate)
  fitted_rate leastsq ts start build rate = ok rate

  abbrev pub label_point : Option ℕ → F → List (RatePoint F)
  label_point none rate = []
  label_point (some speed) rate = record { x = Num.int (pos speed); y = rate } ∷ []

  -- The points of the rate charts. Without `--rates` both rates are missing.
  unfoldable pub add_rates : Option ℕ → Option F → Option F → Report F → Report F
  add_rates speed (some sent) (some received) r = record r {
    reference = r.reference ++ (record { x = Num.float sent; y = sent } ∷ []);
    receiving = r.receiving ++ (record { x = Num.float sent; y = received } ∷ []);
    sending_labels = r.sending_labels ++ label_point speed sent;
    receiving_labels = r.receiving_labels ++ label_point speed received;
  }
  add_rates speed (some sent) none r = record r {
    reference = r.reference ++ (record { x = Num.float sent; y = sent } ∷ []);
    sending_labels = r.sending_labels ++ label_point speed sent;
  }
  add_rates speed none received r = r

  abbrev pub fits_of : Bool → Run F → Fits F
  fits_of no_fit run = if no_fit then (sends_mark, []) ∷ (receives_mark, []) ∷ [] else run.fits

  -- The series of one input, at the end of the body of the loop.
  pub draw_run :
      List ℤ
      → List ℤ
      → List Pair
      → Option ℤ
      → Text
      → Text
      → Text
      → Text
      → List (Series F) × List (Series F)
      → List (Series F) × List (Series F)
      → Report F
      → Result (Report F)
  unfolding make_count make_rate make_processing make_queue
  draw_run sends receives pairs start more send_color receive_color color (sent_counts, sent_rates)
        (received_counts, received_rates) r =
      do
        sent_count ← make_count sends (codes "Sent" ++ more) start sent_counts send_color
        sent_rate ← make_rate sends (codes "Sending" ++ more) start sent_rates send_color
        received_count ←
            make_count receives (codes "Received" ++ more) start received_counts receive_color
        received_rate ←
            make_rate receives (codes "Receiving" ++ more) start received_rates receive_color
        (delay, steps) ← make_processing pairs (codes "Delay" ++ more) color
        in_air ← make_queue pairs (codes "Queue" ++ more) start color
        ok (record r {
          counts = r.counts ++ ((sent_count ∷ sent_counts) ++ (received_count ∷ received_counts));
          rates = r.rates ++ ((sent_rate ∷ sent_rates) ++ (received_rate ∷ received_rates));
          processing = r.processing ++ (delay ∷ []);
          queue = r.queue ++ (in_air ∷ []);
        })

  -- The part of the body behind the fits of the sending times.
  pub receiving_part :
      (leastsq : Solver F) (o : Options) (input : Input) (run : Run F) (r : Report F)
      (c1 c2 c : Text) (sent : Option F) (s s' : List (Series F))
      → Result (Report F)
  unfolding limited additional find_fits fit_loop fitted_rate add_rates draw_run
  receiving_part leastsq o input run r c1 c2 c sent s s' =
      let sends = limited o.from_point o.to_point run.sends in
      let receives = limited o.from_point o.to_point run.receives in
      let pairs = limited o.from_point o.to_point run.pairs in
      let start = first_of sends in
      let more = additional o.details input.count input.label in
      key_of (find_fits receives_mark (fits_of o.no_fit run)) >>= λ rf.
      fit_loop leastsq receives (codes "Received Fit" ++ more) (codes "Receiving Fit " ++ more)
        start c2 o.rates none rf
      >>= λ (rfit, t, t'). fitted_rate leastsq receives start o.rates rfit >>= λ received.
          draw_run sends receives pairs start more c1 c2 c (s, s') (t, t')
            (add_rates input.speed sent received r)

  -- The body of the loop over the inputs, behind `jload`.
  unfoldable pub add_run : Solver F → Options → Input → Run F → Report F → Result (Report F)
  unfolding limited additional find_fits fit_loop fitted_rate receiving_part
  add_run leastsq o input run r = do
    let fits = fits_of o.no_fit run
    let sends = limited o.from_point o.to_point run.sends
    let start = first_of sends
    let i = input.count
    let more = additional o.details i input.label
    send_color ← color_of (2 * i)
    receive_color ← color_of (2 * i + 1)
    color ← color_of i
    send_fits ← key_of (find_fits sends_mark fits)
    (sent_fit, sent_counts, sent_rates) ←
        fit_loop leastsq sends (codes "Sent Fit" ++ more) (codes "Sending Fit" ++ more) start
          send_color o.rates none send_fits
    sent ← fitted_rate leastsq sends start o.rates sent_fit
    receiving_part leastsq o input run r send_color receive_color color sent sent_counts sent_rates
