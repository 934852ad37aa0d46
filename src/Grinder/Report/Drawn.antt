-- ===== src/Grinder/Report/Drawn.antt =====
-- What the end of the loop of `main` of mig/analyser/grinder.py draws of a run without fits.
use dnstools.Chart.{Text, codes, series, fit_points, Floats, Point, Series}
use dnstools.Prelude.{
  leb, leb→le, leb→gt, Bool-cases, length, All, ok, ℕ, ◌/◌, ◌≡◌, refl, ◌≢◌, inl, inr, false, Option,
  none, some, List, [], ◌∷◌, ◌++◌, map,
}
use dnstools.Prelude.Int.{ℤ}
use dnstools.Dump.{Pair}
use dnstools.Grinder.Counts.{make_count, step_of}
use dnstools.Grinder.Counts.Samples.{make_count-IsSample}
use dnstools.Grinder.Rates.{make_rate}
use dnstools.Grinder.Rates.Whole.{make_rate-Segments, make_rate-Segments_sampled}
use dnstools.Grinder.Queue.{make_queue, counter_of}
use dnstools.Grinder.Queue.Balance.{IsCausal}
use dnstools.Grinder.Queue.Whole.{make_queue-IsLevel, make_queue-IsAverage}
use dnstools.Grinder.Processing.{make_processing, max_count}
use dnstools.Grinder.Processing.Points.{share, marks_of}
use dnstools.Grinder.Processing.Buckets.{IsMonotone}
use dnstools.Grinder.Processing.Heights.{make_processing_buckets}
use dnstools.Grinder.Report.{Report, draw_run, add_rates}

module _ {ℓ} {F : Type ℓ} ⦃f : Floats F⦄ where
  make_count_returns :
      (ts : List ℤ) (name : Text) (s : ℤ) (fit : List (Series F)) (color : Text)
      → (ps : List (Point F)) × (make_count ts name (some s) fit color ≡ ok (series ps name color))
  make_count_returns ts name s fit color =
      let r = make_count-IsSample ts name s fit color in (r.0, r.1)

  make_rate_returns :
      (t : ℤ) (ts : List ℤ) (name : Text) (s : ℤ) (fit : List (Series F)) (color : Text)
      → (ps : List (Point F)) × (make_rate (t ∷ ts) name (some s) fit color
          ≡ ok (series ps name color))
  make_rate_returns t ts name s fit color = elim (Bool-cases (leb (step_of (t ∷ ts) fit) 1)) [
    | inl h ↦
        let r = make_rate-Segments t ts name s fit color (leb→le (step_of (t ∷ ts) fit) 1 h) in
        (r.0, r.3)
    | inr h ↦
        let r =
          make_rate-Segments_sampled t ts name s fit color (leb→gt (step_of (t ∷ ts) fit) 1 h) in
        (r.0 ++ r.1, r.4)
  ]

  make_queue_returns :
      (pairs : List Pair) (name : Text) (s : ℤ) (color : Text)
      → IsCausal pairs
      → counter_of pairs ≢ []
      → (ps : List (Point F)) × (make_queue pairs name (some s) color ≡ ok (series ps name color))
  make_queue_returns pairs name s color c n =
      elim (Bool-cases (leb (length pairs / fit_points) 1)) [
        | inl h ↦
            let r =
              make_queue-IsLevel F pairs name s color c (leb→le (length pairs / fit_points) 1 h) in
            (r.0, r.1)
        | inr h ↦
            let r =
              make_queue-IsAverage F pairs name s color c (leb→gt (length pairs / fit_points) 1 h)
                n in
            (r.0, r.1)
      ]

module _ {ℓ} {F : Type ℓ} where
  abbrev pub keys : List (Series F) → List Text
  keys ss = map (λ (s : Series F). s.key) ss

  -- No series is hidden.
  abbrev pub AllShown : List (Series F) → Type 0
  AllShown ss = All (λ (s : Series F). s.disabled ≡ false) ss

  -- What an input with no fits adds to a report: two counts, two rates, the delays and the queue, by
  -- their names, none of them hidden; and nothing to the charts of the rates.
  pub record IsExtended (more : Text) (r r' : Report F) : Type ℓ where
    pub counts :
        (a b : Series F) × (r'.counts ≡ r.counts ++ (a ∷ b ∷ []))
        × (keys (a ∷ b ∷ []) ≡ (codes "Sent" ++ more) ∷ (codes "Received" ++ more) ∷ [])
        × AllShown (a ∷ b ∷ [])
    pub rates :
        (a b : Series F) × (r'.rates ≡ r.rates ++ (a ∷ b ∷ []))
        × (keys (a ∷ b ∷ []) ≡ (codes "Sending" ++ more) ∷ (codes "Receiving" ++ more) ∷ [])
        × AllShown (a ∷ b ∷ [])
    pub processing :
        (a : Series F) × (r'.processing ≡ r.processing ++ (a ∷ []))
        × (keys (a ∷ []) ≡ (codes "Delay" ++ more) ∷ [])
        × AllShown (a ∷ [])
    pub queue :
        (a : Series F) × (r'.queue ≡ r.queue ++ (a ∷ []))
        × (keys (a ∷ []) ≡ (codes "Queue" ++ more) ∷ [])
        × AllShown (a ∷ [])

module _ {ℓ} {F : Type ℓ} ⦃f : Floats F⦄ where
  pub IsExtended-add_rates :
      (more : Text) (speed : Option ℕ) (s t : Option F) (r r' : Report F)
      → IsExtended more (add_rates speed s t r) r'
      → IsExtended more r r'
  unfolding add_rates
  IsExtended-add_rates more speed none t r r' x = x
  IsExtended-add_rates more speed (some s) none r r' x = record {
    counts = x.counts;
    rates = x.rates;
    processing = x.processing;
    queue = x.queue;
  }
  IsExtended-add_rates more speed (some s) (some t) r r' x = record {
    counts = x.counts;
    rates = x.rates;
    processing = x.processing;
    queue = x.queue;
  }

module _ {ℓ} {F : Type ℓ} where
  -- The two lists of the chart of the receiving rate by the sending rate are the same.
  abbrev pub SameRates : Report F → Report F → Type ℓ
  SameRates r r' = (r'.reference ≡ r.reference) × (r'.receiving ≡ r.receiving)

module _ {ℓ} {F : Type ℓ} ⦃f : Floats F⦄ where
  -- What is added to a report, by the calls that make it: the counts and the rates of the sending
  -- times and those of the receiving times, the delays of the pairs, and their queue.
  abbrev pub IsSourced :
      List ℤ → List ℤ → List Pair → Option ℤ → Text → Report F → Report F → Type ℓ
  IsSourced sends receives pairs start more r r' =
      (c1 c2 c : Text) × (sent received sending receiving delay spread in_air : Series F)
      × (make_count sends (codes "Sent" ++ more) start [] c1 ≡ ok sent)
      × (make_count receives (codes "Received" ++ more) start [] c2 ≡ ok received)
      × (make_rate sends (codes "Sending" ++ more) start [] c1 ≡ ok sending)
      × (make_rate receives (codes "Receiving" ++ more) start [] c2 ≡ ok receiving)
      × (make_processing pairs (codes "Delay" ++ more) c ≡ ok (delay, spread))
      × (make_queue pairs (codes "Queue" ++ more) start c ≡ ok in_air)
      × (r'.counts ≡ r.counts ++ (sent ∷ received ∷ []))
      × (r'.rates ≡ r.rates ++ (sending ∷ receiving ∷ []))
      × (r'.processing ≡ r.processing ++ (delay ∷ []))
      × (r'.queue ≡ r.queue ++ (in_air ∷ []))

module _ {ℓ} {F : Type ℓ} ⦃f : Floats F⦄ (mono : IsMonotone F) where
  pub draw_run_returns :
      (t u : ℤ) (ts us : List ℤ) (pairs : List Pair) (more c1 c2 c : Text) (r : Report F)
      → IsCausal pairs
      → counter_of pairs ≢ []
      → (r' : Report F) × (draw_run
            (t ∷ ts)
            (u ∷ us)
            pairs
            (some t)
            more
            c1
            c2
            c
            ([], [])
            ([], [])
            r
          ≡ ok r')
        × IsExtended more r r'
        × SameRates r r'
        × IsSourced (t ∷ ts) (u ∷ us) pairs (some t) more r r'
  unfolding draw_run
  draw_run_returns t u ts us pairs more c1 c2 c r causal n =
      let (a, ae) = make_count_returns {F = F} (t ∷ ts) (codes "Sent" ++ more) t [] c1 in
      let (b, be) = make_rate_returns {F = F} t ts (codes "Sending" ++ more) t [] c1 in
      let (p, pe) = make_count_returns {F = F} (u ∷ us) (codes "Received" ++ more) t [] c2 in
      let (q, qe) = make_rate_returns {F = F} u us (codes "Receiving" ++ more) t [] c2 in
      let bz = make_processing_buckets mono pairs (codes "Delay" ++ more) c in
      let bs = bz.0 in
      let de = bz.1 in
      let (w, we) = make_queue_returns {F = F} pairs (codes "Queue" ++ more) t c causal n in
      (
        record r {
          counts =
              r.counts
              ++ (series a (codes "Sent" ++ more) c1 ∷ series p (codes "Received" ++ more) c2 ∷ []);
          rates =
              r.rates
              ++ (series b (codes "Sending" ++ more) c1
                  ∷ series q (codes "Receiving" ++ more) c2
                  ∷ []);
          processing =
              r.processing
              ++ (series (map (share (max_count 0 (marks_of bs))) (marks_of bs))
                    (codes "Delay" ++ more) c
                  ∷ []);
          queue = r.queue ++ (series w (codes "Queue" ++ more) c ∷ []);
        },
        rw (ae, be, pe, qe, de, we) refl,
        record {
          counts = (
            series a (codes "Sent" ++ more) c1,
            series p (codes "Received" ++ more) c2,
            refl,
            refl,
            (refl, (refl, tt)),
          );
          rates = (
            series b (codes "Sending" ++ more) c1,
            series q (codes "Receiving" ++ more) c2,
            refl,
            refl,
            (refl, (refl, tt)),
          );
          processing = (
            series (map (share (max_count 0 (marks_of bs))) (marks_of bs)) (codes "Delay" ++ more)
                c,
            refl,
            refl,
            (refl, tt),
          );
          queue = (series w (codes "Queue" ++ more) c, refl, refl, (refl, tt));
        },
        (refl, refl),
        (c1, c2, c, _, _, _, _, _, _, _, ae, pe, be, qe, de, we, refl, refl, refl, refl),
      )
