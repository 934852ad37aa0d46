-- ===== src/Grinder/Rates/Whole.antt =====
-- The whole chart of `make_rate`, of short lists and of sampled ones.
use dnstools.Chart.{Text, series, of_nat, nanoseconds, Floats, Point, Series}
use dnstools.Prelude.Int.{◌≤ℤ◌, ◌<ℤ◌, ltb_ℤ, ltb_ℤ→lt, ltb_ℤ→ge, ℤ}
use dnstools.Prelude.{
  ltb, ltb→lt, le→leb, gt→leb, ltb→ge, Bool-cases, length, get_elem?, get_last?, every,
  get_last?_cons, every_pos, ok, ℕ, suc, ◌+◌, ◌-◌, ◌*◌, ◌≤◌, ◌<◌, ◌≡◌, refl, subst, Lift, ◌⊎◌, inl,
  inr, some, List, [], ◌∷◌, ◌++◌, arith,
}
use dnstools.Grinder.Counts.{step_of_le, step_of, last_index_lem}
use dnstools.Grinder.Rates.{rate_loop, rate_tail, sampled_rates, make_rate}
use dnstools.Grinder.Rates.Segments.{
  rate_at, Segments, IsQuiet, IsLoop, rate_loop-IsLoop, rate_point-rate_at,
}

module _ {ℓ} {F : Type ℓ} ⦃f : Floats F⦄ where
  first-IsLoop :
      (s : ℤ) (scale : F) (t : ℤ) (rest : List ℤ)
      → IsLoop s scale (t ∷ rest) 0 (suc (length rest)) (rate_loop (some s) scale t 1 rest)
  first-IsLoop s scale t rest =
      subst (λ n. IsLoop s scale (t ∷ rest) 0 n (rate_loop (some s) scale t 1 rest)) (omega arith)
        (rate_loop-IsLoop s scale (t ∷ rest) rest 0 1 t refl (omega arith)
          (λ l u lo hi g. absurd (omega arith))
          (λ l. let e : 0 + 1 + l ≡ suc l = omega arith in rw e))

  -- The chart of `make_rate` for a list with few timestamps: `make_rate` raises nothing, no divisor
  -- is zero, and the points lead from the first timestamp to the last new one, each the number of
  -- messages sent since the point before over the time that passed.
  pub make_rate-Segments :
      (t : ℤ) (ts : List ℤ) (name : Text) (s : ℤ) (fit : List (Series F)) (color : Text)
      → step_of (t ∷ ts) fit ≤ 1
      → (ps : List (Point F)) × (j : ℕ) × (last : ℤ) × (make_rate (t ∷ ts) name (some s) fit color
          ≡ ok (series ps name color))
        × Segments s nanoseconds (t ∷ ts) 0 ps j
        × (get_elem? (t ∷ ts) j ≡ some last)
        × IsQuiet (t ∷ ts) j (suc (length ts)) last
  make_rate-Segments t ts name s fit color h =
      let (ps, last, m, j, r, segs, at, lt, total, quiet) = first-IsLoop s nanoseconds t ts in
      (
        ps,
        j,
        last,
        unfold make_rate in rw (le→leb (step_of (t ∷ ts) fit) 1 h) (rw r),
        segs,
        at,
        quiet,
      )

  -- What a sampled chart adds at its end: the rate from the last new sample to the last timestamp,
  -- over the messages that the samples leave out. There is none if no message is left out, or if
  -- the last one is not later.
  abbrev pub IsTail : ℤ → List ℤ → ℤ → ℕ → List (Point F) → Type ℓ
  IsTail s ts last done [] =
      Lift ((length ts ≤ done) ⊎ ((b : ℤ) × (get_last? ts ≡ some b) × (b ≤ℤ last)))
  IsTail s ts last done (p ∷ ps) =
      (b : ℤ) × (get_last? ts ≡ some b)
      × (last <ℤ b)
      × (done < length ts)
      × (p ≡ rate_at s nanoseconds last b (length ts - done))
      × (ps ≡ [])

  rate_tail-IsTail :
      (s t : ℤ) (ts : List ℤ) (last : ℤ) (done : ℕ)
      → (ps : List (Point F)) × (rate_tail (some s) (t ∷ ts) last done ≡ ok ps)
        × IsTail s (t ∷ ts) last done ps
  unfolding rate_tail
  rate_tail-IsTail s t ts last done =
      let (b, e) = get_last?_cons t ts in
      elim (Bool-cases (ltb done (length (t ∷ ts)))) [
        | inr none_left ↦
            ([], rw none_left, record { lower = inl (ltb→ge done (length (t ∷ ts)) none_left) })
        | inl more ↦ elim (Bool-cases (ltb_ℤ last b)) [
          | inr early ↦
              ([], rw more (rw e (rw early)), record { lower = inr (b, e, ltb_ℤ→ge last b early) })
          | inl late ↦ (
            rate_at s nanoseconds last b (length (t ∷ ts) - done) ∷ [],
            rw more (
                rw e (
                  rw late (
                    rw (
                      rate_point-rate_at s nanoseconds last b (length (t ∷ ts) - done)
                        (ltb_ℤ→lt last b late))))),
            (b, e, ltb_ℤ→lt last b late, ltb→lt done (length (t ∷ ts)) more, refl, refl),
          )
        ]
      ]

  sampled_rates-append :
      (s t : ℤ) (ts : List ℤ) (step : ℕ) {ps tail : List (Point F)} {last : ℤ} {m : ℕ}
      → let samples = every (step - 1) step ts in
        rate_loop (some s) (f.mul nanoseconds (of_nat step)) t 1 samples ≡ ok (ps, last, m)
        → rate_tail (some s) ts last (length samples * step) ≡ ok tail
        → 0 < length samples
        → sampled_rates (some s) ts step t ≡ ok (ps ++ tail)
  unfolding sampled_rates
  sampled_rates-append s t ts step r r' h =
      let samples = every (step - 1) step ts in
      let back : length samples - 1 + 1 ≡ length samples = omega arith in
      rw (r, last_index_lem samples h, back, r')

  -- The chart of `make_rate` for a long list, where every `step`-th timestamp is taken: the points
  -- lead through the samples behind the first timestamp, `step` messages each, and end with
  -- the messages behind the last sample.
  pub make_rate-Segments_sampled :
      (t : ℤ) (ts : List ℤ) (name : Text) (s : ℤ) (fit : List (Series F)) (color : Text)
      → 1 < step_of (t ∷ ts) fit
      → let step = step_of (t ∷ ts) fit in
        let samples = every (step - 1) step (t ∷ ts) in
        (ps tail : List (Point F)) × (j : ℕ) × (last : ℤ) × (make_rate
            (t ∷ ts)
            name
            (some s)
            fit
            color
          ≡ ok (series (ps ++ tail) name color))
        × Segments s (f.mul nanoseconds (of_nat step)) (t ∷ samples) 0 ps j
        × (get_elem? (t ∷ samples) j ≡ some last)
        × IsQuiet (t ∷ samples) j (suc (length samples)) last
        × IsTail s (t ∷ ts) last (length samples * step) tail
  make_rate-Segments_sampled t ts name s fit color h =
      let step = step_of (t ∷ ts) fit in
      let samples = every (step - 1) step (t ∷ ts) in
      let (ps, last, m, j, r, segs, at, lt, total, quiet) =
        first-IsLoop s (f.mul nanoseconds (of_nat step)) t samples in
      let (tail, r', is_tail) = rate_tail-IsTail s t ts last (length samples * step) in
      (
        ps,
        tail,
        j,
        last,
        unfold make_rate in
            rw (gt→leb step 1 h) (
              rw (
                sampled_rates-append s t (t ∷ ts) step r r'
                  (every_pos step (t ∷ ts) (omega arith) (step_of_le (t ∷ ts) fit)))),
        segs,
        at,
        quiet,
        is_tail,
      )
