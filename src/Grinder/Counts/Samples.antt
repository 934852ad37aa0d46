-- ===== src/Grinder/Counts/Samples.antt =====
-- What the chart of `make_count` shows: true points, from the first message to the last.
use dnstools.Prelude.{
  ltb, leb, if◌then◌else◌, leb→gt, ltb→ge, Bool-cases, length, get_elem?, get_last?, enumerate_from,
  All, All-append, every, get_elem?-every, length-every, All-map, All-enumerate_from,
  get_last?-append, get_last?-get_elem?, get_last?_cons, get_last?-cons, get_last?-enumerate_from,
  get_last?-every, map_result, map_result-ok, ok, ℕ, zero, suc, ◌+◌, ◌-◌, ◌*◌, ◌≤◌, ◌<◌, ◌≡◌, refl,
  sym, ap, ◌∙◌, ◌≢◌, inl, inr, none, some, List, [], ◌∷◌, ◌++◌, map, append-nil, arith,
}
use dnstools.Prelude.Int.{◌-ℤ◌, ℤ, pos}
use dnstools.Chart.{Text, series, millisecond, Floats, Num, Point, Series}
use dnstools.Grinder.Counts.{
  step_of_le, step_of, sampled_points, last_index_lem, count_point, count_tail, make_count, step_of,
}

module _ {ℓ} {F : Type ℓ} ⦃f : Floats F⦄ where
  -- The point that says "at time `t` there were `n` messages".
  abbrev pub point_at : ℤ → ℤ → ℕ → Point F
  point_at s t n = record { x = f.div (f.of_int (t -ℤ s)) millisecond; y = Num.int (pos n) }

  -- A point is true of the timestamps if the n-th of them is its time.
  abbrev pub IsSample : ℤ → List ℤ → Point F → Type ℓ
  IsSample s ts p = (k : ℕ) × (t : ℤ) × (get_elem? ts k ≡ some t) × (p ≡ point_at s t (suc k))

  -- The points of a slice that begins at `step - 1`.
  unfoldable pub slice_points : ℤ → ℕ → List ℤ → List (Point F)
  slice_points s step samples =
      map (λ (i, t). point_at s t ((i + 1) * step)) (enumerate_from 0 samples)

module _ {ℓ} (F : Type ℓ) ⦃f : Floats F⦄ where
  slice_points-IsSample :
      (s : ℤ) (m : ℕ) (ts : List ℤ)
      → All (IsSample {F = F} s ts) (slice_points s (suc m) (every m (suc m) ts))
  unfolding slice_points
  slice_points-IsSample s m ts =
      All-map (IsSample s ts) (λ (i, t). point_at s t ((i + 1) * suc m)) _
        (All-enumerate_from _ (every m (suc m) ts) 0 λ j a e.
          (m + j * suc m, a, sym (get_elem?-every m m ts j) ∙ e, ap (point_at s a) (omega arith)))

  All-points-IsSample :
      (s : ℤ) (ts : List ℤ)
      → All (IsSample {F = F} s ts) (map (λ (i, t). point_at s t (i + 1)) (enumerate_from 0 ts))
  All-points-IsSample s ts =
      All-map (IsSample s ts) (λ (i, t). point_at s t (i + 1)) _
        (All-enumerate_from _ ts 0 λ j a e. (j, a, e, ap (point_at s a) (omega arith)))

module _ {ℓ} {F : Type ℓ} ⦃f : Floats F⦄ where
  -- The last point of the chart, where the slice stops short of the end.
  unfoldable pub tail_points : ℤ → List ℤ → ℕ → List (Point F)
  tail_points s ts done =
      if ltb done (length ts)
      then elim (get_last? ts) [ none ↦ [] | some t ↦ point_at s t (length ts) ∷ [] ]
      else []

  unfoldable pub long_points : ℤ → ℕ → ℤ → List ℤ → List (Point F)
  unfolding slice_points tail_points
  long_points s step t ts =
      let samples = every (step - 1) step (t ∷ ts) in
      point_at s t 1
      ∷ (slice_points s step samples ++ tail_points s (t ∷ ts) (length samples * step))

  count_tail-tail_points :
      (s t : ℤ) (ts : List ℤ) (done : ℕ)
      → count_tail (some s) (t ∷ ts) done ≡ ok (tail_points s (t ∷ ts) done)
  unfolding count_tail tail_points
  count_tail-tail_points s t ts done = let (y, e) = get_last?_cons t ts in ground (arith, e)

  sampled_points-long_points :
      (s t : ℤ) (ts : List ℤ) (step : ℕ)
      → 0 < step
      → step ≤ suc (length ts)
      → sampled_points (some s) (t ∷ ts) step ≡ ok (long_points s step t ts)
  unfolding sampled_points long_points
  sampled_points-long_points s t ts zero h k = absurd (omega arith)
  sampled_points-long_points s t ts (suc m) h k =
      let e : suc m - 1 ≡ m = omega arith in
      let n : 0 < length (every m (suc m) (t ∷ ts)) = grind (arith, length-every m m (t ∷ ts)) in
      let r =
        map_result-ok (λ (i, t). count_point (some s) t ((i + 1) * suc m))
          (λ (i, t). point_at {F = F} s t ((i + 1) * suc m))
          (enumerate_from 0 (every m (suc m) (t ∷ ts))) (λ a. refl) in
      let back : length (every m (suc m) (t ∷ ts)) - 1 + 1 ≡ length (every m (suc m) (t ∷ ts)) =
        omega arith in
      rw (
        e,
        r,
        last_index_lem (every m (suc m) (t ∷ ts)) n,
        back,
        count_tail-tail_points s t ts (length (every m (suc m) (t ∷ ts)) * suc m),
      )

  -- The points of the chart.
  unfoldable pub chart_points : ℤ → ℕ → List ℤ → List (Point F)
  unfolding long_points
  chart_points s step [] = []
  chart_points s step (t ∷ ts) =
      if leb step 1
      then map (λ (i, u). point_at s u (i + 1)) (enumerate_from 0 (t ∷ ts))
      else long_points s step t ts

  pub make_count-chart_points :
      (ts : List ℤ) (name : Text) (s : ℤ) (fit : List (Series F)) (color : Text)
      → make_count ts name (some s) fit color
        ≡ ok (series (chart_points s (step_of ts fit) ts) name color)
  unfolding make_count chart_points map_result
  make_count-chart_points [] name s [] color = refl
  make_count-chart_points [] name s (x ∷ fit) color = refl
  make_count-chart_points (t ∷ ts) name s fit color =
      let r =
        map_result-ok (λ (i, t). count_point (some s) t (i + 1))
          (λ (i, t). point_at {F = F} s t (i + 1)) (enumerate_from 0 (t ∷ ts)) (λ a. refl) in
      elim (Bool-cases (leb (step_of (t ∷ ts) fit) 1)) [
        | inl e ↦ rw e (rw r)
        | inr e ↦ rw e (
            rw (
              sampled_points-long_points s t ts (step_of (t ∷ ts) fit) (omega (arith, leb→gt _ _ e))
                (step_of_le (t ∷ ts) fit)))
      ]

module _ {ℓ} (F : Type ℓ) ⦃f : Floats F⦄ where
  tail_points-IsSample :
      (s : ℤ) (ts : List ℤ) (done : ℕ) → All (IsSample {F = F} s ts) (tail_points s ts done)
  unfolding tail_points
  tail_points-IsSample s [] done = ground arith
  tail_points-IsSample s (t ∷ ts) done =
      let (y, e) = get_last?_cons t ts in
      elim (Bool-cases (ltb done (length (t ∷ ts)))) [
        | inl more ↦ rw more (rw e ((length ts, y, sym (get_last?-get_elem? t ts) ∙ e, refl), tt))
        | inr done ↦ rw done tt
      ]

  chart_points-IsSample :
      (s : ℤ) (step : ℕ) (ts : List ℤ) → All (IsSample {F = F} s ts) (chart_points s step ts)
  unfolding chart_points
  chart_points-IsSample s step [] = tt
  chart_points-IsSample s zero (t ∷ ts) = All-points-IsSample F s (t ∷ ts)
  chart_points-IsSample s (suc m) (t ∷ ts) = elim (Bool-cases (leb (suc m) 1)) [
    | inl e ↦ rw e (All-points-IsSample F s (t ∷ ts))
    | inr e ↦
        let e' : suc m - 1 ≡ m = omega arith in
        rw e (
          rw e' (
            (
              (0, t, refl, refl),
              All-append (IsSample s (t ∷ ts)) _ _ (slice_points-IsSample F s m (t ∷ ts))
                  (tail_points-IsSample s (t ∷ ts) _),
            )))
  ]

  get_last?-slice_points :
      (s : ℤ) (step : ℕ) (ws : List ℤ) (y : ℤ)
      → get_last? ws ≡ some y
      → get_last? (slice_points s step ws) ≡ some (point_at {F = F} s y (length ws * step))
  unfolding slice_points
  get_last?-slice_points s step [] y h = cc
  get_last?-slice_points s step (w ∷ ws) y h =
      get_last?-enumerate_from (λ (i, t). point_at s t ((i + 1) * step)) 0 w ws y h
      ∙ ap (λ n. some (point_at s y (n * step))) (omega arith)

  -- The chart ends with the last message.
  IsEnd : ℤ → List ℤ → List (Point F) → Type ℓ
  IsEnd s ts ps =
      (t : ℤ) × (get_last? ts ≡ some t) × (get_last? ps ≡ some (point_at s t (length ts)))

  long_points-IsEnd :
      (s : ℤ) (m : ℕ) (t : ℤ) (ts : List ℤ)
      → m ≤ length ts
      → IsEnd s (t ∷ ts) (long_points s (suc m) t ts)
  unfolding IsEnd long_points
  long_points-IsEnd s m t ts h =
      let (y, e) = get_last?_cons t ts in
      let e' : suc m - 1 ≡ m = omega arith in
      rw e' (elim (Bool-cases (ltb (length (every m (suc m) (t ∷ ts)) * suc m) (length (t ∷ ts)))) [
        | inl more ↦ (
          y,
          e,
          rw more (
              rw e (
                get_last?-append
                  (point_at s t 1 ∷ slice_points s (suc m) (every m (suc m) (t ∷ ts)))
                  (point_at s y (length (t ∷ ts))))),
        )
        | inr done ↦ (
          y,
          e,
          rw done (
              rw append-nil (
                get_last?-cons (point_at s t 1) (slice_points s (suc m) (every m (suc m) (t ∷ ts)))
                  (get_last?-slice_points s (suc m) (every m (suc m) (t ∷ ts)) y
                      (get_last?-every m (t ∷ ts) (ltb→ge _ _ done) ∙ e)
                    ∙ ap (λ n. some (point_at s y n))
                        (omega
                          (arith, ltb→ge _ _ done, (length-every m m (t ∷ ts) (omega arith)).0))))),
        )
      ])

  chart_points-IsEnd :
      (s : ℤ) (step : ℕ) (t : ℤ) (ts : List ℤ)
      → step ≤ suc (length ts)
      → IsEnd s (t ∷ ts) (chart_points s step (t ∷ ts))
  unfolding IsEnd chart_points
  chart_points-IsEnd s step t ts h = elim (Bool-cases (leb step 1)) [
    | inl e ↦
        let (y, last) = get_last?_cons t ts in
        (
          y,
          last,
          rw e (
              get_last?-enumerate_from (λ (i, u). point_at s u (i + 1)) 0 t ts y last
              ∙ ap (λ n. some (point_at s y n)) (omega arith)),
        )
    | inr e ↦ rw e (long_of step (leb→gt _ _ e) h)
  ]
    where
      long_of :
          (n : ℕ)
          → 1 < n
          → n ≤ suc (length ts)
          → (y : ℤ) × (get_last? (t ∷ ts) ≡ some y)
            × (get_last? (long_points s n t ts) ≡ some (point_at {F = F} s y (length (t ∷ ts))))
      long_of zero p q = absurd (omega arith)
      long_of (suc m) p q = unfold IsEnd in long_points-IsEnd s m t ts (omega arith)

module _ {ℓ} {F : Type ℓ} ⦃f : Floats F⦄ where
  -- With a start, `make_count` raises nothing, and every point of its chart is true: the one that
  -- says n at time x stands for the n-th timestamp. The chart of a list that is not empty ends with
  -- its last timestamp and its length.
  pub make_count-IsSample :
      (ts : List ℤ) (name : Text) (s : ℤ) (fit : List (Series F)) (color : Text)
      → (ps : List (Point F)) × (make_count ts name (some s) fit color ≡ ok (series ps name color))
        × All (IsSample s ts) ps
        × (ts ≢ []
            → (t : ℤ) × (get_last? ts ≡ some t) × (get_last? ps ≡ some (point_at s t (length ts))))
  unfolding IsEnd chart_points
  make_count-IsSample [] name s fit color =
      ([], make_count-chart_points [] name s fit color, tt, λ h. absurd (h refl))
  make_count-IsSample (t ∷ ts) name s fit color = (
    chart_points s (step_of (t ∷ ts) fit) (t ∷ ts),
    make_count-chart_points (t ∷ ts) name s fit color,
    chart_points-IsSample F s (step_of (t ∷ ts) fit) (t ∷ ts),
    λ _. chart_points-IsEnd F s (step_of (t ∷ ts) fit) t ts (step_of_le (t ∷ ts) fit),
  )
