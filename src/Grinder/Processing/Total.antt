-- ===== src/Grinder/Processing/Total.antt =====
-- What `make_total_processing` of mig/analyser/grinder.py draws, and when it raises.
use dnstools.Chart.{Text, series, fit_points, Floats, Point}
use dnstools.Prelude.Int.{ℤ}
use dnstools.Prelude.{
  ltb, leb, gt→leb, leb→gt, Bool-cases, length, get_elem?, enumerate_from, All, All-append, every,
  get_elem?-every, All-map, All-enumerate_from, get_last?-get_elem?, get_last?_cons, every_pos,
  first-IsRaised, Error, IsRaised, ok, raised, ℕ, zero, suc, ◌+◌, ◌-◌, ◌*◌, ◌/◌, ◌≤◌, ◌<◌, ◌≡◌,
  refl, sym, ap, ◌∙◌, subst, ◌⊎◌, inl, inr, false, some, List, [], ◌∷◌, ◌++◌, map, arith,
}
use dnstools.Dump.{Pair}
use dnstools.Prelude.Sort.{sorted, self, length-sorted}
use dnstools.Grinder.Counts.{last_index_lem}
use dnstools.Grinder.Processing.{
  delays_of, delay_point, total_tail, total_points, make_total_processing,
}

-- A slice that begins behind the end of a list is empty.
every_none : (skip step : ℕ) (ds : List ℤ) → length ds ≤ skip → every skip step ds ≡ []
unfolding every
every_none skip step [] h = refl
every_none zero step (d ∷ ds) h = absurd (omega arith)
every_none (suc skip) step (d ∷ ds) h = every_none skip step ds (omega arith)

module _ {ℓ} {F : Type ℓ} ⦃f : Floats F⦄ where
  -- A point stands for a delay, with its place in the order of the delays.
  abbrev pub IsRank : List ℤ → Point F → Type ℓ
  IsRank delays p = (k : ℕ) × (d : ℤ) × (get_elem? delays k ≡ some d) × (p ≡ delay_point d (suc k))

module _ {ℓ} (F : Type ℓ) ⦃f : Floats F⦄ where
  IsRank-All :
      (delays : List ℤ)
      → All
          (IsRank {F = F} delays)
          (map (λ (i, d). delay_point d (i + 1)) (enumerate_from 0 delays))
  IsRank-All delays =
      All-map (IsRank delays) (λ (i, d). delay_point d (i + 1)) _
        (All-enumerate_from _ delays 0 λ j d e. (j, d, e, ap (delay_point d) (omega arith)))

  IsRank-every :
      (m : ℕ) (delays : List ℤ)
      → All (IsRank {F = F} delays) (
          map
            (λ (i, d). delay_point d ((i + 1) * suc m))
            (enumerate_from 0 (every m (suc m) delays)))
  IsRank-every m delays =
      All-map (IsRank delays) (λ (i, d). delay_point d ((i + 1) * suc m)) _
        (All-enumerate_from _ (every m (suc m) delays) 0 λ j d e. (
          m + j * suc m,
          d,
          sym (get_elem?-every m m delays j) ∙ e,
          ap (delay_point d) (omega arith),
        ))

  total_tail-IsRank :
      (d : ℤ) (ds : List ℤ) (done : ℕ)
      → (ps : List (Point F)) × (total_tail (d ∷ ds) done ≡ ok ps) × All (IsRank (d ∷ ds)) ps
  unfolding total_tail
  total_tail-IsRank d ds done =
      let (y, e) = get_last?_cons d ds in
      elim (Bool-cases (ltb done (length (d ∷ ds)))) [
        | inl more ↦ (
          delay_point y (length (d ∷ ds)) ∷ [],
          rw more (rw e refl),
          ((length ds, y, sym (get_last?-get_elem? d ds) ∙ e, refl), tt),
        )
        | inr done ↦ ([], rw done refl, tt)
      ]

  total_points-IsRank :
      (step : ℕ) (delays : List ℤ)
      → (step ≤ 1) ⊎ (step ≤ length delays)
      → (ps : List (Point F)) × (total_points step delays ≡ ok ps) × All (IsRank delays) ps
  unfolding total_points
  total_points-IsRank step delays h = elim (Bool-cases (leb step 1)) [
    | inl small ↦ (_, rw small refl, IsRank-All delays)
    | inr large ↦ sampled step delays (leb→gt step 1 large) h
  ]
    where
      sampled :
          (step : ℕ) (delays : List ℤ)
          → 1 < step
          → (step ≤ 1) ⊎ (step ≤ length delays)
          → (ps : List (Point F)) × (total_points step delays ≡ ok ps) × All (IsRank delays) ps
      sampled step delays g (inl k) = absurd (omega arith)
      sampled zero delays g (inr k) = absurd (omega arith)
      sampled (suc m) [] g (inr k) = absurd (omega arith)
      sampled (suc m) (d ∷ ds) g (inr k) =
          let samples = every m (suc m) (d ∷ ds) in
          let few : leb (suc m) 1 ≡ false = gt→leb (suc m) 1 g in
          let e : suc m - 1 ≡ m = omega arith in
          let some_taken : 0 < length samples =
            subst (λ i. 0 < length (every i (suc m) (d ∷ ds))) e
              (every_pos (suc m) (d ∷ ds) (omega arith) k) in
          let (ps, t, is) = total_tail-IsRank d ds ((length samples - 1 + 1) * suc m) in
          (
            delay_point d 1
                ∷ (map (λ (i, d). delay_point d ((i + 1) * suc m)) (enumerate_from 0 samples)
                    ++ ps),
            rw few (rw e (rw (last_index_lem samples some_taken) (rw t refl))),
            ((0, d, refl, refl), All-append (IsRank (d ∷ ds)) _ _ (IsRank-every m (d ∷ ds)) is),
          )

  total_points_few :
      (step : ℕ) (delays : List ℤ)
      → 1 < step
      → length delays < step
      → IsRaised (total_points {F = F} step delays)
  unfolding total_points
  total_points_few zero delays g k = absurd (omega arith)
  total_points_few (suc m) [] g k =
      let few = gt→leb (suc m) 1 g in rw few (raised Error.index_error refl)
  total_points_few (suc m) (d ∷ ds) g k =
      let few = gt→leb (suc m) 1 g in
      let e : suc m - 1 ≡ m = omega arith in
      let samples = every m (suc m) (d ∷ ds) in
      let none_taken : samples ≡ [] = every_none m (suc m) (d ∷ ds) (omega arith) in
      rw few (rw e (rw none_taken (raised Error.unbound_local refl)))

  -- For a list of pairs that is short enough for single steps, or has a delay for each step,
  -- `make_total_processing` raises nothing, and each point of its chart is true: where it says n at
  -- time x, the n-th smallest delay is x.
  pub make_total_processing-IsRank :
      (pairs : List Pair) (name color : Text)
      → (length pairs / fit_points ≤ 1) ⊎ (length pairs / fit_points ≤ length (delays_of pairs))
      → (ps : List (Point F)) × (make_total_processing pairs name color ≡ ok (series ps name color))
        × All (IsRank (sorted self (delays_of pairs))) ps
  unfolding make_total_processing
  make_total_processing-IsRank pairs name color h =
      let delays = sorted self (delays_of pairs) in
      let enough =
        subst (λ n. (length pairs / fit_points ≤ 1) ⊎ (length pairs / fit_points ≤ n))
          (sym (length-sorted self (delays_of pairs))) h in
      let (ps, e, is) = total_points-IsRank (length pairs / fit_points) delays enough in
      (ps, rw e refl, is)

  -- Where there are 1000 pairs or more, and fewer delays than a 500th part of the number of pairs,
  -- `make_total_processing` raises.
  pub make_total_processing_few :
      (pairs : List Pair) (name color : Text)
      → 1 < length pairs / fit_points
      → length (delays_of pairs) < length pairs / fit_points
      → IsRaised (make_total_processing {F = F} pairs name color)
  unfolding make_total_processing
  make_total_processing_few pairs name color h k = first-IsRaised _ _ (
      total_points_few (length pairs / fit_points) (sorted self (delays_of pairs)) h
        (subst (λ n. n < length pairs / fit_points) (sym (length-sorted self (delays_of pairs))) k))
