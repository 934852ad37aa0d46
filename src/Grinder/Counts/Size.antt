-- ===== src/Grinder/Counts/Size.antt =====
-- The size of the chart of `make_count`.
use dnstools.Chart.{Text, series, truthy, points, fit_points, Floats, Series}
use dnstools.Prelude.Int.{ℤ}
use dnstools.Prelude.{
  leb, if◌then◌else◌, gt→leb, length, enumerate_from, length-append, every, length-every,
  length-map, length-enumerate_from, ok, ℕ, zero, suc, ◌+◌, ◌-◌, ◌*◌, ◌≤◌, ◌<◌, ◌≡◌, ◌∙◌, false,
  some, dec_lt, List, [], ◌∷◌, arith,
}
use native.Mathlib.Nat.{mul-le-mul, le_refl}
use dnstools.Grinder.Counts.{make_count, step_of}
use dnstools.Grinder.Counts.Samples.{
  chart_points, long_points, tail_points, slice_points, make_count-chart_points, point_at,
}

few :
    (c m limit n : ℕ)
    → 4 ≤ limit
    → c * (m + 2) ≤ n
    → n < limit * (m + 2) + limit
    → c + 2 < 2 * limit
few c m limit n l a b = elim (dec_lt (c + 2) (2 * limit)) [
  | yes h ↦ h
  | no h ↦
      let much : 2 * limit ≤ c + 2 = omega arith in
      absurd (omega (arith, mul-le-mul l (le_refl m), mul-le-mul much (le_refl (m + 2))))
]

module _ {ℓ} (F : Type ℓ) ⦃f : Floats F⦄ where
  length-tail_points : (s : ℤ) (ts : List ℤ) (done : ℕ) → length (tail_points {F = F} s ts done) ≤ 1
  unfolding tail_points
  length-tail_points s ts done = ground arith

  length-slice_points :
      (s : ℤ) (step : ℕ) (ws : List ℤ) → length (slice_points {F = F} s step ws) ≡ length ws
  unfolding slice_points
  length-slice_points s step ws = length-map _ (enumerate_from 0 ws) ∙ length-enumerate_from ws 0

  length-chart_points :
      (s : ℤ) (step limit : ℕ) (ts : List ℤ)
      → 4 ≤ limit
      → limit * step ≤ length ts
      → length ts < limit * step + limit
      → length (chart_points {F = F} s step ts) < 2 * limit
  unfolding chart_points long_points
  length-chart_points s step limit [] l a b = omega arith
  length-chart_points s zero limit (t ∷ ts) l a b = omega (
    arith,
    length-map (λ (i, u). point_at {F = F} s u (i + 1)) (enumerate_from 1 ts),
    length-enumerate_from ts 1,
  )
  length-chart_points s (suc zero) limit (t ∷ ts) l a b = omega (
    arith,
    length-map (λ (i, u). point_at {F = F} s u (i + 1)) (enumerate_from 1 ts),
    length-enumerate_from ts 1,
  )
  length-chart_points s (suc (suc m)) limit (t ∷ ts) l a b =
      let e : suc (suc m) - 1 ≡ suc m = omega arith in
      let samples = every (suc m) (suc (suc m)) (t ∷ ts) in
      let deep : leb (suc (suc m)) 1 ≡ false = gt→leb _ _ (omega arith) in
      rw deep (
        rw e (
          omega (
            arith,
            length-append (slice_points {F = F} s (suc (suc m)) samples)
                (tail_points s (t ∷ ts) (length samples * suc (suc m))),
            length-slice_points s (suc (suc m)) samples,
            length-tail_points s (t ∷ ts) (length samples * suc (suc m)),
            few (length samples) m limit (length (t ∷ ts)) l
                (omega (arith, length-every (suc m) (suc m) (t ∷ ts))) (omega arith),
          )))

module _ {ℓ} {F : Type ℓ} ⦃f : Floats F⦄ where
  -- However many messages there are, the chart of `make_count` has fewer than 50 points beside a
  -- fit, and fewer than 1000 without one.
  pub length-make_count :
      (ts : List ℤ) (name : Text) (s : ℤ) (fit : List (Series F)) (color : Text)
      → (c : Series F) × (make_count ts name (some s) fit color ≡ ok c)
        × (length c.values < 2 * (if truthy fit then points else fit_points))
  length-make_count ts name s [] color = (
    series (chart_points s (step_of {F = F} ts []) ts) name color,
    make_count-chart_points ts name s [] color,
    length-chart_points F s (step_of {F = F} ts []) fit_points ts (omega arith) (omega arith)
        (omega arith),
  )
  length-make_count ts name s (x ∷ fit) color = (
    series (chart_points s (step_of ts (x ∷ fit)) ts) name color,
    make_count-chart_points ts name s (x ∷ fit) color,
    length-chart_points F s (step_of ts (x ∷ fit)) points ts (omega arith) (omega arith)
        (omega arith),
  )
