-- ===== src/Grinder/Processing.antt =====
-- `make_processing` and `make_total_processing` of mig/analyser/grinder.py, the charts of the delays
-- between a query and its answer.
pub mod Buckets
pub mod Histogram
pub mod Points
pub mod Heights
pub mod Total
use dnstools.Chart.{
  Text, series, of_nat, microsecond, millisecond, over, fit_points, item, Floats, Num, Point,
  Series, float, int,
}
use dnstools.Prelude.Int.{◌+ℤ◌, ◌-ℤ◌, ltb_ℤ, leb_ℤ, ℤ, pos}
use dnstools.Prelude.{
  ltb, leb, if◌then◌else◌, length, get_elem?, get_last?, enumerate_from, every, ◌>>=◌, map_result,
  Error, Result, ok, err, ℕ, zero, suc, ◌+◌, ◌-◌, ◌*◌, ◌/◌, Bool, true, false, List, [], ◌∷◌, ◌++◌,
  map,
}
use dnstools.Dump.{Pair}
use dnstools.Prelude.Sort.{sorted, self}
use dnstools.Grinder.Counts.{last_index}

-- `[pair[2] for pair in pairs if len(pair) > 2]`
unfoldable pub delays_of : List Pair → List ℤ
delays_of [] = []
delays_of ((_ ∷ _ ∷ delay ∷ _) ∷ pairs) = delay ∷ delays_of pairs
delays_of (_ ∷ pairs) = delays_of pairs

-- `while delays and delays[0] <= 0: delays = delays[1:]`
unfoldable pub drop_nonpositive : List ℤ → List ℤ
drop_nonpositive [] = []
drop_nonpositive (d ∷ ds) = if leb_ℤ d (pos 0) then drop_nonpositive ds else d ∷ ds

-- A bucket of the histogram: its upper bound, and the delays that went into it.
pub record Bucket {ℓ} (F : Type ℓ) : Type ℓ where
  pub bound : F
  pub delays : List ℤ

abbrev pub sum_ℤ : List ℤ → ℤ
sum_ℤ [] = pos 0
sum_ℤ (x ∷ xs) = x +ℤ sum_ℤ xs

-- `max` and `min` of a list that begins with `best`.
abbrev pub max_ℤ : ℤ → List ℤ → ℤ
max_ℤ best [] = best
max_ℤ best (x ∷ xs) = max_ℤ (if ltb_ℤ best x then x else best) xs

abbrev pub min_ℤ : ℤ → List ℤ → ℤ
min_ℤ best [] = best
min_ℤ best (x ∷ xs) = min_ℤ (if ltb_ℤ x best then x else best) xs

-- `max_delay`, with what it is so far.
pub max_count {ℓ} : {F : Type ℓ} → ℕ → List (F × ℕ) → ℕ
max_count best [] = best
max_count best ((x, y) ∷ ps) = max_count (if ltb best y then y else best) ps

module _ {ℓ} {F : Type ℓ} where
  abbrev pub push : Bucket F → ℤ → Bucket F
  push b d = record b { delays = b.delays ++ (d ∷ []) }

  abbrev pub is_empty : Bucket F → Bool
  is_empty b = elim (b.delays) [ [] ↦ true | _ ∷ _ ↦ false ]

  -- The first `while` over `start`, as the buckets that are left.
  pub trim_start : List (Bucket F) → List (Bucket F)
  trim_start [] = []
  trim_start (b ∷ bs) = if is_empty b then trim_start bs else b ∷ bs

  abbrev pub keep : Bucket F → List (Bucket F) → List (Bucket F)
  keep b [] = if is_empty b then [] else b ∷ []
  keep b (c ∷ bs) = b ∷ c ∷ bs

  -- The second `while`, over `end`.
  pub trim_end : List (Bucket F) → List (Bucket F)
  trim_end [] = []
  trim_end (b ∷ bs) = keep b (trim_end bs)

module _ {ℓ} {F : Type ℓ} ⦃f : Floats F⦄ where
  -- `math.log10` of an integer.
  abbrev pub log10_of : ℤ → Result F
  log10_of d = if leb_ℤ d (pos 0) then err Error.value_error else ok (f.log10 (f.of_int d))

  -- `buckets`, with `n` to go from `i` on.
  pub bucket_range : F → F → ℕ → ℕ → List (Bucket F)
  bucket_range left step zero i = []
  bucket_range left step (suc n) i =
      record { bound = f.pow (of_nat 10) (f.add left (f.mul (of_nat i) step)); delays = [] }
      ∷ bucket_range left step n (i + 1)

  -- The `for` over the delays. The index only moves forward: `b` is `bucket`, and the other argument
  -- the buckets behind it, and `delay > bucket[0]` is the failure of `≤`, as no bound is NaN. What is returned is `bucket` and all behind it.
  pub fill : List ℤ → Bucket F → List (Bucket F) → List (Bucket F)
  fill [] b rest = b ∷ rest
  fill (d ∷ ds) b [] = fill ds (push b d) []
  fill (d ∷ ds) b (c ∷ rest) = elim (f.int_le d b.bound) [
    | true ↦ fill ds (push b d) (c ∷ rest)
    | false ↦ b ∷ fill (d ∷ ds) c rest
  ]

  -- The `for` from its first bucket on.
  pub fill_all : List ℤ → List (Bucket F) → Result (List (Bucket F))
  unfolding fill
  fill_all delays [] = err Error.index_error
  fill_all delays (b ∷ rest) = ok (fill delays b rest)

  -- The histogram of positive ascending delays.
  pub histogram : List ℤ → Result (List (Bucket F))
  unfolding fill_all bucket_range trim_start trim_end
  histogram delays = do
    first ← item (get_elem? delays 0)
    low ← log10_of first
    last ← item (get_last? delays)
    high ← log10_of last
    let left = f.floor low
    let right = f.ceil high
    let step = f.div (f.sub right left) (of_nat fit_points)
    filled ← fill_all delays (bucket_range left step fit_points 1)
    ok (trim_end (trim_start filled))

  -- The point of a bucket, with its count, and the point of its spread.
  pub bucket_point : Bucket F → Result ((F × ℕ) × List (Point F))
  bucket_point b = elim (b.delays) [
    | d ∷ e ∷ ds ↦ do
      let all = d ∷ e ∷ ds
      mean ← over (f.of_int (sum_ℤ all)) (pos (length all))
      let x' = f.div mean millisecond
      let spread = max_ℤ d (e ∷ ds) -ℤ min_ℤ d (e ∷ ds)
      ok (
        (x', length all),
        record { x = x'; y = Num.float (f.div (f.of_int spread) microsecond) } ∷ [],
      )
    | _ ↦ ok ((f.div b.bound millisecond, 0), [])
  ]

  -- `100*float(y)/max_delay`, where there is a highest point above 0.
  pub percent : ℕ → F × ℕ → Result (Point F)
  percent zero (x, y) = ok (record { x = x; y = Num.int (pos y) })
  percent (suc m) (x, y) = do
    p ← over (f.mul (of_nat 100) (of_nat y)) (pos (suc m))
    ok (record { x = x; y = Num.float p })

  -- The points of the histogram before the scale, and those of the spreads.
  pub bucket_points : List (Bucket F) → Result (List (F × ℕ) × List (Point F))
  unfolding bucket_point
  bucket_points [] = ok ([], [])
  bucket_points (b ∷ bs) = do
    (p, s) ← bucket_point b
    (ps, ss) ← bucket_points bs
    ok (p ∷ ps, s ++ ss)

  unfoldable pub make_processing : List Pair → Text → Text → Result (Series F × Series F)
  unfolding delays_of drop_nonpositive sorted histogram bucket_points percent max_count
  make_processing pairs name color = do
    bs ← elim (drop_nonpositive (sorted self (delays_of pairs))) [
      | [] ↦ ok []
      | d ∷ ds ↦ histogram (d ∷ ds)
    ]
    (data_points, steps) ← bucket_points bs
    ps ← map_result (percent (max_count 0 data_points)) data_points
    ok (series ps name color, series steps name color)

  -- A point of `make_total_processing`.
  abbrev pub delay_point : ℤ → ℕ → Point F
  delay_point delay n = record { x = f.div (f.of_int delay) millisecond; y = Num.int (pos n) }

  total_tail : List ℤ → ℕ → Result (List (Point F))
  total_tail delays done =
      if ltb done (length delays)
      then (do d ← item (get_last? delays); ok (delay_point d (length delays) ∷ []))
      else ok []

  -- `data`, from the step and the ordered delays.
  pub total_points : ℕ → List ℤ → Result (List (Point F))
  unfolding total_tail
  total_points step delays =
      if leb step 1
      then ok (map (λ (i, d). delay_point d (i + 1)) (enumerate_from 0 delays))
      else (do
        first ← item (get_elem? delays 0)
        let samples = every (step - 1) step delays
        let rest = map (λ (i, d). delay_point d ((i + 1) * step)) (enumerate_from 0 samples)
        i ← last_index samples
        tail ← total_tail delays ((i + 1) * step)
        ok (delay_point first 1 ∷ rest ++ tail))

  unfoldable pub make_total_processing : List Pair → Text → Text → Result (Series F)
  unfolding delays_of sorted total_points
  make_total_processing pairs name color = do
    ps ← total_points (length pairs / fit_points) (sorted self (delays_of pairs))
    ok (series ps name color)
