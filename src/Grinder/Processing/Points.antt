-- ===== src/Grinder/Processing/Points.antt =====
-- The points of `make_processing` of mig/analyser/grinder.py, for the buckets of the histogram.
use dnstools.Chart.{Text, series, of_nat, microsecond, millisecond, Floats, Num, Point}
use dnstools.Prelude.{
  ltb, if◌then◌else◌, Bool-cases, length, All, map_result, map_result-ok, ok, ℕ, zero, suc, ◌≤◌,
  ◌≡◌, refl, sym, ap, ◌∙◌, subst, inl, inr, false, List, [], ◌∷◌, ◌++◌, map, arith,
}
use dnstools.Prelude.Int.{◌-ℤ◌, ◌<ℤ◌, ltb_ℤ, leb_ℤ, leb_ℤ→le, leb_ℤ→gt, lt→ltb_ℤ, ℤ, pos}
use dnstools.Prelude.Sort.{IsSorted, self, sorted, tail-IsSorted}
use dnstools.Dump.{Pair, positive}
use dnstools.Dump.Members.{positive-All}
use dnstools.Grinder.Processing.{
  Bucket, delays_of, drop_nonpositive, sum_ℤ, max_ℤ, min_ℤ, max_count, bucket_point, bucket_points,
  percent, histogram, make_processing,
}

pub IsSorted-positive :
    (x : ℤ) (xs : List ℤ) → pos 0 <ℤ x → IsSorted self (x ∷ xs) → positive xs ≡ xs
unfolding positive
IsSorted-positive x [] h s = refl
IsSorted-positive x (y ∷ ys) h s =
    let le = s.0 in
    let p : pos 0 <ℤ y = omega arith in
    rw (lt→ltb_ℤ (pos 0) y p) (ap (◌∷◌ y) (IsSorted-positive y ys p s.1))

-- Without its first part an ascending list holds the numbers above 0.
pub drop_nonpositive-positive : (xs : List ℤ) → IsSorted self xs → drop_nonpositive xs ≡ positive xs
unfolding drop_nonpositive positive
drop_nonpositive-positive [] s = refl
drop_nonpositive-positive (x ∷ xs) s = elim (Bool-cases (leb_ℤ x (pos 0))) [
  | inl h ↦
      let le = leb_ℤ→le x (pos 0) h in
      let n : ltb_ℤ (pos 0) x ≡ false = ground arith in
      rw (h, n) (drop_nonpositive-positive xs (tail-IsSorted self x xs s))
  | inr h ↦
      let gt = leb_ℤ→gt x (pos 0) h in
      rw (h, lt→ltb_ℤ (pos 0) x gt) (sym (ap (◌∷◌ x) (IsSorted-positive x xs gt s)))
]

-- The number that a bucket is shown with: a single delay is not.
abbrev pub shown : List ℤ → ℕ
shown (d ∷ e ∷ ds) = length (d ∷ e ∷ ds)
shown _ = 0

module _ {ℓ} {F : Type ℓ} ⦃f : Floats F⦄ where
  -- Where a bucket is shown: at the mean of its delays, or at its bound.
  abbrev pub place : F → List ℤ → F
  place bound (d ∷ e ∷ ds) =
      let all = d ∷ e ∷ ds in f.div (f.div (f.of_int (sum_ℤ all)) (of_nat (length all))) millisecond
  place bound _ = f.div bound millisecond

  abbrev pub mark_of : Bucket F → F × ℕ
  mark_of b = (place b.bound b.delays, shown b.delays)

  -- The share of a bucket, in percent of the largest.
  abbrev pub share : ℕ → F × ℕ → Point F
  share zero (x, y) = record { x = x; y = Num.int (pos y) }
  share (suc m) (x, y) = record {
    x = x;
    y = Num.float (f.div (f.mul (of_nat 100) (of_nat y)) (of_nat (suc m)));
  }

  -- The spread of the delays of a bucket with two or more.
  abbrev pub spread : F → List ℤ → List (Point F)
  spread bound (d ∷ e ∷ ds) =
      record {
        x = place bound (d ∷ e ∷ ds);
        y = Num.float (f.div (f.of_int (max_ℤ d (e ∷ ds) -ℤ min_ℤ d (e ∷ ds))) microsecond);
      }
      ∷ []
  spread bound _ = []

  abbrev pub marks_of : List (Bucket F) → List (F × ℕ)
  marks_of bs = map mark_of bs

  abbrev pub spreads_of : List (Bucket F) → List (Point F)
  spreads_of [] = []
  spreads_of (b ∷ bs) = spread b.bound b.delays ++ spreads_of bs

  bucket_point-ok : (b : Bucket F) → bucket_point b ≡ ok (mark_of b, spread b.bound b.delays)
  bucket_point-ok b = go (b.delays) refl
    where
      go : (ds : List ℤ) → b.delays ≡ ds → bucket_point b ≡ ok (mark_of b, spread b.bound b.delays)
      go [] h = unfold bucket_point in rw h refl
      go (d ∷ []) h = unfold bucket_point in rw h refl
      go (d ∷ e ∷ ds) h = unfold bucket_point in rw h refl

  pub bucket_points-ok : (bs : List (Bucket F)) → bucket_points bs ≡ ok (marks_of bs, spreads_of bs)
  unfolding bucket_points
  bucket_points-ok [] = refl
  bucket_points-ok (b ∷ bs) = rw (bucket_point-ok b) (rw (bucket_points-ok bs) refl)

  pub percent-ok : (m : ℕ) (p : F × ℕ) → percent m p ≡ ok (share m p)
  unfolding percent
  percent-ok zero (x, y) = refl
  percent-ok (suc m) (x, y) = refl

  -- The largest number of a list of marks, and at least `best`.
  le-max_count : (best : ℕ) (ps : List (F × ℕ)) → best ≤ max_count best ps
  unfolding max_count
  le-max_count best [] = omega arith
  le-max_count best ((x, y) ∷ ps) =
      let h = le-max_count (if ltb best y then y else best) ps in ground arith

  pub max_count-All : (best : ℕ) (ps : List (F × ℕ)) → All (λ p. p.1 ≤ max_count best ps) ps
  unfolding max_count
  max_count-All best [] = tt
  max_count-All best ((x, y) ∷ ps) =
      let next = if ltb best y then y else best in
      let h = le-max_count next ps in
      let le : y ≤ max_count next ps = ground arith in (le, max_count-All next ps)

  pub make_processing_run :
      (pairs : List Pair) (name color : Text) (bs : List (Bucket F)) (d : ℤ) (ds : List ℤ)
      → drop_nonpositive (sorted self (delays_of pairs)) ≡ d ∷ ds
      → histogram (d ∷ ds) ≡ ok bs
      → make_processing pairs name color
        ≡ ok (
          series (map (share (max_count 0 (marks_of bs))) (marks_of bs)) name color,
          series (spreads_of bs) name color,
        )
  unfolding make_processing
  make_processing_run pairs name color bs d ds e h =
      let m = max_count 0 (marks_of bs) in
      let ps = map_result-ok (percent m) (share m) (marks_of bs) (percent-ok m) in
      rw (e) (rw (h) (rw (bucket_points-ok bs) (rw ps refl)))

  pub make_processing_run_empty :
      (pairs : List Pair) (name color : Text)
      → drop_nonpositive (sorted self (delays_of pairs)) ≡ []
      → make_processing {F = F} pairs name color ≡ ok (series [] name color, series [] name color)
  unfolding make_processing bucket_points map_result
  make_processing_run_empty pairs name color e = rw e refl

pub drop_nonpositive-IsSorted :
    (xs : List ℤ) → IsSorted self xs → IsSorted self (drop_nonpositive xs)
unfolding drop_nonpositive
drop_nonpositive-IsSorted [] s = tt
drop_nonpositive-IsSorted (x ∷ xs) s = elim (Bool-cases (leb_ℤ x (pos 0))) [
  | inl h ↦ rw h (drop_nonpositive-IsSorted xs (tail-IsSorted self x xs s))
  | inr h ↦ rw h s
]

pub drop_nonpositive-head :
    (xs : List ℤ) (d : ℤ) (ds : List ℤ)
    → IsSorted self xs
    → drop_nonpositive xs ≡ d ∷ ds
    → pos 0 <ℤ d
drop_nonpositive-head xs d ds s e =
    (subst (All (λ x. pos 0 <ℤ x)) (sym (drop_nonpositive-positive xs s) ∙ e) (positive-All xs)).0
