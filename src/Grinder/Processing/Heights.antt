-- ===== src/Grinder/Processing/Heights.antt =====
-- The whole of `make_processing` of mig/analyser/grinder.py: it raises nothing, and its points are the
-- shares of the buckets.
use dnstools.Chart.{Text, series, of_nat, Floats, Num}
use dnstools.Prelude.{
  ltb, if◌then◌else◌, length, All, length-append, get_last?_cons, ok, ℕ, zero, suc, ◌^◌, ◌≤◌, ◌<◌,
  ◌≡◌, refl, sym, ap, ◌∙◌, subst, true, List, [], ◌∷◌, map, arith,
}
use dnstools.Prelude.Int.{ℤ, pos}
use dnstools.Prelude.Sort.{IsSorted, self, sorted, sorted-IsSorted, length-sorted}
use dnstools.Dump.{Pair, positive}
use dnstools.Grinder.Processing.Buckets.{contents, IsHistogram, IsMonotone}
use dnstools.Grinder.Processing.Histogram.{histogram-IsHistogram}
use dnstools.Grinder.Processing.Points.{
  shown, share, marks_of, spreads_of, max_count-All, make_processing_run, drop_nonpositive-positive,
  drop_nonpositive-IsSorted, drop_nonpositive-head, make_processing_run_empty,
}
use dnstools.Grinder.Processing.{Bucket, delays_of, drop_nonpositive, max_count, make_processing}

-- What the proof uses of floats: the product with an integer and the quotient by one are monotone,
-- and a product of 100 is divided again, as in IEEE 754 for integers up to 2^40.
pub record IsScaling {ℓ} (F : Type ℓ) ⦃f : Floats F⦄ : Type ℓ where
  pub mul_mono :
      (a b : ℕ)
      → a ≤ b
      → f.le (f.mul (of_nat 100) (of_nat a)) (f.mul (of_nat 100) (of_nat b)) ≡ true
  pub div_mono :
      (x y : F) (n : ℕ)
      → f.le x y ≡ true
      → f.le (f.div x (of_nat (suc n))) (f.div y (of_nat (suc n))) ≡ true
  pub div_mul :
      (n : ℕ)
      → suc n < 2 ^ 40
      → f.div (f.mul (of_nat 100) (of_nat (suc n))) (of_nat (suc n)) ≡ of_nat 100

-- A height of the chart: 0, or a percentage.
pub data IsHeight {ℓ} {F : Type ℓ} ⦃f : Floats F⦄ (y : Num F) : Type ℓ where
  none_shown : y ≡ Num.int (pos 0) → IsHeight y
  percentage : (x : F) → y ≡ Num.float x → f.le x (of_nat 100) ≡ true → IsHeight y

shown-le : (ds : List ℤ) → shown ds ≤ length ds
shown-le [] = omega arith
shown-le (d ∷ []) = omega arith
shown-le (d ∷ e ∷ ds) = omega arith

length-delays_of : (pairs : List Pair) → length (delays_of pairs) ≤ length pairs
unfolding delays_of
length-delays_of [] = omega arith
length-delays_of ([] ∷ pairs) = omega (arith, length-delays_of pairs)
length-delays_of ((a ∷ []) ∷ pairs) = omega (arith, length-delays_of pairs)
length-delays_of ((a ∷ b ∷ []) ∷ pairs) = omega (arith, length-delays_of pairs)
length-delays_of ((a ∷ b ∷ c ∷ _) ∷ pairs) = omega (arith, length-delays_of pairs)

length-positive : (xs : List ℤ) → length (positive xs) ≤ length xs
unfolding positive
length-positive [] = omega arith
length-positive (x ∷ xs) = ground (arith, length-positive xs)

module _ {ℓ} {F : Type ℓ} where
  max_count-le :
      (n best : ℕ) (ps : List (F × ℕ)) → best ≤ n → All (λ p. p.1 ≤ n) ps → max_count best ps ≤ n
  unfolding max_count
  max_count-le n best [] h a = h
  max_count-le n best ((x, y) ∷ ps) h a =
      let le : y ≤ n = a.0 in max_count-le n (if ltb best y then y else best) ps (ground arith) a.1

module _ {ℓ} {F : Type ℓ} ⦃f : Floats F⦄ where
  marks-All :
      (n : ℕ) (bs : List (Bucket F)) → length (contents bs) ≤ n → All (λ p. p.1 ≤ n) (marks_of bs)
  marks-All n [] h = tt
  marks-All n (b ∷ bs) h =
      let l = length-append (b.delays) (contents bs) in
      let s = shown-le (b.delays) in ((omega arith), marks-All n bs (omega arith))

  max-le-pairs :
      (pairs : List Pair) (bs : List (Bucket F))
      → contents bs ≡ positive (sorted self (delays_of pairs))
      → max_count 0 (marks_of bs) ≤ length pairs
  max-le-pairs pairs bs e = max_count-le (length pairs) 0 (marks_of bs) (omega arith) (
      marks-All (length pairs) bs (
        omega (
          arith,
          ap length e,
          length-positive (sorted self (delays_of pairs)),
          length-sorted self (delays_of pairs),
          length-delays_of pairs,
        )))

module _ {ℓ} {F : Type ℓ} ⦃f : Floats F⦄ (laws : IsScaling F) where
  open laws use {mul_mono, div_mono, div_mul}

  share-IsHeight : (m : ℕ) (p : F × ℕ) → m < 2 ^ 40 → p.1 ≤ m → IsHeight ((share m p).y)
  share-IsHeight zero (x, y) b h =
      let e : y ≡ 0 = omega arith in none_shown (ap (λ n. Num.int (pos n)) e)
  share-IsHeight (suc m) (x, y) b h =
      percentage (f.div (f.mul (of_nat 100) (of_nat y)) (of_nat (suc m))) refl (
        subst (λ z. f.le (f.div (f.mul (of_nat 100) (of_nat y)) (of_nat (suc m))) z ≡ true)
          (div_mul m b)
          (div_mono (f.mul (of_nat 100) (of_nat y)) (f.mul (of_nat 100) (of_nat (suc m))) m
            (mul_mono y (suc m) h)))

  shares-IsHeight :
      (m : ℕ) (ps : List (F × ℕ))
      → m < 2 ^ 40
      → All (λ p. p.1 ≤ m) ps
      → All (λ p. IsHeight (p.y)) (map (share m) ps)
  shares-IsHeight m [] b h = tt
  shares-IsHeight m (p ∷ ps) b h = (share-IsHeight m p b h.0, shares-IsHeight m ps b h.1)

-- What `make_processing` draws for buckets.
abbrev pub IsDrawn {ℓ} :
    {F : Type ℓ} ⦃f : Floats F⦄ → List Pair → Text → Text → List (Bucket F) → Type ℓ
IsDrawn pairs name color bs =
    make_processing pairs name color
    ≡ ok (
      series (map (share (max_count 0 (marks_of bs))) (marks_of bs)) name color,
      series (spreads_of bs) name color,
    )

module _ {ℓ} {F : Type ℓ} ⦃f : Floats F⦄ (mono : IsMonotone F) where
  pub make_processing_buckets :
      (pairs : List Pair) (name color : Text)
      → (bs : List (Bucket F)) × IsDrawn pairs name color bs
        × (contents bs ≡ positive (sorted self (delays_of pairs)))
        × IsHistogram bs
  make_processing_buckets pairs name color = go (drop_nonpositive all) refl
    where
      all : List ℤ
      all = sorted self (delays_of pairs)

      kept : drop_nonpositive all ≡ positive all
      kept = drop_nonpositive-positive all (sorted-IsSorted self (delays_of pairs))

      go :
          (l : List ℤ)
          → drop_nonpositive all ≡ l
          → (bs : List (Bucket F)) × IsDrawn pairs name color bs
            × (contents bs ≡ positive all)
            × IsHistogram bs
      go [] e = ([], make_processing_run_empty pairs name color e, sym e ∙ kept, tt)
      go (d ∷ ds) e =
          let s = sorted-IsSorted self (delays_of pairs) in
          let o = subst (IsSorted self) e (drop_nonpositive-IsSorted all s) in
          let (last, at_end) = get_last?_cons d ds in
          let (bs, gs, h, c, is, trimmed, bounds, filled) =
            histogram-IsHistogram mono d ds o (drop_nonpositive-head all d ds s e) at_end in
          (bs, make_processing_run pairs name color bs d ds e h, c ∙ sym e ∙ kept, is)

module _ {ℓ} {F : Type ℓ} ⦃f : Floats F⦄ (mono : IsMonotone F) (laws : IsScaling F) where
  pub make_processing-IsHeight :
      (pairs : List Pair) (name color : Text)
      → length pairs < 2 ^ 40
      → (bs : List (Bucket F)) × IsDrawn pairs name color bs
        × (contents bs ≡ positive (sorted self (delays_of pairs)))
        × IsHistogram bs
        × All (λ p. IsHeight (p.y)) (map (share (max_count 0 (marks_of bs))) (marks_of bs))
  make_processing-IsHeight pairs name color h =
      let (bs, drawn, c, is) = make_processing_buckets mono pairs name color in
      let m = max_count 0 (marks_of bs) in
      let le = max-le-pairs pairs bs c in
      (
        bs,
        drawn,
        c,
        is,
        shares-IsHeight laws m (marks_of bs) (omega arith) (max_count-All 0 (marks_of bs)),
      )
