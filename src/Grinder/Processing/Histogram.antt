-- ===== src/Grinder/Processing/Histogram.antt =====
-- `histogram`, the part of `make_processing` of mig/analyser/grinder.py over positive ascending
-- delays: it raises nothing, and the trimmed buckets hold every delay once.
use dnstools.Chart.{of_nat, fit_points, Floats}
use dnstools.Prelude.{
  Bool-cases, get_last?, All, ◌>>=◌, ok, ℕ, zero, suc, ◌+◌, ◌<◌, ◌≡◌, refl, sym, ap, ◌∙◌, subst,
  ◌≢◌, inl, inr, true, false, some, List, [], ◌∷◌, ◌++◌, arith,
}
use dnstools.Prelude.Int.{◌<ℤ◌, leb_ℤ, leb_ℤ→le, ℤ, pos}
use dnstools.Prelude.Sort.{IsSorted, self, get_last?_above}
use dnstools.Grinder.Processing.Buckets.{
  contents, bounds_of, IsTrimmed, powers, bounds-fill, AllEmpty, IsHistogram, IsMonotone,
  contents-fill, fill-IsHistogram,
}
use dnstools.Grinder.Processing.{
  Bucket, fill, trim_start, trim_end, keep, is_empty, bucket_range, log10_of, histogram, fill_all,
}

no_item : (ds : List ℤ) → (elim ds [ [] ↦ true | _ ∷ _ ↦ false ]) ≡ true → ds ≡ []
no_item [] h = refl
no_item (d ∷ ds) h = cc

module _ {ℓ} {F : Type ℓ} where
  is_empty-eq : (b : Bucket F) → is_empty b ≡ true → b.delays ≡ []
  is_empty-eq b h = no_item b.delays h

  contents-keep :
      (b : Bucket F) (bs : List (Bucket F)) → contents (keep b bs) ≡ b.delays ++ contents bs
  contents-keep b [] = elim (Bool-cases (is_empty b)) [
    | inl h ↦ let e = is_empty-eq b h in rw (h, e) refl
    | inr h ↦ rw h refl
  ]
  contents-keep b (c ∷ bs) = refl

  contents-trim_end : (bs : List (Bucket F)) → contents (trim_end bs) ≡ contents bs
  unfolding trim_end
  contents-trim_end [] = refl
  contents-trim_end (b ∷ bs) =
      contents-keep b (trim_end bs) ∙ ap (◌++◌ b.delays) (contents-trim_end bs)

  contents-trim_start : (bs : List (Bucket F)) → contents (trim_start bs) ≡ contents bs
  unfolding trim_start
  contents-trim_start [] = refl
  contents-trim_start (b ∷ bs) = elim (Bool-cases (is_empty b)) [
    | inl h ↦ rw (h, trim_start, is_empty-eq b h) (contents-trim_start bs)
    | inr h ↦ rw (h, trim_start) refl
  ]

  trim_start-split :
      (bs : List (Bucket F))
      → (front : List (Bucket F)) × (bs ≡ front ++ trim_start bs) × All (λ b. b.delays ≡ []) front
  unfolding trim_start
  trim_start-split [] = ([], refl, tt)
  trim_start-split (b ∷ bs) = elim (Bool-cases (is_empty b)) [
    | inl h ↦
        let (front, e, all) = trim_start-split bs in
        (b ∷ front, rw h (ap (◌∷◌ b) e), (is_empty-eq b h, all))
    | inr h ↦ ([], rw h refl, tt)
  ]

  keep-split :
      (b : Bucket F) (bs back : List (Bucket F))
      → All (λ c. c.delays ≡ []) back
      → (back' : List (Bucket F)) × (b ∷ bs ++ back ≡ keep b bs ++ back')
        × All (λ c. c.delays ≡ []) back'
  keep-split b [] back all = elim (Bool-cases (is_empty b)) [
    | inl h ↦ (b ∷ back, rw h refl, (is_empty-eq b h, all))
    | inr h ↦ (back, rw h refl, all)
  ]
  keep-split b (c ∷ bs) back all = (back, refl, all)

  trim_end-split :
      (bs : List (Bucket F))
      → (back : List (Bucket F)) × (bs ≡ trim_end bs ++ back) × All (λ b. b.delays ≡ []) back
  unfolding trim_end
  trim_end-split [] = ([], refl, tt)
  trim_end-split (b ∷ bs) =
      let (back, e, all) = trim_end-split bs in
      let (back', e', all') = keep-split b (trim_end bs) back all in
      (back', ap (◌∷◌ b) e ∙ e', all')

  trim-IsTrimmed : (bs : List (Bucket F)) → IsTrimmed (trim_end (trim_start bs)) bs
  trim-IsTrimmed bs =
      let (front, e, all) = trim_start-split bs in
      let (back, e', all') = trim_end-split (trim_start bs) in
      (front, back, e ∙ ap (◌++◌ front) e', all, all')

module _ {ℓ} {F : Type ℓ} ⦃f : Floats F⦄ where
  bounds-bucket_range : (l s : F) (n i : ℕ) → bounds_of (bucket_range l s n i) ≡ powers l s n i
  unfolding bucket_range
  bounds-bucket_range l s zero i = refl
  bounds-bucket_range l s (suc n) i =
      ap (◌∷◌ (f.pow (of_nat 10) (f.add l (f.mul (of_nat i) s))))
        (bounds-bucket_range l s n (i + 1))

  trim_start-IsHistogram : (bs : List (Bucket F)) → IsHistogram bs → IsHistogram (trim_start bs)
  unfolding trim_start
  trim_start-IsHistogram [] h = tt
  trim_start-IsHistogram (b ∷ bs) h = elim (Bool-cases (is_empty b)) [
    | inl e ↦ rw (e, trim_start) (trim_start-IsHistogram bs h.2)
    | inr e ↦ rw (e, trim_start) h
  ]

  keep-IsHistogram :
      (b : Bucket F) (bs : List (Bucket F)) → IsHistogram (b ∷ bs) → IsHistogram (keep b bs)
  keep-IsHistogram b [] h = elim (Bool-cases (is_empty b)) [ inl e ↦ rw e tt | inr e ↦ rw e h ]
  keep-IsHistogram b (c ∷ bs) h = h

  trim_end-IsHistogram : (bs : List (Bucket F)) → IsHistogram bs → IsHistogram (trim_end bs)
  unfolding trim_end
  trim_end-IsHistogram [] h = tt
  trim_end-IsHistogram (b ∷ bs) h =
      keep-IsHistogram b (trim_end bs) (
        (λ n. h.0 (λ e. n (rw e refl))),
        rw (contents-trim_end bs) h.1,
        trim_end-IsHistogram bs h.2,
      )

  bucket_range-AllEmpty : (l s : F) (n i : ℕ) → AllEmpty (bucket_range l s n i)
  unfolding bucket_range
  bucket_range-AllEmpty l s zero i = tt
  bucket_range-AllEmpty l s (suc n) i = (refl, bucket_range-AllEmpty l s n (i + 1))

  bucket_range-nonempty : (l s : F) (n i : ℕ) → 0 < n → bucket_range l s n i ≢ []
  unfolding bucket_range
  bucket_range-nonempty l s zero i h = absurd (omega arith)
  bucket_range-nonempty l s (suc n) i h = λ e. cc

  log10_of_above : (d : ℤ) → leb_ℤ d (pos 0) ≡ false → log10_of d ≡ ok (f.log10 (f.of_int d))
  log10_of_above d h = rw h refl

  log10_of-ok : (d : ℤ) → pos 0 <ℤ d → log10_of d ≡ ok (f.log10 (f.of_int d))
  log10_of-ok d p = elim (Bool-cases (leb_ℤ d (pos 0))) [
    | inl h ↦ let q = leb_ℤ→le d (pos 0) h in absurd (omega arith)
    | inr h ↦ rw (log10_of_above d h) refl
  ]

module _ {ℓ} {F : Type ℓ} ⦃f : Floats F⦄ where
  histogram_run :
      (d e : ℤ) (ds : List ℤ) {low high : F} {gs : List (Bucket F)}
      → get_last? (d ∷ ds) ≡ some e
      → log10_of d ≡ ok low
      → log10_of e ≡ ok high
      → fill_all (d ∷ ds) (
          bucket_range
            (f.floor low)
            (f.div (f.sub (f.ceil high) (f.floor low)) (of_nat fit_points))
            fit_points
            1)
        ≡ ok gs
      → histogram (d ∷ ds) ≡ ok (trim_end (trim_start gs))
  unfolding histogram
  histogram_run d e ds last l h filled =
      let r = ap (λ m. m >>= λ g. ok (trim_end (trim_start g))) filled in rw (last, l, h) r

-- The buckets behind the loop.
abbrev IsFilled {ℓ} : {F : Type ℓ} ⦃f : Floats F⦄ → List ℤ → List (Bucket F) → Type ℓ
IsFilled ds bs = (contents bs ≡ ds) × IsHistogram bs

module _ {ℓ} {F : Type ℓ} ⦃f : Floats F⦄ (mono : IsMonotone F) where
  fill_all-ok :
      (ds : List ℤ) (bs : List (Bucket F))
      → IsSorted self ds
      → AllEmpty bs
      → bs ≢ []
      → (gs : List (Bucket F)) × (fill_all ds bs ≡ ok gs)
        × (bounds_of gs ≡ bounds_of bs)
        × IsFilled ds gs
  unfolding fill_all
  fill_all-ok ds [] s e n = absurd (n refl)
  fill_all-ok ds (b ∷ rest) s e n = (
    fill ds b rest,
    refl,
    bounds-fill ds b rest,
    (
      contents-fill ds b rest e.1 ∙ ap (λ l. l ++ ds) e.0,
      fill-IsHistogram mono ds b rest s e.1 (λ _. rw e.0 tt),
    ),
  )

  trim-IsFilled :
      (ds : List ℤ) (bs : List (Bucket F)) → IsFilled ds bs → IsFilled ds (trim_end (trim_start bs))
  trim-IsFilled ds bs (c, h) = (
    contents-trim_end (trim_start bs) ∙ contents-trim_start bs ∙ c,
    trim_end-IsHistogram (trim_start bs) (trim_start-IsHistogram bs h),
  )

  pub histogram-IsHistogram :
      (d : ℤ) (ds : List ℤ) {last : ℤ}
      → IsSorted self (d ∷ ds)
      → pos 0 <ℤ d
      → get_last? (d ∷ ds) ≡ some last
      → let left = f.floor (f.log10 (f.of_int d)) in
        let right = f.ceil (f.log10 (f.of_int last)) in
        (bs all : List (Bucket F)) × (histogram (d ∷ ds) ≡ ok bs)
        × (contents bs ≡ d ∷ ds)
        × IsHistogram bs
        × IsTrimmed bs all
        × (bounds_of all ≡ powers left (f.div (f.sub right left) (of_nat fit_points)) 500 1)
        × IsHistogram all
  unfolding histogram
  histogram-IsHistogram d ds {last} s p at_end =
      let (e, last', le) = get_last?_above d ds s in
      let same : last ≡ e = cc in
      let q : pos 0 <ℤ last = subst (λ z. pos 0 <ℤ z) (sym same) (omega arith) in
      let left = f.floor (f.log10 (f.of_int d)) in
      let step = f.div (f.sub (f.ceil (f.log10 (f.of_int last))) left) (of_nat fit_points) in
      let (gs, filled, b, is) =
        fill_all-ok (d ∷ ds) (bucket_range left step fit_points 1) s
          (bucket_range-AllEmpty left step fit_points 1)
          (bucket_range-nonempty left step fit_points 1 (omega arith)) in
      let (c, h) = trim-IsFilled (d ∷ ds) gs is in
      (
        trim_end (trim_start gs),
        gs,
        histogram_run d last ds at_end (log10_of-ok d p) (log10_of-ok last q) filled,
        c,
        h,
        trim-IsTrimmed gs,
        b ∙ bounds-bucket_range left step 500 1,
        is.1,
      )
