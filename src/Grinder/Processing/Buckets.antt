-- ===== src/Grinder/Processing/Buckets.antt =====
-- The histogram of `make_processing`: each delay goes into one bucket, and into the right one.
use dnstools.Chart.{of_nat, Floats}
use dnstools.Prelude.Int.{◌≤ℤ◌, ℤ}
use dnstools.Prelude.{
  Bool-cases, All, All-append, ℕ, zero, suc, ◌+◌, ◌≡◌, refl, ap, ◌∙◌, ◌≢◌, inl, inr, true, false,
  List, [], ◌∷◌, ◌++◌, map, append_assoc,
}
use dnstools.Prelude.Sort.{IsSorted, self}
use dnstools.Grinder.Processing.{Bucket, push, fill}

module _ {ℓ} {F : Type ℓ} where
  abbrev pub contents : List (Bucket F) → List ℤ
  contents [] = []
  contents (b ∷ bs) = b.delays ++ contents bs

  abbrev pub bounds_of : List (Bucket F) → List F
  bounds_of bs = map (λ b. b.bound) bs

  -- The buckets of a list without empty ones at its front and at its back.
  abbrev pub IsTrimmed : List (Bucket F) → List (Bucket F) → Type ℓ
  IsTrimmed bs all =
      (front back : List (Bucket F)) × (all ≡ front ++ (bs ++ back))
      × All (λ b. b.delays ≡ []) front
      × All (λ b. b.delays ≡ []) back

-- The numbers from `i` on.
abbrev pub numbers : ℕ → ℕ → List ℕ
numbers i zero = []
numbers i (suc n) = i ∷ numbers (i + 1) n

-- The powers of ten by which the buckets are bounded: `n` of them, in equal steps of the exponent
-- behind `left`.
abbrev pub powers {ℓ} : {F : Type ℓ} ⦃f : Floats F⦄ → F → F → ℕ → ℕ → List F
powers ⦃f⦄ left step n i =
    map (λ k. f.pow (of_nat 10) (f.add left (f.mul (of_nat k) step))) (numbers i n)

module _ {ℓ} {F : Type ℓ} ⦃f : Floats F⦄ where
  -- A delay lies above the bound of a bucket.
  abbrev pub IsAbove : F → ℤ → Type 0
  IsAbove bound d = f.int_le d bound ≡ false

  abbrev pub IsNotAbove : F → ℤ → Type 0
  IsNotAbove bound d = f.int_le d bound ≡ true

  -- Each delay of a bucket lies above the bounds of all buckets before it, and not above its own, but
  -- the last bucket takes what is left.
  abbrev pub IsHistogram : List (Bucket F) → Type ℓ
  IsHistogram [] = Unit
  IsHistogram (b ∷ bs) =
      (bs ≢ [] → All (IsNotAbove b.bound) b.delays)
      × All (IsAbove b.bound) (contents bs)
      × IsHistogram bs

  abbrev pub AllEmpty : List (Bucket F) → Type 0
  AllEmpty = All (λ b. b.delays ≡ [])

  contents_empty : (bs : List (Bucket F)) → AllEmpty bs → contents bs ≡ []
  contents_empty [] e = refl
  contents_empty (b ∷ bs) e = rw (e.0, contents_empty bs e.1)

  empty-IsHistogram : (bs : List (Bucket F)) → AllEmpty bs → IsHistogram bs
  empty-IsHistogram [] e = tt
  empty-IsHistogram (b ∷ bs) e =
      ((λ _. rw e.0 tt), rw (contents_empty bs e.1) tt, empty-IsHistogram bs e.1)

  fill_nil : (b : Bucket F) (rest : List (Bucket F)) → fill [] b rest ≡ b ∷ rest
  unfolding fill
  fill_nil b rest = refl

  fill_last : (d : ℤ) (ds : List ℤ) (b : Bucket F) → fill (d ∷ ds) b [] ≡ fill ds (push b d) []
  unfolding fill
  fill_last d ds b = refl

  fill_next :
      (d : ℤ) (ds : List ℤ) (b c : Bucket F) (rest : List (Bucket F))
      → f.int_le d b.bound ≡ false
      → fill (d ∷ ds) b (c ∷ rest) ≡ b ∷ fill (d ∷ ds) c rest
  unfolding fill
  fill_next d ds b c rest h = rw (h, fill) refl

  fill_put :
      (d : ℤ) (ds : List ℤ) (b c : Bucket F) (rest : List (Bucket F))
      → f.int_le d b.bound ≡ true
      → fill (d ∷ ds) b (c ∷ rest) ≡ fill ds (push b d) (c ∷ rest)
  unfolding fill
  fill_put d ds b c rest h = rw (h, fill) refl

  -- The loop changes no bound.
  pub bounds-fill :
      (ds : List ℤ) (b : Bucket F) (rest : List (Bucket F))
      → bounds_of (fill ds b rest) ≡ bounds_of (b ∷ rest)
  bounds-fill [] b rest = rw (fill_nil b rest) refl
  bounds-fill (d ∷ ds) b [] = rw (fill_last d ds b) (bounds-fill ds (push b d) [])
  bounds-fill (d ∷ ds) b (c ∷ rest) = elim (Bool-cases (f.int_le d b.bound)) [
    | inr h ↦ rw (fill_next d ds b c rest h) (ap (◌∷◌ b.bound) (bounds-fill (d ∷ ds) c rest))
    | inl h ↦ rw (fill_put d ds b c rest h) (bounds-fill ds (push b d) (c ∷ rest))
  ]

  -- No delay is lost, none is doubled, and their order is kept.
  pub contents-fill :
      (ds : List ℤ) (b : Bucket F) (rest : List (Bucket F))
      → AllEmpty rest
      → contents (fill ds b rest) ≡ b.delays ++ ds
  contents-fill [] b rest e = rw (fill_nil b rest, contents_empty rest e)
  contents-fill (d ∷ ds) b [] e =
      rw (fill_last d ds b) (contents-fill ds (push b d) [] e ∙ append_assoc b.delays (d ∷ []) ds)
  contents-fill (d ∷ ds) b (c ∷ rest) e = elim (Bool-cases (f.int_le d b.bound)) [
    | inr h ↦
        rw (fill_next d ds b c rest h)
          (ap (◌++◌ b.delays) (contents-fill (d ∷ ds) c rest e.1 ∙ ap (λ l. l ++ (d ∷ ds)) e.0))
    | inl h ↦
        rw (fill_put d ds b c rest h)
          (contents-fill ds (push b d) (c ∷ rest) e ∙ append_assoc b.delays (d ∷ []) ds)
  ]

-- What the proof uses of floats: a larger integer lies above what a smaller one lies above.
abbrev pub IsMonotone {ℓ} : (F : Type ℓ) ⦃f : Floats F⦄ → Type ℓ
IsMonotone F ⦃f⦄ = (x : F) (a b : ℤ) → a ≤ℤ b → f.int_le a x ≡ false → f.int_le b x ≡ false

module _ {ℓ} {F : Type ℓ} ⦃f : Floats F⦄ (mono : IsMonotone F) where
  IsAbove-All :
      (x : F) (d : ℤ) (ds : List ℤ)
      → IsSorted self (d ∷ ds)
      → IsAbove x d
      → All (IsAbove x) (d ∷ ds)
  IsAbove-All x d [] s h = (h, tt)
  IsAbove-All x d (e ∷ ds) s h = (h, IsAbove-All x e ds s.1 (mono x d e s.0 h))

  tail-IsSorted : (d : ℤ) (ds : List ℤ) → IsSorted self (d ∷ ds) → IsSorted self ds
  tail-IsSorted d [] s = tt
  tail-IsSorted d (e ∷ ds) s = s.1

  pub fill-IsHistogram :
      (ds : List ℤ) (b : Bucket F) (rest : List (Bucket F))
      → IsSorted self ds
      → AllEmpty rest
      → (rest ≢ [] → All (IsNotAbove b.bound) b.delays)
      → IsHistogram (fill ds b rest)
  fill-IsHistogram [] b rest s e h =
      rw (fill_nil b rest) (h, rw (contents_empty rest e) tt, empty-IsHistogram rest e)
  fill-IsHistogram (d ∷ ds) b [] s e h =
      rw (fill_last d ds b)
        (fill-IsHistogram ds (push b d) [] (tail-IsSorted d ds s) tt (λ n. absurd (n refl)))
  fill-IsHistogram (d ∷ ds) b (c ∷ rest) s e h = elim (Bool-cases (f.int_le d b.bound)) [
    | inr above ↦ rw (fill_next d ds b c rest above) (
      (λ _. h (λ n. cc)),
      rw (contents-fill (d ∷ ds) c rest e.1) (rw e.0 (IsAbove-All b.bound d ds s above)),
      fill-IsHistogram (d ∷ ds) c rest s e.1 (λ _. rw e.0 tt),
    )
    | inl below ↦ rw (fill_put d ds b c rest below) (
        fill-IsHistogram ds (push b d) (c ∷ rest) (tail-IsSorted d ds s) e
          (λ n. All-append (IsNotAbove b.bound) b.delays (d ∷ []) (h n) (below, tt)))
  ]
