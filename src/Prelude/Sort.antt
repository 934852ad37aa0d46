-- ===== src/Prelude/Sort.antt =====
-- Python's `sorted(xs, key=...)`: a stable sort by an integer key.
use mathlib.Core.Bool.{true, false}
use mathlib.Core.List.{List, [], ◌∷◌, Perm}
use mathlib.Core.List.Perm
use native.Mathlib.Omega.{arith}
use mathlib.Core.Path.{◌≡◌, refl, ap, ◌∙◌}
use dnstools.Prelude.Int.{ℤ, ◌≤ℤ◌, leb_ℤ, leb_ℤ→le, leb_ℤ→gt}
use Prim.Native.Nat.{suc}
use dnstools.Prelude.Lists.{get_last?, length}
use mathlib.Core.Option.{some}
use dnstools.Prelude.Tests.{if◌then◌else◌, Bool-cases}
use mathlib.Core.Logic.{inl, inr}

module _ {ℓ} {A : Type ℓ} (key : A → ℤ) where
  -- In front of the first element whose key is no smaller: elements of one key keep their order.
  unfoldable pub insert : A → List A → List A
  insert x [] = x ∷ []
  insert x (y ∷ ys) = if leb_ℤ (key x) (key y) then x ∷ y ∷ ys else y ∷ insert x ys

  unfoldable pub sorted : List A → List A
  unfolding insert
  sorted [] = []
  sorted (x ∷ xs) = insert x (sorted xs)

  pub insert-nil : (x : A) → insert x [] ≡ x ∷ []
  unfolding insert
  insert-nil x = refl

  pub insert_before :
      (x y : A) (ys : List A) → leb_ℤ (key x) (key y) ≡ true → insert x (y ∷ ys) ≡ x ∷ y ∷ ys
  unfolding insert
  insert_before x y ys e = rw (e, insert)

  pub insert_after :
      (x y : A) (ys : List A) → leb_ℤ (key x) (key y) ≡ false → insert x (y ∷ ys) ≡ y ∷ insert x ys
  unfolding insert
  insert_after x y ys e = rw (e, insert)

  pub insert-perm : (x : A) (ys : List A) → Perm (insert x ys) (x ∷ ys)
  unfolding insert
  insert-perm x [] = Perm.rfl
  insert-perm x (y ∷ ys) = elim (Bool-cases (leb_ℤ (key x) (key y))) [
    | inl e ↦ rw (e, insert) Perm.rfl
    | inr e ↦ rw (e, insert) (Perm.trans (Perm.cons y (insert-perm x ys)) (Perm.swap x y ys))
  ]

  pub sorted-perm : (xs : List A) → Perm (sorted xs) xs
  unfolding sorted
  sorted-perm [] = Perm.rfl
  sorted-perm (x ∷ xs) = Perm.trans (insert-perm x (sorted xs)) (Perm.cons x (sorted-perm xs))

  length-insert : (x : A) (ys : List A) → length (insert x ys) ≡ suc (length ys)
  length-insert x [] = rw (insert-nil x) refl
  length-insert x (y ∷ ys) = elim (Bool-cases (leb_ℤ (key x) (key y))) [
    | inl e ↦ rw (insert_before x y ys e) refl
    | inr e ↦ rw (insert_after x y ys e) (ap suc (length-insert x ys))
  ]

  pub length-sorted : (xs : List A) → length (sorted xs) ≡ length xs
  unfolding sorted
  length-sorted [] = refl
  length-sorted (x ∷ xs) = length-insert x (sorted xs) ∙ ap suc (length-sorted xs)

  -- Every neighbour's key is no smaller.
  abbrev pub IsSorted : List A → Type 0
  IsSorted [] = Unit
  IsSorted (x ∷ []) = Unit
  IsSorted (x ∷ y ∷ xs) = (key x ≤ℤ key y) × IsSorted (y ∷ xs)

  abbrev pub HeadAbove : ℤ → List A → Type 0
  HeadAbove k [] = Unit
  HeadAbove k (x ∷ xs) = k ≤ℤ key x

  insert-HeadAbove :
      (k : ℤ) (x : A) (ys : List A) → k ≤ℤ key x → HeadAbove k ys → HeadAbove k (insert x ys)
  insert-HeadAbove k x [] h a = rw (insert-nil x) h
  insert-HeadAbove k x (y ∷ ys) h a = elim (Bool-cases (leb_ℤ (key x) (key y))) [
    | inl e ↦ rw (insert_before x y ys e) h
    | inr e ↦ rw (insert_after x y ys e) a
  ]

  cons-IsSorted : (x : A) (ys : List A) → HeadAbove (key x) ys → IsSorted ys → IsSorted (x ∷ ys)
  cons-IsSorted x [] h s = tt
  cons-IsSorted x (y ∷ ys) h s = (h, s)

  pub head-HeadAbove : (x : A) (ys : List A) → IsSorted (x ∷ ys) → HeadAbove (key x) ys
  head-HeadAbove x [] s = tt
  head-HeadAbove x (y ∷ ys) s = s.0

  pub tail-IsSorted : (x : A) (ys : List A) → IsSorted (x ∷ ys) → IsSorted ys
  tail-IsSorted x [] s = tt
  tail-IsSorted x (y ∷ ys) s = s.1

  insert-IsSorted : (x : A) (ys : List A) → IsSorted ys → IsSorted (insert x ys)
  insert-IsSorted x [] s = rw (insert-nil x) tt
  insert-IsSorted x (y ∷ ys) s = elim (Bool-cases (leb_ℤ (key x) (key y))) [
    | inl e ↦ rw (insert_before x y ys e) (leb_ℤ→le (key x) (key y) e, s)
    | inr e ↦
        let gt = leb_ℤ→gt (key x) (key y) e in
        let le : key y ≤ℤ key x = omega arith in
        rw (insert_after x y ys e) (
          cons-IsSorted y (insert x ys) (insert-HeadAbove (key y) x ys le (head-HeadAbove y ys s))
            (insert-IsSorted x ys (tail-IsSorted y ys s)))
  ]

  -- `sorted` puts the keys in order.
  pub sorted-IsSorted : (xs : List A) → IsSorted (sorted xs)
  unfolding sorted
  sorted-IsSorted [] = tt
  sorted-IsSorted (x ∷ xs) = insert-IsSorted x (sorted xs) (sorted-IsSorted xs)

-- The key of a number.
abbrev pub self : ℤ → ℤ
self z = z

-- The last element of an ascending list is no smaller than the first.
pub get_last?_above :
    (d : ℤ) (ds : List ℤ)
    → IsSorted self (d ∷ ds)
    → (e : ℤ) × (get_last? (d ∷ ds) ≡ some e) × (d ≤ℤ e)
get_last?_above d [] s = (d, refl, omega arith)
get_last?_above d (c ∷ ds) s =
    let (e, h, le) = get_last?_above c ds s.1 in let first = s.0 in (e, h, omega arith)
