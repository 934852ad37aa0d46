-- ===== src/Prelude/Lists.antt =====
-- Lists measured and indexed by native numbers, and the slices and enumerations of Python.
use Prim.Native.Nat.{ℕ, zero, suc, ◌+◌, ◌-◌, ◌*◌, ◌≤◌, ◌<◌}
use mathlib.Core.Path.{◌≡◌, refl, sym, ◌∙◌, ap, subst}
use mathlib.Core.List.{List, [], ◌∷◌, ◌++◌, map}
use mathlib.Core.Option.{Option, none, some, some-injective}
use native.Mathlib.Omega.{arith}

module _ {ℓ} {A : Type ℓ} where
  abbrev pub length : List A → ℕ
  length [] = 0
  length (x ∷ xs) = suc (length xs)

  abbrev pub get_elem? : List A → ℕ → Option A
  get_elem? [] i = none
  get_elem? (x ∷ xs) zero = some x
  get_elem? (x ∷ xs) (suc i) = get_elem? xs i

  abbrev pub take : ℕ → List A → List A
  take zero xs = []
  take (suc n) [] = []
  take (suc n) (x ∷ xs) = x ∷ take n xs

  abbrev pub drop : ℕ → List A → List A
  drop zero xs = xs
  drop (suc n) [] = []
  drop (suc n) (x ∷ xs) = drop n xs

  -- `xs[-1]`
  abbrev pub get_last? : List A → Option A
  get_last? [] = none
  get_last? (x ∷ []) = some x
  get_last? (x ∷ y ∷ xs) = get_last? (y ∷ xs)

  -- `enumerate(xs, i)`
  abbrev pub enumerate_from : ℕ → List A → List (ℕ × A)
  enumerate_from i [] = []
  enumerate_from i (x ∷ xs) = (i, x) ∷ enumerate_from (suc i) xs

  abbrev pub All {κ} : (A → Type κ) → List A → Type κ
  All P [] = Unit
  All P (x ∷ xs) = P x × All P xs

  pub length-append : (xs ys : List A) → length (xs ++ ys) ≡ length xs + length ys
  length-append [] ys = omega arith
  length-append (x ∷ xs) ys = omega (arith, length-append xs ys)

  pub All-append {κ} : (P : A → Type κ) (xs ys : List A) → All P xs → All P ys → All P (xs ++ ys)
  All-append P [] ys _ q = q
  All-append P (x ∷ xs) ys (p, ps) q = (p, All-append P xs ys ps q)

  -- `xs[skip::step]`, for a positive step.
  unfoldable pub every : ℕ → ℕ → List A → List A
  every skip step [] = []
  every zero step (x ∷ xs) = x ∷ every (step - 1) step xs
  every (suc skip) step (x ∷ xs) = every skip step xs

  -- The j-th element of a slice.
  pub get_elem?-every :
      (m k : ℕ) (xs : List A) (j : ℕ)
      → get_elem? (every k (suc m) xs) j ≡ get_elem? xs (k + j * suc m)
  unfolding every
  get_elem?-every m k [] j = refl
  get_elem?-every m zero (x ∷ xs) zero = let e : 0 + 0 * suc m ≡ 0 = omega arith in rw e
  get_elem?-every m zero (x ∷ xs) (suc j) =
      let e : suc m - 1 ≡ m = omega arith in
      let e' : 0 + suc j * suc m ≡ suc (m + j * suc m) = omega arith in
      rw (e, e') (get_elem?-every m m xs j)
  get_elem?-every m (suc k) (x ∷ xs) j =
      let e : suc k + j * suc m ≡ suc (k + j * suc m) = omega arith in
      rw e (get_elem?-every m k xs j)

  -- How many elements a slice has.
  pub length-every :
      (m k : ℕ) (xs : List A)
      → k ≤ m
      → (length (every k (suc m) xs) * suc m + k ≤ length xs + m)
        × (length xs + m < length (every k (suc m) xs) * suc m + k + suc m)
  unfolding every
  length-every m k [] h = omega arith
  length-every m zero (x ∷ xs) h =
      let e : suc m - 1 ≡ m = omega arith in rw e (omega (arith, length-every m m xs (omega arith)))
  length-every m (suc k) (x ∷ xs) h = omega (arith, length-every m k xs (omega arith))

module _ {ℓ κ} {A : Type ℓ} {B : Type κ} where
  pub length-map : (g : A → B) (xs : List A) → length (map g xs) ≡ length xs
  length-map g [] = refl
  length-map g (x ∷ xs) = ap suc (length-map g xs)

  pub All-map {μ} :
      (P : B → Type μ) (g : A → B) (xs : List A) → All (λ a. P (g a)) xs → All P (map g xs)
  All-map P g [] h = tt
  All-map P g (x ∷ xs) h = (h.0, All-map P g xs h.1)

module _ {ℓ} {A : Type ℓ} where
  -- A property of every element, by its index.
  pub All-enumerate_from {κ} :
      (P : ℕ × A → Type κ) (xs : List A) (i : ℕ)
      → ((j : ℕ) (a : A) → get_elem? xs j ≡ some a → P (i + j, a))
      → All P (enumerate_from i xs)
  All-enumerate_from P [] i h = tt
  All-enumerate_from P (x ∷ xs) i h = (
    subst (λ n. P (n, x)) (omega arith) (h 0 x refl),
    All-enumerate_from P xs (suc i) (λ j a e. subst (λ n. P (n, a)) (omega arith) (h (suc j) a e)),
  )

  pub length-enumerate_from : (xs : List A) (i : ℕ) → length (enumerate_from i xs) ≡ length xs
  length-enumerate_from [] i = refl
  length-enumerate_from (x ∷ xs) i = ap suc (length-enumerate_from xs (suc i))

  -- A list in two parts is cut at the end of the first.
  pub take-append : (xs ys : List A) → take (length xs) (xs ++ ys) ≡ xs
  take-append [] [] = refl
  take-append [] (y ∷ ys) = refl
  take-append (x ∷ xs) ys = ap (◌∷◌ x) (take-append xs ys)

  pub drop-append : (xs ys : List A) → drop (length xs) (xs ++ ys) ≡ ys
  drop-append [] [] = refl
  drop-append [] (y ∷ ys) = refl
  drop-append (x ∷ xs) ys = drop-append xs ys

  pub get_last?-append : (xs : List A) (y : A) → get_last? (xs ++ (y ∷ [])) ≡ some y
  get_last?-append [] y = refl
  get_last?-append (x ∷ []) y = refl
  get_last?-append (x ∷ z ∷ xs) y = get_last?-append (z ∷ xs) y

  pub get_last?-get_elem? :
      (x : A) (xs : List A) → get_last? (x ∷ xs) ≡ get_elem? (x ∷ xs) (length xs)
  get_last?-get_elem? x [] = refl
  get_last?-get_elem? x (y ∷ xs) = get_last?-get_elem? y xs

  pub get_elem?-lt-length : (xs : List A) (i : ℕ) {a : A} → get_elem? xs i ≡ some a → i < length xs
  get_elem?-lt-length [] i h = cc
  get_elem?-lt-length (x ∷ xs) zero h = omega arith
  get_elem?-lt-length (x ∷ xs) (suc i) h = omega (arith, get_elem?-lt-length xs i h)

  pub get_elem?_of_lt : (xs : List A) (i : ℕ) → i < length xs → (a : A) × (get_elem? xs i ≡ some a)
  get_elem?_of_lt [] i h = absurd (omega arith)
  get_elem?_of_lt (x ∷ xs) zero h = (x, refl)
  get_elem?_of_lt (x ∷ xs) (suc i) h = get_elem?_of_lt xs i (omega arith)

  pub get_last?_cons : (x : A) (xs : List A) → (y : A) × (get_last? (x ∷ xs) ≡ some y)
  get_last?_cons x [] = (x, refl)
  get_last?_cons x (y ∷ xs) = get_last?_cons y xs

  pub get_last?-cons :
      (x : A) (xs : List A) {y : A} → get_last? xs ≡ some y → get_last? (x ∷ xs) ≡ some y
  get_last?-cons x [] h = cc
  get_last?-cons x (z ∷ xs) h = h

module _ {ℓ κ} {A : Type ℓ} {B : Type κ} where
  -- The last element of an enumeration, under a function.
  pub get_last?-enumerate_from :
      (g : ℕ × A → B) (i : ℕ) (x : A) (xs : List A) (y : A)
      → get_last? (x ∷ xs) ≡ some y
      → get_last? (map g (enumerate_from i (x ∷ xs))) ≡ some (g (i + length xs, y))
  get_last?-enumerate_from g i x [] y h =
      let e : i + 0 ≡ i = omega arith in rw e (ap some (ap (λ a. g (i, a)) (some-injective _ _ h)))
  get_last?-enumerate_from g i x (z ∷ xs) y h =
      let e : i + suc (length xs) ≡ suc i + length xs = omega arith in
      rw e (get_last?-enumerate_from g (suc i) z xs y h)

mul-pred : (c n : ℕ) → 0 < c → (c - 1) * n + n ≡ c * n
mul-pred zero n h = absurd (omega arith)
mul-pred (suc c) n h = let e : suc c - 1 ≡ c = omega arith in rw e (omega arith)

pub pos_of_mul : (c n : ℕ) → 0 < c * n → 0 < c
pos_of_mul zero n h = absurd (omega arith)
pos_of_mul (suc c) n h = omega arith

module _ {ℓ} {A : Type ℓ} where
  get_last?_pred : (xs : List A) → get_last? xs ≡ get_elem? xs (length xs - 1)
  get_last?_pred [] = refl
  get_last?_pred (x ∷ xs) =
      let e : suc (length xs) - 1 ≡ length xs = omega arith in rw e (get_last?-get_elem? x xs)

  -- A slice that reaches the end of the list ends with its last element.
  pub get_last?-every :
      (m : ℕ) (xs : List A)
      → length xs ≤ length (every m (suc m) xs) * suc m
      → get_last? (every m (suc m) xs) ≡ get_last? xs
  unfolding every
  get_last?-every m [] h = refl
  get_last?-every m (x ∷ xs) h =
      let c = length (every m (suc m) (x ∷ xs)) in
      let up = length-every m m (x ∷ xs) (omega arith) in
      let some_left : 0 < c = pos_of_mul c (suc m) (omega arith) in
      let at_end : m + (c - 1) * suc m ≡ length (x ∷ xs) - 1 =
        omega (arith, mul-pred c (suc m) some_left) in
      get_last?_pred (every m (suc m) (x ∷ xs))
      ∙ get_elem?-every m m (x ∷ xs) (c - 1)
      ∙ ap (get_elem? (x ∷ xs)) at_end
      ∙ sym (get_last?_pred (x ∷ xs))

  -- A slice by a step no longer than the list takes something.
  pub every_pos :
      (step : ℕ) (xs : List A) → 0 < step → step ≤ length xs → 0 < length (every (step - 1) step xs)
  every_pos zero xs h k = absurd (omega arith)
  every_pos (suc m) xs h k =
      let e : suc m - 1 ≡ m = omega arith in
      rw e (
        pos_of_mul (length (every m (suc m) xs)) (suc m)
          (omega (arith, length-every m m xs (omega arith))))

  abbrev pub replicate : ℕ → A → List A
  replicate zero a = []
  replicate (suc n) a = a ∷ replicate n a
