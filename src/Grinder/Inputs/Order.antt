-- ===== src/Grinder/Inputs/Order.antt =====
-- The order of the inputs of mig/analyser/grinder.py: the numbers of `enumerate_inputs`, and the
-- order that `main` brings the labelled inputs into.
use mathlib.Core.List.{Perm}
use mathlib.Core.List.Perm
use dnstools.Chart.{Text, codes, Floats}
use dnstools.Prelude.{
  Bool-cases, Option-cases, length, ℕ, suc, ◌+◌, ◌≡◌, refl, sym, subst, inl, inr, Bool, true, false,
  none, some, List, [], ◌∷◌, ◌++◌, map, arith,
}
use dnstools.Prelude.Int.{◌≤ℤ◌}
use dnstools.Prelude.Sort.{IsSorted, sorted, sorted-IsSorted, sorted-perm}
use dnstools.Strings.{lower, same}
use dnstools.Grinder.Inputs.{
  Input, directory_inputs, item_inputs, enumerate_from_count, enumerate_inputs, extension,
  speed_key, speed_label, with_label, without_speed, label_inputs, scaled_speed, join, speed_of,
}

-- The inputs carry the numbers from `n` on, with no gap.
abbrev pub IsCounted : ℕ → List Input → Type 0
IsCounted n [] = Unit
IsCounted n (i ∷ is) = (i.count ≡ n) × IsCounted (n + 1) is

append-IsCounted :
    (n : ℕ) (xs ys : List Input)
    → IsCounted n xs
    → IsCounted (n + length xs) ys
    → IsCounted n (xs ++ ys)
append-IsCounted n [] ys p q = let e : n + 0 ≡ n = omega arith in rw (sym e) q
append-IsCounted n (x ∷ xs) ys p q =
    let e : n + suc (length xs) ≡ n + 1 + length xs = omega arith in
    (p.0, append-IsCounted (n + 1) xs ys p.1 (subst (λ k. IsCounted k ys) e q))

pub directory_inputs_json :
    (n : ℕ) (folder name : Text) (names : List Text)
    → same (lower (extension name)) (codes ".json") ≡ true
    → directory_inputs n folder (name ∷ names)
      ≡ record { count = n; path = join folder name; speed = speed_of name; label = none }
        ∷ directory_inputs (n + 1) folder names
unfolding directory_inputs
directory_inputs_json n folder name names h = rw (h, directory_inputs) refl

directory_inputs_other :
    (n : ℕ) (folder name : Text) (names : List Text)
    → same (lower (extension name)) (codes ".json") ≡ false
    → directory_inputs n folder (name ∷ names) ≡ directory_inputs n folder names
unfolding directory_inputs
directory_inputs_other n folder name names h = rw (h, directory_inputs) refl

pub directory_inputs-nil : (n : ℕ) (folder : Text) → directory_inputs n folder [] ≡ []
unfolding directory_inputs
directory_inputs-nil n folder = refl

directory_inputs-IsCounted :
    (n : ℕ) (folder : Text) (names : List Text) → IsCounted n (directory_inputs n folder names)
directory_inputs-IsCounted n folder [] = rw (directory_inputs-nil n folder) tt
directory_inputs-IsCounted n folder (name ∷ names) =
    elim (Bool-cases (same (lower (extension name)) (codes ".json"))) [
      | inl h ↦
          rw (directory_inputs_json n folder name names h)
            (refl, directory_inputs-IsCounted (n + 1) folder names)
      | inr h ↦
          rw (directory_inputs_other n folder name names h)
            (directory_inputs-IsCounted n folder names)
    ]

module _ (is_dir : Text → Bool) (listdir : Text → List Text) where
  item_inputs-IsCounted : (n : ℕ) (arg : Text) → IsCounted n (item_inputs is_dir listdir n arg)
  item_inputs-IsCounted n arg = elim (Bool-cases (is_dir arg)) [
    | inl h ↦ rw h (directory_inputs-IsCounted n arg (listdir arg))
    | inr h ↦ rw h (refl, tt)
  ]

  enumerate_from_count-IsCounted :
      (n : ℕ) (args : List Text) → IsCounted n (enumerate_from_count is_dir listdir n args)
  unfolding enumerate_from_count
  enumerate_from_count-IsCounted n [] = tt
  enumerate_from_count-IsCounted n (arg ∷ args) =
      let found = item_inputs is_dir listdir n arg in
      append-IsCounted n found (enumerate_from_count is_dir listdir (n + length found) args)
        (item_inputs-IsCounted n arg) (enumerate_from_count-IsCounted (n + length found) args)

  -- The inputs of any arguments, files and directories, are numbered from 0 on with no gap.
  pub enumerate_inputs-IsCounted :
      (args : List Text) → IsCounted 0 (enumerate_inputs is_dir listdir args)
  unfolding enumerate_inputs
  enumerate_inputs-IsCounted args = enumerate_from_count-IsCounted 0 args

-- What no label changes.
abbrev pub place : Input → ℕ × Text
place i = (i.count, i.path)

map-perm : {xs ys : List Input} (g : Input → ℕ × Text) → Perm xs ys → Perm (map g xs) (map g ys)
map-perm g p = Perm.map g p

map-eq :
    (g : Input → Input) (xs : List Input)
    → ((i : Input) → place (g i) ≡ place i)
    → map place (map g xs) ≡ map place xs
map-eq g [] e = refl
map-eq g (x ∷ xs) e = rw (e x, map-eq g xs e)

map-IsSorted :
    (g : Input → Input) (xs : List Input)
    → ((i : Input) → speed_key (g i) ≡ speed_key i)
    → IsSorted speed_key xs
    → IsSorted speed_key (map g xs)
map-IsSorted g [] e s = tt
map-IsSorted g (x ∷ []) e s = tt
map-IsSorted g (x ∷ y ∷ xs) e s = (
  subst (λ k. k ≤ℤ speed_key (g y)) (sym (e x)) (subst (λ k. speed_key x ≤ℤ k) (sym (e y)) s.0),
  map-IsSorted g (y ∷ xs) e s.1,
)

without_speed-IsSorted : (xs : List Input) → IsSorted speed_key (map without_speed xs)
without_speed-IsSorted [] = tt
without_speed-IsSorted (x ∷ []) = tt
without_speed-IsSorted (x ∷ y ∷ xs) = (omega arith, without_speed-IsSorted (y ∷ xs))

module _ {ℓ} (F : Type ℓ) ⦃f : Floats F⦄ (fixed : ℕ → F → Text) where
  label_inputs_unknown :
      (is : List Input) → scaled_speed is ≡ none → label_inputs fixed is ≡ map without_speed is
  unfolding label_inputs
  label_inputs_unknown is h = rw (h, label_inputs) refl

  label_inputs_known :
      (is : List Input) (n : ℕ)
      → scaled_speed is ≡ some n
      → label_inputs fixed is
        ≡ map (with_label (speed_label fixed n (length is))) (sorted speed_key is)
  unfolding label_inputs
  label_inputs_known is n h = rw (h, label_inputs) refl

  -- The labelled inputs are in the order of their speeds, where no speed counts as 0, and they are
  -- the inputs: each number with its path stands there as often as before.
  pub label_inputs-IsSorted :
      (is : List Input)
      → IsSorted speed_key (label_inputs fixed is)
        × Perm (map place (label_inputs fixed is)) (map place is)
  label_inputs-IsSorted is = elim (Option-cases (scaled_speed is)) [
    | inl h ↦
        rw (label_inputs_unknown is h)
          (without_speed-IsSorted is, rw (map-eq without_speed is (λ i. refl)) Perm.rfl)
    | inr h ↦
        let g = with_label (speed_label fixed h.0 (length is)) in
        rw (label_inputs_known is h.0 h.1) (
          map-IsSorted g (sorted speed_key is) (λ i. refl) (sorted-IsSorted speed_key is),
          rw (map-eq g (sorted speed_key is) (λ i. refl))
              (map-perm place (sorted-perm speed_key is)),
        )
  ]
