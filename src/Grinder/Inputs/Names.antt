-- ===== src/Grinder/Inputs/Names.antt =====
-- The names of the inputs of mig/analyser/grinder.py, as its documentation gives them: a directory of
-- files test-<speed>.json.

use dnstools.Chart.{Text, codes}
use dnstools.Prelude.{
  length, length-append, take-append, drop-append, ℕ, ◌+◌, ◌-◌, ◌≡◌, refl, sym, ap, ◌∙◌, Bool, true,
  none, some, some-injective, List, [], ◌∷◌, ◌++◌, map, append-nil, arith,
}
use dnstools.Strings.{lower, lower_char, same, natural, decimal}
use dnstools.Strings.Decimal.{natural-decimal, decimal-IsDigit, lower_digits}
use dnstools.Grinder.Inputs.Order.{directory_inputs_json, directory_inputs-nil}
use dnstools.Grinder.Inputs.{
  Input, drop_dots, from_last_dot, extension, speed_of, join, directory_inputs,
  enumerate_from_count, enumerate_inputs,
}

-- `test-<n>.json`
abbrev pub file_name : ℕ → Text
file_name n = codes "test-" ++ (decimal n ++ codes ".json")

lower-append : (xs ys : Text) → lower (xs ++ ys) ≡ lower xs ++ lower ys
unfolding lower
lower-append [] ys = refl
lower-append (x ∷ xs) ys = ap (◌∷◌ (lower_char x)) (lower-append xs ys)

lower-file_name : (n : ℕ) → lower (file_name n) ≡ file_name n
lower-file_name n =
    let a = lower-append (decimal n) (codes ".json") in
    let b = lower_digits (decimal n) (decimal-IsDigit n) in
    let c : lower (codes ".json") ≡ codes ".json" = unfold lower in refl in
    let d : lower (decimal n ++ codes ".json") ≡ decimal n ++ codes ".json" = rw (a, b, c) refl in
    lower-append (codes "test-") (decimal n ++ codes ".json") ∙ rw d (unfold lower in refl)

-- A name of the form of the documentation has the speed that stands in it.
pub speed_of-file_name : (n : ℕ) → speed_of (file_name n) ≡ some n
unfolding speed_of
speed_of-file_name n =
    let len : length (decimal n ++ codes ".json") - 5 ≡ length (decimal n) =
      omega (arith, length-append (decimal n) (codes ".json")) in
    rw (lower-file_name n) (
      rw len (
        rw (take-append (decimal n) (codes ".json"), drop-append (decimal n) (codes ".json"))
          (natural-decimal n)))

from_last_dot-append :
    (xs ys zs : Text) → from_last_dot ys ≡ some zs → from_last_dot (xs ++ ys) ≡ some zs
unfolding from_last_dot
from_last_dot-append [] ys zs h = h
from_last_dot-append (x ∷ xs) ys zs h = rw (from_last_dot-append xs ys zs h) refl

extension-file_name : (n : ℕ) → extension (file_name n) ≡ codes ".json"
unfolding extension drop_dots
extension-file_name n =
    let h : from_last_dot (codes ".json") ≡ some (codes ".json") = unfold from_last_dot in refl in
    rw (from_last_dot-append (codes "test-" ++ decimal n) (codes ".json") (codes ".json") h) refl

-- The inputs of a directory of such files.
abbrev pub named : ℕ → Text → List ℕ → List Input
named n folder [] = []
named n folder (v ∷ vs) =
    record { count = n; path = join folder (file_name v); speed = some v; label = none }
    ∷ named (n + 1) folder vs

directory_inputs-named :
    (n : ℕ) (folder : Text) (vs : List ℕ)
    → directory_inputs n folder (map file_name vs) ≡ named n folder vs
directory_inputs-named n folder [] = directory_inputs-nil n folder
directory_inputs-named n folder (v ∷ vs) =
    let json : same (lower (extension (file_name v))) (codes ".json") ≡ true =
      rw (extension-file_name v) (unfold lower same in refl) in
    directory_inputs_json n folder (file_name v) (map file_name vs) json
    ∙ rw (speed_of-file_name v) (
        ap
          (◌∷◌ record { count = n; path = join folder (file_name v); speed = some v; label = none })
          (directory_inputs-named (n + 1) folder vs))

module _ (is_dir : Text → Bool) (listdir : Text → List Text) where
  -- From a directory that holds the files test-<v>.json, for v in a list of speeds, `grinder.py` gets
  -- one input for each, in the order of the directory and numbered from 0: its path in the directory
  -- and the speed v.
  pub enumerate_inputs-named :
      (folder : Text) (vs : List ℕ)
      → is_dir folder ≡ true
      → listdir folder ≡ map file_name vs
      → enumerate_inputs is_dir listdir (folder ∷ []) ≡ named 0 folder vs
  unfolding enumerate_inputs enumerate_from_count
  enumerate_inputs-named folder vs d l =
      rw (d, l) (append-nil _ ∙ directory_inputs-named 0 folder vs)

pub decimal-injective : (u v : ℕ) → decimal u ≡ decimal v → u ≡ v
decimal-injective u v h =
    some-injective _ _ (sym (natural-decimal u) ∙ ap natural h ∙ natural-decimal v)
