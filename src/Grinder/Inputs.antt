-- ===== src/Grinder/Inputs.antt =====
-- `enumerate_inputs` of mig/analyser/grinder.py, and the part of its `main` that turns the names of
-- the inputs into labels. The file system is not part of the repository: `is_dir` and `listdir` are
-- arguments. So is Python's printing of a float, `fixed`, for `"%.1f"` and the like.
pub mod Names
pub mod Labels
pub mod Order
use mathlib.Core.Option
use dnstools.Chart.{Text, codes, of_nat, Floats}
use dnstools.Prelude.{
  ltb, leb, ◌==◌, if◌then◌else◌, length, take, drop, get_last?, ℕ, ◌+◌, ◌-◌, ◌*◌, ◌/◌, ◌%◌, Bool,
  true, false, ◌&&◌, Option, none, some, List, [], ◌∷◌, ◌++◌, map,
}
use dnstools.Prelude.Int.{ℤ, pos}
use dnstools.Prelude.Sort.{sorted}
use dnstools.Strings.{decimal, lower, same, natural}

-- An input: its number, its path, and the speed that its name tells. `main` adds the label.
pub record Input : Type 0 where
  pub count : ℕ
  pub path : Text
  pub speed : Option ℕ
  pub label : Option Text

abbrev pub dot : ℕ
dot = 46

abbrev pub slash : ℕ
slash = 47

-- `os.path.splitext(name)[1]` of a name with no slash.
pub drop_dots : Text → Text
drop_dots [] = []
drop_dots (c ∷ cs) = if c == dot then drop_dots cs else c ∷ cs

pub from_last_dot : Text → Option Text
from_last_dot [] = none
from_last_dot (c ∷ cs) =
    let rest = from_last_dot cs in
    elim rest [ some e ↦ some e | none ↦ if c == dot then some (c ∷ cs) else none ]

pub extension : Text → Text
unfolding drop_dots from_last_dot
extension name = Option.get_or (from_last_dot (drop_dots name)) []

-- `NAME_REGEX`, with its number. The name ends in `.json` in any case.
unfoldable pub speed_of : Text → Option ℕ
unfolding lower same natural
speed_of name =
    let cs = lower name in
    let digits_json = drop 5 cs in
    let n = length digits_json - 5 in
    if same (take 5 cs) (codes "test-") && same (drop n digits_json) (codes ".json")
    then natural (take n digits_json)
    else none

-- `os.path.join(item, name)`
unfoldable pub join : Text → Text → Text
join folder (c ∷ cs) = if c == slash then c ∷ cs else elim (get_last? folder) [
  | none ↦ c ∷ cs
  | some d ↦ if d == slash then folder ++ (c ∷ cs) else folder ++ (slash ∷ c ∷ cs)
]
join folder [] = elim (get_last? folder) [
  | none ↦ []
  | some d ↦ if d == slash then folder else folder ++ (slash ∷ [])
]

-- The loop over the names in a directory.
unfoldable pub directory_inputs : ℕ → Text → List Text → List Input
unfolding extension lower same speed_of join
directory_inputs count folder [] = []
directory_inputs count folder (name ∷ names) =
    elim (same (lower (extension name)) (codes ".json")) [
      | true ↦
          record { count = count; path = join folder name; speed = speed_of name; label = none }
          ∷ directory_inputs (count + 1) folder names
      | false ↦ directory_inputs count folder names
    ]

abbrev pub file_input : ℕ → Text → Input
file_input count path = record { count = count; path = path; speed = none; label = none }

module _ (is_dir : Text → Bool) (listdir : Text → List Text) where
  -- What one argument yields.
  abbrev pub item_inputs : ℕ → Text → List Input
  item_inputs count arg =
      if is_dir arg then directory_inputs count arg (listdir arg) else file_input count arg ∷ []

  unfoldable pub enumerate_from_count : ℕ → List Text → List Input
  unfolding directory_inputs
  enumerate_from_count count [] = []
  enumerate_from_count count (arg ∷ args) =
      let found = item_inputs count arg in found ++ enumerate_from_count (count + length found) args

  unfoldable pub enumerate_inputs : List Text → List Input
  unfolding enumerate_from_count
  enumerate_inputs args = enumerate_from_count 0 args

-- `scaled_speed`, where every input has a speed.
pub scaled_speed : List Input → Option ℕ
scaled_speed [] = some 0
scaled_speed (i ∷ is) =
    let rest = scaled_speed is in
    elim (i.speed) [ none ↦ none | some v ↦ Option.map (λ n. if leb 1000 v then n + 1 else n) rest ]

-- `sorted(inputs, key=lambda x: x[2])`, where every input has a speed.
abbrev pub speed_key : Input → ℤ
speed_key i = pos (Option.get_or i.speed 0)

abbrev pub with_label : (ℕ → Text) → Input → Input
with_label to_label i = record i { label = Option.map to_label i.speed }

-- An input with no speed: all of them lose theirs.
abbrev pub without_speed : Input → Input
without_speed i = record i { speed = none; label = none }

module _ {ℓ} {F : Type ℓ} ⦃f : Floats F⦄ (fixed : ℕ → F → Text) where
  -- The labels of the branch where many speeds are large.
  unfoldable pub thousands : ℕ → Text
  unfolding decimal
  thousands v =
      let kilo = f.div (of_nat v) (of_nat 1000) in
      if v % 1000 == 0
      then decimal (v / 1000) ++ codes "k"
      else if v % 100 == 0
      then fixed 1 kilo ++ codes "k"
      else if v % 10 == 0
      then fixed 2 kilo ++ codes "k"
      else fixed 3 kilo ++ codes "k"

  -- `speed_translation`, for the number of scaled speeds and that of inputs.
  unfoldable pub speed_label : ℕ → ℕ → ℕ → Text
  unfolding thousands decimal
  speed_label scaled n v = if ltb (3 * scaled) n then decimal v else thousands v

  -- The inputs as the rest of `main` goes through them.
  unfoldable pub label_inputs : List Input → List Input
  unfolding scaled_speed speed_label sorted
  label_inputs inputs = elim (scaled_speed inputs) [
    | none ↦ map without_speed inputs
    | some scaled ↦ map (with_label (speed_label scaled (length inputs))) (sorted speed_key inputs)
  ]
