-- ===== src/Grinder/Load.antt =====
-- `load` of mig/analyser/grinder.py, the reader of the text format: a state machine over the lines of
-- the file, whose states are the functions that take the next line. The opening of the file and
-- `json.loads` are not part of the repository: the lines and `loads` are arguments.
pub mod Order
pub mod Sections
pub mod Early
use mathlib.Core.Option
use dnstools.Chart.{Text, codes}
use dnstools.Prelude.{
  if◌then◌else◌, length, get_last?, ◌>>=◌, Error, Result, ok, err, zero, ◌+◌, Bool, true, false,
  ◌||◌, Option, none, some, List, [], ◌∷◌, ◌++◌,
}
use dnstools.Prelude.Int.{ltb_ℤ, ℤ, pos}
use dnstools.Strings.{strip, lower, same, int_of, split, split_once, comma, colon}

-- The functions that `processor` goes through.
pub data Processor : Type 0 where
  find_section enumerate_sends enumerate_receives enumerate_pairs enumerate_fits : Processor

-- The lists that the functions append to. `J` is what `json.loads` returns.
pub record Loaded {ℓ} (J : Type ℓ) : Type ℓ where
  pub sends : List ℤ
  pub receives : List ℤ
  pub pairs : List ℤ
  pub fits_sends : List J
  pub fits_receives : List J

-- `sections.get(name, find_section)`
unfoldable pub section : Text → Processor
unfolding same
section name =
    if same name (codes "sends")
    then enumerate_sends
    else if same name (codes "receives")
    then enumerate_receives
    else if same name (codes "pairs")
    then enumerate_pairs
    else if same name (codes "fits")
    then enumerate_fits
    else find_section

-- `xs and timestamp < xs[-1]`, as the last element.
abbrev pub later_than : List ℤ → ℤ → Option ℤ
later_than xs t = elim (get_last? xs) [
  | none ↦ none
  | some last ↦ if ltb_ℤ t last then some last else none
]

abbrev pub is_zero : ℤ → Bool
is_zero (pos zero) = true
is_zero _ = false

-- `fits` has the two keys from the start.
abbrev pub has_fits : Text → Bool
unfolding same
has_fits name = same name (codes "sends") || same name (codes "receives")

module _ {ℓ} {J : Type ℓ} where
  abbrev pub next_send : ℤ → Loaded J → Result (Processor × Loaded J)
  next_send t s = elim (later_than s.sends t) [
    | some last ↦ err (Error.sent_earlier (length s.sends + 1) (length s.sends) t last)
    | none ↦ ok (enumerate_sends, record s { sends = s.sends ++ (t ∷ []) })
  ]

  -- The message of this exception formats four numbers with one: `%` raises.
  abbrev pub next_receive : ℤ → Loaded J → Result (Processor × Loaded J)
  next_receive t s = elim (later_than s.receives t) [
    | some last ↦ err Error.type_error
    | none ↦ ok (enumerate_receives, record s { receives = s.receives ++ (t ∷ []) })
  ]

  unfoldable pub sends_line : Text → Loaded J → Result (Processor × Loaded J)
  unfolding int_of
  sends_line line s = elim (int_of line) [ none ↦ ok (find_section, s) | some t ↦ next_send t s ]

  unfoldable pub receives_line : Text → Loaded J → Result (Processor × Loaded J)
  unfolding int_of
  receives_line line s = elim (int_of line) [
    | none ↦ ok (find_section, s)
    | some t ↦ if is_zero t then ok (find_section, s) else next_receive t s
  ]

  -- The delay in the third field; `none` is the `ValueError` of `int`.
  abbrev pub add_pair : Option ℤ → Loaded J → Result (Processor × Loaded J)
  add_pair none s = err Error.value_error
  add_pair (some d) s = ok (enumerate_pairs, record s { pairs = s.pairs ++ (d ∷ []) })

  -- The fields of a line. A line without a separator is one field.
  pub pair_fields : List Text → Loaded J → Result (Processor × Loaded J)
  unfolding int_of strip
  pair_fields (_ ∷ _ ∷ delay ∷ _) s = add_pair (int_of (strip delay)) s
  pair_fields (_ ∷ _ ∷ []) s = ok (enumerate_pairs, s)
  pair_fields _ s = ok (find_section, s)

  unfoldable pub pairs_line : Text → Loaded J → Result (Processor × Loaded J)
  unfolding split pair_fields
  pairs_line line s = pair_fields (split comma line) s

  abbrev pub add_fit : Text → J → Loaded J → Processor × Loaded J
  unfolding same
  add_fit name j s =
      if same name (codes "sends")
      then (enumerate_fits, record s { fits_sends = s.fits_sends ++ (j ∷ []) })
      else (enumerate_fits, record s { fits_receives = s.fits_receives ++ (j ∷ []) })

  abbrev pub fit_json : Text → Result J → Loaded J → Result (Processor × Loaded J)
  fit_json name (ok j) s = ok (add_fit name j s)
  fit_json name (err e) s = err e

  -- `none`: the line has no separator.
  pub fit_rest : (Text → Result J) → Text → Option Text → Loaded J → Result (Processor × Loaded J)
  unfolding strip
  fit_rest loads name none s = ok (find_section, s)
  fit_rest loads name (some rest) s =
      if has_fits name
      then fit_json name (loads (codes "[" ++ strip rest ++ codes "]")) s
      else ok (find_section, s)

  unfoldable pub fits_line : (Text → Result J) → Text → Loaded J → Result (Processor × Loaded J)
  unfolding split_once fit_rest
  fits_line loads line s = fit_rest loads (split_once colon line).0 (split_once colon line).1 s

  -- `processor(line)`, with the lists behind it.
  unfoldable pub process :
      (Text → Result J) → Processor → Text → Loaded J → Result (Processor × Loaded J)
  unfolding sends_line receives_line pairs_line fits_line section split_once
  process loads find_section line s = ok (section (split_once colon line).0, s)
  process loads enumerate_sends line s = sends_line line s
  process loads enumerate_receives line s = receives_line line s
  process loads enumerate_pairs line s = pairs_line line s
  process loads enumerate_fits line s = fits_line loads line s

  -- The `for` over the lines.
  unfoldable pub process_lines :
      (Text → Result J) → Processor → List Text → Loaded J → Result (Loaded J)
  unfolding process strip lower
  process_lines loads processor [] s = ok s
  process_lines loads processor (line ∷ lines) s =
      process loads processor (lower (strip line)) s >>= λ (next, s').
      process_lines loads next lines s'

  unfoldable pub load : (Text → Result J) → List Text → Result (Loaded J)
  unfolding process_lines
  load loads lines =
      process_lines loads find_section lines
        record { sends = []; receives = []; pairs = []; fits_sends = []; fits_receives = [] }
