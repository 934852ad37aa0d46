-- ===== src/Dump.antt =====
-- `jload` of mig/analyser/grinder.py, and the types that it shares with the versions of fit.py and
-- preview.py: what the analysers take from the JSON object that MIG writes. The reading of the file
-- and `json` are not part of the repository: the model begins with the parsed object.
use dnstools.Chart.{Num}
use dnstools.Prelude.Int.{ltb_ℤ, ℤ, pos}
use dnstools.Prelude.{if◌then◌else◌, Option, none, some, List, [], ◌∷◌, ◌++◌}
pub mod Members
use mathlib.Core.Option
use text.Mathlib.Text.{◌==◌ as same_text}
use Prim.Native.String.{String}

-- A pair of the file: the sending time, the answer's time, the delay; a query with no answer has
-- the first number alone.
abbrev pub Pair : Type 0
Pair = List ℤ

-- The parameters of a fit: a window of time, and a first guess.
abbrev pub Params {ℓ} : Type ℓ → Type ℓ
Params F = List (List (Num F))

-- `fits`: the fits of each kind of message.
abbrev pub Fits {ℓ} : Type ℓ → Type ℓ
Fits F = List (String × List (Params F))

-- The members of the object that are looked up.
pub record Document {ℓ} (F : Type ℓ) : Type ℓ where
  pub sends : Option (List ℤ)
  pub receives : Option (List ℤ)
  pub pairs : Option (List Pair)
  pub fits : Option (Fits F)

pub record Run {ℓ} (F : Type ℓ) : Type ℓ where
  pub sends : List ℤ
  pub receives : List ℤ
  pub pairs : List Pair
  pub fits : Fits F

-- What fit.py and preview.py take from the object.
pub record Measured : Type 0 where
  pub sends : List ℤ
  pub receives : List ℤ
  pub pairs : List Pair

-- `__SENDS_MARK` and `__RECEIVES_MARK`.
abbrev pub sends_mark : String
sends_mark = "sends"

abbrev pub receives_mark : String
receives_mark = "receives"

-- `filter(lambda x: x > 0, receives)`
unfoldable pub positive : List ℤ → List ℤ
positive [] = []
positive (x ∷ xs) = if ltb_ℤ (pos 0) x then x ∷ positive xs else positive xs

module _ {ℓ} {F : Type ℓ} where
  -- `fits.get(name)`
  unfoldable pub find_fits : String → Fits F → Option (List (Params F))
  find_fits name [] = none
  find_fits name ((k, v) ∷ fits) = if same_text k name then some v else find_fits name fits

  -- `if name not in fits: fits[name] = []`
  pub with_mark : String → Fits F → Fits F
  unfolding find_fits
  with_mark name fits = elim (find_fits name fits) [
    | none ↦ fits ++ ((name, []) ∷ [])
    | some _ ↦ fits
  ]

  -- The version of grinder.py.
  unfoldable pub jload : Document F → Run F
  unfolding positive with_mark
  jload d = record {
    sends = Option.get_or d.sends [];
    receives = positive (Option.get_or d.receives []);
    pairs = Option.get_or d.pairs [];
    fits = with_mark receives_mark (with_mark sends_mark (Option.get_or d.fits []));
  }
