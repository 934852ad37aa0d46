-- ===== src/Chart.antt =====
-- The values of the analysers' charts (mig/analyser/grinder.py): points, series, and the numbers in
-- them. Python's floats and their library (`math`) are not part of the repository: they are an
-- instance of `Floats`, over any type.
use Prim.Native.Char.{code}
use Prim.Native.String.{String}
use dnstools.Prelude.{
  ℕ, zero, Bool, true, false, Option, none, some, List, [], ◌∷◌, Error, Result, ok, err,
}
use dnstools.Prelude.Int.{ℤ, pos, ◌-ℤ◌, leb_ℤ}

-- The text of a literal, as its bytes.
abbrev pub Text : Type 0
Text = List ℕ

abbrev pub codes : String → Text
codes String.[] = []
codes (String.◌∷◌ c s) = code c ∷ codes s

-- What the programs do with a float. `of_int` is the conversion of an integer operand; Python raises
-- an `OverflowError` from about 1.8e308 on, which no timestamp reaches. Division is
-- taken by a divisor that is not zero: `over` raises the exception. `log10` is `math.log10` of a
-- positive number, `to_int` is `int(x)` of a float, which raises on NaN and the infinities, and
-- `le_int` and `int_le` compare a float with an integer.
pub record Floats {ℓ} (F : Type ℓ) : Type ℓ where
  pub of_int : ℤ → F
  pub add : F → F → F
  pub sub : F → F → F
  pub mul : F → F → F
  pub div : F → F → F
  pub lt : F → F → Bool
  pub log10 : F → F
  pub floor : F → F
  pub ceil : F → F
  pub pow : F → F → F
  pub round : F → F
  pub to_int : F → Result ℤ
  pub le : F → F → Bool
  pub le_int : F → ℤ → Bool
  pub int_le : ℤ → F → Bool

-- A Python number: the charts hold both kinds.
pub data Num {ℓ} (F : Type ℓ) : Type ℓ where
  int : ℤ → Num F
  float : F → Num F

pub record Point {ℓ} (F : Type ℓ) : Type ℓ where
  pub x : F
  pub y : Num F

-- `{"values": ..., "key": ..., "color": ...}`, and the mark of `hide`.
pub record Series {ℓ} (F : Type ℓ) : Type ℓ where
  pub values : List (Point F)
  pub key : Text
  pub color : Text
  pub disabled : Bool

module _ {ℓ} {F : Type ℓ} where
  abbrev pub series : List (Point F) → Text → Text → Series F
  series ps name tint = record { values = ps; key = name; color = tint; disabled = false }

  -- `not fit` is the emptiness of the list.
  abbrev pub truthy : List (Series F) → Bool
  truthy [] = false
  truthy (s ∷ ss) = true

module _ {ℓ} {F : Type ℓ} ⦃f : Floats F⦄ where
  abbrev pub of_nat : ℕ → F
  of_nat n = f.of_int (pos n)

  -- `__MICROSECOND`, `__MILLISECOND` and `__NANOSECONDS`.
  abbrev pub microsecond : F
  microsecond = of_nat 1000

  abbrev pub millisecond : F
  millisecond = of_nat 1_000_000

  abbrev pub nanoseconds : F
  nanoseconds = of_nat 1_000_000_000

  abbrev pub to_float : Num F → F
  to_float (int n) = f.of_int n
  to_float (float x) = x

  abbrev pub num_le : Num F → Num F → Bool
  num_le (int a) (int b) = leb_ℤ a b
  num_le (int a) (float y) = f.int_le a y
  num_le (float x) (int b) = f.le_int x b
  num_le (float x) (float y) = f.le x y

  -- `x/d` for a float `x` and an integer `d`.
  abbrev pub over : F → ℤ → Result F
  over x (pos zero) = err Error.zero_division
  over x d = ok (f.div x (f.of_int d))

-- `__POINTS` and `__FITPOINTS`.
abbrev pub points : ℕ
points = 25

abbrev pub fit_points : ℕ
fit_points = 500

-- `start` is `sends[0]`, or `None` if nothing was sent: then an arithmetic operator raises.
abbrev pub minus : ℤ → Option ℤ → Result ℤ
minus t none = err Error.type_error
minus t (some s) = ok (t -ℤ s)

-- `start` as the right operand of a `-` on floats.
abbrev pub known : Option ℤ → Result ℤ
known none = err Error.type_error
known (some s) = ok s

-- An index that may be out of range.
abbrev pub item {ℓ} : {A : Type ℓ} → Option A → Result A
item none = err Error.index_error
item (some a) = ok a
