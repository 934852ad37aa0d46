-- ===== src/Strings.antt =====
-- What mig/analyser/grinder.py uses of Python's byte strings and of `int`: stripping, splitting, and the
-- reading and printing of decimal numbers.
pub mod Decimal
pub mod Format
use Prim.Native.String.{String}
use mathlib.Core.Option
use dnstools.Chart.{Text, codes}
use dnstools.Prelude.{
  ltb, leb, ◌==◌, if◌then◌else◌, ℕ, zero, suc, ◌+◌, ◌-◌, ◌*◌, ◌/◌, ◌%◌, Bool, true, false, ◌&&◌,
  ◌||◌, Option, none, some, List, [], ◌∷◌, ◌++◌, map,
}
use dnstools.Prelude.Int.{ℤ, pos, negsuc}

-- `line.strip().lower()` on bytes.
abbrev pub is_space : ℕ → Bool
is_space c = (c == 32) || (leb 9 c && leb c 13)

pub strip_left : Text → Text
strip_left [] = []
strip_left (c ∷ cs) = if is_space c then strip_left cs else c ∷ cs

abbrev pub keep_char : ℕ → Text → Text
keep_char c [] = if is_space c then [] else c ∷ []
keep_char c (d ∷ ds) = c ∷ d ∷ ds

pub strip_right : Text → Text
strip_right [] = []
strip_right (c ∷ cs) = keep_char c (strip_right cs)

unfoldable pub strip : Text → Text
unfolding strip_left strip_right
strip cs = strip_right (strip_left cs)

abbrev pub lower_char : ℕ → ℕ
lower_char c = if leb 65 c && leb c 90 then c + 32 else c

unfoldable pub lower : Text → Text
lower cs = map lower_char cs

unfoldable pub same : Text → Text → Bool
same [] [] = true
same (c ∷ cs) (d ∷ ds) = (c == d) && same cs ds
same [] (d ∷ ds) = false
same (c ∷ cs) [] = false

-- The digits of a number, behind `n`.
unfoldable pub digits : ℕ → Text → Option ℕ
digits n [] = some n
digits n (c ∷ cs) =
    let rest = digits (10 * n + (c - 48)) cs in if leb 48 c && leb c 57 then rest else none

unfoldable pub natural : Text → Option ℕ
unfolding digits
natural [] = none
natural (c ∷ cs) = digits 0 (c ∷ cs)

abbrev pub negative : ℕ → ℤ
negative zero = pos 0
negative (suc n) = negsuc n

-- `int(text)` of a stripped text; `none` is the `ValueError`.
unfoldable pub int_of : Text → Option ℤ
unfolding natural
int_of [] = none
int_of (c ∷ cs) =
    if c == 45
    then Option.map negative (natural cs)
    else if c == 43
    then Option.map pos (natural cs)
    else Option.map pos (natural (c ∷ cs))

abbrev pub cons_head : ℕ → List Text → List Text
cons_head c [] = (c ∷ []) ∷ []
cons_head c (t ∷ ts) = (c ∷ t) ∷ ts

-- `line.split(",")`
unfoldable pub split : ℕ → Text → List Text
split sep [] = [] ∷ []
split sep (c ∷ cs) = let rest = split sep cs in if c == sep then [] ∷ rest else cons_head c rest

-- `line.split(":", 1)`: what stands before the first separator, and what stands behind it, if there
-- is one.
unfoldable pub split_once : ℕ → Text → Text × Option Text
split_once sep [] = ([], none)
split_once sep (c ∷ cs) =
    let (name, rest) = split_once sep cs in if c == sep then ([], some cs) else (c ∷ name, rest)

abbrev pub comma : ℕ
comma = 44

abbrev pub colon : ℕ
colon = 58

-- The digits of a number, on fuel; `n` is enough for `n`.
unfoldable pub decimal_digits : ℕ → ℕ → Text → Text
decimal_digits zero n acc = acc
decimal_digits (suc fuel) n acc =
    let d = n % 10 + 48 in
    let rest = decimal_digits fuel (n / 10) (d ∷ acc) in if ltb n 10 then d ∷ acc else rest

-- `"%d" % n`
unfoldable pub decimal : ℕ → Text
unfolding decimal_digits
decimal n = decimal_digits (suc n) n []

-- The lines of a text in triple quotes.
unfoldable pub lines : List String → Text
lines [] = []
lines (l ∷ []) = codes l
lines (l ∷ m ∷ ls) = codes l ++ (10 ∷ lines (m ∷ ls))

-- `"\n\n".join(texts)`
unfoldable pub paragraphs : List Text → Text
paragraphs [] = []
paragraphs (t ∷ []) = t
paragraphs (t ∷ u ∷ ts) = t ++ (10 ∷ 10 ∷ paragraphs (u ∷ ts))
