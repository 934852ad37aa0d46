-- ===== src/Examples/Readers.antt =====
-- Tests of what mig/analyser/grinder.py reads and how it sorts delays, and its theorems at concrete
-- inputs.
use mathlib.Core.List.{Perm}
use dnstools.Chart.{Text, codes, of_nat, fit_points}
use dnstools.Prelude.Int.{pos}
use dnstools.Prelude.{
  ltb, length, Error, Result, ok, err, ℕ, ◌≡◌, refl, ◌⊎◌, Bool, Option, none, some, List, [], ◌∷◌,
  map, arith,
}
use dnstools.Prelude.Sort.{IsSorted}
use dnstools.Examples.Thousandths.{Milli, milli, milli-IsMonotone}
use dnstools.Grinder.Processing.{Bucket, histogram}
use dnstools.Grinder.Processing.Buckets.{contents, bounds_of, powers, IsTrimmed, IsHistogram}
use dnstools.Grinder.Processing.Histogram.{histogram-IsHistogram}
use dnstools.Grinder.Load.{Loaded, load, process, sends_line, receives_line, section}
use dnstools.Grinder.Load.Sections.{load-sections}
use dnstools.Strings.{lower}
use dnstools.Grinder.Load.Early.{nothing_loaded, load_received_earlier}
use dnstools.Grinder.Load.Order.{IsOrdered, load-IsOrdered}
use dnstools.Grinder.Inputs.{Input, enumerate_inputs, label_inputs, speed_key}
use dnstools.Grinder.Inputs.Order.{
  IsCounted, place, enumerate_inputs-IsCounted, label_inputs-IsSorted,
}

histogram-IsHistogram_example :
    let left = milli.floor (milli.log10 (milli.of_int (pos 5))) in
    let right = milli.ceil (milli.log10 (milli.of_int (pos 70))) in
    (bs all : List (Bucket Milli)) × (histogram (pos 5 ∷ pos 70 ∷ pos 70 ∷ []) ≡ ok bs)
    × (contents bs ≡ pos 5 ∷ pos 70 ∷ pos 70 ∷ [])
    × IsHistogram bs
    × IsTrimmed bs all
    × (bounds_of all ≡ powers left (milli.div (milli.sub right left) (of_nat fit_points)) 500 1)
    × IsHistogram all
histogram-IsHistogram_example =
    histogram-IsHistogram milli-IsMonotone (pos 5) (pos 70 ∷ pos 70 ∷ [])
      (omega arith, (omega arith, tt)) (omega arith) refl

-- A file with both kinds of times; the time 0 ends the second list.
abbrev lines : List Text
lines =
    map codes
      ("Sends:" ∷ "10" ∷ " 25 " ∷ "" ∷ "receives:" ∷ "30" ∷ "41" ∷ "0" ∷ "pairs:" ∷ "10,30,20" ∷ [])

abbrev no_json : Text → Result ℕ
no_json text = err Error.value_error

loaded :
    load no_json lines
    ≡ ok record {
      sends = pos 10 ∷ pos 25 ∷ [];
      receives = pos 30 ∷ pos 41 ∷ [];
      pairs = pos 20 ∷ [];
      fits_sends = [];
      fits_receives = [];
    }
unfolding load
loaded = refl

-- A sending time before the last one is named in the exception; a receiving time raises another.
sent_earlier :
    load no_json (map codes ("sends:" ∷ "10" ∷ "9" ∷ []))
    ≡ err (Error.sent_earlier 2 1 (pos 9) (pos 10))
unfolding load
sent_earlier = refl

received_earlier : load no_json (map codes ("receives:" ∷ "10" ∷ "9" ∷ [])) ≡ err Error.type_error
unfolding load
received_earlier = refl

load-IsOrdered_example :
    ((e : Error) × (load no_json lines ≡ err e))
    ⊎ ((s : Loaded ℕ) × (load no_json lines ≡ ok s) × IsOrdered s)
load-IsOrdered_example = load-IsOrdered no_json lines

abbrev pub is_folder : Text → Bool
is_folder path = ltb (length path) 2

abbrev names : Text → List Text
names path = map codes ("TEST-20.json" ∷ "notes.txt" ∷ "run.JSON" ∷ [])

abbrev arguments : List Text
arguments = map codes ("a" ∷ "one.json" ∷ [])

enumerated :
    map {B = ℕ × Option ℕ} (λ i. (i.count, i.speed)) (enumerate_inputs is_folder names arguments)
    ≡ (0, some 20) ∷ (1, none) ∷ (2, none) ∷ []
unfolding enumerate_inputs
enumerated = refl

enumerate_inputs-IsCounted_example : IsCounted 0 (enumerate_inputs is_folder names arguments)
enumerate_inputs-IsCounted_example = enumerate_inputs-IsCounted is_folder names arguments

abbrev pub no_fixed : ℕ → Milli → Text
no_fixed places x = codes ".2"

abbrev speedy : ℕ → ℕ → Input
speedy n v = record { count = n; path = []; speed = some v; label = none }

labelled :
    map {B = ℕ × Option Text}
      (λ i. (i.count, i.label))
      (label_inputs {F = Milli} no_fixed (speedy 0 4000 ∷ speedy 1 200 ∷ []))
    ≡ (1, some (codes ".2k")) ∷ (0, some (codes "4k")) ∷ []
unfolding label_inputs
labelled = refl

label_inputs-IsSorted_example :
    IsSorted speed_key (label_inputs {F = Milli} no_fixed (speedy 0 4000 ∷ speedy 1 200 ∷ []))
    × Perm
        (map place (label_inputs {F = Milli} no_fixed (speedy 0 4000 ∷ speedy 1 200 ∷ [])))
        ((0, []) ∷ (1, []) ∷ [])
label_inputs-IsSorted_example =
    label_inputs-IsSorted Milli no_fixed (speedy 0 4000 ∷ speedy 1 200 ∷ [])

load-sections_example :
    load no_json (map codes ("sends:" ∷ "10" ∷ " 25 " ∷ "" ∷ "receives:" ∷ "30" ∷ "41" ∷ []))
    ≡ ok record {
      sends = pos 10 ∷ pos 25 ∷ [];
      receives = pos 30 ∷ pos 41 ∷ [];
      pairs = [];
      fits_sends = [];
      fits_receives = [];
    }
unfolding load
load-sections_example =
    load-sections no_json (map codes ("10" ∷ " 25 " ∷ [])) (map codes ("30" ∷ "41" ∷ []))
      (pos 10 ∷ pos 25 ∷ []) (pos 30 ∷ pos 41 ∷ []) (refl, (refl, tt)) (refl, (refl, tt))
      (omega arith, tt) (omega arith, tt) (refl, (refl, tt))

-- The file has a section of sending times in front.
load_received_earlier_example :
    load no_json (map codes ("sends:" ∷ "4" ∷ "" ∷ "receives:" ∷ "10" ∷ "9" ∷ "12" ∷ []))
    ≡ err Error.type_error
unfolding process sends_line receives_line section lower
load_received_earlier_example =
    load_received_earlier no_json (map codes ("sends:" ∷ "4" ∷ "" ∷ "receives:" ∷ "10" ∷ []))
      (map codes ("12" ∷ [])) (codes "9")
      (record nothing_loaded { sends = pos 4 ∷ []; receives = pos 10 ∷ [] }) (pos 9) (pos 10)
      (_, _, refl, (_, _, refl, (_, _, refl, (_, _, refl, (_, _, refl, (refl, refl)))))) refl refl
      refl (omega arith)
