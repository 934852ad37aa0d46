-- ===== src/Preview.antt =====
-- mig/analyser/preview.py: the next limit of a binary search for the rate at which queries begin to
-- be lost.
pub mod Rounding
pub mod Search
pub mod Returns
use dnstools.Chart.{of_nat, to_float, item, Floats, Num, float, int}
use dnstools.Prelude.Int.{◌+ℤ◌, ◌-ℤ◌, ltb_ℤ, ℤ, pos}
use dnstools.Prelude.{
  if◌then◌else◌, length, get_elem?, ◌>>=◌, Result, ok, err, ℕ, zero, suc, ◌+◌, true, false, Option,
  none, some, [],
}
use mathlib.Core.Option
use dnstools.Dump.{Document, Measured, positive}
use dnstools.LinearFit.{Solver, calculate_fit}

pub record Preview : Type 0 where
  pub rate : ℤ
  pub lost : ℤ
  pub next : ℤ

-- The version of preview.py: the fits are left out.
unfoldable pub jload {ℓ} : {F : Type ℓ} → Document F → Measured
unfolding positive
jload d = record {
  sends = Option.get_or d.sends [];
  receives = positive (Option.get_or d.receives []);
  pairs = Option.get_or d.pairs [];
}

module _ {ℓ} {F : Type ℓ} ⦃f : Floats F⦄ where
  -- The `while` of `rate_round`, with `r` and `i` behind it. The fuel bounds its rounds; `none` means
  -- that it ran out.
  pub rate_round_loop : ℕ → F → ℕ → Option (F × ℕ)
  rate_round_loop zero r i = none
  rate_round_loop (suc fuel) r i = elim (f.lt (of_nat 100) r) [
    | true ↦ rate_round_loop fuel (f.div r (of_nat 10)) (i + 1)
    | false ↦ some (r, i)
  ]

  -- `int(round(r)*math.pow(10, i))`
  unfoldable pub rate_round : ℕ → F → Option (Result ℤ)
  unfolding rate_round_loop
  rate_round fuel r = elim (rate_round_loop fuel r 0) [
    | none ↦ none
    | some (r', i) ↦ some (f.to_int (f.mul (f.round r') (f.pow (of_nat 10) (of_nat i))))
  ]

  -- The sum of a number and an integer.
  abbrev pub plus_int : Num F → ℤ → Num F
  plus_int (Num.int a) b = Num.int (a +ℤ b)
  plus_int (Num.float x) b = Num.float (f.add x (f.of_int b))

  -- `high` may be replaced by the rate, then `next_rate = 0.5*(prev_rate + test)`.
  unfoldable pub next_rate : ℤ → ℤ → ℤ → F → ℤ → F
  next_rate low high test rate lost =
      let high' : Num F = if ltb_ℤ high (pos 0) then Num.float rate else Num.int high in
      let prev_rate = if ltb_ℤ (pos 0) lost then Num.int low else high' in
      f.mul (f.div (of_nat 1) (of_nat 2)) (to_float (plus_int prev_rate test))

  -- The numbers of `main`: the rate of sending, the lost queries and the next rate.
  unfoldable pub preview_rates : Solver F → Document F → ℤ → ℤ → ℤ → Result (F × ℤ × F)
  unfolding jload
  preview_rates leastsq document low high test = do
    let run = jload document
    start ← item (get_elem? run.sends 0)
    fit ← calculate_fit leastsq run.sends (some start) []
    rate ← item (get_elem? fit 1)
    let lost = pos (length run.sends) -ℤ pos (length run.receives)
    ok (rate, lost, next_rate low high test rate lost)

  -- `main`, from the parsed file and arguments to the printed object; `none` if a rounding runs out
  -- of fuel.
  unfoldable pub main : ℕ → Solver F → Document F → ℤ → ℤ → ℤ → Option (Result Preview)
  unfolding rate_round next_rate preview_rates
  main fuel leastsq document low high test = elim (preview_rates leastsq document low high test) [
    | err e ↦ some (err e)
    | ok (rate, lost, next) ↦ elim (rate_round fuel rate) [
      | none ↦ none
      | some rounded ↦ elim (rate_round fuel next) [
        | none ↦ none
        | some rounded_next ↦
            some (do r ← rounded; n ← rounded_next; ok (record { rate = r; lost = lost; next = n }))
      ]
    ]
  ]
