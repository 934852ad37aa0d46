-- ===== src/FitTool.antt =====
-- mig/analyser/fit.py: the rates of sending and of receiving of one run, and the lost queries.
pub mod Lost
pub mod Returns
use dnstools.Chart.{item, Floats, Num, float, int}
use dnstools.Prelude.Int.{◌-ℤ◌, ℤ, pos}
use dnstools.Prelude.{length, get_elem?, ◌>>=◌, Result, ok, Option, some, List, [], ◌∷◌}
use mathlib.Core.Option
use dnstools.Dump.{Document, Measured, positive}
use dnstools.LinearFit.{Solver, calculate_fit}

pub record FitReport {ℓ} (F : Type ℓ) : Type ℓ where
  pub send : F
  pub recv : Num F
  pub lost : ℤ

-- The version of fit.py: the fits are left out.
unfoldable pub jload {ℓ} : {F : Type ℓ} → Document F → Measured
unfolding positive
jload d = record {
  sends = Option.get_or d.sends [];
  receives = positive (Option.get_or d.receives []);
  pairs = Option.get_or d.pairs [];
}

module _ {ℓ} {F : Type ℓ} ⦃f : Floats F⦄ where
  -- `calculate_fit(receives, sends[0], [])[1] if receives else 0`
  pub receiving_rate : Solver F → ℤ → List ℤ → Result (Num F)
  receiving_rate leastsq start [] = ok (Num.int (pos 0))
  receiving_rate leastsq start (t ∷ ts) = do
    fit ← calculate_fit leastsq (t ∷ ts) (some start) []
    rate ← item (get_elem? fit 1)
    ok (Num.float rate)

  -- `main`, from the parsed file to the printed object.
  unfoldable pub main : Solver F → Document F → Result (FitReport F)
  unfolding receiving_rate jload
  main leastsq document = do
    let run = jload document
    start ← item (get_elem? run.sends 0)
    fit ← calculate_fit leastsq run.sends (some start) []
    rate ← item (get_elem? fit 1)
    received ← receiving_rate leastsq start run.receives
    ok (record {
      send = rate;
      recv = received;
      lost = pos (length run.sends) -ℤ pos (length run.receives);
    })
