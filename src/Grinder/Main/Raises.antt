-- ===== src/Grinder/Main/Raises.antt =====
-- When `main` of mig/analyser/grinder.py raises on the inputs as a whole.
use dnstools.Chart.{Text, Floats}
use dnstools.Prelude.{
  >>=-IsRaised, first-IsRaised, Result, IsRaised, ok, ℕ, ◌≡◌, sym, subst, Bool, List, [], ◌∷◌, ◌++◌,
}
use dnstools.Dump.{Document, jload}
use dnstools.LinearFit.{Solver}
use dnstools.Grinder.Inputs.{Input, enumerate_inputs, label_inputs}
use dnstools.Grinder.Report.{Options, Report, add_run, limited}
use dnstools.Grinder.Report.Raises.{add_run_no_answers}
use dnstools.Grinder.Main.{add_runs, main, empty_report}

module _ {ℓ} {F : Type ℓ} ⦃f : Floats F⦄ where
  -- An input that raises where its turn comes, in the loop over the inputs.
  add_runs-IsRaised :
      (read : Text → Result (Document F)) (leastsq : Solver F) (o : Options) (before : List Input)
      (i : Input) (after : List Input) (d : Document F) (r : Report F)
      → read i.path ≡ ok d
      → ((r : Report F) → IsRaised (add_run leastsq o i (jload d) r))
      → IsRaised (add_runs read leastsq o (before ++ (i ∷ after)) r)
  unfolding add_runs
  add_runs-IsRaised read leastsq o [] i after d r e h = rw e (first-IsRaised _ _ (h r))
  add_runs-IsRaised read leastsq o (j ∷ before) i after d r e h =
      >>=-IsRaised (read j.path) _ (λ d'.
        >>=-IsRaised (add_run leastsq o j (jload d') r) _
          (λ r'. add_runs-IsRaised read leastsq o before i after d r' e h))

  -- `main` writes no page if it can read one of its inputs and the options leave no answer of that
  -- input: it raises, whatever the other inputs are.
  pub main_no_answers :
      (fixed : ℕ → F → Text) (is_dir : Text → Bool) (listdir : Text → List Text)
      (read : Text → Result (Document F)) (leastsq : Solver F) (o : Options) (args : List Text)
      (before : List Input) (i : Input) (after : List Input) (d : Document F)
      → label_inputs fixed (enumerate_inputs is_dir listdir args) ≡ before ++ (i ∷ after)
      → read i.path ≡ ok d
      → limited o.from_point o.to_point (jload d).receives ≡ []
      → IsRaised (main fixed is_dir listdir read leastsq o args)
  unfolding main
  main_no_answers fixed is_dir listdir read leastsq o args before i after d inputs e none_left =
      let runs =
        subst (λ is. IsRaised (add_runs read leastsq o is empty_report)) (sym inputs)
          (add_runs-IsRaised read leastsq o before i after d empty_report e
            (λ r. add_run_no_answers leastsq o i (jload d) r none_left)) in
      first-IsRaised _ _ runs
