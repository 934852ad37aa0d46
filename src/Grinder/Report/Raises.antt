-- ===== src/Grinder/Report/Raises.antt =====
-- The runs that `main` of mig/analyser/grinder.py cannot chart.
use dnstools.Chart.{Text, codes, Floats, Series}
use dnstools.Prelude.{
  >>=-IsRaised, first-IsRaised, Error, IsRaised, raised, ◌+◌, ◌*◌, ◌≡◌, refl, sym, subst, inl, inr,
  Bool, false, Option, none, some, List, [], ◌∷◌, ◌++◌,
}
use dnstools.Prelude.Int.{ℤ}
use dnstools.Dump.{Run, Pair, Params, sends_mark, receives_mark, find_fits}
use dnstools.LinearFit.{Solver, make_fit}
use dnstools.LinearFit.Window.{make_fit_raises}
use dnstools.Grinder.Counts.{make_count}
use dnstools.Grinder.Rates.{make_rate}
use dnstools.Grinder.Inputs.{Input}
use dnstools.Grinder.Report.{
  Options, Report, add_run, draw_run, receiving_part, limited, fit_loop, key_of, fitted_rate,
  color_of, fits_of, first_of, additional, add_rates,
}

module _ {ℓ} {F : Type ℓ} ⦃f : Floats F⦄ where
  draw_run_no_answers :
      (sends : List ℤ) (pairs : List Pair) (start : Option ℤ) (more a b c : Text)
      (s t : List (Series F) × List (Series F)) (r : Report F)
      → IsRaised (draw_run sends [] pairs start more a b c s t r)
  unfolding draw_run
  draw_run_no_answers sends pairs start more a b c (s, s') (t, t') r =
      >>=-IsRaised (make_count sends (codes "Sent" ++ more) start s a) _ (λ x.
        >>=-IsRaised (make_rate sends (codes "Sending" ++ more) start s' a) _ (λ y.
          >>=-IsRaised (make_count [] (codes "Received" ++ more) start t b) _
            (λ z. raised Error.index_error refl)))

  fit_loop-IsRaised :
      (leastsq : Solver F) (ts : List ℤ) (count_name rate_name : Text) (start : Option ℤ)
      (color : Text) (build : Bool) (rate : Option F) (p : Params F) (ps : List (Params F))
      → IsRaised (fit_loop leastsq ts count_name rate_name start color build rate (p ∷ ps))
  unfolding fit_loop
  fit_loop-IsRaised leastsq ts count_name rate_name start color build rate p ps =
      let fit = make_fit leastsq ts count_name rate_name start p color in
      elim (make_fit_raises leastsq ts count_name rate_name start p color) [
        | inl (u, h, e) ↦ first-IsRaised fit _ (raised Error.name_error e)
        | inr (x, h, e) ↦ first-IsRaised fit _ (raised x e)
      ]

  add_run-IsRaised :
      (leastsq : Solver F) (o : Options) (input : Input) (run : Run F) (r : Report F)
      → ((c1 c2 c : Text) (sent : Option F) (s s' : List (Series F))
          → IsRaised (receiving_part leastsq o input run r c1 c2 c sent s s'))
      → IsRaised (add_run leastsq o input run r)
  unfolding add_run receiving_part
  add_run-IsRaised leastsq o input run r h =
      let i = input.count in
      let sends = limited o.from_point o.to_point run.sends in
      let start = first_of sends in
      let more = additional o.details i input.label in
      >>=-IsRaised (color_of (2 * i)) _ (λ c1. >>=-IsRaised (color_of (2 * i + 1)) _ (λ c2.
        >>=-IsRaised (color_of i) _ (λ c.
          >>=-IsRaised (key_of (find_fits sends_mark (fits_of o.no_fit run))) _ (λ sf.
            >>=-IsRaised
              (fit_loop leastsq sends (codes "Sent Fit" ++ more) (codes "Sending Fit" ++ more) start
                c1 o.rates none sf)
              _
              (λ (sfit, s, s').
                >>=-IsRaised (fitted_rate leastsq sends start o.rates sfit) _
                  (λ sent. h c1 c2 c sent s s'))))))

  -- An input of which the options leave no answer is not charted: the code raises, whatever the rest
  -- of the input and the fits are.
  pub add_run_no_answers :
      (leastsq : Solver F) (o : Options) (input : Input) (run : Run F) (r : Report F)
      → limited o.from_point o.to_point run.receives ≡ []
      → IsRaised (add_run leastsq o input run r)
  unfolding receiving_part
  add_run_no_answers leastsq o input run r e =
      add_run-IsRaised leastsq o input run r (λ c1 c2 c sent s s'.
        let sends = limited o.from_point o.to_point run.sends in
        let receives = limited o.from_point o.to_point run.receives in
        let pairs = limited o.from_point o.to_point run.pairs in
        let start = first_of sends in
        let more = additional o.details input.count input.label in
        >>=-IsRaised (key_of (find_fits receives_mark (fits_of o.no_fit run))) _ (λ rf.
          >>=-IsRaised
            (fit_loop leastsq receives (codes "Received Fit" ++ more)
              (codes "Receiving Fit " ++ more) start c2 o.rates none rf)
            _
            (λ (rfit, t, t').
              >>=-IsRaised (fitted_rate leastsq receives start o.rates rfit) _ (λ received.
                subst
                  (λ l. IsRaised (
                    draw_run sends l pairs start more c1 c2 c (s, s') (t, t')
                      (add_rates input.speed sent received r)))
                  (sym e)
                  (draw_run_no_answers sends pairs start more c1 c2 c (s, s') (t, t')
                    (add_rates input.speed sent received r))))))

  -- An input with a fit of its sending times is not charted, unless the fits are left out: the code
  -- raises.
  pub add_run_fits :
      (leastsq : Solver F) (o : Options) (input : Input) (run : Run F) (r : Report F) (p : Params F)
      (ps : List (Params F))
      → o.no_fit ≡ false
      → find_fits sends_mark run.fits ≡ some (p ∷ ps)
      → IsRaised (add_run leastsq o input run r)
  unfolding add_run
  add_run_fits leastsq o input run r p ps n e =
      let i = input.count in
      let sends = limited o.from_point o.to_point run.sends in
      let more = additional o.details i input.label in
      >>=-IsRaised (color_of (2 * i)) _ (λ c1. >>=-IsRaised (color_of (2 * i + 1)) _ (λ c2.
        >>=-IsRaised (color_of i) _ (λ c.
          rw (n, e)
            (first-IsRaised
              (fit_loop leastsq sends (codes "Sent Fit" ++ more) (codes "Sending Fit" ++ more)
                (first_of sends) c1 o.rates none (p ∷ ps))
              _
              (fit_loop-IsRaised leastsq sends (codes "Sent Fit" ++ more)
                (codes "Sending Fit" ++ more) (first_of sends) c1 o.rates none p ps)))))
