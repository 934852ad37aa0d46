-- ===== src/Examples/Charts.antt =====
-- The theorems about the charts of mig/analyser/grinder.py, fit.py and preview.py at concrete inputs.
use dnstools.Chart.{Text, codes, series, Point}
use dnstools.Prelude.Int.{◌+ℤ◌, ◌-ℤ◌, pos}
use dnstools.Prelude.{
  All, replicate, ◌>>=◌, map_result, IsRaised, ok, ℕ, ◌≤◌, ◌≡◌, refl, inl, some, List, [], ◌∷◌,
  ◌++◌, map, arith,
}
use dnstools.Examples.Thousandths.{
  Milli, milli, milli-IsDecimal, milli-IsMonotone, milli-IsScaling, milli-IsFixed,
}
use dnstools.Examples.Readers.{is_folder}
use dnstools.Examples.Runs.{count_slope, answered, exchanged, folder}
use dnstools.Prelude.Sort.{sorted, self}
use dnstools.LinearFit.{residuals}
use dnstools.Dump.{positive}
use dnstools.Preview
use dnstools.Preview.{next_rate}
use dnstools.Preview.Returns.{IsRounds, rounded, main_ends}
use dnstools.FitTool
use dnstools.FitTool.{FitReport}
use dnstools.FitTool.Returns.{IsRate, main_returns}
use dnstools.Grinder.Queue.{make_queue, counter_of, time}
use dnstools.Grinder.Queue.InAir.{IsChart, make_queue-IsChart}
use dnstools.Grinder.Processing.Total.{
  IsRank, make_total_processing-IsRank, make_total_processing_few,
}
use dnstools.Grinder.Processing.{make_total_processing, Bucket, delays_of, max_count}
use dnstools.Grinder.Processing.Buckets.{contents, IsHistogram}
use dnstools.Grinder.Processing.Points.{share, marks_of}
use dnstools.Grinder.Processing.Heights.{IsDrawn, IsHeight, make_processing-IsHeight}
use dnstools.Grinder.Inputs.{enumerate_inputs}
use dnstools.Grinder.Inputs.Names.{file_name, named, enumerate_inputs-named}
use dnstools.Grinder.Inputs.Labels.{speed_label-injective}

make_queue-IsChart_example :
    (ps : List (Point Milli)) × (make_queue exchanged [] (some (pos 10)) [] ≡ ok (series ps [] []))
    × IsChart (pos 10) exchanged (sorted time (counter_of exchanged)) ps
make_queue-IsChart_example =
    make_queue-IsChart Milli exchanged [] (pos 10) [] (omega arith) (omega arith)

make_processing-IsHeight_example :
    (bs : List (Bucket Milli)) × IsDrawn exchanged [] [] bs
    × (contents bs ≡ positive (sorted self (delays_of exchanged)))
    × IsHistogram bs
    × All (λ p. IsHeight (p.y)) (map (share (max_count 0 (marks_of bs))) (marks_of bs))
make_processing-IsHeight_example =
    make_processing-IsHeight milli-IsMonotone milli-IsScaling exchanged [] [] (omega arith)

main_returns_example :
    (r : FitReport Milli) × (FitTool.main count_slope answered ≡ ok r)
    × (r.send ≡ 2000)
    × IsRate count_slope (pos 10) (pos 40 ∷ []) r.recv
    × (r.lost ≡ pos 1)
unfolding residuals map_result ◌-ℤ◌
main_returns_example =
    main_returns count_slope answered (pos 10) (pos 20 ∷ []) (pos 40 ∷ []) 1 0 2000 refl refl
      (omega arith) refl (omega arith) (omega arith) refl (0, 1000, refl)

main_ends_example :
    (m n : ℕ) × (m ≤ 5)
    × (n ≤ 5)
    × IsRounds {F = Milli} m 2000
    × IsRounds {F = Milli} n (next_rate (pos 10) (pos 40) (pos 20) 2000 (pos 1))
    × (Preview.main 6 count_slope answered (pos 10) (pos 40) (pos 20)
        ≡ some (
            milli.to_int (rounded {F = Milli} m 2000) >>= λ x.
            milli.to_int (rounded {F = Milli} n (next_rate (pos 10) (pos 40) (pos 20) 2000 (pos 1)))
            >>= λ y. ok record { rate = x; lost = pos 1; next = y }))
unfolding residuals map_result ◌-ℤ◌ next_rate ◌+ℤ◌
main_ends_example =
    main_ends milli-IsDecimal count_slope answered (pos 10) (pos 40) (pos 20) (pos 10) (pos 20 ∷ [])
      (pos 40 ∷ []) 1 5 0 2000 refl refl (omega arith) refl (omega arith) refl (omega arith) refl
      refl

abbrev two_files : Text → List Text
two_files path = map file_name (200 ∷ 40 ∷ [])

enumerate_inputs-named_example :
    enumerate_inputs is_folder two_files folder ≡ named 0 (codes "a") (200 ∷ 40 ∷ [])
enumerate_inputs-named_example =
    enumerate_inputs-named is_folder two_files (codes "a") (200 ∷ 40 ∷ []) refl refl

speed_label-injective_example : ◌≡◌ {A = ℕ} 1250 1250
speed_label-injective_example =
    speed_label-injective milli-IsFixed 2 2 1250 1250 (omega arith) (omega arith) refl

-- A delay in one of 1002 pairs.
make_total_processing_few_example :
    IsRaised (make_total_processing {F = Milli} (exchanged ++ replicate 1000 []) [] [])
unfolding delays_of
make_total_processing_few_example =
    make_total_processing_few Milli (exchanged ++ replicate 1000 []) [] [] (omega arith)
      (omega arith)

make_total_processing-IsRank_example :
    (ps : List (Point Milli)) × (make_total_processing exchanged [] [] ≡ ok (series ps [] []))
    × All (IsRank (sorted self (delays_of exchanged))) ps
make_total_processing-IsRank_example =
    make_total_processing-IsRank Milli exchanged [] [] (inl (omega arith))
