-- ===== src/Grinder/Queue/Whole.antt =====
-- The whole chart of `make_queue`, of short lists and of averaged ones.
use dnstools.Chart.{Text, series, fit_points, Floats, Num, Point}
use dnstools.Prelude.Int.{ℤ, pos}
use dnstools.Prelude.{
  ◌==◌, le→leb, gt→leb, Bool-cases, length, get_last?, All, All-append, ok-injective, ok, ℕ, ◌+◌,
  ◌-◌, ◌/◌, ◌%◌, ◌≤◌, ◌<◌, ◌≡◌, refl, sym, ap, ◌∙◌, subst, ◌≢◌, inl, inr, some, List, [], ◌∷◌, ◌++◌,
  arith,
}
use mathlib.Core.List.{Perm}
use mathlib.Core.List.Perm
use dnstools.Prelude.Sort.{sorted, sorted-perm}
use dnstools.Grinder.Counts.{last_index_lem}
use dnstools.Dump.{Pair}
use dnstools.Grinder.Queue.{Event, time, counter_of, averages, make_queue}
use dnstools.Grinder.Queue.Balance.{IsBalanced, IsCausal, sorted-IsBalanced}
use dnstools.Grinder.Queue.Means.{levels, IsMeans}
use dnstools.Grinder.Queue.Windows.{averages-IsMeans}
use dnstools.Grinder.Queue.Levels.{
  unanswered, final-unanswered, IsLevel, IsAverage, queue_loop-IsLevel, average_point-IsAverage,
  average_loop-IsWindow,
}

sorted-ne-nil : (es : List Event) → es ≢ [] → sorted time es ≢ []
sorted-ne-nil es h e = h (sym (Perm.nil-eq (subst (λ l. Perm l es) e (sorted-perm time es))))

length_pos : (es : List Event) → es ≢ [] → 0 < length es
length_pos [] h = absurd (h refl)
length_pos (e ∷ es) h = omega arith

module _ {ℓ} (F : Type ℓ) ⦃f : Floats F⦄ where
  -- For a short list of pairs, in none of which the answer comes before the query, `make_queue`
  -- raises nothing, and no point of its chart is below zero. If there is a query, the last point is
  -- the number of queries with no answer.
  pub make_queue-IsLevel :
      (pairs : List Pair) (name : Text) (s : ℤ) (color : Text)
      → IsCausal pairs
      → length pairs / fit_points ≤ 1
      → (ps : List (Point F)) × (make_queue pairs name (some s) color ≡ ok (series ps name color))
        × All IsLevel ps
        × (counter_of pairs ≢ []
            → (p : Point F) × (get_last? ps ≡ some p) × (p.y ≡ Num.int (pos (unanswered pairs))))
  make_queue-IsLevel pairs name s color c h =
      let (ps, r, all, end) =
        queue_loop-IsLevel s (pos 0) (sorted time (counter_of pairs)) (sorted-IsBalanced pairs c) in
      (
        ps,
        unfold make_queue in rw (le→leb (length pairs / fit_points) 1 h) (rw r),
        all,
        λ e.
            let (p, last, y) = end (sorted-ne-nil (counter_of pairs) e) in
            (p, last, y ∙ ap Num.int (final-unanswered pairs)),
      )

  averages-IsAverage :
      (s : ℤ) (step : ℕ) (es : List Event)
      → 0 < step
      → es ≢ []
      → IsBalanced (pos 0) es
      → (ps : List (Point F)) × (averages (some s) step es ≡ ok ps) × All IsAverage ps
  averages-IsAverage s step es h ne b =
      let (ps, t, q, r, all, z) =
        average_loop-IsWindow s step 0 (pos 0) (pos 0) (pos 0) es h (omega arith) b in
      let n = (length es - 1 + 1) % step in
      elim (Bool-cases (n == 0)) [
        | inl e ↦ (
          ps ++ [],
          unfold averages in rw (r, last_index_lem es (length_pos es ne), e) refl,
          All-append IsAverage ps [] all tt,
        )
        | inr e ↦
            let (p, r', avg) = average_point-IsAverage s t q n (ground arith) z in
            (
              ps ++ (p ∷ []),
              unfold averages in rw (r, last_index_lem es (length_pos es ne), e) (rw r'),
              All-append IsAverage ps (p ∷ []) all (avg, tt),
            )
      ]

  pub make_queue-IsAverage :
      (pairs : List Pair) (name : Text) (s : ℤ) (color : Text)
      → IsCausal pairs
      → 1 < length pairs / fit_points
      → counter_of pairs ≢ []
      → (ps : List (Point F)) × (make_queue pairs name (some s) color ≡ ok (series ps name color))
        × IsMeans s (length pairs / fit_points) (levels (pos 0) (sorted time (counter_of pairs))) ps
        × All IsAverage ps
  make_queue-IsAverage pairs name s color c h ne =
      let es = sorted time (counter_of pairs) in
      let step = length pairs / fit_points in
      let ne' = sorted-ne-nil (counter_of pairs) ne in
      let (qs, r, all) =
        averages-IsAverage s step es (omega arith) ne' (sorted-IsBalanced pairs c) in
      let (ps, r', means) = averages-IsMeans s step es (omega arith) (length_pos es ne') in
      (
        ps,
        unfold make_queue in rw (gt→leb step 1 h) (rw r' refl),
        means,
        subst (All IsAverage) (ok-injective (sym r ∙ r')) all,
      )
