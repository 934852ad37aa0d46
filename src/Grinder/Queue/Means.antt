-- ===== src/Grinder/Queue/Means.antt =====
-- The means that `make_queue` of mig/analyser/grinder.py draws of a long list.
use dnstools.Chart.{of_nat, millisecond, Floats, Num, Point}
use dnstools.Prelude.Int.{◌+ℤ◌, ℤ, int_laws, pos}
use dnstools.Prelude.{
  length, take, drop, take-append, drop-append, ok, ℕ, ◌<◌, ◌≡◌, refl, sym, ap, ◌∙◌, subst, Lift,
  ◌≢◌, some, List, [], ◌∷◌, ◌++◌, arith,
}
use dnstools.Grinder.Queue.{Event, average_point}
use dnstools.Grinder.Queue.Levels.{over_pos}

-- The level of the queue behind each event, with its time.
abbrev pub levels : ℤ → List Event → List (ℤ × ℤ)
levels q [] = []
levels q ((k, d) ∷ es) = (k, q +ℤ d) ∷ levels (q +ℤ d) es

abbrev pub times_in : List (ℤ × ℤ) → ℤ
times_in [] = pos 0
times_in ((k, q) ∷ ls) = k +ℤ times_in ls

abbrev pub queues_in : List (ℤ × ℤ) → ℤ
queues_in [] = pos 0
queues_in ((k, q) ∷ ls) = q +ℤ queues_in ls

pub times_in-snoc :
    (ls : List (ℤ × ℤ)) (k q : ℤ) → times_in (ls ++ ((k, q) ∷ [])) ≡ times_in ls +ℤ k
times_in-snoc [] k q = omega int_laws
times_in-snoc ((k', q') ∷ ls) k q = ap (λ z. k' +ℤ z) (times_in-snoc ls k q) ∙ omega int_laws

pub queues_in-snoc :
    (ls : List (ℤ × ℤ)) (k q : ℤ) → queues_in (ls ++ ((k, q) ∷ [])) ≡ queues_in ls +ℤ q
queues_in-snoc [] k q = omega int_laws
queues_in-snoc ((k', q') ∷ ls) k q = ap (λ z. q' +ℤ z) (queues_in-snoc ls k q) ∙ omega int_laws

module _ {ℓ} {F : Type ℓ} ⦃f : Floats F⦄ where
  -- The mean time of a window, after the start, and the mean level of the queue in it.
  abbrev pub mean_of : ℤ → List (ℤ × ℤ) → Point F
  mean_of s w = record {
    x = f.div (f.sub (f.div (f.of_int (times_in w)) (of_nat (length w))) (f.of_int s)) millisecond;
    y = Num.float (f.div (f.of_int (queues_in w)) (of_nat (length w)));
  }

  -- Each point is the mean of the next `step` levels, or of those that are left.
  abbrev pub IsMeans : ℤ → ℕ → List (ℤ × ℤ) → List (Point F) → Type ℓ
  IsMeans s step ls [] = Lift (ls ≡ [])
  IsMeans s step ls (p ∷ ps) =
      (ls ≢ []) × (p ≡ mean_of s (take step ls)) × IsMeans s step (drop step ls) ps

  pub average_point-mean :
      (s : ℤ) (w : List (ℤ × ℤ))
      → 0 < length w
      → average_point (some s) (times_in w) (queues_in w) (length w) ≡ ok (mean_of s w)
  unfolding average_point
  average_point-mean s w h =
      rw
        (
          over_pos (f.of_int (times_in w)) (length w) h,
          over_pos (f.of_int (queues_in w)) (length w) h,
        )
        refl

  pub average_point-snoc :
      (s : ℤ) (w : List (ℤ × ℤ)) (k q : ℤ) (n : ℕ)
      → length (w ++ ((k, q) ∷ [])) ≡ n
      → 0 < n
      → average_point (some s) (times_in w +ℤ k) (queues_in w +ℤ q) n
        ≡ ok (mean_of s (w ++ ((k, q) ∷ [])))
  average_point-snoc s w k q n e h =
      let w' = w ++ ((k, q) ∷ []) in
      let one = average_point-mean s w' (subst (λ m. 0 < m) (sym e) h) in
      ap (λ t. average_point (some s) t (queues_in w +ℤ q) n) (sym (times_in-snoc w k q))
      ∙ ap (λ u. average_point (some s) (times_in w') u n) (sym (queues_in-snoc w k q))
      ∙ ap (average_point (some s) (times_in w') (queues_in w')) (sym e)
      ∙ one

  pub IsMeans-cons :
      (s : ℤ) (step : ℕ) (w ls : List (ℤ × ℤ)) (ps : List (Point F))
      → 0 < step
      → length w ≡ step
      → IsMeans s step ls ps
      → IsMeans s step (w ++ ls) (mean_of s w ∷ ps)
  IsMeans-cons s step [] ls ps h e m = absurd (omega arith)
  IsMeans-cons s step (l ∷ w) ls ps h e m = (
    λ n. cc,
    ap (mean_of s) (sym (ap (λ k. take k (l ∷ w ++ ls)) (sym e) ∙ take-append (l ∷ w) ls)),
    subst (λ r. IsMeans s step r ps)
        (sym (ap (λ k. drop k (l ∷ w ++ ls)) (sym e) ∙ drop-append (l ∷ w) ls)) m,
  )
