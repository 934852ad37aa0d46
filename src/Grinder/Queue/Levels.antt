-- ===== src/Grinder/Queue/Levels.antt =====
-- What the points of `make_queue` say.
use dnstools.Chart.{of_nat, millisecond, over, Floats, Num, Point}
use dnstools.Prelude.Int.{◌+ℤ◌, ◌-ℤ◌, ◌≤ℤ◌, leb_ℤ, ℤ, int_laws, pos, negsuc}
use dnstools.Prelude.{
  ◌==◌, Bool-cases, get_last?, All, get_last?-cons, Result, ok, ℕ, zero, suc, ◌+◌, ◌%◌, ◌<◌, ◌≡◌,
  refl, ap, ◌≢◌, inl, inr, true, false, some, List, [], ◌∷◌, arith,
}
use dnstools.Prelude.Sort.{sorted, insert, insert-nil, insert_before, insert_after}
use dnstools.Dump.{Pair}
use dnstools.Grinder.Queue.{Event, time, counter_of, queue_loop, average_point, average_loop}
use dnstools.Grinder.Queue.Balance.{IsBalanced}

nonneg_cases : (z : ℤ) → pos 0 ≤ℤ z → (n : ℕ) × (z ≡ pos n)
nonneg_cases (pos n) h = (n, refl)
nonneg_cases (negsuc n) h = absurd (omega arith)

-- The queue behind a list of changes.
abbrev pub final : ℤ → List Event → ℤ
final q [] = q
final q ((k, d) ∷ es) = final (q +ℤ d) es

-- Queries with no answer.
abbrev pub unanswered : List Pair → ℕ
unanswered [] = 0
unanswered ((sent ∷ []) ∷ pairs) = suc (unanswered pairs)
unanswered (_ ∷ pairs) = unanswered pairs

final_shift : (q d : ℤ) (es : List Event) → final (q +ℤ d) es ≡ final q es +ℤ d
final_shift q d [] = refl
final_shift q d ((k, c) ∷ es) =
    let e : q +ℤ d +ℤ c ≡ q +ℤ c +ℤ d = omega int_laws in rw e (final_shift (q +ℤ c) d es)

final-insert :
    (q : ℤ) (e : Event) (es : List Event) → final q (insert time e es) ≡ final q es +ℤ e.1
final-insert q e [] = rw (insert-nil time e)
final-insert q e ((k, c) ∷ es) = elim (Bool-cases (leb_ℤ e.0 k)) [
  | inl h ↦ rw (insert_before time e (k, c) es h) (final_shift q e.1 ((k, c) ∷ es))
  | inr h ↦ rw (insert_after time e (k, c) es h) (final-insert (q +ℤ c) e es)
]

-- Sorting does not change where the queue ends: at the number of queries with no answer.
pub final-unanswered :
    (pairs : List Pair) → final (pos 0) (sorted time (counter_of pairs)) ≡ pos (unanswered pairs)
unfolding counter_of sorted
final-unanswered [] = refl
final-unanswered ([] ∷ pairs) = final-unanswered pairs
final-unanswered ((s ∷ []) ∷ pairs) =
    rw (final-insert (pos 0) (s, pos 1) (sorted time (counter_of pairs)), final-unanswered pairs)
      (omega int_laws)
final-unanswered ((s ∷ r ∷ _) ∷ pairs) =
    rw (final-insert (pos 0) (s, pos 1), final-insert (pos 0) (r, negsuc 0), final-unanswered pairs)
      (omega int_laws)

module _ {ℓ} {F : Type ℓ} ⦃f : Floats F⦄ where
  -- A number of queries in the air, and an average of such numbers.
  abbrev pub IsLevel : Point F → Type ℓ
  IsLevel p = (q : ℕ) × (p.y ≡ Num.int (pos q))

  abbrev pub IsAverage : Point F → Type ℓ
  IsAverage p = (q n : ℕ) × (0 < n) × (p.y ≡ Num.float (f.div (f.of_int (pos q)) (of_nat n)))

  abbrev level_at : ℤ → ℤ → ℤ → ℤ → Point F
  level_at s q k d = record { x = f.div (f.of_int (k -ℤ s)) millisecond; y = Num.int (q +ℤ d) }

  pub queue_loop-IsLevel :
      (s q : ℤ) (es : List Event)
      → IsBalanced q es
      → (ps : List (Point F)) × (queue_loop (some s) q es ≡ ok ps)
        × All IsLevel ps
        × (es ≢ [] → (p : Point F) × (get_last? ps ≡ some p) × (p.y ≡ Num.int (final q es)))
  unfolding queue_loop
  queue_loop-IsLevel s q [] b = ([], refl, tt, λ h. absurd (h refl))
  queue_loop-IsLevel s q ((k, d) ∷ []) b =
      let (n, e) = nonneg_cases (q +ℤ d) b.0 in
      (level_at s q k d ∷ [], refl, ((n, ap Num.int e), tt), λ h. (level_at s q k d, refl, refl))
  queue_loop-IsLevel s q ((k, d) ∷ e2 ∷ es) b =
      let (ps, r, all, end) = queue_loop-IsLevel s (q +ℤ d) (e2 ∷ es) b.1 in
      let (n, e) = nonneg_cases (q +ℤ d) b.0 in
      let (p, last, y) = end (λ h. cc) in
      (
        level_at s q k d ∷ ps,
        rw (r, queue_loop) refl,
        ((n, ap Num.int e), all),
        λ h. (p, get_last?-cons (level_at s q k d) ps last, y),
      )

  pub over_pos : (x : F) (n : ℕ) → 0 < n → over x (pos n) ≡ ok (f.div x (of_nat n))
  over_pos x zero h = absurd (omega arith)
  over_pos x (suc n) h = refl

  -- What `average_loop` returns: averages of queues, and the sum of the queues that are left.
  abbrev pub IsWindow : Result (List (Point F) × ℤ × ℤ) → Type ℓ
  IsWindow r =
      (ps : List (Point F)) × (t q : ℤ) × (r ≡ ok (ps, t, q)) × All IsAverage ps × (pos 0 ≤ℤ q)

  pub average_point-IsAverage :
      (s t q : ℤ) (n : ℕ)
      → 0 < n
      → pos 0 ≤ℤ q
      → (p : Point F) × (average_point (some s) t q n ≡ ok p) × IsAverage p
  unfolding average_point
  average_point-IsAverage s t q n h z =
      let (m, e) = nonneg_cases q z in
      (
        record {
          x = f.div (f.sub (f.div (f.of_int t) (of_nat n)) (f.of_int s)) millisecond;
          y = Num.float (f.div (f.of_int q) (of_nat n));
        },
        rw (over_pos (f.of_int t) n h, over_pos (f.of_int q) n h),
        (m, n, h, ap (λ w. Num.float (f.div (f.of_int w) (of_nat n))) e),
      )

  pub average_loop_full :
      (s : ℤ) (step i : ℕ) (q ts qs k d : ℤ) (es : List Event) {p : Point F} {ps : List (Point F)}
      {t w : ℤ}
      → ((i + 1) % step == 0) ≡ true
      → average_point (some s) (ts +ℤ k) (qs +ℤ (q +ℤ d)) step ≡ ok p
      → average_loop (some s) step (i + 1) (q +ℤ d) (pos 0) (pos 0) es ≡ ok (ps, t, w)
      → average_loop (some s) step i q ts qs ((k, d) ∷ es) ≡ ok (p ∷ ps, t, w)
  unfolding average_loop
  average_loop_full s step i q ts qs k d es e r r' =
      rw (e, average_loop) (rw r (rw (r', average_loop) refl))

  pub average_loop_part :
      (s : ℤ) (step i : ℕ) (q ts qs k d : ℤ) (es : List Event)
      → ((i + 1) % step == 0) ≡ false
      → average_loop {F = F} (some s) step i q ts qs ((k, d) ∷ es)
        ≡ average_loop (some s) step (i + 1) (q +ℤ d) (ts +ℤ k) (qs +ℤ (q +ℤ d)) es
  unfolding average_loop
  average_loop_part s step i q ts qs k d es e = rw (e, average_loop) refl

  pub average_loop-IsWindow :
      (s : ℤ) (step i : ℕ) (q ts qs : ℤ) (es : List Event)
      → 0 < step
      → pos 0 ≤ℤ qs
      → IsBalanced q es
      → IsWindow (average_loop (some s) step i q ts qs es)
  average_loop-IsWindow s step i q ts qs [] h z b = unfold average_loop in ([], ts, qs, refl, tt, z)
  average_loop-IsWindow s step i q ts qs ((k, d) ∷ es) h z b =
      let z' : pos 0 ≤ℤ qs +ℤ (q +ℤ d) = omega (int_laws, b.0) in
      elim (Bool-cases ((i + 1) % step == 0)) [
        | inl e ↦
            let (p, r, avg) = average_point-IsAverage s (ts +ℤ k) (qs +ℤ (q +ℤ d)) step h z' in
            let (ps, t, w, r', all, z'') =
              average_loop-IsWindow s step (i + 1) (q +ℤ d) (pos 0) (pos 0) es h (omega int_laws)
                b.1 in
            (p ∷ ps, t, w, average_loop_full s step i q ts qs k d es e r r', (avg, all), z'')
        | inr e ↦
            rw (average_loop_part s step i q ts qs k d es e)
              (average_loop-IsWindow s step (i + 1) (q +ℤ d) (ts +ℤ k) (qs +ℤ (q +ℤ d)) es h z' b.1)
      ]
