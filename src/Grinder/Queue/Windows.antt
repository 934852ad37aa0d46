-- ===== src/Grinder/Queue/Windows.antt =====
-- The windows that `make_queue` of mig/analyser/grinder.py averages in a long list.
use dnstools.Chart.{Floats, Point}
use dnstools.Prelude.Int.{◌+ℤ◌, ℤ, pos}
use dnstools.Prelude.{
  ltb, ◌==◌, ltb→lt, ltb→ge, ==_iff, Bool-cases, length, take, drop, length-append, Result, ok, ℕ,
  zero, suc, ◌+◌, ◌-◌, ◌*◌, ◌%◌, ◌≤◌, ◌<◌, ◌≡◌, refl, sym, ap, ◌∙◌, subst, ◌≢◌, inl, inr, true,
  false, some, List, [], ◌∷◌, ◌++◌, append-nil, append_assoc, arith,
}
use native.Mathlib.Nat.{add-mul, mul-add-mod_self_right, mul-mod_left, mod-eq_of_lt}
use dnstools.Grinder.Queue.{Event, average_point, average_loop, averages}
use dnstools.Grinder.Queue.Levels.{average_loop_full, average_loop_part}
use dnstools.Grinder.Counts.{last_index_lem}
use dnstools.Grinder.Queue.Means.{
  levels, times_in, queues_in, times_in-snoc, queues_in-snoc, mean_of, IsMeans, average_point-mean,
  average_point-snoc, IsMeans-cons,
}

rest_lem : (step a r : ℕ) → r + 1 < step → (a * step + r + 1) % step ≡ r + 1
rest_lem step a r h =
    ap (λ n. n % step) (omega arith) ∙ mul-add-mod_self_right a step (r + 1) ∙ mod-eq_of_lt h

-- Where a window is full, and where it is not.
full_lem : (step a r : ℕ) → r < step → ((a * step + r + 1) % step == 0) ≡ true → r + 1 ≡ step
full_lem step a r h e = elim (Bool-cases (ltb (r + 1) step)) [
  | inl l ↦
      let m = rest_lem step a r (ltb→lt (r + 1) step l) in
      let z = (==_iff ((a * step + r + 1) % step) 0).0 e in absurd (omega arith)
  | inr l ↦ let g = ltb→ge (r + 1) step l in omega arith
]

part_lem : (step a r : ℕ) → r < step → ((a * step + r + 1) % step == 0) ≡ false → r + 1 < step
part_lem step a r h e = elim (Bool-cases (ltb (r + 1) step)) [
  | inl l ↦ ltb→lt (r + 1) step l
  | inr l ↦
      let g = ltb→ge (r + 1) step l in
      let full : r + 1 ≡ step = omega arith in
      let m : (a * step + r + 1) % step ≡ 0 =
        ap (λ n. n % step) (omega (arith, add-mul a 1 step)) ∙ mul-mod_left (a + 1) step in
      let z = (==_iff ((a * step + r + 1) % step) 0).1 m in cc
]

nil_of_length : (ls : List (ℤ × ℤ)) → length ls ≡ 0 → ls ≡ []
nil_of_length [] h = refl
nil_of_length (l ∷ ls) h = absurd (omega arith)

take_all : (n : ℕ) (ls : List (ℤ × ℤ)) → length ls ≤ n → take n ls ≡ ls
take_all zero [] h = refl
take_all zero (l ∷ ls) h = absurd (omega arith)
take_all (suc n) [] h = refl
take_all (suc n) (l ∷ ls) h = ap (◌∷◌ l) (take_all n ls (omega arith))

drop_all : (n : ℕ) (ls : List (ℤ × ℤ)) → length ls ≤ n → drop n ls ≡ []
drop_all zero [] h = refl
drop_all zero (l ∷ ls) h = absurd (omega arith)
drop_all (suc n) [] h = refl
drop_all (suc n) (l ∷ ls) h = drop_all n ls (omega arith)

module _ {ℓ} {F : Type ℓ} ⦃f : Floats F⦄ where
  -- What `average_loop` returns behind a window `w`: points that are the means of full windows, and
  -- the sums over the window that is left.
  abbrev pub IsWindowed :
      ℤ → ℕ → ℕ → List (ℤ × ℤ) → List (ℤ × ℤ) → Result (List (Point F) × ℤ × ℤ) → Type ℓ
  IsWindowed s step total w ls r =
      (ps : List (Point F)) × (left : List (ℤ × ℤ)) × (a : ℕ) × (r
        ≡ ok (ps, times_in left, queues_in left))
      × (total ≡ a * step + length left)
      × (length left < step)
      × ((tail : List (Point F)) → IsMeans s step left tail → IsMeans s step (w ++ ls) (ps ++ tail))

  average_loop-IsWindowed :
      (s : ℤ) (step i a : ℕ) (q : ℤ) (w : List (ℤ × ℤ)) (es : List Event)
      → i ≡ a * step + length w
      → length w < step
      → IsWindowed s step
          (i + length es)
          w
          (levels q es)
          (average_loop (some s) step i q (times_in w) (queues_in w) es)
  average_loop-IsWindowed s step i a q w [] e h = (
    [],
    w,
    a,
    unfold average_loop in refl,
    omega arith,
    h,
    λ tail m. subst (λ l. IsMeans s step l tail) (sym (append-nil w)) m,
  )
  average_loop-IsWindowed s step i a q w ((k, d) ∷ es) e h =
      let w' = w ++ ((k, q +ℤ d) ∷ []) in
      let longer : length w' ≡ length w + 1 = length-append w ((k, q +ℤ d) ∷ []) in
      let joined : w' ++ levels (q +ℤ d) es ≡ w ++ ((k, q +ℤ d) ∷ levels (q +ℤ d) es) =
        append_assoc w ((k, q +ℤ d) ∷ []) (levels (q +ℤ d) es) in
      let at : i + 1 ≡ a * step + length w + 1 = omega arith in
      elim (Bool-cases ((i + 1) % step == 0)) [
        | inl full ↦
            let len : length w' ≡ step =
              longer ∙ full_lem step a (length w) h (subst (λ n. (n % step == 0) ≡ true) at full) in
            let (ps, left, a', r, total, lt, means) =
              average_loop-IsWindowed s step (i + 1) (a + 1) (q +ℤ d) [] es
                (omega (arith, add-mul a 1 step)) (omega arith) in
            (
              mean_of s w' ∷ ps,
              left,
              a',
              average_loop_full s step i q (times_in w) (queues_in w) k d es full
                  (average_point-snoc s w k (q +ℤ d) step len (omega arith)) r,
              omega arith,
              lt,
              λ tail m.
                  subst (λ l. IsMeans s step l (mean_of s w' ∷ (ps ++ tail))) joined
                    (IsMeans-cons s step w' (levels (q +ℤ d) es) (ps ++ tail) (omega arith) len
                      (means tail m)),
            )
        | inr part ↦
            let (ps, left, a', r, total, lt, means) =
              average_loop-IsWindowed s step (i + 1) a (q +ℤ d) w' es (omega arith) (
                subst (λ n. n < step) (sym longer)
                  (part_lem step a (length w) h (subst (λ n. (n % step == 0) ≡ false) at part))) in
            (
              ps,
              left,
              a',
              average_loop_part s step i q (times_in w) (queues_in w) k d es part
                  ∙ ap
                      (λ t.
                        average_loop (some s) step (i + 1) (q +ℤ d) t (queues_in w +ℤ (q +ℤ d)) es)
                      (sym (times_in-snoc w k (q +ℤ d)))
                  ∙ ap (λ u. average_loop (some s) step (i + 1) (q +ℤ d) (times_in w') u es)
                      (sym (queues_in-snoc w k (q +ℤ d)))
                  ∙ r,
              omega arith,
              lt,
              λ tail m. subst (λ l. IsMeans s step l (ps ++ tail)) joined (means tail m),
            )
      ]

  IsMeans-last :
      (s : ℤ) (step : ℕ) (ls : List (ℤ × ℤ))
      → length ls < step
      → ls ≢ []
      → IsMeans {F = F} s step ls (mean_of s ls ∷ [])
  IsMeans-last s step ls h n = (
    n,
    ap (mean_of s) (sym (take_all step ls (omega arith))),
    record { lower = drop_all step ls (omega arith) },
  )

  pub averages-IsMeans :
      (s : ℤ) (step : ℕ) (es : List Event)
      → 0 < step
      → 0 < length es
      → (ps : List (Point F)) × (averages (some s) step es ≡ ok ps)
        × IsMeans s step (levels (pos 0) es) ps
  averages-IsMeans s step es h ne =
      let (ps, left, a, r, total, lt, means) =
        average_loop-IsWindowed s step 0 0 (pos 0) [] es (omega arith) h in
      let n = (length es - 1 + 1) % step in
      let rest : n ≡ length left =
        ap (λ m. m % step) (omega arith)
        ∙ mul-add-mod_self_right a step (length left)
        ∙ mod-eq_of_lt lt in
      elim (Bool-cases (n == 0)) [
        | inl e ↦
            let z = (==_iff n 0).0 e in
            (
              ps ++ [],
              unfold averages in rw (r, last_index_lem es ne, e) refl,
              means [] (record { lower = nil_of_length left (omega arith) }),
            )
        | inr e ↦
            let some_left : 0 < length left = ground (arith, rest, e) in
            let p =
              subst
                (λ m.
                  average_point {F = F} (some s) (times_in left) (queues_in left) m
                  ≡ ok (mean_of s left))
                (sym rest) (average_point-mean s left some_left) in
            (
              ps ++ (mean_of s left ∷ []),
              unfold averages in rw (r, last_index_lem es ne, e) (rw p refl),
              means (mean_of s left ∷ [])
                  (IsMeans-last s step left lt (λ m. let z = ap length m in absurd (omega arith))),
            )
      ]
