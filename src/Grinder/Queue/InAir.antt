-- ===== src/Grinder/Queue/InAir.antt =====
-- The chart of `make_queue` against what it stands for: the queries in the air at a time.
use dnstools.Chart.{Text, series, millisecond, fit_points, Floats, Num, Point}
use dnstools.Prelude.{
  if◌then◌else◌, le→leb, gt→leb, Bool-cases, length, ok, ℕ, ◌+◌, ◌/◌, ◌≤◌, ◌≡◌, refl, sym, ap, ◌∙◌,
  Lift, inl, inr, false, some, List, [], ◌∷◌, arith,
}
use dnstools.Prelude.Int.{
  pos_part, neg_part, ◌+ℤ◌, ◌-ℤ◌, ◌≤ℤ◌, ◌<ℤ◌, leb_ℤ, leb_ℤ→gt, le→leb_ℤ, ℤ, int_laws, pos,
}
use dnstools.Prelude.Sort.{
  insert-nil, insert_before, insert_after, sorted, insert, IsSorted, sorted-IsSorted, tail-IsSorted,
}
use dnstools.Dump.{Pair}
use dnstools.Grinder.Queue.{Event, time, counter_of, queue_loop, make_queue}
use dnstools.Grinder.Queue.Balance.{IsCausal}

-- A query is in the air at time `t` if it has been sent by then, and its answer has not come.
abbrev pub in_air : ℤ → List Pair → ℕ
in_air t [] = 0
in_air t ([] ∷ pairs) = in_air t pairs
in_air t ((sent ∷ []) ∷ pairs) = (if leb_ℤ sent t then 1 else 0) + in_air t pairs
in_air t ((sent ∷ received ∷ _) ∷ pairs) =
    (if leb_ℤ sent t then (if leb_ℤ received t then 0 else 1) else 0) + in_air t pairs

-- The sum of the changes up to time `t`.
upto : ℤ → List Event → ℤ
upto t [] = pos 0
upto t ((k, d) ∷ es) = (if leb_ℤ k t then d else pos 0) +ℤ upto t es

upto-insert : (t : ℤ) (e : Event) (es : List Event) → upto t (insert time e es) ≡ upto t (e ∷ es)
unfolding upto
upto-insert t e [] = ap (upto t) (insert-nil time e)
upto-insert t (a, b) ((k, d) ∷ es) = elim (Bool-cases (leb_ℤ a k)) [
  | inl h ↦ ap (upto t) (insert_before time (a, b) (k, d) es h)
  | inr h ↦
      ap (upto t) (insert_after time (a, b) (k, d) es h)
      ∙ omega
          (int_laws, ap pos_part (upto-insert t (a, b) es), ap neg_part (upto-insert t (a, b) es))
]

upto-sorted : (t : ℤ) (es : List Event) → upto t (sorted time es) ≡ upto t es
unfolding upto sorted
upto-sorted t [] = refl
upto-sorted t ((a, b) ∷ es) =
    upto-insert t (a, b) (sorted time es)
    ∙ ap (λ z. (if leb_ℤ a t then b else pos 0) +ℤ z) (upto-sorted t es)

upto-counter_of :
    (t : ℤ) (pairs : List Pair) → IsCausal pairs → upto t (counter_of pairs) ≡ pos (in_air t pairs)
unfolding upto counter_of
upto-counter_of t [] c = refl
upto-counter_of t ([] ∷ pairs) c = upto-counter_of t pairs c
upto-counter_of t ((s ∷ []) ∷ pairs) c = elim (Bool-cases (leb_ℤ s t)) [
  | inl h ↦ rw (h, upto-counter_of t pairs c) (omega int_laws)
  | inr h ↦ rw (h, upto-counter_of t pairs c) (omega int_laws)
]
upto-counter_of t ((s ∷ r ∷ _) ∷ pairs) c = elim (Bool-cases (leb_ℤ s t)) [
  | inl h ↦ elim (Bool-cases (leb_ℤ r t)) [
    | inl k ↦ rw (h, k, upto-counter_of t pairs c.1) (omega int_laws)
    | inr k ↦ rw (h, k, upto-counter_of t pairs c.1) (omega int_laws)
  ]
  | inr h ↦
      let k : leb_ℤ r t ≡ false =
        let g = leb_ℤ→gt s t h in let o = c.0 in gt→leb _ _ (omega arith) in
      rw (h, k, upto-counter_of t pairs c.1) (omega int_laws)
]

-- The next change comes later than `t`.
abbrev pub IsLast : ℤ → List Event → Type 0
IsLast t [] = Unit
IsLast t ((k, d) ∷ es) = t <ℤ k

upto_later :
    (t k : ℤ) (es : List Event) (d : ℤ)
    → t <ℤ k
    → IsSorted time ((k, d) ∷ es)
    → upto t ((k, d) ∷ es) ≡ pos 0
unfolding upto
upto_later t k [] d l s = rw (gt→leb _ _ l) (omega int_laws)
upto_later t k ((k', d') ∷ es) d l s =
    let o = s.0 in
    let r = upto_later t k' es d' (omega arith) s.1 in
    rw (gt→leb _ _ l) (ap (λ z. pos 0 +ℤ z) r ∙ omega int_laws)

upto-IsLast : (t : ℤ) (es : List Event) → IsLast t es → IsSorted time es → upto t es ≡ pos 0
upto-IsLast t [] l s = unfold upto in refl
upto-IsLast t ((k, d) ∷ es) l s = upto_later t k es d l s

upto-cons : (t k d : ℤ) (es : List Event) → k ≤ℤ t → upto t ((k, d) ∷ es) ≡ d +ℤ upto t es
upto-cons t k d es h = unfold upto in rw (le→leb_ℤ k t h) refl

-- There is a change, and the time of the first one is at most `t`.
abbrev IsFrom : ℤ → List Event → Type 0
IsFrom t [] = ⊥
IsFrom t ((k, d) ∷ es) = k ≤ℤ t

IsFrom-tail : (t k d : ℤ) (es : List Event) → IsSorted time ((k, d) ∷ es) → IsFrom t es → k ≤ℤ t
IsFrom-tail t k d [] s h = absurd h
IsFrom-tail t k d ((k', d') ∷ es) s h = let o = s.0 in omega arith

add_assoc_ℤ : (a b c : ℤ) → (a +ℤ b) +ℤ c ≡ a +ℤ (b +ℤ c)
add_assoc_ℤ a b c = omega int_laws

zero-add_ℤ : (a : ℤ) → pos 0 +ℤ a ≡ a
zero-add_ℤ a = omega int_laws

module _ {ℓ} {F : Type ℓ} ⦃f : Floats F⦄ where
  -- One point for each change, at its time after the start; behind the last change of a time the
  -- point is the number of queries in the air at that time.
  abbrev pub IsChart : ℤ → List Pair → List Event → List (Point F) → Type ℓ
  IsChart s pairs [] [] = Unit
  IsChart s pairs ((k, d) ∷ es) (p ∷ ps) =
      (p.x ≡ f.div (f.of_int (k -ℤ s)) millisecond)
      × (IsLast k es → p.y ≡ Num.int (pos (in_air k pairs)))
      × IsChart s pairs es ps
  IsChart s pairs [] (p ∷ ps) = Lift ⊥
  IsChart s pairs (e ∷ es) [] = Lift ⊥

  queue_loop-IsChart :
      (s q : ℤ) (pairs : List Pair) (es : List Event)
      → IsSorted time es
      → ((t : ℤ) → IsFrom t es → q +ℤ upto t es ≡ pos (in_air t pairs))
      → (ps : List (Point F)) × (queue_loop (some s) q es ≡ ok ps) × IsChart s pairs es ps
  unfolding queue_loop
  queue_loop-IsChart s q pairs [] o h = ([], refl, tt)
  queue_loop-IsChart s q pairs ((k, d) ∷ es) o h =
      let later : (t : ℤ) → IsFrom t es → (q +ℤ d) +ℤ upto t es ≡ pos (in_air t pairs) = λ t from.
        let le = IsFrom-tail t k d es o from in
        let e = upto-cons t k d es le in
        add_assoc_ℤ q d (upto t es) ∙ ap (λ z. q +ℤ z) (sym e) ∙ h t le in
      let (ps, r, chart) =
        queue_loop-IsChart s (q +ℤ d) pairs es (tail-IsSorted time (k, d) es o) later in
      (
        record { x = f.div (f.of_int (k -ℤ s)) millisecond; y = Num.int (q +ℤ d) } ∷ ps,
        rw (r, queue_loop) refl,
        (
          refl,
          λ l.
              let here : k ≤ℤ k = omega arith in
              let none = upto-IsLast k es l (tail-IsSorted time (k, d) es o) in
              let e : q +ℤ d ≡ q +ℤ (d +ℤ pos 0) = omega int_laws in
              ap Num.int (
                e
                ∙ ap (λ z. q +ℤ (d +ℤ z)) (sym none)
                ∙ ap (λ z. q +ℤ z) (sym (upto-cons k k d es here))
                ∙ h k here),
          chart,
        ),
      )

module _ {ℓ} (F : Type ℓ) ⦃f : Floats F⦄ where
  -- The chart of a short list of pairs, in none of which the answer comes before the query, has one
  -- point for each sending and each answer, in the order of their times. A point stands at its time
  -- after the start. The last point of a time says how many queries are in the air at that time:
  -- sent by then, and not answered by then.
  pub make_queue-IsChart :
      (pairs : List Pair) (name : Text) (s : ℤ) (color : Text)
      → IsCausal pairs
      → length pairs / fit_points ≤ 1
      → (ps : List (Point F)) × (make_queue pairs name (some s) color ≡ ok (series ps name color))
        × IsChart s pairs (sorted time (counter_of pairs)) ps
  make_queue-IsChart pairs name s color c h =
      let es = counter_of pairs in
      let (ps, r, chart) =
        queue_loop-IsChart s (pos 0) pairs (sorted time es) (sorted-IsSorted time es) (λ t from.
          zero-add_ℤ (upto t (sorted time es)) ∙ upto-sorted t es ∙ upto-counter_of t pairs c) in
      (ps, unfold make_queue in rw (le→leb (length pairs / fit_points) 1 h) (rw r), chart)
