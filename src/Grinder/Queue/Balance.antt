-- ===== src/Grinder/Queue/Balance.antt =====
-- The queue never goes below zero, if no answer comes before its query.

use dnstools.Prelude.Int.{◌+ℤ◌, ◌≤ℤ◌, leb_ℤ, le→leb_ℤ, ℤ, int_laws, pos, negsuc}
use dnstools.Prelude.{Bool-cases, ◌≡◌, subst, inl, inr, List, [], ◌∷◌}
use dnstools.Prelude.Sort.{insert-nil, insert_before, insert_after, sorted, insert}
use dnstools.Dump.{Pair}
use dnstools.Grinder.Queue.{Event, time, counter_of}

-- Every running sum of the changes, from a queue of `q`, is at least zero.
abbrev pub IsBalanced : ℤ → List Event → Type 0
IsBalanced q [] = Unit
IsBalanced q ((k, d) ∷ es) = (pos 0 ≤ℤ q +ℤ d) × IsBalanced (q +ℤ d) es

-- No answer comes before its query.
abbrev pub IsCausal : List Pair → Type 0
IsCausal [] = Unit
IsCausal ((sent ∷ received ∷ _) ∷ pairs) = (sent ≤ℤ received) × IsCausal pairs
IsCausal (_ ∷ pairs) = IsCausal pairs

IsBalanced-eq : {p q : ℤ} (es : List Event) → p ≡ q → IsBalanced p es → IsBalanced q es
IsBalanced-eq es e h = subst (λ z. IsBalanced z es) e h

raise-IsBalanced : (q : ℤ) (es : List Event) → IsBalanced q es → IsBalanced (q +ℤ pos 1) es
raise-IsBalanced q [] b = tt
raise-IsBalanced q ((k, d) ∷ es) b =
    (omega (int_laws, b.0), IsBalanced-eq es (omega int_laws) (raise-IsBalanced (q +ℤ d) es b.1))

insert_query-IsBalanced :
    (q s : ℤ) (es : List Event)
    → pos 0 ≤ℤ q
    → IsBalanced q es
    → IsBalanced q (insert time (s, pos 1) es)
insert_query-IsBalanced q s [] h b = unfold insert in (omega int_laws, tt)
insert_query-IsBalanced q s ((k, d) ∷ es) h b = elim (Bool-cases (leb_ℤ s k)) [
  | inl e ↦
      rw (insert_before time (s, pos 1) (k, d) es e)
        (omega int_laws, raise-IsBalanced q ((k, d) ∷ es) b)
  | inr e ↦
      rw (insert_after time (s, pos 1) (k, d) es e)
        (b.0, insert_query-IsBalanced (q +ℤ d) s es b.0 b.1)
]

insert_answer-IsBalanced :
    (q r : ℤ) (es : List Event)
    → pos 0 ≤ℤ q
    → IsBalanced q es
    → IsBalanced (q +ℤ pos 1) (insert time (r, negsuc 0) es)
unfolding insert
insert_answer-IsBalanced q r [] h b = (omega int_laws, tt)
insert_answer-IsBalanced q r ((k, d) ∷ es) h b = elim (Bool-cases (leb_ℤ r k)) [
  | inl e ↦ rw (e, insert) (omega int_laws, IsBalanced-eq ((k, d) ∷ es) (omega int_laws) b)
  | inr e ↦
      rw (e, insert)
        (
          omega int_laws,
          IsBalanced-eq (insert time (r, negsuc 0) es) (omega int_laws)
              (insert_answer-IsBalanced (q +ℤ d) r es b.0 b.1),
        )
]

insert_both-IsBalanced :
    (q s r : ℤ) (es : List Event)
    → s ≤ℤ r
    → pos 0 ≤ℤ q
    → IsBalanced q es
    → IsBalanced q (insert time (s, pos 1) (insert time (r, negsuc 0) es))
insert_both-IsBalanced q s r [] c h b =
    rw
      (
        insert-nil time (r, negsuc 0),
        insert_before time (s, pos 1) (r, negsuc 0) [] (le→leb_ℤ s r c),
      )
      (omega int_laws, (omega int_laws, tt))
insert_both-IsBalanced q s r ((k, d) ∷ es) c h b = elim (Bool-cases (leb_ℤ r k)) [
  | inl e ↦ rw (insert_before time (r, negsuc 0) (k, d) es e) (
      rw (insert_before time (s, pos 1) (r, negsuc 0) ((k, d) ∷ es) (le→leb_ℤ s r c))
        (omega int_laws, (omega int_laws, IsBalanced-eq ((k, d) ∷ es) (omega int_laws) b)))
  | inr e ↦ rw (insert_after time (r, negsuc 0) (k, d) es e) (elim (Bool-cases (leb_ℤ s k)) [
    | inl e' ↦ rw (insert_before time (s, pos 1) (k, d) (insert time (r, negsuc 0) es) e') (
      omega int_laws,
      subst (λ l. IsBalanced (q +ℤ pos 1) l) (insert_after time (r, negsuc 0) (k, d) es e)
          (insert_answer-IsBalanced q r ((k, d) ∷ es) h b),
    )
    | inr e' ↦
        rw (insert_after time (s, pos 1) (k, d) (insert time (r, negsuc 0) es) e')
          (b.0, insert_both-IsBalanced (q +ℤ d) s r es c b.0 b.1)
  ])
]

-- Sorted by time, with the queries in front of the answers of the same time as `counter` has them,
-- the changes of pairs in order are balanced.
pub sorted-IsBalanced :
    (pairs : List Pair) → IsCausal pairs → IsBalanced (pos 0) (sorted time (counter_of pairs))
unfolding sorted counter_of
sorted-IsBalanced [] c = tt
sorted-IsBalanced ([] ∷ pairs) c = sorted-IsBalanced pairs c
sorted-IsBalanced ((s ∷ []) ∷ pairs) c =
    insert_query-IsBalanced (pos 0) s _ (omega int_laws) (sorted-IsBalanced pairs c)
sorted-IsBalanced ((s ∷ r ∷ _) ∷ pairs) c =
    insert_both-IsBalanced (pos 0) s r _ c.0 (omega int_laws) (sorted-IsBalanced pairs c.1)
