-- ===== src/Grinder/Load/Order.antt =====
-- What `load` of mig/analyser/grinder.py makes of any file, and of a file in the format that MIG writes.
use dnstools.Chart.{Text, codes}
use dnstools.Prelude.{
  Bool-cases, Option-cases, All, All-append, >>=-eq-ok, Result-cases, ok-injective, Error, Result,
  ok, err, ◌≡◌, refl, subst, ◌⊎◌, inl, inr, true, false, Option, none, some, List, [], ◌∷◌, ◌++◌,
  arith,
}
use dnstools.Prelude.Int.{ltb_ℤ, ltb_ℤ→lt, ltb_ℤ→ge, ℤ}
use dnstools.Prelude.Sort.{IsSorted, self}
use dnstools.Grinder.Load.{
  Loaded, Processor, find_section, enumerate_sends, enumerate_receives, enumerate_pairs,
  enumerate_fits, later_than, next_send, next_receive, is_zero, sends_line, receives_line,
  pairs_line, fits_line, process, process_lines, load, add_fit, has_fits, add_pair, pair_fields,
  fit_json, fit_rest,
}
use dnstools.Strings.{same, split, split_once, strip, lower, int_of, comma, colon}

later_than_last :
    (xs : List ℤ) (t : ℤ)
    → later_than xs t ≡ none
    → IsSorted self xs
    → IsSorted self (xs ++ (t ∷ []))
later_than_last [] t h s = tt
later_than_last (x ∷ []) t h s = elim (Bool-cases (ltb_ℤ t x)) [
  | inl e ↦ let q : later_than (x ∷ []) t ≡ some x = rw e refl in absurd cc
  | inr e ↦ (ltb_ℤ→ge t x e, tt)
]
later_than_last (x ∷ y ∷ xs) t h s = (s.0, later_than_last (y ∷ xs) t h s.1)

pub not-later_than :
    (xs : List ℤ) (t : ℤ) (ts : List ℤ) → IsSorted self (xs ++ (t ∷ ts)) → later_than xs t ≡ none
not-later_than [] t ts s = refl
not-later_than (x ∷ []) t ts s = elim (Bool-cases (ltb_ℤ t x)) [
  | inl e ↦ let l = ltb_ℤ→lt t x e in let g = s.0 in absurd (omega arith)
  | inr e ↦ rw e refl
]
not-later_than (x ∷ y ∷ xs) t ts s = not-later_than (y ∷ xs) t ts s.1

-- The timestamps of the messages are in order, and no receiving time is the end mark 0.
abbrev pub IsOrdered {ℓ} : {J : Type ℓ} → Loaded J → Type 0
IsOrdered s =
    IsSorted self s.sends × IsSorted self s.receives × All (λ t. is_zero t ≡ false) s.receives

-- What a step that is carried out leaves.
abbrev pub IsKept {ℓ} : {J : Type ℓ} → Result (Processor × Loaded J) → Type 0
IsKept (ok (p, s)) = IsOrdered s
IsKept (err e) = Unit

module _ {ℓ} {J : Type ℓ} where
  sends_line_send :
      (line : Text) (s : Loaded J) (t : ℤ)
      → int_of line ≡ some t
      → sends_line line s ≡ next_send t s
  unfolding sends_line
  sends_line_send line s t h = rw (h, sends_line) refl

  sends_line_end :
      (line : Text) (s : Loaded J) → int_of line ≡ none → sends_line line s ≡ ok (find_section, s)
  unfolding sends_line
  sends_line_end line s h = rw (h, sends_line) refl

  receives_line_receive :
      (line : Text) (s : Loaded J) (t : ℤ)
      → int_of line ≡ some t
      → is_zero t ≡ false
      → receives_line line s ≡ next_receive t s
  unfolding receives_line
  receives_line_receive line s t h z = rw (h, receives_line) (rw z refl)

  receives_line_zero :
      (line : Text) (s : Loaded J) (t : ℤ)
      → int_of line ≡ some t
      → is_zero t ≡ true
      → receives_line line s ≡ ok (find_section, s)
  unfolding receives_line
  receives_line_zero line s t h z = rw (h, receives_line) (rw z refl)

  receives_line_end :
      (line : Text) (s : Loaded J)
      → int_of line ≡ none
      → receives_line line s ≡ ok (find_section, s)
  unfolding receives_line
  receives_line_end line s h = rw (h, receives_line) refl

  next_send-IsKept : (t : ℤ) (s : Loaded J) → IsOrdered s → IsKept (next_send t s)
  next_send-IsKept t s o = elim (Option-cases (later_than s.sends t)) [
    | inr e ↦ rw (e.1, IsKept) tt
    | inl e ↦ rw (e, IsKept) (later_than_last s.sends t e o.0, o.1, o.2)
  ]

  next_receive-IsKept :
      (t : ℤ) (s : Loaded J) → is_zero t ≡ false → IsOrdered s → IsKept (next_receive t s)
  next_receive-IsKept t s z o = elim (Option-cases (later_than s.receives t)) [
    | inr e ↦ rw (e.1, IsKept) tt
    | inl e ↦
        rw (e, IsKept)
          (
            o.0,
            later_than_last s.receives t e o.1,
            All-append (λ x. is_zero x ≡ false) s.receives (t ∷ []) o.2 (z, tt),
          )
  ]

  sends_line-IsKept : (line : Text) (s : Loaded J) → IsOrdered s → IsKept (sends_line line s)
  sends_line-IsKept line s o = elim (Option-cases (int_of line)) [
    | inr e ↦ rw (sends_line_send line s e.0 e.1) (next_send-IsKept e.0 s o)
    | inl e ↦ rw (sends_line_end line s e) o
  ]

  receives_line-IsKept : (line : Text) (s : Loaded J) → IsOrdered s → IsKept (receives_line line s)
  receives_line-IsKept line s o = elim (Option-cases (int_of line)) [
    | inr e ↦ elim (Bool-cases (is_zero e.0)) [
      | inl z ↦ rw (receives_line_zero line s e.0 e.1 z) o
      | inr z ↦ rw (receives_line_receive line s e.0 e.1 z) (next_receive-IsKept e.0 s z o)
    ]
    | inl e ↦ rw (receives_line_end line s e) o
  ]

  add_pair-IsKept : (d : Option ℤ) (s : Loaded J) → IsOrdered s → IsKept (add_pair d s)
  add_pair-IsKept none s o = tt
  add_pair-IsKept (some d) s o = o

  pair_fields-IsKept :
      (fields : List Text) (s : Loaded J) → IsOrdered s → IsKept (pair_fields fields s)
  unfolding pair_fields
  pair_fields-IsKept [] s o = o
  pair_fields-IsKept (a ∷ []) s o = o
  pair_fields-IsKept (a ∷ b ∷ []) s o = o
  pair_fields-IsKept (a ∷ b ∷ c ∷ fields) s o = add_pair-IsKept (int_of (strip c)) s o

  add_fit-IsKept :
      (name : Text) (j : J) (s : Loaded J) → IsOrdered s → IsKept (ok (add_fit name j s))
  unfolding add_fit
  add_fit-IsKept name j s o = elim (Bool-cases (same name (codes "sends"))) [
    | inl e ↦ rw e o
    | inr e ↦ rw e o
  ]

  fit_json-IsKept :
      (name : Text) (j : Result J) (s : Loaded J) → IsOrdered s → IsKept (fit_json name j s)
  fit_json-IsKept name (ok j) s o = add_fit-IsKept name j s o
  fit_json-IsKept name (err e) s o = tt

  fit_rest-IsKept :
      (loads : Text → Result J) (name : Text) (rest : Option Text) (s : Loaded J)
      → IsOrdered s
      → IsKept (fit_rest loads name rest s)
  unfolding fit_rest
  fit_rest-IsKept loads name none s o = o
  fit_rest-IsKept loads name (some rest) s o = elim (Bool-cases (has_fits name)) [
    | inl e ↦ rw e (fit_json-IsKept name (loads (codes "[" ++ strip rest ++ codes "]")) s o)
    | inr e ↦ rw e o
  ]

  process-IsKept :
      (loads : Text → Result J) (p : Processor) (line : Text) (s : Loaded J)
      → IsOrdered s
      → IsKept (process loads p line s)
  unfolding process pairs_line fits_line
  process-IsKept loads find_section line s o = o
  process-IsKept loads enumerate_sends line s o = sends_line-IsKept line s o
  process-IsKept loads enumerate_receives line s o = receives_line-IsKept line s o
  process-IsKept loads enumerate_pairs line s o = pair_fields-IsKept (split comma line) s o
  process-IsKept loads enumerate_fits line s o =
      fit_rest-IsKept loads (split_once colon line).0 (split_once colon line).1 s o

  process_lines-IsOrdered :
      (loads : Text → Result J) (p : Processor) (lines : List Text) (s s' : Loaded J)
      → IsOrdered s
      → process_lines loads p lines s ≡ ok s'
      → IsOrdered s'
  unfolding process_lines
  process_lines-IsOrdered loads p [] s s' o h = subst IsOrdered (ok-injective h) o
  process_lines-IsOrdered loads p (line ∷ lines) s s' o h =
      let ((q, t), step, rest) = >>=-eq-ok (process loads p (lower (strip line)) s) _ h in
      process_lines-IsOrdered loads q lines t s'
        (subst IsKept step (process-IsKept loads p (lower (strip line)) s o)) rest

  -- Whatever the lines are, `load` raises, or it returns sending and receiving times that are in
  -- order, with no receiving time 0.
  pub load-IsOrdered :
      (loads : Text → Result J) (lines : List Text)
      → ((e : Error) × (load loads lines ≡ err e))
        ⊎ ((s : Loaded J) × (load loads lines ≡ ok s) × IsOrdered s)
  unfolding load
  load-IsOrdered loads lines = elim (Result-cases (load loads lines)) [
    | inl r ↦
        inr (r.0, r.1, process_lines-IsOrdered loads find_section lines _ r.0 (tt, tt, tt) r.1)
    | inr r ↦ inl r
  ]
