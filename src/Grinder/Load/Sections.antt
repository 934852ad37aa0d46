-- ===== src/Grinder/Load/Sections.antt =====
-- What `load` of mig/analyser/grinder.py reads from a file with both kinds of times, in order.
use dnstools.Chart.{Text, codes}
use dnstools.Prelude.{
  All, Result, ok, ◌≡◌, refl, sym, ap, ◌∙◌, subst, false, none, some, List, [], ◌∷◌, ◌++◌,
  append-nil, append_assoc,
}
use dnstools.Prelude.Int.{ℤ}
use dnstools.Prelude.Sort.{IsSorted, self}
use dnstools.Grinder.Load.Order.{not-later_than}
use dnstools.Grinder.Load.{
  Loaded, enumerate_sends, enumerate_receives, later_than, next_send, next_receive, is_zero,
  sends_line, receives_line, process, process_lines, load,
}
use dnstools.Strings.{strip, lower, int_of}

-- The lines are those of the numbers.
abbrev pub Prints : List Text → List ℤ → Type 0
Prints [] [] = Unit
Prints (line ∷ lines) (t ∷ ts) = (int_of (lower (strip line)) ≡ some t) × Prints lines ts
Prints [] (t ∷ ts) = ⊥
Prints (line ∷ lines) [] = ⊥

module _ {ℓ} {J : Type ℓ} where
  process-send :
      (loads : Text → Result J) (line : Text) (t : ℤ) (s : Loaded J)
      → int_of line ≡ some t
      → later_than s.sends t ≡ none
      → process loads enumerate_sends line s
        ≡ ok (enumerate_sends, record s { sends = s.sends ++ (t ∷ []) })
  unfolding process sends_line
  process-send loads line t s h l = rw (h, sends_line) (rw (l, next_send) refl)

  process-receive :
      (loads : Text → Result J) (line : Text) (t : ℤ) (s : Loaded J)
      → int_of line ≡ some t
      → is_zero t ≡ false
      → later_than s.receives t ≡ none
      → process loads enumerate_receives line s
        ≡ ok (enumerate_receives, record s { receives = s.receives ++ (t ∷ []) })
  unfolding process receives_line
  process-receive loads line t s h z l = rw (h, receives_line) (rw z (rw (l, next_receive) refl))

  lines-sends :
      (loads : Text → Result J) (lines : List Text) (ts : List ℤ) (more : List Text) (s : Loaded J)
      → Prints lines ts
      → IsSorted self (s.sends ++ ts)
      → process_lines loads enumerate_sends (lines ++ more) s
        ≡ process_lines loads enumerate_sends more (record s { sends = s.sends ++ ts })
  unfolding process_lines
  lines-sends loads [] [] more s p o = rw (append-nil s.sends) refl
  lines-sends loads [] (t ∷ ts) more s p o = absurd p
  lines-sends loads (line ∷ lines) [] more s p o = absurd p
  lines-sends loads (line ∷ lines) (t ∷ ts) more s p o =
      let a = append_assoc s.sends (t ∷ []) ts in
      let s' : Loaded J = record s { sends = s.sends ++ (t ∷ []) } in
      let step = process-send loads (lower (strip line)) t s p.0 (not-later_than s.sends t ts o) in
      let rest = lines-sends loads lines ts more s' p.1 (subst (IsSorted self) (sym a) o) in
      rw (step)
        (rest ∙ ap (λ l. process_lines loads enumerate_sends more (record s { sends = l })) a)

  lines-receives :
      (loads : Text → Result J) (lines : List Text) (ts : List ℤ) (more : List Text) (s : Loaded J)
      → Prints lines ts
      → All (λ t. is_zero t ≡ false) ts
      → IsSorted self (s.receives ++ ts)
      → process_lines loads enumerate_receives (lines ++ more) s
        ≡ process_lines loads enumerate_receives more (record s { receives = s.receives ++ ts })
  unfolding process_lines
  lines-receives loads [] [] more s p z o = rw (append-nil s.receives) refl
  lines-receives loads [] (t ∷ ts) more s p z o = absurd p
  lines-receives loads (line ∷ lines) [] more s p z o = absurd p
  lines-receives loads (line ∷ lines) (t ∷ ts) more s p z o =
      let a = append_assoc s.receives (t ∷ []) ts in
      let s' : Loaded J = record s { receives = s.receives ++ (t ∷ []) } in
      let step =
        process-receive loads (lower (strip line)) t s p.0 z.0 (not-later_than s.receives t ts o) in
      let rest = lines-receives loads lines ts more s' p.1 z.1 (subst (IsSorted self) (sym a) o) in
      rw (step)
        (rest ∙ ap (λ l. process_lines loads enumerate_receives more (record s { receives = l })) a)

  -- A file with a section of sending times and a section of receiving times, a blank line between
  -- them, is read as those times, where both lists are in order and no receiving time is 0.
  pub load-sections :
      (loads : Text → Result J) (sends receives : List Text) (ts rs : List ℤ)
      → Prints sends ts
      → Prints receives rs
      → IsSorted self ts
      → IsSorted self rs
      → All (λ t. is_zero t ≡ false) rs
      → load loads (codes "sends:" ∷ sends ++ ([] ∷ codes "receives:" ∷ receives))
        ≡ ok record { sends = ts; receives = rs; pairs = []; fits_sends = []; fits_receives = [] }
  unfolding load
  load-sections loads sends receives ts rs p q o u z =
      let s : Loaded J = record {
        sends = [];
        receives = [];
        pairs = [];
        fits_sends = [];
        fits_receives = [];
      } in
      let e = append-nil receives in
      let a = lines-sends loads sends ts ([] ∷ codes "receives:" ∷ receives) s p o in
      let b = lines-receives loads receives rs [] (record s { sends = ts }) q z u in
      a
      ∙ subst
          (λ l.
            process_lines loads enumerate_receives l (record s { sends = ts })
            ≡ ok (record s { sends = ts; receives = rs }))
          e b
