-- ===== src/Grinder/Main/Points.antt =====
-- The sort of points by their place in a chart of rates, of mig/analyser/grinder.py.
use dnstools.Chart.{num_le, known, Floats, Num}
use dnstools.Prelude.{Bool-cases, All, ◌≡◌, sym, subst, inl, inr, true, false, List, [], ◌∷◌}
use mathlib.Core.List.{Perm}
use mathlib.Core.List.Perm
use dnstools.Grinder.Report.{RatePoint}
use dnstools.Grinder.Main.{insert_point, sort_points}

-- What the proof uses of floats: two of them are in one order or the other, if each is no larger than
-- itself. NaN is not.
abbrev pub IsOrdered {ℓ} : (F : Type ℓ) ⦃f : Floats F⦄ → Type ℓ
IsOrdered F ⦃f⦄ = (x y : F) → f.le x x ≡ true → f.le y y ≡ true → f.le x y ≡ false → f.le y x ≡ true

module _ {ℓ} {F : Type ℓ} ⦃f : Floats F⦄ where
  insert_point-perm :
      (p : RatePoint F) (ps : List (RatePoint F)) → Perm (insert_point p ps) (p ∷ ps)
  unfolding insert_point
  insert_point-perm p [] = Perm.rfl
  insert_point-perm p (q ∷ qs) = elim (Bool-cases (num_le p.x q.x)) [
    | inl e ↦ rw (e, insert_point) Perm.rfl
    | inr e ↦
        rw (e, insert_point) (Perm.trans (Perm.cons q (insert_point-perm p qs)) (Perm.swap p q qs))
  ]

  pub sort_points-perm : (ps : List (RatePoint F)) → Perm (sort_points ps) ps
  unfolding sort_points
  sort_points-perm [] = Perm.rfl
  sort_points-perm (p ∷ ps) =
      Perm.trans (insert_point-perm p (sort_points ps)) (Perm.cons p (sort_points-perm ps))

  -- The points go from left to right.
  abbrev pub IsAscending : List (RatePoint F) → Type 0
  IsAscending [] = Unit
  IsAscending (p ∷ []) = Unit
  IsAscending (p ∷ q ∷ qs) = (num_le p.x q.x ≡ true) × IsAscending (q ∷ qs)

  HeadRight : Num F → List (RatePoint F) → Type 0
  HeadRight x [] = Unit
  HeadRight x (p ∷ ps) = num_le x p.x ≡ true

  -- The points stand at floats, none of which is NaN.
  abbrev pub IsKnown : RatePoint F → Type ℓ
  IsKnown p = (x : F) × (p.x ≡ Num.float x) × (f.le x x ≡ true)

module _ {ℓ} {F : Type ℓ} ⦃f : Floats F⦄ (ordered : IsOrdered F) where
  insert_point-HeadRight :
      (x : Num F) (p : RatePoint F) (ps : List (RatePoint F))
      → num_le x p.x ≡ true
      → HeadRight x ps
      → HeadRight x (insert_point p ps)
  unfolding insert_point HeadRight
  insert_point-HeadRight x p [] h a = h
  insert_point-HeadRight x p (q ∷ qs) h a = elim (Bool-cases (num_le p.x q.x)) [
    | inl e ↦ rw (e, insert_point) h
    | inr e ↦ rw (e, insert_point) a
  ]

  cons-IsAscending :
      (p : RatePoint F) (ps : List (RatePoint F))
      → HeadRight p.x ps
      → IsAscending ps
      → IsAscending (p ∷ ps)
  unfolding HeadRight
  cons-IsAscending p [] h s = tt
  cons-IsAscending p (q ∷ qs) h s = (h, s)

  tail-IsAscending :
      (p : RatePoint F) (ps : List (RatePoint F))
      → IsAscending (p ∷ ps)
      → HeadRight p.x ps × IsAscending ps
  unfolding HeadRight
  tail-IsAscending p [] s = (tt, tt)
  tail-IsAscending p (q ∷ qs) s = s

  num_le-flip :
      (p q : RatePoint F) → IsKnown p → IsKnown q → num_le p.x q.x ≡ false → num_le q.x p.x ≡ true
  num_le-flip p q (x, e, h) (y, e', h') l =
      let l' : f.le x y ≡ false =
        subst (λ n. num_le n (Num.float y) ≡ false) e (subst (λ n. num_le p.x n ≡ false) e' l) in
      subst (λ n. num_le n p.x ≡ true) (sym e')
        (subst (λ n. num_le (Num.float y) n ≡ true) (sym e) (ordered x y h h' l'))

  insert_point-IsAscending :
      (p : RatePoint F) (ps : List (RatePoint F))
      → IsKnown p
      → All IsKnown ps
      → IsAscending ps
      → IsAscending (insert_point p ps) × All IsKnown (insert_point p ps)
  unfolding insert_point
  insert_point-IsAscending p [] k ks s = (tt, (k, tt))
  insert_point-IsAscending p (q ∷ qs) k ks s = elim (Bool-cases (num_le p.x q.x)) [
    | inl e ↦ rw (e, insert_point) ((e, s), (k, ks))
    | inr e ↦
        let (head, rest) = tail-IsAscending q qs s in
        let (up, known) = insert_point-IsAscending p qs k ks.1 rest in
        rw (e, insert_point)
          (
            cons-IsAscending q (insert_point p qs)
                (insert_point-HeadRight q.x p qs (num_le-flip p q k ks.0 e) head) up,
            (ks.0, known),
          )
  ]

  pub sort_points-IsAscending :
      (ps : List (RatePoint F))
      → All IsKnown ps
      → IsAscending (sort_points ps) × All IsKnown (sort_points ps)
  unfolding sort_points
  sort_points-IsAscending [] ks = (tt, tt)
  sort_points-IsAscending (p ∷ ps) ks =
      let (up, known) = sort_points-IsAscending ps ks.1 in
      insert_point-IsAscending p (sort_points ps) ks.0 known up
