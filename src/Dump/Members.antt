-- ===== src/Dump/Members.antt =====
-- What `jload` makes of the members of a file.

use dnstools.Prelude.Int.{◌<ℤ◌, ltb_ℤ, lt→ltb_ℤ, ltb_ℤ→lt, ℤ, pos}
use dnstools.Prelude.{
  if◌then◌else◌, Bool-cases, Option-cases, All, replicate, ℕ, zero, suc, ◌≡◌, refl, sym, ap, ◌∙◌,
  subst, inl, inr, Bool, true, false, Option, none, some, List, [], ◌∷◌, ◌++◌,
}
use mathlib.Core.Option
use text.Mathlib.Text.{◌==◌ as same_text}
use text.Mathlib.TextEquality.{eq_iff}
use Prim.Native.String.{String}
use dnstools.Dump.{
  Document, Fits, Params, positive, find_fits, with_mark, jload, sends_mark, receives_mark,
}

-- Every answer's time is later than 0.
pub positive-All : (xs : List ℤ) → All (λ x. pos 0 <ℤ x) (positive xs)
unfolding positive
positive-All [] = tt
positive-All (x ∷ xs) = elim (Bool-cases (ltb_ℤ (pos 0) x)) [
  | inl e ↦ rw e (ltb_ℤ→lt (pos 0) x e, positive-All xs)
  | inr e ↦ rw e (positive-All xs)
]

-- The zeros that MIG writes behind the answers are dropped, and nothing else.
pub positive_padded :
    (xs : List ℤ) (k : ℕ) → All (λ x. pos 0 <ℤ x) xs → positive (xs ++ replicate k (pos 0)) ≡ xs
unfolding positive
positive_padded [] zero h = refl
positive_padded [] (suc k) h = positive_padded [] k h
positive_padded (x ∷ xs) k h = rw (lt→ltb_ℤ (pos 0) x h.0, positive_padded xs k h.1)

module _ {ℓ} {F : Type ℓ} where
  -- The fits of a name, with a default.
  abbrev pub or_else :
      Option (List (Params F)) → Option (List (Params F)) → Option (List (Params F))
  or_else (some v) d = some v
  or_else none d = d

  or_else-none : (o : Option (List (Params F))) → or_else o none ≡ o
  or_else-none none = refl
  or_else-none (some v) = refl

  or_else_if :
      (b : Bool) (o : Option (List (Params F)))
      → or_else (if b then some [] else none) o ≡ (if b then some [] else o)
  or_else_if true o = refl
  or_else_if false o = refl

  find_fits-append :
      (n m : String) (fits : Fits F)
      → find_fits n (fits ++ ((m, []) ∷ []))
        ≡ or_else (find_fits n fits) (if same_text m n then some [] else none)
  unfolding find_fits
  find_fits-append n m [] = refl
  find_fits-append n m ((k, v) ∷ fits) = elim (Bool-cases (same_text k n)) [
    | inl e ↦ rw e
    | inr e ↦ rw e (find_fits-append n m fits)
  ]

  find_fits-with_mark :
      (n m : String) (fits : Fits F)
      → find_fits n (with_mark m fits)
        ≡ or_else (find_fits n fits) (if same_text m n then some [] else none)
  unfolding with_mark
  find_fits-with_mark n m fits = elim (Option-cases (find_fits m fits)) [
    | inl e ↦ rw (e, with_mark) (find_fits-append n m fits)
    | inr (v, e) ↦
        rw (e, with_mark)
          (elim (Bool-cases (same_text m n)) [
            | inl t ↦
                let found : find_fits n fits ≡ some v =
                  subst (λ k. find_fits k fits ≡ some v) ((eq_iff m n).0 t) e in
                rw found refl
            | inr t ↦ rw t (sym (or_else-none (find_fits n fits)))
          ])
  ]

  or_else_assoc :
      (a b c : Option (List (Params F))) → or_else (or_else a b) c ≡ or_else a (or_else b c)
  or_else_assoc none b c = refl
  or_else_assoc (some v) b c = refl

  -- `jload` keeps every fit of the file under its name, and adds an empty list under `sends` and
  -- under `receives` where the file has none.
  pub find_fits-jload :
      (n : String) (d : Document F)
      → find_fits n (jload d).fits
        ≡ or_else (find_fits n (Option.get_or d.fits [])) (
            if same_text sends_mark n
            then some []
            else (if same_text receives_mark n then some [] else none))
  unfolding jload
  find_fits-jload n d =
      find_fits-with_mark n receives_mark (with_mark sends_mark (Option.get_or d.fits []))
      ∙ ap (λ o. or_else o (if same_text receives_mark n then some [] else none))
          (find_fits-with_mark n sends_mark (Option.get_or d.fits []))
      ∙ or_else_assoc (find_fits n (Option.get_or d.fits [])) _ _
      ∙ ap (or_else (find_fits n (Option.get_or d.fits []))) (or_else_if (same_text sends_mark n) _)

  -- The times of a file as MIG writes it: the sends, and the answers without the zeros behind them.
  -- A list of answers with a zero behind it for each lost query.
  pub members_padded :
      (d : Document F) (sends answers : List ℤ) (k : ℕ)
      → d.sends ≡ some sends
      → d.receives ≡ some (answers ++ replicate k (pos 0))
      → All (λ t. pos 0 <ℤ t) answers
      → (Option.get_or d.sends [] ≡ sends) × (positive (Option.get_or d.receives []) ≡ answers)
  members_padded d sends answers k es er h = (
    ap (λ o. Option.get_or o []) es,
    ap (λ o. positive (Option.get_or o [])) er ∙ positive_padded answers k h,
  )
