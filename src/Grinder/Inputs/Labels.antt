-- ===== src/Grinder/Inputs/Labels.antt =====
-- The labels that `main` of mig/analyser/grinder.py gives to speeds, by their digits.
use dnstools.Chart.{Text, codes, of_nat, Floats}
use dnstools.Prelude.{
  ltb, ◌==◌, ==_iff, Bool-cases, All, ℕ, ◌+◌, ◌-◌, ◌*◌, ◌/◌, ◌%◌, ◌^◌, ◌<◌, ◌≡◌, refl, sym, ap, ◌∙◌,
  subst, inl, inr, true, false, [], ◌∷◌, ◌++◌, append_assoc, arith,
}
use dnstools.Strings.{decimal}
use dnstools.Strings.Decimal.{IsDigit, decimal-IsDigit}
use dnstools.Grinder.Inputs.Names.{decimal-injective}
use dnstools.Grinder.Inputs.{thousands, speed_label}

abbrev pub digit : ℕ → ℕ
digit n = 48 + n % 10

-- What the proof uses of `"%.1f"`, `"%.2f"` and `"%.3f"`: for a quotient by 1000 that needs no more
-- decimal places, they print its decimal number, up to 2^40.
pub record IsFixed {ℓ} (F : Type ℓ) ⦃f : Floats F⦄ (fixed : ℕ → F → Text) : Type ℓ where
  pub one_place :
      (v : ℕ)
      → v < 2 ^ 40
      → v % 100 ≡ 0
      → fixed 1 (f.div (of_nat v) (of_nat 1000))
        ≡ decimal (v / 1000) ++ (b'.' ∷ digit (v / 100) ∷ [])
  pub two_places :
      (v : ℕ)
      → v < 2 ^ 40
      → v % 10 ≡ 0
      → fixed 2 (f.div (of_nat v) (of_nat 1000))
        ≡ decimal (v / 1000) ++ (b'.' ∷ digit (v / 100) ∷ digit (v / 10) ∷ [])
  pub three_places :
      (v : ℕ)
      → v < 2 ^ 40
      → fixed 3 (f.div (of_nat v) (of_nat 1000))
        ≡ decimal (v / 1000) ++ (b'.' ∷ digit (v / 100) ∷ digit (v / 10) ∷ digit v ∷ [])

-- The part of a label behind the thousands: its decimal places, if there are any, and the unit.
abbrev behind_digits : Text → Text
behind_digits [] = codes "k"
behind_digits (c ∷ cs) = b'.' ∷ c ∷ cs ++ codes "k"

-- What decimal places say, where the first one counts `w`.
abbrev worth : ℕ → Text → ℕ
worth w [] = 0
worth w (c ∷ cs) = (c - 48) * w + worth (w / 10) cs

-- A text begins with no digit.
abbrev IsStop : Text → Type 0
IsStop [] = ⊥
IsStop (c ∷ cs) = IsDigit c → ⊥

-- Digits before something else are found again.
digits-split :
    (xs ys us vs : Text)
    → All IsDigit xs
    → All IsDigit ys
    → IsStop us
    → IsStop vs
    → xs ++ us ≡ ys ++ vs
    → (xs ≡ ys) × (us ≡ vs)
digits-split [] [] us vs dx dy su sv e = (refl, e)
digits-split [] (y ∷ ys) [] vs dx dy su sv e = absurd su
digits-split [] (y ∷ ys) (u ∷ us) vs dx dy su sv e =
    let same : u ≡ y = cc in absurd (su (subst IsDigit (sym same) dy.0))
digits-split (x ∷ xs) [] us [] dx dy su sv e = absurd sv
digits-split (x ∷ xs) [] us (v ∷ vs) dx dy su sv e =
    let same : x ≡ v = cc in absurd (sv (subst IsDigit same dx.0))
digits-split (x ∷ xs) (y ∷ ys) us vs dx dy su sv e =
    let same : x ≡ y = cc in
    let rest : xs ++ us ≡ ys ++ vs = cc in
    let (a, b) = digits-split xs ys us vs dx.1 dy.1 su sv rest in (cc, b)

behind_digits-IsStop : (cs : Text) → IsStop (behind_digits cs)
behind_digits-IsStop [] = λ h. let z = h.1 in absurd (omega arith)
behind_digits-IsStop (c ∷ cs) = λ h. let z = h.0 in absurd (omega arith)

abbrev first_code : Text → ℕ
first_code [] = 0
first_code (c ∷ cs) = c

behind_digits-injective :
    (xs ys : Text) → All IsDigit xs → All IsDigit ys → behind_digits xs ≡ behind_digits ys → xs ≡ ys
behind_digits-injective [] [] dx dy e = refl
behind_digits-injective [] (y ∷ ys) dx dy e =
    let z : ◌≡◌ {A = ℕ} b'k' b'.' = ap first_code e in absurd (omega arith)
behind_digits-injective (x ∷ xs) [] dx dy e =
    let z : ◌≡◌ {A = ℕ} b'.' b'k' = ap first_code e in absurd (omega arith)
behind_digits-injective (x ∷ xs) (y ∷ ys) dx dy e =
    let rest : x ∷ xs ++ codes "k" ≡ y ∷ ys ++ codes "k" = cc in
    (digits-split (x ∷ xs) (y ∷ ys) (codes "k") (codes "k") dx dy (behind_digits-IsStop [])
      (behind_digits-IsStop []) rest).0

module _ {ℓ} {F : Type ℓ} ⦃f : Floats F⦄ {fixed : ℕ → F → Text} (laws : IsFixed F fixed) where
  -- A label: the thousands, and decimal places that say the rest.
  IsLabel : ℕ → Text → Type 0
  IsLabel v label =
      (places : Text) × All IsDigit places
      × (worth 100 places ≡ v % 1000)
      × (label ≡ decimal (v / 1000) ++ behind_digits places)

  thousands_whole :
      (v : ℕ) → (v % 1000 == 0) ≡ true → thousands fixed v ≡ decimal (v / 1000) ++ codes "k"
  unfolding thousands
  thousands_whole v a = rw a refl

  thousands_one :
      (v : ℕ)
      → (v % 1000 == 0) ≡ false
      → (v % 100 == 0) ≡ true
      → thousands fixed v ≡ fixed 1 (f.div (of_nat v) (of_nat 1000)) ++ codes "k"
  unfolding thousands
  thousands_one v a b = rw (a, b) refl

  thousands_two :
      (v : ℕ)
      → (v % 1000 == 0) ≡ false
      → (v % 100 == 0) ≡ false
      → (v % 10 == 0) ≡ true
      → thousands fixed v ≡ fixed 2 (f.div (of_nat v) (of_nat 1000)) ++ codes "k"
  unfolding thousands
  thousands_two v a b c = rw (a, b, c) refl

  thousands_three :
      (v : ℕ)
      → (v % 1000 == 0) ≡ false
      → (v % 100 == 0) ≡ false
      → (v % 10 == 0) ≡ false
      → thousands fixed v ≡ fixed 3 (f.div (of_nat v) (of_nat 1000)) ++ codes "k"
  unfolding thousands
  thousands_three v a b c = rw (a, b, c) refl

  -- A label with decimal places, from the printed number.
  printed-IsLabel :
      (v : ℕ) (printed : Text) (d : ℕ) (ds : Text)
      → thousands fixed v ≡ printed ++ codes "k"
      → printed ≡ decimal (v / 1000) ++ (b'.' ∷ d ∷ ds)
      → All IsDigit (d ∷ ds)
      → worth 100 (d ∷ ds) ≡ v % 1000
      → IsLabel v (thousands fixed v)
  unfolding IsLabel
  printed-IsLabel v printed d ds e p digits w = (
    d ∷ ds,
    digits,
    w,
    e ∙ ap (λ t. t ++ codes "k") p ∙ append_assoc (decimal (v / 1000)) (b'.' ∷ d ∷ ds) (codes "k"),
  )

  digit-IsDigit : (n : ℕ) → IsDigit (digit n)
  digit-IsDigit n = omega arith

  thousands-IsLabel : (v : ℕ) → v < 2 ^ 40 → IsLabel v (thousands fixed v)
  thousands-IsLabel v h = elim (Bool-cases (v % 1000 == 0)) [
    | inl a ↦
        let z = (==_iff (v % 1000) 0).0 a in unfold IsLabel in ([], tt, sym z, thousands_whole v a)
    | inr a ↦ elim (Bool-cases (v % 100 == 0)) [
      | inl b ↦
          let z = (==_iff (v % 100) 0).0 b in
          printed-IsLabel v _ (digit (v / 100)) [] (thousands_one v a b) (laws.one_place v h z)
            (digit-IsDigit (v / 100), tt) (omega arith)
      | inr b ↦ elim (Bool-cases (v % 10 == 0)) [
        | inl c ↦
            let z = (==_iff (v % 10) 0).0 c in
            printed-IsLabel v _ (digit (v / 100)) (digit (v / 10) ∷ []) (thousands_two v a b c)
              (laws.two_places v h z) (digit-IsDigit (v / 100), (digit-IsDigit (v / 10), tt))
              (omega arith)
        | inr c ↦
            printed-IsLabel v _ (digit (v / 100)) (digit (v / 10) ∷ digit v ∷ [])
              (thousands_three v a b c) (laws.three_places v h)
              (digit-IsDigit (v / 100), (digit-IsDigit (v / 10), (digit-IsDigit v, tt)))
              (omega arith)
      ]
    ]
  ]

  label-injective : (u v : ℕ) (s t : Text) → IsLabel u s → IsLabel v t → s ≡ t → u ≡ v
  unfolding IsLabel
  label-injective u v s t (ps, dp, wp, ep) (qs, dq, wq, eq) e =
      let (a, b) =
        digits-split (decimal (u / 1000)) (decimal (v / 1000)) (behind_digits ps) (behind_digits qs)
          (decimal-IsDigit (u / 1000)) (decimal-IsDigit (v / 1000)) (behind_digits-IsStop ps)
          (behind_digits-IsStop qs) (sym ep ∙ e ∙ eq) in
      let whole = decimal-injective (u / 1000) (v / 1000) a in
      let same = ap (worth 100) (behind_digits-injective ps qs dp dq b) in omega arith

  speed_label_plain :
      (scaled n v : ℕ) → ltb (3 * scaled) n ≡ true → speed_label fixed scaled n v ≡ decimal v
  unfolding speed_label
  speed_label_plain scaled n v h = rw h refl

  speed_label-thousands :
      (scaled n v : ℕ)
      → ltb (3 * scaled) n ≡ false
      → speed_label fixed scaled n v ≡ thousands fixed v
  unfolding speed_label
  speed_label-thousands scaled n v h = rw h refl

  -- No two speeds below 2^40 get one label, whether it is the speed itself, whole thousands, or
  -- thousands with one, two or three decimal places. Of the printing of floats it asks that a number
  -- that needs no more decimal places is printed as it is.
  pub speed_label-injective :
      (scaled n u v : ℕ)
      → u < 2 ^ 40
      → v < 2 ^ 40
      → speed_label fixed scaled n u ≡ speed_label fixed scaled n v
      → u ≡ v
  speed_label-injective scaled n u v hu hv e = elim (Bool-cases (ltb (3 * scaled) n)) [
    | inl t ↦
        decimal-injective u v
          (sym (speed_label_plain scaled n u t) ∙ e ∙ speed_label_plain scaled n v t)
    | inr t ↦
        label-injective u v (thousands fixed u) (thousands fixed v) (thousands-IsLabel u hu)
          (thousands-IsLabel v hv)
          (sym (speed_label-thousands scaled n u t) ∙ e ∙ speed_label-thousands scaled n v t)
  ]
