-- ===== src/Grinder/Rates/Segments.antt =====
-- What the points of `make_rate` say: each is the rate between two timestamps of the list, with no
-- later one between them, and each begins where the one before it ends.
use dnstools.Chart.{of_nat, millisecond, over, Floats, Num, Point}
use dnstools.Prelude.Int.{
  pos_part, neg_part, ◌+ℤ◌, ◌-ℤ◌, ◌≤ℤ◌, ◌<ℤ◌, leb_ℤ, -ℤ_parts, leb_ℤ→le, leb_ℤ→gt, ℤ, pos, negsuc,
}
use dnstools.Prelude.{
  Bool-cases, length, get_elem?, Result, ok, ℕ, zero, suc, ◌+◌, ◌-◌, ◌<◌, ◌≡◌, refl, sym, ap, ◌∙◌,
  subst, Lift, ◌≢◌, inl, inr, true, false, Option, some, some-injective, dec_lt, List, [], ◌∷◌,
  arith,
}
use dnstools.Grinder.Rates.{rate_point, rate_loop}

module _ {ℓ} {F : Type ℓ} ⦃f : Floats F⦄ where
  over_ne : (x : F) (d : ℤ) → d ≢ pos 0 → over x d ≡ ok (f.div x (f.of_int d))
  over_ne x (pos zero) h = absurd (h refl)
  over_ne x (pos (suc n)) h = refl
  over_ne x (negsuc n) h = refl

  -- The rate of `n` messages (or steps) from time `a` to time `b`.
  abbrev pub rate_at : ℤ → F → ℤ → ℤ → ℕ → Point F
  rate_at s scale a b n = record {
    x = f.div (f.div (f.of_int (b +ℤ a -ℤ (s +ℤ s))) millisecond) (of_nat 2);
    y = Num.float (f.div (f.mul scale (of_nat n)) (f.of_int (b -ℤ a)));
  }

  -- The divisor is never zero.
  pub rate_point-rate_at :
      (s : ℤ) (scale : F) (a b : ℤ) (n : ℕ)
      → a <ℤ b
      → rate_point (some s) scale a b n ≡ ok (rate_at s scale a b n)
  unfolding rate_point
  rate_point-rate_at s scale a b n h = rw (
      over_ne (f.mul scale (of_nat n)) (b -ℤ a)
        (λ e. omega (arith, -ℤ_parts b a, ap pos_part e, ap neg_part e)))

-- Between the i-th and the k-th timestamp none is later than `a`.
abbrev pub IsQuiet : List ℤ → ℕ → ℕ → ℤ → Type 0
IsQuiet ts i k a = (l : ℕ) (u : ℤ) → i < l → l < k → get_elem? ts l ≡ some u → u ≤ℤ a

IsQuiet-suc :
    (ts : List ℤ) (i k : ℕ) (a : ℤ) {u : ℤ}
    → IsQuiet ts i k a
    → get_elem? ts k ≡ some u
    → u ≤ℤ a
    → IsQuiet ts i (suc k) a
IsQuiet-suc ts i k a q e h l v p r g = elim (dec_lt l k) [
  | yes c ↦ q l v p c g
  | no c ↦
      let same : l ≡ k = omega arith in
      let both = some-injective _ _ (sym (subst (λ n. get_elem? ts n ≡ some v) same g) ∙ e) in
      rw both h
]

module _ {ℓ} {F : Type ℓ} ⦃f : Floats F⦄ where
  -- The points lead from the i-th timestamp to the j-th.
  abbrev pub Segments : ℤ → F → List ℤ → ℕ → List (Point F) → ℕ → Type ℓ
  Segments s scale ts i [] j = Lift (i ≡ j)
  Segments s scale ts i (p ∷ ps) j =
      (k : ℕ) × (a : ℤ) × (b : ℤ) × (i < k)
      × (get_elem? ts i ≡ some a)
      × (get_elem? ts k ≡ some b)
      × (a <ℤ b)
      × IsQuiet ts i k a
      × (p ≡ rate_at s scale a b (k - i))
      × Segments s scale ts k ps j

  -- What `rate_loop` returns from the i-th timestamp, with `n` messages counted since.
  abbrev pub IsLoop : ℤ → F → List ℤ → ℕ → ℕ → Result (List (Point F) × ℤ × ℕ) → Type ℓ
  IsLoop s scale ts i end r =
      (ps : List (Point F)) × (last : ℤ) × (m : ℕ) × (j : ℕ) × (r ≡ ok (ps, last, m))
      × Segments s scale ts i ps j
      × (get_elem? ts j ≡ some last)
      × (j < end)
      × (j + m ≡ end)
      × IsQuiet ts j end last

  rate_loop_stay :
      (start : Option ℤ) (scale : F) (a t : ℤ) (n : ℕ) (rest : List ℤ)
      → leb_ℤ t a ≡ true
      → rate_loop start scale a n (t ∷ rest) ≡ rate_loop start scale a (n + 1) rest
  unfolding rate_loop
  rate_loop_stay start scale a t n rest c = rw (c, rate_loop)

  rate_loop_move :
      (s : ℤ) (scale : F) (a t : ℤ) (n : ℕ) (rest : List ℤ) (ps : List (Point F)) {last : ℤ} {m : ℕ}
      → leb_ℤ t a ≡ false
      → rate_loop (some s) scale t 1 rest ≡ ok (ps, last, m)
      → rate_loop (some s) scale a n (t ∷ rest) ≡ ok (rate_at s scale a t n ∷ ps, last, m)
  unfolding rate_loop
  rate_loop_move s scale a t n rest ps c r =
      rw (c, rate_loop)
        (rw (rate_point-rate_at s scale a t n (leb_ℤ→gt t a c)) (rw (r, rate_loop) refl))

  pub rate_loop-IsLoop :
      (s : ℤ) (scale : F) (ts rest : List ℤ) (i n : ℕ) (a : ℤ)
      → get_elem? ts i ≡ some a
      → 0 < n
      → IsQuiet ts i (i + n) a
      → ((l : ℕ) → get_elem? rest l ≡ get_elem? ts (i + n + l))
      → IsLoop s scale ts i (i + n + length rest) (rate_loop (some s) scale a n rest)
  rate_loop-IsLoop s scale ts [] i n a e p q h =
      let z : i + n + 0 ≡ i + n = omega arith in
      rw z ([], a, n, i, unfold rate_loop in refl, record { lower = refl }, e, omega arith, refl, q)
  rate_loop-IsLoop s scale ts (t ∷ rest) i n a e p q h =
      let now : get_elem? ts (i + n) ≡ some t =
        subst (λ l. get_elem? ts l ≡ some t) (omega arith) (sym (h 0)) in
      elim (Bool-cases (leb_ℤ t a)) [
        | inl c ↦
            let w : suc (i + n) ≡ i + (n + 1) = omega arith in
            rw (rate_loop_stay (some s) scale a t n rest c) (
              subst (λ z. IsLoop s scale ts i z (rate_loop (some s) scale a (n + 1) rest))
                (omega arith)
                (rate_loop-IsLoop s scale ts rest i (n + 1) a e (omega arith)
                  (subst (λ z. IsQuiet ts i z a) w
                    (IsQuiet-suc ts i (i + n) a q now (leb_ℤ→le t a c)))
                  (λ l. h (suc l) ∙ ap (get_elem? ts) (omega arith))))
        | inr c ↦
            let (ps, last, m, j, r, segs, at, lt, total, quiet) =
              rate_loop-IsLoop s scale ts rest (i + n) 1 t now (omega arith)
                (λ l u lo hi g. absurd (omega arith))
                (λ l. h (suc l) ∙ ap (get_elem? ts) (omega arith)) in
            let z : i + n + 1 + length rest ≡ i + n + suc (length rest) = omega arith in
            (
              rate_at s scale a t n ∷ ps,
              last,
              m,
              j,
              rate_loop_move s scale a t n rest ps c r,
              (
                i + n,
                a,
                t,
                omega arith,
                e,
                now,
                leb_ℤ→gt t a c,
                q,
                ap (rate_at s scale a t) (omega arith),
                segs,
              ),
              at,
              omega arith,
              omega arith,
              subst (λ w. IsQuiet ts j w last) z quiet,
            )
      ]
