-- ===== src/Strings/Format/Escaped.antt =====
-- What formatting makes of a text in which every percent sign is doubled.
use dnstools.Chart.{Text, codes}
use dnstools.Prelude.{
  ◌==◌, if◌then◌else◌, Bool-cases, ◌>>=◌, Result, ok, err, ℕ, ◌≡◌, refl, sym, ap, ◌∙◌, inl, inr,
  true, false, [], ◌∷◌, ◌++◌, append-nil,
}
use dnstools.Strings.Format.{Values, format, plain, percent, tuple, percent_sign}

-- The text with every percent sign doubled.
unfoldable pub escaped : Text → Text
escaped [] = []
escaped (c ∷ cs) = (if c == percent_sign then c ∷ c ∷ [] else c ∷ []) ++ escaped cs

-- A text in front of what a call returns.
abbrev pub behind : Text → Result Text → Result Text
behind t r = r >>= λ out. ok (t ++ out)

behind-nil : (r : Result Text) → behind [] r ≡ r
behind-nil (ok out) = refl
behind-nil (err e) = refl

behind-cons :
    (c : ℕ) (t : Text) (r : Result Text) → (behind t r >>= λ out. ok (c ∷ out)) ≡ behind (c ∷ t) r
behind-cons c t (ok out) = refl
behind-cons c t (err e) = refl

format_sign :
    (c : ℕ) (cs : Text) (values : Values)
    → (c == percent_sign) ≡ true
    → format plain (c ∷ c ∷ cs) values ≡ (format plain cs values >>= λ out. ok (c ∷ out))
unfolding format
format_sign c cs values h =
    let out = format plain cs values >>= λ out. ok (c ∷ out) in
    let first : format plain (c ∷ c ∷ cs) values ≡ format percent (c ∷ cs) values =
      ap
        (λ b. elim b [
          | true ↦ format percent (c ∷ cs) values
          | false ↦ format plain (c ∷ cs) values >>= λ out. ok (c ∷ out)
        ])
        h in
    let second : format percent (c ∷ cs) values ≡ out = rw (h, format) refl in first ∙ second

format_other :
    (c : ℕ) (cs : Text) (values : Values)
    → (c == percent_sign) ≡ false
    → format plain (c ∷ cs) values ≡ (format plain cs values >>= λ out. ok (c ∷ out))
unfolding format
format_other c cs values h = rw (h, format) refl

-- The percent signs of an escaped text are single ones again, and the rest of the template is read on.
pub format-escaped :
    (t rest : Text) (values : Values)
    → format plain (escaped t ++ rest) values ≡ behind t (format plain rest values)
unfolding escaped
format-escaped [] rest values = sym (behind-nil (format plain rest values))
format-escaped (c ∷ cs) rest values =
    let next : (format plain (escaped cs ++ rest) values >>= λ out. ok (c ∷ out))
        ≡ behind (c ∷ cs) (format plain rest values) =
      ap (λ r. r >>= λ out. ok (c ∷ out)) (format-escaped cs rest values)
      ∙ behind-cons c cs (format plain rest values) in
    elim (Bool-cases (c == percent_sign)) [
      | inl h ↦ rw h (format_sign c (escaped cs ++ rest) values h ∙ next)
      | inr h ↦ rw h (format_other c (escaped cs ++ rest) values h ∙ next)
    ]

-- The text that an escaped one stands for.
unfoldable pub unescaped : Text → Text
unescaped [] = []
unescaped (c ∷ []) = c ∷ []
unescaped (c ∷ d ∷ cs) = elim (c == percent_sign) [
  | true ↦ c ∷ unescaped cs
  | false ↦ c ∷ unescaped (d ∷ cs)
]

-- A template ends when all values of its tuple are used, or has a mapping.
abbrev pub IsDone : Values → Type 0
IsDone values = format plain [] values ≡ ok []

pub format-escaped_end :
    (t : Text) (values : Values) → IsDone values → format plain (escaped t) values ≡ ok t
format-escaped_end t values h =
    ap (λ l. format plain l values) (sym (append-nil (escaped t)))
    ∙ format-escaped t [] values
    ∙ rw h (ap ok (append-nil t))

-- A template with one value.
pub format_one :
    (front middle rest value : Text) (t : Text)
    → t ≡ escaped front ++ (escaped middle ++ (codes "%s" ++ escaped rest))
    → format plain t (tuple (value ∷ [])) ≡ ok (front ++ (middle ++ (value ++ rest)))
unfolding format
format_one front middle rest value t e =
    let end : format plain (codes "%s" ++ escaped rest) (tuple (value ∷ [])) ≡ ok (value ++ rest) =
      ap (behind value) (format-escaped_end rest (tuple []) refl) in
    ap (λ l. format plain l (tuple (value ∷ []))) e
    ∙ format-escaped front (escaped middle ++ (codes "%s" ++ escaped rest)) (tuple (value ∷ []))
    ∙ ap (behind front) (
        format-escaped middle (codes "%s" ++ escaped rest) (tuple (value ∷ []))
        ∙ ap (behind middle) end)

-- A template with two values.
pub format_two :
    (front middle between rest a b : Text) (t : Text)
    → t
      ≡ escaped front
        ++ (escaped middle ++ (codes "%s" ++ (escaped between ++ (codes "%s" ++ escaped rest))))
    → format plain t (tuple (a ∷ b ∷ []))
      ≡ ok (front ++ (middle ++ (a ++ (between ++ (b ++ rest)))))
unfolding format
format_two front middle between rest a b t e =
    let one : format plain (escaped between ++ (codes "%s" ++ escaped rest)) (tuple (b ∷ []))
        ≡ ok (between ++ (b ++ rest)) =
      format_one between [] rest b (escaped between ++ (codes "%s" ++ escaped rest))
        (unfold escaped in refl) in
    ap (λ l. format plain l (tuple (a ∷ b ∷ []))) e
    ∙ format-escaped front _ (tuple (a ∷ b ∷ []))
    ∙ ap (behind front)
        (format-escaped middle _ (tuple (a ∷ b ∷ [])) ∙ ap (behind middle) (ap (behind a) one))
