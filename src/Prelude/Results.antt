-- ===== src/Prelude/Results.antt =====
-- Python's exceptions as values, and the loops of the programs that can raise one.
use Prim.Native.Nat.{ℕ}
use mathlib.Core.Path.{◌≡◌, refl}
use mathlib.Core.Logic.{◌⊎◌, inl, inr}
use mathlib.Core.List.{List, [], ◌∷◌, map}
use dnstools.Prelude.Int.{ℤ}

-- The exceptions that the analysers raise. `sent_earlier` is the `Exception` of `load`, with the
-- four values of its message.
pub data Error : Type 0 where
  value_error type_error index_error name_error unbound_local zero_division key_error : Error
  sent_earlier : ℕ → ℕ → ℤ → ℤ → Error

-- What a call ends in: the exception that it raised, or the value that it returned.
pub data Result {ℓ} (Value : Type ℓ) : Type ℓ where
  err : Error → Result Value
  ok : Value → Result Value

-- An exception skips the statements behind it.
infixl 5 ◌>>=◌
abbrev pub ◌>>=◌ {κ ℓ} : {A : Type κ} {B : Type ℓ} → Result A → (A → Result B) → Result B
err raised >>= rest = err raised
ok value >>= rest = rest value

-- `for a in xs: out.append(f(a))`
unfoldable pub map_result {ℓ κ} :
    {A : Type ℓ} {B : Type κ} → (A → Result B) → List A → Result (List B)
map_result f [] = ok []
map_result f (a ∷ rest) = f a >>= λ b. map_result f rest >>= λ bs. ok (b ∷ bs)

-- A loop whose body raises nothing is a map.
pub map_result-ok {ℓ κ} :
    {A : Type ℓ} {B : Type κ} (f : A → Result B) (g : A → B) (xs : List A)
    → ((a : A) → f a ≡ ok (g a))
    → map_result f xs ≡ ok (map g xs)
unfolding map_result
map_result-ok f g [] h = refl
map_result-ok f g (x ∷ xs) h = rw (h x, map_result-ok f g xs h)

-- What a chain that returns went through.
pub >>=-eq-ok {κ ℓ} :
    {B : Type κ} {A : Type ℓ} (first : Result A) (next : A → Result B) {end : B}
    → (first >>= next) ≡ ok end
    → (value : A) × (first ≡ ok value) × (next value ≡ ok end)
>>=-eq-ok (err e) next run = cc
>>=-eq-ok (ok value) next run = (value, refl, run)

pub Result-cases {ℓ} :
    {A : Type ℓ} (r : Result A) → ((a : A) × (r ≡ ok a)) ⊎ ((e : Error) × (r ≡ err e))
Result-cases (ok a) = inl (a, refl)
Result-cases (err e) = inr (e, refl)

pub ok-injective {ℓ} : {A : Type ℓ} {a b : A} → ok a ≡ ok b → a ≡ b
ok-injective h = cc

-- A call raises an exception.
pub data IsRaised {ℓ} {A : Type ℓ} (r : Result A) : Type ℓ where
  raised : (e : Error) → r ≡ err e → IsRaised r

module _ {ℓ κ} {A : Type ℓ} {B : Type κ} where
  pub >>=-IsRaised :
      (m : Result A) (f : A → Result B) → ((a : A) → IsRaised (f a)) → IsRaised (m >>= f)
  >>=-IsRaised (ok a) f h = h a
  >>=-IsRaised (err e) f h = raised e refl

  pub first-IsRaised : (m : Result A) (f : A → Result B) → IsRaised m → IsRaised (m >>= f)
  first-IsRaised m f (raised e h) = raised e (rw h refl)
