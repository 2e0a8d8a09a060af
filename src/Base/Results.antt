-- ===== src/Base/Results.antt =====
-- `Result` with its early return.
use mathlib.Core.Path.{◌≡◌, refl}
use mathlib.Core.Option.{Option, none, some}
use mathlib.Core.List.{List, [], ◌∷◌}
use mathlib.Core.Logic.{◌⊎◌, inl, inr}

pub data Result {ℓ κ} (E : Type ℓ) (A : Type κ) : Type (ℓ ⊔ κ) where
  ok : A → Result E A
  err : E → Result E A

infixl 5 ◌>>=◌ ◌>>◌
abbrev pub ◌>>=◌ {ℓ κ ι} :
    {E : Type ℓ} {A : Type κ} {B : Type ι} → Result E A → (A → Result E B) → Result E B
ok a >>= f = f a
err e >>= f = err e

abbrev pub ◌>>◌ {ℓ κ ι} :
    {E : Type ℓ} {A : Type κ} {B : Type ι} → Result E A → Result E B → Result E B
m >> k = m >>= λ _. k

pub Result-cases {ℓ κ} :
    {E : Type ℓ} {A : Type κ} (r : Result E A) → ((a : A) × (r ≡ ok a)) ⊎ ((e : E) × (r ≡ err e))
Result-cases (ok a) = inl (a, refl)
Result-cases (err e) = inr (e, refl)

-- `Option::ok_or`.
abbrev pub ok_or {ℓ κ} : {E : Type ℓ} {A : Type κ} → Option A → E → Result E A
ok_or none e = err e
ok_or (some a) e = ok a

-- `collect` of an iterator of results: the first error, or every value.
abbrev pub traverse {ℓ κ ι} :
    {E : Type ℓ} {A : Type κ} {B : Type ι} → (A → Result E B) → List A → Result E (List B)
traverse f [] = ok []
traverse f (x ∷ xs) = do y ← f x; ys ← traverse f xs; ok (y ∷ ys)

pub traverse-cons {ℓ κ ι} :
    {E : Type ℓ} {A : Type κ} {B : Type ι} (f : A → Result E B) (x : A) (xs : List A) {zs : List B}
    → traverse f (x ∷ xs) ≡ ok zs
    → (y : B) × (ys : List B) × (f x ≡ ok y) × (traverse f xs ≡ ok ys) × (zs ≡ y ∷ ys)
traverse-cons f x xs h = elim (Result-cases (f x)) [
  | inr (e, p) ↦ cc (p, h)
  | inl (y, p) ↦ elim (Result-cases (traverse f xs)) [
    | inr (e, q) ↦ cc (p, q, h)
    | inl (ys, q) ↦ (y, ys, p, q, cc (p, q, h))
  ]
]

-- What holds of both cases of a result, each with what the result is, holds of the whole.
pub result_holds {ℓ κ ι μ} :
    {E : Type ℓ} {A : Type κ} {C : Type ι} (P : C → Type μ) (r : Result E A) (f : E → C) (g : A → C)
    → ((e : E) → r ≡ err e → P (f e))
    → ((a : A) → r ≡ ok a → P (g a))
    → P (elim r [ err e ↦ f e | ok a ↦ g a ])
result_holds P (ok a) f g of_err of_ok = of_ok a refl
result_holds P (err e) f g of_err of_ok = of_err e refl

pub option_holds {ℓ κ ι} :
    {A : Type ℓ} {C : Type κ} (P : C → Type ι) (o : Option A) (f : C) (g : A → C)
    → (o ≡ none → P f)
    → ((a : A) → o ≡ some a → P (g a))
    → P (elim o [ none ↦ f | some a ↦ g a ])
option_holds P none f g of_none of_some = of_none refl
option_holds P (some a) f g of_none of_some = of_some a refl
