-- ===== src/Auth/Placement/Keys.antt =====
-- concord_core/src/auth/plan.rs: the query keys of a placement plan hide the credentials in addresses.
use concord_api.Base.{
  ℕ, ◌≡◌, refl, sym, ◌∙◌, inl, inr, Bool, true, ◌||◌, Bool-cases, List, [], ◌∷◌, ◌++◌, String,
  length, ◌==◌, arith, if_either,
}
use concord_api.Headers.Text.{Bytes, any, as_bytes, eq_ignore_ascii_case, same_letter, zip_all}
use concord_api.Headers.Sanitize.{is_redacted}
use concord_api.Auth.Uses.{AuthPlacement}
use concord_api.Auth.Placement.{with_query_key}

eq_comm : (a b : ℕ) → (a == b) ≡ (b == a)
eq_comm a b = ground arith

zip_all_comm : (s t : Bytes) → zip_all same_letter s t ≡ zip_all same_letter t s
zip_all_comm [] [] = refl
zip_all_comm [] (y ∷ t) = refl
zip_all_comm (x ∷ s) [] = refl
zip_all_comm (x ∷ s) (y ∷ t) = ground (arith, zip_all_comm s t)

letters_comm : (s t : Bytes) → eq_ignore_ascii_case s t ≡ eq_ignore_ascii_case t s
unfolding eq_ignore_ascii_case
letters_comm s t = rw (eq_comm (length s) (length t), zip_all_comm s t) refl

zip_all_refl : (s : Bytes) → zip_all same_letter s s ≡ true
zip_all_refl [] = refl
zip_all_refl (x ∷ s) = ground (arith, zip_all_refl s)

letters_refl : (s : Bytes) → eq_ignore_ascii_case s s ≡ true
unfolding eq_ignore_ascii_case
letters_refl s = ground (arith, zip_all_refl s)

any-append {ℓ} :
    {A : Type ℓ} (p : A → Bool) (xs ys : List A) → any p (xs ++ ys) ≡ (any p xs || any p ys)
any-append p [] ys = refl
any-append p (x ∷ xs) ys = ground (arith, any-append p xs ys)

abbrev among : List String → String → Bool
among keys name = any (λ candidate. eq_ignore_ascii_case (as_bytes name) (as_bytes candidate)) keys

among_comm :
    (keys : List String) (name : String)
    → any (λ existing. eq_ignore_ascii_case (as_bytes existing) (as_bytes name)) keys
      ≡ among keys name
among_comm [] name = refl
among_comm (k ∷ keys) name = cc (letters_comm (as_bytes k) (as_bytes name), among_comm keys name)

among_self : (keys : List String) (name : String) → among (keys ++ name ∷ []) name ≡ true
among_self keys name = ground (
  arith,
  any-append (λ candidate. eq_ignore_ascii_case (as_bytes name) (as_bytes candidate)) keys
      (name ∷ []),
  letters_refl (as_bytes name),
)

-- The key of a query credential is redacted from then on.
pub planned_key_is_redacted :
    (keys : List String) (name : String)
    → is_redacted (with_query_key (AuthPlacement.query name) keys) name ≡ true
planned_key_is_redacted keys name =
    elim (Bool-cases
      (any (λ existing. eq_ignore_ascii_case (as_bytes existing) (as_bytes name)) keys)) [
        | inl e ↦
            let known : (among keys name ≡ true) = sym (among_comm keys name) ∙ e in
            ground (arith, known)
        | inr e ↦ ground (arith, among_self keys name)
      ]

grown_key_is_redacted :
    (keys : List String) (added name : String)
    → is_redacted keys name ≡ true
    → is_redacted (keys ++ added ∷ []) name ≡ true
grown_key_is_redacted keys added name h = ground (
  arith,
  any-append (λ candidate. eq_ignore_ascii_case (as_bytes name) (as_bytes candidate)) keys
      (added ∷ []),
)

pub redacted_key_stays :
    (p : AuthPlacement) (keys : List String) (name : String)
    → is_redacted keys name ≡ true
    → is_redacted (with_query_key p keys) name ≡ true
redacted_key_stays AuthPlacement.bearer keys name h = h
redacted_key_stays AuthPlacement.basic keys name h = h
redacted_key_stays (AuthPlacement.header n) keys name h = h
redacted_key_stays (AuthPlacement.query n) keys name h =
    if_either (λ ks. is_redacted ks name ≡ true)
      (any (λ existing. eq_ignore_ascii_case (as_bytes existing) (as_bytes n)) keys) h
      (grown_key_is_redacted keys n name h)
