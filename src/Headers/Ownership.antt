-- ===== src/Headers/Ownership.antt =====
-- concord_core/src/header_ownership.rs and concord_core/src/client/build.rs: public headers may not take
-- the names that the client or the transport owns.
use concord_api.Base.{
  ◌≡◌, sym, ap, ◌∙◌, option_holds, inl, inr, Bool, true, false, Bool-cases, Option, none, some,
  String, List, [], ◌∷◌, ◌++◌, Result, ok, err, All, arith, if◌then◌else◌,
}
use concord_api.Auth.Errors.{AuthErrorKind, auth_error}
use concord_api.Error.{ErrorContext, ApiClientError}
use concord_api.Headers.Names.{is_forbidden_public_header, is_credential_bearing_header_name}
use concord_api.Headers.Bearing.{forbidden, is_forbidden_public_header-forbidden}

pub record HeaderOwnershipError : Type 0 where
  pub name : String

-- `Iterator::find`.
abbrev pub find {ℓ} : {A : Type ℓ} → (A → Bool) → List A → Option A
find p [] = none
find p (x ∷ xs) = let rest = find p xs in if p x then some x else rest

-- The names are those that `HeaderMap::keys` yields.
unfoldable pub validate_public_headers : List String → Result HeaderOwnershipError (Unit {0})
validate_public_headers keys = elim (find is_forbidden_public_header keys) [
  | none ↦ ok tt
  | some name ↦ err (record { name = name })
]

-- `public_header_error`: how a request reports a header that it may not have. The scope is in the text.
unfoldable pub public_header_error : ErrorContext → HeaderOwnershipError → ApiClientError
public_header_error ctx source =
    if is_credential_bearing_header_name source.name
    then ApiClientError.auth ctx (
        auth_error AuthErrorKind.invalid_configuration
          "header collides with authentication ownership")
    else ApiClientError.other ctx "PolicyViolation"

-- What is written of the error: its name, unless it bears a credential.
unfoldable pub displayed_name : HeaderOwnershipError → Option String
displayed_name e = if is_credential_bearing_header_name e.name then none else some e.name

-- No name is forbidden.
abbrev pub AllPublic : List String → Type 0
AllPublic = All (λ name. forbidden name ≡ false)

-- How the validation of a list of names has ended: where it has failed, its error has a forbidden name
-- that stands after names that are not.
abbrev pub Validated : List String → Result HeaderOwnershipError (Unit {0}) → Type 0
Validated keys (ok _) = AllPublic keys
Validated keys (err e) =
    (forbidden e.name ≡ true)
    × (before : List String) × (after : List String) × (keys ≡ before ++ e.name ∷ after)
    × AllPublic before

find-none-AllPublic :
    (keys : List String) → find is_forbidden_public_header keys ≡ none → AllPublic keys
find-none-AllPublic [] h = tt
find-none-AllPublic (k ∷ keys) h =
    let same = is_forbidden_public_header-forbidden k in
    elim (Bool-cases (is_forbidden_public_header k)) [
      | inl e ↦ absurd (ground (arith, e, h))
      | inr e ↦ (sym same ∙ e, find-none-AllPublic keys (ground (arith, e, h)))
    ]

find-some-Validated :
    (keys : List String) (name : String)
    → find is_forbidden_public_header keys ≡ some name
    → Validated keys (err (record { name = name }))
find-some-Validated [] name h = absurd (ground (arith, h))
find-some-Validated (k ∷ keys) name h =
    let same = is_forbidden_public_header-forbidden k in
    elim (Bool-cases (is_forbidden_public_header k)) [
      | inl e ↦
          let this : (k ≡ name) = ground (arith, e, h) in
          (ap forbidden (sym this) ∙ (sym same ∙ e), [], keys, ap (λ n. n ∷ keys) this, tt)
      | inr e ↦
          let (bad, before, after, split, public) =
            find-some-Validated keys name (ground (arith, e, h)) in
          (bad, k ∷ before, after, ap (λ ks. k ∷ ks) split, (sym same ∙ e, public))
    ]

-- Public headers are accepted only if no name is forbidden, which is one that the protocol, the transport
-- or the client sets, or one that in lower case is or contains a text that names a credential and neither
-- identifies a request nor belongs to a response; otherwise the error has the first name that is.
pub validate_public_headers-Validated :
    (keys : List String) → Validated keys (validate_public_headers keys)
unfolding validate_public_headers
validate_public_headers-Validated keys =
    option_holds (Validated keys) (find is_forbidden_public_header keys) _ _
      (find-none-AllPublic keys) (find-some-Validated keys)
