-- ===== src/Client/AuthHttp.antt =====
-- concord_core/src/client/auth_http.rs: the calls that a provider of credentials makes. A call that uses
-- a credential itself keeps the key of its requirement on a stack while the credential is prepared.
pub mod Guard
pub mod Nested
pub mod Chunks
mod Tests
use Prim.Native.String.{◌++◌ as append_text}
use concord_api.Base.{
  ℕ, ◌+◌, min, Bool, true, false, ltb, beq, contains, String, String-discrete, Option, none, some,
  is_some_and, List, [], ◌∷◌, ◌++◌, length, Result, ok, err, ◌>>=◌, ◌>>◌, u64_max, if◌then◌else◌,
}
use concord_api.Auth.Errors.{AuthError, AuthErrorKind, auth_error}
use concord_api.Auth.Uses.{CredentialId, AuthRequirement}
use concord_api.Auth.Placement.{AuthPlacementPlan, PlannedAuthSlot, empty_placement, from_auth_plan}
use concord_api.Auth.Placement.Public.{PublicRequest, validate_public_request}
use concord_api.Auth.Material.{AuthTransportMaterial, validate_binding}
use concord_api.Auth.Binding.{AuthProviderBinding}
use concord_api.Auth.Orchestrator.{prepare}
use concord_api.Transport.{NativeRequest, materialize_authentication}

-- `AuthRequirementId` with its `safe_fragment`, the key on the stack.
pub record AuthRequirementId : Type 0 where
  pub namespace : String
  pub name : String

abbrev pub safe_fragment : AuthRequirementId → String
safe_fragment id = append_text id.namespace (append_text ":" id.name)

pub data AuthMode : Type 0 where
  skip_auth : AuthMode
  use_auth : AuthRequirementId → AuthRequirement → AuthMode

-- `AUTH_INTERNAL_STACK` of the task, the last key at the end, with the counter of slot identifiers and
-- the rest of the world.
pub record Internal (W : Type 0) : Type 0 where
  pub stack : List String
  pub next_slot : ℕ
  pub world : W

-- `AuthInternalStackGuard::push`.
abbrev pub push : List String → String → List String
push stack key = stack ++ key ∷ []

abbrev pub last : List String → Option String
last [] = none
last (x ∷ xs) = elim (last xs) [ none ↦ some x | some y ↦ some y ]

abbrev pub pop : List String → List String
pop [] = []
pop (x ∷ xs) = elim xs [ [] ↦ [] | y ∷ ys ↦ x ∷ pop xs ]

-- The last occurrence of the key is removed: `rposition` and `remove`.
abbrev pub remove_last : List String → String → List String
remove_last [] key = []
remove_last (x ∷ xs) key =
    let rest = remove_last xs key in
    if contains String-discrete xs key
    then x ∷ rest
    else if beq String-discrete x key
    then xs
    else x ∷ xs

-- The drop of `AuthInternalStackGuard`.
abbrev pub drop_stack_guard : List String → String → List String
drop_stack_guard stack key =
    if is_some_and (last stack) (λ item. beq String-discrete item key)
    then pop stack
    else remove_last stack key

-- What a call reads: its request, the body that it has, and the client for providers.
pub record AuthHttpCall (W M V : Type 0) : Type 0 where
  pub mode : AuthMode
  pub request : PublicRequest
  pub max_body_bytes : ℕ
  pub from_bytes : String → Option String
  pub preflight_url : Bool
  pub body_is_replayable : Bool
  pub media_type_agrees : Bool
  pub auth_state : W → Result AuthError (Unit {0})
  pub binding_of : CredentialId → Option (AuthProviderBinding (Internal W))
  pub produce_body : W → Result AuthError M × W
  pub native : NativeRequest M V
  pub execute : M → W → Result String (Option ℕ × List (Result String (List ℕ))) × W

abbrev pub body_limit_error : AuthError
body_limit_error =
    auth_error AuthErrorKind.response_too_large "auth response body exceeded configured limit"

-- The loop over the chunks of the response, with the bytes so far and their count.
abbrev pub collect_chunks :
    ℕ → List (Result String (List ℕ)) → ℕ → List ℕ → Result AuthError (List ℕ)
collect_chunks limit [] seen body = ok body
collect_chunks limit (err e ∷ chunks) seen body =
    err (auth_error AuthErrorKind.response_body "auth response body read failed")
collect_chunks limit (ok chunk ∷ chunks) seen body =
    let actual = min (seen + length chunk) u64_max in
    let rest = collect_chunks limit chunks actual (body ++ chunk) in
    if ltb limit actual then err body_limit_error else rest

-- The response's body: refused by its stated length, or read.
abbrev pub read_response : ℕ → Option ℕ × List (Result String (List ℕ)) → Result AuthError (List ℕ)
read_response limit (content_length, chunks) =
    if is_some_and content_length (λ actual. ltb limit actual)
    then err body_limit_error
    else collect_chunks limit chunks 0 []

abbrev require : Bool → AuthErrorKind → String → Result AuthError (Unit {0})
require condition kind message = if condition then ok tt else err (auth_error kind message)

-- Whether the key is on the stack.
abbrev pub is_recursive : List String → String → Bool
is_recursive = contains String-discrete

module _ {W M V : Type 0} (call : AuthHttpCall W M V) where
  abbrev pub Step : Type 0 → Type 0
  Step A = Result AuthError A × Internal W

  abbrev plan_of : AuthMode → Internal W → Step AuthPlacementPlan
  plan_of AuthMode.skip_auth s = (ok empty_placement, s)
  plan_of (AuthMode.use_auth id requirement) s =
      let (planned, after) = from_auth_plan call.from_bytes (requirement ∷ []) s.next_slot in
      (planned, record s { next_slot = after })

  -- The checks before any credential is prepared.
  abbrev pub checks : AuthPlacementPlan → Result AuthError (Unit {0})
  checks plan =
      validate_public_request plan.slots call.request
      >> require call.preflight_url AuthErrorKind.tls_capability_unavailable
          "HTTPS requires an available TLS capability"
      >> require call.body_is_replayable AuthErrorKind.unsupported_scheme
          "auth-internal request body category is not supported"
      >> require call.media_type_agrees AuthErrorKind.invalid_configuration
          "auth-internal Content-Type conflicts with prepared body media type"

  abbrev first_slot : AuthPlacementPlan → Result AuthError PlannedAuthSlot
  first_slot plan = elim plan.slots [
    | [] ↦ err (
        auth_error AuthErrorKind.invalid_configuration
          "validated internal auth plan must contain one slot")
    | slot ∷ slots ↦ ok slot
  ]

  -- The credential is prepared with the key on the stack, and the guard dropped after it, errors included.
  unfoldable pub prepare_guarded :
      String → AuthRequirement → PlannedAuthSlot → Internal W → Step (List AuthTransportMaterial)
  prepare_guarded key requirement slot s =
      let (prepared, after) =
        prepare call.binding_of requirement slot (record s { stack = push s.stack key }) in
      (
        (prepared >>= λ p. validate_binding p slot >>= λ _. ok (p.material ∷ [])),
        record after { stack = drop_stack_guard after.stack key },
      )

  unfoldable pub auth_materials :
      AuthMode → AuthPlacementPlan → Internal W → Step (List AuthTransportMaterial)
  unfolding prepare_guarded
  auth_materials AuthMode.skip_auth plan s = (ok [], s)
  auth_materials (AuthMode.use_auth id requirement) plan s =
      let ready = call.auth_state s.world >> first_slot plan in
      if is_recursive s.stack (safe_fragment id)
      then (err (auth_error AuthErrorKind.recursion_detected "internal auth recursion detected"), s)
      else elim ready [
        | err e ↦ (err e, s)
        | ok slot ↦ prepare_guarded (safe_fragment id) requirement slot s
      ]

  -- The built request is given its credential, executed once, and its response read.
  unfoldable pub execute_with :
      M → AuthPlacementPlan → List AuthTransportMaterial → Internal W → Step (List ℕ)
  execute_with m plan materials s =
      elim (materialize_authentication call.native m plan.slots materials) [
        | err e ↦ (err (auth_error AuthErrorKind.acquire_failed e.message), s)
        | ok message ↦
            let (result, after) = call.execute message s.world in
            (
              elim result [
                | err e ↦ err (auth_error AuthErrorKind.acquire_failed e)
                | ok response ↦ read_response call.max_body_bytes response
              ],
              record s { world = after },
            )
      ]

  unfoldable pub submit :
      AuthPlacementPlan → List AuthTransportMaterial → Internal W → Step (List ℕ)
  unfolding execute_with
  submit plan materials s =
      let (produced, w) = call.produce_body s.world in
      elim produced [
        | err e ↦ (err e, record s { world = w })
        | ok m ↦ execute_with m plan materials (record s { world = w })
      ]

  -- `AuthHttpExecutor::send`, with the body of the response; its status and headers are passed on.
  unfoldable pub send : Internal W → Step (List ℕ)
  unfolding auth_materials submit
  send s =
      let (planned, s') = plan_of call.mode s in
      elim (planned >>= λ plan. checks plan >> ok plan) [
        | err e ↦ (err e, s')
        | ok plan ↦
            let (materials, after) = auth_materials call.mode plan s' in
            elim materials [ err e ↦ (err e, after) | ok ms ↦ submit plan ms after ]
      ]
