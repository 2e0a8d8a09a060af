-- ===== src/Client/Run.antt =====
-- concord_core/src/client: the parts of one request's execution, and the actions that a round is made of.
use concord_api.Base.{ℕ, Bool, Option, String, List, ◌∷◌, Result, ok, err}
use concord_api.Error.{ErrorContext, ApiClientError}
use concord_api.Auth.Errors.{AuthError}
use concord_api.Auth.Uses.{CredentialId, AuthRequirement, AuthAppliedCredential}
use concord_api.Auth.Placement.{AuthPlacementPlan}
use concord_api.Auth.Placement.Public.{PublicRequest}
use concord_api.Auth.Material.{AuthTransportMaterial}
use concord_api.Auth.Rejection.{AuthRejectionAction}
use concord_api.Auth.Binding.{AuthProviderBinding}

-- A response whose body was not read: its status, the length that its body states, and whether the rate
-- limiter stored a cooldown for it.
pub record ObservedResponse : Type 0 where
  pub status : ℕ
  pub content_length : Option ℕ
  pub rate_limited : Bool

pub data ExecutionFamily : Type 0 where
  buffered : Bool → Option ℕ → ExecutionFamily
  stream : Option ℕ → ExecutionFamily

-- What one request reads and calls. The public head is resolved again for each round; `send` is
-- `send_and_observe_once`, with the materials of the credentials.
pub record Execution (W : Type 0) : Type 0 where
  pub ctx : ErrorContext
  pub requirements : List AuthRequirement
  pub binding_of : CredentialId → Option (AuthProviderBinding W)
  pub from_bytes : String → Option String
  pub resolve_head : W → Result ApiClientError PublicRequest
  pub preflight_url : Bool
  pub auth_state : W → Result AuthError (Unit {0})
  pub is_replayable : Bool
  pub produce_body : W → Result ApiClientError (Unit {0}) × W
  pub finish : W → Result ApiClientError (Unit {0})
  pub send : List AuthTransportMaterial → W → Result ApiClientError ObservedResponse × W
  pub family : ExecutionFamily

-- What the execution has done that the server or the credentials can see.
pub data Event : Type 0 where
  sent released rejection_applied : Event

-- The world, the counter of slot identifiers, and the events so far, the last one first.
pub record State (W : Type 0) : Type 0 where
  pub world : W
  pub next_slot : ℕ
  pub log : List Event

-- `AuthAttemptSummary` with the materials, and whether the request may use them again.
pub record AuthPreparation : Type 0 where
  pub applied : List AuthAppliedCredential
  pub materials : List AuthTransportMaterial
  pub cacheable : Bool

-- `AuthResendIntent`.
pub record AuthResendIntent : Type 0 where
  pub rejection_plan : List AuthRejectionAction
  pub status : ℕ
  pub auth_attempt : List AuthAppliedCredential

-- The variables of `drive_executions` that live across its rounds.
pub record Locals : Type 0 where
  pub placement_plan : Option AuthPlacementPlan
  pub snapshot : Bool
  pub pending_auth : Option AuthResendIntent
  pub recovery_initiated : Bool
  pub cached_preparation : Option AuthPreparation

-- An action of the execution; the state comes back after an error too.
abbrev pub Action : Type 0 → Type 0 → Type 0
Action W A = State W → Result ApiClientError A × State W

module _ {W : Type 0} where
  abbrev pub pure {ℓ} : {A : Type ℓ} → A → State W → Result ApiClientError A × State W
  pure a s = (ok a, s)

  abbrev pub raise {ℓ} : {A : Type ℓ} → ApiClientError → State W → Result ApiClientError A × State W
  raise e s = (err e, s)

  -- What follows where the result is not an error.
  abbrev pub continue :
      {A B : Type 0}
      → (A → Action W B)
      → Result ApiClientError A × State W
      → Result ApiClientError B × State W
  continue k (ok a, s) = k a s
  continue k (err e, s) = (err e, s)

  infixl 5 ◌>>=◌ ◌>>◌
  abbrev pub ◌>>=◌ : {A B : Type 0} → Action W A → (A → Action W B) → Action W B
  (m >>= k) s = continue k (m s)

  abbrev pub ◌>>◌ : {A B : Type 0} → Action W A → Action W B → Action W B
  m >> k = m >>= λ _. k

  abbrev pub lift_result : {A : Type 0} → Result ApiClientError A → Action W A
  lift_result r s = (r, s)

  -- An operation that changes the world.
  abbrev pub on_world : {A : Type 0} → (W → Result ApiClientError A × W) → Action W A
  on_world f s = let (r, w) = f s.world in (r, record s { world = w })

  abbrev pub read_world : {A : Type 0} → (W → Result ApiClientError A) → Action W A
  read_world f s = (f s.world, s)

  abbrev pub emit : Event → Action W (Unit {0})
  emit e s = (ok tt, record s { log = e ∷ s.log })
