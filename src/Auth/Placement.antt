-- ===== src/Auth/Placement.antt =====
-- concord_core/src/auth/plan.rs: where each credential will stand in a request, planned before any is
-- acquired. A query key or header name is a text; a `HeaderName` is its lower-case text.
pub mod Keys
pub mod Planned
pub mod Targets
pub mod Outcome
pub mod Public
use concord_api.Base.{
  ℕ, ◌+◌, Bool, true, false, ◌||◌, String, String-discrete, Option, none, some, List, [], ◌∷◌, ◌++◌,
  Result, ok, err, ◌>>=◌, ok_or, beq, contains, checked_add, u64_max, if◌then◌else◌,
}
use concord_api.Headers.Text.{any, as_bytes, eq_ignore_ascii_case}
use concord_api.Headers.Names.{is_forbidden_auth_placement}
use concord_api.Auth.Errors.{AuthError, AuthErrorKind, auth_error}
use concord_api.Auth.Uses.{
  CredentialRef, AuthUsageId, AuthProvenance, AuthPlacement, AuthRequirement,
}

pub data PlannedAuthPlacement : Type 0 where
  bearer basic : PlannedAuthPlacement
  header query : String → PlannedAuthPlacement

pub record PlannedAuthSlot : Type 0 where
  pub id : ℕ
  pub credential : CredentialRef
  pub usage_id : AuthUsageId
  pub step_id : Option String
  pub provenance : AuthProvenance
  pub placement : PlannedAuthPlacement

pub record AuthPlacementPlan : Type 0 where
  pub slots : List PlannedAuthSlot
  pub sensitive_query_keys : List String

abbrev pub empty_placement : AuthPlacementPlan
empty_placement = record { slots = []; sensitive_query_keys = [] }

-- `AuthErrorKind::InvalidConfiguration` with a message.
abbrev pub misconfigured : String → AuthError
misconfigured message = auth_error AuthErrorKind.invalid_configuration message

-- `AuthSlotId::next`: the identifier, and the counter after it.
abbrev pub next_slot_id : ℕ → Result AuthError ℕ × ℕ
next_slot_id counter = elim (checked_add u64_max counter 1) [
  | none ↦ (err (misconfigured "auth slot id counter overflowed"), counter)
  | some after ↦ (ok counter, after)
]

abbrev pub is_authorization : String → Bool
is_authorization name = beq String-discrete name "authorization"

abbrev pub placements_collide : PlannedAuthPlacement → PlannedAuthPlacement → Bool
placements_collide (PlannedAuthPlacement.header n) (PlannedAuthPlacement.header m) =
    beq String-discrete n m
placements_collide (PlannedAuthPlacement.header n) (PlannedAuthPlacement.query m) = false
placements_collide (PlannedAuthPlacement.header n) PlannedAuthPlacement.bearer = is_authorization n
placements_collide (PlannedAuthPlacement.header n) PlannedAuthPlacement.basic = is_authorization n
placements_collide (PlannedAuthPlacement.query n) (PlannedAuthPlacement.query m) =
    beq String-discrete n m
placements_collide (PlannedAuthPlacement.query n) (PlannedAuthPlacement.header m) = false
placements_collide (PlannedAuthPlacement.query n) PlannedAuthPlacement.bearer = false
placements_collide (PlannedAuthPlacement.query n) PlannedAuthPlacement.basic = false
placements_collide PlannedAuthPlacement.bearer (PlannedAuthPlacement.header m) = is_authorization m
placements_collide PlannedAuthPlacement.basic (PlannedAuthPlacement.header m) = is_authorization m
placements_collide PlannedAuthPlacement.bearer (PlannedAuthPlacement.query m) = false
placements_collide PlannedAuthPlacement.basic (PlannedAuthPlacement.query m) = false
placements_collide PlannedAuthPlacement.bearer PlannedAuthPlacement.bearer = true
placements_collide PlannedAuthPlacement.bearer PlannedAuthPlacement.basic = true
placements_collide PlannedAuthPlacement.basic PlannedAuthPlacement.bearer = true
placements_collide PlannedAuthPlacement.basic PlannedAuthPlacement.basic = true

-- Whether the placement is a header that authentication may not own.
abbrev pub is_reserved : PlannedAuthPlacement → Bool
is_reserved PlannedAuthPlacement.bearer = false
is_reserved PlannedAuthPlacement.basic = false
is_reserved (PlannedAuthPlacement.header name) = is_forbidden_auth_placement name
is_reserved (PlannedAuthPlacement.query name) = false

-- The sensitive query keys after a placement was planned.
abbrev pub with_query_key : AuthPlacement → List String → List String
with_query_key AuthPlacement.bearer keys = keys
with_query_key AuthPlacement.basic keys = keys
with_query_key (AuthPlacement.header name) keys = keys
with_query_key (AuthPlacement.query name) keys =
    if any (λ existing. eq_ignore_ascii_case (as_bytes existing) (as_bytes name)) keys
    then keys
    else keys ++ name ∷ []

-- The slot that is pushed for a requirement.
abbrev pub planned_slot : AuthRequirement → PlannedAuthPlacement → ℕ → PlannedAuthSlot
planned_slot requirement placement id = record {
  id = id;
  credential = requirement.credential;
  usage_id = requirement.usage_id;
  step_id = requirement.step_id;
  provenance = requirement.provenance;
  placement = placement;
}

-- `from_bytes` is `HeaderName::from_bytes` of the crate `http`.
module _ (from_bytes : String → Option String) where
  abbrev pub plan_placement : AuthPlacement → Result AuthError PlannedAuthPlacement
  plan_placement AuthPlacement.bearer = ok PlannedAuthPlacement.bearer
  plan_placement AuthPlacement.basic = ok PlannedAuthPlacement.basic
  plan_placement (AuthPlacement.header name) = do
    parsed ← ok_or (from_bytes name) (misconfigured "invalid auth header name")
    ok (PlannedAuthPlacement.header parsed)
  plan_placement (AuthPlacement.query name) = ok (PlannedAuthPlacement.query name)

  -- The placement of one requirement, checked against the slots before it.
  unfoldable pub check_placement :
      AuthRequirement → AuthPlacementPlan → Result AuthError PlannedAuthPlacement
  check_placement requirement planned = do
    placement ← plan_placement requirement.placement
    if is_reserved placement
        then err (misconfigured "authentication may not own reserved header")
        else if any (λ existing. placements_collide existing.placement placement) planned.slots
        then err (misconfigured "duplicate authentication placement target")
        else ok placement

  -- One round of the loop of `from_auth_plan`, with the counter of slot identifiers.
  unfoldable pub plan_requirement :
      AuthRequirement → AuthPlacementPlan → ℕ → Result AuthError AuthPlacementPlan × ℕ
  unfolding check_placement
  plan_requirement requirement planned counter = elim (check_placement requirement planned) [
    | err e ↦ (err e, counter)
    | ok placement ↦
        let (id, after) = next_slot_id counter in
        elim id [
          | err e ↦ (err e, after)
          | ok i ↦ (
            ok (record {
              slots = planned.slots ++ planned_slot requirement placement i ∷ [];
              sensitive_query_keys =
                  with_query_key requirement.placement planned.sensitive_query_keys;
            }),
            after,
          )
        ]
  ]

  unfoldable pub plan_requirements :
      List AuthRequirement → AuthPlacementPlan → ℕ → Result AuthError AuthPlacementPlan × ℕ
  unfolding plan_requirement
  plan_requirements [] planned counter = (ok planned, counter)
  plan_requirements (r ∷ rs) planned counter =
      let (result, after) = plan_requirement r planned counter in
      elim result [ err e ↦ (err e, after) | ok next ↦ plan_requirements rs next after ]

  unfoldable pub from_auth_plan : List AuthRequirement → ℕ → Result AuthError AuthPlacementPlan × ℕ
  unfolding plan_requirements
  from_auth_plan requirements counter = plan_requirements requirements empty_placement counter
