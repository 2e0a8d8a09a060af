-- ===== src/Auth/Examples.antt =====
-- The planning, binding and materialization of credentials on examples.
use concord_api.Base.{
  All, ℕ, ◌+◌, ◌≡◌, refl, String, String-discrete, Option, none, some, List, [], ◌∷◌, ok,
}
use concord_api.Headers.Text.{to_lower, eq_ignore_ascii_case}
use concord_api.Auth.Uses.{
  CredentialId, CredentialId-discrete, CredentialRef-discrete, AuthUsageId-discrete,
  StepId-discrete, AuthProvenance-discrete, AuthPlacement, AuthChallengePolicy, AuthRequirement,
}
use concord_api.Auth.Placement.{
  PlannedAuthPlacement, PlannedAuthSlot, AuthPlacementPlan, from_auth_plan, planned_slot,
  check_placement, plan_requirement, plan_requirements,
}
use concord_api.Auth.Placement.Planned.{IsPlanned}
use concord_api.Auth.Placement.Targets.{AreDistinct, IsFree}
use concord_api.Auth.Placement.Outcome.{Realizes, from_auth_plan-IsPlanned}
use concord_api.Auth.Material.{
  AuthTransportMaterial, PreparedAuthCredential, AuthPreparationReuse, validate_binding,
  validate_requirement, apply_secret_credential,
}
use concord_api.Auth.Material.Bound.{prepared_credential_is_bound}
use concord_api.Auth.Binding.{
  ErasedValue, ErasedCredentialSlot, AuthProviderBinding, AuthPreparationMode, AuthChallengeMode,
  secret_binding, applied_credential, materialize, prepared_of,
}
use concord_api.Auth.Orchestrator.{prepare, prepare_binding}

abbrev pub token : CredentialId
token = record { namespace = "app"; name = "token" }

abbrev pub requirement_at : String → AuthPlacement → AuthRequirement
requirement_at usage placement = record {
  credential = record { id = token };
  placement = placement;
  usage_id = record { usage = usage };
  step_id = none;
  provenance = record { layer = "endpoint" };
  challenge = AuthChallengePolicy.unauthorized;
}

abbrev pub bearer_requirement : AuthRequirement
bearer_requirement = requirement_at "bearer" AuthPlacement.bearer

abbrev pub query_requirement : AuthRequirement
query_requirement = requirement_at "query" (AuthPlacement.query "app_id")

abbrev pub any_name : String → Option String
any_name name = some name

abbrev pub bearer_slot : PlannedAuthSlot
bearer_slot = planned_slot bearer_requirement PlannedAuthPlacement.bearer 1

abbrev query_slot : PlannedAuthSlot
query_slot = planned_slot query_requirement (PlannedAuthPlacement.query "app_id") 2

abbrev pub two_slots : List PlannedAuthSlot
two_slots = bearer_slot ∷ query_slot ∷ []

abbrev two_requirements : List AuthRequirement
two_requirements = bearer_requirement ∷ query_requirement ∷ []

abbrev pub two_placements : AuthPlacementPlan
two_placements = record { slots = two_slots; sensitive_query_keys = "app_id" ∷ [] }

two_are_planned : from_auth_plan any_name two_requirements 1 ≡ (ok two_placements, 3)
unfolding from_auth_plan plan_requirements plan_requirement check_placement eq_ignore_ascii_case
    to_lower
two_are_planned = refl

from_auth_plan-IsPlanned_example :
    IsPlanned two_placements 3
    × Realizes any_name two_requirements two_slots
    × AreDistinct two_slots
    × All (λ s. IsFree s.placement) two_slots
from_auth_plan-IsPlanned_example =
    from_auth_plan-IsPlanned any_name two_requirements 1 two_placements 3 two_are_planned

-- A slot whose world is the generation of its credential.
abbrev pub counting_slot : ErasedCredentialSlot ℕ
counting_slot = record {
  id = token;
  get_or_refresh =
      λ reason policy w. (ok (record { value = ErasedValue.secret_value "s"; generation = w }), w);
  invalidate = λ reason generation why w. (ok tt, w + 1);
  invalidate_local = λ generation w. (ok tt, w + 1);
}

abbrev pub counting_binding : CredentialId → Option (AuthProviderBinding ℕ)
counting_binding id =
    some (secret_binding counting_slot AuthPreparationMode.request_local AuthChallengeMode.refresh)

abbrev bearer_prepared : PreparedAuthCredential
bearer_prepared = record {
  applied = applied_credential bearer_requirement 7;
  reuse = AuthPreparationReuse.request_local;
  material = AuthTransportMaterial.secret 1 "s";
}

bearer_is_prepared :
    prepare counting_binding bearer_requirement bearer_slot 7 ≡ (ok bearer_prepared, 7)
unfolding prepare prepare_binding prepared_of materialize apply_secret_credential
    validate_requirement CredentialId-discrete CredentialRef-discrete AuthUsageId-discrete
    StepId-discrete AuthProvenance-discrete String-discrete
bearer_is_prepared = refl

prepared_credential_is_bound_example : validate_binding bearer_prepared bearer_slot ≡ ok tt
prepared_credential_is_bound_example =
    prepared_credential_is_bound counting_binding bearer_requirement bearer_slot 7 bearer_prepared 7
      bearer_is_prepared
