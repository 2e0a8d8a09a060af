-- ===== src/Client/Tests.antt =====
-- An execution whose first credential is rejected.
use concord_api.Base.{
  ℕ, ◌≤◌, ◌≡◌, refl, true, false, ltb, String-discrete, ℕ_discrete, some, List, [], ◌∷◌, ok,
  traverse, if◌then◌else◌,
}
use concord_api.Error.{ErrorContext}
use concord_api.Auth.Uses.{
  CredentialId-discrete, CredentialRef-discrete, AuthUsageId-discrete, StepId-discrete,
  AuthProvenance-discrete, AuthRequirement, AuthAppliedCredential,
}
use concord_api.Auth.Errors.{InvalidateReason}
use concord_api.Auth.Placement.{
  from_auth_plan, plan_requirements, plan_requirement, check_placement,
}
use concord_api.Auth.Placement.Public.{validate_public_request}
use concord_api.Auth.Material.{validate_requirement, apply_secret_credential, validate_binding}
use concord_api.Auth.Rejection.{
  AuthRejectionAction, AuthRecoveryReason, recover_action, auth_decision_for_status,
  Generation-discrete,
}
use concord_api.Auth.Binding.{applied_credential, materialize, prepared_of}
use concord_api.Auth.Orchestrator.{
  prepare, prepare_binding, plan_rejection, plan_binding_rejection, apply_rejection,
  apply_binding_rejection,
}
use concord_api.Auth.Examples.{bearer_requirement, counting_binding, any_name}
use concord_api.Client.Challenge.{
  action_for, gather_actions, classify_auth_rejection, resolve_action, apply_actions,
}
use concord_api.Client.Resolved.{classified_plan_resolves}
use concord_api.Client.Classified.{recoveries}
use concord_api.Client.Run.{Execution, ExecutionFamily, State, ObservedResponse}
use concord_api.Client.Prepare.{
  prepare_slots, prepare_auth, apply_auth_rejection_plan, apply_auth_rejection_step, before_send,
}
use concord_api.Client.Execute.{round, after_send, accept_response, drive_executions, first_locals}
use concord_api.Client.Course.Driven.{IsCourse, second_sent, drive_executions-IsCourse}

abbrev context : ErrorContext
context = record { endpoint = "Items"; method = "GET" }

-- The server accepts credentials of the generation 8 and later ones.
abbrev answer : ℕ → ObservedResponse
answer generation = record {
  status = if ltb generation 8 then 401 else 200;
  content_length = some 2;
  rate_limited = false;
}

abbrev execution : Execution ℕ
execution = record {
  ctx = context;
  requirements = bearer_requirement ∷ [];
  binding_of = counting_binding;
  from_bytes = any_name;
  resolve_head = λ w. ok (record { header_names = []; query_keys = []; reserved_headers = [] });
  preflight_url = true;
  auth_state = λ w. ok tt;
  is_replayable = true;
  produce_body = λ w. (ok tt, w);
  finish = λ w. ok tt;
  send = λ materials w. (ok (answer w), w);
  family = ExecutionFamily.buffered false (some 10);
}

abbrev start : State ℕ
start = record { world = 7; next_slot = 1; log = [] }

recovers_once :
    drive_executions execution 2 first_locals start
    ≡ (some (ok (answer 8)), record { world = 8; next_slot = 2; log = second_sent })
unfolding drive_executions round before_send after_send accept_response prepare_auth prepare_slots
    apply_auth_rejection_plan apply_auth_rejection_step from_auth_plan plan_requirements
    plan_requirement check_placement validate_public_request prepare prepare_binding prepared_of
    materialize apply_secret_credential validate_requirement validate_binding
    classify_auth_rejection gather_actions action_for plan_rejection plan_binding_rejection
    auth_decision_for_status apply_actions apply_rejection apply_binding_rejection
    CredentialId-discrete CredentialRef-discrete AuthUsageId-discrete StepId-discrete
    AuthProvenance-discrete String-discrete Generation-discrete ℕ_discrete
recovers_once = refl

drive_executions-IsCourse_example :
    let (result, s') = drive_executions execution 2 first_locals start in
    IsCourse true result s'.log
drive_executions-IsCourse_example = drive_executions-IsCourse execution 0 start refl

abbrev applied : List AuthAppliedCredential
applied = applied_credential bearer_requirement 7 ∷ []

abbrev actions : List AuthRejectionAction
actions =
    recover_action bearer_requirement (applied_credential bearer_requirement 7)
      AuthRecoveryReason.unauthorized (some InvalidateReason.unauthorized)
    ∷ []

abbrev is_classified :
    classify_auth_rejection counting_binding context (bearer_requirement ∷ []) 401 applied
    ≡ ok (some actions)
unfolding classify_auth_rejection gather_actions action_for plan_rejection plan_binding_rejection
    auth_decision_for_status CredentialId-discrete CredentialRef-discrete AuthUsageId-discrete
    StepId-discrete String-discrete Generation-discrete ℕ_discrete
is_classified = refl

classified_plan_resolves_example :
    (recoveries actions ≤ 1)
    × (bindings : List (AuthRejectionAction × (AuthRequirement × AuthAppliedCredential)))
    × (traverse (resolve_action context (bearer_requirement ∷ []) applied) actions ≡ ok bindings)
classified_plan_resolves_example =
    classified_plan_resolves counting_binding context (bearer_requirement ∷ []) 401 applied actions
      is_classified
