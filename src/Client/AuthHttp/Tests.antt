-- ===== src/Client/AuthHttp/Tests.antt =====
-- Calls of a provider: guards that are dropped out of order, and responses at the limit.
use concord_api.Auth.Errors.{AuthError, AuthErrorKind, auth_error}
use concord_api.Auth.Uses.{CredentialId}
use concord_api.Auth.Placement.{
  from_auth_plan, plan_requirements, plan_requirement, check_placement,
}
use concord_api.Auth.Placement.Public.{validate_public_request}
use concord_api.Auth.Binding.{
  ErasedCredentialSlot, ErasedValue, AuthProviderBinding, AuthPreparationMode, AuthChallengeMode,
  secret_binding, serves,
}
use concord_api.Auth.Material.{PreparedAuthCredential}
use concord_api.Auth.Orchestrator.{prepare, prepare_binding}
use concord_api.Auth.Examples.{token, bearer_requirement, any_name}
use concord_api.Transport.Tests.{Request, request_crate, public_request}
use concord_api.Base.{
  ◌≡◌, refl, ◌⊎◌, arith, ◌≤◌, ◌<◌, true, false, ltb, String-discrete, some, List, [], ◌∷◌,
  is_some_and, ok, err, ℕ, String, Result, Option, ◌+◌, if_holds,
}
use concord_api.Client.AuthHttp.{
  AuthMode, Internal, AuthHttpCall, auth_materials, send, push, drop_stack_guard, body_limit_error,
  read_response,
}
use concord_api.Client.AuthHttp.Guard.{StackEvent, after_events, drop_stack_guard-push}
use concord_api.Client.AuthHttp.Nested.{StackKept, RecursionRefused, send-StackKept}
use concord_api.Client.AuthHttp.Chunks.{all_read, read_response-all_read}

abbrev two_calls : List StackEvent
two_calls = StackEvent.entered "oauth:refresh" ∷ StackEvent.left "oauth:login" ∷ []

out_of_order :
    after_events (push ("oauth:login" ∷ []) "oauth:token") two_calls
    ≡ "oauth:token" ∷ "oauth:refresh" ∷ []
unfolding String-discrete
out_of_order = refl

drop_stack_guard-push_example :
    drop_stack_guard
      (after_events (push ("oauth:login" ∷ []) "oauth:token") two_calls)
      "oauth:token"
    ≡ "oauth:refresh" ∷ []
unfolding String-discrete
drop_stack_guard-push_example =
    drop_stack_guard-push ("oauth:login" ∷ []) "oauth:token" two_calls refl (refl, (refl, tt))

read_response-all_read_example :
    ((3 ≤ 3)
      × (is_some_and (some 3) (λ actual. ltb 3 actual) ≡ false)
      × (read_response 3 (some 3, all_read ((1 ∷ 2 ∷ []) ∷ (3 ∷ []) ∷ [])) ≡ ok (1 ∷ 2 ∷ 3 ∷ [])))
    ⊎ (((3 < 3) ⊎ (is_some_and (some 3) (λ actual. ltb 3 actual) ≡ true))
        × (read_response 3 (some 3, all_read ((1 ∷ 2 ∷ []) ∷ (3 ∷ []) ∷ []))
            ≡ err body_limit_error))
read_response-all_read_example =
    read_response-all_read 3 (some 3) ((1 ∷ 2 ∷ []) ∷ (3 ∷ []) ∷ []) (omega arith)

-- A slot whose world has the generation of its credential, and a call that uses it.
abbrev internal_slot : ErasedCredentialSlot (Internal ℕ)
internal_slot = record {
  id = token;
  get_or_refresh = λ reason policy s.
      (ok (record { value = ErasedValue.secret_value "s"; generation = s.world }), s);
  invalidate = λ reason generation why s. (ok tt, s);
  invalidate_local = λ generation s. (ok tt, s);
}

abbrev internal_binding : CredentialId → Option (AuthProviderBinding (Internal ℕ))
internal_binding id =
    some (secret_binding internal_slot AuthPreparationMode.request_local AuthChallengeMode.refresh)

abbrev provider_call : AuthHttpCall ℕ Request String
provider_call = record {
  mode = AuthMode.use_auth (record { namespace = "oauth"; name = "token" }) bearer_requirement;
  request = record { header_names = []; query_keys = []; reserved_headers = [] };
  max_body_bytes = 3;
  from_bytes = any_name;
  preflight_url = true;
  body_is_replayable = true;
  media_type_agrees = true;
  auth_state = λ w. ok tt;
  binding_of = internal_binding;
  produce_body = λ w. (ok public_request, w + 1);
  native = request_crate;
  execute = λ m w. (ok (some 2, ok (1 ∷ 2 ∷ []) ∷ []), w + 1);
}

abbrev nested : Internal ℕ
nested = record { stack = "oauth:token" ∷ []; next_slot = 1; world = 7 }

-- The call is refused, with a counter that has moved on.
refused : send provider_call nested ≡ (
  err (auth_error AuthErrorKind.recursion_detected "internal auth recursion detected"),
  record { stack = "oauth:token" ∷ []; next_slot = 2; world = 7 },
)
unfolding send auth_materials from_auth_plan plan_requirements plan_requirement check_placement
    validate_public_request String-discrete
refused = refl

internal_stack_kept : StackKept provider_call
unfolding prepare prepare_binding
internal_stack_kept requirement slot s =
    let binding =
      secret_binding internal_slot AuthPreparationMode.request_local AuthChallengeMode.refresh in
    if_holds (λ (r : Result AuthError PreparedAuthCredential × Internal ℕ). r.1.stack ≡ s.stack)
      (serves binding requirement) _ _ (λ _. refl) (λ _. refl)

send-StackKept_example :
    ((send provider_call nested).1.stack ≡ nested.stack)
    × RecursionRefused provider_call provider_call.mode nested (send provider_call nested)
send-StackKept_example = send-StackKept provider_call internal_stack_kept nested
