-- ===== src/Client/Challenge.antt =====
-- concord_core/src/client/execute.rs: how a response is classified as a challenge, and how the rejection
-- of the applied credentials is carried out.
use concord_api.Base.{
  ℕ, Bool, true, false, not, ◌&&◌, ◌||◌, ◌==◌, Option, none, some, List, [], ◌∷◌, Result, ok, err,
  ◌>>=◌, beq, if◌then◌else◌, String,
}
use concord_api.Error.{ErrorContext, ApiClientError}
use concord_api.Headers.Text.{any}
use concord_api.Headers.Ownership.{find}
use concord_api.Auth.Errors.{AuthError, AuthErrorKind, auth_error}
use concord_api.Auth.Uses.{
  CredentialId, CredentialId-discrete, AuthUsageId-discrete, StepId-discrete, AuthRequirement,
  AuthAppliedCredential,
}
use concord_api.Auth.Placement.{misconfigured}
use concord_api.Auth.Rejection.{AuthRejectionAction, action_matches, append_validated}
use concord_api.Auth.Binding.{AuthProviderBinding}
use concord_api.Auth.Orchestrator.{
  plan_rejection, apply_rejection, apply_rejection_invalidation_only,
}

pub data AuthRejectionApplication : Type 0 where
  provider_capable invalidation_only : AuthRejectionApplication

-- The requirement is the one that the credential was applied for.
abbrev pub same_use : AuthRequirement → AuthAppliedCredential → Bool
same_use requirement applied =
    beq CredentialId-discrete requirement.credential.id applied.credential_id
    && (beq AuthUsageId-discrete requirement.usage_id applied.usage_id
        && beq StepId-discrete requirement.step_id applied.step_id)

abbrev pub auth_plan_mismatch : ErrorContext → String → ApiClientError
auth_plan_mismatch ctx message = ApiClientError.auth ctx (misconfigured message)

abbrev pub auth_challenge_rejected : ErrorContext → ApiClientError
auth_challenge_rejected ctx =
    ApiClientError.auth ctx (auth_error AuthErrorKind.provider_rejected "auth challenge rejected")

-- `map_err` into `ApiClientError::Auth`.
abbrev pub as_auth_error {ℓ} :
    {A : Type ℓ} → ErrorContext → Result AuthError A → Result ApiClientError A
as_auth_error ctx (ok a) = ok a
as_auth_error ctx (err e) = err (ApiClientError.auth ctx e)

abbrev pub is_nil {ℓ} : {A : Type ℓ} → List A → Bool
is_nil [] = true
is_nil (x ∷ xs) = false

abbrev pub is_protected_auth_rejection : List AuthRequirement → ℕ → Bool
is_protected_auth_rejection requirements status =
    (status == 401 || status == 403) && not (is_nil requirements)

module _ {W : Type 0} (binding_of : CredentialId → Option (AuthProviderBinding W))
    (ctx : ErrorContext) (requirements : List AuthRequirement) where
  -- The action for one applied credential, with the requirement that it is for.
  unfoldable pub action_for :
      ℕ → AuthAppliedCredential → Result ApiClientError (AuthRequirement × AuthRejectionAction)
  action_for status applied = elim (find (λ r. same_use r applied) requirements) [
    | none ↦ err (auth_plan_mismatch ctx "authentication requirement use was not applied")
    | some requirement ↦ do
      action ← as_auth_error ctx (plan_rejection binding_of requirement applied status)
      if action_matches action requirement applied
          then ok (requirement, action)
          else err (
              auth_plan_mismatch ctx
                "authentication rejection action did not match its planning pair")
  ]

  -- The loop of `classify_auth_rejection` over the applied credentials.
  unfoldable pub gather_actions :
      ℕ
      → List AuthAppliedCredential
      → List AuthRejectionAction
      → Result ApiClientError (List AuthRejectionAction)
  unfolding action_for
  gather_actions status [] aggregate = ok aggregate
  gather_actions status (a ∷ applied) aggregate = elim (action_for status a) [
    | err e ↦ err e
    | ok (requirement, action) ↦
        elim (any (λ existing. action_matches existing requirement a) aggregate) [
          | true ↦ err (
              auth_plan_mismatch ctx
                "duplicate authentication rejection action for one applied use")
          | false ↦ gather_actions status applied (append_validated aggregate action)
        ]
  ]

  unfoldable pub classify_auth_rejection :
      ℕ → List AuthAppliedCredential → Result ApiClientError (Option (List AuthRejectionAction))
  unfolding gather_actions
  classify_auth_rejection status applied =
      if is_protected_auth_rejection requirements status
      then elim (gather_actions status applied []) [
        | err e ↦ err e
        | ok actions ↦ ok (if is_nil actions then none else some actions)
      ]
      else ok none

module _ (ctx : ErrorContext) (requirements : List AuthRequirement) where
  -- `find_map` over the applied credentials: the pair that an action is for.
  abbrev pub bound_pair :
      List AuthAppliedCredential
      → AuthRejectionAction
      → Option (AuthRequirement × AuthAppliedCredential)
  bound_pair [] action = none
  bound_pair (a ∷ applied) action =
      elim (find (λ r. same_use r a && action_matches action r a) requirements) [
        | some requirement ↦ some (requirement, a)
        | none ↦ bound_pair applied action
      ]

  abbrev pub resolve_action :
      List AuthAppliedCredential
      → AuthRejectionAction
      → Result ApiClientError (AuthRejectionAction × (AuthRequirement × AuthAppliedCredential))
  resolve_action applied action = elim (bound_pair applied action) [
    | none ↦ err (
        auth_plan_mismatch ctx
          "authentication rejection plan does not match the applied credential")
    | some pair ↦ ok (action, pair)
  ]

module _ {W : Type 0} (binding_of : CredentialId → Option (AuthProviderBinding W))
    (ctx : ErrorContext) where
  -- One action on its credential, as the application says.
  abbrev pub apply_action :
      AuthRejectionApplication
      → ℕ
      → AuthRejectionAction × (AuthRequirement × AuthAppliedCredential)
      → W
      → Result AuthError (Unit {0}) × W
  apply_action AuthRejectionApplication.provider_capable status (action, (requirement, applied)) w =
      apply_rejection binding_of action requirement applied status w
  apply_action AuthRejectionApplication.invalidation_only status (action, (requirement, applied))
        w =
      apply_rejection_invalidation_only binding_of action requirement applied status w

  unfoldable pub apply_actions :
      AuthRejectionApplication
      → ℕ
      → List (AuthRejectionAction × (AuthRequirement × AuthAppliedCredential))
      → W
      → Result ApiClientError (Unit {0}) × W
  apply_actions application status [] w = (ok tt, w)
  apply_actions application status (b ∷ bindings) w =
      let (result, after) = apply_action application status b w in
      elim result [
        | err e ↦ (err (ApiClientError.auth ctx e), after)
        | ok _ ↦ apply_actions application status bindings after
      ]
