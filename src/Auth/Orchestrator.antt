-- ===== src/Auth/Orchestrator.antt =====
-- concord_core/src/auth/orchestrator.rs: the operations of authentication on the provider of each
-- requirement.
use concord_api.Base.{ℕ, not, Option, none, some, is_some, Result, ok, err, ◌==◌, if◌then◌else◌}
use concord_api.Auth.Errors.{AuthError, InvalidateReason, CredentialRefreshReason}
use concord_api.Auth.Slot.{default_policy}
use concord_api.Auth.Uses.{CredentialId, AuthRequirement, AuthAppliedCredential}
use concord_api.Auth.Placement.{PlannedAuthSlot, misconfigured}
use concord_api.Auth.Material.{PreparedAuthCredential}
use concord_api.Auth.Rejection.{
  AuthRejectionAction, action_matches, requests_recovery, invalidate_reason,
  auth_decision_for_status, terminal_action, recover_action,
}
use concord_api.Auth.Binding.{AuthProviderBinding, serves, leased, prepared_of}

-- `rejection_invalidation_reason`.
abbrev pub rejection_invalidation_reason : AuthRejectionAction → ℕ → Option InvalidateReason
rejection_invalidation_reason action status = elim (invalidate_reason action) [
  | some reason ↦ some reason
  | none ↦
      if requests_recovery action
      then some
          (if status == 403 then InvalidateReason.forbidden else InvalidateReason.unauthorized)
      else none
]

abbrev no_binding : AuthError
no_binding = misconfigured "authentication requirement has no generated provider binding"

abbrev wrong_action : AuthError
wrong_action = misconfigured "authentication rejection action does not match its provider binding"

abbrev wrong_binding : AuthError
wrong_binding = misconfigured "authentication provider binding does not match its requirement"

module _ {W : Type 0} where
  unfoldable pub prepare_binding :
      AuthProviderBinding W
      → AuthRequirement
      → PlannedAuthSlot
      → W
      → Result AuthError PreparedAuthCredential × W
  unfolding prepared_of
  prepare_binding binding requirement planned w =
      if serves binding requirement
      then leased binding requirement planned
          (binding.slot.get_or_refresh CredentialRefreshReason.missing default_policy w)
      else (err wrong_binding, w)

  unfoldable pub plan_binding_rejection :
      AuthProviderBinding W
      → AuthRequirement
      → AuthAppliedCredential
      → ℕ
      → Result AuthError AuthRejectionAction
  plan_binding_rejection binding requirement applied status =
      if serves binding requirement
      then elim (auth_decision_for_status status requirement default_policy) [
        | none ↦ ok (terminal_action requirement applied none)
        | some decision ↦
            ok (elim (if binding.refresh_on_challenge then decision.recovery else none) [
              | some reason ↦ recover_action requirement applied reason decision.invalidate
              | none ↦ terminal_action requirement applied decision.invalidate
            ])
      ]
      else err wrong_binding

  -- The body of `apply_binding_rejection` after its checks: an action that asks for a recovery lets the
  -- provider take part, any other invalidates locally.
  abbrev apply_reason :
      AuthProviderBinding W
      → AuthRejectionAction
      → AuthAppliedCredential
      → InvalidateReason
      → W
      → Result AuthError (Unit {0}) × W
  apply_reason binding action applied reason w =
      if requests_recovery action
      then binding.slot.invalidate CredentialRefreshReason.rejected applied.generation reason w
      else binding.slot.invalidate_local applied.generation w

  unfoldable pub apply_binding_rejection :
      AuthProviderBinding W
      → AuthRejectionAction
      → AuthRequirement
      → AuthAppliedCredential
      → ℕ
      → W
      → Result AuthError (Unit {0}) × W
  apply_binding_rejection binding action requirement applied status w =
      if not (serves binding requirement)
      then (err wrong_binding, w)
      else if not (action_matches action requirement applied)
      then (err wrong_action, w)
      else elim (rejection_invalidation_reason action status) [
        | none ↦ (ok tt, w)
        | some reason ↦ apply_reason binding action applied reason w
      ]

  unfoldable pub apply_binding_rejection_invalidation_only :
      AuthProviderBinding W
      → AuthRejectionAction
      → AuthRequirement
      → AuthAppliedCredential
      → ℕ
      → W
      → Result AuthError (Unit {0}) × W
  apply_binding_rejection_invalidation_only binding action requirement applied status w =
      if not (serves binding requirement)
      then (err wrong_binding, w)
      else if not (action_matches action requirement applied)
      then (err wrong_action, w)
      else if is_some (rejection_invalidation_reason action status)
      then binding.slot.invalidate_local applied.generation w
      else (ok tt, w)

-- `auth_provider_binding` of the client's context.
module _ {W : Type 0} (binding_of : CredentialId → Option (AuthProviderBinding W)) where
  unfoldable pub prepare :
      AuthRequirement → PlannedAuthSlot → W → Result AuthError PreparedAuthCredential × W
  unfolding prepare_binding
  prepare requirement planned w = elim (binding_of requirement.credential.id) [
    | none ↦ (err no_binding, w)
    | some binding ↦ prepare_binding binding requirement planned w
  ]

  unfoldable pub plan_rejection :
      AuthRequirement → AuthAppliedCredential → ℕ → Result AuthError AuthRejectionAction
  unfolding plan_binding_rejection
  plan_rejection requirement applied status = elim (binding_of requirement.credential.id) [
    | none ↦ err no_binding
    | some binding ↦ plan_binding_rejection binding requirement applied status
  ]

  unfoldable pub apply_rejection :
      AuthRejectionAction
      → AuthRequirement
      → AuthAppliedCredential
      → ℕ
      → W
      → Result AuthError (Unit {0}) × W
  unfolding apply_binding_rejection
  apply_rejection action requirement applied status w =
      elim (binding_of requirement.credential.id) [
        | none ↦ (err no_binding, w)
        | some binding ↦ apply_binding_rejection binding action requirement applied status w
      ]

  unfoldable pub apply_rejection_invalidation_only :
      AuthRejectionAction
      → AuthRequirement
      → AuthAppliedCredential
      → ℕ
      → W
      → Result AuthError (Unit {0}) × W
  unfolding apply_binding_rejection_invalidation_only
  apply_rejection_invalidation_only action requirement applied status w =
      elim (binding_of requirement.credential.id) [
        | none ↦ (err no_binding, w)
        | some binding ↦
            apply_binding_rejection_invalidation_only binding action requirement applied status w
      ]
