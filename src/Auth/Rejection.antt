-- ===== src/Auth/Rejection.antt =====
-- concord_core/src/auth/plan.rs: what a challenge of the server asks for, for each applied credential.
use concord_api.Base.{
  ℕ, ℕ_discrete, Bool, true, false, ◌&&◌, ◌||◌, ◌==◌, Option, none, some, is_some, List, [], ◌∷◌,
  ◌++◌, String, beq, if◌then◌else◌,
}
use concord_api.Headers.Text.{any}
use concord_api.Auth.Errors.{InvalidateReason}
use concord_api.Auth.Slot.{AuthStepPolicy}
use concord_api.Auth.Uses.{
  CredentialRef, CredentialRef-discrete, CredentialId-discrete, AuthUsageId, AuthUsageId-discrete,
  StepId-discrete, AuthChallengePolicy, AuthRequirement, AuthAppliedCredential,
}

pub data AuthRecoveryReason : Type 0 where
  unauthorized forbidden : AuthRecoveryReason

-- The fields that both kinds of action have.
pub record ActionTarget : Type 0 where
  pub credential : CredentialRef
  pub usage_id : AuthUsageId
  pub step_id : Option String
  pub generation : Option ℕ
  pub invalidate_reason : Option InvalidateReason

pub data AuthRejectionAction : Type 0 where
  terminal : ActionTarget → AuthRejectionAction
  recover : ActionTarget → AuthRecoveryReason → AuthRejectionAction

unfoldable pub Generation-discrete : Discrete (Option ℕ)
Generation-discrete = hlevel ℕ_discrete

abbrev target_of : AuthRequirement → AuthAppliedCredential → Option InvalidateReason → ActionTarget
target_of requirement applied reason = record {
  credential = requirement.credential;
  usage_id = applied.usage_id;
  step_id = applied.step_id;
  generation = applied.generation;
  invalidate_reason = reason;
}

-- `AuthRejectionAction::terminal` and `AuthRejectionAction::recover`.
abbrev pub terminal_action :
    AuthRequirement → AuthAppliedCredential → Option InvalidateReason → AuthRejectionAction
terminal_action requirement applied reason =
    AuthRejectionAction.terminal (target_of requirement applied reason)

abbrev pub recover_action :
    AuthRequirement
    → AuthAppliedCredential
    → AuthRecoveryReason
    → Option InvalidateReason
    → AuthRejectionAction
recover_action requirement applied reason invalidate =
    AuthRejectionAction.recover (target_of requirement applied invalidate) reason

abbrev pub requests_recovery : AuthRejectionAction → Bool
requests_recovery (AuthRejectionAction.terminal t) = false
requests_recovery (AuthRejectionAction.recover t r) = true

abbrev pub action_target : AuthRejectionAction → ActionTarget
action_target (AuthRejectionAction.terminal t) = t
action_target (AuthRejectionAction.recover t r) = t

-- `AuthRejectionAction::matches`.
abbrev pub action_matches : AuthRejectionAction → AuthRequirement → AuthAppliedCredential → Bool
action_matches action requirement applied =
    let t = action_target action in
    beq CredentialRef-discrete t.credential requirement.credential
    && (beq CredentialId-discrete t.credential.id applied.credential_id
        && (beq AuthUsageId-discrete t.usage_id applied.usage_id
            && (beq StepId-discrete t.step_id applied.step_id
                && beq Generation-discrete t.generation applied.generation)))

abbrev pub invalidate_reason : AuthRejectionAction → Option InvalidateReason
invalidate_reason action = (action_target action).invalidate_reason

-- `AuthRejectionPlan`: its actions, in order.
abbrev pub plan_requests_recovery : List AuthRejectionAction → Bool
plan_requests_recovery actions = any requests_recovery actions

-- `AuthRejectionPlan::append_validated`.
abbrev pub append_validated :
    List AuthRejectionAction → AuthRejectionAction → List AuthRejectionAction
append_validated actions (AuthRejectionAction.terminal t) =
    actions ++ AuthRejectionAction.terminal t ∷ []
append_validated actions (AuthRejectionAction.recover t r) =
    if plan_requests_recovery actions
    then actions
    else actions ++ AuthRejectionAction.recover t r ∷ []

pub record AuthRejectionDecision : Type 0 where
  pub invalidate : Option InvalidateReason
  pub recovery : Option AuthRecoveryReason

-- `bool::then_some`.
abbrev pub then_some {ℓ} : {A : Type ℓ} → Bool → A → Option A
then_some b a = if b then some a else none

-- A decision that asks for something.
abbrev decision : Option InvalidateReason → Option AuthRecoveryReason → Option AuthRejectionDecision
decision invalidate recovery =
    if is_some recovery || is_some invalidate
    then some (record { invalidate = invalidate; recovery = recovery })
    else none

abbrev accepts_unauthorized : AuthChallengePolicy → Bool
accepts_unauthorized AuthChallengePolicy.unauthorized = true
accepts_unauthorized AuthChallengePolicy.unauthorized_or_forbidden = true
accepts_unauthorized AuthChallengePolicy.never_recover = false

abbrev accepts_forbidden : AuthChallengePolicy → Bool
accepts_forbidden AuthChallengePolicy.unauthorized = false
accepts_forbidden AuthChallengePolicy.unauthorized_or_forbidden = true
accepts_forbidden AuthChallengePolicy.never_recover = false

abbrev never_recovers : AuthChallengePolicy → Bool
never_recovers AuthChallengePolicy.unauthorized = false
never_recovers AuthChallengePolicy.unauthorized_or_forbidden = false
never_recovers AuthChallengePolicy.never_recover = true

unfoldable pub auth_decision_for_status :
    ℕ → AuthRequirement → AuthStepPolicy → Option AuthRejectionDecision
auth_decision_for_status status requirement policy =
    if never_recovers requirement.challenge
    then none
    else if (status == 401) && accepts_unauthorized requirement.challenge
    then decision (then_some policy.invalidate_on_unauthorized InvalidateReason.unauthorized)
        (then_some policy.recover_on_unauthorized AuthRecoveryReason.unauthorized)
    else if (status == 403) && accepts_forbidden requirement.challenge
    then decision (then_some policy.invalidate_on_forbidden InvalidateReason.forbidden)
        (then_some policy.recover_on_forbidden AuthRecoveryReason.forbidden)
    else none
