-- ===== src/Auth/Uses.antt =====
-- concord_core/src/auth/ids.rs and concord_core/src/auth/plan.rs: what an endpoint asks of
-- authentication, and what was applied.
use concord_api.Base.{ℕ, String, String-discrete, Option}

pub record CredentialId : Type 0 where
  pub namespace : String
  pub name : String

unfoldable pub CredentialId-discrete : Discrete CredentialId
unfolding String-discrete
CredentialId-discrete = hlevel String-discrete

pub record CredentialRef : Type 0 where
  pub id : CredentialId

unfoldable pub CredentialRef-discrete : Discrete CredentialRef
unfolding CredentialId-discrete
CredentialRef-discrete = hlevel CredentialId-discrete

pub record AuthUsageId : Type 0 where
  pub usage : String

unfoldable pub AuthUsageId-discrete : Discrete AuthUsageId
unfolding String-discrete
AuthUsageId-discrete = hlevel String-discrete

pub record AuthProvenance : Type 0 where
  pub layer : String

unfoldable pub AuthProvenance-discrete : Discrete AuthProvenance
unfolding String-discrete
AuthProvenance-discrete = hlevel String-discrete

-- `Option<&'static str>`, the name of a step.
unfoldable pub StepId-discrete : Discrete (Option String)
unfolding String-discrete
StepId-discrete = hlevel String-discrete

pub data AuthPlacement : Type 0 where
  bearer basic : AuthPlacement
  header query : String → AuthPlacement

pub data AuthChallengePolicy : Type 0 where
  unauthorized unauthorized_or_forbidden never_recover : AuthChallengePolicy

pub record AuthRequirement : Type 0 where
  pub credential : CredentialRef
  pub placement : AuthPlacement
  pub usage_id : AuthUsageId
  pub step_id : Option String
  pub provenance : AuthProvenance
  pub challenge : AuthChallengePolicy

pub record AuthAppliedCredential : Type 0 where
  pub credential_id : CredentialId
  pub usage_id : AuthUsageId
  pub step_id : Option String
  pub generation : Option ℕ
  pub provenance : AuthProvenance
