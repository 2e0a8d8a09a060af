-- ===== src/RateLimit.antt =====
-- concord_core/src/rate_limit: the buckets of a plan, and what a limited response is about. Texts that
-- the source shares by `Cow` are plain texts, durations are nanoseconds.
pub mod Plans
pub mod Keys
pub mod BucketKeys
pub mod Covered
pub mod Cooldown
pub mod Response
pub mod Windows
mod Tests
use concord_api.Base.{
  ℕ, Bool, true, false, String, Option, none, some, List, [], ◌∷◌, ℕ_discrete, String-discrete,
}

pub record RateLimitBucketId : Type 0 where
  pub kind : String
  pub name : String

-- `static_text` is the source's `Static`.
pub data RateLimitKeyValue : Type 0 where
  static_text : String → RateLimitKeyValue
  endpoint method url_host : RateLimitKeyValue

pub record RateLimitKeyPart : Type 0 where
  pub name : String
  pub value : RateLimitKeyValue

pub record RateLimitKey : Type 0 where
  pub parts : List RateLimitKeyPart

-- `max` is not zero.
pub record RateLimitWindow : Type 0 where
  pub max : ℕ
  pub per : ℕ

pub record RateLimitBucketUse : Type 0 where
  pub id : RateLimitBucketId
  pub key : RateLimitKey
  pub windows : List RateLimitWindow
  pub cost : ℕ

pub record RateLimitPlan : Type 0 where
  pub buckets : List RateLimitBucketUse

pub record RateLimitContext : Type 0 where
  pub endpoint : String
  pub method : String
  pub url : String
  pub url_host : Option String
  pub page_index : ℕ
  pub idempotent : Bool
  pub max_cooldown : ℕ
  pub plan : RateLimitPlan

pub data RateLimitTarget : Type 0 where
  nothing request endpoint host client : RateLimitTarget
  current_plan : RateLimitTarget → RateLimitTarget
  bucket_kind : String → RateLimitTarget → RateLimitTarget
  bucket : RateLimitBucketId → RateLimitTarget → RateLimitTarget

pub data RateLimitScopeHint : Type 0 where
  bucket_kind : String → RateLimitScopeHint
  current_endpoint : RateLimitScopeHint

pub record RateLimitObservation : Type 0 where
  pub limited : Bool
  pub delay : Option ℕ
  pub target : RateLimitTarget
  pub scope : Option RateLimitScopeHint
  pub retry_after : Option ℕ

pub data RateLimitResponseAction : Type 0 where
  continue : RateLimitResponseAction
  limited : Option ℕ → RateLimitTarget → Bool → RateLimitResponseAction

unfoldable pub RateLimitBucketId-discrete : Discrete RateLimitBucketId
unfolding String-discrete
RateLimitBucketId-discrete = hlevel String-discrete

unfoldable pub RateLimitBucketUse-discrete : Discrete RateLimitBucketUse
unfolding String-discrete ℕ_discrete RateLimitBucketId-discrete
RateLimitBucketUse-discrete = hlevel (String-discrete, ℕ_discrete)
