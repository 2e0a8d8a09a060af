-- ===== src/RateLimit/Keys.antt =====
-- concord_core/src/rate_limit/governor_runtime.rs: the keys of cooldowns and windows.
use concord_api.Base.{
  String, Option, none, some, List, [], ◌∷◌, ◌++◌, Result, ok, ok_or, ◌>>=◌, traverse, filter, beq,
  String-discrete,
}
use concord_api.Error.{ApiClientError, RateLimitErrorKind, rate_limit, invalid_key}
use concord_api.RateLimit.{
  RateLimitBucketId, RateLimitBucketId-discrete, RateLimitKey, RateLimitKeyPart, RateLimitKeyValue,
  static_text, RateLimitBucketUse, RateLimitContext, RateLimitTarget,
}

pub record ResolvedRateLimitKey : Type 0 where
  pub parts : List (String × String)

pub data RateLimitCooldownKey : Type 0 where
  client : RateLimitCooldownKey
  request : String → String → String → RateLimitCooldownKey
  endpoint : String → String → RateLimitCooldownKey
  host : String → RateLimitCooldownKey
  bucket_kind : String → ResolvedRateLimitKey → RateLimitCooldownKey
  bucket : RateLimitBucketId → ResolvedRateLimitKey → RateLimitCooldownKey

unfoldable pub RateLimitCooldownKey-discrete : Discrete RateLimitCooldownKey
unfolding String-discrete RateLimitBucketId-discrete
RateLimitCooldownKey-discrete = hlevel String-discrete

abbrev pub rate_limit_error : RateLimitContext → RateLimitErrorKind → ApiClientError
rate_limit_error ctx kind =
    rate_limit (record { endpoint = ctx.endpoint; method = ctx.method }) kind

abbrev pub missing_host_key_error : RateLimitContext → ApiClientError
missing_host_key_error ctx = rate_limit_error ctx invalid_key

abbrev pub resolve_key_part_value :
    RateLimitContext → RateLimitKeyPart → Result ApiClientError String
resolve_key_part_value ctx part = elim part.value [
  | static_text value ↦ ok value
  | RateLimitKeyValue.endpoint ↦ ok ctx.endpoint
  | RateLimitKeyValue.method ↦ ok ctx.method
  | RateLimitKeyValue.url_host ↦ ok_or ctx.url_host (missing_host_key_error ctx)
]

unfoldable pub resolve_key :
    RateLimitContext → RateLimitKey → Result ApiClientError ResolvedRateLimitKey
resolve_key ctx key = do
  parts ←
      traverse (λ part. do value ← resolve_key_part_value ctx part; ok (part.name, value)) key.parts
  ok (record { parts = parts })

abbrev pub request_cooldown_key : RateLimitContext → RateLimitCooldownKey
request_cooldown_key ctx = RateLimitCooldownKey.request ctx.method ctx.endpoint ctx.url

abbrev pub endpoint_cooldown_key : RateLimitContext → RateLimitCooldownKey
endpoint_cooldown_key ctx = RateLimitCooldownKey.endpoint ctx.method ctx.endpoint

abbrev pub host_cooldown_key : RateLimitContext → Result ApiClientError RateLimitCooldownKey
host_cooldown_key ctx = do
  name ← ok_or ctx.url_host (missing_host_key_error ctx)
  ok (RateLimitCooldownKey.host name)

abbrev pub bucket_kind_cooldown_key :
    RateLimitContext → RateLimitBucketUse → Result ApiClientError RateLimitCooldownKey
bucket_kind_cooldown_key ctx b = do
  key ← resolve_key ctx b.key
  ok (RateLimitCooldownKey.bucket_kind b.id.kind key)

abbrev pub bucket_cooldown_key :
    RateLimitContext → RateLimitBucketUse → Result ApiClientError RateLimitCooldownKey
bucket_cooldown_key ctx b = do
  key ← resolve_key ctx b.key
  ok (RateLimitCooldownKey.bucket b.id key)

-- The keys that the loop over the buckets pushes.
abbrev pub bucket_keys :
    RateLimitContext → List RateLimitBucketUse → Result ApiClientError (List RateLimitCooldownKey)
bucket_keys ctx [] = ok []
bucket_keys ctx (b ∷ bs) = do
  of_kind ← bucket_kind_cooldown_key ctx b
  of_bucket ← bucket_cooldown_key ctx b
  rest ← bucket_keys ctx bs
  ok (of_kind ∷ of_bucket ∷ rest)

abbrev pub host_keys : Option String → List RateLimitCooldownKey
host_keys none = []
host_keys (some name) = RateLimitCooldownKey.host name ∷ []

unfoldable pub cooldown_keys_for_acquire :
    RateLimitContext → Result ApiClientError (List RateLimitCooldownKey)
cooldown_keys_for_acquire ctx = do
  rest ← bucket_keys ctx ctx.plan.buckets
  ok (
      RateLimitCooldownKey.client
      ∷ endpoint_cooldown_key ctx
      ∷ request_cooldown_key ctx
      ∷ (host_keys ctx.url_host ++ rest))

-- The keys of the buckets that a test selects, or where it selects none, other keys.
abbrev pub selected_keys :
    (RateLimitBucketUse → Result ApiClientError RateLimitCooldownKey)
    → List RateLimitBucketUse
    → Result ApiClientError (List RateLimitCooldownKey)
    → Result ApiClientError (List RateLimitCooldownKey)
selected_keys key_of [] fallback = fallback
selected_keys key_of (b ∷ bs) fallback = traverse key_of (b ∷ bs)

unfoldable pub cooldown_keys_for_target :
    RateLimitContext → RateLimitTarget → Result ApiClientError (List RateLimitCooldownKey)
cooldown_keys_for_target ctx RateLimitTarget.nothing = ok []
cooldown_keys_for_target ctx RateLimitTarget.request = ok (request_cooldown_key ctx ∷ [])
cooldown_keys_for_target ctx RateLimitTarget.endpoint = ok (endpoint_cooldown_key ctx ∷ [])
cooldown_keys_for_target ctx RateLimitTarget.host = do key ← host_cooldown_key ctx; ok (key ∷ [])
cooldown_keys_for_target ctx RateLimitTarget.client = ok (RateLimitCooldownKey.client ∷ [])
cooldown_keys_for_target ctx (RateLimitTarget.current_plan fallback) =
    selected_keys (bucket_cooldown_key ctx) ctx.plan.buckets (cooldown_keys_for_target ctx fallback)
cooldown_keys_for_target ctx (RateLimitTarget.bucket_kind kind fallback) =
    selected_keys (bucket_kind_cooldown_key ctx)
      (filter (λ b. beq String-discrete b.id.kind kind) ctx.plan.buckets)
      (cooldown_keys_for_target ctx fallback)
cooldown_keys_for_target ctx (RateLimitTarget.bucket id fallback) =
    selected_keys (bucket_cooldown_key ctx)
      (filter (λ b. beq RateLimitBucketId-discrete b.id id) ctx.plan.buckets)
      (cooldown_keys_for_target ctx fallback)
