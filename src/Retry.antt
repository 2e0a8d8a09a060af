-- ===== src/Retry.antt =====
-- concord_core/src/retry_mode.rs: the retries that a managed client is built with. The host of an
-- authority, which the crates `url` and `http` parse, is an argument; so is what stands for building
-- the client.
pub mod Laws
mod Tests
use concord_api.Base.{
  ℕ, Bool, true, false, not, ◌&&◌, ◌||◌, String, String-discrete, ℕ_discrete, Option, none, some,
  List, [], ◌∷◌, ◌++◌, ◌==◌, leb, if◌then◌else◌, Result, ok, err, ok_or, ◌>>=◌, ◌>>◌, beq, contains,
}

pub data OriginScheme : Type 0 where
  http https : OriginScheme

pub record FixedOriginDescriptor : Type 0 where
  pub scheme : OriginScheme
  pub authority : String

pub data ApiOriginDescriptor : Type 0 where
  fixed_single_origin : FixedOriginDescriptor → ApiOriginDescriptor
  dynamic_origin multi_origin : ApiOriginDescriptor

pub data RetryModeError : Type 0 where
  invalid_max_retries : ℕ → RetryModeError
  empty_status_set : RetryModeError
  unsupported_status : ℕ → RetryModeError
  not_fixed_origin invalid_fixed_origin_metadata : RetryModeError

pub record StatusRetryConfig : Type 0 where
  pub max_retries : ℕ
  pub statuses : List ℕ

pub data RetryMode : Type 0 where
  protocol_recovery disabled : RetryMode
  status : StatusRetryConfig → RetryMode

abbrev pub approved_statuses : List ℕ
approved_statuses = 502 ∷ 503 ∷ 504 ∷ []

abbrev pub has : List ℕ → ℕ → Bool
has = contains ℕ_discrete

-- The loop of `new`; what is collected grows at the end.
abbrev pub collect_statuses : List ℕ → List ℕ → Result RetryModeError (List ℕ)
collect_statuses collected [] = ok collected
collect_statuses collected (s ∷ ss) =
    let kept = collect_statuses collected ss in
    let pushed = collect_statuses (collected ++ s ∷ []) ss in
    if not (has approved_statuses s)
    then err (unsupported_status s)
    else if not (has collected s)
    then pushed
    else kept

abbrev pub non_empty : ℕ → List ℕ → Result RetryModeError StatusRetryConfig
non_empty max_retries [] = err empty_status_set
non_empty max_retries (s ∷ ss) = ok (record { max_retries = max_retries; statuses = s ∷ ss })

-- `StatusRetryConfig::new`.
unfoldable pub new_config : ℕ → List ℕ → Result RetryModeError StatusRetryConfig
new_config max_retries statuses =
    if not (leb 1 max_retries && leb max_retries 2)
    then err (invalid_max_retries max_retries)
    else do collected ← collect_statuses [] statuses; non_empty max_retries collected

-- `RetryMode::status`.
abbrev pub status_mode : ℕ → List ℕ → Result RetryModeError RetryMode
status_mode max_retries statuses = do config ← new_config max_retries statuses; ok (status config)

-- What the built policy keeps: its scope, its bound, and the statuses that its classifier retries.
pub record Policy : Type 0 where
  pub host : String
  pub max_retries_per_request : ℕ
  pub statuses : List ℕ

pub data ReqwestRetryInstall : Type 0 where
  protocol_recovery never : ReqwestRetryInstall
  custom : Policy → ReqwestRetryInstall

abbrev pub method_is_eligible : String → Bool
method_is_eligible method =
    beq String-discrete method "GET"
    || beq String-discrete method "HEAD"
    || beq String-discrete method "OPTIONS"

-- The classifier: whether the answer to a request is retried; none is an answer without status.
unfoldable pub retryable : Policy → String → Option ℕ → Bool
retryable policy method none = false
retryable policy method (some s) = method_is_eligible method && has policy.statuses s

abbrev pub build_reqwest_policy : StatusRetryConfig → String → Policy
build_reqwest_policy config host = record {
  host = host;
  max_retries_per_request = config.max_retries;
  statuses = config.statuses;
}

-- `resolve`, with the host of an authority.
unfoldable pub resolve :
    (String → Option String)
    → RetryMode
    → Option ApiOriginDescriptor
    → Result RetryModeError ReqwestRetryInstall
resolve host_of RetryMode.protocol_recovery origin = ok ReqwestRetryInstall.protocol_recovery
resolve host_of disabled origin = ok never
resolve host_of (status config) (some (fixed_single_origin fixed)) = do
  host ← ok_or (host_of fixed.authority) invalid_fixed_origin_metadata
  ok (custom (build_reqwest_policy config host))
resolve host_of (status config) (some dynamic_origin) = err not_fixed_origin
resolve host_of (status config) (some multi_origin) = err not_fixed_origin
resolve host_of (status config) none = err not_fixed_origin
