-- ===== src/RateLimit/Response.antt =====
-- concord_core/src/rate_limit/response.rs and `GovernorRateLimiter::on_response`: what a response says
-- about limits, and the cooldown that it stores. What `parse_retry_after_headers` reads from the
-- response, with `httpdate`, is an argument.
pub mod Moves
pub mod Bounded
pub mod Blocks
use mathlib.Core.Option
use concord_api.Base.{
  ℕ, min, Bool, true, false, not, ◌||◌, Option, none, some, ◌==◌, if◌then◌else◌, is_none_or, Result,
  ok, err, ◌>>=◌,
}
use concord_api.Error.{ApiClientError}
use concord_api.RateLimit.{
  RateLimitContext, RateLimitTarget, RateLimitScopeHint, RateLimitObservation,
  RateLimitResponseAction,
}
use concord_api.RateLimit.Cooldown.{Cooldowns, store_cooldown}

abbrev pub current_plan_or_endpoint : RateLimitTarget
current_plan_or_endpoint = RateLimitTarget.current_plan RateLimitTarget.endpoint

-- `RateLimitObservation::continue_`.
abbrev pub not_limited : RateLimitObservation
not_limited = record {
  limited = false;
  delay = none;
  target = RateLimitTarget.nothing;
  scope = none;
  retry_after = none;
}

-- `RateLimitObservation::limited`.
abbrev pub limited_now : RateLimitObservation
limited_now = record {
  limited = true;
  delay = none;
  target = current_plan_or_endpoint;
  scope = some RateLimitScopeHint.current_endpoint;
  retry_after = none;
}

abbrev pub with_target : RateLimitObservation → RateLimitTarget → RateLimitObservation
with_target observation target = record observation { target = target }

abbrev pub retry_after_header : RateLimitObservation → Option ℕ → RateLimitObservation
retry_after_header observation none = observation
retry_after_header observation (some delay) = record observation {
  delay = some delay;
  retry_after = some delay;
}

-- `DefaultRateLimitResponsePolicy::observe` of a status and the parsed `Retry-After`.
unfoldable pub observe : ℕ → Option ℕ → RateLimitObservation
observe status parsed =
    if status == 429
    then retry_after_header (with_target limited_now current_plan_or_endpoint) parsed
    else not_limited

abbrev pub is_nothing : RateLimitTarget → Bool
is_nothing RateLimitTarget.nothing = true
is_nothing _ = false

-- The `if let Some(delay)` that stores the cooldown.
abbrev pub store_delay :
    ℕ
    → RateLimitContext
    → RateLimitTarget
    → Option ℕ
    → ℕ
    → ℕ
    → Cooldowns
    → Result ApiClientError Bool × Cooldowns
store_delay max_entries ctx target none max_cooldown now m = (ok false, m)
store_delay max_entries ctx target (some delay) max_cooldown now m =
    store_cooldown max_entries ctx target delay max_cooldown now m

-- The delay, capped by the maximum.
abbrev pub capped_delay : RateLimitObservation → ℕ → Option ℕ
capped_delay observation max_cooldown = Option.map (λ d. min d max_cooldown) observation.delay

-- The test under which a limited response stores nothing.
abbrev pub nothing_to_store : RateLimitObservation → ℕ → Bool
nothing_to_store observation max_cooldown =
    is_none_or (capped_delay observation max_cooldown) (λ d. d == 0)
    || is_nothing observation.target

unfoldable pub store_observation :
    ℕ
    → RateLimitContext
    → ℕ
    → RateLimitObservation
    → ℕ
    → Cooldowns
    → Result ApiClientError RateLimitResponseAction × Cooldowns
store_observation max_entries ctx max_cooldown observation now m =
    let delay = capped_delay observation max_cooldown in
    let (stored, m') = store_delay max_entries ctx observation.target delay max_cooldown now m in
    if not observation.limited
    then (ok RateLimitResponseAction.continue, m)
    else if nothing_to_store observation max_cooldown
    then (ok (RateLimitResponseAction.limited delay observation.target false), m)
    else (stored >>= (λ s. ok (RateLimitResponseAction.limited delay observation.target s)), m')
