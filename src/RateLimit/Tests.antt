-- ===== src/RateLimit/Tests.antt =====
-- concord_core/src/rate_limit: small runs of the limiter, and the theorems at them.
use concord_api.Base.{
  ◌≤◌, ℕ, ◌+◌, ◌≡◌, refl, inr, true, none, some, List, [], ◌∷◌, ok, IsNodup, contains, arith,
  String-discrete, ℕ_discrete,
}
use concord_api.RateLimit.{
  RateLimitBucketUse, RateLimitBucketUse-discrete, RateLimitBucketId-discrete, RateLimitPlan,
  RateLimitContext, RateLimitTarget, RateLimitKeyValue,
}
use concord_api.RateLimit.Plans.{canonicalized, canonical_plan_has_each_bucket_once}
use concord_api.RateLimit.Keys.{
  RateLimitCooldownKey, RateLimitCooldownKey-discrete, resolve_key, cooldown_keys_for_acquire,
  cooldown_keys_for_target,
}
use concord_api.RateLimit.BucketKeys.{IsCovered}
use concord_api.RateLimit.Covered.{target_keys_are_looked_up}
use concord_api.RateLimit.Cooldown.{Cooldowns, prune_cooldowns, store_cooldown, wait_cooldown}
use concord_api.RateLimit.Cooldown.Passes.{slept_request_passes}
use concord_api.RateLimit.Response.{observe, store_observation}
use concord_api.RateLimit.Response.Moves.{here, next, waits}
use concord_api.RateLimit.Response.Bounded
use concord_api.RateLimit.Response.Bounded.{Moves-Bounded}
use concord_api.RateLimit.Response.Blocks.{HoldsBack, store_observation-HoldsBack}
use concord_api.RateLimit.Windows.{
  Windows, GovernorWindowSpec, GovernorWindowSpec-discrete, GovernorWindowState, WindowLimits,
  Quota, find, quota_for_window, evict_oldest_windows, prune_windows, limiter_for,
}
use concord_api.RateLimit.Windows.Bounds
use concord_api.RateLimit.Windows.Oldest.{evict_oldest_windows-age}
use concord_api.RateLimit.Windows.Bounds.{limiter_for-Bounded}
use concord_api.RateLimit.Windows.Timely.{entry_if, in_use}
use concord_api.RateLimit.Windows.Returned.{Answers, returned_limiter_is_kept}

opened : Unit {0}
unfolding canonicalized RateLimitBucketUse-discrete RateLimitBucketId-discrete
    RateLimitCooldownKey-discrete resolve_key cooldown_keys_for_acquire cooldown_keys_for_target
    prune_cooldowns store_cooldown wait_cooldown observe store_observation quota_for_window
    evict_oldest_windows prune_windows limiter_for GovernorWindowSpec-discrete String-discrete
    ℕ_discrete
opened = tt

abbrev by_host : RateLimitBucketUse
by_host = record {
  id = record { kind = "method"; name = "test" };
  key = record { parts = record { name = "h"; value = RateLimitKeyValue.url_host } ∷ [] };
  windows = record { max = 10; per = 10_000_000_000 } ∷ [];
  cost = 1;
}

abbrev doubled : RateLimitPlan
doubled = record { buckets = by_host ∷ by_host ∷ [] }

abbrev context : RateLimitContext
context = record {
  endpoint = "Test";
  method = "GET";
  url = "https://example.com/a";
  url_host = some "example.com";
  page_index = 0;
  idempotent = true;
  max_cooldown = 60;
  plan = record { buckets = by_host ∷ [] };
}

once : canonicalized doubled ≡ record { buckets = by_host ∷ [] }
unfolding opened
once = refl

canonical_plan_has_each_bucket_once_example :
    IsNodup RateLimitBucketUse-discrete (canonicalized doubled).buckets
    × ((b : RateLimitBucketUse)
        → contains RateLimitBucketUse-discrete (canonicalized doubled).buckets b
          ≡ contains RateLimitBucketUse-discrete doubled.buckets b)
    × (canonicalized (canonicalized doubled) ≡ canonicalized doubled)
canonical_plan_has_each_bucket_once_example = canonical_plan_has_each_bucket_once doubled

abbrev of_current_plan : RateLimitTarget
of_current_plan = RateLimitTarget.current_plan RateLimitTarget.endpoint

abbrev keys : List RateLimitCooldownKey
keys =
    RateLimitCooldownKey.client
    ∷ RateLimitCooldownKey.endpoint "GET" "Test"
    ∷ RateLimitCooldownKey.request "GET" "Test" "https://example.com/a"
    ∷ RateLimitCooldownKey.host "example.com"
    ∷ RateLimitCooldownKey.bucket_kind "method" (record { parts = ("h", "example.com") ∷ [] })
    ∷ RateLimitCooldownKey.bucket by_host.id (record { parts = ("h", "example.com") ∷ [] })
    ∷ []

abbrev bucket_key : RateLimitCooldownKey
bucket_key = RateLimitCooldownKey.bucket by_host.id (record { parts = ("h", "example.com") ∷ [] })

target_keys_are_looked_up_example : IsCovered keys (bucket_key ∷ [])
unfolding opened
target_keys_are_looked_up_example =
    target_keys_are_looked_up context of_current_plan keys (bucket_key ∷ []) refl refl

-- A 429 with a delay of 30, at the time 100.
abbrev stored : Cooldowns
stored = (bucket_key, 130) ∷ []

store_observation-HoldsBack_example :
    HoldsBack context 110 (100 + 30) (wait_cooldown context 110 stored).0
unfolding opened
store_observation-HoldsBack_example =
    store_observation-HoldsBack 4096 context 60 (observe 429 (some 30)) 100 [] stored 30
      of_current_plan keys 110 stored refl
      (next 100 110 stored stored here (omega arith) (waits context)) (omega arith) refl

slept_request_passes_example : (wait_cooldown context 130 stored).0 ≡ ok none
unfolding opened
slept_request_passes_example =
    slept_request_passes context 110 130 20 stored stored (refl, tt) refl (omega arith)

Moves-Bounded_example : Bounded.Bounded 1 (omega arith) stored
unfolding opened
Moves-Bounded_example =
    Moves-Bounded 1 (omega arith) 100 stored 110 stored
      (next 100 110 stored stored here (omega arith) (waits context))
      (record { map = (refl, tt); cap = omega arith })

-- One window is allowed, and one is there, last used at 5.
abbrev limits : WindowLimits
limits = record { max_window_entries = 1; window_idle_ttl = 900 }

abbrev spec : ℕ → GovernorWindowSpec
spec max = record {
  id = by_host.id;
  key = record { parts = ("h", "example.com") ∷ [] };
  window = record { max = max; per = 10_000_000_000 };
}

abbrev full : GovernorWindowState Quota
full = record {
  windows = (spec 10, record { limiter = record { replenish = 1; burst = 1 }; last_used = 5 }) ∷ [];
  next_prune_at = none;
}

abbrev after : GovernorWindowState Quota
after = (limiter_for limits (λ q. q) context (spec 5) 7 full).1

replaced :
    after.windows
    ≡ (spec 5, record { limiter = record { replenish = 2_000_000_000; burst = 5 }; last_used = 7 })
      ∷ []
unfolding opened
replaced = refl

limiter_for-Bounded_example : Bounds.Bounded limits after.windows
unfolding opened
limiter_for-Bounded_example =
    limiter_for-Bounded limits (λ q. q) context (spec 5) 7 full (omega arith)
      (record { map = (refl, tt); cap = omega arith })

abbrev made : Quota
made = record { replenish = 2_000_000_000; burst = 5 }

-- The window was used at 5 and is idle at 1000, so that it is given a new limiter.
abbrev idle : GovernorWindowState Quota
idle = record full { next_prune_at = some 905 }

renewed :
    find (limiter_for limits (λ q. q) context (spec 10) 1000 idle).1.windows (spec 10)
    ≡ some (record { limiter = record { replenish = 1_000_000_000; burst = 10 }; last_used = 1000 })
unfolding opened
renewed = refl

returned_limiter_is_kept_example :
    Answers limits
      (λ q. q)
      context
      (spec 10)
      1000
      (entry_if (in_use limits 1000) (find idle.windows (spec 10)))
      (limiter_for limits (λ q. q) context (spec 10) 1000 idle)
unfolding opened
returned_limiter_is_kept_example =
    returned_limiter_is_kept limits (λ q. q) context (spec 10) 1000 idle
      (record { map = (refl, tt); cap = omega arith }) (inr (inr (905, refl, omega arith), tt))
      (omega arith)

abbrev two : Windows Quota
two =
    (spec 1, record { limiter = made; last_used = 9 })
    ∷ (spec 2, record { limiter = made; last_used = 5 })
    ∷ []

evict_oldest_windows-age_example : 5 ≤ 9
unfolding opened
evict_oldest_windows-age_example =
    evict_oldest_windows-age two 1 (spec 2) (spec 1) (record { limiter = made; last_used = 5 })
      (record { limiter = made; last_used = 9 }) (refl, (refl, tt)) refl refl refl refl
