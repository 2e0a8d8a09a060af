-- ===== src/RateLimit/Cooldown.antt =====
-- concord_core/src/rate_limit/governor_runtime.rs: the cooldowns of `GovernorRateLimiter`. The lock is
-- not poisoned; each function runs under it, at the time that it reads from the clock.
pub mod Entries
pub mod Sizes
pub mod Passes
use concord_api.Base.{
  ℕ, suc, ◌+◌, ◌-◌, min, max, Bool, true, false, ◌||◌, Option, none, some, List, [], ◌∷◌, ◌==◌, ltb,
  leb, if◌then◌else◌, is_some, length, filter, Result, ok, err, ◌>>=◌, beq, contains, checked_add,
  instant_max, u64_max,
}
use concord_api.Error.{ApiClientError, invalid_configuration}
use concord_api.RateLimit.{
  RateLimitContext, RateLimitTarget, RateLimitObservation, RateLimitResponseAction,
}
use concord_api.RateLimit.Keys.{
  RateLimitCooldownKey, RateLimitCooldownKey-discrete, rate_limit_error, cooldown_keys_for_acquire,
  cooldown_keys_for_target,
}

-- The map of cooldowns: each key with the time at which its cooldown ends.
abbrev pub Cooldowns : Type 0
Cooldowns = List (RateLimitCooldownKey × ℕ)

abbrev pub get : Cooldowns → RateLimitCooldownKey → Option ℕ
get [] k = none
get ((j, until) ∷ m) k =
    let rest = get m k in if beq RateLimitCooldownKey-discrete j k then some until else rest

-- `prune_cooldowns`.
unfoldable pub prune_cooldowns : Cooldowns → ℕ → Cooldowns
prune_cooldowns m now = filter (λ e. ltb now e.1) m

-- `entry(key).or_insert(until)`, raised to `until` where it is earlier.
abbrev pub raise : ℕ → Cooldowns → RateLimitCooldownKey → Cooldowns
raise until [] k = (k, until) ∷ []
raise until ((j, u) ∷ m) k =
    let rest = raise until m k in
    if beq RateLimitCooldownKey-discrete j k
    then (j, (if ltb u until then until else u)) ∷ m
    else (j, u) ∷ rest

abbrev pub raise_all : ℕ → Cooldowns → List RateLimitCooldownKey → Cooldowns
raise_all until m [] = m
raise_all until m (k ∷ ks) = raise_all until (raise until m k) ks

-- The number of distinct keys that are neither in the map nor in `seen`.
abbrev pub new_entries : Cooldowns → List RateLimitCooldownKey → List RateLimitCooldownKey → ℕ
new_entries m [] seen = 0
new_entries m (k ∷ ks) seen =
    let old = new_entries m ks seen in
    let new = new_entries m ks (k ∷ seen) in
    if is_some (get m k) || contains RateLimitCooldownKey-discrete seen k then old else suc new

-- `store_cooldown` once the keys and the end of the cooldown are known.
abbrev pub store_until :
    ℕ
    → RateLimitContext
    → List RateLimitCooldownKey
    → ℕ
    → Cooldowns
    → Result ApiClientError Bool × Cooldowns
store_until max_entries ctx keys until pruned =
    if ltb max_entries (min (length pruned + new_entries pruned keys []) u64_max)
    then (err (rate_limit_error ctx invalid_configuration), pruned)
    else (ok true, raise_all until pruned keys)

abbrev pub store_keys :
    ℕ
    → RateLimitContext
    → Result ApiClientError (List RateLimitCooldownKey)
    → ℕ
    → ℕ
    → ℕ
    → Cooldowns
    → Result ApiClientError Bool × Cooldowns
store_keys max_entries ctx (err e) delay max_cooldown now m = (err e, m)
store_keys max_entries ctx (ok []) delay max_cooldown now m = (ok false, m)
store_keys max_entries ctx (ok (k ∷ ks)) delay max_cooldown now m =
    if ltb max_cooldown delay
    then (err (rate_limit_error ctx invalid_configuration), m)
    else elim (checked_add instant_max now delay) [
      | none ↦ (err (rate_limit_error ctx invalid_configuration), m)
      | some until ↦ store_until max_entries ctx (k ∷ ks) until (prune_cooldowns m now)
    ]

unfoldable pub store_cooldown :
    ℕ
    → RateLimitContext
    → RateLimitTarget
    → ℕ
    → ℕ
    → ℕ
    → Cooldowns
    → Result ApiClientError Bool × Cooldowns
store_cooldown max_entries ctx target delay max_cooldown now m =
    store_keys max_entries ctx (cooldown_keys_for_target ctx target) delay max_cooldown now m

-- `checked_duration_since`.
abbrev pub remaining : ℕ → Option ℕ → Option ℕ
remaining now none = none
remaining now (some until) = if leb now until then some (until - now) else none

abbrev pub longer : Option ℕ → Option ℕ → Option ℕ
longer none b = b
longer (some a) none = some a
longer (some a) (some b) = some (max a b)

abbrev pub longest : Cooldowns → ℕ → List RateLimitCooldownKey → Option ℕ
longest m now [] = none
longest m now (k ∷ ks) = longer (remaining now (get m k)) (longest m now ks)

-- What a round of `wait_cooldown` does with the longest delay: none lets the request pass.
abbrev pub wait_for : RateLimitContext → Option ℕ → Result ApiClientError (Option ℕ)
wait_for ctx none = ok none
wait_for ctx (some delay) =
    if delay == 0
    then ok none
    else if ltb ctx.max_cooldown delay
    then err (rate_limit_error ctx invalid_configuration)
    else ok (some delay)

-- One round of `wait_cooldown`: the request passes, fails or sleeps.
unfoldable pub wait_cooldown :
    RateLimitContext → ℕ → Cooldowns → Result ApiClientError (Option ℕ) × Cooldowns
wait_cooldown ctx now m = elim (cooldown_keys_for_acquire ctx) [
  | err e ↦ (err e, m)
  | ok keys ↦ let pruned = prune_cooldowns m now in (wait_for ctx (longest pruned now keys), pruned)
]
