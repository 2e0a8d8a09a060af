-- ===== src/RateLimit/Windows.antt =====
-- concord_core/src/rate_limit/governor_runtime.rs: the windows of `GovernorRateLimiter`, each with its
-- limiter. The limiters are those of the crate `governor`, made from a quota by an argument. A hash map
-- is a list of entries, in the order in which it is iterated.
pub mod Sorting
pub mod Eviction
pub mod Bounds
pub mod Oldest
pub mod Timely
pub mod Pruning
pub mod Returned
use mathlib.Core.Option
use concord_api.Base.{
  ℕ, ◌+◌, ◌-◌, ◌/◌, min, Bool, true, false, not, String-discrete, ℕ_discrete, Option, none, some,
  List, [], ◌∷◌, map, ◌==◌, ltb, leb, if◌then◌else◌, is_none_or, is_some, get_or, length, take,
  filter, Result, ok, err, ok_or, ◌>>=◌, ◌>>◌, beq, checked_add, instant_max,
}
use concord_api.Error.{ApiClientError, invalid_configuration}
use concord_api.RateLimit.{
  RateLimitBucketId, RateLimitBucketId-discrete, RateLimitWindow, RateLimitContext,
}
use concord_api.RateLimit.Keys.{ResolvedRateLimitKey, rate_limit_error}

pub record GovernorWindowSpec : Type 0 where
  pub id : RateLimitBucketId
  pub key : ResolvedRateLimitKey
  pub window : RateLimitWindow

unfoldable pub GovernorWindowSpec-discrete : Discrete GovernorWindowSpec
unfolding String-discrete ℕ_discrete
GovernorWindowSpec-discrete = hlevel (String-discrete, ℕ_discrete)

pub record GovernorWindowEntry (L : Type 0) : Type 0 where
  pub limiter : L
  pub last_used : ℕ

abbrev pub Windows : Type 0 → Type 0
Windows L = List (GovernorWindowSpec × GovernorWindowEntry L)

pub record GovernorWindowState (L : Type 0) : Type 0 where
  pub windows : Windows L
  pub next_prune_at : Option ℕ

-- The settings of the limiter that concern windows.
pub record WindowLimits : Type 0 where
  pub max_window_entries : ℕ
  pub window_idle_ttl : ℕ

-- What `Quota::with_period` and `allow_burst` keep.
pub record Quota : Type 0 where
  pub replenish : ℕ
  pub burst : ℕ

-- `checked_div` of a duration: none where the divisor is zero.
abbrev pub per_cell : RateLimitWindow → Option ℕ
per_cell window = if window.max == 0 then none else some (window.per / window.max)

-- `Quota::with_period` has no quota for a period of zero alone.
unfoldable pub quota_for_window : RateLimitContext → RateLimitWindow → Result ApiClientError Quota
quota_for_window ctx window =
    if window.per == 0 then err (rate_limit_error ctx invalid_configuration) else do
      cell ← ok_or (per_cell window) (rate_limit_error ctx invalid_configuration)
      if cell == 0
          then err (rate_limit_error ctx invalid_configuration)
          else ok (record { replenish = cell; burst = window.max })

module _ {L : Type 0} where
  abbrev pub find : Windows L → GovernorWindowSpec → Option (GovernorWindowEntry L)
  find [] spec = none
  find ((s, e) ∷ m) spec =
      let rest = find m spec in if beq GovernorWindowSpec-discrete s spec then some e else rest

  abbrev pub touch : Windows L → GovernorWindowSpec → ℕ → Windows L
  touch [] spec now = []
  touch ((s, e) ∷ m) spec now =
      let rest = touch m spec now in
      if beq GovernorWindowSpec-discrete s spec
      then (s, record e { last_used = now }) ∷ m
      else (s, e) ∷ rest

  abbrev pub remove : Windows L → GovernorWindowSpec → Windows L
  remove m spec = filter (λ x. not (beq GovernorWindowSpec-discrete x.0 spec)) m

  abbrev pub remove_all : Windows L → List (GovernorWindowSpec × ℕ) → Windows L
  remove_all m [] = m
  remove_all m ((s, t) ∷ xs) = remove_all (remove m s) xs

  -- The entries with their times, and `sort_by_key`, which is stable.
  abbrev pub ages : Windows L → List (GovernorWindowSpec × ℕ)
  ages [] = []
  ages ((s, e) ∷ m) = (s, e.last_used) ∷ ages m

abbrev pub insert_age :
    GovernorWindowSpec × ℕ → List (GovernorWindowSpec × ℕ) → List (GovernorWindowSpec × ℕ)
insert_age x [] = x ∷ []
insert_age x (y ∷ ys) = let rest = insert_age x ys in if leb x.1 y.1 then x ∷ y ∷ ys else y ∷ rest

abbrev pub sort_by_age : List (GovernorWindowSpec × ℕ) → List (GovernorWindowSpec × ℕ)
sort_by_age [] = []
sort_by_age (x ∷ xs) = insert_age x (sort_by_age xs)

module _ {L : Type 0} where
  -- Where the count is zero or the map empty, this removes nothing, as the early return does.
  unfoldable pub evict_oldest_windows : Windows L → ℕ → Windows L
  evict_oldest_windows m count = remove_all m (take count (sort_by_age (ages m)))

abbrev earliest : Option ℕ → Option ℕ → Option ℕ
earliest none b = b
earliest (some a) none = some a
earliest (some a) (some b) = some (min a b)

abbrev deadline : WindowLimits → ℕ → Option ℕ
deadline limits last_used =
    if limits.window_idle_ttl == 0
    then some last_used
    else checked_add instant_max last_used limits.window_idle_ttl

module _ {L : Type 0} (limits : WindowLimits) where
  abbrev pub next_window_prune_at : Windows L → Option ℕ
  next_window_prune_at [] = none
  next_window_prune_at ((s, e) ∷ m) =
      earliest (deadline limits e.last_used) (next_window_prune_at m)

  -- `retain` by idle time; the subtraction saturates.
  abbrev pub retain_used : Windows L → ℕ → Windows L
  retain_used m now =
      if limits.window_idle_ttl == 0
      then m
      else filter (λ x. leb (now - x.1.last_used) limits.window_idle_ttl) m

  unfoldable pub prune_windows : GovernorWindowState L → ℕ → GovernorWindowState L
  prune_windows state now =
      let used = retain_used state.windows now in
      let kept = evict_oldest_windows used (length used - limits.max_window_entries) in
      record { windows = kept; next_prune_at = next_window_prune_at kept }

  abbrev pub prune_windows_if_needed : GovernorWindowState L → ℕ → GovernorWindowState L
  prune_windows_if_needed state now =
      if is_none_or state.next_prune_at (λ deadline. ltb now deadline)
      then state
      else prune_windows state now

  abbrev pub note_window_prune_at : GovernorWindowState L → ℕ → GovernorWindowState L
  note_window_prune_at state now =
      if limits.window_idle_ttl == 0
      then record state { next_prune_at = some now }
      else elim (checked_add instant_max now limits.window_idle_ttl) [
        | none ↦ state
        | some at ↦ record state {
          next_prune_at = some (get_or (Option.map (λ c. min c at) state.next_prune_at) at);
        }
      ]

  -- A new window, after the oldest have made room.
  abbrev pub make_room : Windows L → Windows L
  make_room m =
      if leb limits.max_window_entries (length m)
      then evict_oldest_windows m (length m + 1 - limits.max_window_entries)
      else m

  abbrev pub add_window :
      (Quota → L)
      → RateLimitContext
      → GovernorWindowSpec
      → ℕ
      → GovernorWindowState L
      → Result ApiClientError L × GovernorWindowState L
  add_window direct ctx spec now state =
      let room = make_room state.windows in
      elim (quota_for_window ctx spec.window) [
        | err e ↦ (err e, record state { windows = room })
        | ok quota ↦ (
          ok (direct quota),
          note_window_prune_at
              (record state {
                windows = (spec, record { limiter = direct quota; last_used = now }) ∷ room;
              })
              now,
        )
      ]

  unfoldable pub limiter_for :
      (Quota → L)
      → RateLimitContext
      → GovernorWindowSpec
      → ℕ
      → GovernorWindowState L
      → Result ApiClientError L × GovernorWindowState L
  limiter_for direct ctx spec now state =
      let pruned = prune_windows_if_needed state now in
      elim (find pruned.windows spec) [
        | some entry ↦ (
          ok entry.limiter,
          note_window_prune_at (record pruned { windows = touch pruned.windows spec now }) now,
        )
        | none ↦ add_window direct ctx spec now pruned
      ]
