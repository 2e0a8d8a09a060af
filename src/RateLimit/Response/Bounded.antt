-- ===== src/RateLimit/Response/Bounded.antt =====
-- concord_core/src/rate_limit/governor_runtime.rs: the bound on the number of cooldowns, and the end of
-- waiting.
use concord_api.Base.{
  ℕ, ◌+◌, ◌≤◌, ◌<◌, min, inl, inr, Bool-cases, Option, none, some, List, [], ◌∷◌, length, Result,
  ok, err, ltb, u64_max, arith,
}
use concord_api.Error.{ApiClientError}
use concord_api.RateLimit.{RateLimitContext, RateLimitTarget}
use concord_api.RateLimit.Keys.{RateLimitCooldownKey, cooldown_keys_for_target}
use concord_api.RateLimit.Cooldown.{
  Cooldowns, prune_cooldowns, new_entries, store_until, store_keys, store_cooldown, wait_cooldown,
}
use concord_api.RateLimit.Cooldown.Sizes.{
  IsMap, prune-length, prune-IsMap, raise_all-IsMap, raise_all-length,
}
use concord_api.RateLimit.Response.{capped_delay, store_delay, store_observation}
use concord_api.RateLimit.Response.Moves.{Move, responds, waits, Moves, here, next}

module _ (max_entries : ℕ) (fits : max_entries < u64_max) where
  -- A map within its cap.
  pub record Bounded (m : Cooldowns) : Type 0 where
    pub map : IsMap m
    pub cap : length m ≤ max_entries

  prune-Bounded : (m : Cooldowns) (now : ℕ) → Bounded m → Bounded (prune_cooldowns m now)
  prune-Bounded m now h = record {
    map = prune-IsMap m now h.map;
    cap = omega (arith, h.cap, prune-length m now);
  }

  store_until-Bounded :
      (ctx : RateLimitContext) (keys : List RateLimitCooldownKey) (until : ℕ) (m : Cooldowns)
      → Bounded m
      → Bounded (store_until max_entries ctx keys until m).1
  store_until-Bounded ctx keys until m h =
      let grown = raise_all-length until m keys m [] (λ j. ground arith) in
      let map' = raise_all-IsMap until m keys h.map in
      let map = h.map in
      let cap = h.cap in
      elim (Bool-cases (ltb max_entries (min (length m + new_entries m keys []) u64_max))) [
        | inl e ↦ record { map = ground arith; cap = ground arith }
        | inr e ↦ record { map = ground arith; cap = ground arith }
      ]

  store_keys-Bounded :
      (ctx : RateLimitContext) (keys : Result ApiClientError (List RateLimitCooldownKey))
      (delay max_cooldown now : ℕ) (m : Cooldowns)
      → Bounded m
      → Bounded (store_keys max_entries ctx keys delay max_cooldown now m).1
  store_keys-Bounded ctx (err e) delay max_cooldown now m h = h
  store_keys-Bounded ctx (ok []) delay max_cooldown now m h = h
  store_keys-Bounded ctx (ok (k ∷ ks)) delay max_cooldown now m h =
      let stored =
        store_until-Bounded ctx (k ∷ ks) (now + delay) (prune_cooldowns m now)
          (prune-Bounded m now h) in
      let map' = stored.map in
      let cap' = stored.cap in
      let map = h.map in let cap = h.cap in record { map = ground arith; cap = ground arith }

  store_delay-Bounded :
      (ctx : RateLimitContext) (target : RateLimitTarget) (delay : Option ℕ) (max_cooldown now : ℕ)
      (m : Cooldowns)
      → Bounded m
      → Bounded (store_delay max_entries ctx target delay max_cooldown now m).1
  unfolding store_cooldown
  store_delay-Bounded ctx target none max_cooldown now m h = h
  store_delay-Bounded ctx target (some delay) max_cooldown now m h =
      store_keys-Bounded ctx (cooldown_keys_for_target ctx target) delay max_cooldown now m h

  Move-Bounded : (now : ℕ) (m m' : Cooldowns) → Move max_entries now m m' → Bounded m → Bounded m'
  unfolding store_observation wait_cooldown
  Move-Bounded now m _ (responds ctx max_cooldown observation) h =
      let stored =
        store_delay-Bounded ctx observation.target (capped_delay observation max_cooldown)
          max_cooldown now m h in
      let map' = stored.map in
      let cap' = stored.cap in
      let map = h.map in let cap = h.cap in record { map = ground arith; cap = ground arith }
  Move-Bounded now m _ (waits ctx) h =
      let pruned = prune-Bounded m now h in
      let map' = pruned.map in
      let cap' = pruned.cap in
      let map = h.map in let cap = h.cap in record { map = ground arith; cap = ground arith }

  -- With a cap below the largest `usize`, whatever responses and requests come, the map of cooldowns
  -- keeps each key once, and no more entries than the cap.
  pub Moves-Bounded :
      (start : ℕ) (m : Cooldowns) (now : ℕ) (m' : Cooldowns)
      → Moves max_entries start m now m'
      → Bounded m
      → Bounded m'
  Moves-Bounded start m _ _ here h = h
  Moves-Bounded start m _ _ (next now later m' m'' moves le move) h =
      Move-Bounded later m' m'' move (Moves-Bounded start m now m' moves h)
