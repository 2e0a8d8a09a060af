-- ===== src/RateLimit/Response/Blocks.antt =====
-- concord_core/src/rate_limit/governor_runtime.rs: a limited response holds later requests back.
use concord_api.Base.{
  ℕ, ◌+◌, ◌≤◌, ◌<◌, ◌≡◌, refl, sym, subst, ◌⊎◌, inl, inr, true, Bool-cases, Option, some, List, [],
  ◌∷◌, Result, ok, err, contains, beq_refl, ltb, arith,
}
use concord_api.Error.{ApiClientError, invalid_configuration}
use concord_api.RateLimit.{
  RateLimitContext, RateLimitTarget, RateLimitObservation, RateLimitResponseAction,
}
use concord_api.RateLimit.Keys.{
  RateLimitCooldownKey, RateLimitCooldownKey-discrete, rate_limit_error, cooldown_keys_for_acquire,
  cooldown_keys_for_target,
}
use concord_api.RateLimit.Covered.{target_keys_are_looked_up}
use concord_api.RateLimit.Cooldown.{
  Cooldowns, prune_cooldowns, store_keys, store_cooldown, wait_for, wait_cooldown,
}
use concord_api.RateLimit.Cooldown.Entries.{Holds, prune-Holds, longest-Holds}
use concord_api.RateLimit.Response.{store_observation}
use concord_api.RateLimit.Response.Moves.{Moves, Moves-Holds, store_keys-stored}

-- The outcome of a round of waiting that does not let the request pass before `until`.
abbrev pub HoldsBack : RateLimitContext → ℕ → ℕ → Result ApiClientError (Option ℕ) → Type 0
HoldsBack ctx now until r =
    ((d : ℕ) × (r ≡ ok (some d)) × (until ≤ now + d))
    ⊎ (r ≡ err (rate_limit_error ctx invalid_configuration))

wait_for-HoldsBack :
    (ctx : RateLimitContext) (now until d : ℕ)
    → now < until
    → until ≤ now + d
    → HoldsBack ctx now until (wait_for ctx (some d))
wait_for-HoldsBack ctx now until d lt le = elim (Bool-cases (ltb ctx.max_cooldown d)) [
  | inl e ↦ inr (ground arith)
  | inr e ↦ inl (d, ground arith, le)
]

wait_cooldown-HoldsBack :
    (ctx : RateLimitContext) (ks : List RateLimitCooldownKey) (k : RateLimitCooldownKey)
    (now until : ℕ) (m : Cooldowns)
    → cooldown_keys_for_acquire ctx ≡ ok ks
    → contains RateLimitCooldownKey-discrete ks k ≡ true
    → now < until
    → Holds until m k
    → HoldsBack ctx now until (wait_cooldown ctx now m).0
unfolding wait_cooldown
wait_cooldown-HoldsBack ctx ks k now until m h c lt held =
    let (d, p, q) =
      longest-Holds until now (prune_cooldowns m now) ks k c (omega arith)
        (prune-Holds until now m k lt held) in
    subst (HoldsBack ctx now until) (sym (ground arith)) (wait_for-HoldsBack ctx now until d lt q)

store_cooldown-stored :
    (max_entries : ℕ) (ctx : RateLimitContext) (target : RateLimitTarget)
    (delay max_cooldown now : ℕ) (m m' : Cooldowns)
    (r : Result ApiClientError (List RateLimitCooldownKey))
    → cooldown_keys_for_target ctx target ≡ r
    → store_keys max_entries ctx r delay max_cooldown now m ≡ (ok true, m')
    → (k : RateLimitCooldownKey) × (ts : List RateLimitCooldownKey) × (cooldown_keys_for_target ctx
          target
        ≡ ok (k ∷ ts))
      × Holds (now + delay) m' k
store_cooldown-stored max_entries ctx target delay max_cooldown now m m' (err e) r h = cc
store_cooldown-stored max_entries ctx target delay max_cooldown now m m' (ok []) r h = cc
store_cooldown-stored max_entries ctx target delay max_cooldown now m m' (ok (k ∷ ts)) r h = (
  k,
  ts,
  r,
  store_keys-stored max_entries ctx (k ∷ ts) delay max_cooldown now m m' k h
      (ground (arith, beq_refl RateLimitCooldownKey-discrete k)),
)

store_observation-stored :
    (max_entries : ℕ) (ctx : RateLimitContext) (max_cooldown : ℕ)
    (observation : RateLimitObservation) (now : ℕ) (m m' : Cooldowns) (delay : ℕ)
    (target : RateLimitTarget)
    → store_observation max_entries ctx max_cooldown observation now m
      ≡ (ok (RateLimitResponseAction.limited (some delay) target true), m')
    → store_cooldown max_entries ctx target delay max_cooldown now m ≡ (ok true, m')
unfolding store_observation
store_observation-stored max_entries ctx max_cooldown observation now m m' delay target h =
    ground arith

-- Once a limited response has stored a cooldown of `delay`, the next request that is like the one
-- it answers, if its keys resolve, does not pass before the delay is over, whatever other responses
-- and requests come in between: it sleeps until then or longer, or fails since the delay is beyond
-- its own maximum.
pub store_observation-HoldsBack :
    (max_entries : ℕ) (ctx : RateLimitContext) (max_cooldown : ℕ)
    (observation : RateLimitObservation) (now : ℕ) (m m' : Cooldowns) (delay : ℕ)
    (target : RateLimitTarget) (ks : List RateLimitCooldownKey) (later : ℕ) (m'' : Cooldowns)
    → store_observation max_entries ctx max_cooldown observation now m
      ≡ (ok (RateLimitResponseAction.limited (some delay) target true), m')
    → Moves max_entries now m' later m''
    → later < now + delay
    → cooldown_keys_for_acquire ctx ≡ ok ks
    → HoldsBack ctx later (now + delay) (wait_cooldown ctx later m'').0
unfolding store_cooldown
store_observation-HoldsBack max_entries ctx max_cooldown observation now m m' delay target ks later
      m'' h moves lt keys =
    let stored =
      store_observation-stored max_entries ctx max_cooldown observation now m m' delay target h in
    let (k, ts, p, held) =
      store_cooldown-stored max_entries ctx target delay max_cooldown now m m' _ refl stored in
    wait_cooldown-HoldsBack ctx ks k later (now + delay) m'' keys
      (target_keys_are_looked_up ctx target ks (k ∷ ts) keys p).0 lt
      (Moves-Holds (now + delay) k max_entries now m' later m'' moves lt held)
