-- ===== src/RateLimit/Response/Moves.antt =====
-- concord_core/src/rate_limit/governor_runtime.rs: the calls that change the cooldowns, and what they
-- keep.
use concord_api.Base.{
  ℕ, ◌+◌, ◌≤◌, ◌<◌, ◌≡◌, true, Option, none, some, List, [], ◌∷◌, inl, inr, Bool-cases,
  Option-cases, Result, ok, err, Result-cases, subst, sym, contains, arith, checked_add,
  instant_max, u64_max, min, length, ltb,
}
use concord_api.Error.{ApiClientError}
use concord_api.RateLimit.{RateLimitContext, RateLimitTarget, RateLimitObservation}
use concord_api.RateLimit.Keys.{
  RateLimitCooldownKey, RateLimitCooldownKey-discrete, cooldown_keys_for_acquire,
  cooldown_keys_for_target,
}
use concord_api.RateLimit.Cooldown.{
  Cooldowns, prune_cooldowns, raise_all, store_until, store_keys, store_cooldown, wait_cooldown,
  new_entries,
}
use concord_api.RateLimit.Cooldown.Entries.{Holds, prune-Holds, raise_all-Holds, raise_all-raised}
use concord_api.RateLimit.Response.{nothing_to_store, capped_delay, store_delay, store_observation}

-- A call at the time `now`: a response is taken in, or a round of waiting looks the cooldowns up.
pub data Move (max_entries : ℕ) (now : ℕ) (m : Cooldowns) : Cooldowns → Type 0 where
  responds :
      (ctx : RateLimitContext) (max_cooldown : ℕ) (observation : RateLimitObservation)
      → Move max_entries now m (store_observation max_entries ctx max_cooldown observation now m).1
  waits : (ctx : RateLimitContext) → Move max_entries now m (wait_cooldown ctx now m).1

-- Calls in the order of time.
pub data Moves (max_entries : ℕ) (start : ℕ) (m : Cooldowns) : ℕ → Cooldowns → Type 0 where
  here : Moves max_entries start m start m
  next :
      (now later : ℕ) (m' m'' : Cooldowns)
      → Moves max_entries start m now m'
      → now ≤ later
      → Move max_entries later m' m''
      → Moves max_entries start m later m''

module _ (until now : ℕ) (k : RateLimitCooldownKey) (lt : now < until) where
  store_until-Holds :
      (max_entries : ℕ) (ctx : RateLimitContext) (keys : List RateLimitCooldownKey) (until' : ℕ)
      (m : Cooldowns)
      → Holds until m k
      → Holds until (store_until max_entries ctx keys until' m).1 k
  store_until-Holds max_entries ctx keys until' m h =
      let raised = raise_all-Holds until until' m keys k h in
      elim (Bool-cases (ltb max_entries (min (length m + new_entries m keys []) u64_max))) [
        | inl e ↦ ground arith
        | inr e ↦ ground arith
      ]

  store_keys-Holds :
      (max_entries : ℕ) (ctx : RateLimitContext)
      (keys : Result ApiClientError (List RateLimitCooldownKey)) (delay max_cooldown : ℕ)
      (m : Cooldowns)
      → Holds until m k
      → Holds until (store_keys max_entries ctx keys delay max_cooldown now m).1 k
  store_keys-Holds max_entries ctx (err e) delay max_cooldown m h = h
  store_keys-Holds max_entries ctx (ok []) delay max_cooldown m h = h
  store_keys-Holds max_entries ctx (ok (j ∷ js)) delay max_cooldown m h =
      elim (Bool-cases (ltb max_cooldown delay)) [
        | inl e ↦ ground arith
        | inr e ↦ elim (Option-cases (checked_add instant_max now delay)) [
          | inl p ↦ ground arith
          | inr (u, p) ↦
              let held =
                store_until-Holds max_entries ctx (j ∷ js) u (prune_cooldowns m now)
                  (prune-Holds until now m k lt h) in
              ground arith
        ]
      ]

  store_cooldown-Holds :
      (max_entries : ℕ) (ctx : RateLimitContext) (target : RateLimitTarget) (delay max_cooldown : ℕ)
      (m : Cooldowns)
      → Holds until m k
      → Holds until (store_cooldown max_entries ctx target delay max_cooldown now m).1 k
  unfolding store_cooldown
  store_cooldown-Holds max_entries ctx target delay max_cooldown m h =
      store_keys-Holds max_entries ctx (cooldown_keys_for_target ctx target) delay max_cooldown m h

  store_delay-Holds :
      (max_entries : ℕ) (ctx : RateLimitContext) (target : RateLimitTarget) (delay : Option ℕ)
      (max_cooldown : ℕ) (m : Cooldowns)
      → Holds until m k
      → Holds until (store_delay max_entries ctx target delay max_cooldown now m).1 k
  store_delay-Holds max_entries ctx target none max_cooldown m h = h
  store_delay-Holds max_entries ctx target (some delay) max_cooldown m h =
      store_cooldown-Holds max_entries ctx target delay max_cooldown m h

  Move-Holds :
      (max_entries : ℕ) (m m' : Cooldowns)
      → Move max_entries now m m'
      → Holds until m k
      → Holds until m' k
  unfolding store_observation wait_cooldown
  Move-Holds max_entries m _ (responds ctx max_cooldown observation) h =
      let held =
        store_delay-Holds max_entries ctx observation.target (capped_delay observation max_cooldown)
          max_cooldown m h in
      let (v, g, le) = h in
      let (v', g', le') = held in
      elim (Bool-cases observation.limited) [
        | inr e ↦ (v, ground arith, le)
        | inl e ↦ elim (Bool-cases (nothing_to_store observation max_cooldown)) [
          | inl f ↦ (v, ground arith, le)
          | inr f ↦ (v', ground arith, le')
        ]
      ]
  Move-Holds max_entries m _ (waits ctx) h = elim (Result-cases (cooldown_keys_for_acquire ctx)) [
    | inl (ks, e) ↦ let held = prune-Holds until now m k lt h in ground arith
    | inr (x, e) ↦ ground arith
  ]

pub Moves-Holds :
    (until : ℕ) (k : RateLimitCooldownKey) (max_entries start : ℕ) (m : Cooldowns) (now : ℕ)
    (m' : Cooldowns)
    → Moves max_entries start m now m'
    → now < until
    → Holds until m k
    → Holds until m' k
Moves-Holds until k max_entries start m _ _ here lt h = h
Moves-Holds until k max_entries start m _ _ (next now later m' m'' moves le move) lt h =
    Move-Holds until later k lt max_entries m' m'' move
      (Moves-Holds until k max_entries start m now m' moves (omega arith) h)

-- A stored cooldown holds of each of its keys.
pub store_keys-stored :
    (max_entries : ℕ) (ctx : RateLimitContext) (keys : List RateLimitCooldownKey)
    (delay max_cooldown now : ℕ) (m m' : Cooldowns) (k : RateLimitCooldownKey)
    → store_keys max_entries ctx (ok keys) delay max_cooldown now m ≡ (ok true, m')
    → contains RateLimitCooldownKey-discrete keys k ≡ true
    → Holds (now + delay) m' k
store_keys-stored max_entries ctx [] delay max_cooldown now m m' k h c = cc
store_keys-stored max_entries ctx (j ∷ js) delay max_cooldown now m m' k h c =
    let held = raise_all-raised (now + delay) (prune_cooldowns m now) (j ∷ js) k c in
    let same : (m' ≡ raise_all (now + delay) (prune_cooldowns m now) (j ∷ js)) = ground arith in
    subst (λ x. Holds (now + delay) x k) (sym same) held
