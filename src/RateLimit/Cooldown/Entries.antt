-- ===== src/RateLimit/Cooldown/Entries.antt =====
-- concord_core/src/rate_limit/governor_runtime.rs: what the operations on cooldowns keep of them.
use concord_api.Base.{
  ℕ, ◌+◌, ◌-◌, ◌≤◌, ◌<◌, ◌≡◌, refl, max, true, Option, none, some, List, [], ◌∷◌, inl, inr,
  Bool-cases, ltb, beq, beq_refl, beq-eq-true, contains, arith, if◌then◌else◌, subst, sym,
}
use concord_api.RateLimit.Keys.{RateLimitCooldownKey, RateLimitCooldownKey-discrete}
use concord_api.RateLimit.Cooldown.{
  Cooldowns, get, prune_cooldowns, raise, raise_all, remaining, longer, longest,
}

-- The cooldown of `k` ends at `until` or later.
abbrev pub Holds : ℕ → Cooldowns → RateLimitCooldownKey → Type 0
Holds until m k = (u : ℕ) × (get m k ≡ some u) × (until ≤ u)

pub prune-Holds :
    (until now : ℕ) (m : Cooldowns) (k : RateLimitCooldownKey)
    → now < until
    → Holds until m k
    → Holds until (prune_cooldowns m now) k
unfolding prune_cooldowns
prune-Holds until now [] k lt h = h
prune-Holds until now ((j, u) ∷ m) k lt (v, g, le) =
    elim (Bool-cases (beq RateLimitCooldownKey-discrete j k)) [
      | inl e ↦ (v, ground arith, le)
      | inr e ↦
          let (v', g', le') = prune-Holds until now m k lt (v, ground arith, le) in
          (v', ground arith, le')
    ]

pub raise-Holds :
    (until until' : ℕ) (m : Cooldowns) (j k : RateLimitCooldownKey)
    → Holds until m k
    → Holds until (raise until' m j) k
raise-Holds until until' [] j k (v, g, le) = cc
raise-Holds until until' ((i, u) ∷ m) j k (v, g, le) =
    elim (Bool-cases (beq RateLimitCooldownKey-discrete i k)) [
      | inl e ↦ elim (Bool-cases (beq RateLimitCooldownKey-discrete i j)) [
        | inl f ↦ ((if ltb u until' then until' else u), ground arith, ground arith)
        | inr f ↦ (u, ground arith, ground arith)
      ]
      | inr e ↦
          let (v', g', le') = raise-Holds until until' m j k (v, ground arith, le) in
          elim (Bool-cases (beq RateLimitCooldownKey-discrete i j)) [
            | inl f ↦ (v, ground arith, le)
            | inr f ↦ (v', ground arith, le')
          ]
    ]

pub raise-raised :
    (until : ℕ) (m : Cooldowns) (k : RateLimitCooldownKey) → Holds until (raise until m k) k
raise-raised until [] k =
    (until, ground (arith, beq_refl RateLimitCooldownKey-discrete k), omega arith)
raise-raised until ((i, u) ∷ m) k = elim (Bool-cases (beq RateLimitCooldownKey-discrete i k)) [
  | inl e ↦ ((if ltb u until then until else u), ground arith, ground arith)
  | inr e ↦ let (v', g', le') = raise-raised until m k in (v', ground arith, le')
]

pub raise_all-Holds :
    (until until' : ℕ) (m : Cooldowns) (ks : List RateLimitCooldownKey) (k : RateLimitCooldownKey)
    → Holds until m k
    → Holds until (raise_all until' m ks) k
raise_all-Holds until until' m [] k h = h
raise_all-Holds until until' m (j ∷ ks) k h =
    raise_all-Holds until until' (raise until' m j) ks k (raise-Holds until until' m j k h)

pub raise_all-raised :
    (until : ℕ) (m : Cooldowns) (ks : List RateLimitCooldownKey) (k : RateLimitCooldownKey)
    → contains RateLimitCooldownKey-discrete ks k ≡ true
    → Holds until (raise_all until m ks) k
raise_all-raised until m [] k h = cc
raise_all-raised until m (j ∷ ks) k h = elim (Bool-cases (beq RateLimitCooldownKey-discrete j k)) [
  | inl e ↦ raise_all-Holds until until (raise until m j) ks k (
      subst (Holds until (raise until m j)) (beq-eq-true RateLimitCooldownKey-discrete j k e)
        (raise-raised until m j))
  | inr e ↦ raise_all-raised until (raise until m j) ks k (ground arith)
]

pub longer_left : (a b : Option ℕ) (x : ℕ) → a ≡ some x → (d : ℕ) × (longer a b ≡ some d) × (x ≤ d)
longer_left none b x h = cc
longer_left (some a) none x h = (a, refl, ground arith)
longer_left (some a) (some b) x h = (max a b, refl, ground arith)

pub longer_right : (a b : Option ℕ) (x : ℕ) → b ≡ some x → (d : ℕ) × (longer a b ≡ some d) × (x ≤ d)
longer_right none b x h = (x, h, omega arith)
longer_right (some a) none x h = cc
longer_right (some a) (some b) x h = (max a b, refl, ground arith)

-- A key that is looked up has its remaining cooldown in the longest delay.
pub longest-Holds :
    (until now : ℕ) (m : Cooldowns) (ks : List RateLimitCooldownKey) (k : RateLimitCooldownKey)
    → contains RateLimitCooldownKey-discrete ks k ≡ true
    → now ≤ until
    → Holds until m k
    → (d : ℕ) × (longest m now ks ≡ some d) × (until ≤ now + d)
longest-Holds until now m [] k h le held = cc
longest-Holds until now m (j ∷ ks) k h le (u, g, lu) =
    elim (Bool-cases (beq RateLimitCooldownKey-discrete j k)) [
      | inl e ↦
          let at_j : (get m j ≡ some u) =
            subst (λ i. get m i ≡ some u) (sym (beq-eq-true RateLimitCooldownKey-discrete j k e))
              g in
          let (d, p, q) =
            longer_left (remaining now (get m j)) (longest m now ks) (u - now) (ground arith) in
          (d, p, omega arith)
      | inr e ↦
          let (d, p, q) = longest-Holds until now m ks k (ground arith) le (u, g, lu) in
          let (d', p', q') = longer_right (remaining now (get m j)) (longest m now ks) d p in
          (d', p', omega arith)
    ]
