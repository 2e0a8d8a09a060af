-- ===== src/RateLimit/Cooldown/Passes.antt =====
-- concord_core/src/rate_limit/governor_runtime.rs: a request that has slept as long as it was told passes.
use concord_api.Base.{
  ℕ, ◌+◌, ◌-◌, ◌≤◌, ◌<◌, ◌≡◌, refl, ap, inl, inr, Bool-cases, Option, none, some, Option-cases,
  List, [], ◌∷◌, ok, Result-cases, beq, beq-eq-true, ltb, leb, leb_iff, arith,
}
use concord_api.RateLimit.{RateLimitContext}
use concord_api.RateLimit.Keys.{
  RateLimitCooldownKey, RateLimitCooldownKey-discrete, cooldown_keys_for_acquire,
}
use concord_api.RateLimit.Cooldown.{
  Cooldowns, get, prune_cooldowns, remaining, longest, wait_for, wait_cooldown,
}
use concord_api.RateLimit.Cooldown.Entries.{longer_left, longer_right}
use concord_api.RateLimit.Cooldown.Sizes.{IsMap, is_some-get, prune-IsMap}

-- Where each key stands once, what is left after pruning was there before, and ends later.
prune-get :
    (m : Cooldowns) (now : ℕ) (k : RateLimitCooldownKey) (u : ℕ)
    → IsMap m
    → get (prune_cooldowns m now) k ≡ some u
    → (get m k ≡ some u) × (now < u)
unfolding prune_cooldowns
prune-get [] now k u h g = cc
prune-get ((j, v) ∷ m) now k u (h, hs) g = elim (Bool-cases (ltb now v)) [
  | inl e ↦ elim (Bool-cases (beq RateLimitCooldownKey-discrete j k)) [
    | inl f ↦ (ground arith, ground arith)
    | inr f ↦ let (p, q) = prune-get m now k u hs (ground arith) in (ground arith, q)
  ]
  | inr e ↦
      let (p, q) = prune-get m now k u hs (ground arith) in
      elim (Bool-cases (beq RateLimitCooldownKey-discrete j k)) [
        | inl f ↦
            let z = ap (get m) (beq-eq-true RateLimitCooldownKey-discrete j k f) in
            absurd (ground (arith, is_some-get m j))
        | inr f ↦ (ground arith, q)
      ]
]

-- None of the keys has a cooldown at `later`.
IsOver : Cooldowns → ℕ → List RateLimitCooldownKey → Type 0
IsOver m later [] = Unit
IsOver m later (k ∷ ks) = ((u : ℕ) → get m k ≡ some u → u ≤ later) × IsOver m later ks

longest-IsOver :
    (m : Cooldowns) (now later : ℕ) (ks : List RateLimitCooldownKey)
    → ((d : ℕ) → longest m now ks ≡ some d → now + d ≤ later)
    → now ≤ later
    → IsOver m later ks
unfolding IsOver
longest-IsOver m now later [] h le = tt
longest-IsOver m now later (k ∷ ks) h le = (
  λ u g. elim (Bool-cases (leb now u)) [
    | inl e ↦
        let (d, p, q) =
          longer_left (remaining now (get m k)) (longest m now ks) (u - now) (ground arith) in
        omega (arith, h d p, (leb_iff now u).0 e)
    | inr e ↦ ground arith
  ],
  longest-IsOver m now later ks
      (λ d e.
        let (d', p, q) = longer_right (remaining now (get m k)) (longest m now ks) d e in
        omega (arith, h d' p))
      le,
)

over-passes :
    (m : Cooldowns) (later : ℕ) (ks : List RateLimitCooldownKey)
    → IsMap m
    → IsOver m later ks
    → longest (prune_cooldowns m later) later ks ≡ none
unfolding IsOver
over-passes m later [] map h = refl
over-passes m later (k ∷ ks) map (h, hs) =
    let rest = over-passes m later ks map hs in
    elim (Option-cases (get (prune_cooldowns m later) k)) [
      | inl e ↦ ground arith
      | inr (u, e) ↦ let (p, q) = prune-get m later k u map e in absurd (omega (arith, h u p))
    ]

sleeping :
    (ctx : RateLimitContext) (delay : Option ℕ) (d : ℕ)
    → wait_for ctx delay ≡ ok (some d)
    → delay ≡ some d
sleeping ctx none d h = cc
sleeping ctx (some x) d h = ground arith

-- Where each key stands once, a request that is told to sleep, and next looks when that time is over
-- and no other response has stored a cooldown, passes.
pub slept_request_passes :
    (ctx : RateLimitContext) (now later d : ℕ) (m m' : Cooldowns)
    → IsMap m
    → wait_cooldown ctx now m ≡ (ok (some d), m')
    → now + d ≤ later
    → (wait_cooldown ctx later m').0 ≡ ok none
unfolding wait_cooldown
slept_request_passes ctx now later d m m' map h le =
    elim (Result-cases (cooldown_keys_for_acquire ctx)) [
      | inr (x, e) ↦ absurd (ground arith)
      | inl (ks, e) ↦
          let delay : (longest (prune_cooldowns m now) now ks ≡ some d) =
            sleeping ctx _ d (ground arith) in
          let same : (m' ≡ prune_cooldowns m now) = ground arith in
          let over =
            longest-IsOver (prune_cooldowns m now) now later ks
              (λ d' e'. let z : (d ≡ d') = cc in omega (arith, z)) (omega arith) in
          let passes = over-passes (prune_cooldowns m now) later ks (prune-IsMap m now map) over in
          ground arith
    ]
