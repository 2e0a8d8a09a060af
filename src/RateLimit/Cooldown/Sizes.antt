-- ===== src/RateLimit/Cooldown/Sizes.antt =====
-- concord_core/src/rate_limit/governor_runtime.rs: the keys of the map of cooldowns, and its size.
use concord_api.Base.{
  ℕ, suc, ◌+◌, ◌≤◌, ◌≡◌, refl, ap, Bool, true, false, ◌||◌, is_some, List, [], ◌∷◌, length, inl,
  inr, Bool-cases, ltb, if◌then◌else◌, beq, beq-eq-true, beq-sym-false, contains, IsNodup, arith,
}
use concord_api.RateLimit.Keys.{RateLimitCooldownKey, RateLimitCooldownKey-discrete}
use concord_api.RateLimit.Cooldown.{Cooldowns, get, prune_cooldowns, raise, raise_all, new_entries}

abbrev pub keys_of : Cooldowns → List RateLimitCooldownKey
keys_of [] = []
keys_of ((k, u) ∷ m) = k ∷ keys_of m

-- Each key stands once.
abbrev pub IsMap : Cooldowns → Type 0
IsMap m = IsNodup RateLimitCooldownKey-discrete (keys_of m)

abbrev pub has : Cooldowns → RateLimitCooldownKey → Bool
has m k = contains RateLimitCooldownKey-discrete (keys_of m) k

abbrev same : RateLimitCooldownKey → RateLimitCooldownKey → Bool
same = beq RateLimitCooldownKey-discrete

pub is_some-get : (m : Cooldowns) (k : RateLimitCooldownKey) → is_some (get m k) ≡ has m k
is_some-get [] k = refl
is_some-get ((j, u) ∷ m) k = ground (arith, is_some-get m k)

pub prune-length : (m : Cooldowns) (now : ℕ) → length (prune_cooldowns m now) ≤ length m
unfolding prune_cooldowns
prune-length [] now = omega arith
prune-length ((j, u) ∷ m) now = ground (arith, prune-length m now)

prune-has :
    (m : Cooldowns) (now : ℕ) (k : RateLimitCooldownKey)
    → has m k ≡ false
    → has (prune_cooldowns m now) k ≡ false
unfolding prune_cooldowns
prune-has [] now k h = refl
prune-has ((j, u) ∷ m) now k h = let rest = prune-has m now k (ground arith) in ground arith

pub prune-IsMap : (m : Cooldowns) (now : ℕ) → IsMap m → IsMap (prune_cooldowns m now)
unfolding prune_cooldowns
prune-IsMap [] now h = tt
prune-IsMap ((j, u) ∷ m) now (h, hs) =
    let rest = prune-IsMap m now hs in
    let absent = prune-has m now j h in
    elim (Bool-cases (ltb now u)) [ inl e ↦ ground arith | inr e ↦ ground arith ]

raise-has :
    (until : ℕ) (m : Cooldowns) (k j : RateLimitCooldownKey)
    → has (raise until m k) j ≡ (has m j || same k j)
raise-has until [] k j = ground arith
raise-has until ((i, u) ∷ m) k j = elim (Bool-cases (same i k)) [
  | inl e ↦
      let z = beq-eq-true RateLimitCooldownKey-discrete i k e in
      let equal : (same i j ≡ same k j) = ap (λ x. same x j) z in ground arith
  | inr e ↦ ground (arith, raise-has until m k j)
]

raise-old :
    (until : ℕ) (m : Cooldowns) (k j : RateLimitCooldownKey)
    → has m k ≡ true
    → has (raise until m k) j ≡ has m j
raise-old until m k j h = elim (Bool-cases (same k j)) [
  | inl e ↦
      let equal : (has m k ≡ has m j) =
        ap (has m) (beq-eq-true RateLimitCooldownKey-discrete k j e) in
      ground (arith, raise-has until m k j)
  | inr e ↦ ground (arith, raise-has until m k j)
]

raise-length :
    (until : ℕ) (m : Cooldowns) (k : RateLimitCooldownKey)
    → length (raise until m k) ≡ (if has m k then length m else suc (length m))
raise-length until [] k = refl
raise-length until ((i, u) ∷ m) k = ground (arith, raise-length until m k)

raise-IsMap :
    (until : ℕ) (m : Cooldowns) (k : RateLimitCooldownKey) → IsMap m → IsMap (raise until m k)
raise-IsMap until [] k h = (refl, tt)
raise-IsMap until ((i, u) ∷ m) k (h, hs) =
    let rest = raise-IsMap until m k hs in
    let grown = raise-has until m k i in
    elim (Bool-cases (same i k)) [
      | inl e ↦ ground arith
      | inr e ↦ let far = beq-sym-false RateLimitCooldownKey-discrete i k e in ground arith
    ]

pub raise_all-IsMap :
    (until : ℕ) (m : Cooldowns) (ks : List RateLimitCooldownKey)
    → IsMap m
    → IsMap (raise_all until m ks)
raise_all-IsMap until m [] h = h
raise_all-IsMap until m (k ∷ ks) h =
    raise_all-IsMap until (raise until m k) ks (raise-IsMap until m k h)

-- `seen` are the keys that have been put into `m`, which gave `m'`.
pub raise_all-length :
    (until : ℕ) (m : Cooldowns) (ks : List RateLimitCooldownKey) (m' : Cooldowns)
    (seen : List RateLimitCooldownKey)
    → ((j : RateLimitCooldownKey)
        → has m' j ≡ (has m j || contains RateLimitCooldownKey-discrete seen j))
    → length (raise_all until m' ks) ≤ length m' + new_entries m ks seen
raise_all-length until m [] m' seen h = omega arith
raise_all-length until m (k ∷ ks) m' seen h =
    let grown = raise-length until m' k in
    let here = h k in
    elim (Bool-cases (has m k || contains RateLimitCooldownKey-discrete seen k)) [
      | inl e ↦
          let rest =
            raise_all-length until m ks (raise until m' k) seen
              (λ j. ground (arith, h j, raise-old until m' k j)) in
          ground (arith, is_some-get m k)
      | inr e ↦
          let rest =
            raise_all-length until m ks (raise until m' k) (k ∷ seen)
              (λ j. ground (arith, h j, raise-has until m' k j)) in
          ground (arith, is_some-get m k)
    ]
