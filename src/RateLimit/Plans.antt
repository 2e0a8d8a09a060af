-- ===== src/RateLimit/Plans.antt =====
-- concord_core/src/rate_limit/plan.rs: `canonicalize`.
use concord_api.Base.{
  Bool, false, not, ◌&&◌, Bool-cases, inl, inr, ap, All, arith, beq_refl, beq-eq-true,
  beq-sym-false, List, [], ◌∷◌, ◌≡◌, refl, if◌then◌else◌, insert, contains, beq, IsNodup,
}
use concord_api.RateLimit.{RateLimitBucketUse, RateLimitBucketUse-discrete, RateLimitPlan}

-- `retain` with the set of the buckets seen.
abbrev first_uses : List RateLimitBucketUse → List RateLimitBucketUse → List RateLimitBucketUse
first_uses seen [] = []
first_uses seen (b ∷ bs) =
    let (fresh, seen') = insert RateLimitBucketUse-discrete seen b in
    let rest = first_uses seen' bs in if fresh then b ∷ rest else rest

unfoldable pub canonicalized : RateLimitPlan → RateLimitPlan
canonicalized plan = record plan { buckets = first_uses [] plan.buckets }

abbrev has : List RateLimitBucketUse → RateLimitBucketUse → Bool
has = contains RateLimitBucketUse-discrete

abbrev same : RateLimitBucketUse → RateLimitBucketUse → Bool
same = beq RateLimitBucketUse-discrete

has-first_uses :
    (seen bs : List RateLimitBucketUse) (b : RateLimitBucketUse)
    → has (first_uses seen bs) b ≡ (has bs b && not (has seen b))
has-first_uses seen [] b = refl
has-first_uses seen (x ∷ xs) b = elim (Bool-cases (same x b)) [
  | inl e ↦
      let z : (has seen x ≡ has seen b) =
        ap (has seen) (beq-eq-true RateLimitBucketUse-discrete x b e) in
      ground (arith, has-first_uses seen xs b, has-first_uses (x ∷ seen) xs b)
  | inr e ↦ ground (arith, has-first_uses seen xs b, has-first_uses (x ∷ seen) xs b)
]

first_uses-IsNodup :
    (seen bs : List RateLimitBucketUse) → IsNodup RateLimitBucketUse-discrete (first_uses seen bs)
first_uses-IsNodup seen [] = tt
first_uses-IsNodup seen (x ∷ xs) =
    let old = first_uses-IsNodup seen xs in
    let new = first_uses-IsNodup (x ∷ seen) xs in
    elim (Bool-cases (has seen x)) [
      | inl e ↦ ground arith
      | inr e ↦
          ground (arith, has-first_uses (x ∷ seen) xs x, beq_refl RateLimitBucketUse-discrete x)
    ]

apart : (b x : RateLimitBucketUse) → same b x ≡ false → same x b ≡ false
apart b x h = beq-sym-false RateLimitBucketUse-discrete b x h

still_new :
    (x : RateLimitBucketUse) (seen bs : List RateLimitBucketUse)
    → has bs x ≡ false
    → All (λ b. has seen b ≡ false) bs
    → All (λ b. has (x ∷ seen) b ≡ false) bs
still_new x seen [] h n = tt
still_new x seen (b ∷ bs) h (n, ns) =
    let rest = still_new x seen bs (ground arith) ns in
    let far = apart b x (ground arith) in (ground arith, rest)

none_seen : (bs : List RateLimitBucketUse) → All (λ b. has [] b ≡ false) bs
none_seen [] = tt
none_seen (b ∷ bs) = (refl, none_seen bs)

-- Buckets of which none has been seen and none stands twice stay as they are.
first_uses-id :
    (seen bs : List RateLimitBucketUse)
    → IsNodup RateLimitBucketUse-discrete bs
    → All (λ b. has seen b ≡ false) bs
    → first_uses seen bs ≡ bs
first_uses-id seen [] h new = refl
first_uses-id seen (x ∷ xs) (h, hs) (n, ns) =
    let rest = first_uses-id (x ∷ seen) xs hs (still_new x seen xs h ns) in ground arith

-- A canonical plan has the same buckets, each of them once, and is its own canonical plan.
pub canonical_plan_has_each_bucket_once :
    (plan : RateLimitPlan)
    → IsNodup RateLimitBucketUse-discrete (canonicalized plan).buckets
      × ((b : RateLimitBucketUse)
          → contains RateLimitBucketUse-discrete (canonicalized plan).buckets b
            ≡ contains RateLimitBucketUse-discrete plan.buckets b)
      × (canonicalized (canonicalized plan) ≡ canonicalized plan)
unfolding canonicalized
canonical_plan_has_each_bucket_once plan = (
  first_uses-IsNodup [] plan.buckets,
  (λ b. ground (arith, has-first_uses [] plan.buckets b)),
  ap (λ bs. record { buckets = bs })
      (first_uses-id [] (first_uses [] plan.buckets) (first_uses-IsNodup [] plan.buckets)
        (none_seen (first_uses [] plan.buckets))),
)
