-- ===== src/RateLimit/BucketKeys.antt =====
-- concord_core/src/rate_limit/governor_runtime.rs: the cooldown keys of the buckets of a plan.
use concord_api.Base.{
  true, List, [], ◌∷◌, ◌++◌, ◌≡◌, refl, Result, ok, traverse, beq_refl, contains, All, Result-cases,
  inl, inr, subst, sym, traverse-cons, arith,
}
use concord_api.Error.{ApiClientError}
use concord_api.RateLimit.{RateLimitBucketUse, RateLimitContext}
use concord_api.RateLimit.Keys.{
  resolve_key, ResolvedRateLimitKey, RateLimitCooldownKey, RateLimitCooldownKey-discrete,
  bucket_keys, bucket_cooldown_key, bucket_kind_cooldown_key,
}

-- Each of the keys `ts` is one of `ks`.
abbrev pub IsCovered : List RateLimitCooldownKey → List RateLimitCooldownKey → Type 0
IsCovered ks ts = All (λ k. contains RateLimitCooldownKey-discrete ks k ≡ true) ts

pub contains_head :
    (k : RateLimitCooldownKey) (ks : List RateLimitCooldownKey)
    → contains RateLimitCooldownKey-discrete (k ∷ ks) k ≡ true
contains_head k ks = ground (arith, beq_refl RateLimitCooldownKey-discrete k)

contains_at :
    (j k : RateLimitCooldownKey) (ks : List RateLimitCooldownKey)
    → j ≡ k
    → contains RateLimitCooldownKey-discrete (j ∷ ks) k ≡ true
contains_at j k ks h =
    subst (λ x. contains RateLimitCooldownKey-discrete (j ∷ ks) x ≡ true) h (contains_head j ks)

pub contains_tail :
    (j k : RateLimitCooldownKey) (ks : List RateLimitCooldownKey)
    → contains RateLimitCooldownKey-discrete ks k ≡ true
    → contains RateLimitCooldownKey-discrete (j ∷ ks) k ≡ true
contains_tail j k ks h = ground arith

IsCovered-tail :
    (j : RateLimitCooldownKey) (ks ts : List RateLimitCooldownKey)
    → IsCovered ks ts
    → IsCovered (j ∷ ks) ts
IsCovered-tail j ks [] h = tt
IsCovered-tail j ks (t ∷ ts) (h, hs) = (contains_tail j t ks h, IsCovered-tail j ks ts hs)

pub IsCovered-append :
    (js ks ts : List RateLimitCooldownKey) → IsCovered ks ts → IsCovered (js ++ ks) ts
IsCovered-append [] ks ts h = h
IsCovered-append (j ∷ js) ks ts h = IsCovered-tail j (js ++ ks) ts (IsCovered-append js ks ts h)

-- What a key of a bucket is to be.
abbrev pub Gives :
    (RateLimitBucketUse → Result ApiClientError RateLimitCooldownKey)
    → List RateLimitCooldownKey
    → RateLimitBucketUse
    → Type 0
Gives key_of ks b =
    (k : RateLimitCooldownKey)
    → key_of b ≡ ok k
    → contains RateLimitCooldownKey-discrete ks k ≡ true

same_keys :
    {r : Result ApiClientError (List RateLimitCooldownKey)} {xs ts : List RateLimitCooldownKey}
    → r ≡ ok xs
    → r ≡ ok ts
    → xs ≡ ts
same_keys p q = cc

pub settled :
    (ks xs ts : List RateLimitCooldownKey) {r : Result ApiClientError (List RateLimitCooldownKey)}
    → r ≡ ok xs
    → r ≡ ok ts
    → IsCovered ks xs
    → IsCovered ks ts
settled ks xs ts p q h = subst (IsCovered ks) (same_keys p q) h

pub traverse-IsCovered :
    (key_of : RateLimitBucketUse → Result ApiClientError RateLimitCooldownKey)
    (ks : List RateLimitCooldownKey) (bs : List RateLimitBucketUse) (ts : List RateLimitCooldownKey)
    → All (Gives key_of ks) bs
    → traverse key_of bs ≡ ok ts
    → IsCovered ks ts
traverse-IsCovered key_of ks [] ts h e = settled ks [] ts refl e tt
traverse-IsCovered key_of ks (b ∷ bs) ts (h, hs) e =
    let (t, rest, p, q, z) = traverse-cons key_of b bs e in
    subst (IsCovered ks) (sym z) (h t p, traverse-IsCovered key_of ks bs rest hs q)

module _ (ctx : RateLimitContext) where
  pub Gives-tail :
      (key_of : RateLimitBucketUse → Result ApiClientError RateLimitCooldownKey)
      (j : RateLimitCooldownKey) (ks : List RateLimitCooldownKey) (bs : List RateLimitBucketUse)
      → All (Gives key_of ks) bs
      → All (Gives key_of (j ∷ ks)) bs
  Gives-tail key_of j ks [] h = tt
  Gives-tail key_of j ks (b ∷ bs) (h, hs) =
      ((λ k e. contains_tail j k ks (h k e)), Gives-tail key_of j ks bs hs)

  bucket_keys-cons :
      (b : RateLimitBucketUse) (bs : List RateLimitBucketUse) {ks : List RateLimitCooldownKey}
      → bucket_keys ctx (b ∷ bs) ≡ ok ks
      → (key : ResolvedRateLimitKey) × (rest : List RateLimitCooldownKey) × (resolve_key ctx b.key
          ≡ ok key)
        × (bucket_keys ctx bs ≡ ok rest)
        × (ks
            ≡ RateLimitCooldownKey.bucket_kind b.id.kind key
              ∷ RateLimitCooldownKey.bucket b.id key
              ∷ rest)
  bucket_keys-cons b bs h = elim (Result-cases (resolve_key ctx b.key)) [
    | inr (e, p) ↦ cc (p, h)
    | inl (key, p) ↦ elim (Result-cases (bucket_keys ctx bs)) [
      | inr (e, q) ↦ cc (p, q, h)
      | inl (rest, q) ↦ (key, rest, p, q, cc (p, q, h))
    ]
  ]

  abbrev with_keys_of :
      RateLimitBucketUse
      → ResolvedRateLimitKey
      → List RateLimitCooldownKey
      → List RateLimitCooldownKey
  with_keys_of b key rest =
      RateLimitCooldownKey.bucket_kind b.id.kind key ∷ RateLimitCooldownKey.bucket b.id key ∷ rest

  Gives-tail_twice :
      (key_of : RateLimitBucketUse → Result ApiClientError RateLimitCooldownKey)
      (b : RateLimitBucketUse) (key : ResolvedRateLimitKey) (rest : List RateLimitCooldownKey)
      (bs : List RateLimitBucketUse)
      → All (Gives key_of rest) bs
      → All (Gives key_of (with_keys_of b key rest)) bs
  Gives-tail_twice key_of b key rest bs h =
      Gives-tail key_of (RateLimitCooldownKey.bucket_kind b.id.kind key)
        (RateLimitCooldownKey.bucket b.id key ∷ rest) bs
        (Gives-tail key_of (RateLimitCooldownKey.bucket b.id key) rest bs h)

  bucket_cooldown_key-Gives :
      (b : RateLimitBucketUse) (key : ResolvedRateLimitKey) (rest : List RateLimitCooldownKey)
      → resolve_key ctx b.key ≡ ok key
      → Gives (bucket_cooldown_key ctx) (with_keys_of b key rest) b
  bucket_cooldown_key-Gives b key rest p k e =
      contains_tail (RateLimitCooldownKey.bucket_kind b.id.kind key) k
        (RateLimitCooldownKey.bucket b.id key ∷ rest)
        (contains_at (RateLimitCooldownKey.bucket b.id key) k rest (cc (p, e)))

  bucket_kind_cooldown_key-Gives :
      (b : RateLimitBucketUse) (key : ResolvedRateLimitKey) (rest : List RateLimitCooldownKey)
      → resolve_key ctx b.key ≡ ok key
      → Gives (bucket_kind_cooldown_key ctx) (with_keys_of b key rest) b
  bucket_kind_cooldown_key-Gives b key rest p k e =
      contains_at (RateLimitCooldownKey.bucket_kind b.id.kind key) k
        (RateLimitCooldownKey.bucket b.id key ∷ rest) (cc (p, e))

  pub bucket_keys_give :
      (bs : List RateLimitBucketUse) (ks : List RateLimitCooldownKey)
      → bucket_keys ctx bs ≡ ok ks
      → All (Gives (bucket_cooldown_key ctx) ks) bs
        × All (Gives (bucket_kind_cooldown_key ctx) ks) bs
  bucket_keys_give [] ks h = (tt, tt)
  bucket_keys_give (b ∷ bs) ks h =
      let (key, rest, p, q, z) = bucket_keys-cons b bs h in
      let (of_bucket, of_kind) = bucket_keys_give bs rest q in
      subst
        (λ js.
          All (Gives (bucket_cooldown_key ctx) js) (b ∷ bs)
          × All (Gives (bucket_kind_cooldown_key ctx) js) (b ∷ bs))
        (sym z)
        (
          (
            bucket_cooldown_key-Gives b key rest p,
            Gives-tail_twice (bucket_cooldown_key ctx) b key rest bs of_bucket,
          ),
          (
            bucket_kind_cooldown_key-Gives b key rest p,
            Gives-tail_twice (bucket_kind_cooldown_key ctx) b key rest bs of_kind,
          ),
        )
