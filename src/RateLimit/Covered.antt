-- ===== src/RateLimit/Covered.antt =====
-- concord_core/src/rate_limit/governor_runtime.rs: the keys under which a cooldown is stored are among
-- those that a request looks up.
use concord_api.Base.{
  String, Option, none, some, List, [], ◌∷◌, ◌++◌, ◌≡◌, refl, Result, ok, ok_or, ◌>>=◌, All,
  All-filter, Result-cases, inl, inr, subst, sym,
}
use concord_api.Error.{ApiClientError}
use concord_api.RateLimit.{RateLimitBucketUse, RateLimitContext, RateLimitTarget}
use concord_api.RateLimit.Keys.{
  RateLimitCooldownKey, bucket_keys, bucket_cooldown_key, bucket_kind_cooldown_key,
  cooldown_keys_for_acquire, cooldown_keys_for_target, selected_keys, host_keys,
  request_cooldown_key, endpoint_cooldown_key,
}
use concord_api.RateLimit.BucketKeys.{
  IsCovered, Gives, contains_head, contains_tail, IsCovered-append, settled, bucket_keys_give,
  Gives-tail, traverse-IsCovered,
}

module _ (ctx : RateLimitContext) where
  abbrev acquired : Option String → List RateLimitCooldownKey → List RateLimitCooldownKey
  acquired host_of rest =
      RateLimitCooldownKey.client
      ∷ endpoint_cooldown_key ctx
      ∷ request_cooldown_key ctx
      ∷ (host_keys host_of ++ rest)

  Gives-append :
      (key_of : RateLimitBucketUse → Result ApiClientError RateLimitCooldownKey)
      (js ks : List RateLimitCooldownKey) (bs : List RateLimitBucketUse)
      → All (Gives key_of ks) bs
      → All (Gives key_of (js ++ ks)) bs
  Gives-append key_of [] ks bs h = h
  Gives-append key_of (j ∷ js) ks bs h =
      Gives-tail ctx key_of j (js ++ ks) bs (Gives-append key_of js ks bs h)

  host-IsCovered :
      (host_of : Option String) (e : ApiClientError) (rest ts : List RateLimitCooldownKey)
      → (ok_or host_of e
          >>= (λ name. ok (RateLimitCooldownKey.host name))
          >>= (λ key. ok (key ∷ [])))
        ≡ ok ts
      → IsCovered (acquired host_of rest) ts
  host-IsCovered none e rest ts h = cc
  host-IsCovered (some name) e rest ts h =
      let k = RateLimitCooldownKey.host name in
      settled (acquired (some name) rest) (k ∷ []) ts refl h (
        IsCovered-append
          (RateLimitCooldownKey.client ∷ endpoint_cooldown_key ctx ∷ request_cooldown_key ctx ∷ [])
          (k ∷ rest) (k ∷ []) (contains_head k rest, tt))

  selected-IsCovered :
      (key_of : RateLimitBucketUse → Result ApiClientError RateLimitCooldownKey)
      (ks : List RateLimitCooldownKey) (bs : List RateLimitBucketUse)
      (fallback : Result ApiClientError (List RateLimitCooldownKey))
      (ts : List RateLimitCooldownKey)
      → All (Gives key_of ks) bs
      → (fallback ≡ ok ts → IsCovered ks ts)
      → selected_keys key_of bs fallback ≡ ok ts
      → IsCovered ks ts
  selected-IsCovered key_of ks [] fallback ts h rec e = rec e
  selected-IsCovered key_of ks (b ∷ bs) fallback ts h rec e =
      traverse-IsCovered key_of ks (b ∷ bs) ts h e

  acquire_keys :
      (ks : List RateLimitCooldownKey)
      → cooldown_keys_for_acquire ctx ≡ ok ks
      → (rest : List RateLimitCooldownKey) × (bucket_keys ctx ctx.plan.buckets ≡ ok rest)
        × (ks ≡ acquired ctx.url_host rest)
  unfolding cooldown_keys_for_acquire
  acquire_keys ks h = elim (Result-cases (bucket_keys ctx ctx.plan.buckets)) [
    | inl (rest, p) ↦ (rest, p, cc (p, h))
    | inr (e, p) ↦ cc (p, h)
  ]

  plan_keys_give :
      (ks : List RateLimitCooldownKey)
      → cooldown_keys_for_acquire ctx ≡ ok ks
      → All (Gives (bucket_cooldown_key ctx) ks) ctx.plan.buckets
        × All (Gives (bucket_kind_cooldown_key ctx) ks) ctx.plan.buckets
  plan_keys_give ks h =
      let (rest, p, z) = acquire_keys ks h in
      let (of_bucket, of_kind) = bucket_keys_give ctx ctx.plan.buckets rest p in
      let before =
        RateLimitCooldownKey.client
        ∷ endpoint_cooldown_key ctx
        ∷ request_cooldown_key ctx
        ∷ host_keys ctx.url_host in
      subst
        (λ js.
          All (Gives (bucket_cooldown_key ctx) js) ctx.plan.buckets
          × All (Gives (bucket_kind_cooldown_key ctx) js) ctx.plan.buckets)
        (sym z)
        (
          Gives-append (bucket_cooldown_key ctx) before rest ctx.plan.buckets of_bucket,
          Gives-append (bucket_kind_cooldown_key ctx) before rest ctx.plan.buckets of_kind,
        )

  first_keys-IsCovered :
      (host_of : Option String) (rest : List RateLimitCooldownKey)
      → IsCovered
          (acquired host_of rest)
          (RateLimitCooldownKey.client ∷ endpoint_cooldown_key ctx ∷ request_cooldown_key ctx ∷ [])
  first_keys-IsCovered host_of rest =
      let tail = host_keys host_of ++ rest in
      let client = RateLimitCooldownKey.client in
      (
        contains_head client (endpoint_cooldown_key ctx ∷ request_cooldown_key ctx ∷ tail),
        (
          contains_tail client (endpoint_cooldown_key ctx)
              (endpoint_cooldown_key ctx ∷ request_cooldown_key ctx ∷ tail)
              (contains_head (endpoint_cooldown_key ctx) (request_cooldown_key ctx ∷ tail)),
          (
            contains_tail client (request_cooldown_key ctx)
                (endpoint_cooldown_key ctx ∷ request_cooldown_key ctx ∷ tail)
                (contains_tail (endpoint_cooldown_key ctx) (request_cooldown_key ctx)
                  (request_cooldown_key ctx ∷ tail)
                  (contains_head (request_cooldown_key ctx) tail)),
            tt,
          ),
        ),
      )

  -- The keys of one of the targets without buckets.
  plain-IsCovered :
      (ks ts : List RateLimitCooldownKey)
      → cooldown_keys_for_acquire ctx ≡ ok ks
      → ((rest : List RateLimitCooldownKey) → IsCovered (acquired ctx.url_host rest) ts)
      → IsCovered ks ts
  plain-IsCovered ks ts h f =
      let (rest, p, z) = acquire_keys ks h in subst (λ js. IsCovered js ts) (sym z) (f rest)

  -- A request looks up every key under which a response to it can store a cooldown, whatever the
  -- target of the response.
  pub target_keys_are_looked_up :
      (target : RateLimitTarget) (ks ts : List RateLimitCooldownKey)
      → cooldown_keys_for_acquire ctx ≡ ok ks
      → cooldown_keys_for_target ctx target ≡ ok ts
      → IsCovered ks ts
  unfolding cooldown_keys_for_target
  target_keys_are_looked_up RateLimitTarget.nothing ks ts h e = settled ks [] ts refl e tt
  target_keys_are_looked_up RateLimitTarget.request ks ts h e = plain-IsCovered ks ts h (λ rest.
      settled (acquired ctx.url_host rest) (request_cooldown_key ctx ∷ []) ts refl e
        ((first_keys-IsCovered ctx.url_host rest).1.1.0, tt))
  target_keys_are_looked_up RateLimitTarget.endpoint ks ts h e = plain-IsCovered ks ts h (λ rest.
      settled (acquired ctx.url_host rest) (endpoint_cooldown_key ctx ∷ []) ts refl e
        ((first_keys-IsCovered ctx.url_host rest).1.0, tt))
  target_keys_are_looked_up RateLimitTarget.host ks ts h e =
      plain-IsCovered ks ts h (λ rest. host-IsCovered ctx.url_host _ rest ts e)
  target_keys_are_looked_up RateLimitTarget.client ks ts h e = plain-IsCovered ks ts h (λ rest.
      settled (acquired ctx.url_host rest) (RateLimitCooldownKey.client ∷ []) ts refl e
        ((first_keys-IsCovered ctx.url_host rest).0, tt))
  target_keys_are_looked_up (RateLimitTarget.current_plan fallback) ks ts h e =
      selected-IsCovered (bucket_cooldown_key ctx) ks ctx.plan.buckets _ ts (plan_keys_give ks h).0
        (target_keys_are_looked_up fallback ks ts h) e
  target_keys_are_looked_up (RateLimitTarget.bucket_kind kind fallback) ks ts h e =
      selected-IsCovered (bucket_kind_cooldown_key ctx) ks _ _ ts
        (All-filter _ _ ctx.plan.buckets (plan_keys_give ks h).1)
        (target_keys_are_looked_up fallback ks ts h) e
  target_keys_are_looked_up (RateLimitTarget.bucket id fallback) ks ts h e =
      selected-IsCovered (bucket_cooldown_key ctx) ks _ _ ts
        (All-filter _ _ ctx.plan.buckets (plan_keys_give ks h).0)
        (target_keys_are_looked_up fallback ks ts h) e
