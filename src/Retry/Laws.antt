-- ===== src/Retry/Laws.antt =====
-- concord_core/src/retry_mode.rs: which requests the installed policy retries.
use concord_api.Base.{
  All, ◌⊎◌, ◌↔◌, String-discrete, ℕ, ◌≤◌, ◌≡◌, refl, sym, ap, subst, ◌∙◌, Option-cases, true, false,
  ◌||◌, String, Option, none, some, List, [], ◌∷◌, ◌++◌, ok, Result-cases, beq, beq-eq-true,
  beq-sym-false, IsNodup, inl, inr, Bool-cases, ℕ_discrete, arith,
}
use concord_api.Retry.{
  StatusRetryConfig, RetryMode, status, approved_statuses, has, collect_statuses, new_config,
  status_mode, Policy, custom, fixed_single_origin, FixedOriginDescriptor, method_is_eligible,
  retryable, resolve,
}

-- The statuses that may be retried.
abbrev pub IsGatewayStatus : ℕ → Type 0
IsGatewayStatus s = (s ≡ 502) ⊎ ((s ≡ 503) ⊎ (s ≡ 504))

-- The methods whose requests may be sent again.
abbrev pub IsRetriedMethod : String → Type 0
IsRetriedMethod method = (method ≡ "GET") ⊎ ((method ≡ "HEAD") ⊎ (method ≡ "OPTIONS"))

approved-IsGatewayStatus : (s : ℕ) → has approved_statuses s ≡ true → IsGatewayStatus s
approved-IsGatewayStatus s h = elim (Bool-cases (beq ℕ_discrete s 502)) [
  | inl a ↦ inl (beq-eq-true ℕ_discrete s 502 a)
  | inr a ↦ elim (Bool-cases (beq ℕ_discrete s 503)) [
    | inl b ↦ inr (inl (beq-eq-true ℕ_discrete s 503 b))
    | inr b ↦ inr (inr (beq-eq-true ℕ_discrete s 504 (ground (arith, a, b, h))))
  ]
]

method_is_eligible-IsRetriedMethod :
    (method : String) → (method_is_eligible method ≡ true) ↔ IsRetriedMethod method
unfolding String-discrete
method_is_eligible-IsRetriedMethod method = (
  λ h. elim (Bool-cases (beq String-discrete method "GET")) [
    | inl a ↦ inl (beq-eq-true String-discrete method "GET" a)
    | inr a ↦ elim (Bool-cases (beq String-discrete method "HEAD")) [
      | inl b ↦ inr (inl (beq-eq-true String-discrete method "HEAD" b))
      | inr b ↦ inr (inr (beq-eq-true String-discrete method "OPTIONS" (ground (arith, a, b, h))))
    ]
  ],
  λ h. elim h [
    | inl a ↦ subst (λ m. method_is_eligible m ≡ true) (sym a) refl
    | inr (inl a) ↦ subst (λ m. method_is_eligible m ≡ true) (sym a) refl
    | inr (inr a) ↦ subst (λ m. method_is_eligible m ≡ true) (sym a) refl
  ],
)

-- The classifier, where its policy's statuses are the given ones.
retryable_lem :
    (policy : Policy) (statuses : List ℕ) (method : String) (s : ℕ)
    → has policy.statuses s ≡ has statuses s
    → (retryable policy method (some s) ≡ true) ↔ (IsRetriedMethod method × (has statuses s ≡ true))
unfolding retryable
retryable_lem policy statuses method s same =
    let (to, from) = method_is_eligible-IsRetriedMethod method in
    (
      λ h. (to (ground (arith, h)), ground (arith, same, h)),
      λ h. let (m, given) = h in ground (arith, from m, given, same),
    )

has-append : (xs ys : List ℕ) (s : ℕ) → has (xs ++ ys) s ≡ (has xs s || has ys s)
has-append [] ys s = refl
has-append (x ∷ xs) ys s = ground (arith, has-append xs ys s)

IsNodup-push :
    (xs : List ℕ) (s : ℕ)
    → has xs s ≡ false
    → IsNodup ℕ_discrete xs
    → IsNodup ℕ_discrete (xs ++ s ∷ [])
IsNodup-push [] s h n = (refl, tt)
IsNodup-push (x ∷ xs) s h (n, ns) =
    let rest = IsNodup-push xs s (ground arith) ns in
    let far = beq-sym-false ℕ_discrete x s (ground arith) in
    (ground (arith, has-append xs (s ∷ []) x), rest)

old :
    (collected xs all : List ℕ) (x s : ℕ)
    → has collected x ≡ true
    → has all s ≡ (has collected s || has xs s)
    → has all s ≡ (has collected s || has (x ∷ xs) s)
old collected xs all x s f c = elim (Bool-cases (beq ℕ_discrete x s)) [
  | inl e ↦
      let z : (has collected x ≡ has collected s) =
        ap (has collected) (beq-eq-true ℕ_discrete x s e) in
      ground arith
  | inr e ↦ ground arith
]

collect-Result :
    (collected statuses all : List ℕ)
    → collect_statuses collected statuses ≡ ok all
    → IsNodup ℕ_discrete collected
    → All IsGatewayStatus statuses
      × IsNodup ℕ_discrete all
      × ((s : ℕ) → has all s ≡ (has collected s || has statuses s))
collect-Result collected [] all h n =
    let z : (collected ≡ all) = cc in
    (tt, subst (IsNodup ℕ_discrete) z n, λ s. ground (arith, ap (λ xs. has xs s) z))
collect-Result collected (x ∷ xs) all h n = elim (Bool-cases (has approved_statuses x)) [
  | inr e ↦ absurd (ground arith)
  | inl e ↦ elim (Bool-cases (has collected x)) [
    | inl f ↦
        let (a, b, c) = collect-Result collected xs all (ground arith) n in
        ((approved-IsGatewayStatus x e, a), b, λ s. old collected xs all x s f (c s))
    | inr f ↦
        let (a, b, c) =
          collect-Result (collected ++ x ∷ []) xs all (ground arith)
            (IsNodup-push collected x f n) in
        (
          (approved-IsGatewayStatus x e, a),
          b,
          λ s. ground (arith, c s, has-append collected (x ∷ []) s),
        )
  ]
]

resolved :
    (host_of : String → Option String) (config : StatusRetryConfig) (fixed : FixedOriginDescriptor)
    (policy : Policy)
    → resolve host_of (status config) (some (fixed_single_origin fixed)) ≡ ok (custom policy)
    → (host_of fixed.authority ≡ some policy.host)
      × (policy.max_retries_per_request ≡ config.max_retries)
      × (policy.statuses ≡ config.statuses)
unfolding resolve
resolved host_of config fixed policy h = elim (Option-cases (host_of fixed.authority)) [
  | inl e ↦ absurd (ground arith)
  | inr (host, e) ↦ (ground arith, ground arith, ground arith)
]

-- Where a client with one fixed origin is given `max_retries` and `statuses` and a policy is installed,
-- the policy is scoped to the origin's host, retries a request once or twice, and retries the answers
-- with one of the given statuses to a GET, HEAD or OPTIONS, and no others, nor one without a status; the
-- statuses are among 502, 503 and 504, and the policy holds each of them once.
pub installed_policy_retries_given_statuses :
    (host_of : String → Option String) (max_retries : ℕ) (statuses : List ℕ) (mode : RetryMode)
    (fixed : FixedOriginDescriptor) (policy : Policy)
    → status_mode max_retries statuses ≡ ok mode
    → resolve host_of mode (some (fixed_single_origin fixed)) ≡ ok (custom policy)
    → (host_of fixed.authority ≡ some policy.host)
      × (1 ≤ policy.max_retries_per_request)
      × (policy.max_retries_per_request ≤ 2)
      × All IsGatewayStatus statuses
      × IsNodup ℕ_discrete policy.statuses
      × ((method : String) (s : ℕ)
          → (retryable policy method (some s) ≡ true)
            ↔ (IsRetriedMethod method × (has statuses s ≡ true)))
      × ((method : String) → retryable policy method none ≡ false)
unfolding new_config resolve retryable
installed_policy_retries_given_statuses host_of max_retries statuses mode fixed policy h r =
    elim (Result-cases (collect_statuses [] statuses)) [
      | inr (e, p) ↦ absurd (ground arith)
      | inl (all, p) ↦
          let (a, b, c) = collect-Result [] statuses all p tt in
          let config : (mode ≡ status (record { max_retries = max_retries; statuses = all })) =
            ground arith in
          let least : (1 ≤ max_retries) = ground arith in
          let most : (max_retries ≤ 2) = ground arith in
          let (host, bound, given) =
            resolved host_of (record { max_retries = max_retries; statuses = all }) fixed policy
              (subst
                (λ m. resolve host_of m (some (fixed_single_origin fixed)) ≡ ok (custom policy))
                config r) in
          (
            host,
            omega (arith, bound, least),
            omega (arith, bound, most),
            a,
            subst (IsNodup ℕ_discrete) (sym given) b,
            λ method s. retryable_lem policy statuses method s (ap (λ xs. has xs s) given ∙ c s),
            λ method. refl,
          )
    ]
