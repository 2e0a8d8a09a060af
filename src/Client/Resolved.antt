-- ===== src/Client/Resolved.antt =====
-- concord_core/src/client/execute.rs: a rejection plan that was classified can be carried out.
use concord_api.Base.{
  ℕ, ◌≤◌, ◌≡◌, subst, inl, inr, true, Bool-cases, Option, some, Option-cases, List, [], ◌∷◌, All,
  ok, Result-cases, traverse, arith,
}
use concord_api.Error.{ErrorContext}
use concord_api.Headers.Text.{any}
use concord_api.Headers.Ownership.{find}
use concord_api.Auth.Uses.{CredentialId, AuthRequirement, AuthAppliedCredential}
use concord_api.Auth.Rejection.{AuthRejectionAction, append_validated, action_matches}
use concord_api.Auth.Binding.{AuthProviderBinding}
use concord_api.Auth.Orchestrator.{plan_rejection}
use concord_api.Client.Challenge.{
  same_use, is_nil, is_protected_auth_rejection, action_for, gather_actions,
  classify_auth_rejection, resolve_action,
}
use concord_api.Client.Classified.{
  recoveries, append_validated-recoveries, All-append_validated, IsBound, IsBound-later,
  IsBound-here, All-resolves,
}

-- What an action for an applied credential is: it fits the requirement that is found for the credential.
module _ {W : Type 0} (binding_of : CredentialId → Option (AuthProviderBinding W))
    (ctx : ErrorContext) (requirements : List AuthRequirement) where
  action_for-ok :
      (status : ℕ) (a : AuthAppliedCredential) (r : AuthRequirement) (x : AuthRejectionAction)
      → action_for binding_of ctx requirements status a ≡ ok (r, x)
      → (find (λ s. same_use s a) requirements ≡ some r) × (action_matches x r a ≡ true)
  unfolding action_for
  action_for-ok status a r x h = elim (Option-cases (find (λ s. same_use s a) requirements)) [
    | inl e ↦ absurd (ground (arith, e, h))
    | inr (s, e) ↦ elim (Result-cases (plan_rejection binding_of s a status)) [
      | inr (f, q) ↦ absurd (ground (arith, e, q, h))
      | inl (y, q) ↦ elim (Bool-cases (action_matches y s a)) [
        | inr m ↦ absurd (ground (arith, e, q, m, h))
        | inl m ↦
            let same_r : (s ≡ r) = ground (arith, e, q, m, h) in
            let same_x : (y ≡ x) = ground (arith, e, q, m, h) in
            (
              cc (e, same_r),
              subst (λ t. action_matches x t a ≡ true) same_r
                  (subst (λ t. action_matches t s a ≡ true) same_x m),
            )
      ]
    ]
  ]

  -- The loop keeps the number of recoveries, and what holds of every action for an applied credential.
  gather_actions-All :
      (P : AuthRejectionAction → Type 0) (status : ℕ) (applied : List AuthAppliedCredential)
      (aggregate final : List AuthRejectionAction)
      → All
          (λ a.
            (r : AuthRequirement) (x : AuthRejectionAction)
            → find (λ s. same_use s a) requirements ≡ some r
            → action_matches x r a ≡ true
            → P x)
          applied
      → gather_actions binding_of ctx requirements status applied aggregate ≡ ok final
      → recoveries aggregate ≤ 1
      → All P aggregate
      → (recoveries final ≤ 1) × All P final
  unfolding gather_actions
  gather_actions-All P status [] aggregate final each h few all =
      let same : (aggregate ≡ final) = cc h in
      subst (λ xs. (recoveries xs ≤ 1) × All P xs) same (few, all)
  gather_actions-All P status (a ∷ applied) aggregate final (here, each) h few all =
      elim (Result-cases (action_for binding_of ctx requirements status a)) [
        | inr (e, q) ↦ absurd (ground (arith, q, h))
        | inl (rx, q) ↦
            elim (Bool-cases (any (λ existing. action_matches existing rx.0 a) aggregate)) [
              | inl d ↦ absurd (ground (arith, q, d, h))
              | inr d ↦
                  let (found, fits) = action_for-ok status a rx.0 rx.1 q in
                  gather_actions-All P status applied (append_validated aggregate rx.1) final each
                    (ground (arith, q, d, h)) (append_validated-recoveries aggregate rx.1 few)
                    (All-append_validated P aggregate rx.1 all (here rx.0 rx.1 found fits))
            ]
      ]

each_later :
    (Q R : AuthAppliedCredential → Type 0) (xs : List AuthAppliedCredential)
    → ((a : AuthAppliedCredential) → Q a → R a)
    → All Q xs
    → All R xs
each_later Q R [] f h = tt
each_later Q R (x ∷ xs) f (q, h) = (f x q, each_later Q R xs f h)

applied-IsBound :
    (ctx : ErrorContext) (requirements : List AuthRequirement)
    (applied : List AuthAppliedCredential)
    → All
        (λ a.
          (r : AuthRequirement) (x : AuthRejectionAction)
          → find (λ s. same_use s a) requirements ≡ some r
          → action_matches x r a ≡ true
          → IsBound ctx requirements applied x)
        applied
applied-IsBound ctx requirements [] = tt
applied-IsBound ctx requirements (a ∷ applied) = (
  (λ r x found fits. IsBound-here ctx requirements a applied x r found fits),
  each_later _ _ applied
      (λ b bound r x found fits. IsBound-later ctx requirements a applied x (bound r x found fits))
      (applied-IsBound ctx requirements applied),
)

-- A rejection plan that classify_auth_rejection makes for the applied credentials asks for at most one
-- recovery, and each of its actions is resolved against them, so that it is never refused as a mismatch.
pub classified_plan_resolves :
    {W : Type 0} (binding_of : CredentialId → Option (AuthProviderBinding W)) (ctx : ErrorContext)
    (requirements : List AuthRequirement) (status : ℕ) (applied : List AuthAppliedCredential)
    (actions : List AuthRejectionAction)
    → classify_auth_rejection binding_of ctx requirements status applied ≡ ok (some actions)
    → (recoveries actions ≤ 1)
      × (bindings : List (AuthRejectionAction × (AuthRequirement × AuthAppliedCredential)))
      × (traverse (resolve_action ctx requirements applied) actions ≡ ok bindings)
unfolding classify_auth_rejection
classified_plan_resolves binding_of ctx requirements status applied actions h =
    elim (Bool-cases (is_protected_auth_rejection requirements status)) [
      | inr p ↦ absurd (ground (arith, p, h))
      | inl p ↦ elim (Result-cases (gather_actions binding_of ctx requirements status applied [])) [
        | inr (e, q) ↦ absurd (ground (arith, p, q, h))
        | inl (final, q) ↦ elim (Bool-cases (is_nil final)) [
          | inl n ↦ absurd (ground (arith, p, q, n, h))
          | inr n ↦
              let same : (final ≡ actions) = ground (arith, p, q, n, h) in
              let (few, bound) =
                gather_actions-All binding_of ctx requirements (IsBound ctx requirements applied)
                  status applied [] final (applied-IsBound ctx requirements applied) q (omega arith)
                  tt in
              let (bindings, resolved) = All-resolves ctx requirements applied final bound in
              (
                subst (λ xs. recoveries xs ≤ 1) same few,
                bindings,
                subst (λ xs. traverse (resolve_action ctx requirements applied) xs ≡ ok bindings)
                    same resolved,
              )
        ]
      ]
    ]
