-- ===== src/Client/Classified.antt =====
-- concord_core/src/client/execute.rs: the actions of a rejection plan, and what they are bound to.
use concord_api.Base.{
  ℕ, ◌+◌, ◌≤◌, ◌≡◌, refl, sym, subst, inl, inr, Bool, true, false, ◌&&◌, Bool-cases, some, is_some,
  if_either, Option-cases, List, [], ◌∷◌, ◌++◌, All, ok, traverse, arith, if◌then◌else◌,
}
use concord_api.Error.{ErrorContext}
use concord_api.Headers.Ownership.{find}
use concord_api.Auth.Uses.{AuthRequirement, AuthAppliedCredential}
use concord_api.Auth.Rejection.{
  AuthRejectionAction, requests_recovery, plan_requests_recovery, append_validated, action_matches,
}
use concord_api.Client.Challenge.{same_use, bound_pair, resolve_action}

-- How many of the actions ask for a recovery.
abbrev pub recoveries : List AuthRejectionAction → ℕ
recoveries [] = 0
recoveries (x ∷ xs) = (if requests_recovery x then 1 else 0) + recoveries xs

recoveries-append :
    (xs : List AuthRejectionAction) (x : AuthRejectionAction)
    → recoveries (xs ++ x ∷ []) ≡ recoveries xs + (if requests_recovery x then 1 else 0)
recoveries-append [] x = ground arith
recoveries-append (y ∷ xs) x = ground (arith, recoveries-append xs x)

no_recovery :
    (xs : List AuthRejectionAction) → plan_requests_recovery xs ≡ false → recoveries xs ≡ 0
no_recovery [] h = refl
no_recovery (x ∷ xs) h = elim (Bool-cases (requests_recovery x)) [
  | inl e ↦ absurd (ground (arith, e, h))
  | inr e ↦ ground (arith, e, no_recovery xs (ground (arith, e, h)))
]

pub append_validated-recoveries :
    (xs : List AuthRejectionAction) (x : AuthRejectionAction)
    → recoveries xs ≤ 1
    → recoveries (append_validated xs x) ≤ 1
append_validated-recoveries xs (AuthRejectionAction.terminal t) h =
    omega (arith, recoveries-append xs (AuthRejectionAction.terminal t))
append_validated-recoveries xs (AuthRejectionAction.recover t r) h =
    elim (Bool-cases (plan_requests_recovery xs)) [
      | inl e ↦ rw e h
      | inr e ↦
          rw e (
            omega (arith, recoveries-append xs (AuthRejectionAction.recover t r), no_recovery xs e))
    ]

module _ (P : AuthRejectionAction → Type 0) where
  All-push :
      (xs : List AuthRejectionAction) (x : AuthRejectionAction)
      → All P xs
      → P x
      → All P (xs ++ x ∷ [])
  All-push [] x h p = (p, tt)
  All-push (y ∷ xs) x (q, h) p = (q, All-push xs x h p)

  pub All-append_validated :
      (xs : List AuthRejectionAction) (x : AuthRejectionAction)
      → All P xs
      → P x
      → All P (append_validated xs x)
  All-append_validated xs (AuthRejectionAction.terminal t) h p =
      All-push xs (AuthRejectionAction.terminal t) h p
  All-append_validated xs (AuthRejectionAction.recover t r) h p =
      if_either (All P) (plan_requests_recovery xs) h
        (All-push xs (AuthRejectionAction.recover t r) h p)

-- What is found by one test is found by two that it passes.
find-both :
    {A : Type 0} (p q : A → Bool) (xs : List A) (r : A)
    → find p xs ≡ some r
    → q r ≡ true
    → is_some (find (λ x. p x && q x) xs) ≡ true
find-both p q [] r h k = absurd cc
find-both p q (x ∷ xs) r h k = elim (Bool-cases (p x)) [
  | inl e ↦
      let same : (x ≡ r) = ground (arith, e, h) in
      let found : (q x ≡ true) = subst (λ y. q y ≡ true) (sym same) k in ground (arith, e, found)
  | inr e ↦ let rest = find-both p q xs r (ground (arith, e, h)) k in ground (arith, e, rest)
]

module _ (ctx : ErrorContext) (requirements : List AuthRequirement) where
  -- The action has its credential among the applied ones.
  abbrev pub IsBound : List AuthAppliedCredential → AuthRejectionAction → Type 0
  IsBound applied x = is_some (bound_pair ctx requirements applied x) ≡ true

  pub IsBound-later :
      (a : AuthAppliedCredential) (applied : List AuthAppliedCredential) (x : AuthRejectionAction)
      → IsBound applied x
      → IsBound (a ∷ applied) x
  IsBound-later a applied x h =
      elim (Option-cases (find (λ r. same_use r a && action_matches x r a) requirements)) [
        | inl e ↦ ground (arith, e, h)
        | inr (r, e) ↦ ground (arith, e)
      ]

  pub IsBound-here :
      (a : AuthAppliedCredential) (applied : List AuthAppliedCredential) (x : AuthRejectionAction)
      (r : AuthRequirement)
      → find (λ r. same_use r a) requirements ≡ some r
      → action_matches x r a ≡ true
      → IsBound (a ∷ applied) x
  IsBound-here a applied x r found fits =
      let both =
        find-both (λ r. same_use r a) (λ r. action_matches x r a) requirements r found fits in
      elim (Option-cases (find (λ r. same_use r a && action_matches x r a) requirements)) [
        | inl e ↦ absurd (ground (arith, e, both))
        | inr (s, e) ↦ ground (arith, e)
      ]

  -- Every action that is bound resolves.
  pub All-resolves :
      (applied : List AuthAppliedCredential) (actions : List AuthRejectionAction)
      → All (IsBound applied) actions
      → (bindings : List (AuthRejectionAction × (AuthRequirement × AuthAppliedCredential)))
        × (traverse (resolve_action ctx requirements applied) actions ≡ ok bindings)
  All-resolves applied [] h = ([], refl)
  All-resolves applied (x ∷ actions) (b, h) =
      let (bindings, q) = All-resolves applied actions h in
      elim (Option-cases (bound_pair ctx requirements applied x)) [
        | inl e ↦ absurd (ground (arith, e, b))
        | inr (pair, e) ↦ ((x, pair) ∷ bindings, ground (arith, e, q))
      ]
