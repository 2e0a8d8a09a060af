-- ===== src/Auth/Material/Bound.antt =====
-- concord_core/src/auth/plan.rs and concord_core/src/auth/orchestrator.rs: what is prepared for a planned
-- slot is bound to it.
use concord_api.Base.{
  ℕ, ◌≡◌, refl, ap, subst, inl, inr, Bool, true, not, ◌&&◌, Bool-cases, String, ℕ_discrete, Option,
  Option-cases, Result, ok, err, Result-cases, beq_refl, beq-eq-true, arith,
}
use concord_api.Auth.Errors.{AuthError, CredentialRefreshReason}
use concord_api.Auth.Slot.{CredentialLease, default_policy}
use concord_api.Auth.Uses.{
  CredentialId, CredentialId-discrete, CredentialRef-discrete, AuthUsageId-discrete,
  AuthProvenance-discrete, StepId-discrete, AuthRequirement,
}
use concord_api.Auth.Placement.{PlannedAuthSlot}
use concord_api.Auth.Material.{
  AuthTransportMaterial, AuthPreparationReuse, PreparedAuthCredential, slot_id,
  material_matches_slot, same_plan, applied_for, takes_secret, validate_requirement,
  validate_binding, apply_secret_credential, apply_basic_credential,
}
use concord_api.Auth.Binding.{
  ErasedValue, Materializer, AuthProviderBinding, materialize, applied_credential, prepared_of,
  serves, leased,
}
use concord_api.Auth.Orchestrator.{prepare, prepare_binding}

both-true : (a b : Bool) → (a && b) ≡ true → (a ≡ true) × (b ≡ true)
both-true a b h = (ground (arith, h), ground (arith, h))

same_plan-applied :
    (planned : PlannedAuthSlot) (r : AuthRequirement) (generation : ℕ)
    → same_plan planned r ≡ true
    → applied_for (applied_credential r generation) planned ≡ true
same_plan-applied planned r generation h =
    let (c, rest) = both-true _ _ h in
    let (u, rest') = both-true _ _ rest in
    let (s, p) = both-true _ _ rest' in
    let ec = beq-eq-true CredentialRef-discrete planned.credential r.credential c in
    let eu = beq-eq-true AuthUsageId-discrete planned.usage_id r.usage_id u in
    let es = beq-eq-true StepId-discrete planned.step_id r.step_id s in
    let ep = beq-eq-true AuthProvenance-discrete planned.provenance r.provenance p in
    rw
      (
        ec,
        eu,
        es,
        ep,
        beq_refl CredentialId-discrete r.credential.id,
        beq_refl AuthUsageId-discrete r.usage_id,
        beq_refl StepId-discrete r.step_id,
        beq_refl AuthProvenance-discrete r.provenance,
      )
      refl

-- The requirement passed its validation against the slot.
validated-same_plan :
    (planned : PlannedAuthSlot) (r : AuthRequirement)
    → validate_requirement planned r ≡ ok tt
    → same_plan planned r ≡ true
unfolding validate_requirement
validated-same_plan planned r h = elim (Bool-cases (same_plan planned r)) [
  | inl e ↦ e
  | inr e ↦ absurd (ground (arith, e, h))
]

-- The material is that of the slot, and the slot was planned for the requirement.
abbrev IsFor : AuthTransportMaterial → PlannedAuthSlot → AuthRequirement → Type 0
IsFor material planned r =
    (slot_id material ≡ planned.id)
    × (material_matches_slot material planned ≡ true)
    × (same_plan planned r ≡ true)

secret-IsFor :
    (planned : PlannedAuthSlot) (r : AuthRequirement) (s : String) (m : AuthTransportMaterial)
    → apply_secret_credential planned r s ≡ ok m
    → IsFor m planned r
unfolding apply_secret_credential
secret-IsFor planned r s m h = elim (Result-cases (validate_requirement planned r)) [
  | inr (e, v) ↦ absurd (ground (arith, v, h))
  | inl (u, v) ↦ elim (Bool-cases (takes_secret planned.placement)) [
    | inl t ↦
        let e : (AuthTransportMaterial.secret planned.id s ≡ m) = ground (arith, v, t, h) in
        subst (λ x. IsFor x planned r) e (refl, t, validated-same_plan planned r v)
    | inr t ↦ absurd (ground (arith, v, t, h))
  ]
]

basic-IsFor :
    (planned : PlannedAuthSlot) (r : AuthRequirement) (u p : String) (m : AuthTransportMaterial)
    → apply_basic_credential planned r u p ≡ ok m
    → IsFor m planned r
unfolding apply_basic_credential
basic-IsFor planned r user pass m h = elim (Result-cases (validate_requirement planned r)) [
  | inr (e, v) ↦ absurd (ground (arith, v, h))
  | inl (u, v) ↦ elim (Bool-cases (takes_secret planned.placement)) [
    | inl t ↦ absurd (ground (arith, v, t, h))
    | inr t ↦
        let e : (AuthTransportMaterial.basic planned.id user pass ≡ m) = ground (arith, v, t, h) in
        subst (λ x. IsFor x planned r) e (refl, ap not t, validated-same_plan planned r v)
  ]
]

materialize-IsFor :
    (k : Materializer) (v : ErasedValue) (planned : PlannedAuthSlot) (r : AuthRequirement)
    (m : AuthTransportMaterial)
    → materialize k v planned r ≡ ok m
    → IsFor m planned r
unfolding materialize
materialize-IsFor Materializer.materialize_secret (ErasedValue.secret_value s) planned r m h =
    secret-IsFor planned r s m h
materialize-IsFor Materializer.materialize_secret (ErasedValue.basic_value u p) planned r m h =
    absurd cc
materialize-IsFor Materializer.materialize_basic (ErasedValue.secret_value s) planned r m h =
    absurd cc
materialize-IsFor Materializer.materialize_basic (ErasedValue.basic_value u p) planned r m h =
    basic-IsFor planned r u p m h

IsFor-validate_binding :
    (m : AuthTransportMaterial) (planned : PlannedAuthSlot) (r : AuthRequirement) (generation : ℕ)
    (reuse : AuthPreparationReuse)
    → IsFor m planned r
    → validate_binding
        (record { applied = applied_credential r generation; reuse = reuse; material = m })
        planned
      ≡ ok tt
unfolding validate_binding
IsFor-validate_binding m planned r generation reuse (i, t, s) =
    rw (i, beq_refl ℕ_discrete planned.id, t, same_plan-applied planned r generation s) refl

module _ {W : Type 0} where
  prepared_of-bound :
      (b : AuthProviderBinding W) (r : AuthRequirement) (planned : PlannedAuthSlot)
      (lease : CredentialLease ErasedValue) (prepared : PreparedAuthCredential)
      → prepared_of b r planned lease ≡ ok prepared
      → validate_binding prepared planned ≡ ok tt
  unfolding prepared_of
  prepared_of-bound b r planned lease prepared h =
      elim (Result-cases (materialize b.materializer lease.value planned r)) [
        | inr (e, q) ↦ absurd (ground (arith, q, h))
        | inl (m, q) ↦
            let same : (record {
              applied = applied_credential r lease.generation;
              reuse = b.reuse;
              material = m;
            }
                ≡ prepared) =
              ground (arith, q, h) in
            subst (λ p. validate_binding p planned ≡ ok tt) same
              (IsFor-validate_binding m planned r lease.generation b.reuse
                (materialize-IsFor b.materializer lease.value planned r m q))
      ]

  leased-bound :
      (b : AuthProviderBinding W) (r : AuthRequirement) (planned : PlannedAuthSlot)
      (answer : Result AuthError (CredentialLease ErasedValue) × W)
      (prepared : PreparedAuthCredential) (after : W)
      → leased b r planned answer ≡ (ok prepared, after)
      → validate_binding prepared planned ≡ ok tt
  leased-bound b r planned (err e, w) prepared after h = absurd cc
  leased-bound b r planned (ok lease, w) prepared after h =
      prepared_of-bound b r planned lease prepared (ap (λ x. x.0) h)

  -- A credential that prepare hands out for a planned slot passes the check of the binding, whatever the
  -- provider and its slot answer.
  pub prepared_credential_is_bound :
      (binding_of : CredentialId → Option (AuthProviderBinding W)) (r : AuthRequirement)
      (planned : PlannedAuthSlot) (w : W) (prepared : PreparedAuthCredential) (after : W)
      → prepare binding_of r planned w ≡ (ok prepared, after)
      → validate_binding prepared planned ≡ ok tt
  unfolding prepare prepare_binding
  prepared_credential_is_bound binding_of r planned w prepared after h =
      elim (Option-cases (binding_of r.credential.id)) [
        | inl e ↦ absurd (ground (arith, e, h))
        | inr (b, e) ↦ elim (Bool-cases (serves b r)) [
          | inl s ↦
              let ran : (leased b r planned
                    (b.slot.get_or_refresh CredentialRefreshReason.missing default_policy w)
                  ≡ (ok prepared, after)) =
                ground (arith, e, s, h) in
              leased-bound b r planned _ prepared after ran
          | inr s ↦ absurd (ground (arith, e, s, h))
        ]
      ]
