-- ===== src/Auth/Placement/Outcome.antt =====
-- concord_core/src/auth/plan.rs: what `from_auth_plan` ends with.
use mathlib.Core.List.{append_assoc, append-nil}
use concord_api.Base.{
  All, ℕ, ◌+◌, ◌≡◌, refl, sym, ap, subst, ◌∙◌, inl, inr, false, Bool-cases, Option, Option-cases,
  ok, Result-cases, List, [], ◌∷◌, ◌++◌, String, arith, leb, u64_max,
}
use concord_api.Headers.Text.{any}
use concord_api.Auth.Uses.{AuthPlacement, AuthRequirement}
use concord_api.Auth.Placement.{
  PlannedAuthPlacement, PlannedAuthSlot, AuthPlacementPlan, empty_placement, placements_collide,
  is_reserved, with_query_key, plan_placement, check_placement, planned_slot, plan_requirement,
  plan_requirements, from_auth_plan,
}
use concord_api.Auth.Placement.Keys.{planned_key_is_redacted}
use concord_api.Auth.Placement.Planned.{IsPlanned, IsSound, IsHidden, IsPlanned-with}
use concord_api.Auth.Placement.Targets.{
  AreDistinct, IsFree, Places, AreApart-AreDistinct, is_reserved-IsFree, plan_placement-Places,
}

module _ (from_bytes : String → Option String) where
  -- The slots stand for the requirements, one for each in order, with its credential, use, step, origin
  -- and placement.
  abbrev pub Realizes : List AuthRequirement → List PlannedAuthSlot → Type 0
  Realizes [] [] = Unit
  Realizes [] (s ∷ ss) = ⊥
  Realizes (r ∷ rs) [] = ⊥
  Realizes (r ∷ rs) (s ∷ ss) =
      Places from_bytes r.placement s.placement
      × (s.credential ≡ r.credential)
      × (s.usage_id ≡ r.usage_id)
      × (s.step_id ≡ r.step_id)
      × (s.provenance ≡ r.provenance)
      × Realizes rs ss

  check_placement-ok :
      (r : AuthRequirement) (planned : AuthPlacementPlan) (p' : PlannedAuthPlacement)
      → check_placement from_bytes r planned ≡ ok p'
      → (plan_placement from_bytes r.placement ≡ ok p')
        × (is_reserved p' ≡ false)
        × (any (λ existing. placements_collide existing.placement p') planned.slots ≡ false)
  unfolding check_placement
  check_placement-ok r planned p' h = elim (Result-cases (plan_placement from_bytes r.placement)) [
    | inr (e, q) ↦ absurd (cc (q, h))
    | inl (p, q) ↦ elim (Bool-cases (is_reserved p)) [
      | inl b ↦ absurd (ground (arith, q, b, h))
      | inr b ↦
          elim (Bool-cases
            (any (λ existing. placements_collide existing.placement p) planned.slots)) [
              | inl c ↦ absurd (ground (arith, q, b, c, h))
              | inr c ↦
                  let same : (p ≡ p') = ground (arith, q, b, c, h) in
                  (cc (q, same), rw (sym same) b, rw (sym same) c)
            ]
    ]
  ]

  -- A round that succeeds adds the slot of its requirement.
  plan_requirement-ok :
      (r : AuthRequirement) (planned : AuthPlacementPlan) (counter : ℕ) {next : AuthPlacementPlan}
      {after : ℕ}
      → plan_requirement from_bytes r planned counter ≡ (ok next, after)
      → (p : PlannedAuthPlacement) × (check_placement from_bytes r planned ≡ ok p)
        × (next ≡ record {
          slots = planned.slots ++ planned_slot r p counter ∷ [];
          sensitive_query_keys = with_query_key r.placement planned.sensitive_query_keys;
        })
        × (after ≡ counter + 1)
  unfolding plan_requirement
  plan_requirement-ok r planned counter h =
      elim (Result-cases (check_placement from_bytes r planned)) [
        | inr (e, q) ↦ absurd (ground (arith, q, h))
        | inl (p, q) ↦ elim (Bool-cases (leb (counter + 1) u64_max)) [
          | inl b ↦ (p, q, ground (arith, q, b, h), ground (arith, q, b, h))
          | inr b ↦ absurd (ground (arith, q, b, h))
        ]
      ]

  placed-IsHidden :
      (a : AuthPlacement) (keys : List String) (p : PlannedAuthPlacement)
      → plan_placement from_bytes a ≡ ok p
      → IsHidden (with_query_key a keys) p
  placed-IsHidden AuthPlacement.bearer keys p h =
      let e : (PlannedAuthPlacement.bearer ≡ p) = cc h in subst (IsHidden keys) e tt
  placed-IsHidden AuthPlacement.basic keys p h =
      let e : (PlannedAuthPlacement.basic ≡ p) = cc h in subst (IsHidden keys) e tt
  placed-IsHidden (AuthPlacement.header n) keys p h = elim (Option-cases (from_bytes n)) [
    | inl e ↦ absurd (ground (arith, e, h))
    | inr (m, e) ↦
        let q : (PlannedAuthPlacement.header m ≡ p) = ground (arith, e, h) in
        subst (IsHidden keys) q tt
  ]
  placed-IsHidden (AuthPlacement.query n) keys p h =
      let e : (PlannedAuthPlacement.query n ≡ p) = cc h in
      subst (IsHidden (with_query_key (AuthPlacement.query n) keys)) e
        (planned_key_is_redacted keys n)

  step-IsPlanned :
      (r : AuthRequirement) (planned : AuthPlacementPlan) (counter : ℕ) (next : AuthPlacementPlan)
      (after : ℕ)
      → plan_requirement from_bytes r planned counter ≡ (ok next, after)
      → IsPlanned planned counter
      → IsPlanned next after
  step-IsPlanned r planned counter next after h planned_ok =
      let (p, checked, grown, counted) = plan_requirement-ok r planned counter h in
      let (placed, free, no_clash) = check_placement-ok r planned p checked in
      rw (grown, counted)
        (IsPlanned-with r planned counter p planned_ok free no_clash
          (placed-IsHidden r.placement planned.sensitive_query_keys p placed))

  -- The loop keeps the invariant, and adds the slots of its requirements.
  loop-IsPlanned :
      (rs : List AuthRequirement) (planned : AuthPlacementPlan) (counter : ℕ)
      (final : AuthPlacementPlan) (after : ℕ)
      → plan_requirements from_bytes rs planned counter ≡ (ok final, after)
      → IsPlanned planned counter
      → IsPlanned final after
        × (ss : List PlannedAuthSlot) × (final.slots ≡ planned.slots ++ ss)
        × Realizes rs ss
  unfolding plan_requirements
  loop-IsPlanned [] planned counter final after h planned_ok =
      let same : (planned ≡ final) = cc h in
      let counted : (counter ≡ after) = cc h in
      (
        subst (IsPlanned final) counted (subst (λ p. IsPlanned p counter) same planned_ok),
        [],
        ap (λ p. p.slots) (sym same) ∙ sym (append-nil planned.slots),
        tt,
      )
  loop-IsPlanned (r ∷ rs) planned counter final after h planned_ok =
      let (result, middle) = plan_requirement from_bytes r planned counter in
      elim (Result-cases (plan_requirement from_bytes r planned counter).0) [
        | inr (e, q) ↦ absurd (ground (arith, q, h))
        | inl (next, q) ↦
            let step : (plan_requirement from_bytes r planned counter ≡ (ok next, middle)) =
              ap (λ x. (x, middle)) q in
            let rest : (plan_requirements from_bytes rs next middle ≡ (ok final, after)) =
              ground (arith, q, h) in
            let (good, ss, all_slots, real) =
              loop-IsPlanned rs next middle final after rest
                (step-IsPlanned r planned counter next middle step planned_ok) in
            let (p, checked, grown, _) = plan_requirement-ok r planned counter step in
            let (placed, _, _) = check_placement-ok r planned p checked in
            let slot = planned_slot r p counter in
            (
              good,
              slot ∷ ss,
              all_slots
                  ∙ (ap (λ n. n.slots ++ ss) grown ∙ append_assoc planned.slots (slot ∷ []) ss),
              (plan_placement-Places from_bytes r.placement p placed, refl, refl, refl, refl, real),
            )
      ]

  IsFree-All :
      (counter : ℕ) (keys : List String) (ss : List PlannedAuthSlot)
      → All (IsSound counter keys) ss
      → All (λ s. IsFree s.placement) ss
  IsFree-All counter keys [] h = tt
  IsFree-All counter keys (s ∷ ss) (h, hs) =
      (is_reserved-IsFree s.placement h.1, IsFree-All counter keys ss hs)

  -- A placement plan that from_auth_plan makes has one slot for each requirement, in order and with its
  -- credential, use, step, origin and placement, a header's name as it is parsed. No two slots take the
  -- same header or query key, where Bearer and Basic take the header Authorization, and none has a
  -- header that the protocol, the transport or the client sets or that identifies a request. The
  -- identifiers grow and are below the counter, and every query key of a credential is redacted in
  -- addresses.
  pub from_auth_plan-IsPlanned :
      (requirements : List AuthRequirement) (counter : ℕ) (planned : AuthPlacementPlan) (after : ℕ)
      → from_auth_plan from_bytes requirements counter ≡ (ok planned, after)
      → IsPlanned planned after
        × Realizes requirements planned.slots
        × AreDistinct planned.slots
        × All (λ s. IsFree s.placement) planned.slots
  unfolding from_auth_plan
  from_auth_plan-IsPlanned requirements counter planned after h =
      let (good, ss, same, real) =
        loop-IsPlanned requirements empty_placement counter planned after h (tt, tt) in
      let (sound, apart) = good in
      (
        good,
        subst (Realizes requirements) (sym same) real,
        AreApart-AreDistinct planned.slots apart,
        IsFree-All after planned.sensitive_query_keys planned.slots sound,
      )
