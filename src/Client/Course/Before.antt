-- ===== src/Client/Course/Before.antt =====
-- concord_core/src/client/execute.rs: the log of a round before the call that sends.
use concord_api.Base.{
  ◌≡◌, refl, ap, subst, ◌∙◌, ◌⊎◌, inl, inr, true, Bool-cases, Option, none, some, Option-cases,
  List, [], ◌∷◌, Result-cases, traverse, arith, if◌then◌else◌,
}
use concord_api.Auth.Uses.{AuthRequirement}
use concord_api.Auth.Placement.Public.{validate_public_request}
use concord_api.Auth.Placement.{AuthPlacementPlan, PlannedAuthSlot}
use concord_api.Auth.Material.{validate_binding}
use concord_api.Auth.Orchestrator.{prepare}
use concord_api.Auth.Rejection.{plan_requests_recovery}
use concord_api.Client.Challenge.{
  as_auth_error, AuthRejectionApplication, provider_capable, resolve_action,
}
use concord_api.Client.Run.{
  Execution, Event, State, AuthPreparation, pure, AuthResendIntent, Locals, lift_result, on_world,
  read_world,
}
use concord_api.Client.Prepare.{
  AuthRejectionStep, other_error, placement, prepare_slot, prepare_slots, prepare_auth, prepared,
  check_head, build_request, with_cache, after_step, take_pending, apply_auth_rejection_plan,
  apply_auth_rejection_step,
}
use concord_api.Client.Course.{
  Ends, Quiet, quiet_then, settled, if_quiet, Ends-then, Quiet-continue,
}

-- The log after the pending recovery of a round.
abbrev pub settled_log : Option AuthResendIntent → List Event → List Event
settled_log none log = log
settled_log (some intent) log = Event.rejection_applied ∷ log

-- A rejection was applied, or not.
abbrev pub MayApply : List Event → List Event → Type 0
MayApply before log = (log ≡ before) ⊎ (log ≡ Event.rejection_applied ∷ before)

-- The pending recovery of a round was applied, or not.
abbrev pub Unsent : Option AuthResendIntent → List Event → List Event → Type 0
Unsent p before log = (log ≡ before) ⊎ (log ≡ settled_log p before)

-- A round's variables once no recovery is pending.
abbrev pub Ready : Locals → List Event → Locals → List Event → Type 0
Ready locals expected l log =
    (l.pending_auth ≡ none) × (l.recovery_initiated ≡ locals.recovery_initiated) × (log ≡ expected)

module _ {W : Type 0} (run : Execution W) where
  placement-Quiet : (locals : Locals) → Quiet (placement run locals)
  placement-Quiet locals s = elim (Option-cases locals.placement_plan) [
    | inl e ↦ rw e refl
    | inr (p, e) ↦ rw e refl
  ]

  prepare_slot-Quiet :
      (r : AuthRequirement) (slot : PlannedAuthSlot) → Quiet (prepare_slot run r slot)
  prepare_slot-Quiet r slot s = elim (Result-cases (prepare run.binding_of r slot s.world).0) [
    | inr (e, q) ↦ ground (arith, q)
    | inl (p, q) ↦ elim (Result-cases (validate_binding p slot)) [
      | inr (e, v) ↦ ground (arith, q, v)
      | inl (u, v) ↦ ground (arith, q, v)
    ]
  ]

  prepare_slots-Quiet :
      (rs : List AuthRequirement) (slots : List PlannedAuthSlot) (acc : AuthPreparation)
      → Quiet (prepare_slots run rs slots acc)
  unfolding prepare_slots
  prepare_slots-Quiet [] slots acc s = refl
  prepare_slots-Quiet (r ∷ rs) [] acc s = refl
  prepare_slots-Quiet (r ∷ rs) (slot ∷ slots) acc s =
      Quiet-continue _ (prepare_slot run r slot s) (λ p. prepare_slots-Quiet rs slots _)
      ∙ prepare_slot-Quiet r slot s

  -- A rejection that is applied is in the log, unless an action did not resolve.
  pub apply_plan-Ends :
      (application : AuthRejectionApplication) (intent : AuthResendIntent) (s : State W)
      → Ends
          (λ u log. log ≡ Event.rejection_applied ∷ s.log)
          (MayApply s.log)
          (apply_auth_rejection_plan run application intent s)
  unfolding apply_auth_rejection_plan
  apply_plan-Ends application intent s =
      quiet_then (λ u log. log ≡ Event.rejection_applied ∷ s.log) (MayApply s.log) s.log _
        (lift_result
          (traverse (resolve_action run.ctx run.requirements intent.auth_attempt)
            intent.rejection_plan)
          s)
        refl (inl refl)
        (λ bindings s' same.
          settled (λ u log. log ≡ Event.rejection_applied ∷ s.log) (MayApply s.log)
            (Event.rejection_applied ∷ s.log) _ (ap (λ l. Event.rejection_applied ∷ l) same)
            (λ u. refl) (inr refl))

  -- A recovery that is pending can be carried out.
  abbrev pub CanRecover : Option AuthResendIntent → Type 0
  CanRecover none = Unit
  CanRecover (some intent) =
      (run.is_replayable ≡ true) × (plan_requests_recovery intent.rejection_plan ≡ true)

  -- The step of a recovery that can be carried out is to retry, once it is applied.
  abbrev Retries : List Event → AuthRejectionStep → List Event → Type 0
  Retries before step log =
      (step ≡ AuthRejectionStep.retry) × (log ≡ Event.rejection_applied ∷ before)

  recovery-Retries :
      (intent : AuthResendIntent) (s : State W)
      → run.is_replayable ≡ true
      → plan_requests_recovery intent.rejection_plan ≡ true
      → Ends (Retries s.log) (MayApply s.log) (apply_auth_rejection_step run intent s)
  unfolding apply_auth_rejection_step
  recovery-Retries intent s replay recovers =
      rw (replay, recovers)
        (Ends-then (λ u log. log ≡ Event.rejection_applied ∷ s.log) (Retries s.log) (MayApply s.log)
          (λ u. pure AuthRejectionStep.retry)
          (apply_auth_rejection_plan run provider_capable intent s)
          (apply_plan-Ends provider_capable intent s) (λ u s' h. (refl, h)))

  pub take_pending-Ends :
      (locals : Locals) (s : State W)
      → CanRecover locals.pending_auth
      → Ends
          (Ready locals (settled_log locals.pending_auth s.log))
          (Unsent locals.pending_auth s.log)
          (take_pending run locals s)
  take_pending-Ends locals s can = elim (Option-cases locals.pending_auth) [
    | inl e ↦ rw e (refl, refl, refl)
    | inr (intent, e) ↦
        let (replay, recovers) = subst CanRecover e can in
        rw e (
          Ends-then (Retries s.log) (Ready locals (Event.rejection_applied ∷ s.log))
            (MayApply s.log) (after_step run locals) (apply_auth_rejection_step run intent s)
            (recovery-Retries intent s replay recovers)
            (λ step s' (is_retry, h). rw is_retry (refl, refl, h)))
  ]

  -- The preparation of the credentials leaves the log and the variables but the cache.
  pub prepared-Ends :
      (E : List Event → Type 0) (log : List Event) (plan : AuthPlacementPlan) (locals l : Locals)
      (s : State W)
      → E log
      → Ready locals log l s.log
      → Ends (λ ready. Ready locals log ready.0) E (prepared run plan l s)
  unfolding prepare_auth
  prepared-Ends E log plan locals l s failed (no_pending, same_budget, here) =
      elim (Option-cases l.cached_preparation) [
        | inr (cached, e) ↦ rw e (no_pending, same_budget, here)
        | inl e ↦ rw e (
            quiet_then (λ ready. Ready locals log ready.0) E log
              (λ p. pure (with_cache run (record l { cached_preparation = none }) p))
              (prepare_auth run plan s) (prepare_slots-Quiet run.requirements plan.slots _ s ∙ here)
              failed
              (λ p s' same. elim (Bool-cases p.cacheable) [
                | inl c ↦ rw c (no_pending, same_budget, same)
                | inr c ↦ rw c (no_pending, same_budget, same)
              ]))
      ]

  pub check_head-Quiet : (locals : Locals) → Quiet (check_head run locals)
  check_head-Quiet locals s = Quiet-continue _ (read_world run.resolve_head s) λ head s1.
      Quiet-continue _ (placement run locals s1) (λ plan s2.
        Quiet-continue _
          (lift_result (as_auth_error run.ctx (validate_public_request plan.slots head)) s2)
          λ u s3.
            Quiet-continue _
              ((if run.preflight_url then pure tt else other_error run "TlsCapabilityUnavailable")
                s3)
              (λ v s4.
                Quiet-continue _
                  ((if locals.snapshot
                      then pure tt
                      else read_world (λ w. as_auth_error run.ctx (run.auth_state w)))
                    s4)
                  (λ x s5. refl)
                ∙ if_quiet locals.snapshot _ _ s4 refl refl)
            ∙ if_quiet run.preflight_url _ _ s3 refl refl)
      ∙ placement-Quiet locals s1

  build_request-Quiet : (ready : Locals × AuthPreparation) → Quiet (build_request run ready)
  build_request-Quiet ready s =
      Quiet-continue _ (on_world run.produce_body s)
        λ u s1. Quiet-continue _ (read_world run.finish s1) λ v s2. refl
