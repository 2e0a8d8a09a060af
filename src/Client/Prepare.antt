-- ===== src/Client/Prepare.antt =====
-- concord_core/src/client/execute.rs: a round of `drive_executions` up to the call that sends.
use concord_api.Base.{
  Bool, true, false, not, ◌&&◌, none, some, String, List, [], ◌∷◌, ◌++◌, Result, ok, traverse,
  if◌then◌else◌,
}
use concord_api.Error.{ApiClientError}
use concord_api.Auth.Uses.{AuthRequirement}
use concord_api.Auth.Placement.{AuthPlacementPlan, PlannedAuthSlot, from_auth_plan}
use concord_api.Auth.Placement.Public.{validate_public_request}
use concord_api.Auth.Material.{AuthPreparationReuse, PreparedAuthCredential, validate_binding}
use concord_api.Auth.Rejection.{plan_requests_recovery}
use concord_api.Auth.Orchestrator.{prepare}
use concord_api.Client.Challenge.{
  AuthRejectionApplication, provider_capable, as_auth_error, is_nil, auth_challenge_rejected,
  resolve_action, apply_actions,
}
use concord_api.Client.Run.{
  Execution, Event, State, AuthPreparation, AuthResendIntent, Locals, Action, pure, raise,
  lift_result, on_world, read_world, emit, ◌>>=◌, ◌>>◌,
}

pub data AuthRejectionStep : Type 0 where
  retry : AuthRejectionStep
  fail : ApiClientError → AuthRejectionStep

module _ {W : Type 0} (run : Execution W) where
  abbrev pub other_error {ℓ} : {A : Type ℓ} → String → State W → Result ApiClientError A × State W
  other_error name = raise (ApiClientError.other run.ctx name)

  -- The placement plan is made once, in the first round.
  abbrev pub placement : Locals → Action W AuthPlacementPlan
  placement locals s = elim locals.placement_plan [
    | some existing ↦ (ok existing, s)
    | none ↦
        let (planned, after) = from_auth_plan run.from_bytes run.requirements s.next_slot in
        (as_auth_error run.ctx planned, record s { next_slot = after })
  ]

  -- One requirement and its slot: the credential, bound to the slot.
  abbrev pub prepare_slot : AuthRequirement → PlannedAuthSlot → Action W PreparedAuthCredential
  prepare_slot requirement slot = do
    prepared ← on_world (λ w.
        let (r, after) = prepare run.binding_of requirement slot w in
        (as_auth_error run.ctx r, after))
    _ ← lift_result (as_auth_error run.ctx (validate_binding prepared slot))
    pure prepared

  abbrev is_request_local : AuthPreparationReuse → Bool
  is_request_local AuthPreparationReuse.never = false
  is_request_local AuthPreparationReuse.request_local = true

  -- The loop of `prepare_auth_plan`, over the requirements zipped with the slots.
  unfoldable pub prepare_slots :
      List AuthRequirement → List PlannedAuthSlot → AuthPreparation → Action W AuthPreparation
  prepare_slots [] slots acc = pure acc
  prepare_slots (r ∷ rs) [] acc = pure acc
  prepare_slots (r ∷ rs) (slot ∷ slots) acc = prepare_slot r slot >>= λ p.
      prepare_slots rs slots (record {
        applied = acc.applied ++ p.applied ∷ [];
        materials = acc.materials ++ p.material ∷ [];
        cacheable = acc.cacheable && is_request_local p.reuse;
      })

  -- `prepare_auth_plan`.
  unfoldable pub prepare_auth : AuthPlacementPlan → Action W AuthPreparation
  unfolding prepare_slots
  prepare_auth plan =
      prepare_slots run.requirements plan.slots
        (record { applied = []; materials = []; cacheable = not (is_nil run.requirements) })

  -- `apply_auth_rejection_plan`: every action is resolved before the first is applied.
  unfoldable pub apply_auth_rejection_plan :
      AuthRejectionApplication → AuthResendIntent → Action W (Unit {0})
  apply_auth_rejection_plan application intent = do
    bindings ← lift_result (
        traverse (resolve_action run.ctx run.requirements intent.auth_attempt)
          intent.rejection_plan)
    _ ← emit Event.rejection_applied
    on_world (apply_actions run.binding_of run.ctx application intent.status bindings)

  unfoldable pub apply_auth_rejection_step : AuthResendIntent → Action W AuthRejectionStep
  unfolding apply_auth_rejection_plan
  apply_auth_rejection_step intent =
      let recovers = plan_requests_recovery intent.rejection_plan in
      let failure = AuthRejectionStep.fail (auth_challenge_rejected run.ctx) in
      if not run.is_replayable && recovers
      then pure failure
      else apply_auth_rejection_plan provider_capable intent
        >> pure (if recovers then AuthRejectionStep.retry else failure)

  abbrev pub after_step : Locals → AuthRejectionStep → Action W Locals
  after_step locals AuthRejectionStep.retry =
      pure (record locals { pending_auth = none; cached_preparation = none })
  after_step locals (AuthRejectionStep.fail e) = raise e

  -- The recovery that the round before has asked for.
  abbrev pub take_pending : Locals → Action W Locals
  take_pending locals = elim locals.pending_auth [
    | none ↦ pure locals
    | some intent ↦ apply_auth_rejection_step intent >>= after_step locals
  ]

  abbrev pub with_cache : Locals → AuthPreparation → Locals × AuthPreparation
  with_cache locals p =
      (if p.cacheable then record locals { cached_preparation = some p } else locals, p)

  abbrev pub prepared : AuthPlacementPlan → Locals → Action W (Locals × AuthPreparation)
  prepared plan locals = elim locals.cached_preparation [
    | some cached ↦ pure (locals, cached)
    | none ↦ prepare_auth plan >>= λ p. pure (with_cache locals p)
  ]

  -- The head of a round, with the checks before any credential is touched.
  abbrev pub check_head : Locals → Action W AuthPlacementPlan
  check_head locals = do
    head ← read_world run.resolve_head
    plan ← placement locals
    _ ← lift_result (as_auth_error run.ctx (validate_public_request plan.slots head))
    _ ← if run.preflight_url then pure tt else other_error "TlsCapabilityUnavailable"
    _ ←
        if locals.snapshot
        then pure tt
        else read_world (λ w. as_auth_error run.ctx (run.auth_state w))
    pure plan

  -- The request is built from its body.
  abbrev pub build_request : Locals × AuthPreparation → Action W (Locals × AuthPreparation)
  build_request ready = do _ ← on_world run.produce_body; _ ← read_world run.finish; pure ready

  abbrev pub checked : Locals → AuthPlacementPlan → Locals
  checked locals plan = record locals { placement_plan = some plan; snapshot = true }

  -- A round up to the call that sends.
  unfoldable pub before_send : Locals → Action W (Locals × AuthPreparation)
  unfolding prepare_auth apply_auth_rejection_step
  before_send locals = do
    plan ← check_head locals
    current ← take_pending (checked locals plan)
    ready ← prepared plan current
    build_request ready
