-- ===== src/Client/Execute.antt =====
-- concord_core/src/client/execute.rs: `drive_executions`. A round goes from the public head to what the
-- response asks for; the loop ends unless a challenge asks for a recovery.
use concord_api.Base.{
  ℕ, zero, suc, Bool, true, false, not, ◌&&◌, leb, ltb, Option, none, some, is_some_and, Result, ok,
  err, if◌then◌else◌,
}
use concord_api.Error.{ApiClientError}
use concord_api.Auth.Rejection.{plan_requests_recovery}
use concord_api.Client.Challenge.{
  invalidation_only, auth_challenge_rejected, classify_auth_rejection,
}
use concord_api.Client.Run.{
  ObservedResponse, ExecutionFamily, Execution, Event, State, AuthPreparation, AuthResendIntent,
  Locals, Action, pure, raise, lift_result, on_world, emit, ◌>>=◌, ◌>>◌,
}
use concord_api.Client.Prepare.{
  AuthRejectionStep, other_error, apply_auth_rejection_plan, apply_auth_rejection_step, before_send,
}

-- What a round ends with: another round, or a response.
pub data Round : Type 0 where
  again : Locals → Round
  done : ObservedResponse → Round

abbrev pub first_locals : Locals
first_locals = record {
  placement_plan = none;
  snapshot = false;
  pending_auth = none;
  recovery_initiated = false;
  cached_preparation = none;
}

-- `StatusCode::is_success`, and the error of `classify_observed_transport_response`.
abbrev pub is_success : ℕ → Bool
is_success status = leb 200 status && leb status 299

module _ {W : Type 0} (run : Execution W) where
  -- `limit_response_body`.
  abbrev pub limit_response_body : Option ℕ → ObservedResponse → Action W ObservedResponse
  limit_response_body none observed = pure observed
  limit_response_body (some limit) observed =
      if is_some_and observed.content_length (λ actual. ltb limit actual)
      then other_error run "ResponseTooLarge"
      else pure observed

  abbrev pub response_limit : ExecutionFamily → Option ℕ
  response_limit (ExecutionFamily.buffered skip_body limit) = if skip_body then none else limit
  response_limit (ExecutionFamily.stream limit) = limit

  -- `classify_observed_transport_response`, and the limit of the body.
  unfoldable pub accept_response : ObservedResponse → Action W Round
  accept_response observed =
      if is_success observed.status
      then (limit_response_body (response_limit run.family) observed >>= λ r. pure (Round.done r))
      else other_error run "HttpStatus"

  abbrev pub step_error : AuthRejectionStep → ApiClientError
  step_error AuthRejectionStep.retry = auth_challenge_rejected run.ctx
  step_error (AuthRejectionStep.fail e) = e

  -- A challenge that asks for a recovery: once, where the body can be made again.
  abbrev pub recoverable_challenge : Locals → AuthResendIntent → Action W Round
  recoverable_challenge locals intent =
      if not run.is_replayable
      then apply_auth_rejection_plan run invalidation_only intent >> other_error run "HttpStatus"
      else if locals.recovery_initiated
      then apply_auth_rejection_plan run invalidation_only intent
        >> raise (auth_challenge_rejected run.ctx)
      else pure
          (Round.again (record locals { pending_auth = some intent; recovery_initiated = true }))

  abbrev pub challenged : Locals → AuthResendIntent → Action W Round
  challenged locals intent =
      emit Event.released
      >> (if plan_requests_recovery intent.rejection_plan
          then recoverable_challenge locals intent
          else apply_auth_rejection_step run intent >>= λ step. raise (step_error step))

  -- What is done with a response that was observed.
  unfoldable pub after_send : Locals → AuthPreparation → ObservedResponse → Action W Round
  unfolding apply_auth_rejection_step accept_response
  after_send locals preparation observed = do
    classification ← lift_result (
        classify_auth_rejection run.binding_of run.ctx run.requirements observed.status
          preparation.applied)
    elim classification [
      | none ↦ accept_response observed
      | some actions ↦ challenged locals (record {
        rejection_plan = actions;
        status = observed.status;
        auth_attempt = preparation.applied;
      })
    ]

  -- One round of the loop.
  unfoldable pub round : Locals → Action W Round
  unfolding before_send after_send
  round locals = before_send run locals >>= λ ready.
      emit Event.sent >> (on_world (run.send ready.1.materials) >>= after_send ready.0 ready.1)

  -- The loop, with fuel for its rounds: none where it runs out.
  unfoldable pub drive_executions :
      ℕ → Locals → State W → Option (Result ApiClientError ObservedResponse) × State W
  unfolding round
  drive_executions zero locals s = (none, s)
  drive_executions (suc fuel) locals s =
      let (result, s') = round locals s in
      elim result [
        | err e ↦ (some (err e), s')
        | ok step ↦ elim step [
          | Round.done r ↦ (some (ok r), s')
          | Round.again next ↦ drive_executions fuel next s'
        ]
      ]
