-- ===== src/Client/Course/After.antt =====
-- concord_core/src/client/execute.rs: the log of a round after the call that sends.
use concord_api.Base.{
  ◌≡◌, refl, ap, subst, ◌∙◌, ◌⊎◌, inl, inr, true, false, not, ◌&&◌, Option, none, some, List, ◌∷◌,
  Result-cases, Option-cases, arith, ℕ, ltb, is_some_and,
}
use concord_api.Error.{ApiClientError}
use concord_api.Auth.Rejection.{plan_requests_recovery}
use concord_api.Client.Challenge.{
  AuthRejectionApplication, provider_capable, invalidation_only, classify_auth_rejection,
}
use concord_api.Client.Run.{
  Execution, Event, State, AuthPreparation, AuthResendIntent, Locals, ObservedResponse, pure, raise,
  continue,
}
use concord_api.Client.Prepare.{other_error, apply_auth_rejection_plan, apply_auth_rejection_step}
use concord_api.Client.Execute.{
  Round, accept_response, limit_response_body, response_limit, recoverable_challenge, challenged,
  step_error, after_send, is_success,
}
use concord_api.Client.Course.{Ends, Quiet, quiet_then, Ends-then, weaken, if_Ends, if_quiet}
use concord_api.Client.Course.Before.{MayApply, apply_plan-Ends}

-- How the log may end after a response: nothing, the response released, and the rejection applied.
abbrev pub Ending : List Event → List Event → Type 0
Ending sent log =
    (log ≡ sent)
    ⊎ ((log ≡ Event.released ∷ sent) ⊎ (log ≡ Event.rejection_applied ∷ Event.released ∷ sent))

applied-Ending : (sent log : List Event) → MayApply (Event.released ∷ sent) log → Ending sent log
applied-Ending sent log (inl h) = inr (inl h)
applied-Ending sent log (inr h) = inr (inr h)

module _ {W : Type 0} (run : Execution W) where
  -- What another round starts with: a recovery that can be carried out, and a budget that is used up.
  abbrev pub Recovers : Locals → Locals → Type 0
  Recovers locals next =
      (intent : AuthResendIntent) × (next.pending_auth ≡ some intent)
      × (plan_requests_recovery intent.rejection_plan ≡ true)
      × (run.is_replayable ≡ true)
      × (locals.recovery_initiated ≡ false)
      × (next.recovery_initiated ≡ true)

  abbrev pub Answered : Locals → List Event → Round → List Event → Type 0
  Answered locals sent (Round.done r) log = log ≡ sent
  Answered locals sent (Round.again next) log = (log ≡ Event.released ∷ sent) × Recovers locals next

  limit-Quiet : (limit : Option ℕ) (r : ObservedResponse) → Quiet (limit_response_body run limit r)
  limit-Quiet none r s = refl
  limit-Quiet (some limit) r s =
      if_quiet (is_some_and r.content_length (λ actual. ltb limit actual))
        (other_error run "ResponseTooLarge") (pure r) s refl refl

  accept-Ends :
      (locals : Locals) (r : ObservedResponse) (s : State W)
      → Ends (Answered locals s.log) (Ending s.log) (accept_response run r s)
  unfolding accept_response
  accept-Ends locals r s =
      if_Ends (Answered locals s.log) (Ending s.log) (is_success r.status) _ _ s
        (λ e.
          quiet_then (Answered locals s.log) (Ending s.log) s.log (λ o. pure (Round.done o))
            (limit_response_body run (response_limit run run.family) r s)
            (limit-Quiet (response_limit run run.family) r s) (inl refl) (λ o s' same. same))
        (λ e. inl refl)

  applied-Ends :
      (sent : List Event) (application : AuthRejectionApplication) (intent : AuthResendIntent)
      (s : State W)
      → s.log ≡ Event.released ∷ sent
      → Ends
          (λ u log. log ≡ Event.rejection_applied ∷ s.log)
          (Ending sent)
          (apply_auth_rejection_plan run application intent s)
  applied-Ends sent application intent s here =
      weaken (λ u log. log ≡ Event.rejection_applied ∷ s.log)
        (λ u log. log ≡ Event.rejection_applied ∷ s.log) (MayApply s.log) (Ending sent)
        (apply_auth_rejection_plan run application intent s) (λ u log h. h)
        (λ log may. applied-Ending sent log (subst (λ l. MayApply l log) here may))
        (apply_plan-Ends run application intent s)

  -- An application of the rejection that ends the execution.
  final_apply :
      (locals : Locals) (sent : List Event) (application : AuthRejectionApplication)
      (intent : AuthResendIntent) (e : ApiClientError) (s : State W)
      → s.log ≡ Event.released ∷ sent
      → Ends
          (Answered locals sent)
          (Ending sent)
          (continue (λ u. raise e) (apply_auth_rejection_plan run application intent s))
  final_apply locals sent application intent e s here =
      Ends-then (λ u log. log ≡ Event.rejection_applied ∷ s.log) (Answered locals sent)
        (Ending sent) (λ u. raise e) (apply_auth_rejection_plan run application intent s)
        (applied-Ends sent application intent s here)
        (λ u s' h. inr (inr (h ∙ ap (λ l. Event.rejection_applied ∷ l) here)))

  -- The step of a rejection ends the execution, whether it was applied or not.
  final_step :
      (locals : Locals) (sent : List Event) (intent : AuthResendIntent) (s : State W)
      → s.log ≡ Event.released ∷ sent
      → Ends
          (Answered locals sent)
          (Ending sent)
          (continue (λ step. raise (step_error run step)) (apply_auth_rejection_step run intent s))
  unfolding apply_auth_rejection_step
  final_step locals sent intent s here =
      Ends-then (λ step. MayApply (Event.released ∷ sent)) (Answered locals sent) (Ending sent)
        (λ step. raise (step_error run step)) (apply_auth_rejection_step run intent s)
        (if_Ends (λ step. MayApply (Event.released ∷ sent)) (Ending sent)
          (not run.is_replayable && plan_requests_recovery intent.rejection_plan) _ _ s
          (λ e. inl here)
          (λ e.
            Ends-then (λ u log. log ≡ Event.rejection_applied ∷ s.log)
              (λ step. MayApply (Event.released ∷ sent)) (Ending sent) _
              (apply_auth_rejection_plan run provider_capable intent s)
              (applied-Ends sent provider_capable intent s here)
              (λ u s' h. inr (h ∙ ap (λ l. Event.rejection_applied ∷ l) here))))
        (λ step s' may. applied-Ending sent s'.log may)

  recoverable-Ends :
      (locals : Locals) (sent : List Event) (intent : AuthResendIntent) (s : State W)
      → s.log ≡ Event.released ∷ sent
      → plan_requests_recovery intent.rejection_plan ≡ true
      → Ends (Answered locals sent) (Ending sent) (recoverable_challenge run locals intent s)
  recoverable-Ends locals sent intent s here asks =
      if_Ends (Answered locals sent) (Ending sent) (not run.is_replayable) _ _ s
        (λ e. final_apply locals sent invalidation_only intent _ s here)
        (λ e.
          if_Ends (Answered locals sent) (Ending sent) locals.recovery_initiated _ _ s
            (λ b. final_apply locals sent invalidation_only intent _ s here)
            (λ b. (here, (intent, refl, asks, ground (arith, e), b, refl))))

  challenged-Ends :
      (locals : Locals) (intent : AuthResendIntent) (s : State W)
      → Ends (Answered locals s.log) (Ending s.log) (challenged run locals intent s)
  challenged-Ends locals intent s =
      let s' = record s { log = Event.released ∷ s.log } in
      if_Ends (Answered locals s.log) (Ending s.log) (plan_requests_recovery intent.rejection_plan)
        _ _ s' (λ e. recoverable-Ends locals s.log intent s' refl e)
        (λ e. final_step locals s.log intent s' refl)

  -- After a response a round ends, or asks for another one to recover.
  pub after_send-Ends :
      (locals : Locals) (preparation : AuthPreparation) (r : ObservedResponse) (s : State W)
      → Ends (Answered locals s.log) (Ending s.log) (after_send run locals preparation r s)
  unfolding after_send
  after_send-Ends locals preparation r s =
      elim (Result-cases (
        classify_auth_rejection run.binding_of run.ctx run.requirements r.status
          preparation.applied)) [
            | inr (e, q) ↦ rw q (inl refl)
            | inl (answer, q) ↦ elim (Option-cases answer) [
              | inl none_left ↦ rw (q, none_left) (accept-Ends locals r s)
              | inr (actions, some_left) ↦
                  rw (q, some_left)
                    (challenged-Ends locals
                      (record {
                        rejection_plan = actions;
                        status = r.status;
                        auth_attempt = preparation.applied;
                      })
                      s)
            ]
          ]
