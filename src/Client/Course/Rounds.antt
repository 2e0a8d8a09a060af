-- ===== src/Client/Course/Rounds.antt =====
-- concord_core/src/client/execute.rs: the course of a whole execution.
use concord_api.Base.{◌≡◌, refl, sym, ap, subst, ◌∙◌, ◌⊎◌, inl, inr, Option, List, ◌∷◌}
use concord_api.Client.Run.{
  Execution, Event, State, AuthPreparation, AuthResendIntent, Locals, on_world, read_world,
}
use concord_api.Client.Prepare.{check_head, checked, take_pending, prepared, before_send}
use concord_api.Client.Execute.{Round, after_send, round}
use concord_api.Client.Course.{Ends, quiet_then, Ends-then, weaken}
use concord_api.Client.Course.Before.{
  Unsent, Ready, CanRecover, settled_log, take_pending-Ends, prepared-Ends, check_head-Quiet,
}
use concord_api.Client.Course.After.{Ending, Answered, after_send-Ends}

-- How the log may end where a round fails: before the call that sends, or after it.
abbrev pub Failed : Option AuthResendIntent → List Event → List Event → Type 0
Failed p before log = Unsent p before log ⊎ Ending (Event.sent ∷ settled_log p before) log

module _ {W : Type 0} (run : Execution W) where
  before_send-Ends :
      (locals : Locals) (s : State W)
      → CanRecover run locals.pending_auth
      → Ends
          (λ (ready : Locals × AuthPreparation).
            Ready locals (settled_log locals.pending_auth s.log) ready.0)
          (Unsent locals.pending_auth s.log)
          (before_send run locals s)
  unfolding before_send
  before_send-Ends locals s can =
      let L = settled_log locals.pending_auth s.log in
      let E = Unsent locals.pending_auth s.log in
      quiet_then R E s.log _ (check_head run locals s) (check_head-Quiet run locals s) (inl refl)
        λ plan s1 h1.
          Ends-then (Ready locals L) R E _ (take_pending run (checked run locals plan) s1)
            (subst
              (λ log.
                Ends (Ready locals (settled_log locals.pending_auth log))
                  (Unsent locals.pending_auth log) (take_pending run (checked run locals plan) s1))
              h1 (take_pending-Ends run (checked run locals plan) s1 can))
            λ current s2 ready.
              Ends-then R R E _ (prepared run plan current s2)
                (prepared-Ends run E L plan locals current s2 (inr refl) ready)
                λ r s3 (no_pending, same_budget, here).
                  quiet_then R E L _ (on_world run.produce_body s3) here (inr refl) λ u s4 h4.
                    quiet_then R E L _ (read_world run.finish s4) h4 (inr refl)
                      λ v s5 h5. (no_pending, same_budget, h5)
    where
      R : Locals × AuthPreparation → List Event → Type 0
      R ready = Ready locals (settled_log locals.pending_auth s.log) ready.0

  Answered-budget :
      (l locals : Locals) (sent : List Event)
      → l.recovery_initiated ≡ locals.recovery_initiated
      → (step : Round) (log : List Event) → Answered run l sent step log
      → Answered run locals sent step log
  Answered-budget l locals sent same (Round.done r) log h = h
  Answered-budget l locals sent same (Round.again next) log
        (here, (i, p, asks, replay, unused, used)) =
      (here, (i, p, asks, replay, sym same ∙ unused, used))

  -- A round whose pending recovery can be carried out.
  pub round-Ends :
      (locals : Locals) (s : State W)
      → CanRecover run locals.pending_auth
      → Ends
          (Answered run locals (Event.sent ∷ settled_log locals.pending_auth s.log))
          (Failed locals.pending_auth s.log)
          (round run locals s)
  unfolding round
  round-Ends locals s can =
      let L = settled_log locals.pending_auth s.log in
      let R = Answered run locals (Event.sent ∷ L) in
      let E = Failed locals.pending_auth s.log in
      let Q = λ (ready : Locals × AuthPreparation). Ready locals L ready.0 in
      Ends-then Q R E _ (before_send run locals s)
        (weaken Q Q (Unsent locals.pending_auth s.log) E (before_send run locals s) (λ r log h. h)
          (λ log h. inl h) (before_send-Ends locals s can))
        λ ready s1 (_, same_budget, here).
          quiet_then R E (Event.sent ∷ L) _
            (on_world (run.send ready.1.materials) (record s1 { log = Event.sent ∷ s1.log }))
            (ap (λ l. Event.sent ∷ l) here) (inr (inl refl))
            λ r s2 h2.
              weaken (Answered run ready.0 (Event.sent ∷ L)) R (Ending (Event.sent ∷ L)) E
                (after_send run ready.0 ready.1 r s2)
                (Answered-budget ready.0 locals (Event.sent ∷ L) same_budget) (λ log h. inr h)
                (subst
                  (λ log.
                    Ends (Answered run ready.0 log) (Ending log)
                      (after_send run ready.0 ready.1 r s2))
                  h2 (after_send-Ends run ready.0 ready.1 r s2))
