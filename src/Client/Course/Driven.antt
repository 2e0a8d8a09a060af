-- ===== src/Client/Course/Driven.antt =====
-- concord_core/src/client/execute.rs: the course of a whole execution.
use concord_api.Base.{
  ℕ, suc, ◌≡◌, refl, sym, subst, ◌⊎◌, inl, inr, Bool, true, Option, none, some, List, [], ◌∷◌,
  Result, ok, err, Result-cases,
}
use concord_api.Error.{ApiClientError}
use concord_api.Client.Run.{Execution, Event, State, Locals, ObservedResponse}
use concord_api.Client.Execute.{Round, round, drive_executions, first_locals}
use concord_api.Client.Course.{Ends}
use concord_api.Client.Course.Before.{CanRecover, settled_log}
use concord_api.Client.Course.After.{Ending, Answered, Recovers}
use concord_api.Client.Course.Rounds.{Failed, round-Ends}

-- The events up to the second call that sends, the last one first.
abbrev pub second_sent : List Event
second_sent = Event.sent ∷ Event.rejection_applied ∷ Event.released ∷ Event.sent ∷ []

-- The course of an execution that has ended: with a response after one call that sends, or after two
-- where the body can be made again; with an error before the first call, or after the last one, when the
-- response was released at most, or released and the rejection applied.
abbrev pub IsCourse : Bool → Option (Result ApiClientError ObservedResponse) → List Event → Type 0
IsCourse replayable none log = ⊥
IsCourse replayable (some (ok r)) log =
    (log ≡ Event.sent ∷ []) ⊎ ((replayable ≡ true) × (log ≡ second_sent))
IsCourse replayable (some (err e)) log =
    (log ≡ []) ⊎ (Ending (Event.sent ∷ []) log ⊎ ((replayable ≡ true) × Ending second_sent log))

Round-cases :
    (step : Round)
    → ((r : ObservedResponse) × (step ≡ Round.done r))
      ⊎ ((next : Locals) × (step ≡ Round.again next))
Round-cases (Round.done r) = inl (r, refl)
Round-cases (Round.again next) = inr (next, refl)

module _ {W : Type 0} (run : Execution W) where
  -- What the loop makes of a round.
  Drives : Option (Result ApiClientError ObservedResponse) × State W → Type 0
  Drives (result, s) = IsCourse run.is_replayable result s.log

  drive_round :
      (fuel : ℕ) (locals : Locals) (s : State W) (R : Round → List Event → Type 0)
      (E : List Event → Type 0)
      → Ends R E (round run locals s)
      → ((e : ApiClientError) (log : List Event)
          → E log
          → IsCourse run.is_replayable (some (err e)) log)
      → ((r : ObservedResponse) (log : List Event)
          → R (Round.done r) log
          → IsCourse run.is_replayable (some (ok r)) log)
      → ((next : Locals) (s' : State W)
          → R (Round.again next) s'.log
          → Drives (drive_executions run fuel next s'))
      → Drives (drive_executions run (suc fuel) locals s)
  unfolding drive_executions Drives
  drive_round fuel locals s R E ended failed done again =
      let after = (round run locals s).1 in
      elim (Result-cases (round run locals s).0) [
        | inr (e, q) ↦
            let here : (E after.log) = subst (λ x. Ends R E (x, after)) q ended in
            rw q (failed e after.log here)
        | inl (step, q) ↦
            let here : (R step after.log) = subst (λ x. Ends R E (x, after)) q ended in
            elim (Round-cases step) [
              | inl (r, p) ↦ rw (q, p) (done r after.log (subst (λ x. R x after.log) p here))
              | inr (next, p) ↦ rw (q, p) (again next after (subst (λ x. R x after.log) p here))
            ]
      ]

  -- The second round, once the recovery was asked for.
  recovering_round :
      (fuel : ℕ) (first next : Locals) (s : State W)
      → Recovers run first next
      → s.log ≡ Event.released ∷ Event.sent ∷ []
      → Drives (drive_executions run (suc fuel) next s)
  recovering_round fuel first next s (intent, p, asks, replay, _, used) here =
      let before = Event.released ∷ Event.sent ∷ [] in
      let ended : (Ends (Answered run next second_sent) (Failed (some intent) before)
          (round run next s)) =
        subst
          (λ log.
            Ends (Answered run next (Event.sent ∷ settled_log (some intent) log))
              (Failed (some intent) log) (round run next s))
          here
          (subst
            (λ x.
              Ends (Answered run next (Event.sent ∷ settled_log x s.log)) (Failed x s.log)
                (round run next s))
            p (round-Ends run next s (subst (CanRecover run) (sym p) (replay, asks)))) in
      drive_round fuel next s (Answered run next second_sent) (Failed (some intent) before) ended
        (λ e log. failed e log) (λ r log h. inr (replay, h))
        (λ again s' (_, (_, _, _, _, unused, _)). absurd (cc (unused, used)))
    where
      failed :
          (e : ApiClientError) (log : List Event)
          → Failed (some intent) (Event.released ∷ Event.sent ∷ []) log
          → IsCourse run.is_replayable (some (err e)) log
      failed e log (inl (inl h)) = inr (inl (inr (inl h)))
      failed e log (inl (inr h)) = inr (inl (inr (inr h)))
      failed e log (inr h) = inr (inr (replay, h))

  first-Failed :
      (e : ApiClientError) (log : List Event)
      → Failed none [] log
      → IsCourse run.is_replayable (some (err e)) log
  first-Failed e log (inl (inl h)) = inl h
  first-Failed e log (inl (inr h)) = inl h
  first-Failed e log (inr h) = inr (inl h)

  -- With fuel for two rounds an execution that begins with no events ends, and its events are one of the
  -- courses: at most two calls that send, the second only where the body can be made again and after the
  -- rejection was applied; and a rejection is applied only after its response is released.
  pub drive_executions-IsCourse :
      (fuel : ℕ) (s : State W)
      → s.log ≡ []
      → let (result, s') = drive_executions run (suc (suc fuel)) first_locals s in
        IsCourse run.is_replayable result s'.log
  unfolding Drives
  drive_executions-IsCourse fuel s start =
      drive_round (suc fuel) first_locals s (Answered run first_locals (Event.sent ∷ []))
        (Failed none [])
        (subst
          (λ log.
            Ends (Answered run first_locals (Event.sent ∷ log)) (Failed none log)
              (round run first_locals s))
          start (round-Ends run first_locals s tt))
        first-Failed (λ r log h. inl h)
        (λ next s' (here, recovers). recovering_round fuel first_locals next s' recovers here)
