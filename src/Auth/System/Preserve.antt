-- ===== src/Auth/System/Preserve.antt =====
-- concord_core/src/auth/credentials.rs: every step keeps the invariant.
use concord_api.Base.{ℕ, ◌≡◌, refl, ap, subst, inl, inr, Option, none, Result, update, arith}
use concord_api.Auth.Slot.{AuthStepPolicy, CredentialSlotInner, RefreshGuard}
use concord_api.Auth.Slot.Commit.{commit_store, drop_guard}
use concord_api.Auth.Errors.{AuthError}
use concord_api.Auth.System.{
  Task, absent, ready, calling, committing, System, call, polls, answers, commits, drops_idle,
  drops_waiting, drops_calling, sets, clears, invalidates, here, next, start, commit_task, poll,
  answer, commit, abandon, set_value, clear_value, invalidate, Step, Reach,
}
use concord_api.Auth.System.Frames.{Inv-settle, Inv-turn}
use concord_api.Auth.System.Shifts.{
  Shift-refl, poll_slot-Shift, commit_store-Shift, drop_guard-Shift, invalidate-Shift,
  set_manual-Shift, clear_manual-Shift,
}
use concord_api.Auth.System.Turns.{
  polled-TaskOk, polled-own, polled-led, checked-TaskOk, checked-led, committed-led, committed-same,
  set_manual-same, clear_manual-same, invalidate-same, commit_task-TaskOk, dropped-led,
}
use concord_api.Auth.System.Invariant.{holds, TaskOk, Inv, holds-wake, TaskOk-Shift}

module _ {T : Type 0} where
  pub start-Inv : Inv {T = T} start.inner start.tasks
  start-Inv = record {
    owner_fresh = λ o e. cc;
    tasks_ok = λ i. tt;
    unique = λ i j o p q. cc;
    led = λ o e. cc;
  }

  task-at :
      (inner : CredentialSlotInner T) (tasks : ℕ → Task T) (i : ℕ) {t : Task T}
      → Inv inner tasks
      → tasks i ≡ t
      → TaskOk inner t
  task-at inner tasks i inv e = subst (TaskOk inner) e (inv.tasks_ok i)

  -- Task `i` becomes a task that holds no guard, and held none.
  idle-Inv :
      (s : System T) (i : ℕ) (t : Task T)
      → Inv s.inner s.tasks
      → TaskOk s.inner t
      → holds (s.tasks i) ≡ none
      → holds t ≡ none
      → Inv s.inner (update s.tasks i t)
  idle-Inv s i t inv mine was will =
      Inv-turn none i t inv (Shift-refl s.inner.state s.inner.next_owner) mine (λ o e. cc)
        (λ o e. inr (e, λ e'. cc))

  module _ (expires_at : T → Option ℕ) where
    poll-Inv :
        (s : System T) (i : ℕ) (policy : AuthStepPolicy) (now later : ℕ)
        → Inv s.inner s.tasks
        → s.tasks i ≡ ready policy
        → let s' = poll expires_at s i policy now later in Inv s'.inner s'.tasks
    unfolding poll
    poll-Inv s i policy now later inv e =
        let st = s.inner.state in
        let n = s.inner.next_owner in
        Inv-turn none i _ inv (poll_slot-Shift expires_at s.next_notify now later policy st n)
          (polled-TaskOk expires_at s.next_notify now later policy st n)
          (λ o h. inr (polled-own expires_at s.next_notify now later policy st n o h))
          (λ o h. elim (polled-led expires_at s.next_notify now later policy st n o h) [
            | inl k ↦ inl k
            | inr k ↦ inr (k, λ e'. cc)
          ])

  answer-Inv :
      (s : System T) (i : ℕ) (policy : AuthStepPolicy) (g : ℕ) (guard : RefreshGuard)
      (r : Result AuthError T)
      → Inv s.inner s.tasks
      → s.tasks i ≡ calling policy g guard
      → let s' = answer s i policy g guard r in Inv s'.inner s'.tasks
  unfolding answer
  answer-Inv s i policy g guard r inv e =
      let k = task-at s.inner s.tasks i inv e in
      let st = s.inner.state in
      let n = s.inner.next_owner in
      Inv-turn none i _ inv (Shift-refl st n) (checked-TaskOk policy g guard r st n k)
        (λ o h. inl (ground arith))
        (λ o h. elim (checked-led policy g guard r st n o k h) [
          | inl a ↦ inl a
          | inr a ↦ inr (h, λ e'. a (ground arith))
        ])

  commit-Inv :
      (s : System T) (i : ℕ) (policy : AuthStepPolicy) (g : ℕ) (guard : RefreshGuard) (notify : ℕ)
      (r : Result AuthError T) (now : ℕ)
      → Inv s.inner s.tasks
      → s.tasks i ≡ committing policy g guard notify r
      → let s' = commit s i policy g guard notify r now in Inv s'.inner s'.tasks
  unfolding commit
  commit-Inv s i policy g guard notify r now inv e =
      let (k, same_notify) = task-at s.inner s.tasks i inv e in
      let st = s.inner.state in
      let n = s.inner.next_owner in
      let c = commit_store g guard notify r now s.inner in
      let inv' =
        Inv-settle c.signal inv (commit_store-Shift g guard notify r now st n same_notify)
          (committed-same policy g guard notify r now st n) in
      let d = drop_guard c.guard c.inner in
      let idle = commit_task-TaskOk policy g guard d.0 d.1 c.outcome in
      Inv-turn d.1 i (commit_task policy c.outcome) inv'
        (drop_guard-Shift c.guard c.inner.state c.inner.next_owner) idle.0 (λ o h. cc (idle.1))
        (λ o h.
          let (was, other) = committed-led policy g guard notify r now st n o k h in
          inr (was, λ e'. other (ground (arith, holds-wake c.signal (s.tasks i)))))

  abandon-Inv :
      (s : System T) (i : ℕ) (policy : AuthStepPolicy) (g : ℕ) (guard : RefreshGuard)
      → Inv s.inner s.tasks
      → s.tasks i ≡ calling policy g guard
      → let s' = abandon s i guard in Inv s'.inner s'.tasks
  unfolding abandon
  abandon-Inv s i policy g guard inv e =
      let k = task-at s.inner s.tasks i inv e in
      let st = s.inner.state in
      let n = s.inner.next_owner in
      let d = drop_guard guard s.inner in
      Inv-turn d.1 i absent inv (drop_guard-Shift guard st n)
        (TaskOk-Shift (drop_guard-Shift guard st n) absent tt) (λ o h. cc)
        (λ o h.
          let (was, other) = dropped-led policy g guard st n o k.armed h in
          inr (was, λ e'. other (ground arith)))

  set_value-Inv :
      (s : System T) (value : T)
      → Inv s.inner s.tasks
      → let s' = set_value s value in Inv s'.inner s'.tasks
  unfolding set_value
  set_value-Inv s value inv =
      Inv-settle _ inv (set_manual-Shift value s.inner.state s.inner.next_owner)
        (set_manual-same value s.inner.state s.inner.next_owner)

  clear_value-Inv :
      (s : System T) → Inv s.inner s.tasks → let s' = clear_value s in Inv s'.inner s'.tasks
  unfolding clear_value
  clear_value-Inv s inv =
      Inv-settle _ inv (clear_manual-Shift s.inner.state s.inner.next_owner)
        (clear_manual-same s.inner.state s.inner.next_owner)

  invalidate-Inv :
      (s : System T) (generation : Option ℕ)
      → Inv s.inner s.tasks
      → let s' = invalidate s generation in Inv s'.inner s'.tasks
  unfolding invalidate
  invalidate-Inv s generation inv =
      Inv-settle none inv (invalidate-Shift generation s.inner.state s.inner.next_owner)
        (invalidate-same generation s.inner.state s.inner.next_owner)

  module _ (expires_at : T → Option ℕ) where
    -- Every step keeps the invariant.
    pub Step-Inv :
        {s t : System T} → Step expires_at s t → Inv s.inner s.tasks → Inv t.inner t.tasks
    Step-Inv {s} (call i policy e) inv = idle-Inv s i (ready policy) inv tt (ap holds e) refl
    Step-Inv {s} (polls i policy now later e le) inv =
        poll-Inv expires_at s i policy now later inv e
    Step-Inv {s} (answers i policy g guard r e) inv = answer-Inv s i policy g guard r inv e
    Step-Inv {s} (commits i policy g guard notify r now e) inv =
        commit-Inv s i policy g guard notify r now inv e
    Step-Inv {s} (drops_idle i policy e) inv = idle-Inv s i absent inv tt (ap holds e) refl
    Step-Inv {s} (drops_waiting i policy n e) inv = idle-Inv s i absent inv tt (ap holds e) refl
    Step-Inv {s} (drops_calling i policy g guard e) inv = abandon-Inv s i policy g guard inv e
    Step-Inv {s} (sets value) inv = set_value-Inv s value inv
    Step-Inv {s} clears inv = clear_value-Inv s inv
    Step-Inv {s} (invalidates generation) inv = invalidate-Inv s generation inv

    pub Reach-Inv :
        {s t : System T} → Inv s.inner s.tasks → Reach expires_at s t → Inv t.inner t.tasks
    Reach-Inv inv here = inv
    Reach-Inv inv (next r st) = Step-Inv st (Reach-Inv inv r)
