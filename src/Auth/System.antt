-- ===== src/Auth/System.antt =====
-- concord_core/src/auth/credentials.rs: one slot under concurrent calls of `get_or_refresh`.
-- Each task is one call, at the point between two critical sections where others may run; a step is
-- one critical section, or the drop of a call that awaits. A task that waits on a notify is made
-- ready again when the notify is signalled. The provider's answer and every reading of the clock are
-- chosen by the environment.
pub mod Invariant
pub mod Shifts
pub mod Frames
pub mod Turns
pub mod Preserve
pub mod Safety
use concord_api.Base.{
  ℕ, suc, ◌≤◌, ◌≡◌, Option, none, some, if◌then◌else◌, ◌==◌, Result, ok, err, update,
}
use concord_api.Auth.Errors.{AuthError}
use concord_api.Auth.Slot.{
  AuthStepPolicy, CredentialLease, CredentialSlotInner, RefreshGuard, SlotAction, wait, acquire,
  refresh, CommitOutcome, stored, stale_owner, init,
}
use concord_api.Auth.Slot.Parts.{Turn, leased, again, act}
use concord_api.Auth.Slot.Poll.{poll_slot}
use concord_api.Auth.Slot.Commit.{Committed, commit_check, commit_store, drop_guard}
use concord_api.Auth.Slot.Revoke.{invalidate_generation_state, set_manual, clear_manual}

-- Where a call of `get_or_refresh` stands: at the head of the loop, awaiting a notify, awaiting the
-- provider with an armed guard, between the two locks of a commit, or returned. `absent` is a call
-- that has not begun, or was dropped.
pub data Task (T : Type 0) : Type 0 where
  absent : Task T
  ready : AuthStepPolicy → Task T
  waiting : AuthStepPolicy → ℕ → Task T
  calling : AuthStepPolicy → ℕ → RefreshGuard → Task T
  committing : AuthStepPolicy → ℕ → RefreshGuard → ℕ → Result AuthError T → Task T
  returned : Result AuthError (CredentialLease T) → Task T

pub record System (T : Type 0) : Type 0 where
  pub inner : CredentialSlotInner T
  pub tasks : ℕ → Task T
  pub next_notify : ℕ

-- What a manual update signals; nothing, if it fails.
abbrev pub signal_of : Result AuthError (Option ℕ) → Option ℕ
signal_of (ok signal) = signal
signal_of (err e) = none

module _ {T : Type 0} where
  abbrev pub start : System T
  start = record { inner = init; tasks = λ _. absent; next_notify = 0 }

  -- `notify_waiters`, for one task.
  abbrev pub wake : Option ℕ → Task T → Task T
  wake none t = t
  wake (some n) (waiting policy m) = if m == n then ready policy else waiting policy m
  wake (some n) absent = absent
  wake (some n) (ready policy) = ready policy
  wake (some n) (calling policy g guard) = calling policy g guard
  wake (some n) (committing policy g guard m r) = committing policy g guard m r
  wake (some n) (returned r) = returned r

  -- The slot after a critical section, with the notify that it signals.
  abbrev pub settle : System T → CredentialSlotInner T → Option ℕ → System T
  settle s inner signal = record s { inner = inner; tasks = λ j. wake signal (s.tasks j) }

  abbrev pub put : System T → ℕ → Task T → System T
  put s i t = record s { tasks = update s.tasks i t }

  abbrev pub turn_task : AuthStepPolicy → Result AuthError (Turn T) → Task T
  turn_task policy (err e) = returned (err e)
  turn_task policy (ok (leased lease)) = returned (ok lease)
  turn_task policy (ok again) = ready policy
  turn_task policy (ok (act (wait notify))) = waiting policy notify
  turn_task policy (ok (act (acquire g guard))) = calling policy g guard
  turn_task policy (ok (act (refresh current g guard reason))) = calling policy g guard

  abbrev pub check_task : AuthStepPolicy → ℕ → RefreshGuard → Result AuthError T → Option ℕ → Task T
  check_task policy g guard r none = ready policy
  check_task policy g guard r (some notify) = committing policy g guard notify r

  abbrev pub commit_task : AuthStepPolicy → Result AuthError (CommitOutcome T) → Task T
  commit_task policy (err e) = returned (err e)
  commit_task policy (ok (stored lease)) = returned (ok lease)
  commit_task policy (ok (CommitOutcome.failed e)) = returned (err e)
  commit_task policy (ok stale_owner) = ready policy

  module _ (expires_at : T → Option ℕ) (s : System T) (i : ℕ) where
    unfoldable pub poll : AuthStepPolicy → ℕ → ℕ → System T
    poll policy now later =
        let (turn, inner) = poll_slot expires_at s.next_notify now later policy s.inner in
        record {
          inner = inner;
          tasks = update s.tasks i (turn_task policy turn);
          next_notify = suc s.next_notify;
        }

  module _ (s : System T) (i : ℕ) where
    -- The provider has answered: the first lock of the commit.
    unfoldable pub answer : AuthStepPolicy → ℕ → RefreshGuard → Result AuthError T → System T
    answer policy g guard r = put s i (check_task policy g guard r (commit_check g guard s.inner))

    -- The guard is dropped: it restores what was there before, unless it was disarmed.
    abbrev pub release : RefreshGuard → System T → System T
    release guard s' = let (inner, signal) = drop_guard guard s'.inner in settle s' inner signal

    -- The second lock of the commit, and the drop of the guard that follows it.
    unfoldable pub commit :
        AuthStepPolicy → ℕ → RefreshGuard → ℕ → Result AuthError T → ℕ → System T
    commit policy g guard notify r now =
        let c = commit_store g guard notify r now s.inner in
        release c.guard (put (settle s c.inner c.signal) i (commit_task policy c.outcome))

    -- A call that awaits the provider is dropped, with its guard.
    unfoldable pub abandon : RefreshGuard → System T
    abandon guard = release guard (put s i absent)

  unfoldable pub set_value : System T → T → System T
  set_value s value = let (r, inner) = set_manual value s.inner in settle s inner (signal_of r)

  unfoldable pub clear_value : System T → System T
  clear_value s = let (r, inner) = clear_manual s.inner in settle s inner (signal_of r)

  unfoldable pub invalidate : System T → Option ℕ → System T
  invalidate s generation = record s { inner = (invalidate_generation_state generation s.inner).1 }

module _ {T : Type 0} (expires_at : T → Option ℕ) where
  pub data Step (s : System T) : System T → Type 0 where
    call : (i : ℕ) (policy : AuthStepPolicy) → s.tasks i ≡ absent → Step s (put s i (ready policy))
    polls :
        (i : ℕ) (policy : AuthStepPolicy) (now later : ℕ)
        → s.tasks i ≡ ready policy
        → now ≤ later
        → Step s (poll expires_at s i policy now later)
    answers :
        (i : ℕ) (policy : AuthStepPolicy) (g : ℕ) (guard : RefreshGuard) (r : Result AuthError T)
        → s.tasks i ≡ calling policy g guard
        → Step s (answer s i policy g guard r)
    commits :
        (i : ℕ) (policy : AuthStepPolicy) (g : ℕ) (guard : RefreshGuard) (notify : ℕ)
        (r : Result AuthError T) (now : ℕ)
        → s.tasks i ≡ committing policy g guard notify r
        → Step s (commit s i policy g guard notify r now)
    drops_idle :
        (i : ℕ) (policy : AuthStepPolicy) → s.tasks i ≡ ready policy → Step s (put s i absent)
    drops_waiting :
        (i : ℕ) (policy : AuthStepPolicy) (n : ℕ)
        → s.tasks i ≡ waiting policy n
        → Step s (put s i absent)
    drops_calling :
        (i : ℕ) (policy : AuthStepPolicy) (g : ℕ) (guard : RefreshGuard)
        → s.tasks i ≡ calling policy g guard
        → Step s (abandon s i guard)
    sets : (value : T) → Step s (set_value s value)
    clears : Step s (clear_value s)
    invalidates : (generation : Option ℕ) → Step s (invalidate s generation)

  pub data Reach (s : System T) : System T → Type 0 where
    here : Reach s s
    next : {t u : System T} → Reach s t → Step t u → Reach s u
