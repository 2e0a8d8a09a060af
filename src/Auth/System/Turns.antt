-- ===== src/Auth/System/Turns.antt =====
-- concord_core/src/auth/credentials.rs: what a task relies on after its own critical section.
use concord_api.Base.{
  ℕ, ◌≤◌, ◌≡◌, refl, false, ◌≢◌, ◌⊎◌, Option, none, some, Result, ok, err, arith,
}
use concord_api.Auth.Slot.{
  AuthStepPolicy, CredentialSlotState, CredentialSlotInner, RefreshGuard, refreshing,
  RefreshPrevious, CommitOutcome, stored, stale_owner,
}
use concord_api.Auth.Slot.Parts.{owner_of, Turn}
use concord_api.Auth.Slot.Parts.{next_generation, next_refresh_owner}
use concord_api.Auth.Slot.Generations.{at}
use concord_api.Auth.Slot.Poll.{poll_slot}
use concord_api.Auth.Slot.Commit.{commit_check, commit_store, drop_guard}
use concord_api.Auth.Slot.Revoke.{invalidate_generation_state, set_manual, clear_manual}
use concord_api.Auth.Errors.{AuthError}
use concord_api.Auth.System.{wake, turn_task, check_task, commit_task}
use concord_api.Auth.System.Invariant.{holds, Holder, TaskOk}

module _ {T : Type 0} (expires_at : T → Option ℕ) (notify now later : ℕ)
    (policy : AuthStepPolicy) where
  abbrev pub polled : CredentialSlotState T → ℕ → Result AuthError (Turn T) × CredentialSlotInner T
  polled s n = poll_slot expires_at notify now later policy (at s n)

  pub polled-TaskOk :
      (s : CredentialSlotState T) (n : ℕ) → TaskOk (polled s n).1 (turn_task policy (polled s n).0)
  unfolding poll_slot next_generation next_refresh_owner
  polled-TaskOk (CredentialSlotState.empty g) n = ground arith
  polled-TaskOk (CredentialSlotState.valid v g) n = ground arith
  polled-TaskOk (refreshing m g o p) n = ground arith
  polled-TaskOk (CredentialSlotState.failed g e r) n = ground arith

  pub polled-own :
      (s : CredentialSlotState T) (n o : ℕ)
      → holds (turn_task policy (polled s n).0) ≡ some o
      → n ≤ o
  unfolding poll_slot next_generation next_refresh_owner
  polled-own (CredentialSlotState.empty g) n o = ground arith
  polled-own (CredentialSlotState.valid v g) n o = ground arith
  polled-own (refreshing m g x p) n o = ground arith
  polled-own (CredentialSlotState.failed g e r) n o = ground arith

  pub polled-led :
      (s : CredentialSlotState T) (n o : ℕ)
      → owner_of (polled s n).1.state ≡ some o
      → (holds (turn_task policy (polled s n).0) ≡ some o) ⊎ (owner_of s ≡ some o)
  unfolding poll_slot next_generation next_refresh_owner
  polled-led (CredentialSlotState.empty g) n o = ground arith
  polled-led (CredentialSlotState.valid v g) n o = ground arith
  polled-led (refreshing m g x p) n o = ground arith
  polled-led (CredentialSlotState.failed g e r) n o = ground arith

module _ {T : Type 0} (policy : AuthStepPolicy) (g : ℕ) (guard : RefreshGuard) where
  pub checked-TaskOk :
      (r : Result AuthError T) (s : CredentialSlotState T) (n : ℕ)
      → Holder (at s n) g guard
      → TaskOk (at s n) (check_task policy g guard r (commit_check g guard (at s n)))
  unfolding commit_check
  checked-TaskOk r (refreshing m h o p) n k = ground arith
  checked-TaskOk r s n k = ground arith

  pub checked-led :
      (r : Result AuthError T) (s : CredentialSlotState T) (n o : ℕ)
      → Holder (at s n) g guard
      → owner_of s ≡ some o
      → (holds (check_task policy g guard r (commit_check g guard (at s n))) ≡ some o)
        ⊎ (guard.owner ≢ o)
  unfolding commit_check
  checked-led r (refreshing m h x p) n o k e = ground arith
  checked-led r s n o k e = ground arith

  pub committed-led :
      (notify : ℕ) (r : Result AuthError T) (now : ℕ) (s : CredentialSlotState T) (n o : ℕ)
      → Holder (at s n) g guard
      → let c = commit_store g guard notify r now (at s n) in
        owner_of (drop_guard c.guard c.inner).0.state ≡ some o
        → (owner_of c.inner.state ≡ some o) × (guard.owner ≢ o)
  unfolding commit_store drop_guard
  committed-led notify (ok v) now (refreshing m h x p) n o k e = ground arith
  committed-led notify (err er) now (refreshing m h x p) n o k e = ground arith
  committed-led notify r now s n o k e = ground arith

  pub dropped-led :
      (s : CredentialSlotState T) (n o : ℕ)
      → guard.disarmed ≡ false
      → owner_of (drop_guard guard (at s n)).0.state ≡ some o
      → (owner_of s ≡ some o) × (guard.owner ≢ o)
  unfolding drop_guard
  dropped-led (refreshing m h x RefreshPrevious.empty) n o k e = ground arith
  dropped-led (refreshing m h x p) n o k e = ground arith
  dropped-led s n o k e = ground arith

  pub committed-same :
      (notify : ℕ) (r : Result AuthError T) (now : ℕ) (s : CredentialSlotState T) (n o : ℕ)
      → owner_of (commit_store g guard notify r now (at s n)).inner.state ≡ some o
      → owner_of s ≡ some o
  unfolding commit_store
  committed-same notify (ok v) now (refreshing m h x p) n o = ground arith
  committed-same notify (err er) now (refreshing m h x p) n o = ground arith
  committed-same notify r now s n o = ground arith

  pub commit_task-TaskOk :
      (inner : CredentialSlotInner T) (signal : Option ℕ) (out : Result AuthError (CommitOutcome T))
      → TaskOk inner (wake signal (commit_task policy out))
        × (holds (commit_task policy out) ≡ none)
  commit_task-TaskOk inner none (err e) = (tt, refl)
  commit_task-TaskOk inner none (ok (stored lease)) = (tt, refl)
  commit_task-TaskOk inner none (ok (CommitOutcome.failed e)) = (tt, refl)
  commit_task-TaskOk inner none (ok stale_owner) = (tt, refl)
  commit_task-TaskOk inner (some n) (err e) = (tt, refl)
  commit_task-TaskOk inner (some n) (ok (stored lease)) = (tt, refl)
  commit_task-TaskOk inner (some n) (ok (CommitOutcome.failed e)) = (tt, refl)
  commit_task-TaskOk inner (some n) (ok stale_owner) = (tt, refl)

module _ {T : Type 0} where
  pub set_manual-same :
      (value : T) (s : CredentialSlotState T) (n o : ℕ)
      → owner_of (set_manual value (at s n)).1.state ≡ some o
      → owner_of s ≡ some o
  unfolding set_manual
  set_manual-same value (refreshing m g x p) n o = ground arith
  set_manual-same value s n o = ground arith

  pub clear_manual-same :
      (s : CredentialSlotState T) (n o : ℕ)
      → owner_of (clear_manual (at s n)).1.state ≡ some o
      → owner_of s ≡ some o
  unfolding clear_manual
  clear_manual-same (refreshing m g x p) n o = ground arith
  clear_manual-same s n o = ground arith

  pub invalidate-same :
      (generation : Option ℕ) (s : CredentialSlotState T) (n o : ℕ)
      → owner_of (invalidate_generation_state generation (at s n)).1.state ≡ some o
      → owner_of s ≡ some o
  unfolding invalidate_generation_state
  invalidate-same generation (refreshing m g x p) n o = ground arith
  invalidate-same generation s n o = ground arith
