-- ===== src/Auth/System/Shifts.antt =====
-- concord_core/src/auth/credentials.rs: what each critical section does to the refresh under way.
use concord_api.Base.{ℕ, ◌≡◌, Option, none, some, Result, ok, err, arith}
use concord_api.Auth.Errors.{AuthError}
use concord_api.Auth.Slot.{
  AuthStepPolicy, CredentialSlotState, RefreshPrevious, RefreshGuard, refreshing,
}
use concord_api.Auth.Slot.Parts.{owner_of, notify_of, next_generation, next_refresh_owner}
use concord_api.Auth.Slot.Poll.{poll_slot}
use concord_api.Auth.Slot.Commit.{commit_store, drop_guard}
use concord_api.Auth.Slot.Revoke.{invalidate_generation_state, set_manual, clear_manual}
use concord_api.Auth.Slot.Generations.{at}
use concord_api.Auth.System.{signal_of}
use concord_api.Auth.System.Invariant.{Shift}

module _ {T : Type 0} where
  pub Shift-refl : (s : CredentialSlotState T) (n : ℕ) → Shift (at s n) (at s n) none
  Shift-refl s n = record {
    grows = omega arith;
    owner_fresh = λ h o e. h o e;
    same = λ o lt e. ground arith;
    woken = λ m e. ground arith;
  }

  pub poll_slot-Shift :
      (expires_at : T → Option ℕ) (notify now later : ℕ) (policy : AuthStepPolicy)
      (s : CredentialSlotState T) (n : ℕ)
      → Shift (at s n) (poll_slot expires_at notify now later policy (at s n)).1 none
  unfolding poll_slot next_generation next_refresh_owner
  poll_slot-Shift expires_at notify now later policy (refreshing m g o p) n =
      Shift-refl (refreshing m g o p) n
  poll_slot-Shift expires_at notify now later policy s n = record {
    grows = ground arith;
    owner_fresh = λ h o e. ground arith;
    same = λ o lt e. ground arith;
    woken = λ m e. ground arith;
  }

  pub commit_store-Shift :
      (attempt : ℕ) (guard : RefreshGuard) (notify : ℕ) (result : Result AuthError T) (now : ℕ)
      (s : CredentialSlotState T) (n : ℕ)
      → (owner_of s ≡ some guard.owner → notify_of s ≡ some notify)
      → let c = commit_store attempt guard notify result now (at s n) in
        Shift (at s n) c.inner c.signal
  unfolding commit_store
  commit_store-Shift attempt guard notify (ok v) now (refreshing m g o p) n h = record {
    grows = ground arith;
    owner_fresh = λ fresh x e. ground (arith, fresh x);
    same = λ x lt e. ground arith;
    woken = λ x e. ground (arith, h);
  }
  commit_store-Shift attempt guard notify (err er) now (refreshing m g o p) n h = record {
    grows = ground arith;
    owner_fresh = λ fresh x e. ground (arith, fresh x);
    same = λ x lt e. ground arith;
    woken = λ x e. ground (arith, h);
  }
  commit_store-Shift attempt guard notify result now s n h = Shift-refl s n

  pub drop_guard-Shift :
      (guard : RefreshGuard) (s : CredentialSlotState T) (n : ℕ)
      → let d = drop_guard guard (at s n) in Shift (at s n) d.0 d.1
  unfolding drop_guard
  drop_guard-Shift guard (refreshing m g o RefreshPrevious.empty) n = ground arith
  drop_guard-Shift guard (refreshing m g o p) n = ground arith
  drop_guard-Shift guard s n = ground arith

  pub invalidate-Shift :
      (generation : Option ℕ) (s : CredentialSlotState T) (n : ℕ)
      → Shift (at s n) (invalidate_generation_state generation (at s n)).1 none
  unfolding invalidate_generation_state
  invalidate-Shift generation (refreshing m g o p) n = ground arith
  invalidate-Shift generation s n = ground arith

  pub set_manual-Shift :
      (value : T) (s : CredentialSlotState T) (n : ℕ)
      → let r = set_manual value (at s n) in Shift (at s n) r.1 (signal_of r.0)
  unfolding set_manual
  set_manual-Shift value (refreshing m g o p) n = ground arith
  set_manual-Shift value s n = ground arith

  pub clear_manual-Shift :
      (s : CredentialSlotState T) (n : ℕ)
      → let r = clear_manual (at s n) in Shift (at s n) r.1 (signal_of r.0)
  unfolding clear_manual
  clear_manual-Shift (refreshing m g o p) n = ground arith
  clear_manual-Shift s n = ground arith
