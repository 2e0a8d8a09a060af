-- ===== src/Auth/Slot.antt =====
-- concord_core/src/auth/credentials.rs: the state of a `CredentialSlot` and its critical sections.
-- Each function below is what one holder of the slot's mutex does. A `Notify` is a number that the
-- caller supplies for `Notify::new`; what `notify_waiters` signals comes back as a result. A poisoned
-- mutex is entered all the same in the source, so poisoning changes nothing.
pub mod Parts
pub mod Poll
pub mod Commit
pub mod Revoke
pub mod Generations
pub mod Behaviour
use concord_api.Base.{ℕ, Bool, true, Option}
use concord_api.Auth.Errors.{AuthError, CredentialRefreshReason}

pub record AuthStepPolicy : Type 0 where
  pub refresh_skew : ℕ
  pub recover_on_unauthorized : Bool
  pub recover_on_forbidden : Bool
  pub invalidate_on_unauthorized : Bool
  pub invalidate_on_forbidden : Bool

-- `AuthStepPolicy::default`: sixty seconds of skew, in nanoseconds.
abbrev pub default_policy : AuthStepPolicy
default_policy = record {
  refresh_skew = 60_000_000_000;
  recover_on_unauthorized = true;
  recover_on_forbidden = true;
  invalidate_on_unauthorized = true;
  invalidate_on_forbidden = true;
}

pub record CredentialLease (T : Type 0) : Type 0 where
  pub value : T
  pub generation : ℕ

pub data RefreshPrevious (T : Type 0) : Type 0 where
  empty : RefreshPrevious T
  valid : T → ℕ → RefreshPrevious T
  failed : AuthError → Option ℕ → RefreshPrevious T

-- `refreshing` holds the notify, the generation, the owner and what to go back to.
pub data CredentialSlotState (T : Type 0) : Type 0 where
  empty : ℕ → CredentialSlotState T
  valid : T → ℕ → CredentialSlotState T
  refreshing : ℕ → ℕ → ℕ → RefreshPrevious T → CredentialSlotState T
  failed : ℕ → AuthError → Option ℕ → CredentialSlotState T

pub record CredentialSlotInner (T : Type 0) : Type 0 where
  pub state : CredentialSlotState T
  pub next_owner : ℕ

-- The slot that the guard points to is the one of the function that takes the guard.
pub record RefreshGuard : Type 0 where
  pub owner : ℕ
  pub disarmed : Bool

pub data SlotAction (T : Type 0) : Type 0 where
  wait : ℕ → SlotAction T
  acquire : ℕ → RefreshGuard → SlotAction T
  refresh : T → ℕ → RefreshGuard → CredentialRefreshReason → SlotAction T

pub data CommitOutcome (T : Type 0) : Type 0 where
  stored : CredentialLease T → CommitOutcome T
  failed : AuthError → CommitOutcome T
  stale_owner : CommitOutcome T

abbrev pub init : {T : Type 0} → CredentialSlotInner T
init = record { state = CredentialSlotState.empty 0; next_owner = 1 }
