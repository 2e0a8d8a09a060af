-- ===== src/Auth/Slot/Parts.antt =====
-- concord_core/src/auth/credentials.rs: the parts of the critical sections of a slot.
use concord_api.Base.{
  ℕ, true, false, Option, none, some, if◌then◌else◌, leb, ok_or, Result, ok, err, ◌>>=◌,
  checked_add, u64_max, instant_max,
}
use concord_api.Auth.Errors.{
  AuthError, auth_error, acquire_failed, invalid_configuration, CredentialRefreshReason, expired,
  expiring_soon,
}
use concord_api.Auth.Slot.{
  AuthStepPolicy, CredentialLease, RefreshPrevious, CredentialSlotState, CredentialSlotInner,
  RefreshGuard, SlotAction, refreshing,
}

abbrev pub checked_auth_instant_add : ℕ → ℕ → Result AuthError ℕ
checked_auth_instant_add base duration =
    ok_or (checked_add instant_max base duration) (auth_error invalid_configuration "overflowed")

-- `RefreshGuard::disarm`.
abbrev pub disarm : RefreshGuard → RefreshGuard
disarm guard = record guard { disarmed = true }

abbrev pub armed : ℕ → RefreshGuard
armed owner = record { owner = owner; disarmed = false }

module _ {T : Type 0} where
  abbrev pub generation_of : CredentialSlotState T → ℕ
  generation_of (CredentialSlotState.empty generation) = generation
  generation_of (CredentialSlotState.valid value generation) = generation
  generation_of (refreshing notify generation owner previous) = generation
  generation_of (CredentialSlotState.failed generation error retry_after) = generation

  unfoldable pub next_generation : CredentialSlotState T → Result AuthError ℕ
  next_generation state =
      ok_or (checked_add u64_max (generation_of state) 1)
        (auth_error acquire_failed "credential generation counter overflowed")

  -- `RefreshPrevious::into_state_at`.
  unfoldable pub into_state_at : RefreshPrevious T → ℕ → CredentialSlotState T
  into_state_at RefreshPrevious.empty generation = CredentialSlotState.empty generation
  into_state_at (RefreshPrevious.valid value _) generation =
      CredentialSlotState.valid value generation
  into_state_at (RefreshPrevious.failed error retry_after) generation =
      CredentialSlotState.failed generation error retry_after

  unfoldable pub next_refresh_owner :
      CredentialSlotInner T → Result AuthError ℕ × CredentialSlotInner T
  next_refresh_owner inner = elim (checked_add u64_max inner.next_owner 1) [
    | none ↦ (err (auth_error acquire_failed "credential refresh owner counter overflowed"), inner)
    | some next ↦ (ok inner.next_owner, record inner { next_owner = next })
  ]

  -- The notify of a refresh that is under way.
  abbrev pub notify_of : CredentialSlotState T → Option ℕ
  notify_of (refreshing notify generation owner previous) = some notify
  notify_of (CredentialSlotState.empty generation) = none
  notify_of (CredentialSlotState.valid value generation) = none
  notify_of (CredentialSlotState.failed generation error retry_after) = none

  -- The owner of a refresh that is under way.
  abbrev pub owner_of : CredentialSlotState T → Option ℕ
  owner_of (refreshing notify generation owner previous) = some owner
  owner_of (CredentialSlotState.empty generation) = none
  owner_of (CredentialSlotState.valid value generation) = none
  owner_of (CredentialSlotState.failed generation error retry_after) = none

-- What one round of the loop in `get_or_refresh` decides under the lock: to return a lease, to go
-- round again at once, or an action to carry out without the lock.
pub data Turn (T : Type 0) : Type 0 where
  leased : CredentialLease T → Turn T
  again : Turn T
  act : SlotAction T → Turn T

module _ {T : Type 0} (expires_at : T → Option ℕ) where
  unfoldable pub expiry_reason : ℕ → ℕ → ℕ → Result AuthError (Option CredentialRefreshReason)
  expiry_reason expires skew now = if leb expires now then ok (some expired) else do
    limit ← checked_auth_instant_add now skew
    ok (if leb expires limit then some expiring_soon else none)

  unfoldable pub credential_refresh_reason :
      T → AuthStepPolicy → ℕ → Result AuthError (Option CredentialRefreshReason)
  unfolding expiry_reason
  credential_refresh_reason value policy now = elim (expires_at value) [
    | none ↦ ok none
    | some expires ↦ expiry_reason expires policy.refresh_skew now
  ]
