-- ===== src/Auth/Slot/Commit.antt =====
-- concord_core/src/auth/credentials.rs: `commit_slot_result` and the guard's `drop`.
use concord_api.Base.{
  ℕ, Bool, false, ◌&&◌, Option, none, some, if◌then◌else◌, ◌==◌, Result, ok, err, ◌>>=◌,
}
use concord_api.Auth.Errors.{AuthError}
use concord_api.Auth.Slot.{
  CredentialSlotState, CredentialSlotInner, RefreshGuard, CommitOutcome, stored, stale_owner,
  refreshing,
}
use concord_api.Auth.Slot.Parts.{checked_auth_instant_add, disarm, into_state_at, notify_of}

-- `error.retry_after().map(|wait| checked_auth_instant_add(now, wait)).transpose()`.
retry_at : ℕ → AuthError → Result AuthError (Option ℕ)
retry_at now error = elim error.retry_after [
  | none ↦ ok none
  | some delay ↦ do at ← checked_auth_instant_add now delay; ok (some at)
]

-- What a commit returns, with the guard, the slot and the notify that it signals.
pub record Committed (T : Type 0) : Type 0 where
  pub outcome : Result AuthError (CommitOutcome T)
  pub guard : RefreshGuard
  pub inner : CredentialSlotInner T
  pub signal : Option ℕ

module _ {T : Type 0} where
  -- The refresh is still the attempt's own.
  abbrev is_attempt : ℕ → RefreshGuard → CredentialSlotState T → Bool
  is_attempt attempt guard (refreshing notify generation owner previous) =
      owner == guard.owner && generation == attempt
  is_attempt attempt guard (CredentialSlotState.empty generation) = false
  is_attempt attempt guard (CredentialSlotState.valid value generation) = false
  is_attempt attempt guard (CredentialSlotState.failed generation error retry_after) = false

  -- The first lock of `commit_slot_result`: the notify to signal, or `none` for a stale owner.
  unfoldable pub commit_check : ℕ → RefreshGuard → CredentialSlotInner T → Option ℕ
  commit_check attempt guard inner =
      if is_attempt attempt guard inner.state then notify_of inner.state else none

  abbrev commit_error :
      ℕ
      → RefreshGuard
      → ℕ
      → AuthError
      → CredentialSlotInner T
      → Result AuthError (Option ℕ)
      → Committed T
  commit_error attempt guard notify error inner (err e) = record {
    outcome = err e;
    guard = guard;
    inner = inner;
    signal = none;
  }
  commit_error attempt guard notify error inner (ok at) = record {
    outcome = ok (CommitOutcome.failed error);
    guard = disarm guard;
    inner = record inner { state = CredentialSlotState.failed attempt error at };
    signal = some notify;
  }

  store_result : ℕ → RefreshGuard → ℕ → Result AuthError T → ℕ → CredentialSlotInner T → Committed T
  unfolding retry_at
  store_result attempt guard notify (ok value) now inner = record {
    outcome = ok (stored (record { value = value; generation = attempt }));
    guard = disarm guard;
    inner = record inner { state = CredentialSlotState.valid value attempt };
    signal = some notify;
  }
  store_result attempt guard notify (err error) now inner =
      commit_error attempt guard notify error inner (retry_at now error)

  -- The second lock of `commit_slot_result`. An overflow of the retry time returns early, with the
  -- guard still armed.
  unfoldable pub commit_store :
      ℕ → RefreshGuard → ℕ → Result AuthError T → ℕ → CredentialSlotInner T → Committed T
  unfolding store_result
  commit_store attempt guard notify result now inner =
      if is_attempt attempt guard inner.state
      then store_result attempt guard notify result now inner
      else record { outcome = ok stale_owner; guard = disarm guard; inner = inner; signal = none }

  restore :
      RefreshGuard
      → CredentialSlotState T
      → CredentialSlotInner T
      → CredentialSlotInner T × Option ℕ
  unfolding into_state_at
  restore guard (refreshing notify generation owner previous) inner =
      if owner == guard.owner
      then (record inner { state = into_state_at previous generation }, some notify)
      else (inner, none)
  restore guard (CredentialSlotState.empty generation) inner = (inner, none)
  restore guard (CredentialSlotState.valid value generation) inner = (inner, none)
  restore guard (CredentialSlotState.failed generation error retry_after) inner = (inner, none)

  -- `Drop for RefreshGuard`, with the notify that it signals.
  unfoldable pub drop_guard :
      RefreshGuard → CredentialSlotInner T → CredentialSlotInner T × Option ℕ
  unfolding restore
  drop_guard guard inner = if guard.disarmed then (inner, none) else restore guard inner.state inner
