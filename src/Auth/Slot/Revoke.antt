-- ===== src/Auth/Slot/Revoke.antt =====
-- concord_core/src/auth/credentials.rs: invalidation, manual values and the cache.
use concord_api.Base.{
  ℕ, Option, none, some, if◌then◌else◌, ◌==◌, is_none_or, is_some, Result, ok, err, ◌>>=◌,
  checked_add, u64_max,
}
use concord_api.Auth.Errors.{AuthError, auth_error, acquire_failed}
use concord_api.Auth.Slot.{
  CredentialLease, RefreshPrevious, CredentialSlotState, CredentialSlotInner, refreshing,
}
use concord_api.Auth.Slot.Parts.{generation_of, next_generation, notify_of}

module _ {T : Type 0} where
  -- The value that an invalidation for `generation` takes out of a refresh under way.
  unfoldable pub revoked_previous : Option ℕ → RefreshPrevious T → Option T
  revoked_previous generation (RefreshPrevious.valid value held) =
      if is_none_or generation (λ expected. expected == held) then some value else none
  revoked_previous generation RefreshPrevious.empty = none
  revoked_previous generation (RefreshPrevious.failed error retry_after) = none

  revoke_valid :
      Option ℕ → T → ℕ → CredentialSlotInner T → Result AuthError (Option T) × CredentialSlotInner T
  revoke_valid generation value held inner =
      if is_none_or generation (λ expected. expected == held)
      then (elim (checked_add u64_max held 1) [
        | none ↦ (err (auth_error acquire_failed "credential generation counter overflowed"), inner)
        | some next ↦ (ok (some value), record inner { state = CredentialSlotState.empty next })
      ])
      else (ok none, inner)

  revoke :
      Option ℕ
      → CredentialSlotState T
      → CredentialSlotInner T
      → Result AuthError (Option T) × CredentialSlotInner T
  unfolding revoke_valid revoked_previous
  revoke generation (CredentialSlotState.valid value held) inner =
      revoke_valid generation value held inner
  revoke generation (refreshing notify attempt owner previous) inner =
      let current = revoked_previous generation previous in
      (
        ok current,
        if is_some current
            then record inner { state = refreshing notify attempt owner RefreshPrevious.empty }
            else inner,
      )
  revoke generation (CredentialSlotState.empty held) inner = (ok none, inner)
  revoke generation (CredentialSlotState.failed held error retry_after) inner = (ok none, inner)

  -- `invalidate_generation_state`: the credential that was taken out, and the slot's generation
  -- before it.
  unfoldable pub invalidate_generation_state :
      Option ℕ
      → CredentialSlotInner T
      → Result AuthError (Option T × Option ℕ) × CredentialSlotInner T
  unfolding revoke
  invalidate_generation_state generation inner =
      let (taken, inner') = revoke generation inner.state inner in
      ((do current ← taken; ok (current, some (generation_of inner.state))), inner')

  abbrev replace_state :
      (ℕ → CredentialSlotState T)
      → Result AuthError ℕ
      → CredentialSlotInner T
      → Result AuthError (Option ℕ) × CredentialSlotInner T
  replace_state make (err e) inner = (err e, inner)
  replace_state make (ok generation) inner =
      (ok (notify_of inner.state), record inner { state = make generation })

  -- `set_manual` on a slot that was built; the result is the notify that it signals.
  unfoldable pub set_manual :
      T → CredentialSlotInner T → Result AuthError (Option ℕ) × CredentialSlotInner T
  unfolding next_generation
  set_manual value inner =
      replace_state (CredentialSlotState.valid value) (next_generation inner.state) inner

  -- `clear_manual` on a slot that was built.
  unfoldable pub clear_manual :
      CredentialSlotInner T → Result AuthError (Option ℕ) × CredentialSlotInner T
  unfolding next_generation
  clear_manual inner = replace_state CredentialSlotState.empty (next_generation inner.state) inner

  -- `get_cached` on a slot that was built.
  abbrev pub get_cached : CredentialSlotState T → Option (CredentialLease T)
  get_cached (CredentialSlotState.valid value generation) =
      some (record { value = value; generation = generation })
  get_cached (refreshing notify generation owner previous) = none
  get_cached (CredentialSlotState.empty generation) = none
  get_cached (CredentialSlotState.failed generation error retry_after) = none
