-- ===== src/Auth/Slot/Behaviour.antt =====
-- concord_core/src/auth/credentials.rs: what the critical sections of a slot promise one another.
use concord_api.Base.{ℕ, ◌+◌, ◌≡◌, true, Option, none, some, ltb, is_none_or, Result, ok, arith}
use concord_api.Auth.Errors.{AuthError, CredentialRefreshReason}
use concord_api.Auth.Slot.{
  AuthStepPolicy, CredentialLease, CredentialSlotState, CredentialSlotInner, RefreshGuard,
  refreshing, refresh, stale_owner,
}
use concord_api.Auth.Slot.Parts.{
  notify_of, next_generation, next_refresh_owner, leased, act, credential_refresh_reason,
}
use concord_api.Auth.Slot.Poll.{poll_slot}
use concord_api.Auth.Slot.Commit.{commit_store, drop_guard}
use concord_api.Auth.Slot.Revoke.{get_cached, set_manual, invalidate_generation_state}
use concord_api.Auth.Slot.Generations.{at}

module _ {T : Type 0} (expires_at : T → Option ℕ) where
  -- A lease that is handed out without a refresh is the cached one, it leaves the slot alone, and its
  -- credential expires, if at all, more than the skew after the time of the call.
  pub leased_is_fresh :
      (notify now later : ℕ) (policy : AuthStepPolicy) (s : CredentialSlotState T) (n : ℕ)
      {lease : CredentialLease T}
      → (poll_slot expires_at notify now later policy (at s n)).0 ≡ ok (leased lease)
      → (get_cached s ≡ some lease)
        × ((poll_slot expires_at notify now later policy (at s n)).1 ≡ at s n)
        × (is_none_or (expires_at lease.value) (λ e. ltb (now + policy.refresh_skew) e) ≡ true)
  unfolding poll_slot next_generation next_refresh_owner credential_refresh_reason
  leased_is_fresh notify now later policy (CredentialSlotState.empty g) n h = ground arith
  leased_is_fresh notify now later policy (CredentialSlotState.valid v g) n h = ground arith
  leased_is_fresh notify now later policy (refreshing m g x p) n h = ground arith
  leased_is_fresh notify now later policy (CredentialSlotState.failed g e r) n h = ground arith

  -- A refresh of a cached credential that is dropped before it is done puts the credential back,
  -- under the generation of the attempt; if the credential was invalidated meanwhile, under the
  -- generation that it was handed out with, nothing is put back.
  pub dropped_refresh_restores :
      (notify now later : ℕ) (policy : AuthStepPolicy) (v : T) (g n : ℕ) {current : T} {attempt : ℕ}
      {guard : RefreshGuard} {reason : CredentialRefreshReason} {inner : CredentialSlotInner T}
      → poll_slot expires_at notify now later policy (at (CredentialSlotState.valid v g) n)
        ≡ (ok (act (refresh current attempt guard reason)), inner)
      → (current ≡ v)
        × (attempt ≡ g + 1)
        × (get_cached (drop_guard guard inner).0.state
            ≡ some (record { value = v; generation = attempt }))
        × (get_cached (drop_guard guard (invalidate_generation_state (some g) inner).1).0.state
            ≡ none)
  unfolding poll_slot next_generation next_refresh_owner credential_refresh_reason drop_guard
      invalidate_generation_state
  dropped_refresh_restores notify now later policy v g n h = ground arith

module _ {T : Type 0} where
  -- Once a value is set by hand, no attempt that was under way can change it: its commit is told
  -- that it is stale, and neither the commit nor the drop of its guard moves the slot.
  pub manual_value_stays :
      (value : T) (s : CredentialSlotState T) (n : ℕ) {signal : Option ℕ}
      {inner : CredentialSlotInner T}
      → set_manual value (at s n) ≡ (ok signal, inner)
      → (attempt : ℕ) (guard : RefreshGuard) (notify : ℕ) (r : Result AuthError T) (now : ℕ)
      → ((commit_store attempt guard notify r now inner).outcome ≡ ok stale_owner)
        × ((commit_store attempt guard notify r now inner).inner ≡ inner)
        × ((drop_guard guard inner).0 ≡ inner)
        × (signal ≡ notify_of s)
  unfolding set_manual next_generation commit_store drop_guard
  manual_value_stays value s n h attempt guard notify r now = ground arith
