-- ===== src/Auth/Slot/Poll.antt =====
-- concord_core/src/auth/credentials.rs: the critical section of `get_or_refresh`.
use concord_api.Base.{
  ℕ, Option, none, some, if◌then◌else◌, ◌==◌, ltb, is_some_and, get_or, Result, ok, err,
}
use concord_api.Auth.Errors.{AuthError, expiring_soon}
use concord_api.Auth.Slot.{
  AuthStepPolicy, RefreshPrevious, CredentialSlotState, CredentialSlotInner, RefreshGuard,
  SlotAction, refreshing, wait, acquire, refresh,
}
use concord_api.Auth.Slot.Parts.{
  armed, next_generation, next_refresh_owner, Turn, leased, again, act, credential_refresh_reason,
}

module _ {T : Type 0} where
  -- Takes an owner and enters `refreshing`; without an owner the state is left alone.
  claim :
      ℕ
      → ℕ
      → RefreshPrevious T
      → (RefreshGuard → SlotAction T)
      → CredentialSlotInner T
      → Result AuthError (Turn T) × CredentialSlotInner T
  unfolding next_refresh_owner
  claim notify generation previous action inner =
      let (owner, inner') = next_refresh_owner inner in
      elim owner [
        | err e ↦ (err e, inner')
        | ok o ↦ (
          ok (act (action (armed o))),
          record inner' { state = refreshing notify generation o previous },
        )
      ]

  -- The arm of an empty slot takes the owner before it computes the generation.
  claim_empty : ℕ → CredentialSlotInner T → Result AuthError (Turn T) × CredentialSlotInner T
  unfolding next_refresh_owner next_generation
  claim_empty notify inner =
      let (owner, inner') = next_refresh_owner inner in
      elim owner [
        | err e ↦ (err e, inner')
        | ok o ↦ elim (next_generation inner'.state) [
          | err e ↦ (err e, inner')
          | ok g ↦ (
            ok (act (acquire g (armed o))),
            record inner' { state = refreshing notify g o RefreshPrevious.empty },
          )
        ]
      ]

  -- The arm of a failed slot, `now` being the one reading of the clock.
  retry_failed :
      ℕ
      → ℕ
      → AuthError
      → Option ℕ
      → CredentialSlotInner T
      → Result AuthError (Turn T) × CredentialSlotInner T
  unfolding claim next_generation
  retry_failed notify now error retry_after inner =
      if is_some_and retry_after (λ retry_at. ltb now retry_at)
      then (err error, inner)
      else elim (next_generation inner.state) [
        | err e ↦ (err e, inner)
        | ok g ↦ claim notify g (RefreshPrevious.failed error retry_after) (acquire g) inner
      ]

module _ {T : Type 0} (expires_at : T → Option ℕ) where
  -- The second arm of a valid slot: the clock is read again for the reason.
  renew_valid :
      ℕ
      → ℕ
      → AuthStepPolicy
      → T
      → ℕ
      → CredentialSlotInner T
      → Result AuthError (Turn T) × CredentialSlotInner T
  unfolding claim next_generation
  renew_valid notify later policy value generation inner = elim (next_generation inner.state) [
    | err e ↦ (err e, inner)
    | ok g ↦ elim (credential_refresh_reason expires_at value policy later) [
      | err e ↦ (err e, inner)
      | ok reason ↦
          claim notify g (RefreshPrevious.valid value generation)
            (λ guard. refresh value g guard (get_or reason expiring_soon)) inner
    ]
  ]

  poll_valid :
      ℕ
      → ℕ
      → ℕ
      → AuthStepPolicy
      → T
      → ℕ
      → CredentialSlotInner T
      → Result AuthError (Turn T) × CredentialSlotInner T
  unfolding renew_valid
  poll_valid notify now later policy value generation inner =
      elim (credential_refresh_reason expires_at value policy now) [
        | err e ↦ (err e, inner)
        | ok none ↦ (ok (leased (record { value = value; generation = generation })), inner)
        | ok (some _) ↦ renew_valid notify later policy value generation inner
      ]

  poll_state :
      ℕ
      → ℕ
      → ℕ
      → AuthStepPolicy
      → CredentialSlotState T
      → CredentialSlotInner T
      → Result AuthError (Turn T) × CredentialSlotInner T
  unfolding poll_valid retry_failed claim_empty
  poll_state notify now later policy (CredentialSlotState.valid value generation) inner =
      poll_valid notify now later policy value generation inner
  poll_state notify now later policy (refreshing current _ owner _) inner =
      (ok (if owner == owner then act (wait current) else again), inner)
  poll_state notify now later policy (CredentialSlotState.failed _ error retry_after) inner =
      retry_failed notify now error retry_after inner
  poll_state notify now later policy (CredentialSlotState.empty _) inner = claim_empty notify inner

  -- The critical section of `get_or_refresh`, with two readings of the clock.
  unfoldable pub poll_slot :
      ℕ
      → ℕ
      → ℕ
      → AuthStepPolicy
      → CredentialSlotInner T
      → Result AuthError (Turn T) × CredentialSlotInner T
  unfolding poll_state
  poll_slot notify now later policy inner = poll_state notify now later policy inner.state inner
