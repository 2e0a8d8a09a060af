-- ===== src/Auth/Tests.antt =====
-- concord_core/src/auth/credentials.rs: runs of a slot on small schedules, and the theorems at them.
use concord_api.Base.{
  ℕ, ◌+◌, ◌<◌, ◌≡◌, refl, true, ltb, is_none_or, Option, none, some, ok, err, arith, ℕ_discrete,
}
use concord_api.Auth.Errors.{auth_error, refresh_failed, expiring_soon}
use concord_api.Auth.Slot.{
  default_policy, CredentialSlotState, CredentialSlotInner, RefreshPrevious, refreshing,
  stale_owner,
}
use concord_api.Auth.Slot.Parts.{
  next_generation, next_refresh_owner, armed, credential_refresh_reason,
}
use concord_api.Auth.Slot.Poll.{poll_slot}
use concord_api.Auth.Slot.Commit.{commit_store, commit_check, drop_guard}
use concord_api.Auth.Slot.Revoke.{get_cached, set_manual, invalidate_generation_state}
use concord_api.Auth.Slot.Generations.{at}
use concord_api.Auth.Slot.Behaviour.{leased_is_fresh, dropped_refresh_restores, manual_value_stays}
use concord_api.Auth.System.{
  ready, System, start, put, poll, set_value, invalidate, Reach, call, polls, invalidates, sets,
  here, next,
}
use concord_api.Auth.System.Safety.{
  Leader, waiting-Leader, generation_names_credential, invalidated_generation_is_over,
}

-- A credential is the time at which it expires.
abbrev expires_at : ℕ → Option ℕ
expires_at v = some v

abbrev skew : ℕ
skew = default_policy.refresh_skew

opened : Unit {0}
unfolding poll_slot next_generation next_refresh_owner credential_refresh_reason commit_store
    commit_check drop_guard set_manual invalidate_generation_state poll set_value invalidate
    ℕ_discrete
opened = tt

-- Two calls on an empty slot: the first fetches the credential, the second waits for it.
abbrev called : System ℕ
called = put (put start 0 (ready default_policy)) 1 (ready default_policy)

abbrev contended : System ℕ
contended = poll expires_at (poll expires_at called 0 default_policy 7 7) 1 default_policy 8 8

contended_reached : Reach expires_at start contended
unfolding opened
contended_reached =
    next
      (next (next (next here (call 0 default_policy refl)) (call 1 default_policy refl))
        (polls 0 default_policy 7 7 refl (omega arith)))
      (polls 1 default_policy 8 8 refl (omega arith))

waiting-Leader_example : Leader expires_at contended 0
unfolding opened
waiting-Leader_example = waiting-Leader expires_at contended_reached 1 default_policy 0 refl

abbrev far : ℕ
far = 1_000_000_000_000

abbrev loaded : System ℕ
loaded = set_value start far

abbrev probed : System ℕ
probed =
    invalidate (poll expires_at (put loaded 0 (ready default_policy)) 0 default_policy 7 7) (some 9)

probed_reached : Reach expires_at loaded probed
unfolding opened
probed_reached =
    next
      (next (next here (call 0 default_policy refl))
        (polls 0 default_policy 7 7 refl (omega arith)))
      (invalidates (some 9))

generation_names_credential_example : ◌≡◌ {A = ℕ} far far
unfolding opened
generation_names_credential_example =
    generation_names_credential expires_at 1 probed_reached refl refl

leased_is_fresh_example :
    (get_cached (CredentialSlotState.valid far 3) ≡ some (record { value = far; generation = 3 }))
    × ((poll_slot expires_at 0 7 7 default_policy (at (CredentialSlotState.valid far 3) 1)).1
        ≡ at (CredentialSlotState.valid far 3) 1)
    × (is_none_or (some far) (λ e. ltb (7 + skew) e) ≡ true)
unfolding opened
leased_is_fresh_example =
    leased_is_fresh expires_at 0 7 7 default_policy (CredentialSlotState.valid far 3) 1 refl

abbrev renewing : CredentialSlotInner ℕ
renewing = at (refreshing 0 4 1 (RefreshPrevious.valid 20 3)) 2

dropped_refresh_restores_example :
    (◌≡◌ {A = ℕ} 20 20)
    × (◌≡◌ {A = ℕ} 4 (3 + 1))
    × (get_cached (drop_guard (armed 1) renewing).0.state
        ≡ some (record { value = 20; generation = 4 }))
    × (get_cached (drop_guard (armed 1) (invalidate_generation_state (some 3) renewing).1).0.state
        ≡ none)
unfolding opened
dropped_refresh_restores_example =
    dropped_refresh_restores expires_at 0 7 7 default_policy 20 3 1 {reason = expiring_soon} refl

abbrev by_hand : CredentialSlotInner ℕ
by_hand = at (CredentialSlotState.valid 50 5) 2

manual_value_stays_example :
    ((commit_store 4 (armed 1) 0 (ok 60) 9 by_hand).outcome ≡ ok stale_owner)
    × ((commit_store 4 (armed 1) 0 (ok 60) 9 by_hand).inner ≡ by_hand)
    × ((drop_guard (armed 1) by_hand).0 ≡ by_hand)
    × (◌≡◌ {A = Option ℕ} (some 0) (some 0))
unfolding opened
manual_value_stays_example = manual_value_stays 50 renewing.state 2 refl 4 (armed 1) 0 (ok 60) 9

-- The credential at generation 1 is invalidated, another is set, and the rejection comes once more.
abbrev reloaded : System ℕ
reloaded = set_value (invalidate probed (some 1)) 70

reloaded_reached : Reach expires_at (invalidate probed (some 1)) reloaded
unfolding opened
reloaded_reached = next here (sets 70)

invalidated_generation_is_over_example :
    (1 < 3)
    × (get_cached (invalidate reloaded (some 1)).inner.state
        ≡ some (record { value = 70; generation = 3 }))
unfolding opened
invalidated_generation_is_over_example =
    invalidated_generation_is_over expires_at 1 3 (omega arith) refl probed_reached reloaded_reached
      refl

-- A refresh that fails with a wait stores the error, and signals.
failed_refresh :
    (commit_store 4
      (armed 1)
      0
      (err (record (auth_error refresh_failed "no") { retry_after = some 5 }))
      9
      renewing).inner.state
    ≡ CredentialSlotState.failed 4
        (record (auth_error refresh_failed "no") { retry_after = some 5 })
        (some 14)
unfolding opened
failed_refresh = refl
