-- ===== src/Auth/Slot/Generations.antt =====
-- concord_core/src/auth/credentials.rs: how the critical sections move the slot's generation.
use concord_api.Base.{ℕ, ◌+◌, ◌*◌, ◌≤◌, ◌≡◌, refl, ◌∙◌, Option, some, Result, ok, err, arith}
use concord_api.Auth.Errors.{AuthError}
use concord_api.Auth.Slot.{
  AuthStepPolicy, RefreshPrevious, CredentialSlotState, CredentialSlotInner, RefreshGuard,
  refreshing,
}
use concord_api.Auth.Slot.Parts.{next_generation, next_refresh_owner}
use concord_api.Auth.Slot.Poll.{poll_slot}
use concord_api.Auth.Slot.Commit.{commit_store, drop_guard}
use concord_api.Auth.Slot.Revoke.{invalidate_generation_state, set_manual, clear_manual, get_cached}

module _ {T : Type 0} where
  -- A refresh for a generation comes before what it leaves at that generation.
  abbrev pub rank : CredentialSlotState T → ℕ
  rank (refreshing notify generation owner previous) = 2 * generation
  rank (CredentialSlotState.empty generation) = 2 * generation + 1
  rank (CredentialSlotState.valid value generation) = 2 * generation + 1
  rank (CredentialSlotState.failed generation error retry_after) = 2 * generation + 1

  -- The rank never falls, and while it stays the cached lease stays.
  pub record Advances (s t : CredentialSlotState T) : Type 0 where
    pub grows : rank s ≤ rank t
    pub keeps : rank s ≡ rank t → get_cached s ≡ get_cached t

  pub Advances-refl : (s : CredentialSlotState T) → Advances s s
  Advances-refl s = record { grows = omega arith; keeps = λ _. refl }

  pub Advances-trans : {s t u : CredentialSlotState T} → Advances s t → Advances t u → Advances s u
  Advances-trans {s} {t} {u} a b = record {
    grows = omega (arith, a.grows, b.grows);
    keeps = λ e.
        a.keeps (omega (arith, a.grows, b.grows, e)) ∙ b.keeps (omega (arith, a.grows, b.grows, e));
  }

  pub Advances-cached :
      (s t : CredentialSlotState T) {v w : T} (g : ℕ)
      → Advances s t
      → get_cached s ≡ some (record { value = v; generation = g })
      → get_cached t ≡ some (record { value = w; generation = g })
      → v ≡ w
  Advances-cached (CredentialSlotState.valid a m) (CredentialSlotState.valid b n) g adv p q =
      ground (arith, adv.keeps)
  Advances-cached s t g adv p q = ground arith

  abbrev pub at : CredentialSlotState T → ℕ → CredentialSlotInner T
  at s n = record { state = s; next_owner = n }

  pub poll_slot-Advances :
      (expires_at : T → Option ℕ) (notify now later : ℕ) (policy : AuthStepPolicy)
      (s : CredentialSlotState T) (n : ℕ)
      → Advances s (poll_slot expires_at notify now later policy (at s n)).1.state
  unfolding poll_slot next_generation next_refresh_owner
  poll_slot-Advances expires_at notify now later policy (CredentialSlotState.empty g) n =
      ground arith
  poll_slot-Advances expires_at notify now later policy (CredentialSlotState.valid v g) n =
      ground arith
  poll_slot-Advances expires_at notify now later policy (refreshing m g o p) n = ground arith
  poll_slot-Advances expires_at notify now later policy (CredentialSlotState.failed g e r) n =
      ground arith

  pub commit_store-Advances :
      (attempt : ℕ) (guard : RefreshGuard) (notify : ℕ) (result : Result AuthError T) (now : ℕ)
      (s : CredentialSlotState T) (n : ℕ)
      → Advances s (commit_store attempt guard notify result now (at s n)).inner.state
  unfolding commit_store
  commit_store-Advances attempt guard notify (ok v) now (refreshing m g o p) n = ground arith
  commit_store-Advances attempt guard notify (err e) now (refreshing m g o p) n = ground arith
  commit_store-Advances attempt guard notify result now s n = ground arith

  pub drop_guard-Advances :
      (guard : RefreshGuard) (s : CredentialSlotState T) (n : ℕ)
      → Advances s (drop_guard guard (at s n)).0.state
  unfolding drop_guard
  drop_guard-Advances guard (refreshing m g o RefreshPrevious.empty) n = ground arith
  drop_guard-Advances guard (refreshing m g o (RefreshPrevious.valid v h)) n = ground arith
  drop_guard-Advances guard (refreshing m g o (RefreshPrevious.failed e r)) n = ground arith
  drop_guard-Advances guard s n = ground arith

  pub invalidate-Advances :
      (generation : Option ℕ) (s : CredentialSlotState T) (n : ℕ)
      → Advances s (invalidate_generation_state generation (at s n)).1.state
  unfolding invalidate_generation_state
  invalidate-Advances generation (refreshing m g o p) n = ground arith
  invalidate-Advances generation s n = ground arith

  pub set_manual-Advances :
      (value : T) (s : CredentialSlotState T) (n : ℕ)
      → Advances s (set_manual value (at s n)).1.state
  unfolding set_manual
  set_manual-Advances value (refreshing m g o p) n = ground arith
  set_manual-Advances value s n = ground arith

  pub clear_manual-Advances :
      (s : CredentialSlotState T) (n : ℕ) → Advances s (clear_manual (at s n)).1.state
  unfolding clear_manual
  clear_manual-Advances (refreshing m g o p) n = ground arith
  clear_manual-Advances s n = ground arith
