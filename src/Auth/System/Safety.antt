-- ===== src/Auth/System/Safety.antt =====
-- concord_core/src/auth/credentials.rs: what no schedule of callers can break.
use concord_api.Base.{
  ℕ, ◌+◌, ◌*◌, ◌≤◌, ◌<◌, ◌≡◌, refl, sym, ◌∙◌, subst, Option, some, arith, u64_max,
}
use concord_api.Auth.Slot.{AuthStepPolicy, CredentialSlotState, refreshing}
use concord_api.Auth.Slot.Parts.{owner_of, notify_of}
use concord_api.Auth.Slot.Commit.{commit_store}
use concord_api.Auth.Slot.Revoke.{get_cached, invalidate_generation_state}
use concord_api.Auth.Slot.Generations.{
  rank, at, Advances, Advances-refl, Advances-trans, Advances-cached, poll_slot-Advances,
  commit_store-Advances, drop_guard-Advances, invalidate-Advances, set_manual-Advances,
  clear_manual-Advances,
}
use concord_api.Auth.System.{
  waiting, System, start, poll, answer, commit, abandon, set_value, clear_value, invalidate, Step,
  Reach, call, polls, answers, commits, drops_idle, drops_waiting, drops_calling, sets, clears,
  invalidates, here, next,
}
use concord_api.Auth.System.Invariant.{holds, TaskOk}
use concord_api.Auth.System.Preserve.{start-Inv, Reach-Inv}

module _ {T : Type 0} (expires_at : T → Option ℕ) where
  -- A refresh that the slot is in, seen with the one call that carries it out.
  pub record Leader (s : System T) (notify : ℕ) : Type 0 where
    pub owner : ℕ
    pub task : ℕ
    pub owned : owner_of s.inner.state ≡ some owner
    pub signalled : notify_of s.inner.state ≡ some notify
    pub held : holds (s.tasks task) ≡ some owner
    pub alone : (j : ℕ) → holds (s.tasks j) ≡ some owner → j ≡ task

  owner-of_notify :
      (s : CredentialSlotState T) (n : ℕ) → notify_of s ≡ some n → (o : ℕ) × (owner_of s ≡ some o)
  owner-of_notify (refreshing m g o p) n e = (o, refl)
  owner-of_notify s n e = cc

  -- In every reachable state, a call that waits on a notify waits for the refresh that the slot is
  -- in, and exactly one call holds the guard of that refresh.
  pub waiting-Leader :
      {s : System T}
      → Reach expires_at start s
      → (i : ℕ) (policy : AuthStepPolicy) (n : ℕ) → s.tasks i ≡ waiting policy n
      → Leader s n
  waiting-Leader {s} r i policy n e =
      let inv = Reach-Inv expires_at start-Inv r in
      let signalled = subst (TaskOk s.inner) e (inv.tasks_ok i) in
      let (o, owned) = owner-of_notify s.inner.state n signalled in
      let (task, held) = inv.led o owned in
      record {
        owner = o;
        task = task;
        owned = owned;
        signalled = signalled;
        held = held;
        alone = λ j h. inv.unique j task o h held;
      }

  Step-Advances : {s t : System T} → Step expires_at s t → Advances s.inner.state t.inner.state
  unfolding poll answer commit abandon set_value clear_value invalidate
  Step-Advances {s} (call i policy e) = Advances-refl s.inner.state
  Step-Advances {s} (polls i policy now later e le) =
      poll_slot-Advances expires_at s.next_notify now later policy s.inner.state s.inner.next_owner
  Step-Advances {s} (answers i policy g guard r e) = Advances-refl s.inner.state
  Step-Advances {s} (commits i policy g guard notify r now e) =
      let c = commit_store g guard notify r now s.inner in
      Advances-trans (commit_store-Advances g guard notify r now s.inner.state s.inner.next_owner)
        (drop_guard-Advances c.guard c.inner.state c.inner.next_owner)
  Step-Advances {s} (drops_idle i policy e) = Advances-refl s.inner.state
  Step-Advances {s} (drops_waiting i policy n e) = Advances-refl s.inner.state
  Step-Advances {s} (drops_calling i policy g guard e) =
      drop_guard-Advances guard s.inner.state s.inner.next_owner
  Step-Advances {s} (sets value) = set_manual-Advances value s.inner.state s.inner.next_owner
  Step-Advances {s} clears = clear_manual-Advances s.inner.state s.inner.next_owner
  Step-Advances {s} (invalidates generation) =
      invalidate-Advances generation s.inner.state s.inner.next_owner

  Reach-Advances : {s t : System T} → Reach expires_at s t → Advances s.inner.state t.inner.state
  Reach-Advances {s} here = Advances-refl s.inner.state
  Reach-Advances (next r st) = Advances-trans (Reach-Advances r) (Step-Advances st)

  -- Along any schedule a generation names one credential: if the cache holds `v` at a generation and
  -- later holds `w` at the same generation, then `v` is `w`.
  pub generation_names_credential :
      {s t : System T} {v w : T} (g : ℕ)
      → Reach expires_at s t
      → get_cached s.inner.state ≡ some (record { value = v; generation = g })
      → get_cached t.inner.state ≡ some (record { value = w; generation = g })
      → v ≡ w
  generation_names_credential {s} {t} g r p q =
      Advances-cached s.inner.state t.inner.state g (Reach-Advances r) p q

  -- An invalidation for a generation moves a slot that is at it, and valid, to a later one.
  invalidated_rank :
      (st : CredentialSlotState T) (n g : ℕ) (v : T)
      → g < u64_max
      → 2 * g + 1 ≤ rank st
      → (2 * g + 1 ≡ rank st → get_cached st ≡ some (record { value = v; generation = g }))
      → 2 * g + 1 < rank (invalidate_generation_state (some g) (at st n)).1.state
  unfolding invalidate_generation_state
  invalidated_rank (refreshing m k o p) n g v below low same = ground arith
  invalidated_rank (CredentialSlotState.empty k) n g v below low same = ground arith
  invalidated_rank (CredentialSlotState.failed k e r) n g v below low same = ground arith
  invalidated_rank (CredentialSlotState.valid w k) n g v below low same = ground arith

  cached_rank :
      (st : CredentialSlotState T) (v : T) (g : ℕ)
      → get_cached st ≡ some (record { value = v; generation = g })
      → rank st ≡ 2 * g + 1
  cached_rank (CredentialSlotState.valid w k) v g e = ground (arith, e)
  cached_rank st v g e = cc

  -- A rejection that comes late, for an earlier generation, spares the cached credential.
  late_invalidation :
      (st : CredentialSlotState T) (n g h : ℕ) (w : T)
      → g < h
      → get_cached st ≡ some (record { value = w; generation = h })
      → get_cached (invalidate_generation_state (some g) (at st n)).1.state
        ≡ some (record { value = w; generation = h })
  unfolding invalidate_generation_state
  late_invalidation (CredentialSlotState.valid x k) n g h w less e = ground (arith, e)
  late_invalidation st n g h w less e = cc

  -- Once the cache has held a credential at generation `g`, below the last generation, and `g` was
  -- invalidated at any later time, every credential that the cache holds after that, whatever the calls,
  -- refreshes, drops and manual updates between, has a later generation; and it stays in the cache when
  -- another rejection for `g` comes late.
  pub invalidated_generation_is_over :
      {s m t : System T} {v w : T} (g h : ℕ)
      → g < u64_max
      → get_cached s.inner.state ≡ some (record { value = v; generation = g })
      → Reach expires_at s m
      → Reach expires_at (invalidate m (some g)) t
      → get_cached t.inner.state ≡ some (record { value = w; generation = h })
      → (g < h)
        × (get_cached (invalidate t (some g)).inner.state
            ≡ some (record { value = w; generation = h }))
  unfolding invalidate
  invalidated_generation_is_over {s} {m} {t} {v} {w} g h below held before after cached =
      let first = Reach-Advances before in
      let later = Reach-Advances after in
      let was = cached_rank s.inner.state v g held in
      let is = cached_rank t.inner.state w h cached in
      let moved =
        invalidated_rank m.inner.state m.inner.next_owner g v below
          (omega (arith, first.grows, was)) (λ e. sym (first.keeps (was ∙ e)) ∙ held) in
      let less : (g < h) = omega (arith, later.grows, moved, is) in
      (less, late_invalidation t.inner.state t.inner.next_owner g h w less cached)
