-- ===== src/Auth/System/Invariant.antt =====
-- concord_core/src/auth/credentials.rs: what holds of a slot and its callers between two steps.
use concord_api.Base.{
  ℕ, ◌≤◌, ◌<◌, ◌≡◌, refl, sym, ◌∙◌, subst, ◌≢◌, ◌⊎◌, inl, inr, false, Option, none, some, arith,
  ℕ_discrete,
}
use concord_api.Auth.Slot.{CredentialSlotInner, RefreshGuard}
use concord_api.Auth.Slot.Parts.{notify_of, owner_of, generation_of}
use concord_api.Auth.System.{Task, absent, ready, waiting, calling, committing, returned, wake}

module _ {T : Type 0} where
  -- The owner whose guard a task holds.
  abbrev pub holds : Task T → Option ℕ
  holds (calling policy g guard) = some guard.owner
  holds (committing policy g guard notify r) = some guard.owner
  holds absent = none
  holds (ready policy) = none
  holds (waiting policy n) = none
  holds (returned r) = none

  pub record Holder (inner : CredentialSlotInner T) (g : ℕ) (guard : RefreshGuard) : Type 0 where
    pub fresh : guard.owner < inner.next_owner
    pub armed : guard.disarmed ≡ false
    pub attempt : owner_of inner.state ≡ some guard.owner → generation_of inner.state ≡ g

  -- What each task may rely on.
  abbrev pub TaskOk : CredentialSlotInner T → Task T → Type 0
  TaskOk inner (waiting policy n) = notify_of inner.state ≡ some n
  TaskOk inner (calling policy g guard) = Holder inner g guard
  TaskOk inner (committing policy g guard notify r) =
      Holder inner g guard
      × (owner_of inner.state ≡ some guard.owner → notify_of inner.state ≡ some notify)
  TaskOk inner absent = Unit
  TaskOk inner (ready policy) = Unit
  TaskOk inner (returned r) = Unit

  abbrev pub OwnerFresh : CredentialSlotInner T → Type 0
  OwnerFresh inner = (o : ℕ) → owner_of inner.state ≡ some o → o < inner.next_owner

  pub record Inv (inner : CredentialSlotInner T) (tasks : ℕ → Task T) : Type 0 where
    pub owner_fresh : OwnerFresh inner
    pub tasks_ok : (i : ℕ) → TaskOk inner (tasks i)
    pub unique : (i j o : ℕ) → holds (tasks i) ≡ some o → holds (tasks j) ≡ some o → i ≡ j
    pub led : (o : ℕ) → owner_of inner.state ≡ some o → (i : ℕ) × (holds (tasks i) ≡ some o)

  -- What a critical section may do to the slot, so that the tasks that it wakes stay right.
  pub record Shift (inner inner' : CredentialSlotInner T) (signal : Option ℕ) : Type 0 where
    pub grows : inner.next_owner ≤ inner'.next_owner
    pub owner_fresh : OwnerFresh inner → OwnerFresh inner'
    pub same :
        (o : ℕ)
        → o < inner.next_owner
        → owner_of inner'.state ≡ some o
        → (owner_of inner.state ≡ some o)
          × (generation_of inner'.state ≡ generation_of inner.state)
          × (notify_of inner'.state ≡ notify_of inner.state)
    pub woken :
        (n : ℕ)
        → notify_of inner.state ≡ some n
        → (notify_of inner'.state ≡ some n) ⊎ (signal ≡ some n)

  pub holds-wake : (signal : Option ℕ) (t : Task T) → holds (wake signal t) ≡ holds t
  holds-wake none t = refl
  holds-wake (some n) (waiting policy m) = ground arith
  holds-wake (some n) t = refl

  Holder-Shift :
      {inner inner' : CredentialSlotInner T} {signal : Option ℕ} {g : ℕ} {guard : RefreshGuard}
      → Shift inner inner' signal
      → Holder inner g guard
      → Holder inner' g guard
  Holder-Shift {guard} sh h = record {
    fresh = omega (arith, sh.grows, h.fresh);
    armed = h.armed;
    attempt = λ e. let k = sh.same guard.owner h.fresh e in k.1 ∙ h.attempt k.0;
  }

  pub TaskOk-Shift :
      {inner inner' : CredentialSlotInner T} {signal : Option ℕ}
      → Shift inner inner' signal
      → (t : Task T) → TaskOk inner t
      → TaskOk inner' (wake signal t)
  TaskOk-Shift {signal = none} sh (waiting policy m) h = ground (arith, sh.woken m h)
  TaskOk-Shift {signal = some n} sh (waiting policy m) h = ground (arith, sh.woken m h)
  TaskOk-Shift {signal = none} sh (calling policy g guard) h = Holder-Shift sh h
  TaskOk-Shift {signal = some n} sh (calling policy g guard) h = Holder-Shift sh h
  TaskOk-Shift {signal = none} sh (committing policy g guard m r) (h, e) =
      (Holder-Shift sh h, λ o. let k = sh.same guard.owner h.fresh o in k.2 ∙ e k.0)
  TaskOk-Shift {signal = some n} sh (committing policy g guard m r) (h, e) =
      (Holder-Shift sh h, λ o. let k = sh.same guard.owner h.fresh o in k.2 ∙ e k.0)
  TaskOk-Shift {signal = none} sh absent h = tt
  TaskOk-Shift {signal = some n} sh absent h = tt
  TaskOk-Shift {signal = none} sh (ready policy) h = tt
  TaskOk-Shift {signal = some n} sh (ready policy) h = tt
  TaskOk-Shift {signal = none} sh (returned r) h = tt
  TaskOk-Shift {signal = some n} sh (returned r) h = tt

  holder-lt :
      (inner : CredentialSlotInner T) (t : Task T) (o : ℕ)
      → TaskOk inner t
      → holds t ≡ some o
      → o < inner.next_owner
  holder-lt inner (calling policy g guard) o h e = ground arith
  holder-lt inner (committing policy g guard m r) o h e = ground arith
  holder-lt inner t o h e = cc

  -- A step of task `i` keeps the invariant, if it treats the other tasks by the rules.
  pub Inv-frame :
      {inner inner' : CredentialSlotInner T} {tasks tasks' : ℕ → Task T}
      → Inv inner tasks
      → (i : ℕ) → OwnerFresh inner'
      → ((j : ℕ) → i ≢ j → TaskOk inner' (tasks' j) × (holds (tasks' j) ≡ holds (tasks j)))
      → TaskOk inner' (tasks' i)
      → ((o : ℕ) → holds (tasks' i) ≡ some o → (holds (tasks i) ≡ some o) ⊎ (inner.next_owner ≤ o))
      → ((o : ℕ)
          → owner_of inner'.state ≡ some o
          → (holds (tasks' i) ≡ some o)
            ⊎ ((owner_of inner.state ≡ some o) × (holds (tasks i) ≢ some o)))
      → Inv inner' tasks'
  Inv-frame {inner} {inner'} {tasks} {tasks'} inv i fresh others mine own led = record {
    owner_fresh = fresh;
    tasks_ok = λ j. elim (ℕ_discrete i j) [
      | yes e ↦ subst (λ k. TaskOk inner' (tasks' k)) e mine
      | no ne ↦ (others j ne).0
    ];
    unique = λ j k o p q. elim (ℕ_discrete i j) [
      | yes e ↦ elim (ℕ_discrete i k) [
        | yes e' ↦ sym e ∙ e'
        | no ne ↦ absurd (alone k o ne (subst (λ x. holds (tasks' x) ≡ some o) (sym e) p) q)
      ]
      | no ne ↦ elim (ℕ_discrete i k) [
        | yes e' ↦ absurd (alone j o ne (subst (λ x. holds (tasks' x) ≡ some o) (sym e') q) p)
        | no ne' ↦ inv.unique j k o (sym (others j ne).1 ∙ p) (sym (others k ne').1 ∙ q)
      ]
    ];
    led = λ o e. elim (led o e) [
      | inl h ↦ (i, h)
      | inr (was, other) ↦
          let (j, h) = inv.led o was in
          let ne : i ≢ j = λ e'. other (subst (λ x. holds (tasks x) ≡ some o) (sym e') h) in
          (j, (others j ne).1 ∙ h)
    ];
  }
    where
      alone : (j o : ℕ) → i ≢ j → holds (tasks' i) ≡ some o → holds (tasks' j) ≡ some o → ⊥
      alone j o ne p q = elim (own o p) [
        | inl old ↦ ne (inv.unique i j o old (sym (others j ne).1 ∙ q))
        | inr new ↦
            absurd (
              omega (arith, holder-lt inner (tasks j) o (inv.tasks_ok j) (sym (others j ne).1 ∙ q)))
      ]
