-- ===== src/Auth/System/Frames.antt =====
-- concord_core/src/auth/credentials.rs: the two ways in which a step changes a slot and its callers.
use concord_api.Base.{
  ℕ, ◌≤◌, ◌≡◌, sym, ap, subst, ◌∙◌, ◌≢◌, ◌⊎◌, inl, inr, Option, some, update, update_self,
  update_ne,
}
use concord_api.Auth.Slot.{CredentialSlotInner}
use concord_api.Auth.Slot.Parts.{owner_of}
use concord_api.Auth.System.{Task, wake}
use concord_api.Auth.System.Invariant.{
  holds, TaskOk, Inv, Shift, holds-wake, TaskOk-Shift, Inv-frame,
}

module _ {T : Type 0} where
  -- A critical section of no task, with the wakes that it makes.
  pub Inv-settle :
      {inner inner' : CredentialSlotInner T} {tasks : ℕ → Task T} (signal : Option ℕ)
      → Inv inner tasks
      → Shift inner inner' signal
      → ((o : ℕ) → owner_of inner'.state ≡ some o → owner_of inner.state ≡ some o)
      → Inv inner' (λ j. wake signal (tasks j))
  Inv-settle {tasks} signal inv sh same = record {
    owner_fresh = sh.owner_fresh inv.owner_fresh;
    tasks_ok = λ i. TaskOk-Shift sh (tasks i) (inv.tasks_ok i);
    unique = λ i j o p q.
        inv.unique i j o (sym (holds-wake signal (tasks i)) ∙ p)
          (sym (holds-wake signal (tasks j)) ∙ q);
    led = λ o e. let (i, h) = inv.led o (same o e) in (i, holds-wake signal (tasks i) ∙ h);
  }

  -- A critical section of task `i`, which then is `t`.
  pub Inv-turn :
      {inner inner' : CredentialSlotInner T} {tasks : ℕ → Task T} (signal : Option ℕ) (i : ℕ)
      (t : Task T)
      → Inv inner tasks
      → Shift inner inner' signal
      → TaskOk inner' (wake signal t)
      → ((o : ℕ) → holds t ≡ some o → (holds (tasks i) ≡ some o) ⊎ (inner.next_owner ≤ o))
      → ((o : ℕ)
          → owner_of inner'.state ≡ some o
          → (holds t ≡ some o) ⊎ ((owner_of inner.state ≡ some o) × (holds (tasks i) ≢ some o)))
      → Inv inner' (λ j. wake signal (update tasks i t j))
  Inv-turn {inner} {inner'} {tasks} signal i t inv sh mine own led =
      Inv-frame inv i (sh.owner_fresh inv.owner_fresh)
        (λ j ne. (
          subst (λ u. TaskOk inner' (wake signal u)) (sym (update_ne tasks i j t ne))
              (TaskOk-Shift sh (tasks j) (inv.tasks_ok j)),
          ap (λ u. holds (wake signal u)) (update_ne tasks i j t ne) ∙ holds-wake signal (tasks j),
        ))
        (subst (λ u. TaskOk inner' (wake signal u)) (sym (update_self tasks i t)) mine)
        (λ o e. own o (sym now ∙ e))
        (λ o e. elim (led o e) [ inl h ↦ inl (now ∙ h) | inr h ↦ inr h ])
    where
      now : holds (wake signal (update tasks i t i)) ≡ holds t
      now = ap (λ u. holds (wake signal u)) (update_self tasks i t) ∙ holds-wake signal t
