-- ===== src/RateLimit/Windows/Pruning.antt =====
-- concord_core/src/rate_limit/governor_runtime.rs: the time of the next pruning stays in time for every
-- window.
use concord_api.Base.{
  ℕ, ◌+◌, ◌≡◌, refl, sym, subst, inl, inr, false, Bool-cases, Option, none, some, Option-cases, min,
  not, is_none_or, List, [], ◌∷◌, All, All-filter, leb, ltb, ◌==◌, beq, arith, instant_max,
  if_either, take, ◌-◌, length,
}
use concord_api.RateLimit.Windows.{
  GovernorWindowSpec, GovernorWindowSpec-discrete, GovernorWindowState, Windows, WindowLimits,
  touch, remove, remove_all, sort_by_age, ages, evict_oldest_windows, retain_used,
  next_window_prune_at, earliest, deadline, prune_windows, prune_windows_if_needed,
  note_window_prune_at, make_room,
}
use concord_api.RateLimit.Windows.Bounds.{note-windows}
use concord_api.RateLimit.Windows.Timely.{InTime, Timely}

module _ {L : Type 0} where
  -- All windows were last used at times of which this holds.
  abbrev UsedAt : (ℕ → Type 0) → Windows L → Type 0
  UsedAt P = All (λ x. P x.1.last_used)

  remove_all-UsedAt :
      (P : ℕ → Type 0) (m : Windows L) (xs : List (GovernorWindowSpec × ℕ))
      → UsedAt P m
      → UsedAt P (remove_all m xs)
  remove_all-UsedAt P m [] h = h
  remove_all-UsedAt P m ((s, t) ∷ xs) h =
      remove_all-UsedAt P (remove m s) xs
        (All-filter (λ x. P x.1.last_used) (λ x. not (beq GovernorWindowSpec-discrete x.0 s)) m h)

  evict-UsedAt :
      (P : ℕ → Type 0) (m : Windows L) (n : ℕ) → UsedAt P m → UsedAt P (evict_oldest_windows m n)
  unfolding evict_oldest_windows
  evict-UsedAt P m n h = remove_all-UsedAt P m (take n (sort_by_age (ages m))) h

  touch-UsedAt :
      (P : ℕ → Type 0) (m : Windows L) (spec : GovernorWindowSpec) (now : ℕ)
      → P now
      → UsedAt P m
      → UsedAt P (touch m spec now)
  touch-UsedAt P [] spec now p h = tt
  touch-UsedAt P ((s, e) ∷ m) spec now p (h, hs) =
      if_either (UsedAt P) (beq GovernorWindowSpec-discrete s spec) (p, hs)
        (h, touch-UsedAt P m spec now p hs)

  UsedAt-map : (P Q : ℕ → Type 0) (m : Windows L) → ((t : ℕ) → P t → Q t) → UsedAt P m → UsedAt Q m
  UsedAt-map P Q [] f h = tt
  UsedAt-map P Q ((s, e) ∷ m) f (h, hs) = (f e.last_used h, UsedAt-map P Q m f hs)

module _ (limits : WindowLimits) where
  earliest-InTime : (a b : Option ℕ) (t : ℕ) → InTime limits b t → InTime limits (earliest a b) t
  earliest-InTime none b t h = h
  earliest-InTime (some a) b t (inl h) = inl h
  earliest-InTime (some a) none t (inr (d, e, h)) = absurd (ground (arith, e))
  earliest-InTime (some a) (some b) t (inr (d, e, h)) = inr (min a b, refl, ground (arith, e, h))

  deadline-InTime :
      (b : Option ℕ) (t : ℕ)
      → (limits.window_idle_ttl == 0) ≡ false
      → InTime limits (earliest (deadline limits t) b) t
  deadline-InTime none t z = elim (Bool-cases (leb (t + limits.window_idle_ttl) instant_max)) [
    | inl f ↦ inr (t + limits.window_idle_ttl, ground (arith, z, f), omega arith)
    | inr f ↦ inl (ground (arith, f))
  ]
  deadline-InTime (some b) t z = elim (Bool-cases (leb (t + limits.window_idle_ttl) instant_max)) [
    | inl f ↦ inr (min (t + limits.window_idle_ttl) b, ground (arith, z, f), omega arith)
    | inr f ↦ inl (ground (arith, f))
  ]

  module _ {L : Type 0} where
    next-UsedAt :
        (m : Windows L)
        → (limits.window_idle_ttl == 0) ≡ false
        → UsedAt (InTime limits (next_window_prune_at limits m)) m
    next-UsedAt [] z = tt
    next-UsedAt ((s, e) ∷ m) z = (
      deadline-InTime (next_window_prune_at limits m) e.last_used z,
      UsedAt-map (InTime limits (next_window_prune_at limits m)) _ m
          (earliest-InTime (deadline limits e.last_used) (next_window_prune_at limits m))
          (next-UsedAt m z),
    )

    -- The cases of the time to live.
    by_ttl :
        (state : GovernorWindowState L)
        → ((limits.window_idle_ttl == 0) ≡ false
            → UsedAt (InTime limits state.next_prune_at) state.windows)
        → Timely limits state
    by_ttl state f = elim (Bool-cases (limits.window_idle_ttl == 0)) [
      | inl z ↦ inl (ground (arith, z))
      | inr z ↦ inr (f z)
    ]

    in_time :
        (state : GovernorWindowState L)
        → Timely limits state
        → (limits.window_idle_ttl == 0) ≡ false
        → UsedAt (InTime limits state.next_prune_at) state.windows
    in_time state (inl e) z = absurd (ground (arith, e, z))
    in_time state (inr h) z = h

    pub prune-Timely :
        (state : GovernorWindowState L) (now : ℕ)
        → Timely limits state
        → Timely limits (prune_windows_if_needed limits state now)
    unfolding prune_windows
    prune-Timely state now h =
        let used = retain_used limits state.windows now in
        let kept = evict_oldest_windows used (length used - limits.max_window_entries) in
        if_either (λ (st : GovernorWindowState L). Timely limits st)
          (is_none_or state.next_prune_at (λ deadline. ltb now deadline)) h
          (by_ttl (record { windows = kept; next_prune_at = next_window_prune_at limits kept })
            (next-UsedAt kept))

    pub make_room-Timely :
        (state : GovernorWindowState L)
        → Timely limits state
        → Timely limits (record state { windows = make_room limits state.windows })
    make_room-Timely state h =
        by_ttl (record state { windows = make_room limits state.windows })
          (λ z.
            if_either (UsedAt (InTime limits state.next_prune_at))
              (leb limits.max_window_entries (length state.windows))
              (evict-UsedAt (InTime limits state.next_prune_at) state.windows _ (in_time state h z))
              (in_time state h z))

    noted :
        (state : GovernorWindowState L) (now t : ℕ)
        → (limits.window_idle_ttl == 0) ≡ false
        → InTime limits state.next_prune_at t
        → InTime limits (note_window_prune_at limits state now).next_prune_at t
    noted state now t z (inl h) = inl h
    noted state now t z (inr (d, e, h)) =
        elim (Bool-cases (leb (now + limits.window_idle_ttl) instant_max)) [
          | inl f ↦
              inr (min d (now + limits.window_idle_ttl), ground (arith, z, f, e), omega (arith, h))
          | inr f ↦ inr (d, ground (arith, z, f, e), h)
        ]

    noted_now :
        (state : GovernorWindowState L) (now : ℕ)
        → (limits.window_idle_ttl == 0) ≡ false
        → InTime limits (note_window_prune_at limits state now).next_prune_at now
    noted_now state now z = elim (Bool-cases (leb (now + limits.window_idle_ttl) instant_max)) [
      | inr f ↦ inl (ground (arith, f))
      | inl f ↦ elim (Option-cases state.next_prune_at) [
        | inl e ↦ inr (now + limits.window_idle_ttl, ground (arith, z, f, e), omega arith)
        | inr (d, e) ↦
            inr (min d (now + limits.window_idle_ttl), ground (arith, z, f, e), omega arith)
      ]
    ]

    -- The windows with one that is used now are in time after the next pruning was noted.
    note-Timely :
        (state : GovernorWindowState L) (m : Windows L) (now : ℕ)
        → ((P : ℕ → Type 0) → P now → UsedAt P state.windows → UsedAt P m)
        → Timely limits state
        → Timely limits (note_window_prune_at limits (record state { windows = m }) now)
    note-Timely state m now used h =
        let after = note_window_prune_at limits (record state { windows = m }) now in
        let P = InTime limits after.next_prune_at in
        by_ttl after (λ z.
          subst (UsedAt P) (sym (note-windows limits (record state { windows = m }) now)) (
            used P (noted_now (record state { windows = m }) now z) (
              UsedAt-map (InTime limits state.next_prune_at) P state.windows
                (λ t. noted (record state { windows = m }) now t z) (in_time state h z))))

    pub touch-Timely :
        (state : GovernorWindowState L) (spec : GovernorWindowSpec) (now : ℕ)
        → Timely limits state
        → Timely limits (
            note_window_prune_at limits
              (record state { windows = touch state.windows spec now })
              now)
    touch-Timely state spec now h =
        note-Timely state (touch state.windows spec now) now
          (λ P p u. touch-UsedAt P state.windows spec now p u) h

    pub new-Timely :
        (state : GovernorWindowState L) (spec : GovernorWindowSpec) (limiter : L) (now : ℕ)
        → Timely limits state
        → Timely limits (
            note_window_prune_at limits
              (record state {
                windows =
                    (spec, record { limiter = limiter; last_used = now })
                    ∷ make_room limits state.windows;
              })
              now)
    new-Timely state spec limiter now h =
        note-Timely (record state { windows = make_room limits state.windows })
          ((spec, record { limiter = limiter; last_used = now }) ∷ make_room limits state.windows)
          now (λ P p u. (p, u)) (make_room-Timely state h)
