-- ===== src/RateLimit/Windows/Bounds.antt =====
-- concord_core/src/rate_limit/governor_runtime.rs: the bound on the number of windows.
use concord_api.Base.{
  ℕ, suc, ◌+◌, ◌-◌, ◌≤◌, ◌≡◌, refl, sym, subst, Bool, false, inl, inr, Bool-cases, none,
  Option-cases, is_none_or, [], ◌∷◌, length, filter, leb, ltb, ◌==◌, Result-cases, beq, IsNodup,
  arith, if_either,
}
use concord_api.RateLimit.{RateLimitContext}
use concord_api.RateLimit.Windows.{
  GovernorWindowSpec, GovernorWindowSpec-discrete, GovernorWindowEntry, GovernorWindowState,
  Windows, WindowLimits, Quota, find, touch, ages, evict_oldest_windows, retain_used, prune_windows,
  prune_windows_if_needed, note_window_prune_at, make_room, add_window, limiter_for,
  quota_for_window,
}
use concord_api.RateLimit.Windows.Sorting.{has, specs, IsMap}
use concord_api.RateLimit.Windows.Eviction.{evict-IsMap, evict-length, evict-absent}

module _ {L : Type 0} where
  pub has-filter :
      (p : GovernorWindowSpec × GovernorWindowEntry L → Bool) (m : Windows L)
      (s : GovernorWindowSpec)
      → has (ages m) s ≡ false
      → has (ages (filter p m)) s ≡ false
  has-filter p [] s h = refl
  has-filter p ((a, e) ∷ m) s h = let rest = has-filter p m s (ground arith) in ground arith

  filter-IsMap :
      (p : GovernorWindowSpec × GovernorWindowEntry L → Bool) (m : Windows L)
      → IsMap (ages m)
      → IsMap (ages (filter p m))
  filter-IsMap p [] h = tt
  filter-IsMap p ((a, e) ∷ m) (h, hs) =
      let rest = filter-IsMap p m hs in
      let absent = has-filter p m a h in
      elim (Bool-cases (p (a, e))) [ inl f ↦ ground arith | inr f ↦ ground arith ]

  pub filter-length :
      (p : GovernorWindowSpec × GovernorWindowEntry L → Bool) (m : Windows L)
      → length (filter p m) ≤ length m
  filter-length p [] = omega arith
  filter-length p (x ∷ m) = ground (arith, filter-length p m)

  touch-specs :
      (m : Windows L) (s : GovernorWindowSpec) (now : ℕ)
      → specs (ages (touch m s now)) ≡ specs (ages m)
  touch-specs [] s now = refl
  touch-specs ((a, e) ∷ m) s now = elim (Bool-cases (beq GovernorWindowSpec-discrete a s)) [
    | inl f ↦ ground arith
    | inr f ↦ ground (arith, touch-specs m s now)
  ]

  touch-length :
      (m : Windows L) (s : GovernorWindowSpec) (now : ℕ) → length (touch m s now) ≡ length m
  touch-length [] s now = refl
  touch-length ((a, e) ∷ m) s now = ground (arith, touch-length m s now)

  pub find-none :
      (m : Windows L) (s : GovernorWindowSpec) → find m s ≡ none → has (ages m) s ≡ false
  find-none [] s h = refl
  find-none ((a, e) ∷ m) s h = let rest = find-none m s (ground arith) in ground arith

  module _ (limits : WindowLimits) where
    -- A map of windows within the cap.
    pub record Bounded (m : Windows L) : Type 0 where
      pub map : IsMap (ages m)
      pub cap : length m ≤ limits.max_window_entries

    evict-Bounded :
        (m : Windows L)
        → IsMap (ages m)
        → Bounded (evict_oldest_windows m (length m - limits.max_window_entries))
    evict-Bounded m h = record {
      map = evict-IsMap m _ h;
      cap = omega (arith, evict-length m (length m - limits.max_window_entries) h);
    }

    pub retain-IsMap :
        (m : Windows L) (now : ℕ) → IsMap (ages m) → IsMap (ages (retain_used limits m now))
    retain-IsMap m now h =
        if_either (λ m'. IsMap (ages m')) (limits.window_idle_ttl == 0) h
          (filter-IsMap (λ x. leb (now - x.1.last_used) limits.window_idle_ttl) m h)

    prune-Bounded :
        (state : GovernorWindowState L) (now : ℕ)
        → Bounded state.windows
        → Bounded (prune_windows_if_needed limits state now).windows
    unfolding prune_windows
    prune-Bounded state now h =
        if_either (λ (st : GovernorWindowState L). Bounded st.windows)
          (is_none_or state.next_prune_at (λ deadline. ltb now deadline)) h
          (evict-Bounded (retain_used limits state.windows now)
            (retain-IsMap state.windows now h.map))

    pub note-windows :
        (state : GovernorWindowState L) (now : ℕ)
        → (note_window_prune_at limits state now).windows ≡ state.windows
    note-windows state now = ground arith

    make_room-IsMap : (m : Windows L) → IsMap (ages m) → IsMap (ages (make_room limits m))
    make_room-IsMap m h =
        if_either (λ m'. IsMap (ages m')) (leb limits.max_window_entries (length m))
          (evict-IsMap m _ h) h

    -- There is room for one more.
    make_room-length :
        (m : Windows L)
        → 1 ≤ limits.max_window_entries
        → IsMap (ages m)
        → suc (length (make_room limits m)) ≤ limits.max_window_entries
    make_room-length m pos h =
        ground (arith, evict-length m (length m + 1 - limits.max_window_entries) h)

    pub make_room-absent :
        (m : Windows L) (s : GovernorWindowSpec)
        → has (ages m) s ≡ false
        → has (ages (make_room limits m)) s ≡ false
    make_room-absent m s h =
        if_either (λ m'. has (ages m') s ≡ false) (leb limits.max_window_entries (length m))
          (evict-absent m _ s h) h

    add_window-Bounded :
        (direct : Quota → L) (ctx : RateLimitContext) (spec : GovernorWindowSpec) (now : ℕ)
        (state : GovernorWindowState L)
        → 1 ≤ limits.max_window_entries
        → find state.windows spec ≡ none
        → Bounded state.windows
        → Bounded (add_window limits direct ctx spec now state).1.windows
    add_window-Bounded direct ctx spec now state pos absent h =
        let map = make_room-IsMap state.windows h.map in
        let cap = make_room-length state.windows pos h.map in
        let new = make_room-absent state.windows spec (find-none state.windows spec absent) in
        elim (Result-cases (quota_for_window ctx spec.window)) [
          | inl (quota, e) ↦
              let kept =
                note-windows
                  (record state {
                    windows =
                        (spec, record { limiter = direct quota; last_used = now })
                        ∷ make_room limits state.windows;
                  })
                  now in
              record { map = ground arith; cap = ground arith }
          | inr (x, e) ↦ record { map = ground arith; cap = ground arith }
        ]

    touch-Bounded :
        (m : Windows L) (spec : GovernorWindowSpec) (now : ℕ)
        → Bounded m
        → Bounded (touch m spec now)
    touch-Bounded m spec now h = record {
      map = subst (IsNodup GovernorWindowSpec-discrete) (sym (touch-specs m spec now)) h.map;
      cap = omega (arith, h.cap, touch-length m spec now);
    }

    -- Where at least one window is allowed, a call of `limiter_for` keeps each window once and no more
    -- windows than allowed, also where it fails.
    pub limiter_for-Bounded :
        (direct : Quota → L) (ctx : RateLimitContext) (spec : GovernorWindowSpec) (now : ℕ)
        (state : GovernorWindowState L)
        → 1 ≤ limits.max_window_entries
        → Bounded state.windows
        → Bounded (limiter_for limits direct ctx spec now state).1.windows
    unfolding limiter_for
    limiter_for-Bounded direct ctx spec now state pos h =
        let pruned = prune_windows_if_needed limits state now in
        let bounded = prune-Bounded state now h in
        elim (Option-cases (find pruned.windows spec)) [
          | inl e ↦
              let added = add_window-Bounded direct ctx spec now pruned pos e bounded in
              let map = added.map in
              let cap = added.cap in record { map = ground arith; cap = ground arith }
          | inr (entry, e) ↦
              let touched = touch-Bounded pruned.windows spec now bounded in
              let kept =
                note-windows (record pruned { windows = touch pruned.windows spec now }) now in
              let map = touched.map in
              let cap = touched.cap in record { map = ground arith; cap = ground arith }
        ]
