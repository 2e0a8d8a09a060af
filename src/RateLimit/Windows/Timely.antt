-- ===== src/RateLimit/Windows/Timely.antt =====
-- concord_core/src/rate_limit/governor_runtime.rs: the time at which windows are next pruned is not after
-- the time at which a window is idle, and what pruning then keeps.
use concord_api.Base.{
  ℕ, ◌+◌, ◌-◌, ◌≤◌, ◌<◌, ◌≡◌, refl, sym, ap, ◌∙◌, ◌⊎◌, inl, inr, Bool, true, false, ◌||◌,
  Bool-cases, Option, none, some, Option-cases, is_none_or, [], ◌∷◌, All, length, take, subst,
  if_holds, if_either, filter, leb, ltb, ◌==◌, beq, beq-eq-true, if◌then◌else◌, arith, instant_max,
}
use concord_api.RateLimit.Windows.{
  GovernorWindowSpec, GovernorWindowSpec-discrete, GovernorWindowEntry, GovernorWindowState,
  Windows, WindowLimits, find, remove_all, sort_by_age, ages, evict_oldest_windows, retain_used,
  prune_windows, prune_windows_if_needed,
}
use concord_api.RateLimit.Windows.Sorting.{has, IsMap}
use concord_api.RateLimit.Windows.Bounds.{Bounded, has-filter, filter-length}

module _ (limits : WindowLimits) where
  -- A window that was used at `last_used` is not idle before the next pruning.
  abbrev pub InTime : Option ℕ → ℕ → Type 0
  InTime next last_used =
      (instant_max < last_used + limits.window_idle_ttl)
      ⊎ ((t : ℕ) × (next ≡ some t) × (t ≤ last_used + limits.window_idle_ttl))

  waited :
      (next : Option ℕ) (now last_used : ℕ)
      → now ≤ instant_max
      → is_none_or next (λ deadline. ltb now deadline) ≡ true
      → InTime next last_used
      → now ≤ last_used + limits.window_idle_ttl
  waited next now last_used fits early (inl h) = omega (arith, fits, h)
  waited next now last_used fits early (inr (t, e, h)) = ground (arith, e, h, early)

module _ {L : Type 0} where
  -- The entry, if the test holds of it.
  abbrev pub entry_if :
      (GovernorWindowEntry L → Bool)
      → Option (GovernorWindowEntry L)
      → Option (GovernorWindowEntry L)
  entry_if q none = none
  entry_if q (some e) = if q e then some e else none

  entry_if_all :
      (q : GovernorWindowEntry L → Bool) (o : Option (GovernorWindowEntry L))
      → ((e : GovernorWindowEntry L) → q e ≡ true)
      → o ≡ entry_if q o
  entry_if_all q none h = refl
  entry_if_all q (some e) h = ground (arith, h e)

  entry_if_same :
      (q p : GovernorWindowEntry L → Bool) (o : Option (GovernorWindowEntry L))
      → ((e : GovernorWindowEntry L) → q e ≡ p e)
      → entry_if q o ≡ entry_if p o
  entry_if_same q p none h = refl
  entry_if_same q p (some e) h = ap (λ b. if b then some e else none) (h e)

  pub absent-find :
      (m : Windows L) (s : GovernorWindowSpec) → has (ages m) s ≡ false → find m s ≡ none
  absent-find [] s h = refl
  absent-find ((a, e) ∷ m) s h = ground (arith, absent-find m s (ground (arith, h)), h)

  -- In a map, a filter by entries finds what was there, if it is kept.
  find-filter :
      (q : GovernorWindowEntry L → Bool) (m : Windows L) (s : GovernorWindowSpec)
      → IsMap (ages m)
      → find (filter (λ x. q x.1) m) s ≡ entry_if q (find m s)
  find-filter q [] s h = refl
  find-filter q ((a, e) ∷ m) s (h, hs) =
      let rest = find-filter q m s hs in
      elim (Bool-cases (beq GovernorWindowSpec-discrete a s)) [
        | inr f ↦ ground (arith, f, rest)
        | inl f ↦
            let same = beq-eq-true GovernorWindowSpec-discrete a s f in
            let gone : (has (ages m) s ≡ false) = ap (has (ages m)) (sym same) ∙ h in
            let left = absent-find (filter (λ x. q x.1) m) s (has-filter (λ x. q x.1) m s gone) in
            ground (arith, f, left)
      ]

  -- Nothing is evicted where nothing is beyond the cap.
  evict_none : (m : Windows L) (n : ℕ) → n ≡ 0 → evict_oldest_windows m n ≡ m
  unfolding evict_oldest_windows
  evict_none m n e = ap (λ k. remove_all m (take k (sort_by_age (ages m)))) e

  module _ (limits : WindowLimits) where
    -- Without a time to live no window becomes idle.
    abbrev pub Timely : GovernorWindowState L → Type 0
    Timely state =
        (limits.window_idle_ttl ≡ 0)
        ⊎ All (λ x. InTime limits state.next_prune_at x.1.last_used) state.windows

    -- The window is still in use.
    abbrev pub in_use : ℕ → GovernorWindowEntry L → Bool
    in_use now entry =
        limits.window_idle_ttl == 0 || leb now (entry.last_used + limits.window_idle_ttl)

    All-find :
        (P : ℕ → Type 0) (m : Windows L) (s : GovernorWindowSpec) (e : GovernorWindowEntry L)
        → All (λ x. P x.1.last_used) m
        → find m s ≡ some e
        → P e.last_used
    All-find P [] s e h f = cc
    All-find P ((a, e') ∷ m) s e (h, hs) f =
        elim (Bool-cases (beq GovernorWindowSpec-discrete a s)) [
          | inl b ↦ let same : (e' ≡ e) = ground (arith, b, f) in subst (λ k. P k.last_used) same h
          | inr b ↦ All-find P m s e hs (ground (arith, b, f))
        ]

    retained :
        (m : Windows L) (now : ℕ) (s : GovernorWindowSpec)
        → IsMap (ages m)
        → find (retain_used limits m now) s ≡ entry_if (in_use now) (find m s)
    retained m now s h =
        let q = λ (e : GovernorWindowEntry L). leb (now - e.last_used) limits.window_idle_ttl in
        if_holds (λ m'. find m' s ≡ entry_if (in_use now) (find m s)) (limits.window_idle_ttl == 0)
          m (filter (λ x. q x.1) m)
          (λ z. entry_if_all (in_use now) (find m s) (λ e. ground (arith, z)))
          (λ z.
            find-filter q m s h ∙ entry_if_same q (in_use now) (find m s) (λ e. ground (arith, z)))

    retained-length : (m : Windows L) (now : ℕ) → length (retain_used limits m now) ≤ length m
    retained-length m now =
        if_either (λ m'. length m' ≤ length m) (limits.window_idle_ttl == 0) (omega arith)
          (filter-length (λ x. leb (now - x.1.last_used) limits.window_idle_ttl) m)

    -- Before the next pruning all that is found is in use.
    early_find :
        (state : GovernorWindowState L) (now : ℕ) (s : GovernorWindowSpec)
        → Timely state
        → now ≤ instant_max
        → is_none_or state.next_prune_at (λ deadline. ltb now deadline) ≡ true
        → find state.windows s ≡ entry_if (in_use now) (find state.windows s)
    early_find state now s timely fits early = elim (Option-cases (find state.windows s)) [
      | inl f ↦ rw f refl
      | inr (e, f) ↦
          let used : (in_use now e ≡ true) = elim timely [
            | inl z ↦ ground (arith, z)
            | inr all_in_time ↦
                let live =
                  waited limits state.next_prune_at now e.last_used fits early (
                    All-find (InTime limits state.next_prune_at) state.windows s e all_in_time f) in
                ground (arith, live)
          ] in
          ground (arith, f, used)
    ]

    pruned_find :
        (state : GovernorWindowState L) (now : ℕ) (s : GovernorWindowSpec)
        → Bounded limits state.windows
        → find (prune_windows limits state now).windows s
          ≡ entry_if (in_use now) (find state.windows s)
    unfolding prune_windows
    pruned_find state now s h =
        let used = retain_used limits state.windows now in
        ap (λ m. find m s)
          (evict_none used (length used - limits.max_window_entries)
            (omega (arith, retained-length state.windows now, h.cap)))
        ∙ retained state.windows now s h.map

    pub needed_find :
        (state : GovernorWindowState L) (now : ℕ) (s : GovernorWindowSpec)
        → Bounded limits state.windows
        → Timely state
        → now ≤ instant_max
        → find (prune_windows_if_needed limits state now).windows s
          ≡ entry_if (in_use now) (find state.windows s)
    needed_find state now s h timely fits =
        if_holds
          (λ (st : GovernorWindowState L).
            find st.windows s ≡ entry_if (in_use now) (find state.windows s))
          (is_none_or state.next_prune_at (λ deadline. ltb now deadline)) state
          (prune_windows limits state now) (early_find state now s timely fits)
          (λ late. pruned_find state now s h)
