-- ===== src/RateLimit/Windows/Returned.antt =====
-- concord_core/src/rate_limit/governor_runtime.rs: the limiter that a window is given.
use native.Mathlib.Nat.{div-eq_of_lt, le-div_iff_mul-le}
use concord_api.Base.{
  ℕ, ◌/◌, ◌≤◌, ◌<◌, ◌≡◌, sym, ap, ◌∙◌, inl, inr, ◌||◌, Bool-cases, Option, none, some, [], ◌∷◌, ltb,
  ◌==◌, Result, ok, err, result_holds, Result-cases, option_holds, beq, beq_refl, if◌then◌else◌,
  arith, instant_max,
}
use concord_api.Error.{ApiClientError, invalid_configuration}
use concord_api.RateLimit.{RateLimitContext, RateLimitWindow}
use concord_api.RateLimit.Keys.{rate_limit_error}
use concord_api.RateLimit.Windows.{
  GovernorWindowSpec, GovernorWindowSpec-discrete, GovernorWindowEntry, GovernorWindowState,
  Windows, WindowLimits, Quota, find, touch, prune_windows_if_needed, make_room, add_window,
  limiter_for, quota_for_window,
}
use concord_api.RateLimit.Windows.Bounds.{Bounded, find-none, note-windows, make_room-absent}
use concord_api.RateLimit.Windows.Timely.{Timely, entry_if, in_use, absent-find, needed_find}
use concord_api.RateLimit.Windows.Pruning.{prune-Timely, make_room-Timely, touch-Timely, new-Timely}

-- A window of fewer nanoseconds than requests has no quota; another one allows all its requests at once
-- and then one more after each equal part of the window.
abbrev pub window_quota : RateLimitContext → RateLimitWindow → Result ApiClientError Quota
window_quota ctx window =
    if window.max == 0 || ltb window.per window.max
    then err (rate_limit_error ctx invalid_configuration)
    else ok (record { replenish = window.per / window.max; burst = window.max })

no_part : (per max : ℕ) → per < max → per / max ≡ 0
no_part per max h = div-eq_of_lt h

some_part : (per max : ℕ) → 0 < max → max ≤ per → 1 ≤ per / max
some_part per max pos h = (le-div_iff_mul-le {k = max} {x = 1} {y = per} pos).1 (omega (arith, h))

quota_for_window_lem :
    (ctx : RateLimitContext) (window : RateLimitWindow)
    → quota_for_window ctx window ≡ window_quota ctx window
unfolding quota_for_window
quota_for_window_lem ctx window = elim (Bool-cases (window.max == 0)) [
  | inl z ↦ ground (arith, z)
  | inr z ↦ elim (Bool-cases (ltb window.per window.max)) [
    | inl f ↦ ground (arith, z, f, no_part window.per window.max (ground (arith, f)))
    | inr f ↦
        ground
          (arith, z, f, some_part window.per window.max (ground (arith, z)) (ground (arith, f)))
  ]
]

module _ {L : Type 0} where
  find-touch :
      (m : Windows L) (spec : GovernorWindowSpec) (now : ℕ) (entry : GovernorWindowEntry L)
      → find m spec ≡ some entry
      → find (touch m spec now) spec ≡ some (record entry { last_used = now })
  find-touch [] spec now entry h = cc
  find-touch ((a, e) ∷ m) spec now entry h =
      elim (Bool-cases (beq GovernorWindowSpec-discrete a spec)) [
        | inl f ↦ ground arith
        | inr f ↦ let rest = find-touch m spec now entry (ground arith) in ground arith
      ]

  -- The limiter that a window is to have: the one that it has in use, or one that is made from its
  -- quota.
  abbrev pub limiter_due :
      (Quota → L)
      → RateLimitContext
      → RateLimitWindow
      → Option (GovernorWindowEntry L)
      → Result ApiClientError L
  limiter_due direct ctx window (some entry) = ok entry.limiter
  limiter_due direct ctx window none = elim (window_quota ctx window) [
    | err e ↦ err e
    | ok quota ↦ ok (direct quota)
  ]

  -- What the map has for the window after a call at the time.
  abbrev pub entry_after : ℕ → Result ApiClientError L → Option (GovernorWindowEntry L)
  entry_after now (ok limiter) = some (record { limiter = limiter; last_used = now })
  entry_after now (err e) = none

  if_itself :
      (spec : GovernorWindowSpec) (entry : GovernorWindowEntry L) (m : Windows L)
      → find ((spec, entry) ∷ m) spec ≡ some entry
  if_itself spec entry m = ground (arith, beq_refl GovernorWindowSpec-discrete spec)

  module _ (limits : WindowLimits) where
    absent_after :
        (m : Windows L) (spec : GovernorWindowSpec)
        → find m spec ≡ none
        → find (make_room limits m) spec ≡ none
    absent_after m spec h =
        absent-find (make_room limits m) spec (make_room-absent limits m spec (find-none m spec h))

    -- What a call leaves: the window's entry is the one of its result, and the next pruning is in time.
    abbrev Leaves :
        GovernorWindowSpec → ℕ → Result ApiClientError L × GovernorWindowState L → Type 0
    Leaves spec now (r, after) = (find after.windows spec ≡ entry_after now r) × Timely limits after

    add_window-Leaves :
        (direct : Quota → L) (ctx : RateLimitContext) (spec : GovernorWindowSpec) (now : ℕ)
        (state : GovernorWindowState L)
        → find state.windows spec ≡ none
        → Timely limits state
        → Leaves spec now (add_window limits direct ctx spec now state)
    add_window-Leaves direct ctx spec now state absent timely =
        result_holds (Leaves spec now) (quota_for_window ctx spec.window) _ _
          (λ e p. (absent_after state.windows spec absent, make_room-Timely limits state timely))
          (λ quota p.
            let m =
              (spec, record { limiter = direct quota; last_used = now })
              ∷ make_room limits state.windows in
            let kept = note-windows limits (record state { windows = m }) now in
            (
              ap (λ w. find w spec) kept
                  ∙ if_itself spec (record { limiter = direct quota; last_used = now })
                      (make_room limits state.windows),
              new-Timely limits state spec (direct quota) now timely,
            ))

    add_window-due :
        (direct : Quota → L) (ctx : RateLimitContext) (spec : GovernorWindowSpec) (now : ℕ)
        (state : GovernorWindowState L)
        → (add_window limits direct ctx spec now state).0 ≡ limiter_due direct ctx spec.window none
    add_window-due direct ctx spec now state =
        let same = quota_for_window_lem ctx spec.window in
        elim (Result-cases (quota_for_window ctx spec.window)) [
          | inl (quota, q) ↦ let w = sym same ∙ q in ground (arith, q, w)
          | inr (e, q) ↦ let w = sym same ∙ q in ground (arith, q, w)
        ]

    -- A call for a window that has the entry in use, if any, returns the limiter that is due and leaves
    -- it in the map.
    abbrev pub Answers :
        (Quota → L)
        → RateLimitContext
        → GovernorWindowSpec
        → ℕ
        → Option (GovernorWindowEntry L)
        → Result ApiClientError L × GovernorWindowState L
        → Type 0
    Answers direct ctx spec now entry (r, after) =
        (r ≡ limiter_due direct ctx spec.window entry)
        × (find after.windows spec ≡ entry_after now r)
        × Timely limits after

    -- In a bounded map whose next pruning is in time, a call returns the limiter that the window has and
    -- that was used no longer ago than the time to live, if there is one; else, also where one is there
    -- that has been idle for longer, a new limiter, which allows all the window's requests at once and
    -- then one more after each equal part of the window, or an error, if the window has no requests or
    -- more of them than nanoseconds. After the call the map has the returned limiter for the window,
    -- marked as used at the time of the call, or none after an error; and the next pruning is again in
    -- time.
    pub returned_limiter_is_kept :
        (direct : Quota → L) (ctx : RateLimitContext) (spec : GovernorWindowSpec) (now : ℕ)
        (state : GovernorWindowState L)
        → Bounded limits state.windows
        → Timely limits state
        → now ≤ instant_max
        → Answers direct ctx spec now
            (entry_if (in_use limits now) (find state.windows spec))
            (limiter_for limits direct ctx spec now state)
    unfolding limiter_for
    returned_limiter_is_kept direct ctx spec now state bounded timely fits =
        let pruned = prune_windows_if_needed limits state now in
        let still = prune-Timely limits state now timely in
        let seen = needed_find limits state now spec bounded timely fits in
        option_holds
          (Answers direct ctx spec now (entry_if (in_use limits now) (find state.windows spec)))
          (find pruned.windows spec) _ _
          (λ e.
            let (held, on_time) = add_window-Leaves direct ctx spec now pruned e still in
            (
              add_window-due direct ctx spec now pruned
                  ∙ ap (limiter_due direct ctx spec.window) (sym e ∙ seen),
              held,
              on_time,
            ))
          (λ entry e. (
            ap (limiter_due direct ctx spec.window) (sym e ∙ seen),
            ap (λ w. find w spec)
                  (note-windows limits (record pruned { windows = touch pruned.windows spec now })
                    now)
                ∙ find-touch pruned.windows spec now entry e,
            touch-Timely limits pruned spec now still,
          ))
