-- ===== src/Auth/Placement/Planned.antt =====
-- concord_core/src/auth/plan.rs: what a placement plan keeps apart.
use concord_api.Base.{ℕ, ◌+◌, ◌<◌, ◌≡◌, true, false, List, [], ◌∷◌, ◌++◌, All, String, arith}
use concord_api.Headers.Text.{any}
use concord_api.Headers.Sanitize.{is_redacted}
use concord_api.Auth.Uses.{AuthPlacement, AuthRequirement}
use concord_api.Auth.Placement.{
  PlannedAuthPlacement, PlannedAuthSlot, AuthPlacementPlan, placements_collide, is_reserved,
  with_query_key, planned_slot,
}
use concord_api.Auth.Placement.Keys.{redacted_key_stays}

module _ {ℓ κ} {A : Type ℓ} where
  All-map : {P Q : A → Type κ} → ((x : A) → P x → Q x) → (xs : List A) → All P xs → All Q xs
  All-map f [] h = tt
  All-map f (x ∷ xs) (p, h) = (f x p, All-map f xs h)

  All-push : (P : A → Type κ) (xs : List A) (x : A) → All P xs → P x → All P (xs ++ x ∷ [])
  All-push P [] x h p = (p, tt)
  All-push P (y ∷ xs) x (q, h) p = (q, All-push P xs x h p)

-- What each slot of a plan satisfies: its identifier is one that the counter has given, it is no
-- reserved header, and the key of a query credential is redacted.
abbrev pub IsHidden : List String → PlannedAuthPlacement → Type 0
IsHidden keys PlannedAuthPlacement.bearer = Unit
IsHidden keys PlannedAuthPlacement.basic = Unit
IsHidden keys (PlannedAuthPlacement.header name) = Unit
IsHidden keys (PlannedAuthPlacement.query name) = is_redacted keys name ≡ true

abbrev pub IsSound : ℕ → List String → PlannedAuthSlot → Type 0
IsSound counter keys slot =
    (slot.id < counter) × (is_reserved slot.placement ≡ false) × IsHidden keys slot.placement

-- Two slots have different targets, and the later one the larger identifier.
abbrev pub Apart : PlannedAuthSlot → PlannedAuthSlot → Type 0
Apart earlier later =
    (placements_collide earlier.placement later.placement ≡ false) × (earlier.id < later.id)

abbrev pub AreApart : List PlannedAuthSlot → Type 0
AreApart [] = Unit
AreApart (s ∷ ss) = All (Apart s) ss × AreApart ss

-- The invariant of a plan and the counter of identifiers.
abbrev pub IsPlanned : AuthPlacementPlan → ℕ → Type 0
IsPlanned planned counter =
    All (IsSound counter planned.sensitive_query_keys) planned.slots × AreApart planned.slots

AreApart-push :
    (ss : List PlannedAuthSlot) (s : PlannedAuthSlot)
    → AreApart ss
    → All (λ t. Apart t s) ss
    → AreApart (ss ++ s ∷ [])
AreApart-push [] s h p = (tt, tt)
AreApart-push (t ∷ ss) s (a, h) (q, p) = (All-push (Apart t) ss s a q, AreApart-push ss s h p)

-- None of the slots collides with the placement.
free-All :
    (ss : List PlannedAuthSlot) (p : PlannedAuthPlacement)
    → any (λ existing. placements_collide existing.placement p) ss ≡ false
    → All (λ s. placements_collide s.placement p ≡ false) ss
free-All [] p h = tt
free-All (s ∷ ss) p h =
    let head : (placements_collide s.placement p ≡ false) = ground arith in
    (head, free-All ss p (ground arith))

both-All :
    (P Q : PlannedAuthSlot → Type 0) (ss : List PlannedAuthSlot)
    → All P ss
    → All Q ss
    → All (λ s. P s × Q s) ss
both-All P Q [] h k = tt
both-All P Q (s ∷ ss) (p, h) (q, k) = ((p, q), both-All P Q ss h k)

IsHidden-with :
    (p : AuthPlacement) (keys : List String) (q : PlannedAuthPlacement)
    → IsHidden keys q
    → IsHidden (with_query_key p keys) q
IsHidden-with p keys PlannedAuthPlacement.bearer h = tt
IsHidden-with p keys PlannedAuthPlacement.basic h = tt
IsHidden-with p keys (PlannedAuthPlacement.header name) h = tt
IsHidden-with p keys (PlannedAuthPlacement.query name) h = redacted_key_stays p keys name h

IsSound-with :
    (p : AuthPlacement) (counter : ℕ) (keys : List String) (s : PlannedAuthSlot)
    → IsSound counter keys s
    → IsSound (counter + 1) (with_query_key p keys) s
IsSound-with p counter keys s (below, free, hidden) =
    (omega arith, free, IsHidden-with p keys s.placement hidden)

-- A slot that collides with none, and is not reserved, keeps the invariant.
pub IsPlanned-with :
    (r : AuthRequirement) (planned : AuthPlacementPlan) (counter : ℕ) (p : PlannedAuthPlacement)
    → IsPlanned planned counter
    → is_reserved p ≡ false
    → any (λ existing. placements_collide existing.placement p) planned.slots ≡ false
    → IsHidden (with_query_key r.placement planned.sensitive_query_keys) p
    → IsPlanned
        (record {
          slots = planned.slots ++ planned_slot r p counter ∷ [];
          sensitive_query_keys = with_query_key r.placement planned.sensitive_query_keys;
        })
        (counter + 1)
IsPlanned-with r planned counter p (sound, apart) free no_clash hidden =
    let keys = with_query_key r.placement planned.sensitive_query_keys in
    let slot = planned_slot r p counter in
    (
      All-push (IsSound (counter + 1) keys) planned.slots slot
          (All-map (IsSound-with r.placement counter planned.sensitive_query_keys) planned.slots
            sound)
          (omega arith, free, hidden),
      AreApart-push planned.slots slot apart (
          both-All (λ s. placements_collide s.placement p ≡ false) (λ s. s.id < counter)
            planned.slots (free-All planned.slots p no_clash)
            (All-map (λ s q. q.0) planned.slots sound)),
    )
