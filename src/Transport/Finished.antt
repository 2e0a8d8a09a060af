-- ===== src/Transport/Finished.antt =====
-- concord_core/src/transport.rs: all credentials of a request together.
use mathlib.Core.List.{append_assoc}
use concord_api.Base.{
  ℕ, ℕ_discrete, beq, beq-eq-true, Bool-cases, ◌≡◌, refl, ap, subst, ◌∙◌, inl, inr, true, false,
  not, String, String-discrete, some, Option-cases, ok, Result-cases, List, [], ◌∷◌, ◌++◌, All,
  beq-sym-false, arith,
}
use concord_api.Auth.Placement.{PlannedAuthPlacement, PlannedAuthSlot, placements_collide}
use concord_api.Auth.Placement.Planned.{Apart, AreApart}
use concord_api.Auth.Material.{AuthTransportMaterial, slot_id}
use concord_api.Transport.{
  NativeRequest, material_for, authorization, place, place_all, materialize_authentication,
}
use concord_api.Transport.Placed.{target_header, is_clear_of, HasValue, Carries, Keeps, place-ok}

bearer_clear :
    (q : PlannedAuthPlacement)
    → placements_collide PlannedAuthPlacement.bearer q ≡ false
    → is_clear_of (target_header q) authorization ≡ true
bearer_clear PlannedAuthPlacement.bearer h = absurd cc
bearer_clear PlannedAuthPlacement.basic h = absurd cc
bearer_clear (PlannedAuthPlacement.header m) h = ap not h
bearer_clear (PlannedAuthPlacement.query m) h = refl

basic_clear :
    (q : PlannedAuthPlacement)
    → placements_collide PlannedAuthPlacement.basic q ≡ false
    → is_clear_of (target_header q) authorization ≡ true
basic_clear PlannedAuthPlacement.bearer h = absurd cc
basic_clear PlannedAuthPlacement.basic h = absurd cc
basic_clear (PlannedAuthPlacement.header m) h = ap not h
basic_clear (PlannedAuthPlacement.query m) h = refl

header_clear :
    (name : String) (q : PlannedAuthPlacement)
    → placements_collide (PlannedAuthPlacement.header name) q ≡ false
    → is_clear_of (target_header q) name ≡ true
header_clear name PlannedAuthPlacement.bearer h =
    ap not (beq-sym-false String-discrete name authorization h)
header_clear name PlannedAuthPlacement.basic h =
    ap not (beq-sym-false String-discrete name authorization h)
header_clear name (PlannedAuthPlacement.header m) h =
    ap not (beq-sym-false String-discrete name m h)
header_clear name (PlannedAuthPlacement.query m) h = refl

material_for-slot_id :
    (materials : List AuthTransportMaterial) (id : ℕ) (material : AuthTransportMaterial)
    → material_for materials id ≡ some material
    → slot_id material ≡ id
material_for-slot_id [] id material h = absurd cc
material_for-slot_id (m ∷ ms) id material h = elim (Option-cases (material_for ms id)) [
  | inr (found, e) ↦ material_for-slot_id ms id material (ground (arith, e, h))
  | inl e ↦ elim (Bool-cases (beq ℕ_discrete (slot_id m) id)) [
    | inr f ↦ absurd (ground (arith, e, f, h))
    | inl f ↦
        let same : (m ≡ material) = ground (arith, e, f, h) in
        subst (λ k. slot_id k ≡ id) same (beq-eq-true ℕ_discrete (slot_id m) id f)
  ]
]

module _ {M V : Type 0} (native : NativeRequest M V) where
  pair_stays :
      (m m' : M) (p : String × String) (more before after : List (String × String))
      → native.query_pairs m' ≡ native.query_pairs m ++ more
      → native.query_pairs m ≡ before ++ (p ∷ after)
      → native.query_pairs m' ≡ before ++ (p ∷ (after ++ more))
  pair_stays m m' p more before after grown there =
      grown ∙ (ap (λ ps. ps ++ more) there ∙ append_assoc before (p ∷ after) more)

  value_stays :
      (name : String) (q : PlannedAuthPlacement) (text : String) (m m' : M)
      → is_clear_of (target_header q) name ≡ true
      → Keeps native (target_header q) m m'
      → HasValue native m name text
      → HasValue native m' name text
  value_stays name q text m m' clear (kept, _, _) (v, made, there) =
      (v, made, kept name clear ∙ there)

  -- A credential is not touched by a placement with another target.
  Carries-Keeps :
      (p q : PlannedAuthPlacement) (material : AuthTransportMaterial) (m m' : M)
      → placements_collide p q ≡ false
      → Keeps native (target_header q) m m'
      → Carries native m p material
      → Carries native m' p material
  Carries-Keeps PlannedAuthPlacement.bearer q (AuthTransportMaterial.secret i s) m m' a kept
        carried =
      value_stays authorization q _ m m' (bearer_clear q a) kept carried
  Carries-Keeps PlannedAuthPlacement.bearer q (AuthTransportMaterial.basic i u p) m m' a kept
        carried =
      carried
  Carries-Keeps PlannedAuthPlacement.basic q (AuthTransportMaterial.secret i s) m m' a kept
        carried =
      carried
  Carries-Keeps PlannedAuthPlacement.basic q (AuthTransportMaterial.basic i u p) m m' a kept
        carried =
      value_stays authorization q _ m m' (basic_clear q a) kept carried
  Carries-Keeps (PlannedAuthPlacement.header n) q (AuthTransportMaterial.secret i s) m m' a kept
        carried =
      value_stays n q _ m m' (header_clear n q a) kept carried
  Carries-Keeps (PlannedAuthPlacement.header n) q (AuthTransportMaterial.basic i u p) m m' a kept
        carried =
      carried
  Carries-Keeps (PlannedAuthPlacement.query n) q (AuthTransportMaterial.secret i s) m m' a
        (_, more, grown) (before, after, there) =
      (before, after ++ more, pair_stays m m' (n, s) more before after grown there)
  Carries-Keeps (PlannedAuthPlacement.query n) q (AuthTransportMaterial.basic i u p) m m' a kept
        carried =
      carried

  -- A round of the loop that succeeds.
  pub place_all-step :
      (slot : PlannedAuthSlot) (slots : List PlannedAuthSlot)
      (materials : List AuthTransportMaterial) (m m' : M)
      → place_all native (slot ∷ slots) materials m ≡ ok m'
      → (material : AuthTransportMaterial) × (next : M) × (material_for materials slot.id
          ≡ some material)
        × (place native slot.placement material m ≡ ok next)
        × (place_all native slots materials next ≡ ok m')
  unfolding place_all
  place_all-step slot slots materials m m' h =
      elim (Option-cases (material_for materials slot.id)) [
        | inl e ↦ absurd (ground (arith, e, h))
        | inr (material, e) ↦ elim (Result-cases (place native slot.placement material m)) [
          | inr (x, f) ↦ absurd (ground (arith, e, f, h))
          | inl (next, f) ↦ (material, next, e, f, ground (arith, e, f, h))
        ]
      ]

  -- A credential is not touched by later slots with other targets.
  later_slots_keep :
      (s : PlannedAuthSlot) (slots : List PlannedAuthSlot) (materials : List AuthTransportMaterial)
      (material : AuthTransportMaterial) (m m' : M)
      → All (Apart s) slots
      → place_all native slots materials m ≡ ok m'
      → Carries native m s.placement material
      → Carries native m' s.placement material
  unfolding place_all
  later_slots_keep s [] materials material m m' a h c =
      let same : (m ≡ m') = cc h in subst (λ x. Carries native x s.placement material) same c
  later_slots_keep s (t ∷ slots) materials material m m' ((free, _), a) h c =
      let (mt, next, _, placed, rest) = place_all-step t slots materials m m' h in
      let (kept, _) = place-ok native t.placement mt m next placed in
      later_slots_keep s slots materials material next m' a rest
        (Carries-Keeps s.placement t.placement material m next free kept c)

  -- In a request that materialize_authentication makes, every slot of a plan whose slots are apart has
  -- its material, which names the slot, and the request carries it at the place of the slot.
  pub every_slot_is_materialized :
      (slots : List PlannedAuthSlot) (materials : List AuthTransportMaterial) (m m' : M)
      → AreApart slots
      → materialize_authentication native m slots materials ≡ ok m'
      → All
          (λ s.
            (material : AuthTransportMaterial) × (material_for materials s.id ≡ some material)
            × (slot_id material ≡ s.id)
            × Carries native m' s.placement material)
          slots
  unfolding materialize_authentication
  every_slot_is_materialized [] materials m m' a h = tt
  every_slot_is_materialized (s ∷ slots) materials m m' (a, others) h =
      let (material, next, found, placed, rest) = place_all-step s slots materials m m' h in
      let (_, carried) = place-ok native s.placement material m next placed in
      (
        (
          material,
          found,
          material_for-slot_id materials s.id material found,
          later_slots_keep s slots materials material next m' a rest carried,
        ),
        every_slot_is_materialized slots materials next m' others rest,
      )
