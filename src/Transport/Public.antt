-- ===== src/Transport/Public.antt =====
-- concord_core/src/auth/plan.rs and concord_core/src/transport.rs: credentials leave the public request as
-- it was.
use mathlib.Core.List.{append_assoc, append-nil}
use concord_api.Base.{
  ◌≡◌, refl, sym, ap, subst, ◌∙◌, inl, inr, true, false, not, Bool-cases, String, String-discrete,
  ok, List, [], ◌∷◌, ◌++◌, All, beq, beq_refl, beq-eq-true, arith,
}
use concord_api.Auth.Placement.{PlannedAuthPlacement, PlannedAuthSlot}
use concord_api.Auth.Placement.Public.{PublicRequest, has_name, is_taken, validate_public_request}
use concord_api.Auth.Material.{AuthTransportMaterial}
use concord_api.Transport.{NativeRequest, authorization, place_all, materialize_authentication}
use concord_api.Transport.Placed.{target_header, is_clear_of, place-ok}
use concord_api.Transport.Finished.{place_all-step}

validated-All :
    (slots : List PlannedAuthSlot) (request : PublicRequest)
    → validate_public_request slots request ≡ ok tt
    → All (λ s. is_taken request s.placement ≡ false) slots
unfolding validate_public_request
validated-All [] request h = tt
validated-All (s ∷ slots) request h = elim (Bool-cases (is_taken request s.placement)) [
  | inl e ↦ absurd (ground (arith, e, h))
  | inr e ↦ (e, validated-All slots request (ground (arith, e, h)))
]

-- A name that stands in the list is not another one.
absent_is_other :
    (names : List String) (name target : String)
    → has_name names name ≡ true
    → has_name names target ≡ false
    → not (beq String-discrete target name) ≡ true
absent_is_other names name target there absent =
    elim (Bool-cases (beq String-discrete target name)) [
      | inl e ↦
          let same : (target ≡ name) = beq-eq-true String-discrete target name e in
          absurd (cc (ap (has_name names) same, there, absent))
      | inr e ↦ ap not e
    ]

free_place_is_clear :
    (p : PlannedAuthPlacement) (request : PublicRequest) (name : String)
    → has_name request.header_names name ≡ true
    → is_taken request p ≡ false
    → is_clear_of (target_header p) name ≡ true
free_place_is_clear PlannedAuthPlacement.bearer request name there free =
    absent_is_other request.header_names name authorization there free
free_place_is_clear PlannedAuthPlacement.basic request name there free =
    absent_is_other request.header_names name authorization there free
free_place_is_clear (PlannedAuthPlacement.header n) request name there free =
    absent_is_other request.header_names name n there (ground (arith, free))
free_place_is_clear (PlannedAuthPlacement.query n) request name there free = refl

-- What holds of each text in a list.
every_name {κ} :
    (P : String → Type κ) (names : List String)
    → ((name : String) → has_name names name ≡ true → P name)
    → All P names
every_name P [] h = tt
every_name P (x ∷ names) h = (
  h x (ground (arith, beq_refl String-discrete x)),
  every_name P names (λ name there. h name (later name there)),
)
  where
    later : (name : String) → has_name names name ≡ true → has_name (x ∷ names) name ≡ true
    later name there = elim (Bool-cases (beq String-discrete x name)) [
      | inl e ↦ ground (arith, e)
      | inr e ↦ ground (arith, e, there)
    ]

module _ {M V : Type 0} (native : NativeRequest M V) where
  abbrev KeepsPublic : PublicRequest → M → M → Type 0
  KeepsPublic request m m' =
      ((name : String)
        → has_name request.header_names name ≡ true
        → native.get_all m' name ≡ native.get_all m name)
      × (more : List (String × String)) × (native.query_pairs m' ≡ native.query_pairs m ++ more)

  place_all-KeepsPublic :
      (slots : List PlannedAuthSlot) (materials : List AuthTransportMaterial)
      (request : PublicRequest) (m m' : M)
      → All (λ s. is_taken request s.placement ≡ false) slots
      → place_all native slots materials m ≡ ok m'
      → KeepsPublic request m m'
  unfolding place_all
  place_all-KeepsPublic [] materials request m m' free h =
      let same : (m ≡ m') = cc h in
      subst (KeepsPublic request m) same
        ((λ name there. refl), [], sym (append-nil (native.query_pairs m)))
  place_all-KeepsPublic (s ∷ slots) materials request m m' (f, free) h =
      let (material, next, _, placed, rest) = place_all-step native s slots materials m m' h in
      let ((kept, first, grown), _) = place-ok native s.placement material m next placed in
      let (kept', second, grown') =
        place_all-KeepsPublic slots materials request next m' free rest in
      (
        (λ name there.
            kept' name there ∙ kept name (free_place_is_clear s.placement request name there f)),
        first ++ second,
        grown' ∙ (ap (λ ps. ps ++ second) grown ∙ append_assoc (native.query_pairs m) first second),
      )

  -- A request that passed validate_public_request keeps every public header, and all its query pairs in
  -- order before those of the credentials, when its credentials are materialized.
  pub credentials_leave_public_request :
      (slots : List PlannedAuthSlot) (materials : List AuthTransportMaterial)
      (request : PublicRequest) (m m' : M)
      → validate_public_request slots request ≡ ok tt
      → materialize_authentication native m slots materials ≡ ok m'
      → All (λ name. native.get_all m' name ≡ native.get_all m name) request.header_names
        × (more : List (String × String)) × (native.query_pairs m' ≡ native.query_pairs m ++ more)
  unfolding materialize_authentication
  credentials_leave_public_request slots materials request m m' valid h =
      let (kept, more, grown) =
        place_all-KeepsPublic slots materials request m m' (validated-All slots request valid) h in
      (
        every_name (λ name. native.get_all m' name ≡ native.get_all m name) request.header_names
            kept,
        more,
        grown,
      )
