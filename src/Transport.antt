-- ===== src/Transport.antt =====
-- concord_core/src/transport.rs: the credentials are put into the finished request.
pub mod Placed
pub mod Finished
pub mod Public
pub mod Tests
use Prim.Native.String.{◌++◌ as append_text}
use concord_api.Base.{
  ℕ, ◌≡◌, Bool, true, false, String, String-discrete, ℕ_discrete, Option, none, some, List, [], ◌∷◌,
  ◌++◌, Result, ok, err, ◌>>=◌, ok_or, beq, if◌then◌else◌,
}
use concord_api.Auth.Errors.{AuthError, AuthErrorKind, auth_error}
use concord_api.Auth.Placement.{PlannedAuthPlacement, PlannedAuthSlot}
use concord_api.Auth.Material.{AuthTransportMaterial, slot_id, unsupported}

-- A request of the crate `reqwest`: `insert` leaves one value for a name and the other names alone,
-- `append_pair` adds a query pair at the end. `from_str` is that of a header value, `encode` is Base64.
pub record NativeRequest (M V : Type 0) : Type 0 where
  pub get_all : M → String → List V
  pub query_pairs : M → List (String × String)
  pub insert : M → String → V → M
  pub append_pair : M → String → String → M
  pub from_str : String → Option V
  pub encode : String → String
  pub get_all-insert :
      (m : M) (n : String) (v : V) (name : String)
      → get_all (insert m n v) name
        ≡ (if beq String-discrete n name then v ∷ [] else get_all m name)
  pub get_all-append_pair :
      (m : M) (k v name : String) → get_all (append_pair m k v) name ≡ get_all m name
  pub query_pairs-insert : (m : M) (n : String) (v : V) → query_pairs (insert m n v) ≡ query_pairs m
  pub query_pairs-append_pair :
      (m : M) (k v : String) → query_pairs (append_pair m k v) ≡ query_pairs m ++ (k, v) ∷ []

-- `by_slot`: of the materials of one slot the last one counts.
abbrev pub material_for : List AuthTransportMaterial → ℕ → Option AuthTransportMaterial
material_for [] id = none
material_for (m ∷ ms) id = elim (material_for ms id) [
  | some later ↦ some later
  | none ↦ if beq ℕ_discrete (slot_id m) id then some m else none
]

abbrev pub authorization : String
authorization = "authorization"

module _ {M V : Type 0} (native : NativeRequest M V) where
  abbrev pub insert_credential : String → String → M → Result AuthError M
  insert_credential name text message = do
    value ← ok_or (native.from_str text) (unsupported "invalid header value")
    ok (native.insert message name value)

  abbrev pub basic_text : String → String → String
  basic_text username password =
      append_text "Basic " (native.encode (append_text username (append_text ":" password)))

  abbrev mismatch : Result AuthError M
  mismatch = err (unsupported "credential material does not match auth placement")

  -- One round of the loop over the slots, with the material of the slot.
  unfoldable pub place : PlannedAuthPlacement → AuthTransportMaterial → M → Result AuthError M
  place PlannedAuthPlacement.bearer (AuthTransportMaterial.secret i secret) message =
      insert_credential authorization (append_text "Bearer " secret) message
  place PlannedAuthPlacement.bearer (AuthTransportMaterial.basic i u p) message = mismatch
  place PlannedAuthPlacement.basic (AuthTransportMaterial.secret i secret) message = mismatch
  place PlannedAuthPlacement.basic (AuthTransportMaterial.basic i u p) message =
      insert_credential authorization (basic_text u p) message
  place (PlannedAuthPlacement.header name) (AuthTransportMaterial.secret i secret) message =
      insert_credential name secret message
  place (PlannedAuthPlacement.header name) (AuthTransportMaterial.basic i u p) message = mismatch
  place (PlannedAuthPlacement.query name) (AuthTransportMaterial.secret i secret) message =
      ok (native.append_pair message name secret)
  place (PlannedAuthPlacement.query name) (AuthTransportMaterial.basic i u p) message = mismatch

  unfoldable pub place_all :
      List PlannedAuthSlot → List AuthTransportMaterial → M → Result AuthError M
  unfolding place
  place_all [] materials message = ok message
  place_all (slot ∷ slots) materials message = elim (material_for materials slot.id) [
    | none ↦ err (auth_error AuthErrorKind.missing_credential "missing materialized credential")
    | some material ↦ elim (place slot.placement material message) [
      | err e ↦ err e
      | ok next ↦ place_all slots materials next
    ]
  ]

  unfoldable pub materialize_authentication :
      M → List PlannedAuthSlot → List AuthTransportMaterial → Result AuthError M
  unfolding place_all
  materialize_authentication message slots materials = place_all slots materials message
