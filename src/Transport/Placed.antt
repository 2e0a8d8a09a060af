-- ===== src/Transport/Placed.antt =====
-- concord_core/src/transport.rs: each credential stands in the finished request, and nothing else changes.
use mathlib.Core.List.{append-nil}
use Prim.Native.String.{◌++◌ as append_text}
use concord_api.Base.{
  ◌≡◌, refl, sym, subst, ◌∙◌, inl, inr, Bool, true, not, Bool-cases, String, String-discrete,
  Option, none, some, Option-cases, ok, List, [], ◌∷◌, ◌++◌, beq, beq_refl, arith,
}
use concord_api.Auth.Placement.{PlannedAuthPlacement}
use concord_api.Auth.Material.{AuthTransportMaterial}
use concord_api.Transport.{NativeRequest, authorization, basic_text, insert_credential, place}

-- The header that a placement writes.
abbrev pub target_header : PlannedAuthPlacement → Option String
target_header PlannedAuthPlacement.bearer = some authorization
target_header PlannedAuthPlacement.basic = some authorization
target_header (PlannedAuthPlacement.header name) = some name
target_header (PlannedAuthPlacement.query name) = none

abbrev pub is_clear_of : Option String → String → Bool
is_clear_of none name = true
is_clear_of (some target) name = not (beq String-discrete target name)

module _ {M V : Type 0} (native : NativeRequest M V) where
  -- The header has the one value that the text makes.
  abbrev pub HasValue : M → String → String → Type 0
  HasValue m name text =
      (v : V) × (native.from_str text ≡ some v) × (native.get_all m name ≡ v ∷ [])

  -- The request carries the material at its place.
  abbrev pub Carries : M → PlannedAuthPlacement → AuthTransportMaterial → Type 0
  Carries m PlannedAuthPlacement.bearer (AuthTransportMaterial.secret i s) =
      HasValue m authorization (append_text "Bearer " s)
  Carries m PlannedAuthPlacement.bearer (AuthTransportMaterial.basic i u p) = ⊥
  Carries m PlannedAuthPlacement.basic (AuthTransportMaterial.secret i s) = ⊥
  Carries m PlannedAuthPlacement.basic (AuthTransportMaterial.basic i u p) =
      HasValue m authorization (basic_text native u p)
  Carries m (PlannedAuthPlacement.header name) (AuthTransportMaterial.secret i s) =
      HasValue m name s
  Carries m (PlannedAuthPlacement.header name) (AuthTransportMaterial.basic i u p) = ⊥
  Carries m (PlannedAuthPlacement.query name) (AuthTransportMaterial.secret i s) =
      (before : List (String × String)) × (after : List (String × String)) × (native.query_pairs m
        ≡ before ++ ((name, s) ∷ after))
  Carries m (PlannedAuthPlacement.query name) (AuthTransportMaterial.basic i u p) = ⊥

  -- Headers but the target are as they were, and query pairs were at most added at the end.
  abbrev pub Keeps : Option String → M → M → Type 0
  Keeps target m m' =
      ((name : String)
        → is_clear_of target name ≡ true
        → native.get_all m' name ≡ native.get_all m name)
      × (more : List (String × String)) × (native.query_pairs m' ≡ native.query_pairs m ++ more)

  insert-Keeps : (m : M) (n : String) (v : V) → Keeps (some n) m (native.insert m n v)
  insert-Keeps m n v = (
    (λ name clear. elim (Bool-cases (beq String-discrete n name)) [
      | inl e ↦ absurd (ground (arith, e, clear))
      | inr e ↦ rw (native.get_all-insert m n v name, e) refl
    ]),
    [],
    native.query_pairs-insert m n v ∙ sym (append-nil (native.query_pairs m)),
  )

  pair-Keeps : (m : M) (k v : String) → Keeps none m (native.append_pair m k v)
  pair-Keeps m k v = (
    (λ name clear. native.get_all-append_pair m k v name),
    (k, v) ∷ [],
    native.query_pairs-append_pair m k v,
  )

  -- What an insertion that succeeds has done.
  insert_credential-ok :
      (name text : String) (m m' : M)
      → insert_credential native name text m ≡ ok m'
      → Keeps (some name) m m' × HasValue m' name text
  insert_credential-ok name text m m' h = elim (Option-cases (native.from_str text)) [
    | inl e ↦ absurd (ground (arith, e, h))
    | inr (v, e) ↦
        let same : (native.insert m name v ≡ m') = ground (arith, e, h) in
        let there : (native.get_all (native.insert m name v) name ≡ v ∷ []) =
          rw (native.get_all-insert m name v name, beq_refl String-discrete name) refl in
        subst (λ x. Keeps (some name) m x × HasValue x name text) same
          (insert-Keeps m name v, (v, e, there))
  ]

  pub place-ok :
      (p : PlannedAuthPlacement) (material : AuthTransportMaterial) (m m' : M)
      → place native p material m ≡ ok m'
      → Keeps (target_header p) m m' × Carries m' p material
  unfolding place
  place-ok PlannedAuthPlacement.bearer (AuthTransportMaterial.secret i s) m m' h =
      insert_credential-ok authorization (append_text "Bearer " s) m m' h
  place-ok PlannedAuthPlacement.bearer (AuthTransportMaterial.basic i u p) m m' h = absurd cc
  place-ok PlannedAuthPlacement.basic (AuthTransportMaterial.secret i s) m m' h = absurd cc
  place-ok PlannedAuthPlacement.basic (AuthTransportMaterial.basic i u p) m m' h =
      insert_credential-ok authorization (basic_text native u p) m m' h
  place-ok (PlannedAuthPlacement.header name) (AuthTransportMaterial.secret i s) m m' h =
      insert_credential-ok name s m m' h
  place-ok (PlannedAuthPlacement.header name) (AuthTransportMaterial.basic i u p) m m' h = absurd cc
  place-ok (PlannedAuthPlacement.query name) (AuthTransportMaterial.secret i s) m m' h =
      let same : (native.append_pair m name s ≡ m') = cc h in
      subst
        (λ x.
          Keeps none m x
          × Carries x (PlannedAuthPlacement.query name) (AuthTransportMaterial.secret i s))
        same
        (pair-Keeps m name s, (native.query_pairs m, [], native.query_pairs-append_pair m name s))
  place-ok (PlannedAuthPlacement.query name) (AuthTransportMaterial.basic i u p) m m' h = absurd cc
