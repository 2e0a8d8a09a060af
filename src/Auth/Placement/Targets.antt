-- ===== src/Auth/Placement/Targets.antt =====
-- concord_core/src/auth/plan.rs: the part of a request that a placement takes, described apart from the
-- checks of the plan.
use concord_api.Base.{
  ◌≡◌, ◌≢◌, refl, sym, ap, subst, ◌∙◌, true, false, inl, inr, Option, some, ok, String,
  String-discrete, List, [], ◌∷◌, All, beq, beq_refl, contains, Option-cases, arith,
}
use concord_api.Headers.Text.{as_bytes}
use concord_api.Headers.Search.{lower}
use concord_api.Headers.Bearing.{
  identifies_request, reserved_names, is_forbidden_auth_placement-reserved,
}
use concord_api.Auth.Uses.{AuthPlacement}
use concord_api.Auth.Placement.{
  PlannedAuthPlacement, PlannedAuthSlot, placements_collide, is_reserved, plan_placement,
}
use concord_api.Auth.Placement.Planned.{Apart, AreApart}

pub data Target : Type 0 where
  header_target query_target : String → Target

-- Bearer and Basic credentials are both values of one header.
abbrev pub target_of : PlannedAuthPlacement → Target
target_of PlannedAuthPlacement.bearer = header_target "authorization"
target_of PlannedAuthPlacement.basic = header_target "authorization"
target_of (PlannedAuthPlacement.header name) = header_target name
target_of (PlannedAuthPlacement.query name) = query_target name

-- No two slots take the same part.
abbrev pub AreDistinct : List PlannedAuthSlot → Type 0
AreDistinct [] = Unit
AreDistinct (s ∷ ss) = All (λ t. target_of s.placement ≢ target_of t.placement) ss × AreDistinct ss

-- A placement under a header's own name takes none that is reserved.
abbrev pub IsFree : PlannedAuthPlacement → Type 0
IsFree PlannedAuthPlacement.bearer = Unit
IsFree PlannedAuthPlacement.basic = Unit
IsFree (PlannedAuthPlacement.query name) = Unit
IsFree (PlannedAuthPlacement.header name) =
    (contains String-discrete reserved_names name ≡ false)
    × (identifies_request (lower (as_bytes name)) ≡ false)

abbrev name_of : Target → String
name_of (header_target name) = name
name_of (query_target name) = name

same_name : (n m : String) → n ≡ m → beq String-discrete n m ≡ true
same_name n m e = subst (λ k. beq String-discrete n k ≡ true) e (beq_refl String-discrete n)

same_target :
    (p q : PlannedAuthPlacement) → target_of p ≡ target_of q → placements_collide p q ≡ true
same_target PlannedAuthPlacement.bearer PlannedAuthPlacement.bearer e = refl
same_target PlannedAuthPlacement.bearer PlannedAuthPlacement.basic e = refl
same_target PlannedAuthPlacement.basic PlannedAuthPlacement.bearer e = refl
same_target PlannedAuthPlacement.basic PlannedAuthPlacement.basic e = refl
same_target PlannedAuthPlacement.bearer (PlannedAuthPlacement.header m) e =
    same_name m "authorization" (sym (ap name_of e))
same_target PlannedAuthPlacement.basic (PlannedAuthPlacement.header m) e =
    same_name m "authorization" (sym (ap name_of e))
same_target (PlannedAuthPlacement.header n) PlannedAuthPlacement.bearer e =
    same_name n "authorization" (ap name_of e)
same_target (PlannedAuthPlacement.header n) PlannedAuthPlacement.basic e =
    same_name n "authorization" (ap name_of e)
same_target (PlannedAuthPlacement.header n) (PlannedAuthPlacement.header m) e =
    same_name n m (ap name_of e)
same_target (PlannedAuthPlacement.query n) (PlannedAuthPlacement.query m) e =
    same_name n m (ap name_of e)
same_target (PlannedAuthPlacement.query n) (PlannedAuthPlacement.header m) e = cc
same_target (PlannedAuthPlacement.header n) (PlannedAuthPlacement.query m) e = cc
same_target (PlannedAuthPlacement.query n) PlannedAuthPlacement.bearer e = cc
same_target (PlannedAuthPlacement.query n) PlannedAuthPlacement.basic e = cc
same_target PlannedAuthPlacement.bearer (PlannedAuthPlacement.query m) e = cc
same_target PlannedAuthPlacement.basic (PlannedAuthPlacement.query m) e = cc

Apart-distinct :
    (s : PlannedAuthSlot) (ss : List PlannedAuthSlot)
    → All (Apart s) ss
    → All (λ t. target_of s.placement ≢ target_of t.placement) ss
Apart-distinct s [] h = tt
Apart-distinct s (t ∷ ss) (apart, h) = (
  λ e. let clash = same_target s.placement t.placement e in absurd (cc (clash, apart.0)),
  Apart-distinct s ss h,
)

pub AreApart-AreDistinct : (ss : List PlannedAuthSlot) → AreApart ss → AreDistinct ss
AreApart-AreDistinct [] h = tt
AreApart-AreDistinct (s ∷ ss) (h, hs) = (Apart-distinct s ss h, AreApart-AreDistinct ss hs)

pub is_reserved-IsFree : (p : PlannedAuthPlacement) → is_reserved p ≡ false → IsFree p
is_reserved-IsFree PlannedAuthPlacement.bearer h = tt
is_reserved-IsFree PlannedAuthPlacement.basic h = tt
is_reserved-IsFree (PlannedAuthPlacement.query name) h = tt
is_reserved-IsFree (PlannedAuthPlacement.header name) h =
    let either = sym (is_forbidden_auth_placement-reserved name) ∙ h in
    (ground (arith, either), ground (arith, either))

module _ (from_bytes : String → Option String) where
  -- A placement as it is planned: a header's name is the one that it is parsed to.
  abbrev pub Places : AuthPlacement → PlannedAuthPlacement → Type 0
  Places AuthPlacement.bearer p = p ≡ PlannedAuthPlacement.bearer
  Places AuthPlacement.basic p = p ≡ PlannedAuthPlacement.basic
  Places (AuthPlacement.query name) p = p ≡ PlannedAuthPlacement.query name
  Places (AuthPlacement.header name) p =
      (parsed : String) × (from_bytes name ≡ some parsed) × (p ≡ PlannedAuthPlacement.header parsed)

  pub plan_placement-Places :
      (a : AuthPlacement) (p : PlannedAuthPlacement)
      → plan_placement from_bytes a ≡ ok p
      → Places a p
  plan_placement-Places AuthPlacement.bearer p h = cc
  plan_placement-Places AuthPlacement.basic p h = cc
  plan_placement-Places (AuthPlacement.query name) p h = cc
  plan_placement-Places (AuthPlacement.header name) p h = elim (Option-cases (from_bytes name)) [
    | inl e ↦ absurd (ground (arith, e, h))
    | inr (m, e) ↦ (m, e, ground (arith, e, h))
  ]
