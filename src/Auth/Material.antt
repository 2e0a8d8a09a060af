-- ===== src/Auth/Material.antt =====
-- concord_core/src/auth/plan.rs: a credential is applied to its planned slot, and bound to it.
pub mod Bound
use concord_api.Base.{
  ℕ, Bool, true, false, not, ◌&&◌, ◌||◌, String, String-discrete, ℕ_discrete, Option, none, some,
  List, [], ◌∷◌, Result, ok, err, ◌>>=◌, ◌>>◌, ok_or, beq, if◌then◌else◌,
}
use concord_api.Headers.Text.{as_bytes, eq_ignore_ascii_case}
use concord_api.Auth.Errors.{AuthError, AuthErrorKind, auth_error}
use concord_api.Auth.Uses.{
  CredentialId-discrete, CredentialRef, CredentialRef-discrete, AuthUsageId, AuthUsageId-discrete,
  AuthProvenance, AuthProvenance-discrete, StepId-discrete, AuthPlacement, AuthRequirement,
  AuthAppliedCredential,
}
use concord_api.Auth.Placement.{PlannedAuthPlacement, PlannedAuthSlot, misconfigured}

pub data AuthTransportMaterial : Type 0 where
  secret : ℕ → String → AuthTransportMaterial
  basic : ℕ → String → String → AuthTransportMaterial

abbrev pub slot_id : AuthTransportMaterial → ℕ
slot_id (AuthTransportMaterial.secret i s) = i
slot_id (AuthTransportMaterial.basic i u p) = i

pub data AuthPreparationReuse : Type 0 where
  never request_local : AuthPreparationReuse

pub record PreparedAuthCredential : Type 0 where
  pub applied : AuthAppliedCredential
  pub reuse : AuthPreparationReuse
  pub material : AuthTransportMaterial

abbrev pub placement_matches_requirement : PlannedAuthPlacement → AuthPlacement → Bool
placement_matches_requirement PlannedAuthPlacement.bearer AuthPlacement.bearer = true
placement_matches_requirement PlannedAuthPlacement.bearer AuthPlacement.basic = false
placement_matches_requirement PlannedAuthPlacement.bearer (AuthPlacement.header n) = false
placement_matches_requirement PlannedAuthPlacement.bearer (AuthPlacement.query n) = false
placement_matches_requirement PlannedAuthPlacement.basic AuthPlacement.bearer = false
placement_matches_requirement PlannedAuthPlacement.basic AuthPlacement.basic = true
placement_matches_requirement PlannedAuthPlacement.basic (AuthPlacement.header n) = false
placement_matches_requirement PlannedAuthPlacement.basic (AuthPlacement.query n) = false
placement_matches_requirement (PlannedAuthPlacement.header m) AuthPlacement.bearer = false
placement_matches_requirement (PlannedAuthPlacement.header m) AuthPlacement.basic = false
placement_matches_requirement (PlannedAuthPlacement.header m) (AuthPlacement.header n) =
    eq_ignore_ascii_case (as_bytes m) (as_bytes n)
placement_matches_requirement (PlannedAuthPlacement.header m) (AuthPlacement.query n) = false
placement_matches_requirement (PlannedAuthPlacement.query m) AuthPlacement.bearer = false
placement_matches_requirement (PlannedAuthPlacement.query m) AuthPlacement.basic = false
placement_matches_requirement (PlannedAuthPlacement.query m) (AuthPlacement.header n) = false
placement_matches_requirement (PlannedAuthPlacement.query m) (AuthPlacement.query n) =
    beq String-discrete m n

-- The slot was planned for the use of the requirement.
abbrev pub same_plan : PlannedAuthSlot → AuthRequirement → Bool
same_plan planned requirement =
    beq CredentialRef-discrete planned.credential requirement.credential
    && (beq AuthUsageId-discrete planned.usage_id requirement.usage_id
        && (beq StepId-discrete planned.step_id requirement.step_id
            && beq AuthProvenance-discrete planned.provenance requirement.provenance))

-- `AuthApplicationRequest::validate_requirement`.
unfoldable pub validate_requirement :
    PlannedAuthSlot → AuthRequirement → Result AuthError (Unit {0})
validate_requirement planned requirement =
    if not (same_plan planned requirement)
    then err
        (misconfigured "credential application does not match the preplanned authentication slot")
    else if not (placement_matches_requirement planned.placement requirement.placement)
    then err (misconfigured "credential application placement does not match the preplanned slot")
    else ok tt

abbrev pub takes_secret : PlannedAuthPlacement → Bool
takes_secret PlannedAuthPlacement.bearer = true
takes_secret PlannedAuthPlacement.basic = false
takes_secret (PlannedAuthPlacement.header n) = true
takes_secret (PlannedAuthPlacement.query n) = true

abbrev pub unsupported : String → AuthError
unsupported message = auth_error AuthErrorKind.unsupported_scheme message

unfoldable pub apply_secret_credential :
    PlannedAuthSlot → AuthRequirement → String → Result AuthError AuthTransportMaterial
unfolding validate_requirement
apply_secret_credential planned requirement value =
    validate_requirement planned requirement
    >> (if takes_secret planned.placement
        then ok (AuthTransportMaterial.secret planned.id value)
        else err (unsupported "credential material does not support preplanned auth placement"))

unfoldable pub apply_basic_credential :
    PlannedAuthSlot → AuthRequirement → String → String → Result AuthError AuthTransportMaterial
unfolding validate_requirement
apply_basic_credential planned requirement username password =
    validate_requirement planned requirement
    >> (if takes_secret planned.placement
        then err (unsupported "basic credential requires basic auth placement")
        else ok (AuthTransportMaterial.basic planned.id username password))

abbrev pub material_matches_slot : AuthTransportMaterial → PlannedAuthSlot → Bool
material_matches_slot (AuthTransportMaterial.secret i s) slot = takes_secret slot.placement
material_matches_slot (AuthTransportMaterial.basic i u p) slot = not (takes_secret slot.placement)

-- The credential was applied for the use of the slot.
abbrev pub applied_for : AuthAppliedCredential → PlannedAuthSlot → Bool
applied_for applied slot =
    beq CredentialId-discrete applied.credential_id slot.credential.id
    && (beq AuthUsageId-discrete applied.usage_id slot.usage_id
        && (beq StepId-discrete applied.step_id slot.step_id
            && beq AuthProvenance-discrete applied.provenance slot.provenance))

-- `PreparedAuthCredential::validate_binding`.
unfoldable pub validate_binding :
    PreparedAuthCredential → PlannedAuthSlot → Result AuthError (Unit {0})
validate_binding prepared slot =
    if not (beq ℕ_discrete (slot_id prepared.material) slot.id)
      || not (material_matches_slot prepared.material slot)
    then err (misconfigured "credential material does not match the preplanned authentication slot")
    else if not (applied_for prepared.applied slot)
    then err (misconfigured "applied credential metadata does not match the preplanned slot")
    else ok tt
