-- ===== src/Auth/Placement/Public.antt =====
-- concord_core/src/auth/plan.rs: no credential takes a place that the public request has taken.
use concord_api.Base.{
  Bool, ◌||◌, List, [], ◌∷◌, String, String-discrete, contains, Result, ok, err, if◌then◌else◌,
}
use concord_api.Auth.Errors.{AuthError}
use concord_api.Auth.Placement.{PlannedAuthPlacement, PlannedAuthSlot, misconfigured}

-- The request's header names and query keys, and the header names that its body reserves.
pub record PublicRequest : Type 0 where
  pub header_names : List String
  pub query_keys : List String
  pub reserved_headers : List String

abbrev pub has_name : List String → String → Bool
has_name = contains String-discrete

-- Whether the public request has the place of the credential.
abbrev pub is_taken : PublicRequest → PlannedAuthPlacement → Bool
is_taken request PlannedAuthPlacement.bearer = has_name request.header_names "authorization"
is_taken request PlannedAuthPlacement.basic = has_name request.header_names "authorization"
is_taken request (PlannedAuthPlacement.header name) =
    has_name request.header_names name || has_name request.reserved_headers name
is_taken request (PlannedAuthPlacement.query name) = has_name request.query_keys name

-- `validate_public_request_with_reserved_headers`, over the slots of the plan.
unfoldable pub validate_public_request :
    List PlannedAuthSlot → PublicRequest → Result AuthError (Unit {0})
validate_public_request [] request = ok tt
validate_public_request (slot ∷ slots) request =
    let rest = validate_public_request slots request in
    if is_taken request slot.placement
    then err (misconfigured "auth collides with an existing public header or query parameter")
    else rest
