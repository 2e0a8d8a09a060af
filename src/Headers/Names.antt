-- ===== src/Headers/Names.antt =====
-- concord_core/src/redaction.rs and concord_core/src/header_ownership.rs: the classes of names. A
-- `HeaderName` is its lower-case text.
use concord_api.Base.{
  Bool, false, ◌&&◌, ◌||◌, String, String-discrete, List, [], ◌∷◌, beq, contains, if◌then◌else◌,
}
use concord_api.Headers.Text.{
  Bytes, any, as_bytes, contains_ignore_ascii_case, ends_with_ignore_ascii_case,
  eq_ignore_ascii_case, matches_ignore_ascii_case,
}

abbrev has : Bytes → String → Bool
has name part = contains_ignore_ascii_case name (as_bytes part)

abbrev ends : Bytes → String → Bool
ends name part = ends_with_ignore_ascii_case name (as_bytes part)

abbrev sensitive_names : List String
sensitive_names =
    "authorization" ∷ "proxy-authorization" ∷ "cookie" ∷ "set-cookie" ∷ "www-authenticate"
    ∷ "x-api-key" ∷ "x-api-token" ∷ "x-auth-token" ∷ "x-access-token" ∷ "x-refresh-token"
    ∷ "x-session-token" ∷ "access_token" ∷ "refresh_token" ∷ "api_key" ∷ "apikey" ∷ "key" ∷ "token"
    ∷ "secret" ∷ "password" ∷ "auth" ∷ []

unfoldable pub is_sensitive_name : String → Bool
is_sensitive_name name =
    let n = as_bytes name in
    matches_ignore_ascii_case n sensitive_names
    || has n "token"
    || has n "secret"
    || has n "api-key"
    || has n "apikey"
    || has n "session"
    || has n "credential"
    || has n "authorization"
    || ends n "_key"
    || ends n "-key"

abbrev request_identity_headers : List String
request_identity_headers =
    "idempotency-key" ∷ "request-id" ∷ "request-idempotency-key" ∷ "x-request-id"
    ∷ "x-request-idempotency-key" ∷ "x-correlation-id" ∷ "correlation-id" ∷ []

unfoldable pub is_request_identity_header_name_str : String → Bool
is_request_identity_header_name_str name =
    any (λ candidate. eq_ignore_ascii_case (as_bytes name) (as_bytes candidate))
      request_identity_headers

unfoldable pub is_credential_bearing_header_name : String → Bool
unfolding is_request_identity_header_name_str
is_credential_bearing_header_name name =
    let n = as_bytes name in
    if is_request_identity_header_name_str name
    then false
    else if matches_ignore_ascii_case n
        ("set-cookie" ∷ "www-authenticate" ∷ "proxy-authenticate" ∷ [])
    then false
    else matches_ignore_ascii_case n (
        "authorization" ∷ "proxy-authorization" ∷ "api-key" ∷ "access-token" ∷ "refresh-token"
        ∷ "session-token" ∷ "api-token" ∷ "x-api-key" ∷ "x-client-key" ∷ "x-subscription-key"
        ∷ "ocp-apim-subscription-key" ∷ "cookie" ∷ [])
      || has n "authorization"
      || has n "credential"
      || has n "secret"
      || has n "password"
      || has n "token"
      || has n "auth"
      || (has n "api" && (has n "key" || has n "token"))
      || ends n "_key"
      || ends n "-key"

abbrev one_of : String → List String → Bool
one_of name names = contains String-discrete names name

unfoldable pub is_protocol_or_reqwest_owned : String → Bool
is_protocol_or_reqwest_owned name =
    one_of name (
      "content-length" ∷ "transfer-encoding" ∷ "accept-encoding" ∷ "host" ∷ "connection"
      ∷ "proxy-authorization" ∷ "cookie" ∷ "set-cookie" ∷ [])
    || one_of name (
        "keep-alive" ∷ "proxy-connection" ∷ "te" ∷ "trailer" ∷ "upgrade" ∷ "proxy-authenticate"
        ∷ "proxy-authorization" ∷ "www-authenticate" ∷ [])

abbrev is_header : String → String → Bool
is_header name constant = beq String-discrete name constant

unfoldable pub is_forbidden_auth_placement : String → Bool
unfolding is_protocol_or_reqwest_owned is_request_identity_header_name_str
is_forbidden_auth_placement name =
    is_protocol_or_reqwest_owned name
    || is_header name "content-type"
    || is_header name "user-agent"
    || is_header name "authorization"
    || is_header name "content-length"
    || is_request_identity_header_name_str name

unfoldable pub is_forbidden_public_header : String → Bool
unfolding is_protocol_or_reqwest_owned is_credential_bearing_header_name
is_forbidden_public_header name =
    is_protocol_or_reqwest_owned name
    || is_header name "user-agent"
    || is_credential_bearing_header_name name
