-- ===== src/Headers/Classes.antt =====
-- concord_core/src/redaction.rs: the classes of names do not depend on the case of letters.
use concord_api.Base.{◌≡◌, String, List}
use concord_api.Headers.Text.{
  Bytes, as_bytes, contains_ignore_ascii_case, ends_with_ignore_ascii_case, eq_ignore_ascii_case,
  matches_ignore_ascii_case,
}
use concord_api.Headers.Names.{
  is_sensitive_name, is_request_identity_header_name_str, is_credential_bearing_header_name,
}
use concord_api.Headers.Case.{
  SameLetters, eq-SameLetters, contains-SameLetters, ends-SameLetters, matches-SameLetters,
}

module _ (s t : String) (same : SameLetters (as_bytes s) (as_bytes t)) where
  eq_same : (c : Bytes) → eq_ignore_ascii_case (as_bytes s) c ≡ eq_ignore_ascii_case (as_bytes t) c
  eq_same c = eq-SameLetters (as_bytes s) (as_bytes t) c same

  has_same :
      (c : Bytes)
      → contains_ignore_ascii_case (as_bytes s) c ≡ contains_ignore_ascii_case (as_bytes t) c
  has_same c = contains-SameLetters (as_bytes s) (as_bytes t) c same

  ends_same :
      (c : Bytes)
      → ends_with_ignore_ascii_case (as_bytes s) c ≡ ends_with_ignore_ascii_case (as_bytes t) c
  ends_same c = ends-SameLetters (as_bytes s) (as_bytes t) c same

  matches_same :
      (cs : List String)
      → matches_ignore_ascii_case (as_bytes s) cs ≡ matches_ignore_ascii_case (as_bytes t) cs
  matches_same cs = matches-SameLetters (as_bytes s) (as_bytes t) cs same

  sensitive_same : is_sensitive_name s ≡ is_sensitive_name t
  unfolding is_sensitive_name
  sensitive_same = simp (has_same, ends_same, eq_same)

  identity_same : is_request_identity_header_name_str s ≡ is_request_identity_header_name_str t
  unfolding is_request_identity_header_name_str
  identity_same = simp eq_same

  bearing_same : is_credential_bearing_header_name s ≡ is_credential_bearing_header_name t
  unfolding is_credential_bearing_header_name
  bearing_same = simp (identity_same, has_same, ends_same, eq_same)

-- Two names that differ only in the case of ASCII letters are both sensitive or neither, both
-- credential-bearing or neither, and both names of a request's identity or neither.
pub classes_ignore_case :
    (s t : String)
    → SameLetters (as_bytes s) (as_bytes t)
    → (is_sensitive_name s ≡ is_sensitive_name t)
      × (is_credential_bearing_header_name s ≡ is_credential_bearing_header_name t)
      × (is_request_identity_header_name_str s ≡ is_request_identity_header_name_str t)
classes_ignore_case s t same =
    (sensitive_same s t same, bearing_same s t same, identity_same s t same)
