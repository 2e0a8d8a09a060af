-- ===== src/Headers/Tests.antt =====
-- The names, the sanitized output and the ownership of headers on examples.
use concord_api.Base.{
  ◌≡◌, refl, ap, ◌↔◌, true, false, inl, inr, Bool-cases, String, String-discrete, List, [], ◌∷◌,
  ◌++◌, map, beq, if◌then◌else◌,
}
use concord_api.Headers.Text.{
  Bytes, as_bytes, to_lower, contains_ignore_ascii_case, eq_ignore_ascii_case,
  ends_with_ignore_ascii_case,
}
use concord_api.Headers.Search.{contains_iff_slice}
use concord_api.Headers.Classes.{classes_ignore_case}
use concord_api.Headers.Names.{
  is_sensitive_name, is_credential_bearing_header_name, is_request_identity_header_name_str,
  is_forbidden_public_header, is_forbidden_auth_placement,
}
use concord_api.Headers.Maps.{HeaderMap, values_of}
use concord_api.Headers.Sanitize.{Urls, sanitize_header_map, sanitize_url_for_debug}
use concord_api.Headers.Secrecy.{shown, get_all-sanitize, shown_urls-SamePublicPairs}
use concord_api.Headers.Ownership.{
  Validated, validate_public_headers, validate_public_headers-Validated,
}

-- Header maps as lists of entries.
abbrev Entries : Type 0
Entries = List (String × String)

values_of-append :
    (m : Entries) (n v name : String)
    → values_of name (m ++ (n, v) ∷ [])
      ≡ values_of name m ++ (if beq String-discrete n name then v ∷ [] else [])
values_of-append [] n v name = refl
values_of-append ((k, w) ∷ m) n v name = elim (Bool-cases (beq String-discrete k name)) [
  | inl e ↦ rw e (ap (λ t. w ∷ t) (values_of-append m n v name))
  | inr e ↦ rw e (values_of-append m n v name)
]

abbrev entry_map : HeaderMap Entries String
entry_map = record {
  new = [];
  append = λ m n v. m ++ (n, v) ∷ [];
  iter = λ m. m;
  get_all = λ m name. values_of name m;
  get_all-new = λ name. refl;
  get_all-append = values_of-append;
  values_of-iter = λ m name. refl;
}

abbrev two_headers : Entries
two_headers = ("x-api-key", "hidden") ∷ ("accept", "json") ∷ []

sanitized_headers :
    sanitize_header_map entry_map "<redacted>" two_headers
    ≡ ("x-api-key", "<redacted>") ∷ ("accept", "json") ∷ []
unfolding sanitize_header_map is_sensitive_name eq_ignore_ascii_case to_lower
    contains_ignore_ascii_case ends_with_ignore_ascii_case
sanitized_headers = refl

identity_names_are_public :
    (is_forbidden_public_header "idempotency-key" ≡ false)
    × (is_forbidden_auth_placement "idempotency-key" ≡ true)
    × (is_credential_bearing_header_name "X-Client-Key" ≡ true)
unfolding is_forbidden_public_header is_forbidden_auth_placement is_credential_bearing_header_name
    is_request_identity_header_name_str eq_ignore_ascii_case to_lower contains_ignore_ascii_case
    ends_with_ignore_ascii_case String-discrete
identity_names_are_public = (refl, refl, refl)

contains_iff_slice_example :
    (contains_ignore_ascii_case (as_bytes "My-Token-Header") (as_bytes "token") ≡ true) ↔ (
      (before : Bytes) × (after : Bytes) × (map to_lower (as_bytes "My-Token-Header")
        ≡ before ++ (map to_lower (as_bytes "token") ++ after)))
contains_iff_slice_example = contains_iff_slice (as_bytes "My-Token-Header") (as_bytes "token")

abbrev same_key : map to_lower (as_bytes "X-Api-Key") ≡ map to_lower (as_bytes "x-api-key")
unfolding to_lower
same_key = refl

classes_ignore_case_example :
    (is_sensitive_name "X-Api-Key" ≡ is_sensitive_name "x-api-key")
    × (is_credential_bearing_header_name "X-Api-Key"
        ≡ is_credential_bearing_header_name "x-api-key")
    × (is_request_identity_header_name_str "X-Api-Key"
        ≡ is_request_identity_header_name_str "x-api-key")
classes_ignore_case_example = classes_ignore_case "X-Api-Key" "x-api-key" same_key

get_all-sanitize_example :
    entry_map.get_all (sanitize_header_map entry_map "<redacted>" two_headers) "x-api-key"
    ≡ shown entry_map "<redacted>" "x-api-key" (entry_map.get_all two_headers "x-api-key")
get_all-sanitize_example = get_all-sanitize entry_map "<redacted>" two_headers "x-api-key"

-- Addresses as their query pairs; written out as the last value.
abbrev last_value : Entries → String
last_value [] = ""
last_value ((k, v) ∷ []) = v
last_value (p ∷ q ∷ ps) = last_value (q ∷ ps)

abbrev query_urls : Urls Entries
query_urls = record {
  has_query = λ u. true;
  query_pairs = λ u. u;
  clear_query = λ u. [];
  append_pair = λ u k v. u ++ (k, v) ∷ [];
  to_string = last_value;
  unescape = λ s. s;
}

shown_urls-SamePublicPairs_example :
    sanitize_url_for_debug query_urls ("pin" ∷ []) (("page", "2") ∷ ("PIN", "1") ∷ [])
    ≡ sanitize_url_for_debug query_urls ("pin" ∷ []) (("page", "2") ∷ ("PIN", "9") ∷ [])
unfolding is_sensitive_name eq_ignore_ascii_case to_lower contains_ignore_ascii_case
    ends_with_ignore_ascii_case
shown_urls-SamePublicPairs_example =
    shown_urls-SamePublicPairs query_urls ("pin" ∷ []) (("page", "2") ∷ ("PIN", "1") ∷ [])
      (("page", "2") ∷ ("PIN", "9") ∷ []) refl refl refl refl

validate_public_headers-Validated_example :
    Validated ("accept" ∷ "x-api-key" ∷ []) (validate_public_headers ("accept" ∷ "x-api-key" ∷ []))
validate_public_headers-Validated_example =
    validate_public_headers-Validated ("accept" ∷ "x-api-key" ∷ [])
