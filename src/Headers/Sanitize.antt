-- ===== src/Headers/Sanitize.antt =====
-- concord_core/src/redaction.rs: what is shown of headers and addresses in debug output and errors.
use concord_api.Base.{Bool, ◌||◌, String, List, [], ◌∷◌, if◌then◌else◌}
use concord_api.Headers.Text.{any, as_bytes, eq_ignore_ascii_case}
use concord_api.Headers.Names.{is_sensitive_name}
use concord_api.Headers.Maps.{HeaderMap}

abbrev pub should_redact_header_name : String → Bool
should_redact_header_name name = is_sensitive_name name

module _ {M V : Type 0} (http : HeaderMap M V) (redacted : V) where
  -- One round of the loop over the entries.
  abbrev pub sanitize_entries : List (String × V) → M → M
  sanitize_entries [] sanitized = sanitized
  sanitize_entries ((name, value) ∷ entries) sanitized =
      let hidden = sanitize_entries entries (http.append sanitized name redacted) in
      let shown = sanitize_entries entries (http.append sanitized name value) in
      if should_redact_header_name name then hidden else shown

  unfoldable pub sanitize_header_map : M → M
  sanitize_header_map headers = sanitize_entries (http.iter headers) http.new

-- The crate `url`: an address, its query pairs, and how it is written out. `unescape` is the final
-- replacement of the escaped `<redacted>`.
pub record Urls (U : Type 0) : Type 0 where
  pub has_query : U → Bool
  pub query_pairs : U → List (String × String)
  pub clear_query : U → U
  pub append_pair : U → String → String → U
  pub to_string : U → String
  pub unescape : String → String

abbrev pub is_redacted : List String → String → Bool
is_redacted sensitive_query_keys key =
    any (λ candidate. eq_ignore_ascii_case (as_bytes key) (as_bytes candidate)) sensitive_query_keys
    || is_sensitive_name key

module _ {U : Type 0} (url_crate : Urls U) (sensitive_query_keys : List String) where
  abbrev pub append_pairs : List (String × String) → U → U
  append_pairs [] out = out
  append_pairs ((key, value) ∷ pairs) out =
      let hidden = append_pairs pairs (url_crate.append_pair out key "<redacted>") in
      let shown = append_pairs pairs (url_crate.append_pair out key value) in
      if is_redacted sensitive_query_keys key then hidden else shown

  unfoldable pub sanitize_url_for_debug : U → String
  sanitize_url_for_debug url =
      if url_crate.has_query url
      then url_crate.unescape (
          url_crate.to_string
            (append_pairs (url_crate.query_pairs url) (url_crate.clear_query url)))
      else url_crate.to_string url
