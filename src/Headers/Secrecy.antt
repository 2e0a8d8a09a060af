-- ===== src/Headers/Secrecy.antt =====
-- concord_core/src/redaction.rs: what sanitized headers and addresses tell.
use mathlib.Core.List.{append_assoc, append-nil}
use concord_api.Base.{
  ◌≡◌, refl, sym, ◌∙◌, inl, inr, true, false, Bool-cases, String, String-discrete, List, [], ◌∷◌,
  ◌++◌, map, beq, beq_refl, beq-eq-true, if_either, arith, if◌then◌else◌,
}
use concord_api.Headers.Maps.{HeaderMap, values_of}
use concord_api.Headers.Names.{is_sensitive_name}
use concord_api.Headers.Sanitize.{
  sanitize_header_map, sanitize_entries, Urls, is_redacted, append_pairs, sanitize_url_for_debug,
}

module _ {M V : Type 0} (http : HeaderMap M V) (redacted : V) where
  -- What is left of the values of a name.
  abbrev pub shown : String → List V → List V
  shown name values = if is_sensitive_name name then map (λ v. redacted) values else values

  get_all-append_same :
      (m : M) (n : String) (r : V) (name : String) (rest : List V)
      → beq String-discrete n name ≡ true
      → http.get_all (http.append m n r) name ++ rest ≡ http.get_all m name ++ (r ∷ rest)
  get_all-append_same m n r name rest e =
      rw (http.get_all-append m n r name, e) (append_assoc (http.get_all m name) (r ∷ []) rest)

  get_all-append_other :
      (m : M) (n : String) (r : V) (name : String)
      → beq String-discrete n name ≡ false
      → http.get_all (http.append m n r) name ≡ http.get_all m name
  get_all-append_other m n r name e =
      rw (http.get_all-append m n r name, e) (append-nil (http.get_all m name))

  get_all-sanitize_entries :
      (entries : List (String × V)) (m : M) (name : String)
      → http.get_all (sanitize_entries http redacted entries m) name
        ≡ http.get_all m name ++ shown name (values_of name entries)
  get_all-sanitize_entries [] m name =
      if_either (λ (vs : List V). http.get_all m name ≡ http.get_all m name ++ vs)
        (is_sensitive_name name) (sym (append-nil (http.get_all m name)))
        (sym (append-nil (http.get_all m name)))
  get_all-sanitize_entries ((n, v) ∷ entries) m name =
      let ih = get_all-sanitize_entries entries in
      elim (Bool-cases (beq String-discrete n name)) [
        | inl e ↦
            let same : (n ≡ name) = beq-eq-true String-discrete n name e in
            elim (Bool-cases (is_sensitive_name name)) [
              | inl s ↦
                  rw (same, s, beq_refl String-discrete name)
                    (ih (http.append m name redacted) name
                      ∙ rw s (
                          get_all-append_same m name redacted name _
                            (beq_refl String-discrete name)))
              | inr s ↦
                  rw (same, s, beq_refl String-discrete name)
                    (ih (http.append m name v) name
                      ∙ rw s (get_all-append_same m name v name _ (beq_refl String-discrete name)))
            ]
        | inr e ↦ elim (Bool-cases (is_sensitive_name n)) [
          | inl s ↦
              rw (s, e)
                (ih (http.append m n redacted) name
                  ∙ rw (get_all-append_other m n redacted name e) refl)
          | inr s ↦
              rw (s, e) (ih (http.append m n v) name ∙ rw (get_all-append_other m n v name e) refl)
        ]
      ]

  -- A sanitized header map has, for each name, as many values as before; they are all `<redacted>` if
  -- the name is sensitive, and the same values in the same order if not.
  pub get_all-sanitize :
      (headers : M) (name : String)
      → http.get_all (sanitize_header_map http redacted headers) name
        ≡ shown name (http.get_all headers name)
  unfolding sanitize_header_map
  get_all-sanitize headers name =
      get_all-sanitize_entries (http.iter headers) http.new name
      ∙ rw (http.get_all-new name, http.values_of-iter headers name) refl

-- What is shown of a pair.
abbrev shown_pair : List String → String × String → String × String
shown_pair keys (key, value) = (key, if is_redacted keys key then "<redacted>" else value)

-- The pairs have the same keys in order, and the same values at each key that is not redacted.
abbrev pub SamePublicPairs : List String → List (String × String) → List (String × String) → Type 0
SamePublicPairs keys ps qs = map (shown_pair keys) ps ≡ map (shown_pair keys) qs

module _ {U : Type 0} (url_crate : Urls U) (keys : List String) where
  append_plain : List (String × String) → U → U
  append_plain [] out = out
  append_plain ((k, v) ∷ ps) out = append_plain ps (url_crate.append_pair out k v)

  append_pairs-plain :
      (ps : List (String × String)) (out : U)
      → append_pairs url_crate keys ps out ≡ append_plain (map (shown_pair keys) ps) out
  unfolding append_plain
  append_pairs-plain [] out = refl
  append_pairs-plain ((k, v) ∷ ps) out = elim (Bool-cases (is_redacted keys k)) [
    | inl e ↦ ground (arith, append_pairs-plain ps (url_crate.append_pair out k "<redacted>"))
    | inr e ↦ ground (arith, append_pairs-plain ps (url_crate.append_pair out k v))
  ]

  -- Two addresses with queries that agree but for the values of redacted keys are shown as the same
  -- text: the text does not depend on those values.
  pub shown_urls-SamePublicPairs :
      (u v : U)
      → url_crate.has_query u ≡ true
      → url_crate.has_query v ≡ true
      → url_crate.clear_query u ≡ url_crate.clear_query v
      → SamePublicPairs keys (url_crate.query_pairs u) (url_crate.query_pairs v)
      → sanitize_url_for_debug url_crate keys u ≡ sanitize_url_for_debug url_crate keys v
  unfolding sanitize_url_for_debug
  shown_urls-SamePublicPairs u v hu hv base same =
      rw
        (
          hu,
          hv,
          append_pairs-plain (url_crate.query_pairs u) (url_crate.clear_query u),
          append_pairs-plain (url_crate.query_pairs v) (url_crate.clear_query v),
          same,
          base,
        )
        refl
