-- ===== src/Headers/Bearing.antt =====
-- concord_core/src/redaction.rs and concord_core/src/header_ownership.rs: which names a public header may
-- not have, described on the lower-cased bytes of the name.
use concord_api.Base.{
  ℕ, suc, ◌-◌, ◌≤◌, ◌<◌, ◌≡◌, refl, ap, inl, inr, Bool, true, false, ◌&&◌, ◌||◌, not, String,
  String-discrete, List, [], ◌∷◌, length, leb, ◌==◌, arith, Bool-cases, beq, beq-sym, contains,
  if◌then◌else◌,
}
use concord_api.Headers.Text.{
  Bytes, same_letter, zip_all, drop, as_bytes, eq_ignore_ascii_case, ends_with_ignore_ascii_case,
  matches_ignore_ascii_case,
}
use concord_api.Headers.Names.{
  is_request_identity_header_name_str, is_credential_bearing_header_name,
  is_protocol_or_reqwest_owned, is_forbidden_public_header, is_forbidden_auth_placement,
}
use concord_api.Headers.Search.{lower, is_infix, length-lower, contains-is_infix}

abbrev same_bytes : Bytes → Bytes → Bool
same_bytes [] [] = true
same_bytes [] (b ∷ bs) = false
same_bytes (a ∷ as') [] = false
same_bytes (a ∷ as') (b ∷ bs) = a == b && same_bytes as' bs

abbrev is_suffix : Bytes → Bytes → Bool
is_suffix n [] = same_bytes [] n
is_suffix n (b ∷ h) = same_bytes (b ∷ h) n || is_suffix n h

zip_all-same_bytes :
    (h n : Bytes) → length h ≡ length n → zip_all same_letter h n ≡ same_bytes (lower h) (lower n)
zip_all-same_bytes [] [] e = refl
zip_all-same_bytes [] (b ∷ n) e = absurd (omega (arith, e))
zip_all-same_bytes (a ∷ h) [] e = absurd (omega (arith, e))
zip_all-same_bytes (a ∷ h) (b ∷ n) e =
    ap (λ t. same_letter a b && t) (zip_all-same_bytes h n (omega (arith, e)))

same_bytes-length : (h n : Bytes) → same_bytes h n ≡ true → length h ≡ length n
same_bytes-length [] [] e = refl
same_bytes-length [] (b ∷ n) e = absurd cc
same_bytes-length (a ∷ h) [] e = absurd cc
same_bytes-length (a ∷ h) (b ∷ n) e = omega (arith, same_bytes-length h n (ground (arith, e)))

unequal_lengths :
    (h n : Bytes) → (length h == length n) ≡ false → same_bytes (lower h) (lower n) ≡ false
unequal_lengths h n e = elim (Bool-cases (same_bytes (lower h) (lower n))) [
  | inr f ↦ f
  | inl f ↦
      let same = same_bytes-length (lower h) (lower n) f in
      absurd (ground (arith, e, same, length-lower h, length-lower n))
]

spells : (h n : Bytes) → eq_ignore_ascii_case h n ≡ same_bytes (lower h) (lower n)
unfolding eq_ignore_ascii_case
spells h n = elim (Bool-cases (length h == length n)) [
  | inl e ↦ ground (arith, e, zip_all-same_bytes h n (ground (arith, e)))
  | inr e ↦ ground (arith, e, unequal_lengths h n e)
]

-- A text that is shorter has no such end.
short-is_suffix : (n h : Bytes) → length h < length n → is_suffix (lower n) (lower h) ≡ false
short-is_suffix [] [] e = absurd (omega arith)
short-is_suffix (a ∷ n) [] e = refl
short-is_suffix n (b ∷ h) e =
    ground (arith, unequal_lengths (b ∷ h) n (ground (arith, e)), short-is_suffix n h (omega arith))

-- The end of a text that is longer by one.
end_of_longer :
    (b : ℕ) (h n : Bytes)
    → length n ≤ length h
    → drop (length (b ∷ h) - length n) (b ∷ h) ≡ drop (length h - length n) h
end_of_longer b h n e =
    let longer : (length (b ∷ h) - length n ≡ suc (length h - length n)) = omega (arith, e) in
    ap (λ k. drop k (b ∷ h)) longer

whole : (h n : Bytes) → length h ≡ length n → drop (length h - length n) h ≡ h
whole h n e =
    let none_left : (length h - length n ≡ 0) = omega (arith, e) in ap (λ k. drop k h) none_left

ends_with-is_suffix :
    (h n : Bytes) → ends_with_ignore_ascii_case h n ≡ is_suffix (lower n) (lower h)
unfolding ends_with_ignore_ascii_case
ends_with-is_suffix [] [] = refl
ends_with-is_suffix [] (a ∷ n) = ground arith
ends_with-is_suffix (b ∷ h) n = elim (Bool-cases (leb (length n) (length h))) [
  | inl e ↦
      let later = ends_with-is_suffix h n in
      let end = ap (λ t. zip_all same_letter t n) (end_of_longer b h n (ground (arith, e))) in
      ground (arith, e, later, end, unequal_lengths (b ∷ h) n (ground (arith, e)))
  | inr e ↦ elim (Bool-cases (length (b ∷ h) == length n)) [
    | inl f ↦
        let same : (length (b ∷ h) ≡ length n) = ground (arith, f) in
        let end = ap (λ t. zip_all same_letter t n) (whole (b ∷ h) n same) in
        ground (
          arith,
          f,
          end,
          zip_all-same_bytes (b ∷ h) n same,
          short-is_suffix n h (ground (arith, e)),
        )
    | inr f ↦ ground (arith, e, f, short-is_suffix n (b ∷ h) (ground (arith, e, f)))
  ]
]

-- The name in lower case is one of the texts.
abbrev spelled : Bytes → List String → Bool
spelled n [] = false
spelled n (c ∷ cs) = same_bytes n (lower (as_bytes c)) || spelled n cs

abbrev slice_of : String → Bytes → Bool
slice_of part n = is_infix (lower (as_bytes part)) n

abbrev end_of : String → Bytes → Bool
end_of part n = is_suffix (lower (as_bytes part)) n

-- Names that identify a request, and names of responses.
abbrev pub identifies_request : Bytes → Bool
identifies_request n = spelled n (
    "idempotency-key" ∷ "request-id" ∷ "request-idempotency-key" ∷ "x-request-id"
    ∷ "x-request-idempotency-key" ∷ "x-correlation-id" ∷ "correlation-id" ∷ [])

abbrev challenges_client : Bytes → Bool
challenges_client n = spelled n ("set-cookie" ∷ "www-authenticate" ∷ "proxy-authenticate" ∷ [])

-- Names that credentials are sent under, and parts of such names.
abbrev says_credential : Bytes → Bool
says_credential n =
    spelled n (
      "authorization" ∷ "proxy-authorization" ∷ "api-key" ∷ "access-token" ∷ "refresh-token"
      ∷ "session-token" ∷ "api-token" ∷ "x-api-key" ∷ "x-client-key" ∷ "x-subscription-key"
      ∷ "ocp-apim-subscription-key" ∷ "cookie" ∷ [])
    || slice_of "authorization" n
    || slice_of "credential" n
    || slice_of "secret" n
    || slice_of "password" n
    || slice_of "token" n
    || slice_of "auth" n
    || (slice_of "api" n && (slice_of "key" n || slice_of "token" n))
    || end_of "_key" n
    || end_of "-key" n

abbrev bears_credential : Bytes → Bool
bears_credential n = not (identifies_request n || challenges_client n) && says_credential n

-- The names that the protocol, the transport or the client sets.
abbrev owned_names : List String
owned_names =
    "content-length" ∷ "transfer-encoding" ∷ "accept-encoding" ∷ "host" ∷ "connection"
    ∷ "proxy-authorization" ∷ "cookie" ∷ "set-cookie" ∷ "keep-alive" ∷ "proxy-connection" ∷ "te"
    ∷ "trailer" ∷ "upgrade" ∷ "proxy-authenticate" ∷ "www-authenticate" ∷ "user-agent" ∷ []

-- A name that no public header may have: an owned one, or one that bears a credential.
abbrev pub forbidden : String → Bool
forbidden name =
    contains String-discrete owned_names name || bears_credential (lower (as_bytes name))

matches-spelled :
    (n : Bytes) (cs : List String) → matches_ignore_ascii_case n cs ≡ spelled (lower n) cs
matches-spelled n [] = refl
matches-spelled n (c ∷ cs) = ground (arith, spells n (as_bytes c), matches-spelled n cs)

guarded : (a b c : Bool) → (if a then false else if b then false else c) ≡ (not (a || b) && c)
guarded true b c = refl
guarded false true c = refl
guarded false false c = refl

bearing_lem :
    (name : String)
    → is_credential_bearing_header_name name ≡ bears_credential (lower (as_bytes name))
unfolding is_credential_bearing_header_name is_request_identity_header_name_str
bearing_lem name =
    let n = lower (as_bytes name) in
    simp (matches-spelled, contains-is_infix, ends_with-is_suffix)
      (guarded (identifies_request n) (challenges_client n) (says_credential n))

owned_lem :
    (name : String)
    → (is_protocol_or_reqwest_owned name || beq String-discrete name "user-agent")
      ≡ contains String-discrete owned_names name
unfolding is_protocol_or_reqwest_owned
owned_lem name = ground (arith, beq-sym String-discrete name "user-agent")

pub is_forbidden_public_header-forbidden :
    (name : String) → is_forbidden_public_header name ≡ forbidden name
unfolding is_forbidden_public_header
is_forbidden_public_header-forbidden name = ground (arith, owned_lem name, bearing_lem name)

-- The names of headers that no credential may be placed in, whatever they are for.
abbrev pub reserved_names : List String
reserved_names = "authorization" ∷ "content-type" ∷ owned_names

pub is_forbidden_auth_placement-reserved :
    (name : String)
    → is_forbidden_auth_placement name
      ≡ (contains String-discrete reserved_names name || identifies_request (lower (as_bytes name)))
unfolding is_forbidden_auth_placement is_request_identity_header_name_str
is_forbidden_auth_placement-reserved name =
    let ids : List String =
      "idempotency-key" ∷ "request-id" ∷ "request-idempotency-key" ∷ "x-request-id"
      ∷ "x-request-idempotency-key" ∷ "x-correlation-id" ∷ "correlation-id" ∷ [] in
    ground (
      arith,
      owned_lem name,
      matches-spelled (as_bytes name) ids,
      beq-sym String-discrete name "authorization",
      beq-sym String-discrete name "content-type",
      beq-sym String-discrete name "user-agent",
      beq-sym String-discrete name "content-length",
    )
