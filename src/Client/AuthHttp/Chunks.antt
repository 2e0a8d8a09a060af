-- ===== src/Client/AuthHttp/Chunks.antt =====
-- concord_core/src/client/auth_http.rs: what is read of the response to a provider's call.
use mathlib.Core.List.{append_assoc, append-nil}
use concord_api.Base.{
  ◌≡◌, sym, ap, inl, inr, ◌⊎◌, arith, ℕ, ◌+◌, ◌≤◌, ◌<◌, min, true, false, Bool-cases, ltb, Option,
  is_some_and, String, List, [], ◌∷◌, ◌++◌, map, length, length-append, Result, ok, err, u64_max,
}
use concord_api.Client.AuthHttp.{body_limit_error, collect_chunks, read_response}

abbrev pub concat : List (List ℕ) → List ℕ
concat [] = []
concat (b ∷ bs) = b ++ concat bs

-- The chunks of a response that is read without an error.
abbrev pub all_read : List (List ℕ) → List (Result String (List ℕ))
all_read bs = map ok bs

collect_chunks_lem :
    (limit : ℕ) (bs : List (List ℕ)) (seen : ℕ) (body : List ℕ)
    → limit < u64_max
    → seen ≤ limit
    → ((seen + length (concat bs) ≤ limit)
        × (collect_chunks limit (all_read bs) seen body ≡ ok (body ++ concat bs)))
      ⊎ ((limit < seen + length (concat bs))
          × (collect_chunks limit (all_read bs) seen body ≡ err body_limit_error))
collect_chunks_lem limit [] seen body small within =
    inl (omega (arith, within), ap ok (sym (append-nil body)))
collect_chunks_lem limit (b ∷ bs) seen body small within =
    let grows = length-append b (concat bs) in
    let actual = min (seen + length b) u64_max in
    elim (Bool-cases (ltb limit actual)) [
      | inl e ↦ inr (ground (arith, e, grows, within), ground (arith, e))
      | inr e ↦
          let exact : (actual ≡ seen + length b) = ground (arith, e, small) in
          elim (collect_chunks_lem limit bs actual (body ++ b) small (ground (arith, e))) [
            | inl (fits, read) ↦ inl (
              omega (arith, fits, grows, exact),
              ground (arith, e, read, append_assoc body b (concat bs)),
            )
            | inr (beyond, failed) ↦
                inr (omega (arith, beyond, grows, exact), ground (arith, e, failed))
          ]
    ]

-- A response whose chunks are read without an error gives all its bytes if they are within a limit below
-- the largest u64, and so is the length that it states; else the error that it is too large.
pub read_response-all_read :
    (limit : ℕ) (content_length : Option ℕ) (bs : List (List ℕ))
    → limit < u64_max
    → ((length (concat bs) ≤ limit)
        × (is_some_and content_length (λ actual. ltb limit actual) ≡ false)
        × (read_response limit (content_length, all_read bs) ≡ ok (concat bs)))
      ⊎ (((limit < length (concat bs))
            ⊎ (is_some_and content_length (λ actual. ltb limit actual) ≡ true))
          × (read_response limit (content_length, all_read bs) ≡ err body_limit_error))
read_response-all_read limit content_length bs small =
    elim (Bool-cases (is_some_and content_length (λ actual. ltb limit actual))) [
      | inl e ↦ inr (inr e, ground (arith, e))
      | inr e ↦ elim (collect_chunks_lem limit bs 0 [] small (omega arith)) [
        | inl (fits, read) ↦ inl (omega (arith, fits), e, ground (arith, e, read))
        | inr (beyond, failed) ↦ inr (inl (omega (arith, beyond)), ground (arith, e, failed))
      ]
    ]
