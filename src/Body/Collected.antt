-- ===== src/Body/Collected.antt =====
-- concord_core/src/transport.rs: the response's body beside `LimitedBody`, and what its collection gives.
use concord_api.Base.{
  ◌≡◌, refl, sym, ◌∙◌, ap, inl, inr, ◌⊎◌, arith, ℕ, zero, suc, ◌+◌, ◌≤◌, ◌<◌, true, Bool-cases, leb,
  ltb, Option, none, some, List, [], ◌∷◌, ◌++◌, length, ok, err, u64_max,
}
use mathlib.Core.List.{append_assoc, append-nil}
use concord_api.Body.{BodyError, Frame, Polled, Body}
use concord_api.Body.Limited.{LimitedBody, new_limited, limited, limit_polled, poll_limited}
use concord_api.Body.Response.{
  BoundedResponseStream, new_response, response, response_polled, poll_response, collect_bytes,
}
use concord_api.Body.Runs.{
  polls, Polled-cases, received, completes, first_failure, until_stop, received-all_ended,
  completes-until_stop, received-until_stop,
}
use concord_api.Body.Counts.{IsWithin, poll_limited-count}
use concord_api.Body.Cut.{IsLimitError, limited_polls-IsCut}

module _ {B E : Type 0} (native : Body B E) (map_body_error : E → BodyError) where
  -- The response's body in the state of a limiter.
  abbrev as_response : LimitedBody B → BoundedResponseStream B
  as_response t = record {
    body = t.inner;
    limit = some t.limit;
    seen = t.seen;
    terminal = t.terminal;
  }

  abbrev as_responses :
      Polled BodyError × LimitedBody B → Polled BodyError × BoundedResponseStream B
  as_responses (p, t) = (p, as_response t)

  response_polled_lem :
      (limit : ℕ) (t : LimitedBody B) (p : Polled E)
      → limit < u64_max
      → IsWithin native map_body_error limit t
      → response_polled native map_body_error (as_response t) p
        ≡ as_responses (limit_polled native map_body_error t p)
  unfolding response_polled limit_polled
  response_polled_lem limit t Polled.pending small w = refl
  response_polled_lem limit t Polled.ended small w = refl
  response_polled_lem limit t (Polled.failed e) small w = refl
  response_polled_lem limit t (Polled.frame (Frame.trailers x)) small w = refl
  response_polled_lem limit t (Polled.frame (Frame.chunk bytes)) small (same, w) =
      elim (Bool-cases (leb (length bytes) u64_max)) [
        | inr p ↦ ground (arith, p, same, w, small)
        | inl p ↦ elim (Bool-cases (leb (t.seen + length bytes) u64_max)) [
          | inr q ↦ ground (arith, p, q, same, w, small)
          | inl q ↦ elim (Bool-cases (ltb t.limit (t.seen + length bytes))) [
            | inl r ↦ ground (arith, p, q, r, same, w, small)
            | inr r ↦ ground (arith, p, q, r, same, w, small)
          ]
        ]
      ]

  poll_response_lem :
      (limit : ℕ) (t : LimitedBody B)
      → limit < u64_max
      → IsWithin native map_body_error limit t
      → poll_response native map_body_error (as_response t)
        ≡ as_responses (poll_limited native map_body_error t)
  unfolding poll_response poll_limited
  poll_response_lem limit t small w =
      let (p, inner) = native.poll_frame t.inner in
      elim (Bool-cases t.terminal) [
        | inl stopped ↦ ground (arith, stopped)
        | inr running ↦
            ground
              (arith, running, response_polled_lem limit (record t { inner = inner }) p small w)
      ]

  polls_lem :
      (limit : ℕ)
      → limit < u64_max
      → (n : ℕ) (t : LimitedBody B) → IsWithin native map_body_error limit t
      → (polls (response native map_body_error) n (as_response t)).0
        ≡ (polls (limited native map_body_error) n t).0
  unfolding polls
  polls_lem limit small zero t w = refl
  polls_lem limit small (suc n) t w =
      let (p, after) = poll_limited native map_body_error t in
      let (within, _) = poll_limited-count native map_body_error limit t w in
      let ih = polls_lem limit small n after within in
      rw (poll_response_lem limit t small w) (ap (λ ps. p ∷ ps) ih)

  -- The body of a response whose limit is below the largest u64 gives the polls of a limiter of the same
  -- limit.
  pub response-polls-limited :
      (n : ℕ) (b : B) (limit : ℕ)
      → limit < u64_max
      → (polls (response native map_body_error) n (new_response b (some limit))).0
        ≡ (polls (limited native map_body_error) n (new_limited b limit)).0
  response-polls-limited n b limit small =
      polls_lem limit small n (new_limited b limit) (refl, omega arith)

module _ {B : Type 0} (body : Body B BodyError) where
  collect-completes :
      (n : ℕ) (b : B) (collected : List ℕ)
      → completes (polls body n b).0 ≡ true
      → collect_bytes body n b collected
        ≡ some (ok (collected ++ received (until_stop (polls body n b).0)))
  unfolding polls collect_bytes
  collect-completes zero b collected h = absurd cc
  collect-completes (suc n) b collected h =
      let after = (body.poll_frame b).1 in
      elim (Polled-cases (body.poll_frame b).0) [
        | inl (inl p) ↦ ground (arith, p, h, collect-completes n after collected)
        | inl (inr p) ↦
            ground (arith, p, h, received-all_ended (polls body n after).0, append-nil collected)
        | inr (inl (e', p)) ↦ ground (arith, p, h)
        | inr (inr (inl (bytes, p))) ↦ ground (
          arith,
          p,
          h,
          collect-completes n after (collected ++ bytes),
          append_assoc collected bytes (received (until_stop (polls body n after).0)),
        )
        | inr (inr (inr (t, p))) ↦ ground (arith, p, h, collect-completes n after collected)
      ]

  collect-fails :
      (n : ℕ) (b : B) (collected : List ℕ) (e : BodyError)
      → first_failure (polls body n b).0 ≡ some e
      → collect_bytes body n b collected ≡ some (err e)
  unfolding polls collect_bytes
  collect-fails zero b collected e h = absurd cc
  collect-fails (suc n) b collected e h =
      let after = (body.poll_frame b).1 in
      elim (Polled-cases (body.poll_frame b).0) [
        | inl (inl p) ↦ ground (arith, p, h, collect-fails n after collected e)
        | inl (inr p) ↦ ground (arith, p, h)
        | inr (inl (e', p)) ↦ ground (arith, p, h)
        | inr (inr (inl (bytes, p))) ↦
            ground (arith, p, h, collect-fails n after (collected ++ bytes) e)
        | inr (inr (inr (t, p))) ↦ ground (arith, p, h, collect-fails n after collected e)
      ]

failure_of :
    (limit : ℕ) (o : Option BodyError)
    → IsLimitError limit o
    → (e : BodyError) × (o ≡ some e) × IsLimitError limit (some e)
failure_of limit none h = absurd h
failure_of limit (some e) h = (e, refl, h)

-- The collection of a response whose body ends without an error, in that many polls and with a limit below
-- the largest u64, gives all bytes of the body where they are within the limit, and else the error that
-- the limit is exceeded.
pub collected_response :
    {B E : Type 0} (native : Body B E) (map_body_error : E → BodyError) (n : ℕ) (b : B) (limit : ℕ)
    → limit < u64_max
    → completes (polls native n b).0 ≡ true
    → let bytes = received (until_stop (polls native n b).0) in
      let result =
        collect_bytes (response native map_body_error) n (new_response b (some limit)) [] in
      ((length bytes ≤ limit) × (result ≡ some (ok bytes)))
      ⊎ ((limit < length bytes)
          × ((e : BodyError) × (result ≡ some (err e)) × IsLimitError limit (some e)))
collected_response native map_body_error n b limit small ends =
    let ps = (polls native n b).0 in
    let start = new_response b (some limit) in
    let same = response-polls-limited native map_body_error n b limit small in
    elim (limited_polls-IsCut native map_body_error n b limit (omega (arith, small))) [
      | inl (fits, equal) ↦
          let run = same ∙ equal in
          let ended = ap completes run ∙ (sym (completes-until_stop map_body_error ps) ∙ ends) in
          inl (
            omega (arith, fits),
            collect-completes (response native map_body_error) n start [] ended
                ∙ ap (λ bytes. some (ok bytes))
                    (ap (λ r. received (until_stop r)) run ∙ received-until_stop map_body_error ps),
          )
      | inr (beyond, failed) ↦
          let (e, first, is_limit) = failure_of limit _ failed in
          inr (
            omega (arith, beyond),
            (
              e,
              collect-fails (response native map_body_error) n start [] e
                  (ap first_failure same ∙ first),
              is_limit,
            ),
          )
    ]
