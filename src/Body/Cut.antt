-- ===== src/Body/Cut.antt =====
-- concord_core/src/body.rs: the polls of `LimitedBody` beside those of the body that it limits.
use concord_api.Base.{
  ◌≡◌, refl, sym, subst, ap, inl, inr, ◌⊎◌, arith, ℕ, zero, suc, ◌+◌, ◌≤◌, ◌<◌, true, false,
  Bool-cases, if_holds, leb, ltb, Option, none, some, List, [], ◌∷◌, map, length, length-append,
  u64_max,
}
use concord_api.Body.{BodyErrorKind, BodyError, Frame, Polled, Body}
use concord_api.Body.Limited.{LimitedBody, new_limited, limited, limit_polled, poll_limited}
use concord_api.Body.Runs.{
  polls, polls-stopped, bytes_of, received, first_failure, until_stop, all_ended, map_error,
  received-all_ended,
}

-- An error that says that the limit is exceeded.
abbrev pub IsLimitError : ℕ → Option BodyError → Type 0
IsLimitError limit none = ⊥
IsLimitError limit (some e) = (e.kind ≡ BodyErrorKind.limit_exceeded) × (e.limit ≡ some limit)

module _ {B E : Type 0} (body : Body B E) (from_producer : E → BodyError) (limit : ℕ) where
  abbrev running : B → ℕ → LimitedBody B
  running b seen = record { inner = b; limit = limit; seen = seen; terminal = false }

  -- The polls bring what the inner ones bring where that is within the limit; else the first error says
  -- that it is exceeded.
  abbrev pub IsCut : ℕ → List (Polled E) → List (Polled BodyError) → Type 0
  IsCut seen inner run =
      ((seen + length (received inner) ≤ limit) × (run ≡ map (map_error from_producer) inner))
      ⊎ ((limit < seen + length (received inner)) × IsLimitError limit (first_failure run))

  stays_ended :
      (t : LimitedBody B)
      → t.terminal ≡ true
      → poll_limited body from_producer t ≡ (Polled.ended, t)
  unfolding poll_limited
  stays_ended t stopped =
      if_holds (λ (r : Polled BodyError × LimitedBody B). r ≡ (Polled.ended, t)) t.terminal _ _
        (λ _. refl) (λ running. absurd cc (stopped, running))

  stopped-IsCut :
      (seen n : ℕ) (b : B) (t : LimitedBody B) (p : Polled E)
      → seen ≤ limit
      → t.terminal ≡ true
      → bytes_of p ≡ []
      → IsCut seen
          (p ∷ all_ended (polls body n b).0)
          (map_error from_producer p ∷ (polls (limited body from_producer) n t).0)
  stopped-IsCut seen n b t p within stopped empty =
      let rest = all_ended (polls body n b).0 in
      inl (
        omega (
          arith,
          within,
          length-append (bytes_of p) (received rest),
          ap length empty,
          ap length (received-all_ended (polls body n b).0),
        ),
        ap (λ ps. map_error from_producer p ∷ ps)
            (polls-stopped (limited body from_producer) body t (stays_ended t stopped) from_producer
              n b),
      )

  -- A poll that is passed on, before polls that are cut.
  passed-IsCut :
      (seen : ℕ) (p : Polled E) (inner : List (Polled E)) (run : List (Polled BodyError))
      → first_failure (map_error from_producer p ∷ run) ≡ first_failure run
      → (next : ℕ) → next ≡ seen + length (bytes_of p)
      → IsCut next inner run
      → IsCut seen (p ∷ inner) (map_error from_producer p ∷ run)
  passed-IsCut seen p inner run same next counts (inl (fits, equal)) = inl (
    omega (arith, counts, fits, length-append (bytes_of p) (received inner)),
    ap (λ ps. map_error from_producer p ∷ ps) equal,
  )
  passed-IsCut seen p inner run same next counts (inr (beyond, failed)) = inr (
    omega (arith, counts, beyond, length-append (bytes_of p) (received inner)),
    subst (IsLimitError limit) (sym same) failed,
  )

  after-IsCut :
      (seen n : ℕ) (b : B) (p : Polled E)
      → seen ≤ limit
      → limit ≤ u64_max
      → ((seen' : ℕ)
          → seen' ≤ limit
          → IsCut seen'
              (until_stop (polls body n b).0)
              (polls (limited body from_producer) n (running b seen')).0)
      → let (q, after) = limit_polled body from_producer (running b seen) p in
        IsCut seen
          (until_stop (p ∷ (polls body n b).0))
          (q ∷ (polls (limited body from_producer) n after).0)
  unfolding limit_polled
  after-IsCut seen n b Polled.pending within small ih =
      passed-IsCut seen Polled.pending _ _ refl seen (omega arith) (ih seen within)
  after-IsCut seen n b Polled.ended within small ih =
      stopped-IsCut seen n b _ Polled.ended within refl refl
  after-IsCut seen n b (Polled.failed e) within small ih =
      stopped-IsCut seen n b _ (Polled.failed e) within refl refl
  after-IsCut seen n b (Polled.frame (Frame.trailers x)) within small ih =
      passed-IsCut seen (Polled.frame (Frame.trailers x)) _ _ refl seen (omega arith)
        (ih seen within)
  after-IsCut seen n b (Polled.frame (Frame.chunk bytes)) within small ih =
      let inner = until_stop (polls body n b).0 in
      let grows = length-append bytes (received inner) in
      elim (Bool-cases (leb (length bytes) u64_max)) [
        | inr p ↦ ground (arith, p, grows, small)
        | inl p ↦ elim (Bool-cases (leb (seen + length bytes) u64_max)) [
          | inr q ↦ ground (arith, p, q, grows, small)
          | inl q ↦ elim (Bool-cases (ltb limit (seen + length bytes))) [
            | inl r ↦ ground (arith, p, q, r, grows)
            | inr r ↦ ground (
              arith,
              p,
              q,
              r,
              passed-IsCut seen (Polled.frame (Frame.chunk bytes)) inner _ refl
                  (seen + length bytes) refl (ih (seen + length bytes) (ground (arith, r))),
            )
          ]
        ]
      ]

  polls-IsCut :
      (n : ℕ) (b : B) (seen : ℕ)
      → seen ≤ limit
      → limit ≤ u64_max
      → IsCut seen
          (until_stop (polls body n b).0)
          (polls (limited body from_producer) n (running b seen)).0
  unfolding polls poll_limited
  polls-IsCut zero b seen within small = inl (omega (arith, within), refl)
  polls-IsCut (suc n) b seen within small =
      let (p, after) = body.poll_frame b in
      after-IsCut seen n after p within small (λ s w. polls-IsCut n after s w small)

-- A limiter with a limit of a u64 is polled with the same results as the body, its errors mapped and with
-- ends after the first end or error, where the bytes before that are within the limit; where they are
-- not, the first error that it gives is that the limit is exceeded.
pub limited_polls-IsCut :
    {B E : Type 0} (body : Body B E) (from_producer : E → BodyError) (n : ℕ) (b : B) (limit : ℕ)
    → limit ≤ u64_max
    → IsCut body from_producer limit 0
        (until_stop (polls body n b).0)
        (polls (limited body from_producer) n (new_limited b limit)).0
limited_polls-IsCut body from_producer n b limit small =
    polls-IsCut body from_producer limit n b 0 (omega arith) small
