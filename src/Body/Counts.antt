-- ===== src/Body/Counts.antt =====
-- concord_core/src/body.rs: the bytes that a limiter lets through.
use concord_api.Base.{
  ◌≡◌, refl, inl, inr, ◌⊎◌, arith, ℕ, ◌+◌, ◌≤◌, ◌<◌, Bool-cases, if_holds, leb, ltb, none, some,
  length, u64_max,
}
use concord_api.Body.{BodyError, Frame, Polled, Body}
use concord_api.Body.Limited.{
  LimitedBody, new_limited, limited, limit_polled, poll_limited, counted,
}
use concord_api.Body.Runs.{polls, polls-count, bytes_of, received}

-- A count fits a u64 and is exact, or it is beyond.
pub counted-cases :
    (seen n : ℕ)
    → ((counted seen n ≡ some (seen + n)) × (seen + n ≤ u64_max))
      ⊎ ((counted seen n ≡ none) × (u64_max < seen + n))
counted-cases seen n = elim (Bool-cases (leb n u64_max)) [
  | inr p ↦ inr (ground (arith, p))
  | inl p ↦ elim (Bool-cases (leb (seen + n) u64_max)) [
    | inl q ↦ inl (ground (arith, p, q))
    | inr q ↦ inr (ground (arith, p, q))
  ]
]

module _ {B E : Type 0} (body : Body B E) (from_producer : E → BodyError) where
  -- What the limiter has seen is within its limit.
  abbrev pub IsWithin : ℕ → LimitedBody B → Type 0
  IsWithin limit t = (t.limit ≡ limit) × (t.seen ≤ limit)

  limit_polled-count :
      (limit : ℕ) (t : LimitedBody B) (p : Polled E)
      → IsWithin limit t
      → let (q, after) = limit_polled body from_producer t p in
        IsWithin limit after × (after.seen ≡ t.seen + length (bytes_of q))
  unfolding limit_polled
  limit_polled-count limit t Polled.pending (same, w) = ((same, w), omega arith)
  limit_polled-count limit t Polled.ended (same, w) = ((same, w), omega arith)
  limit_polled-count limit t (Polled.failed e) (same, w) = ((same, w), omega arith)
  limit_polled-count limit t (Polled.frame (Frame.trailers x)) (same, w) = ((same, w), omega arith)
  limit_polled-count limit t (Polled.frame (Frame.chunk bytes)) (same, w) =
      elim (Bool-cases (leb (length bytes) u64_max)) [
        | inr p ↦ ground (arith, p, same, w)
        | inl p ↦ elim (Bool-cases (leb (t.seen + length bytes) u64_max)) [
          | inr q ↦ ground (arith, p, q, same, w)
          | inl q ↦ elim (Bool-cases (ltb t.limit (t.seen + length bytes))) [
            | inl r ↦ ground (arith, p, q, r, same, w)
            | inr r ↦ ground (arith, p, q, r, same, w)
          ]
        ]
      ]

  pub poll_limited-count :
      (limit : ℕ) (t : LimitedBody B)
      → IsWithin limit t
      → let (p, after) = poll_limited body from_producer t in
        IsWithin limit after × (after.seen ≡ t.seen + length (bytes_of p))
  unfolding poll_limited
  poll_limited-count limit t w =
      let (p, inner) = body.poll_frame t.inner in
      if_holds
        (λ (r : Polled BodyError × LimitedBody B).
          IsWithin limit r.1 × (r.1.seen ≡ t.seen + length (bytes_of r.0)))
        t.terminal _ _ (λ _. (w, omega arith))
        (λ _. limit_polled-count limit (record t { inner = inner }) p w)

  -- However often it is polled, a limiter lets no more bytes through than its limit.
  pub limited_bytes_within :
      (n : ℕ) (b : B) (limit : ℕ)
      → length (received (polls (limited body from_producer) n (new_limited b limit)).0) ≤ limit
  limited_bytes_within n b limit =
      let ((_, w), total) =
        polls-count (limited body from_producer) (IsWithin limit) (λ t. t.seen)
          (poll_limited-count limit) n (new_limited b limit) (refl, omega arith) in
      omega (arith, w, total)
