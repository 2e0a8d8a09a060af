-- ===== src/Body/Exact.antt =====
-- concord_core/src/body.rs: `ExactLengthBody`, the guard of a declared length.
use concord_api.Base.{
  ℕ, ◌+◌, ◌-◌, min, Bool, true, false, ltb, beq, ℕ_discrete, List, length, u64_max, if◌then◌else◌,
}
use concord_api.Body.{
  BodyErrorKind, BodyError, limit_error, Frame, Polled, SizeHint, exact_hint, Body,
}

pub record ExactLengthBody (B : Type 0) : Type 0 where
  pub inner : B
  pub expected : ℕ
  pub seen : ℕ
  pub terminal : Bool

abbrev pub new_exact : {B : Type 0} → B → ℕ → ExactLengthBody B
new_exact inner expected = record { inner = inner; expected = expected; seen = 0; terminal = false }

-- `saturating_add` of a u64, where a length that does not fit is the largest.
abbrev pub saturated : ℕ → ℕ → ℕ
saturated seen n = min (seen + min n u64_max) u64_max

module _ {B E : Type 0} (body : Body B E) (from_producer : E → BodyError) where
  abbrev exact_chunk : ExactLengthBody B → List ℕ → Polled BodyError × ExactLengthBody B
  exact_chunk this bytes =
      let observed = saturated this.seen (length bytes) in
      if ltb this.expected observed
      then (
        Polled.failed (limit_error BodyErrorKind.exact_length_overflow this.expected observed),
        record this { terminal = true },
      )
      else (Polled.frame (Frame.chunk bytes), record this { seen = observed })

  unfoldable pub exact_polled : ExactLengthBody B → Polled E → Polled BodyError × ExactLengthBody B
  unfolding ℕ_discrete
  exact_polled this Polled.pending = (Polled.pending, this)
  exact_polled this Polled.ended = (
    (if beq ℕ_discrete this.seen this.expected
        then Polled.ended
        else Polled.failed
            (limit_error BodyErrorKind.exact_length_underflow this.expected this.seen)),
    record this { terminal = true },
  )
  exact_polled this (Polled.failed e) =
      (Polled.failed (from_producer e), record this { terminal = true })
  exact_polled this (Polled.frame (Frame.chunk bytes)) = exact_chunk this bytes
  exact_polled this (Polled.frame (Frame.trailers t)) = (Polled.frame (Frame.trailers t), this)

  unfoldable pub poll_exact : ExactLengthBody B → Polled BodyError × ExactLengthBody B
  unfolding exact_polled
  poll_exact this =
      if this.terminal
      then (Polled.ended, this)
      else let (polled, inner) = body.poll_frame this.inner in
        exact_polled (record this { inner = inner }) polled

  abbrev pub exact_length_hint : ExactLengthBody B → SizeHint
  exact_length_hint this =
      if this.terminal then exact_hint 0 else exact_hint (this.expected - this.seen)

  abbrev pub exact_length : Body (ExactLengthBody B) BodyError
  exact_length = record {
    poll_frame = poll_exact;
    is_end_stream = λ this. this.terminal;
    size_hint = exact_length_hint;
  }
