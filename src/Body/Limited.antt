-- ===== src/Body/Limited.antt =====
-- concord_core/src/body.rs: `LimitedBody`, the limiter of the bytes of data frames.
use concord_api.Base.{
  ℕ, ◌-◌, min, Bool, true, false, ◌||◌, leb, ltb, Option, none, some, List, length, checked_add,
  u64_max, if◌then◌else◌,
}
use concord_api.Body.{
  BodyErrorKind, BodyError, limit_error, Frame, Polled, SizeHint, exact_hint, Body,
}

pub record LimitedBody (B : Type 0) : Type 0 where
  pub inner : B
  pub limit : ℕ
  pub seen : ℕ
  pub terminal : Bool

abbrev pub new_limited : {B : Type 0} → B → ℕ → LimitedBody B
new_limited inner limit = record { inner = inner; limit = limit; seen = 0; terminal = false }

-- The bytes seen with those of a frame: none where they do not fit a u64.
abbrev pub counted : ℕ → ℕ → Option ℕ
counted seen n = if leb n u64_max then checked_add u64_max seen n else none

module _ {B E : Type 0} (body : Body B E) (from_producer : E → BodyError) where
  abbrev exceeded : LimitedBody B → ℕ → Polled BodyError × LimitedBody B
  exceeded this observed = (
    Polled.failed (limit_error BodyErrorKind.limit_exceeded this.limit observed),
    record this { terminal = true },
  )

  -- A data frame is counted before it is passed on.
  abbrev limit_chunk : LimitedBody B → List ℕ → Polled BodyError × LimitedBody B
  limit_chunk this bytes = elim (counted this.seen (length bytes)) [
    | none ↦ exceeded this u64_max
    | some observed ↦
        if ltb this.limit observed
        then exceeded this observed
        else (Polled.frame (Frame.chunk bytes), record this { seen = observed })
  ]

  unfoldable pub limit_polled : LimitedBody B → Polled E → Polled BodyError × LimitedBody B
  limit_polled this Polled.pending = (Polled.pending, this)
  limit_polled this Polled.ended = (Polled.ended, record this { terminal = true })
  limit_polled this (Polled.failed e) =
      (Polled.failed (from_producer e), record this { terminal = true })
  limit_polled this (Polled.frame (Frame.chunk bytes)) = limit_chunk this bytes
  limit_polled this (Polled.frame (Frame.trailers t)) = (Polled.frame (Frame.trailers t), this)

  -- `poll_frame`: the inner body is not polled again after an end or an error.
  unfoldable pub poll_limited : LimitedBody B → Polled BodyError × LimitedBody B
  unfolding limit_polled
  poll_limited this =
      if this.terminal
      then (Polled.ended, this)
      else let (polled, inner) = body.poll_frame this.inner in
        limit_polled (record this { inner = inner }) polled

  abbrev upper_within : ℕ → Option ℕ → ℕ
  upper_within remaining none = remaining
  upper_within remaining (some upper) = min upper remaining

  abbrev pub limited_hint : LimitedBody B → SizeHint
  limited_hint this =
      let remaining = this.limit - this.seen in
      let hint = body.size_hint this.inner in
      if this.terminal then exact_hint 0 else record {
        lower = if leb hint.lower remaining then hint.lower else 0;
        upper = some (upper_within remaining hint.upper);
      }

  abbrev pub limited : Body (LimitedBody B) BodyError
  limited = record {
    poll_frame = poll_limited;
    is_end_stream = λ this. this.terminal || body.is_end_stream this.inner;
    size_hint = limited_hint;
  }
