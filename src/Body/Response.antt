-- ===== src/Body/Response.antt =====
-- concord_core/src/transport.rs: `BoundedResponseStream`, the body of a response, and its collection.
use concord_api.Base.{
  ℕ, zero, suc, ◌-◌, min, Bool, true, false, ◌||◌, leb, ltb, Option, none, some, List, ◌++◌, length,
  Result, ok, err, if◌then◌else◌,
}
use concord_api.Body.{
  BodyErrorKind, BodyError, limit_error, Frame, Polled, SizeHint, exact_hint, Body,
}
use concord_api.Body.Exact.{saturated}

pub record BoundedResponseStream (B : Type 0) : Type 0 where
  pub body : B
  pub limit : Option ℕ
  pub seen : ℕ
  pub terminal : Bool

abbrev pub new_response : {B : Type 0} → B → Option ℕ → BoundedResponseStream B
new_response body limit = record { body = body; limit = limit; seen = 0; terminal = false }

abbrev pub set_limit : {B : Type 0} → BoundedResponseStream B → ℕ → BoundedResponseStream B
set_limit this limit = record this { limit = some limit }

module _ {B E : Type 0} (native : Body B E) (map_body_error : E → BodyError) where
  abbrev response_chunk :
      BoundedResponseStream B → Option ℕ → List ℕ → Polled BodyError × BoundedResponseStream B
  response_chunk this none bytes =
      (Polled.frame (Frame.chunk bytes), record this { seen = saturated this.seen (length bytes) })
  response_chunk this (some limit) bytes =
      let actual = saturated this.seen (length bytes) in
      if ltb limit actual
      then (
        Polled.failed (limit_error BodyErrorKind.limit_exceeded limit actual),
        record this { terminal = true },
      )
      else (Polled.frame (Frame.chunk bytes), record this { seen = actual })

  unfoldable pub response_polled :
      BoundedResponseStream B → Polled E → Polled BodyError × BoundedResponseStream B
  response_polled this Polled.pending = (Polled.pending, this)
  response_polled this Polled.ended = (Polled.ended, record this { terminal = true })
  response_polled this (Polled.failed e) =
      (Polled.failed (map_body_error e), record this { terminal = true })
  response_polled this (Polled.frame (Frame.chunk bytes)) = response_chunk this this.limit bytes
  response_polled this (Polled.frame (Frame.trailers t)) = (Polled.frame (Frame.trailers t), this)

  unfoldable pub poll_response :
      BoundedResponseStream B → Polled BodyError × BoundedResponseStream B
  unfolding response_polled
  poll_response this =
      if this.terminal
      then (Polled.ended, this)
      else let (polled, body) = native.poll_frame this.body in
        response_polled (record this { body = body }) polled

  abbrev hint_within : ℕ → SizeHint → SizeHint
  hint_within remaining inner = record {
    lower = if leb inner.lower remaining then inner.lower else 0;
    upper = some (min (elim inner.upper [ none ↦ remaining | some upper ↦ upper ]) remaining);
  }

  abbrev pub response_hint : BoundedResponseStream B → SizeHint
  response_hint this =
      let inner = native.size_hint this.body in
      if this.terminal
      then exact_hint 0
      else elim this.limit [ none ↦ inner | some limit ↦ hint_within (limit - this.seen) inner ]

  abbrev pub response : Body (BoundedResponseStream B) BodyError
  response = record {
    poll_frame = poll_response;
    is_end_stream = λ this. this.terminal || native.is_end_stream this.body;
    size_hint = response_hint;
  }

-- `collect_bytes`, whose chunks are those of `next_chunk`: with fuel for its polls, none where it is still
-- waiting when they are used up.
unfoldable pub collect_bytes :
    {B : Type 0} → Body B BodyError → ℕ → B → List ℕ → Option (Result BodyError (List ℕ))
collect_bytes body zero b collected = none
collect_bytes body (suc fuel) b collected =
    let (polled, after) = body.poll_frame b in
    elim polled [
      | Polled.pending ↦ collect_bytes body fuel after collected
      | Polled.ended ↦ some (ok collected)
      | Polled.failed e ↦ some (err e)
      | Polled.frame f ↦ elim f [
        | Frame.chunk bytes ↦ collect_bytes body fuel after (collected ++ bytes)
        | Frame.trailers t ↦ collect_bytes body fuel after collected
      ]
    ]
