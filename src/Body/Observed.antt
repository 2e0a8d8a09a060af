-- ===== src/Body/Observed.antt =====
-- concord_core/src/body.rs: `ObservedRequestBody`, which notes the first error of a request's body in a
-- slot that the sender reads.
use concord_api.Base.{Option, none, some}
use concord_api.Body.{BodyError, Polled, Body}

-- `RequestBodyErrorSlot::record`.
abbrev pub record_error : Option BodyError → BodyError → Option BodyError
record_error none e = some e
record_error (some first) e = some first

-- The body with the slot, which is shared with the request's context.
pub record ObservedRequestBody (B : Type 0) : Type 0 where
  pub inner : B
  pub errors : Option BodyError

module _ {B E : Type 0} (body : Body B E) (from_producer : E → BodyError) where
  abbrev observe_polled : Polled E → B → Option BodyError → Polled BodyError × ObservedRequestBody B
  observe_polled (Polled.failed e) inner errors = (
    Polled.failed (from_producer e),
    record { inner = inner; errors = record_error errors (from_producer e) },
  )
  observe_polled (Polled.frame f) inner errors =
      (Polled.frame f, record { inner = inner; errors = errors })
  observe_polled Polled.ended inner errors =
      (Polled.ended, record { inner = inner; errors = errors })
  observe_polled Polled.pending inner errors =
      (Polled.pending, record { inner = inner; errors = errors })

  abbrev pub observed : Body (ObservedRequestBody B) BodyError
  observed = record {
    poll_frame = λ this.
        let (polled, inner) = body.poll_frame this.inner in observe_polled polled inner this.errors;
    is_end_stream = λ this. body.is_end_stream this.inner;
    size_hint = λ this. body.size_hint this.inner;
  }
