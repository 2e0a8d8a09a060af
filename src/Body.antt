-- ===== src/Body.antt =====
-- concord_core/src/body.rs: bodies as they are polled. The trait `Body` of the crate http_body is a record
-- of operations on the state of a body; `Poll<Option<Result<Frame, E>>>` is one type of four cases.
pub mod Limited
pub mod Exact
pub mod Hinted
pub mod Observed
pub mod Response
pub mod Runs
pub mod Counts
pub mod Cut
pub mod Collected
pub mod Honest
pub mod Hints
mod Tests
use concord_api.Base.{ℕ, Bool, Option, none, some, String, List}

pub data BodyErrorKind : Type 0 where
  io input invalid_configuration exclusive_poll limit_exceeded : BodyErrorKind
  exact_length_underflow exact_length_overflow other : BodyErrorKind

pub record BodyError : Type 0 where
  pub kind : BodyErrorKind
  pub limit : Option ℕ
  pub observed : Option ℕ

-- `BodyError::limit_exceeded`, `exact_length_underflow` and `exact_length_overflow`.
abbrev pub limit_error : BodyErrorKind → ℕ → ℕ → BodyError
limit_error kind limit observed = record {
  kind = kind;
  limit = some limit;
  observed = some observed;
}

-- The bytes of a data frame, or the trailers.
pub data Frame : Type 0 where
  chunk : List ℕ → Frame
  trailers : List (String × String) → Frame

pub data Polled (E : Type 0) : Type 0 where
  pending ended : Polled E
  failed : E → Polled E
  frame : Frame → Polled E

pub record SizeHint : Type 0 where
  pub lower : ℕ
  pub upper : Option ℕ

abbrev pub exact_hint : ℕ → SizeHint
exact_hint length = record { lower = length; upper = some length }

pub record Body (B E : Type 0) : Type 0 where
  pub poll_frame : B → Polled E × B
  pub is_end_stream : B → Bool
  pub size_hint : B → SizeHint
