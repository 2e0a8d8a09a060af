-- ===== src/Body/Hinted.antt =====
-- concord_core/src/body.rs: `HintedBody`, which keeps a declared size hint true as frames go by.
use concord_api.Base.{
  ℕ, ◌-◌, Bool, true, false, ◌||◌, leb, Option, none, some, length, u64_max, if◌then◌else◌,
}
use concord_api.Body.{BodyError, Frame, Polled, SizeHint, exact_hint, Body}

pub record HintedBody (B : Type 0) : Type 0 where
  pub inner : B
  pub lower : ℕ
  pub upper : Option ℕ
  pub terminal : Bool

-- `DynBody::with_size_hint`.
abbrev pub with_size_hint : {B : Type 0} → B → SizeHint → HintedBody B
with_size_hint inner hint = record {
  inner = inner;
  lower = hint.lower;
  upper = hint.upper;
  terminal = false;
}

abbrev pub upper_after : ℕ → Option ℕ → Option ℕ
upper_after n none = none
upper_after n (some upper) = if leb n upper then some (upper - n) else none

module _ {B : Type 0} (body : Body B BodyError) where
  abbrev hint_chunk : HintedBody B → ℕ → HintedBody B
  hint_chunk this n =
      if leb n u64_max
      then record this { lower = this.lower - n; upper = upper_after n this.upper }
      else record this { lower = 0; upper = none }

  unfoldable pub hint_polled : HintedBody B → Polled BodyError → Polled BodyError × HintedBody B
  hint_polled this Polled.pending = (Polled.pending, this)
  hint_polled this Polled.ended =
      (Polled.ended, record this { lower = 0; upper = some 0; terminal = true })
  hint_polled this (Polled.failed e) = (Polled.failed e, this)
  hint_polled this (Polled.frame (Frame.chunk bytes)) =
      (Polled.frame (Frame.chunk bytes), hint_chunk this (length bytes))
  hint_polled this (Polled.frame (Frame.trailers t)) = (Polled.frame (Frame.trailers t), this)

  unfoldable pub poll_hinted : HintedBody B → Polled BodyError × HintedBody B
  unfolding hint_polled
  poll_hinted this =
      if this.terminal
      then (Polled.ended, this)
      else let (polled, inner) = body.poll_frame this.inner in
        hint_polled (record this { inner = inner }) polled

  abbrev pub hinted : Body (HintedBody B) BodyError
  hinted = record {
    poll_frame = poll_hinted;
    is_end_stream = λ this. this.terminal || body.is_end_stream this.inner;
    size_hint = λ this.
        if this.terminal then exact_hint 0 else record { lower = this.lower; upper = this.upper };
  }
