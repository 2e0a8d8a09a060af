-- ===== src/Client/Send/Tests.antt =====
-- An execution whose streamed body gets a limiter, and one whose body in memory is too large.
use concord_api.Base.{
  ◌≡◌, refl, ℕ, ◌+◌, String, ℕ_discrete, true, false, Option, none, some, [], ◌∷◌, ok, err,
}
use concord_api.Error.{ApiClientError}
use concord_api.Auth.Examples.{two_slots}
use concord_api.Body.Limited.{new_limited}
use concord_api.Transport.{materialize_authentication, place_all, place}
use concord_api.Transport.Tests.{Request, request_crate, public_request, materials}
use concord_api.Client.Run.{ObservedResponse}
use concord_api.Client.Send.{
  ProducedBody, SentBody, SendEvent, SendState, Sender, BuiltRequest, observe_transport_response,
  send_built_request, hook_and_send, limit_and_send, acquire_rate_limit_and_send,
  send_and_observe_once,
}

abbrev found : ObservedResponse
found = record { status = 200; content_length = none; rate_limited = false }

-- A client with a limit of 3 bytes; a stream is a number whose bytes are not known.
abbrev sender : Sender ℕ Request String ℕ
sender = record {
  ctx = record { endpoint = "Items"; method = "POST" };
  native = request_crate;
  size_hint = λ b. record { lower = 0; upper = none };
  max_request_body_bytes = some 3;
  acquire = λ w. (ok tt, w + 1);
  pre_send = λ w. (ok tt, w + 1);
  execute = λ m body w. (ok found, w + 1);
  request_error = λ w. w + 1;
  post_response = λ r w. w + 1;
  on_response = λ r w. (ok true, w + 1);
}

abbrev built : Option (ProducedBody ℕ) → BuiltRequest Request ℕ
built body = record { message = public_request; body = body; slots = two_slots }

abbrev start : SendState ℕ ℕ
start = record { world = 0; log = [] }

streamed_is_limited :
    send_and_observe_once sender (built (some (ProducedBody.streamed 7))) materials start ≡ (
      ok (record { status = 200; content_length = none; rate_limited = true }),
      record {
        world = 5;
        log =
            SendEvent.acquired
            ∷ SendEvent.pre_send
            ∷ SendEvent.executed (some (SentBody.limited_stream (new_limited 7 3)))
            ∷ SendEvent.post_response
            ∷ SendEvent.observed
            ∷ [];
      },
    )
unfolding send_and_observe_once acquire_rate_limit_and_send limit_and_send hook_and_send
    send_built_request observe_transport_response materialize_authentication place_all place
    ℕ_discrete
streamed_is_limited = refl

too_large :
    send_and_observe_once sender
      (built (some (ProducedBody.buffered (1 ∷ 2 ∷ 3 ∷ 4 ∷ []))))
      materials
      start
    ≡ (
      err (
          ApiClientError.other
            (record { endpoint = "Items"; method = "POST" })
            "RequestBodyLimitExceeded"),
      record { world = 2; log = SendEvent.acquired ∷ SendEvent.request_error ∷ [] },
    )
unfolding send_and_observe_once acquire_rate_limit_and_send limit_and_send hook_and_send ℕ_discrete
too_large = refl

-- A stream whose size hint says that it is too large.
beyond_by_hint :
    (send_and_observe_once
      (record sender { size_hint = λ b. record { lower = b; upper = none } })
      (built (some (ProducedBody.streamed 7)))
      materials
      start).1.log
    ≡ SendEvent.acquired ∷ SendEvent.request_error ∷ []
unfolding send_and_observe_once acquire_rate_limit_and_send limit_and_send hook_and_send ℕ_discrete
beyond_by_hint = refl
