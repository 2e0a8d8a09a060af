-- ===== src/Client/Send.antt =====
-- concord_core/src/client/send_flow.rs: one visible execution, `send_and_observe_once`: the rate limit is
-- acquired, the body limited, the hook called, the request sent, and the response observed.

pub mod Oversize
pub mod Order
mod Tests
use concord_api.Base.{
  ℕ, Bool, true, false, leb, ltb, ℕ_discrete, beq, Option, none, some, String, List, [], ◌∷◌, ◌++◌,
  length, Result, ok, err, if◌then◌else◌,
}
use concord_api.Error.{ErrorContext, RateLimitErrorKind, ApiClientError}
use concord_api.Auth.Errors.{AuthError}
use concord_api.Auth.Placement.{PlannedAuthSlot}
use concord_api.Auth.Material.{AuthTransportMaterial}
use concord_api.Body.{BodyErrorKind, BodyError, SizeHint, exact_hint, Body}
use concord_api.Body.Limited.{LimitedBody, new_limited}
use concord_api.Transport.{NativeRequest, materialize_authentication}
use concord_api.Client.Run.{ObservedResponse}

-- A body that was produced for a request: bytes in memory or a stream.
pub data ProducedBody (B : Type 0) : Type 0 where
  buffered : List ℕ → ProducedBody B
  streamed : B → ProducedBody B

-- A body as it is sent: as it was produced, or a stream in a limiter.
pub data SentBody (B : Type 0) : Type 0 where
  produced : ProducedBody B → SentBody B
  limited_stream : LimitedBody B → SentBody B

-- What the runtime has done that the hooks, the rate limiter or the server can see.
pub data SendEvent (B : Type 0) : Type 0 where
  acquired pre_send request_error post_response observed : SendEvent B
  executed : Option (SentBody B) → SendEvent B

-- The world and the events so far, in order.
pub record SendState (W B : Type 0) : Type 0 where
  pub world : W
  pub log : List (SendEvent B)

-- The client's parts that one execution calls. `execute` fails with the error of a body that the request
-- has noted, if any; `on_response` says whether a cooldown was stored.
pub record Sender (W M V B : Type 0) : Type 0 where
  pub ctx : ErrorContext
  pub native : NativeRequest M V
  pub size_hint : B → SizeHint
  pub max_request_body_bytes : Option ℕ
  pub acquire : W → Result ApiClientError (Unit {0}) × W
  pub pre_send : W → Result ApiClientError (Unit {0}) × W
  pub execute : M → Option (SentBody B) → W → Result (Option BodyError) ObservedResponse × W
  pub request_error : W → W
  pub post_response : ObservedResponse → W → W
  pub on_response : ObservedResponse → W → Result ApiClientError Bool × W

-- The request without its credentials, and its body.
pub record BuiltRequest (M B : Type 0) : Type 0 where
  pub message : M
  pub body : Option (ProducedBody B)
  pub slots : List PlannedAuthSlot

-- `wrap_rate_limit_error`: an error of the rate limiter is kept.
abbrev pub wrap_rate_limit_error :
    ErrorContext → RateLimitErrorKind → ApiClientError → ApiClientError
wrap_rate_limit_error ctx kind (ApiClientError.rate_limit c k) = ApiClientError.rate_limit c k
wrap_rate_limit_error ctx kind (ApiClientError.pagination c k) = ApiClientError.rate_limit ctx kind
wrap_rate_limit_error ctx kind (ApiClientError.pagination_limit c k) =
    ApiClientError.rate_limit ctx kind
wrap_rate_limit_error ctx kind (ApiClientError.auth c e) = ApiClientError.rate_limit ctx kind
wrap_rate_limit_error ctx kind (ApiClientError.other c name) = ApiClientError.rate_limit ctx kind

-- `SizeHint::exact`.
abbrev pub exact_of : SizeHint → Option ℕ
exact_of hint = elim hint.upper [
  | none ↦ none
  | some upper ↦ if beq ℕ_discrete upper hint.lower then some upper else none
]

-- The length that is known to be beyond the limit.
abbrev pub known_oversize : ℕ → SizeHint → Option ℕ
known_oversize limit hint = elim (exact_of hint) [
  | some exact ↦ if ltb limit exact then some exact else none
  | none ↦ if ltb limit hint.lower then some hint.lower else none
]

module _ {W M V B : Type 0} (sender : Sender W M V B) where
  abbrev pub Outcome : Type 0 → Type 0
  Outcome A = Result ApiClientError A × SendState W B

  abbrev note : SendEvent B → W → List (SendEvent B) → SendState W B
  note e w log = record { world = w; log = log ++ e ∷ [] }

  -- The hint of a body; reqwest knows the length of bytes in memory.
  abbrev pub hint_of : Option (ProducedBody B) → SizeHint
  hint_of none = exact_hint 0
  hint_of (some (ProducedBody.buffered bytes)) = exact_hint (length bytes)
  hint_of (some (ProducedBody.streamed b)) = sender.size_hint b

  abbrev pub as_produced : Option (ProducedBody B) → Option (SentBody B)
  as_produced none = none
  as_produced (some body) = some (SentBody.produced body)

  -- A stream gets a limiter, bytes in memory stay.
  abbrev pub limit_body : ℕ → Option (ProducedBody B) → Option (SentBody B)
  limit_body limit none = none
  limit_body limit (some (ProducedBody.buffered bytes)) =
      some (SentBody.produced (ProducedBody.buffered bytes))
  limit_body limit (some (ProducedBody.streamed b)) =
      some (SentBody.limited_stream (new_limited b limit))

  -- `observe_transport_response`: the hook, then the rate limiter.
  unfoldable pub observe_transport_response :
      ObservedResponse → SendState W B → Outcome ObservedResponse
  observe_transport_response response s =
      let hooked = note SendEvent.post_response (sender.post_response response s.world) s.log in
      let (action, after) = sender.on_response response hooked.world in
      let noted = note SendEvent.observed after hooked.log in
      elim action [
        | err e ↦ (
          err (wrap_rate_limit_error sender.ctx RateLimitErrorKind.response_action_failed e),
          noted,
        )
        | ok limited ↦ (ok (record response { rate_limited = limited }), noted)
      ]

  abbrev is_limit_error : Option BodyError → Bool
  is_limit_error none = false
  is_limit_error (some e) = elim e.kind [ BodyErrorKind.limit_exceeded ↦ true | _ ↦ false ]

  abbrev pub execution_error : Option BodyError → ApiClientError
  execution_error e =
      ApiClientError.other sender.ctx
        (if is_limit_error e then "RequestBodyLimitExceeded" else "RequestExecution")

  -- `send_built_request`: the credentials are put in, and the request is executed once.
  unfoldable pub send_built_request :
      BuiltRequest M B
      → Option (SentBody B)
      → List AuthTransportMaterial
      → SendState W B
      → Outcome ObservedResponse
  send_built_request built body materials s =
      elim (materialize_authentication sender.native built.message built.slots materials) [
        | err e ↦ (err (ApiClientError.auth sender.ctx e), s)
        | ok message ↦
            let (result, after) = sender.execute message body s.world in
            let sent = note (SendEvent.executed body) after s.log in
            elim result [
              | ok response ↦ (ok response, sent)
              | err e ↦ (
                err (execution_error e),
                note SendEvent.request_error (sender.request_error sent.world) sent.log,
              )
            ]
      ]

  -- The hook before the request, whose error ends the execution.
  unfoldable pub hook_and_send :
      BuiltRequest M B
      → Option (SentBody B)
      → List AuthTransportMaterial
      → SendState W B
      → Outcome ObservedResponse
  unfolding send_built_request
  hook_and_send built body materials s =
      let (hooked, after) = sender.pre_send s.world in
      let noted = note SendEvent.pre_send after s.log in
      elim hooked [ err e ↦ (err e, noted) | ok _ ↦ send_built_request built body materials noted ]

  -- The limit of the body, where there is one.
  unfoldable pub limit_and_send :
      BuiltRequest M B → List AuthTransportMaterial → SendState W B → Outcome ObservedResponse
  unfolding hook_and_send
  limit_and_send built materials s = elim sender.max_request_body_bytes [
    | none ↦ hook_and_send built (as_produced built.body) materials s
    | some limit ↦ elim (known_oversize limit (hint_of built.body)) [
      | some actual ↦ (
        err (ApiClientError.other sender.ctx "RequestBodyLimitExceeded"),
        note SendEvent.request_error (sender.request_error s.world) s.log,
      )
      | none ↦ hook_and_send built (limit_body limit built.body) materials s
    ]
  ]

  -- `acquire_rate_limit_and_send`.
  unfoldable pub acquire_rate_limit_and_send :
      BuiltRequest M B → List AuthTransportMaterial → SendState W B → Outcome ObservedResponse
  unfolding limit_and_send
  acquire_rate_limit_and_send built materials s =
      let (permit, after) = sender.acquire s.world in
      elim permit [
        | err e ↦ (
          err (wrap_rate_limit_error sender.ctx RateLimitErrorKind.acquire_failed e),
          record s { world = after },
        )
        | ok _ ↦ limit_and_send built materials (note SendEvent.acquired after s.log)
      ]

  -- `send_and_observe_once`.
  unfoldable pub send_and_observe_once :
      BuiltRequest M B → List AuthTransportMaterial → SendState W B → Outcome ObservedResponse
  unfolding acquire_rate_limit_and_send observe_transport_response
  send_and_observe_once built materials s =
      let (sent, after) = acquire_rate_limit_and_send built materials s in
      elim sent [ err e ↦ (err e, after) | ok response ↦ observe_transport_response response after ]
