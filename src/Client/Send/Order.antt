-- ===== src/Client/Send/Order.antt =====
-- concord_core/src/client/send_flow.rs: the order in which one execution calls the rate limiter, the
-- hooks and the server.
use concord_api.Base.{
  ◌≡◌, ◌⊎◌, ℕ, ◌≤◌, ◌<◌, Option, none, some, List, [], ◌∷◌, ◌++◌, length, Result, ok, err,
}
use concord_api.Error.{ApiClientError}
use concord_api.Client.Run.{ObservedResponse}
use concord_api.Client.Send.{ProducedBody, SentBody, SendEvent, Sender, BuiltRequest, Outcome}

module _ {W M V B : Type 0} (sender : Sender W M V B) where
  -- A body that brings no more than the limit, as far as it is counted.
  abbrev Within : ℕ → Option (SentBody B) → Type 0
  Within limit none = Unit
  Within limit (some (SentBody.produced (ProducedBody.buffered bytes))) = length bytes ≤ limit
  Within limit (some (SentBody.produced (ProducedBody.streamed b))) = ⊥
  Within limit (some (SentBody.limited_stream t)) = (t.limit ≡ limit) × (t.seen ≡ 0)

  -- The body is within the limit that the client has, if any.
  abbrev BoundedBy : Option ℕ → Option (SentBody B) → Type 0
  BoundedBy none body = Unit
  BoundedBy (some limit) body = Within limit body

  abbrev IsBounded : Option (SentBody B) → Type 0
  IsBounded body = BoundedBy sender.max_request_body_bytes body

  abbrev hooked : List (SendEvent B)
  hooked = SendEvent.acquired ∷ SendEvent.pre_send ∷ []

  abbrev executed_events : Option (SentBody B) → List (SendEvent B)
  executed_events body = hooked ++ SendEvent.executed body ∷ []

  abbrev observed_events : Option (SentBody B) → List (SendEvent B)
  observed_events body = executed_events body ++ SendEvent.post_response ∷ SendEvent.observed ∷ []

  -- The bytes that a body has at the least, as far as its kind or its size hint says.
  abbrev known_bytes : Option (ProducedBody B) → ℕ
  known_bytes none = 0
  known_bytes (some (ProducedBody.buffered bytes)) = length bytes
  known_bytes (some (ProducedBody.streamed b)) = (sender.size_hint b).lower

  abbrev Exceeds : Option ℕ → ℕ → Type 0
  Exceeds none n = ⊥
  Exceeds (some limit) n = limit < n

  abbrev Fits : Option ℕ → ℕ → Type 0
  Fits none n = Unit
  Fits (some limit) n = n ≤ limit

  -- The body is known to be beyond the client's limit.
  abbrev IsOversized : BuiltRequest M B → Type 0
  IsOversized built = Exceeds sender.max_request_body_bytes (known_bytes built.body)

  abbrev IsFitting : BuiltRequest M B → Type 0
  IsFitting built = Fits sender.max_request_body_bytes (known_bytes built.body)

  -- The events of an execution that fails before its request is executed.
  abbrev NotExecuted : BuiltRequest M B → List (SendEvent B) → Type 0
  NotExecuted built log =
      (log ≡ [])
      ⊎ ((IsOversized built × (log ≡ SendEvent.acquired ∷ SendEvent.request_error ∷ []))
          ⊎ (IsFitting built × (log ≡ hooked)))

  -- The events of an execution, by its request and result.
  abbrev pub IsOrdered :
      BuiltRequest M B → Result ApiClientError ObservedResponse → List (SendEvent B) → Type 0
  IsOrdered built (ok r) log =
      IsFitting built × (body : Option (SentBody B)) × IsBounded body × (log ≡ observed_events body)
  IsOrdered built (err e) log =
      NotExecuted built log
      ⊎ (IsFitting built
          × (body : Option (SentBody B)) × IsBounded body
          × ((log ≡ executed_events body ++ SendEvent.request_error ∷ [])
              ⊎ (log ≡ observed_events body)))

  abbrev Ends : BuiltRequest M B → Outcome sender ObservedResponse → Type 0
  Ends built (r, s) = IsOrdered built r s.log

  -- After the request was sent: an error was reported, or the response is still to be observed.
  abbrev IsSent : BuiltRequest M B → Outcome sender ObservedResponse → Type 0
  IsSent built (ok r, s) =
      IsFitting built
      × (body : Option (SentBody B)) × IsBounded body
      × (s.log ≡ executed_events body)
  IsSent built (err e, s) = IsOrdered built (err e) s.log
