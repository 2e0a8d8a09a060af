-- ===== src/Retry/Tests.antt =====
-- concord_core/src/retry_mode.rs: a policy for one origin, and the theorem at it.
use concord_api.Base.{
  false, All, ◌↔◌, none, ℕ, ◌≤◌, ◌≡◌, refl, true, String, String-discrete, Option, some, [], ◌∷◌,
  err, IsNodup, ℕ_discrete,
}
use concord_api.Retry.{
  OriginScheme, FixedOriginDescriptor, status, Policy, unsupported_status, has, new_config,
  retryable, resolve,
}
use concord_api.Retry.Laws.{
  IsGatewayStatus, IsRetriedMethod, installed_policy_retries_given_statuses,
}

opened : Unit {0}
unfolding new_config retryable resolve String-discrete ℕ_discrete
opened = tt

-- The host of an authority without a port.
abbrev host_of : String → Option String
host_of authority = some authority

abbrev example : FixedOriginDescriptor
example = record { scheme = OriginScheme.https; authority = "example.com" }

abbrev twice : Policy
twice = record { host = "example.com"; max_retries_per_request = 2; statuses = 503 ∷ 502 ∷ [] }

refused : new_config 1 (500 ∷ []) ≡ err (unsupported_status 500)
unfolding opened
refused = refl

installed_policy_retries_given_statuses_example :
    (host_of "example.com" ≡ some "example.com")
    × (1 ≤ 2)
    × (2 ≤ 2)
    × All IsGatewayStatus (503 ∷ 502 ∷ 503 ∷ [])
    × IsNodup ℕ_discrete (503 ∷ 502 ∷ [])
    × ((method : String) (s : ℕ)
        → (retryable twice method (some s) ≡ true)
          ↔ (IsRetriedMethod method × (has (503 ∷ 502 ∷ 503 ∷ []) s ≡ true)))
    × ((method : String) → retryable twice method none ≡ false)
unfolding opened
installed_policy_retries_given_statuses_example =
    installed_policy_retries_given_statuses host_of 2 (503 ∷ 502 ∷ 503 ∷ [])
      (status (record { max_retries = 2; statuses = 503 ∷ 502 ∷ [] })) example twice refl refl
