-- ===== src/Error.antt =====
-- concord_core/src/error.rs: the client's errors, as far as the modelled parts raise them. The texts of
-- the messages are left out.
use concord_api.Base.{String}
use concord_api.Auth.Errors.{AuthError}

pub record ErrorContext : Type 0 where
  pub endpoint : String
  pub method : String

pub data PaginationErrorKind : Type 0 where
  runtime_already_initialized runtime_not_initialized unsupported_pagination : PaginationErrorKind
  invalid_state invalid_size overflow non_progress : PaginationErrorKind
  page_limit_exceeded item_limit_exceeded : PaginationErrorKind

-- concord_core/src/rate_limit/error.rs.
pub data RateLimitErrorKind : Type 0 where
  invalid_configuration invalid_key acquire_failed response_action_failed : RateLimitErrorKind
  internal : RateLimitErrorKind

-- `other` stands for every variant that the modelled code only passes on, by its name.
pub data ApiClientError : Type 0 where
  pagination pagination_limit : ErrorContext → PaginationErrorKind → ApiClientError
  rate_limit : ErrorContext → RateLimitErrorKind → ApiClientError
  auth : ErrorContext → AuthError → ApiClientError
  other : ErrorContext → String → ApiClientError
