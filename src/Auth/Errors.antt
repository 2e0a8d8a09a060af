-- ===== src/Auth/Errors.antt =====
-- concord_core/src/auth/errors.rs: the errors and reasons of the authentication layer.
use concord_api.Base.{ℕ, String, Option, none, some}

pub data AuthErrorKind : Type 0 where
  missing_credential acquire_failed refresh_failed rejected_credential : AuthErrorKind
  unsupported_scheme tls_capability_unavailable recursion_detected : AuthErrorKind
  provider_rejected response_too_large response_body : AuthErrorKind
  state_unavailable invalid_configuration : AuthErrorKind

pub record AuthError : Type 0 where
  pub kind : AuthErrorKind
  pub message : String
  pub retry_after : Option ℕ

-- `AuthError::new`.
abbrev pub auth_error : AuthErrorKind → String → AuthError
auth_error kind message = record { kind = kind; message = message; retry_after = none }

-- `AuthError::with_retry_after`.
abbrev pub with_retry_after : AuthError → ℕ → AuthError
with_retry_after e wait = record e { retry_after = some wait }

pub data CredentialRefreshReason : Type 0 where
  missing expired expiring_soon rejected manual : CredentialRefreshReason

pub data InvalidateReason : Type 0 where
  unauthorized forbidden manual provider_rejected : InvalidateReason
