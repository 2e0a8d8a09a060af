-- ===== src/Auth/Binding.antt =====
-- concord_core/src/auth/orchestrator.rs: the binding of a requirement to its provider's slot. The slots and
-- the providers live in a world `W`, which their operations change.
use concord_api.Base.{ℕ, Bool, true, false, String, Option, some, Result, ok, err, beq}
use concord_api.Auth.Errors.{AuthError, InvalidateReason, CredentialRefreshReason}
use concord_api.Auth.Slot.{AuthStepPolicy, CredentialLease}
use concord_api.Auth.Uses.{
  CredentialId, CredentialId-discrete, AuthRequirement, AuthAppliedCredential,
}
use concord_api.Auth.Placement.{PlannedAuthSlot, misconfigured}
use concord_api.Auth.Material.{
  AuthTransportMaterial, AuthPreparationReuse, PreparedAuthCredential, apply_secret_credential,
  apply_basic_credential,
}

-- `Box<dyn Any>` of a lease: the material that the slot's provider makes.
pub data ErasedValue : Type 0 where
  secret_value : String → ErasedValue
  basic_value : String → String → ErasedValue

-- The credential slot behind a binding, with its type of material erased.
pub record ErasedCredentialSlot (W : Type 0) : Type 0 where
  pub id : CredentialId
  pub get_or_refresh :
      CredentialRefreshReason
      → AuthStepPolicy
      → W
      → Result AuthError (CredentialLease ErasedValue) × W
  pub invalidate :
      CredentialRefreshReason → Option ℕ → InvalidateReason → W → Result AuthError (Unit {0}) × W
  pub invalidate_local : Option ℕ → W → Result AuthError (Unit {0}) × W

pub data Materializer : Type 0 where
  materialize_secret materialize_basic : Materializer

pub data AuthPreparationMode : Type 0 where
  per_execution request_local : AuthPreparationMode

pub data AuthChallengeMode : Type 0 where
  invalidate_only refresh : AuthChallengeMode

pub record AuthProviderBinding (W : Type 0) : Type 0 where
  pub slot : ErasedCredentialSlot W
  pub materializer : Materializer
  pub reuse : AuthPreparationReuse
  pub refresh_on_challenge : Bool

abbrev pub reuse_of : AuthPreparationMode → AuthPreparationReuse
reuse_of AuthPreparationMode.per_execution = AuthPreparationReuse.never
reuse_of AuthPreparationMode.request_local = AuthPreparationReuse.request_local

abbrev pub refreshes : AuthChallengeMode → Bool
refreshes AuthChallengeMode.invalidate_only = false
refreshes AuthChallengeMode.refresh = true

-- What a materializer makes of the leased value.
unfoldable pub materialize :
    Materializer
    → ErasedValue
    → PlannedAuthSlot
    → AuthRequirement
    → Result AuthError AuthTransportMaterial
materialize Materializer.materialize_secret (ErasedValue.secret_value s) planned requirement =
    apply_secret_credential planned requirement s
materialize Materializer.materialize_secret (ErasedValue.basic_value u p) planned requirement =
    err (misconfigured "credential binding produced an incompatible secret material type")
materialize Materializer.materialize_basic (ErasedValue.secret_value s) planned requirement =
    err (misconfigured "credential binding produced an incompatible basic material type")
materialize Materializer.materialize_basic (ErasedValue.basic_value u p) planned requirement =
    apply_basic_credential planned requirement u p

abbrev pub applied_credential : AuthRequirement → ℕ → AuthAppliedCredential
applied_credential requirement generation = record {
  credential_id = requirement.credential.id;
  usage_id = requirement.usage_id;
  step_id = requirement.step_id;
  generation = some generation;
  provenance = requirement.provenance;
}

module _ {W : Type 0} where
  abbrev pub secret_binding :
      ErasedCredentialSlot W → AuthPreparationMode → AuthChallengeMode → AuthProviderBinding W
  secret_binding slot preparation challenge = record {
    slot = slot;
    materializer = Materializer.materialize_secret;
    reuse = reuse_of preparation;
    refresh_on_challenge = refreshes challenge;
  }

  abbrev pub basic_binding :
      ErasedCredentialSlot W → AuthPreparationMode → AuthChallengeMode → AuthProviderBinding W
  basic_binding slot preparation challenge = record {
    slot = slot;
    materializer = Materializer.materialize_basic;
    reuse = reuse_of preparation;
    refresh_on_challenge = refreshes challenge;
  }

  -- `AuthProviderBinding::validate_requirement`, as a test.
  abbrev pub serves : AuthProviderBinding W → AuthRequirement → Bool
  serves binding requirement = beq CredentialId-discrete binding.slot.id requirement.credential.id

  -- What `prepare_binding` makes of a lease.
  unfoldable pub prepared_of :
      AuthProviderBinding W
      → AuthRequirement
      → PlannedAuthSlot
      → CredentialLease ErasedValue
      → Result AuthError PreparedAuthCredential
  prepared_of binding requirement planned lease =
      elim (materialize binding.materializer lease.value planned requirement) [
        | err e ↦ err e
        | ok material ↦ ok (record {
          applied = applied_credential requirement lease.generation;
          reuse = binding.reuse;
          material = material;
        })
      ]

  -- `prepare_binding` after the slot has answered.
  abbrev pub leased :
      AuthProviderBinding W
      → AuthRequirement
      → PlannedAuthSlot
      → Result AuthError (CredentialLease ErasedValue) × W
      → Result AuthError PreparedAuthCredential × W
  leased binding requirement planned (err e, after) = (err e, after)
  leased binding requirement planned (ok lease, after) =
      (prepared_of binding requirement planned lease, after)
