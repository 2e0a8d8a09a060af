-- ===== src/Plan.antt =====
-- concord_core/src/endpoint/plan.rs and concord_core/src/request.rs: the plan of one request, as far as
-- pagination reads and changes it. Body, response format and authentication are left out; header
-- names and query parts are texts, header values are bytes.
use concord_api.Base.{ℕ, Bool, String, Option, none, some, List}

pub record EndpointMeta : Type 0 where
  pub name : String
  pub method : String
  pub idempotent : Bool

pub record ResolvedRoute : Type 0 where
  pub scheme : String
  pub host : String
  pub path : String

-- The parts of `ResolvedPolicy` that a request's identity reads.
pub record PlanPolicy : Type 0 where
  pub headers : List (String × List ℕ)
  pub query : List (String × String)

pub record EndpointPlan : Type 0 where
  pub meta : EndpointMeta
  pub route : ResolvedRoute
  pub policy : PlanPolicy
  pub pagination : Bool

pub record RequestOverrides : Type 0 where
  pub debug_level : Option ℕ
  pub timeout : Option ℕ
  pub page_index : ℕ

pub record RequestPlan : Type 0 where
  pub endpoint : EndpointPlan
  pub overrides : RequestOverrides

pub data TimeoutOverride : Type 0 where
  inherit clear : TimeoutOverride
  set : ℕ → TimeoutOverride

pub record RequestOptions : Type 0 where
  pub debug_level : Option ℕ
  pub timeout_override : TimeoutOverride

abbrev pub default_options : RequestOptions
default_options = record { debug_level = none; timeout_override = inherit }

abbrev pub override_timeout : TimeoutOverride → Option ℕ → Option ℕ
override_timeout inherit timeout = timeout
override_timeout clear timeout = none
override_timeout (set d) timeout = some d

-- `RequestOptions::apply_to`.
unfoldable pub apply_to : RequestOptions → RequestPlan → ℕ → RequestPlan
apply_to opts plan page_index = record plan {
  overrides = record {
    debug_level = opts.debug_level;
    timeout = override_timeout opts.timeout_override plan.overrides.timeout;
    page_index = page_index;
  };
}
