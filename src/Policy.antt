-- ===== src/Policy.antt =====
-- concord_core/src/policy.rs: headers, query, timeout and rate limits of a request, set layer by layer.
-- Header names are lower-case texts, and a header map holds one value for each name that was inserted;
-- header values are bytes.
pub mod Laws
mod Tests
use concord_api.Base.{
  ℕ, Bool, true, false, not, ◌&&◌, ◌||◌, String, String-discrete, Option, none, some, List, [], ◌∷◌,
  ◌++◌, map, filter, if◌then◌else◌, beq,
}
use concord_api.RateLimit.{RateLimitPlan}

pub data PolicyLayer : Type 0 where
  client prefix_path endpoint runtime : PolicyLayer

abbrev pub Headers : Type 0
Headers = List (String × List ℕ)

abbrev pub Query : Type 0
Query = List (String × String)

pub record Policy : Type 0 where
  pub headers : Headers
  pub query : Query
  pub timeout : Option ℕ
  pub rate_limit : RateLimitPlan
  pub layer : PolicyLayer
  pub accept_explicit_by_endpoint : Bool
  pub accept_explicit_by_runtime : Bool

abbrev pub same : String → String → Bool
same = beq String-discrete

-- `get`, `insert` and `remove` of a header map.
abbrev pub header : Headers → String → Option (List ℕ)
header [] name = none
header ((n, v) ∷ m) name = let rest = header m name in if same n name then some v else rest

abbrev pub put_header : Headers → String → List ℕ → Headers
put_header [] name value = (name, value) ∷ []
put_header ((n, v) ∷ m) name value =
    let rest = put_header m name value in if same n name then (n, value) ∷ m else (n, v) ∷ rest

abbrev pub drop_header : Headers → String → Headers
drop_header m name = filter (λ h. not (same h.0 name)) m

abbrev pub accept : String
accept = "accept"

abbrev pub empty_plan : RateLimitPlan
empty_plan = record { buckets = [] }

-- `Policy::new`.
abbrev pub new_policy : Policy
new_policy = record {
  headers = [];
  query = [];
  timeout = none;
  rate_limit = empty_plan;
  layer = PolicyLayer.client;
  accept_explicit_by_endpoint = false;
  accept_explicit_by_runtime = false;
}

abbrev pub is_endpoint : PolicyLayer → Bool
is_endpoint PolicyLayer.endpoint = true
is_endpoint _ = false

abbrev pub note_accept : Policy → String → Policy
note_accept p name =
    if is_endpoint p.layer && same name accept
    then record p { accept_explicit_by_endpoint = true }
    else p

unfoldable pub insert_header : Policy → String → List ℕ → Policy
insert_header p name value =
    let p' = note_accept p name in record p' { headers = put_header p'.headers name value }

unfoldable pub remove_header : Policy → String → Policy
remove_header p name =
    let p' = note_accept p name in record p' { headers = drop_header p'.headers name }

unfoldable pub ensure_accept : Policy → List ℕ → Policy
ensure_accept p value =
    if p.accept_explicit_by_endpoint || p.accept_explicit_by_runtime
    then p
    else record p { headers = put_header p.headers accept value }

unfoldable pub remove_query : Policy → String → Policy
remove_query p key = record p { query = filter (λ e. not (same e.0 key)) p.query }

unfoldable pub replace_query_values : Policy → String → List String → Policy
unfolding remove_query
replace_query_values p key values =
    let p' = remove_query p key in
    record p' { query = p'.query ++ map (λ value. (key, value)) values }

unfoldable pub set_query : Policy → String → String → Policy
set_query p key value = replace_query_values p key (value ∷ [])

abbrev pub set_layer : Policy → PolicyLayer → Policy
set_layer p layer = record p { layer = layer }

abbrev pub set_timeout : Policy → ℕ → Policy
set_timeout p d = record p { timeout = some d }

abbrev pub clear_timeout : Policy → Policy
clear_timeout p = record p { timeout = none }

abbrev pub add_rate_limit : Policy → RateLimitPlan → Policy
add_rate_limit p plan = record p {
  rate_limit = record { buckets = p.rate_limit.buckets ++ plan.buckets };
}

abbrev pub replace_rate_limit : Policy → RateLimitPlan → Policy
replace_rate_limit p plan = record p { rate_limit = plan }

abbrev pub clear_rate_limit : Policy → Policy
clear_rate_limit p = record p { rate_limit = empty_plan }

-- A call of one of the operations, as generated code makes them in the order of the layers.
pub data Action : Type 0 where
  layers : PolicyLayer → Action
  inserts_header : String → List ℕ → Action
  removes_header : String → Action
  sets_query : String → String → Action
  replaces_query : String → List String → Action
  removes_query : String → Action
  sets_timeout : ℕ → Action
  clears_timeout : Action
  adds_rate_limit replaces_rate_limit : RateLimitPlan → Action
  clears_rate_limit : Action

abbrev pub act : Policy → Action → Policy
act p (layers layer) = set_layer p layer
act p (inserts_header name value) = insert_header p name value
act p (removes_header name) = remove_header p name
act p (sets_query key value) = set_query p key value
act p (replaces_query key values) = replace_query_values p key values
act p (removes_query key) = remove_query p key
act p (sets_timeout d) = set_timeout p d
act p clears_timeout = clear_timeout p
act p (adds_rate_limit plan) = add_rate_limit p plan
act p (replaces_rate_limit plan) = replace_rate_limit p plan
act p clears_rate_limit = clear_rate_limit p

abbrev pub act_all : Policy → List Action → Policy
act_all p [] = p
act_all p (a ∷ as') = act_all (act p a) as'
