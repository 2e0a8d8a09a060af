-- ===== src/Policy/Laws.antt =====
-- concord_core/src/policy.rs: who decides the `Accept` header, and what the query holds.
use mathlib.Core.List.{append-nil}
use concord_api.Base.{
  ℕ, Bool, false, not, ◌&&◌, ◌||◌, String, String-discrete, some, List, [], ◌∷◌, ◌++◌, map, filter,
  if◌then◌else◌, beq-eq-true, ◌≡◌, refl, ap, inl, inr, Bool-cases, arith,
}
use concord_api.Policy.{
  PolicyLayer, Headers, Query, Policy, same, header, put_header, accept, new_policy, is_endpoint,
  insert_header, remove_header, ensure_accept, remove_query, replace_query_values, set_query,
  Action, layers, inserts_header, removes_header, sets_query, replaces_query, removes_query,
  sets_timeout, clears_timeout, adds_rate_limit, replaces_rate_limit, clears_rate_limit, act,
  act_all,
}

-- Whether the actions set or remove `Accept` in the endpoint's layer, from the layer that is current.
abbrev pub endpoint_decides : PolicyLayer → List Action → Bool
endpoint_decides layer [] = false
endpoint_decides layer (layers layer' ∷ as') = endpoint_decides layer' as'
endpoint_decides layer (inserts_header name value ∷ as') =
    (is_endpoint layer && same name accept) || endpoint_decides layer as'
endpoint_decides layer (removes_header name ∷ as') =
    (is_endpoint layer && same name accept) || endpoint_decides layer as'
endpoint_decides layer (_ ∷ as') = endpoint_decides layer as'

decided :
    (p : Policy) (actions : List Action)
    → ((act_all p actions).accept_explicit_by_endpoint
        ≡ (p.accept_explicit_by_endpoint || endpoint_decides p.layer actions))
      × ((act_all p actions).accept_explicit_by_runtime ≡ p.accept_explicit_by_runtime)
unfolding insert_header remove_header set_query replace_query_values remove_query
decided p [] = ground arith
decided p (layers layer ∷ as') = ground (arith, decided (act p (layers layer)) as')
decided p (inserts_header name value ∷ as') =
    ground (arith, decided (act p (inserts_header name value)) as')
decided p (removes_header name ∷ as') = ground (arith, decided (act p (removes_header name)) as')
decided p (sets_query key value ∷ as') = ground (arith, decided (act p (sets_query key value)) as')
decided p (replaces_query key values ∷ as') =
    ground (arith, decided (act p (replaces_query key values)) as')
decided p (removes_query key ∷ as') = ground (arith, decided (act p (removes_query key)) as')
decided p (sets_timeout d ∷ as') = ground (arith, decided (act p (sets_timeout d)) as')
decided p (clears_timeout ∷ as') = ground (arith, decided (act p clears_timeout) as')
decided p (adds_rate_limit plan ∷ as') = ground (arith, decided (act p (adds_rate_limit plan)) as')
decided p (replaces_rate_limit plan ∷ as') =
    ground (arith, decided (act p (replaces_rate_limit plan)) as')
decided p (clears_rate_limit ∷ as') = ground (arith, decided (act p clears_rate_limit) as')

header-put_header :
    (m : Headers) (name : String) (value : List ℕ) (other : String)
    → header (put_header m name value) other
      ≡ (if same name other then some value else header m other)
header-put_header [] name value other = refl
header-put_header ((n, v) ∷ m) name value other = elim (Bool-cases (same n name)) [
  | inl e ↦
      let z : (same n other ≡ same name other) =
        ap (λ x. same x other) (beq-eq-true String-discrete n name e) in
      ground arith
  | inr e ↦ elim (Bool-cases (same name other)) [
    | inl f ↦
        let z : (same n name ≡ same n other) =
          ap (same n) (beq-eq-true String-discrete name other f) in
        ground (arith, header-put_header m name value other)
    | inr f ↦ ground (arith, header-put_header m name value other)
  ]
]

-- The decoder's `Accept` replaces the one of the outer layers, unless the endpoint's layer has set or
-- removed `Accept`; then it stays as the layers left it. The other headers stay in both cases.
pub decoder_accept_yields_to_endpoint :
    (actions : List Action) (value : List ℕ) (name : String)
    → header (ensure_accept (act_all new_policy actions) value).headers name ≡ (
        if same accept name && not (endpoint_decides PolicyLayer.client actions)
        then some value
        else header (act_all new_policy actions).headers name)
unfolding ensure_accept
decoder_accept_yields_to_endpoint actions value name =
    let flags = decided new_policy actions in
    ground (arith, header-put_header (act_all new_policy actions).headers accept value name)

-- The values of a key, in order.
abbrev pub values_of : Query → String → List String
values_of [] key = []
values_of ((k, v) ∷ q) key = let rest = values_of q key in if same k key then v ∷ rest else rest

values_of-append :
    (q r : Query) (key : String) → values_of (q ++ r) key ≡ values_of q key ++ values_of r key
values_of-append [] r key = refl
values_of-append ((k, v) ∷ q) r key = ground (arith, values_of-append q r key)

values_of-removed :
    (q : Query) (key other : String)
    → values_of (filter (λ e. not (same e.0 key)) q) other
      ≡ (if same key other then [] else values_of q other)
values_of-removed [] key other = ground arith
values_of-removed ((k, v) ∷ q) key other = elim (Bool-cases (same k key)) [
  | inl e ↦
      let z : (same k other ≡ same key other) =
        ap (λ x. same x other) (beq-eq-true String-discrete k key e) in
      ground (arith, values_of-removed q key other)
  | inr e ↦ elim (Bool-cases (same key other)) [
    | inl f ↦
        let z : (same k key ≡ same k other) =
          ap (same k) (beq-eq-true String-discrete key other f) in
        ground (arith, values_of-removed q key other)
    | inr f ↦ ground (arith, values_of-removed q key other)
  ]
]

values_of-added :
    (key : String) (values : List String) (other : String)
    → values_of (map (λ value. (key, value)) values) other ≡ (if same key other then values else [])
values_of-added key [] other = ground arith
values_of-added key (v ∷ vs) other = ground (arith, values_of-added key vs other)

-- After `replace_query_values` the key has the given values, in order, and every other key has the
-- values that it had.
pub replaced_query_has_values :
    (p : Policy) (key : String) (values : List String) (other : String)
    → values_of (replace_query_values p key values).query other
      ≡ (if same key other then values else values_of p.query other)
unfolding replace_query_values remove_query
replaced_query_has_values p key values other =
    let kept : Query = filter (λ e. not (same e.0 key)) p.query in
    let added : Query = map (λ value. (key, value)) values in
    ground (
      arith,
      values_of-append kept added other,
      values_of-removed p.query key other,
      values_of-added key values other,
      append-nil (values_of p.query other),
    )
