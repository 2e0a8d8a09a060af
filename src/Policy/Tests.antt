-- ===== src/Policy/Tests.antt =====
-- concord_core/src/policy.rs: small policies, and the theorems at them.
use concord_api.Base.{String-discrete, none, List, [], ◌∷◌, ◌≡◌, refl}
use concord_api.Policy.{
  PolicyLayer, Policy, header, accept, new_policy, insert_header, remove_header, ensure_accept,
  remove_query, replace_query_values, set_query, Action, layers, inserts_header, removes_header,
  sets_query, act_all,
}
use concord_api.Policy.Laws.{
  decoder_accept_yields_to_endpoint, values_of, replaced_query_has_values,
}

opened : Unit {0}
unfolding insert_header remove_header ensure_accept remove_query replace_query_values set_query
    String-discrete
opened = tt

-- The endpoint removes the `Accept` of the client's layer.
abbrev removing : List Action
removing =
    inserts_header accept (1 ∷ [])
    ∷ layers PolicyLayer.endpoint
    ∷ removes_header accept
    ∷ layers PolicyLayer.runtime
    ∷ []

no_accept : header (ensure_accept (act_all new_policy removing) (2 ∷ [])).headers accept ≡ none
unfolding opened
no_accept = refl

decoder_accept_yields_to_endpoint_example :
    header (ensure_accept (act_all new_policy removing) (2 ∷ [])).headers accept
    ≡ header (act_all new_policy removing).headers accept
unfolding opened
decoder_accept_yields_to_endpoint_example =
    decoder_accept_yields_to_endpoint removing (2 ∷ []) accept

abbrev asked : Policy
asked = act_all new_policy (sets_query "q" "first" ∷ sets_query "tag" "base" ∷ [])

replaced_query_has_values_example :
    values_of (replace_query_values asked "q" ("a" ∷ "b" ∷ [])).query "tag" ≡ "base" ∷ []
unfolding opened
replaced_query_has_values_example = replaced_query_has_values asked "q" ("a" ∷ "b" ∷ []) "tag"
