-- ===== src/Pagination/Identity.antt =====
-- concord_core/src/request.rs: the identity of a page request, by which a repeated one is noticed.
use Prim.Native.Nat.{compare, Ordering}
use Prim.Native.String.{compare as compare_text}
use concord_api.Base.{ℕ, String, List, [], ◌∷◌, map, String-discrete, ℕ_discrete}
use concord_api.Plan.{RequestPlan}

pub record PaginationRequestHeader : Type 0 where
  pub name : String
  pub value : List ℕ

pub record PaginationRequestIdentity : Type 0 where
  pub endpoint : String
  pub method : String
  pub scheme : String
  pub host : String
  pub path : String
  pub query : List (String × String)
  pub headers : List PaginationRequestHeader

unfoldable pub PaginationRequestIdentity-discrete : Discrete PaginationRequestIdentity
unfolding String-discrete ℕ_discrete
PaginationRequestIdentity-discrete = hlevel (String-discrete, ℕ_discrete)

-- `Ord` of byte vectors: lexicographic, the shorter first.
compare_bytes : List ℕ → List ℕ → Ordering
compare_bytes [] [] = Ordering.eq
compare_bytes [] (b ∷ bs) = Ordering.lt
compare_bytes (a ∷ as') [] = Ordering.gt
compare_bytes (a ∷ as') (b ∷ bs) =
    let rest = compare_bytes as' bs in
    elim (compare a b) [
      | Ordering.lt ↦ Ordering.lt
      | Ordering.eq ↦ rest
      | Ordering.gt ↦ Ordering.gt
    ]

compare_headers : PaginationRequestHeader → PaginationRequestHeader → Ordering
unfolding compare_bytes
compare_headers a b = elim (compare_text a.name b.name) [
  | Ordering.lt ↦ Ordering.lt
  | Ordering.eq ↦ compare_bytes a.value b.value
  | Ordering.gt ↦ Ordering.gt
]

insert_header :
    PaginationRequestHeader → List PaginationRequestHeader → List PaginationRequestHeader
unfolding compare_headers
insert_header h [] = h ∷ []
insert_header h (x ∷ xs) =
    let rest = insert_header h xs in
    elim (compare_headers h x) [ Ordering.gt ↦ x ∷ rest | _ ↦ h ∷ x ∷ xs ]

-- `sort_unstable_by`: headers that compare equal are equal, so every sort gives this list.
unfoldable pub sort_headers : List PaginationRequestHeader → List PaginationRequestHeader
unfolding insert_header
sort_headers [] = []
sort_headers (x ∷ xs) = insert_header x (sort_headers xs)

unfoldable pub pagination_request_identity : RequestPlan → PaginationRequestIdentity
unfolding sort_headers
pagination_request_identity plan = record {
  endpoint = plan.endpoint.meta.name;
  method = plan.endpoint.meta.method;
  scheme = plan.endpoint.route.scheme;
  host = plan.endpoint.route.host;
  path = plan.endpoint.route.path;
  query = plan.endpoint.policy.query;
  headers =
      sort_headers (map (λ h. record { name = h.0; value = h.1 }) plan.endpoint.policy.headers);
}
