-- ===== src/Transport/Tests.antt =====
-- A request with two credentials.
use concord_api.Base.{
  ◌≡◌, refl, String, String-discrete, ℕ_discrete, some, List, [], ◌∷◌, ◌++◌, ok, All, beq,
  if◌then◌else◌, arith,
}
use concord_api.Auth.Placement.Planned.{AreApart}
use concord_api.Auth.Placement.Public.{PublicRequest, validate_public_request}
use concord_api.Auth.Material.{AuthTransportMaterial, slot_id}
use concord_api.Auth.Examples.{two_slots}
use concord_api.Transport.{
  NativeRequest, material_for, materialize_authentication, place_all, place,
}
use concord_api.Transport.Placed.{Carries}
use concord_api.Transport.Finished.{every_slot_is_materialized}
use concord_api.Transport.Public.{credentials_leave_public_request}

-- A request as the values of each name, and its query pairs.
abbrev pub Request : Type 0
Request = (String → List String) × List (String × String)

abbrev pub request_crate : NativeRequest Request String
request_crate = record {
  get_all = λ m name. m.0 name;
  query_pairs = λ m. m.1;
  insert = λ m n v. ((λ name. if beq String-discrete n name then v ∷ [] else m.0 name), m.1);
  append_pair = λ m k v. (m.0, m.1 ++ (k, v) ∷ []);
  from_str = λ s. some s;
  encode = λ s. s;
  get_all-insert = λ m n v name. refl;
  get_all-append_pair = λ m k v name. refl;
  query_pairs-insert = λ m n v. refl;
  query_pairs-append_pair = λ m k v. refl;
}

abbrev pub public_request : Request
public_request =
    ((λ name. if beq String-discrete "accept" name then "json" ∷ [] else []), ("page", "2") ∷ [])

abbrev pub materials : List AuthTransportMaterial
materials = AuthTransportMaterial.secret 1 "s" ∷ AuthTransportMaterial.secret 2 "t" ∷ []

abbrev finished : Request
finished = (
  (λ name.
      if beq String-discrete "authorization" name then "Bearer s" ∷ [] else public_request.0 name),
  ("page", "2") ∷ ("app_id", "t") ∷ [],
)

abbrev is_finished :
    materialize_authentication request_crate public_request two_slots materials ≡ ok finished
unfolding materialize_authentication place_all place ℕ_discrete
is_finished = refl

abbrev are_apart : AreApart two_slots
are_apart = (((refl, omega arith), tt), (tt, tt))

every_slot_is_materialized_example :
    All
      (λ s.
        (material : AuthTransportMaterial) × (material_for materials s.id ≡ some material)
        × (slot_id material ≡ s.id)
        × Carries request_crate finished s.placement material)
      two_slots
every_slot_is_materialized_example =
    every_slot_is_materialized request_crate two_slots materials public_request finished are_apart
      is_finished

abbrev public_names : PublicRequest
public_names = record {
  header_names = "accept" ∷ [];
  query_keys = "page" ∷ [];
  reserved_headers = [];
}

abbrev is_valid : validate_public_request two_slots public_names ≡ ok tt
unfolding validate_public_request String-discrete
is_valid = refl

credentials_leave_public_request_example :
    All
      (λ name. request_crate.get_all finished name ≡ request_crate.get_all public_request name)
      public_names.header_names
    × (more : List (String × String)) × (request_crate.query_pairs finished
        ≡ request_crate.query_pairs public_request ++ more)
credentials_leave_public_request_example =
    credentials_leave_public_request request_crate two_slots materials public_names public_request
      finished is_valid is_finished
