-- ===== src/Headers/Maps.antt =====
-- The header map of the crate `http`, as the client uses it: its operations with what the crate's
-- documentation says of them. Iteration may take the names in any order.
use concord_api.Base.{◌≡◌, String, String-discrete, List, [], ◌∷◌, ◌++◌, beq, if◌then◌else◌}

-- The values that a sequence of entries has for a name, in order.
abbrev pub values_of {ℓ} : {V : Type ℓ} → String → List (String × V) → List V
values_of name [] = []
values_of name ((n, v) ∷ entries) =
    let rest = values_of name entries in if beq String-discrete n name then v ∷ rest else rest

pub record HeaderMap (M V : Type 0) : Type 0 where
  pub new : M
  pub append : M → String → V → M
  pub iter : M → List (String × V)
  pub get_all : M → String → List V
  -- a new map is empty; `append` puts a value after those of its name
  pub get_all-new : (name : String) → get_all new name ≡ []
  pub get_all-append :
      (m : M) (n : String) (v : V) (name : String)
      → get_all (append m n v) name
        ≡ get_all m name ++ (if beq String-discrete n name then v ∷ [] else [])
  -- iteration yields the values of each name in their order
  pub values_of-iter : (m : M) (name : String) → values_of name (iter m) ≡ get_all m name
