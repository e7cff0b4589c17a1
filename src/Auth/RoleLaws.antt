-- ===== src/Auth/RoleLaws.antt =====
-- internal/auth/broker.go: the roles of a session.
use jimu_studio.Base.{String, not, ◌&&◌, List, [], ◌∷◌, ◌≡◌, ◌∙◌, arith, ◌==◌, eq_iff}
use jimu_studio.Base.Lists.{contains}
use jimu_studio.Base.Sort.{IsSorted, sort-IsSorted, contains-sort}
use jimu_studio.Auth.Complete.{unique_roles, normalized_roles}

contains-unique_roles :
    (rs : List String) (t : String)
    → contains (unique_roles rs) t ≡ (not (t == "") && contains rs t)
unfolding unique_roles
contains-unique_roles [] t = ground arith
contains-unique_roles (r ∷ rs) t =
    ground (arith, contains-unique_roles rs t, contains-unique_roles rs r, eq_iff r t, eq_iff r "")

-- The roles of a session are sorted, and they are exactly the identity's roles that are not empty.
pub normalized_roles_lem :
    (rs : List String)
    → IsSorted (normalized_roles rs)
      × ((t : String) → contains (normalized_roles rs) t ≡ (not (t == "") && contains rs t))
unfolding normalized_roles
normalized_roles_lem rs = (
  sort-IsSorted (unique_roles rs),
  λ t. contains-sort (unique_roles rs) t ∙ contains-unique_roles rs t,
)
