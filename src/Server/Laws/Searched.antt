-- ===== src/Server/Laws/Searched.antt =====
-- `HasRole` of internal/auth/types.go: the search of a role among the sorted roles of a session.
use jimu_studio.Base.{
  String, true, List, [], ◌∷◌, ◌≡◌, ◌==◌, arith, eq_iff, Bool-cases, inl, inr, subst, sym, ◌↔◌,
}
use jimu_studio.Base.Lists.{contains, All}
use jimu_studio.Base.Text.{str_leb, str_leb_total, str_leb_antisymm}
use jimu_studio.Base.Sort.{IsSorted}
use jimu_studio.Auth.Types.{SessionView}
use jimu_studio.Server.Roles.{search_strings, is_found, has_role}

search_strings-contains :
    (roles : List String) (role : String)
    → is_found (search_strings roles role) role ≡ true
    → contains roles role ≡ true
unfolding search_strings
search_strings-contains [] role h = cc
search_strings-contains (s ∷ rest) role h = elim (Bool-cases (str_leb role s)) [
  | inl here ↦ ground (arith, (rw (here, search_strings) at h))
  | inr later ↦ ground (arith, search_strings-contains rest role (rw (later, search_strings) at h))
]

-- A role that `HasRole` finds is a role of the session.
pub has_role-contains :
    (v : SessionView) (role : String) → has_role v role ≡ true → contains v.roles role ≡ true
unfolding has_role
has_role-contains v role = search_strings-contains v.roles role

All-contains :
    (s t : String) (xs : List String)
    → All (λ y. str_leb s y ≡ true) xs
    → contains xs t ≡ true
    → str_leb s t ≡ true
All-contains s t [] h k = cc
All-contains s t (x ∷ xs) (h, hs) k = elim (Bool-cases (x == t)) [
  | inl same ↦ subst (λ y. str_leb s y ≡ true) ((eq_iff x t).0 same) h
  | inr other ↦ All-contains s t xs hs (rw other at k)
]

search_strings_lem :
    (roles : List String) (role : String)
    → IsSorted roles
    → contains roles role ≡ true
    → is_found (search_strings roles role) role ≡ true
unfolding search_strings
search_strings_lem [] role sorted h = cc
search_strings_lem (s ∷ rest) role (low, sorted) h = elim (Bool-cases (str_leb role s)) [
  | inl here ↦ elim (Bool-cases (s == role)) [
    | inl same ↦ rw (here, search_strings) same
    | inr other ↦
        let same = str_leb_antisymm s role (All-contains s role rest low (rw other at h)) here in
        ground (arith, other, same, eq_iff s role)
  ]
  | inr later ↦ elim (Bool-cases (s == role)) [
    | inl same ↦
        let e = (eq_iff s role).0 same in
        let above = str_leb_total role s later in
        let below : str_leb role s ≡ true =
          subst (λ y. str_leb y s ≡ true) e (subst (λ y. str_leb s y ≡ true) (sym e) above) in
        ground (arith, later, below)
    | inr other ↦ rw (later, search_strings) (search_strings_lem rest role sorted (rw other at h))
  ]
]

-- The search for a role is membership: where the roles of a session are sorted, `HasRole` gives true
-- exactly for them.
pub has_role-contains_iff :
    (v : SessionView) (role : String)
    → IsSorted v.roles
    → (has_role v role ≡ true) ↔ (contains v.roles role ≡ true)
unfolding has_role
has_role-contains_iff v role sorted =
    (search_strings-contains v.roles role, search_strings_lem v.roles role sorted)
