-- ===== src/Server/Roles.antt =====
-- The roles of a session: `HasRole` of internal/auth/types.go and the navigation of internal/server.
use jimu_studio.Base.{String, Bool, false, Option, none, some, List, [], ◌∷◌, ◌==◌, if◌then◌else◌}
use jimu_studio.Base.Text.{str_leb}
use jimu_studio.Auth.Types.{SessionView}
use jimu_studio.Server.Types.{NavigationItem}

-- The text at the index that `sort.SearchStrings` gives: the first that is not below the wanted one.
unfoldable pub search_strings : List String → String → Option String
search_strings [] wanted = none
search_strings (s ∷ rest) wanted =
    let later = search_strings rest wanted in if str_leb wanted s then some s else later

abbrev pub is_found : Option String → String → Bool
is_found none wanted = false
is_found (some s) wanted = s == wanted

-- `HasRole`.
unfoldable pub has_role : SessionView → String → Bool
unfolding search_strings
has_role session role = is_found (search_strings session.roles role) role

abbrev navigation_definitions : List (String × String × String)
navigation_definitions =
    ("studio.metadata.read", "Metadata", "/metadata")
    ∷ ("identity.admin", "Users and roles", "/identity")
    ∷ ("studio.workflow.read", "Workflows", "/workflows")
    ∷ ("studio.quota.read", "Quota and usage", "/quota")
    ∷ ("studio.audit.read", "Audit", "/audit")
    ∷ []

unfoldable pub allowed_items : SessionView → List (String × String × String) → List NavigationItem
allowed_items session [] = []
allowed_items session ((role, label, path) ∷ rest) =
    let items = allowed_items session rest in
    if has_role session role then record { label = label; path = path } ∷ items else items

abbrev pub allowed_navigation : SessionView → List NavigationItem
allowed_navigation session = allowed_items session navigation_definitions
