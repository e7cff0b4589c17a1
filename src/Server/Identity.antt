-- ===== src/Server/Identity.antt =====
-- The handlers of internal/server/identity.go: the users and roles, and their mutations.
use Prim.Native.String.{◌++◌}
use jimu_studio.Base.{
  ℕ, suc, String, Bool, true, false, not, ◌||◌, ◌&&◌, Option, none, some, List, [], ◌∷◌, Result, ok,
  err, ◌==◌, ◌!=◌, if◌then◌else◌,
}
use jimu_studio.Base.Int.{ℤ, pos}
use jimu_studio.Base.Dict.{delete}
use jimu_studio.Auth.Types.{SessionView, Broker}
use jimu_studio.Auth.Drafts.{draft_key, clear_draft}
use jimu_studio.Provider.Types.{User, Role, Page, ProviderError, api, plain}
use jimu_studio.Provider.Client.{Client}
use jimu_studio.Provider.Resources.{
  disable_user_confirmation, list_users, list_roles, create_user, set_user_status, create_role,
  update_role, change_user_role,
}
use jimu_studio.Server.Types.{Form, get, Request, Env, identity, Response}
use jimu_studio.Server.Guards.{
  proceed, refuse, render, Guards, Admitted, admit, visit, with_provider, bounded_browser_value,
  render_metadata_error, broker_error, or_text,
}
use jimu_studio.Server.Login.{see_other}

-- The parameters of a query that a link keeps: those with a value.
abbrev pub kept : String → String → List (String × String) → List (String × String)
kept key value rest = if value == "" then rest else (key, value) ∷ rest

abbrev identity_link : Env → String → String → String → String → String
identity_link env key cursor user_search role_search =
    if cursor == ""
    then ""
    else "/identity?"
      ++ env.encode_query
          ((key, cursor) ∷ kept "user_search" user_search (kept "role_search" role_search []))

-- `Ok` of the first and of the second result, or the first error.
abbrev pub both {ℓ κ} :
    {A : Type ℓ}
    → {B : Type κ} → Result ProviderError A
    → Result ProviderError B
    → Result ProviderError (A × B)
both (err e) second = err e
both (ok a) (err e) = err e
both (ok a) (ok b) = ok (a, b)

unfoldable pub is_identity_query : Request → Bool
is_identity_query r =
    bounded_browser_value (r.query "user_cursor") 2048
    && bounded_browser_value (r.query "role_cursor") 2048
    && bounded_browser_value (r.query "user_search") 256
    && bounded_browser_value (r.query "role_search") 256

abbrev list_identity : Env → ℕ → Request → Client → Result ProviderError (Page User × Page Role)
list_identity env n r client =
    both
      (list_users (env.http n) client
        (record { cursor = r.query "user_cursor"; limit = pos 50; search = r.query "user_search" }))
      (list_roles (env.http (suc n)) client
        (record { cursor = r.query "role_cursor"; limit = pos 50; search = r.query "role_search" }))

abbrev identity_page :
    Env → Request → SessionView → ℤ → String → String → Page User → Page Role → Response
identity_page env r v status message request_id users roles = render v status (
    identity users.items roles.items (r.query "user_search") (r.query "role_search")
      (identity_link env "user_cursor" users.next_cursor (r.query "user_search")
        (r.query "role_search"))
      (identity_link env "role_cursor" roles.next_cursor (r.query "user_search")
        (r.query "role_search"))
      message request_id)

-- `renderIdentity`, with the number of its call of the provider.
unfoldable pub render_identity :
    Env → ℕ → Broker → Request → String → SessionView → ℤ → String → String → Broker × Response
render_identity env n b r id v status message request_id =
    if not (is_identity_query r)
    then (b, refuse 400 "invalid identity query")
    else (proceed (with_provider env n b id (list_identity env n r))
        (λ b' e. (b', render_metadata_error env v e))
        (λ b' answer.
          let (users, roles) = answer in
          (b', identity_page env r v status message request_id users roles)))

abbrev identity_forbidden : String
identity_forbidden = "identity administrator permission required"

unfoldable pub identity_list : Env → Broker → Request → Broker × Response
identity_list env b r =
    visit (some ("identity.admin", identity_forbidden)) env b r
      (λ (b₁ : Broker) (id : String) (v : SessionView).
        render_identity env 1 b₁ r id v (pos 200) "" "")

abbrev role_not_found : ProviderError
role_not_found = api (record {
  status = pos 404;
  code = "role_not_found";
  message = "Role was not found.";
  request_id = "";
})

unfoldable pub pick_role : String → List Role → Result ProviderError Role
pick_role key [] = err role_not_found
pick_role key (role ∷ rest) =
    let later = pick_role key rest in if role.key == key then ok role else later

unfoldable pub find_identity_role :
    Env → ℕ → Broker → String → String → Broker × Result ProviderError Role
find_identity_role env n b id key =
    if not (bounded_browser_value key 256) || key == ""
    then (b, err (plain "safe role key required"))
    else (proceed
        (with_provider env n b id (λ client.
          list_roles (env.http n) client (record { cursor = ""; limit = pos 200; search = key })))
        (λ b' e. (b', err e)) (λ b' page. (b', pick_role key page.items)))

abbrev pub at_least_0 : Option ℤ → Option ℤ
at_least_0 (some (pos n)) = some (pos n)
at_least_0 _ = none

-- `parseIdentityVersion`.
unfoldable pub parse_identity_version : Env → String → Option ℤ
parse_identity_version env value = at_least_0 (env.parse_int value)

unfoldable pub identity_basis : Env → Form → String
identity_basis env form = env.sha256_hex (env.encode_form (delete "csrf" form))

abbrev done {ℓ} : {A : Type ℓ} → Result ProviderError A → Result ProviderError (Unit {0})
done (err e) = err e
done (ok a) = ok tt

-- The switch over the action.
unfoldable pub identity_operation :
    Env → Client → Form → String → ℤ → String → Result ProviderError (Unit {0})
identity_operation env client form action version key =
    let user = get "user_id" form in
    let role = get "role_key" form in
    let display_name = get "display_name" form in
    if action == "user-create"
    then done (create_user (env.http 3) client user display_name (get "email" form) key)
    else if action == "user-status"
    then done (set_user_status (env.http 3) client user (get "status" form) version key)
    else if action == "role-create"
    then done (create_role (env.http 3) client role display_name key)
    else if action == "role-update"
    then done (update_role (env.http 3) client role display_name version key)
    else if action == "role-assign"
    then done (change_user_role (env.http 3) client user role version key true)
    else if action == "role-revoke"
    then done (change_user_role (env.http 3) client user role version key false)
    else err (plain "unsupported identity action")

-- The answer where the provider refused the mutation.
unfoldable pub identity_refused :
    Env → Broker → Request → String → SessionView → ProviderError → Broker × Response
identity_refused env b r id v (plain text) = (b, render_metadata_error env v (plain text))
identity_refused env b r id v (api e) =
    render_identity env 4 b r id v e.status
      (or_text e.message "The provider rejected the identity operation.") e.request_id

-- The mutation, once its target is known to be open to it.
unfoldable pub identity_run :
    Env → Broker → Request → String → SessionView → Form → String → ℤ → Broker × Response
identity_run env b r id v form action version =
    let scope = "identity:" ++ (action ++ (":" ++ identity_basis env form)) in
    proceed (draft_key b (env.world 2) id scope)
      (λ b₁ e. (b₁, render_metadata_error env v (broker_error e)))
      (λ b₁ key.
        proceed
          (with_provider env 3 b₁ id
            (λ client. identity_operation env client form action version key))
          (λ b₂ e. identity_refused env b₂ r id v e)
          (λ b₂ u.
            (clear_draft b₂ id scope, see_other ("/identity?updated=" ++ env.query_escape action))))

-- A role that is to be updated must not be a system role.
unfoldable pub identity_checked :
    Env → Broker → Request → String → SessionView → Form → String → ℤ → Broker × Response
identity_checked env b r id v form action version =
    if action != "role-update"
    then identity_run env b r id v form action version
    else (proceed (find_identity_role env 1 b id (get "role_key" form))
        (λ b' e. (b', render_metadata_error env v e))
        (λ b' role.
          if role.system
          then render_identity env 2 b' r id v (pos 409) "System roles are immutable." ""
          else identity_run env b' r id v form action version))

abbrev pub identity_guards : Guards
identity_guards = record {
  role = "identity.admin";
  cross_site = "cross-site identity mutation rejected";
  forbidden = identity_forbidden;
  bad_form = "invalid identity form";
  rejected = "identity mutation rejected";
}

-- A version that the action does not read is 0 where it does not parse.
abbrev pub identity_versioned : String → Option ℤ → Option ℤ
identity_versioned action (some version) = some version
identity_versioned action none =
    if action == "user-create" || action == "role-create" then some (pos 0) else none

unfoldable pub identity_submitted : Env → Request → Admitted
identity_submitted env r b id v form =
    let action = get "action" form in
    if not (bounded_browser_value action 64) || action == ""
    then (b, refuse 400 "identity action required")
    else if action == "user-status" && get "confirmation" form != disable_user_confirmation
    then render_identity env 1 b r id v (pos 400) "Type the required confirmation exactly." ""
    else elim (identity_versioned action
        (parse_identity_version env (get "expected_version" form))) [
          | none ↦ (b, refuse 400 "valid expected version required")
          | some version ↦ identity_checked env b r id v form action version
        ]

unfoldable pub identity_mutate : Env → Broker → Request → Broker × Response
identity_mutate env b r = admit identity_guards env b r (identity_submitted env r)
