-- ===== src/Server/Tests/Statuses.antt =====
-- internal/server/identity.go on a provider whose error claims a status in its body.
use jimu_studio.Base.{true, some, [], ◌∷◌, ◌≡◌, true, refl, eqb, if◌then◌else◌}
use jimu_studio.Base.Int.{pos}
use jimu_studio.Base.Dict.{lookup, insert, delete}
use jimu_studio.Auth.Types.{SessionView}
use jimu_studio.Auth.Teardown.{find_session}
use jimu_studio.Auth.Drafts.{find_drafts, draw_key, draft_key}
use jimu_studio.Auth.Session.{
  session, visit_session, needs_refresh, view_of, tenant_name, with_client,
}
use jimu_studio.Provider.Text.{
  has_control, has_path_mark, safe_path_value, safe_identity_key, is_token, all_token_chars,
}
use jimu_studio.Provider.Client.{
  do_request, perform, is_path, decode_bounded, decode_response, receive, send, checked,
}
use jimu_studio.Provider.Sample.{http}
use jimu_studio.Server.Types.{Form, Env}
use jimu_studio.Server.Guards.{proceed, with_provider, bounded_browser_value}
use jimu_studio.Server.Identity.{
  identity_submitted, parse_identity_version, identity_checked, identity_run, identity_basis,
  identity_operation, identity_refused, render_identity, is_identity_query,
}
use jimu_studio.Provider.Client.{Http, decode_api_error}
use jimu_studio.Provider.Text.{safe_public_text, bounded_text}
use jimu_studio.Provider.Validate.{validate_user, validate_role, validate_page}
use jimu_studio.Provider.Metadata.{is_query, query_values, first_error}
use jimu_studio.Provider.Resources.{
  create_user, list_users, list_roles, list_page, identity_page_error,
}
use jimu_studio.Server.Tests.{env, broker, view, request}

-- A provider whose error claims the status 1 in its body, in the third call.
abbrev claiming : Http
claiming = record http {
  exchange =
      λ request. some (record { status = 500; content_type = "application/json"; body = "{}" });
  api_error = λ body e. (record e { status = pos 1 }, some (2, true));
}

abbrev claimed_env : Env
claimed_env = record env { http = λ n. if eqb n 3 then claiming else http }

abbrev admin : SessionView
admin = record view { roles = "identity.admin" ∷ [] }

abbrev new_user_form : Form
new_user_form =
    ("action", "user-create" ∷ [])
    ∷ ("user_id", "u2" ∷ [])
    ∷ ("display_name", "User" ∷ [])
    ∷ ("email", "user@example.com" ∷ [])
    ∷ []

claimed_status_written :
    (identity_submitted claimed_env request broker "w" admin new_user_form).1.status ≡ pos 1
unfolding identity_submitted parse_identity_version identity_checked identity_run identity_basis
    identity_operation identity_refused render_identity is_identity_query proceed with_provider
    with_client session visit_session needs_refresh view_of tenant_name find_drafts find_session
    draft_key draw_key lookup insert delete bounded_browser_value has_control create_user list_users
    list_roles list_page is_query query_values identity_page_error first_error validate_user
    validate_role send receive do_request perform is_path decode_response decode_bounded
    decode_api_error safe_public_text checked safe_path_value has_path_mark bounded_text
    safe_identity_key is_token all_token_chars validate_page
claimed_status_written = refl
