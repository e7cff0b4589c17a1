-- ===== src/Server/Tests.antt =====
-- internal/server on a broker with one session, whose provider answers well.
mod Statuses
use Prim.Native.String.{slice}
use jimu_studio.Base.{
  suc, true, none, some, List, [], ◌∷◌, ◌≡◌, ◌≢◌, ◌↔◌, refl, eq_iff, Result, err, false, arith,
  String, ◌==◌, ◌⊎◌, ok, eqb, ◌==◌, if◌then◌else◌,
}
use jimu_studio.Base.Int.{pos}
use jimu_studio.Base.Dict.{lookup, insert, delete}
use jimu_studio.Auth.Types.{
  unknown_session, deletion_draft, SessionState, SessionView, SessionResult, Tenant, Broker, World,
}
use jimu_studio.Auth.Setup.{
  Config, with_defaults, is_out_of_bounds, is_incomplete, register, sorted_views, new_broker,
  empty_broker,
}
use jimu_studio.Auth.Teardown.{find_session}
use jimu_studio.Auth.Drafts.{
  is_safe_category, all_category_chars, draft_state_key, find_drafts, load_draft, draw_key,
  draft_key,
}
use jimu_studio.Auth.Session.{
  session, visit_session, needs_refresh, view_of, tenant_name, with_client,
}
use jimu_studio.Auth.Runs.{Call, run, WellFormed}
use jimu_studio.Auth.SingleUse.{IsAccepted}
use jimu_studio.Provider.Types.{DeletionPlan, ProviderError, plain}
use jimu_studio.Provider.Text.{
  has_control, has_path_mark, safe_path_value, safe_identity_key, is_token, all_token_chars,
}
use jimu_studio.Provider.Client.{
  do_request, perform, is_path, decode_bounded, decode_response, receive, send, checked,
}
use jimu_studio.Provider.Metadata.{deletion_body, receipt_error, delete_entity}
use jimu_studio.Provider.Sample.{http, client, receipt}
use jimu_studio.Server.Types.{Form, Request, Env, page, deletion_done}
use jimu_studio.Server.Guards.{cookie_value, proceed, with_provider, bounded_browser_value}
use jimu_studio.Server.Roles.{allowed_navigation, allowed_items}
use jimu_studio.Server.Metadata.{form_fields, parse_metadata_entity}
use jimu_studio.Server.Deletion.{confirm_deletion, apply_deletion_of, deletion_applied}
use jimu_studio.Server.Login.{callback}
use jimu_studio.Server.Routes.{post_auth_login, post_metadata_edit, get_audit, serve}
use jimu_studio.Server.Laws.Retried.{with_provider-draft_key}
use jimu_studio.Server.Laws.Searched.{has_role-contains_iff}
use jimu_studio.Server.Roles.{has_role}
use jimu_studio.Base.Lists.{contains}
use jimu_studio.Server.Identity.{
  identity_submitted, parse_identity_version, identity_checked, identity_run, identity_basis,
  identity_operation, identity_refused, render_identity, is_identity_query,
}
use jimu_studio.Provider.Client.{Http, decode_api_error}
use jimu_studio.Provider.Text.{safe_public_text, bounded_text}
use jimu_studio.Provider.Validate.{validate_user, validate_role, validate_page}
use jimu_studio.Provider.Metadata.{is_query, query_values, first_error}
use jimu_studio.Provider.Resources.{
  create_user, list_users, list_roles, list_page, identity_page_error,
}
use jimu_studio.Server.Laws.Cases.{IsRefusal, IsUntouched}
use jimu_studio.Server.Laws.Guarded.{reading_role, MayRead, serve-MayRead}
use jimu_studio.Server.Laws.Kept.{is_http_status}
use jimu_studio.Server.Laws.History.{serve-is_http_status}
use jimu_studio.Server.Laws.Reviewed.{IsReviewed, deletion_applied-IsReviewed}
use jimu_studio.Server.Laws.Callback.{denied_callback, accepted_callback, callback-IsAccepted}
use jimu_studio.Server.Laws.Submitted.{IsSubmitted, parse_metadata_entity-IsSubmitted}

abbrev world : World
world = record {
  now = 70;
  random = λ n. some (slice "klmn" n (suc n));
  authorization_url = λ handle request. "https://id.example/authorize";
  parse_url = λ url. none;
  challenge = λ verifier. verifier;
  exchange = λ handle request. none;
  refresh = λ handle token. none;
  new_client = λ url token. some 9;
}

abbrev pub env : Env
env = record {
  secure_cookies = true;
  world = λ n. world;
  http = λ n. http;
  client_of = λ handle. some client;
  parse_int = λ value. if value == "1" then some (pos 1) else none;
  format_int = λ n. "0";
  query_escape = λ value. value;
  encode_query = λ values. "q";
  encode_form = λ form. "f";
  sha256_hex = λ value. value;
  decode_limits = λ value. none;
  equal_fold = λ s t. s == t;
  status_text = λ status. "Bad Gateway";
}

abbrev plan : DeletionPlan
plan = record {
  code = "orders";
  expected_version = pos 1;
  deletable = true;
  dependencies = [];
  impact_summary = "1 row";
}

-- A session with the roles of the Studio and a stored plan under the reference "r".
abbrev object : SessionState
object = record {
  id = "w";
  csrf = "x";
  tenant_id = "one";
  subject = "u1";
  display_name = "User";
  roles = "studio.metadata.apply" ∷ "studio.metadata.write" ∷ [];
  access_token = "at";
  refresh_token = "rt";
  token_expiry = 5000;
  created = 60;
  expires = 1060;
  active = true;
  client = 9;
  cache = none;
  optimistic = some (("state:metadata-delete:r", deletion_draft plan "plan") ∷ []);
}

abbrev pub broker : Broker
broker = record {
  tenants = [];
  tenant_views = [];
  pending = [];
  sessions = ("w", 0) ∷ [];
  pending_ttl = 100;
  session_ttl = 1000;
  refresh_skew = 10;
  max_pending = 2;
  max_sessions = 2;
  heap = λ p. if eqb p 0 then some object else none;
  next = 1;
  closed = [];
}

abbrev form : Form
form =
    ("csrf", "x" ∷ [])
    ∷ ("draft", "r" ∷ [])
    ∷ ("confirmation", "DELETE_ENTITY" ∷ [])
    ∷ ("code", "orders" ∷ [])
    ∷ ("name", "Orders" ∷ [])
    ∷ ("kind", "standard" ∷ [])
    ∷ ("expected_version", "1" ∷ [])
    ∷ ("field_count", "1" ∷ [])
    ∷ ("field_code_0", "id" ∷ [])
    ∷ ("field_type_0", "uuid" ∷ [])
    ∷ ("field_required_0", "on" ∷ [])
    ∷ []

abbrev pub request : Request
request = record {
  path = "/metadata";
  cookie = λ name. some "w";
  query = λ key. "";
  fetch_site = "same-origin";
  form = λ limit. some form;
}

serve-MayRead_example :
    let (b', response) = serve env get_audit broker request in
    (IsUntouched env broker request b' × IsRefusal response)
    ⊎ MayRead env broker request "studio.audit.read"
unfolding reading_role
serve-MayRead_example = serve-MayRead env get_audit broker request "studio.audit.read" refl

serve-is_http_status_example :
    is_http_status (serve env post_metadata_edit broker request).1.status ≡ true
serve-is_http_status_example = serve-is_http_status env post_metadata_edit broker request refl

callback-IsAccepted_example :
    let (b', response) = callback env broker request in
    (response ≡ denied_callback env)
    ⊎ ((s : SessionResult) × (response ≡ accepted_callback env s.id)
        × IsAccepted broker b' world (cookie_value env request "pending") "" "" s)
callback-IsAccepted_example = callback-IsAccepted env broker request

abbrev pub view : SessionView
view = record {
  tenant_id = "one";
  tenant_name = "";
  subject = "u1";
  display_name = "User";
  roles = "studio.metadata.apply" ∷ "studio.metadata.write" ∷ [];
  csrf = "x";
}

parsed : (parse_metadata_entity env form).error ≡ none
unfolding parse_metadata_entity form_fields bounded_browser_value has_control lookup
parsed = refl

parse_metadata_entity-IsSubmitted_example : IsSubmitted env form (parse_metadata_entity env form)
parse_metadata_entity-IsSubmitted_example = parse_metadata_entity-IsSubmitted env form parsed

done :
    (deletion_applied env broker "w" view form).1.view
    ≡ page view (allowed_navigation view) (deletion_done receipt)
unfolding deletion_applied bounded_browser_value has_control load_draft lookup is_safe_category
    all_category_chars draft_state_key find_drafts find_session confirm_deletion apply_deletion_of
    proceed draft_key draw_key insert with_provider with_client session visit_session needs_refresh
    view_of tenant_name delete_entity deletion_body receipt_error send receive do_request perform
    is_path decode_response decode_bounded checked safe_path_value has_path_mark safe_identity_key
    is_token all_token_chars allowed_items delete
done = refl

deletion_applied-IsReviewed_example :
    IsReviewed broker (deletion_applied env broker "w" view form).0 "w" form receipt
deletion_applied-IsReviewed_example =
    deletion_applied-IsReviewed env broker "w" view form receipt done

abbrev retried : Broker × Result ProviderError String
retried =
    with_provider env 2 (draft_key broker world "w" "scope").0 "w" (λ client. err (plain "down"))

drawn : (draft_key broker world "w" "scope").1 ≡ ok "k"
unfolding draft_key draw_key find_drafts find_session lookup insert
drawn = refl

abbrev drawn_key : String
drawn_key = "k"

abbrev no_key : String
no_key = ""

-- Two texts that the comparison tells apart.
differ : (s t : String) → (s == t) ≡ false → s ≢ t
differ s t h = ground (arith, eq_iff s t)

with_provider-draft_key_example :
    ((draft_key retried.0 world "w" "scope").1 ≡ ok "k")
    ⊎ ((draft_key retried.0 world "w" "scope").1 ≡ err unknown_session)
with_provider-draft_key_example =
    with_provider-draft_key env 2 broker world world "w" "scope" "k" (λ client. err (plain "down"))
      drawn (differ drawn_key no_key refl)

has_role-contains_iff_example :
    (has_role view "studio.metadata.write" ≡ true)
    ↔ (contains view.roles "studio.metadata.write" ≡ true)
has_role-contains_iff_example =
    has_role-contains_iff view "studio.metadata.write" ((refl, tt), (tt, tt))
