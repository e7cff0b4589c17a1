-- ===== src/Server/Guards.antt =====
-- The guards of internal/server/authenticated.go and metadata.go: cookies, sessions, roles, forms and
-- CSRF tokens, and the provider behind a session.
use Prim.Native.String.{◌++◌}
use jimu_studio.Base.{
  ℕ, String, len, Bool, false, not, ◌||◌, ◌&&◌, Option, none, some, [], ◌∷◌, Result, ok, err, leb,
  ltb, ◌==◌, if◌then◌else◌,
}
use jimu_studio.Base.Int.{ℤ, pos, negsuc, leb_ℤ}
use jimu_studio.Auth.Types.{AuthError, SessionView, Broker}
use jimu_studio.Auth.Session.{session, validate_csrf, with_client}
use jimu_studio.Provider.Types.{ProviderError, api, plain}
use jimu_studio.Provider.Text.{has_control}
use jimu_studio.Provider.Client.{Client}
use jimu_studio.Server.Roles.{has_role, allowed_navigation}
use jimu_studio.Server.Types.{
  Form, get, Request, Env, Content, failed, message, page, SameSite, strict, Response,
}

abbrev pub max_metadata_form_bytes : ℕ
max_metadata_form_bytes = 262144

abbrev pub max_auth_form_bytes : ℕ
max_auth_form_bytes = 65536

-- `http.Error`.
abbrev pub refuse : ℕ → String → Response
refuse status text = record { status = pos status; view = message text; cookies = [] }

-- `renderTemplate` on a page of a session.
abbrev pub render : SessionView → ℤ → Content → Response
render session status content = record {
  status = status;
  view = page session (allowed_navigation session) content;
  cookies = [];
}

unfoldable pub same_site_mutation : Env → Request → Bool
same_site_mutation env r = not (env.equal_fold r.fetch_site "cross-site")

unfoldable pub cookie_name : Env → String → String
cookie_name env kind = if env.secure_cookies then "__Host-studio_" ++ kind else "studio_" ++ kind

unfoldable pub cookie_value : Env → Request → String → String
unfolding cookie_name
cookie_value env r kind = elim (r.cookie (cookie_name env kind)) [
  | none ↦ ""
  | some value ↦ if ltb 256 (len value) then "" else value
]

unfoldable pub set_cookie : Env → String → String → ℤ → SameSite → Response → Response
unfolding cookie_name
set_cookie env kind value max_age same_site response = record response {
  cookies =
      record {
        name = cookie_name env kind;
        value = value;
        max_age = max_age;
        secure = env.secure_cookies;
        same_site = same_site;
      }
      ∷ response.cookies;
}

-- A cookie without a value that has expired.
unfoldable pub clear_cookie : Env → String → Response → Response
unfolding set_cookie
clear_cookie env kind response = set_cookie env kind "" (negsuc 0) strict response

-- `authenticatedSession`: the session's identifier and view, or the refusal.
unfoldable pub authenticated_session :
    Env → Broker → Request → Broker × Result Response (String × SessionView)
unfolding cookie_value session clear_cookie
authenticated_session env b r =
    let id = cookie_value env r "session" in
    if id == ""
    then (b, err (refuse 401 "authentication required"))
    else (let (b', view) = session b (env.world 0) id in
        elim view [
          | none ↦ (b', err (clear_cookie env "session" (refuse 401 "authentication required")))
          | some v ↦ (b', ok (id, v))
        ])

-- How a handler goes on after a call: `stop` where the call gave an error, `next` otherwise.
unfoldable pub proceed {ℓ κ} :
    {E : Type 0} {A : Type ℓ} {B : Type κ}
    → Broker × Result E A
    → (Broker → E → Broker × B)
    → (Broker → A → Broker × B)
    → Broker × B
proceed (b, err e) stop next = stop b e
proceed (b, ok a) stop next = next b a

-- The role that a mutation needs, and the texts of its refusals.
pub record Guards : Type 0 where
  pub role : String
  pub cross_site : String
  pub forbidden : String
  pub bad_form : String
  pub rejected : String

-- What a mutating handler does once it is admitted.
abbrev pub Admitted : Type 0
Admitted = Broker → String → SessionView → Form → Broker × Response

-- The guards with which every mutating handler begins.
unfoldable pub admit : Guards → Env → Broker → Request → Admitted → Broker × Response
unfolding same_site_mutation authenticated_session
admit g env b r handler =
    if not (same_site_mutation env r)
    then (b, refuse 403 g.cross_site)
    else (let (b', found) = authenticated_session env b r in
        elim found [
          | err refusal ↦ (b', refusal)
          | ok (id, v) ↦
              if not (has_role v g.role)
              then (b', refuse 403 g.forbidden)
              else elim (r.form max_metadata_form_bytes) [
                | none ↦ (b', refuse 400 g.bad_form)
                | some form ↦ elim (validate_csrf b' id (get "csrf" form)) [
                  | err e ↦ (b', refuse 403 g.rejected)
                  | ok u ↦ handler b' id v form
                ]
              ]
        ])

-- A reading handler: `role` is none where no role is asked for.
unfoldable pub visit :
    Option (String × String)
    → Env
    → Broker
    → Request
    → (Broker → String → SessionView → Broker × Response)
    → Broker × Response
unfolding authenticated_session
visit role env b r handler =
    let (b', found) = authenticated_session env b r in
    elim found [
      | err refusal ↦ (b', refusal)
      | ok (id, v) ↦ elim role [
        | none ↦ handler b' id v
        | some (name, forbidden) ↦
            if not (has_role v name) then (b', refuse 403 forbidden) else handler b' id v
      ]
    ]

-- `withProvider`, with the number of the broker's call.
unfoldable pub with_provider {ℓ} :
    {A : Type ℓ}
    → Env
    → ℕ
    → Broker
    → String
    → (Client → Result ProviderError A)
    → Broker × Result ProviderError A
with_provider env n b id operation =
    let (b', handle) = with_client b (env.world n) id in
    elim handle [
      | err e ↦ (b', err (plain "unknown Studio session"))
      | ok h ↦ elim (env.client_of h) [
        | none ↦ (b', err (plain "tenant provider client is incompatible"))
        | some client ↦ (b', operation client)
      ]
    ]

-- `boundedBrowserValue`.
unfoldable pub bounded_browser_value : String → ℕ → Bool
unfolding has_control
bounded_browser_value value limit = leb (len value) limit && not (has_control value)

-- A provider's status from 400 to 599, and 502 for anything else.
unfoldable pub error_status : ProviderError → ℤ
error_status (plain text) = pos 502
error_status (api e) =
    if leb_ℤ (pos 400) e.status && leb_ℤ e.status (pos 599) then e.status else pos 502

abbrev pub request_id_of : ProviderError → String
request_id_of (plain text) = ""
request_id_of (api e) = e.request_id

abbrev pub message_of : ProviderError → String
message_of (plain text) = ""
message_of (api e) = e.message

abbrev pub or_text : String → String → String
or_text value text = if value == "" then text else value

abbrev metadata_message : ProviderError → String
metadata_message (plain text) = "The Jimu provider could not complete this request."
metadata_message (api e) = or_text e.message "The Jimu provider could not complete this request."

unfoldable pub render_metadata_error : Env → SessionView → ProviderError → Response
unfolding error_status
render_metadata_error env session e =
    render session (error_status e)
      (failed (env.status_text (error_status e)) (metadata_message e) (request_id_of e))

abbrev is_one : ℤ → ℕ → Bool
is_one status n = leb_ℤ status (pos n) && leb_ℤ (pos n) status

abbrev migration_message : ProviderError → ℤ → String
migration_message (plain text) status = "The provider could not complete this migration operation."
migration_message (api e) status =
    if is_one status 400
    then "The provider rejected this migration request."
    else if is_one status 401 || is_one status 403
    then "The provider denied this migration operation."
    else if is_one status 404
    then "The provider could not find the requested migration resource."
    else "The provider could not complete this migration operation."

unfoldable pub render_migration_error : Env → SessionView → ProviderError → Response
unfolding error_status
render_migration_error env session e = render session (error_status e) (
    failed (env.status_text (error_status e)) (migration_message e (error_status e))
      (request_id_of e))

-- An error of the broker is no `APIError`.
abbrev pub broker_error : AuthError → ProviderError
broker_error e = plain "broker"

abbrev pub is_status : ProviderError → ℕ → Bool
is_status (plain text) n = false
is_status (api e) n = is_one e.status n
