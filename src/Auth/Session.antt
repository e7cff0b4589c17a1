-- ===== src/Auth/Session.antt =====
-- internal/auth/session.go and operations.go: `Session`, `Switch`, `Logout`, `ValidateCSRF` and
-- `WithClient`.
use jimu_studio.Base.{
  ℕ, ◌+◌, String, Bool, not, ◌&&◌, ◌||◌, Option, none, some, ◌∷◌, Result, ok, err, ltb, eqb, ◌==◌,
  if◌then◌else◌,
}
use jimu_studio.Base.Dict.{lookup}
use jimu_studio.Auth.Types.{
  AuthError, unknown_session, invalid_csrf, Token, Pending, SessionView, SessionState, Broker,
  World,
}
use jimu_studio.Auth.Teardown.{update, invalidate, find_session}
use jimu_studio.Auth.Begin.{constant_time_equal, begin}

unfoldable pub tenant_name : Broker → String → String
tenant_name b id = elim (lookup id b.tenants) [ none ↦ "" | some tenant ↦ tenant.name ]

unfoldable pub view_of : Broker → SessionState → SessionView
unfolding tenant_name
view_of b s = record {
  tenant_id = s.tenant_id;
  tenant_name = tenant_name b s.tenant_id;
  subject = s.subject;
  display_name = s.display_name;
  roles = s.roles;
  csrf = s.csrf;
}

-- The token must be refreshed: it has an expiry, which the skew reaches.
unfoldable pub needs_refresh : ℕ → ℕ → SessionState → Bool
needs_refresh now skew s = not (eqb s.token_expiry 0) && not (ltb (now + skew) s.token_expiry)

-- The new token with a client for it, or none where the code invalidates the session.
unfoldable pub refreshed : Broker → World → SessionState → Option (Token × ℕ)
refreshed b w s = if s.refresh_token == "" then none else elim (lookup s.tenant_id b.tenants) [
  | none ↦ none
  | some tenant ↦ elim tenant.identity [
    | none ↦ none
    | some handle ↦ elim (w.refresh handle s.refresh_token) [
      | none ↦ none
      | some token ↦
          if token.access_token == ""
          then none
          else elim (w.new_client tenant.provider_base_url token.access_token) [
            | none ↦ none
            | some client ↦ some (token, client)
          ]
    ]
  ]
]

-- The session with a new token and client.
abbrev pub renewed : Token → ℕ → SessionState → SessionState
renewed token client s = record s {
  client = client;
  access_token = token.access_token;
  refresh_token = if token.refresh_token == "" then s.refresh_token else token.refresh_token;
  token_expiry = token.expiry;
}

abbrev pub install : Broker → ℕ → SessionState → Token → ℕ → Broker
install b p s token client = record b {
  heap = update b.heap p (renewed token client s);
  closed = s.client ∷ b.closed;
}

-- `Session` once the object is found.
unfoldable pub visit_session :
    Broker → World → String → ℕ → SessionState → Broker × Option SessionView
unfolding needs_refresh refreshed view_of
visit_session b w id p s =
    if not s.active || not (ltb w.now s.expires)
    then (invalidate id p b, none)
    else if needs_refresh w.now b.refresh_skew s
    then elim (refreshed b w s) [
      | none ↦ (invalidate id p b, none)
      | some (token, client) ↦
          (install b p s token client, some (view_of b (renewed token client s)))
    ]
    else (b, some (view_of b s))

unfoldable pub session : Broker → World → String → Broker × Option SessionView
unfolding visit_session find_session
session b w id = elim (find_session id b) [
  | none ↦ (b, none)
  | some (p, s) ↦ visit_session b w id p s
]

unfoldable pub switch :
    Broker → World → String → String → String → Broker × Result AuthError Pending
unfolding find_session constant_time_equal
switch b w id csrf tenant_id = elim (find_session id b) [
  | none ↦ (b, err unknown_session)
  | some (p, s) ↦
      if not s.active
      then (b, err unknown_session)
      else if not (constant_time_equal s.csrf csrf)
      then (b, err invalid_csrf)
      else begin (invalidate id p b) w tenant_id
]

unfoldable pub logout : Broker → String → String → Broker × Result AuthError (Unit {0})
unfolding find_session constant_time_equal
logout b id csrf = elim (find_session id b) [
  | none ↦ (b, err unknown_session)
  | some (p, s) ↦
      if s.active && constant_time_equal s.csrf csrf
      then (invalidate id p b, ok tt)
      else (b, err invalid_csrf)
]

unfoldable pub validate_csrf : Broker → String → String → Result AuthError (Unit {0})
unfolding find_session constant_time_equal
validate_csrf b id csrf = elim (find_session id b) [
  | none ↦ err unknown_session
  | some (p, s) ↦
      if not s.active
      then err unknown_session
      else if not (constant_time_equal s.csrf csrf)
      then err invalid_csrf
      else ok tt
]

-- `WithClient`: the client that the operation is run with. The factory's clients are never nil.
unfoldable pub with_client : Broker → World → String → Broker × Result AuthError ℕ
unfolding session
with_client b w id =
    let (b', view) = session b w id in
    elim view [
      | none ↦ (b', err unknown_session)
      | some v ↦ elim (find_session id b') [
        | none ↦ (b', err unknown_session)
        | some (p, s) ↦ if not s.active then (b', err unknown_session) else (b', ok s.client)
      ]
    ]
