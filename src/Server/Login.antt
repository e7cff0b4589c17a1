-- ===== src/Server/Login.antt =====
-- The handlers of internal/server/authenticated.go: the shell, login, callback, switch and logout.
use jimu_studio.Base.{ℕ, String, not, ◌||◌, none, some, [], ◌==◌, ◌!=◌, if◌then◌else◌}
use jimu_studio.Base.Int.{pos}
use jimu_studio.Auth.Types.{AuthError, unknown_tenant, Pending, Broker}
use jimu_studio.Auth.Begin.{begin}
use jimu_studio.Auth.Complete.{complete}
use jimu_studio.Auth.Session.{session, switch, logout}
use jimu_studio.Server.Types.{
  get, Request, Env, View, redirect, shell, authorization, lax, strict, Response,
}
use jimu_studio.Server.Guards.{
  proceed, max_auth_form_bytes, refuse, same_site_mutation, cookie_value, set_cookie, clear_cookie,
}
use jimu_studio.Server.Roles.{allowed_navigation}

abbrev show : View → Response
show view = record { status = pos 200; view = view; cookies = [] }

abbrev pub see_other : String → Response
see_other location = record { status = pos 303; view = redirect location; cookies = [] }

unfoldable pub index : Env → Broker → Request → Broker × Response
index env b r =
    if r.path != "/"
    then (b, refuse 404 "404 page not found")
    else (let id = cookie_value env r "session" in
        if id == ""
        then (b, show (shell none b.tenant_views []))
        else (let (b', view) = session b (env.world 0) id in
            elim view [
              | none ↦ (b', clear_cookie env "session" (show (shell none b.tenant_views [])))
              | some v ↦ (b', show (shell (some v) b.tenant_views (allowed_navigation v)))
            ]))

-- The pending cookie, after what is cleared, with the page that goes on to the identity provider.
abbrev continue_to : Env → Pending → (Response → Response) → Response
continue_to env p cleared =
    set_cookie env "pending" p.id (pos 600) lax (cleared (show (authorization p.url)))

unfoldable pub login : Env → Broker → Request → Broker × Response
login env b r =
    if cookie_value env r "session" != ""
    then (b, refuse 409 "use tenant switch from the authenticated session")
    else if not (same_site_mutation env r)
    then (b, refuse 403 "cross-site login rejected")
    else elim (r.form max_auth_form_bytes) [
      | none ↦ (b, refuse 400 "invalid form")
      | some form ↦
          (proceed (begin b (env.world 0) (get "tenant" form))
            (λ b' e. (b', refuse 400 "tenant is unavailable"))
            (λ b' p. (b', continue_to env p (λ response. response))))
    ]

unfoldable pub callback : Env → Broker → Request → Broker × Response
callback env b r =
    let id = cookie_value env r "pending" in
    let denied = clear_cookie env "pending" (refuse 401 "authentication failed") in
    if id == "" || r.query "error" != ""
    then (b, denied)
    else (proceed (complete b (env.world 0) id (r.query "state") (r.query "code"))
        (λ b' e. (b', denied))
        (λ b' s. (
          b',
          set_cookie env "session" s.id (pos 28800) strict
              (clear_cookie env "pending" (see_other "/")),
        )))

abbrev pub switch_status : AuthError → ℕ
switch_status unknown_tenant = 400
switch_status _ = 403

unfoldable pub switch_tenant : Env → Broker → Request → Broker × Response
switch_tenant env b r =
    if not (same_site_mutation env r)
    then (b, refuse 403 "cross-site switch rejected")
    else elim (r.form max_auth_form_bytes) [
      | none ↦ (b, refuse 400 "invalid form")
      | some form ↦
          (proceed
            (switch b (env.world 0) (cookie_value env r "session") (get "csrf" form)
              (get "tenant" form))
            (λ b' e. (b', refuse (switch_status e) "tenant switch rejected"))
            (λ b' p. (b', continue_to env p (clear_cookie env "session"))))
    ]

unfoldable pub sign_out : Env → Broker → Request → Broker × Response
sign_out env b r =
    if not (same_site_mutation env r)
    then (b, refuse 403 "cross-site logout rejected")
    else elim (r.form max_auth_form_bytes) [
      | none ↦ (b, refuse 400 "invalid form")
      | some form ↦
          (proceed (logout b (cookie_value env r "session") (get "csrf" form))
            (λ b' e. (b', refuse 403 "logout rejected"))
            (λ b' u. (b', clear_cookie env "session" (see_other "/"))))
    ]
