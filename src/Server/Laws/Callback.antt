-- ===== src/Server/Laws/Callback.antt =====
-- internal/server/authenticated.go: what the callback of the identity provider leads to.
use jimu_studio.Base.{
  String, [], ◌∷◌, if◌then◌else◌, ◌||◌, ◌≡◌, refl, ◌⊎◌, inl, inr, Bool-cases, ◌==◌, ◌!=◌, ap,
}
use jimu_studio.Base.Int.{pos, negsuc}
use jimu_studio.Auth.Types.{SessionResult, Broker}
use jimu_studio.Auth.Complete.{complete}
use jimu_studio.Auth.SingleUse.{IsAccepted, complete-IsAccepted}
use jimu_studio.Server.Types.{Request, Env, strict, Cookie, message, redirect, Response}
use jimu_studio.Server.Guards.{cookie_name, cookie_value, set_cookie, clear_cookie}
use jimu_studio.Server.Login.{callback}
use jimu_studio.Server.Laws.Cases.{proceed_split}

-- The pending cookie as it is expired: without a value and with a negative age.
abbrev pub spent_cookie : Env → Cookie
spent_cookie env = record {
  name = if env.secure_cookies then "__Host-studio_pending" else "studio_pending";
  value = "";
  max_age = negsuc 0;
  secure = env.secure_cookies;
  same_site = strict;
}

-- The cookie of a session, for eight hours.
abbrev pub session_cookie : Env → String → Cookie
session_cookie env id = record {
  name = if env.secure_cookies then "__Host-studio_session" else "studio_session";
  value = id;
  max_age = pos 28800;
  secure = env.secure_cookies;
  same_site = strict;
}

abbrev pub denied_callback : Env → Response
denied_callback env = record {
  status = pos 401;
  view = message "authentication failed";
  cookies = spent_cookie env ∷ [];
}

abbrev pub accepted_callback : Env → String → Response
accepted_callback env id = record {
  status = pos 303;
  view = redirect "/";
  cookies = session_cookie env id ∷ spent_cookie env ∷ [];
}

-- Every answer of the callback expires the pending cookie, and it sets a session cookie only for a
-- session that the broker has opened for the authorization of that cookie: it is the answer 401
-- with the expired pending cookie alone, or the redirection to "/" with that cookie and a strict
-- cookie of eight hours that holds the identifier of a session that was accepted. The cookies are
-- secure, under the names with "__Host-", where the server is configured so.
pub callback-IsAccepted :
    (env : Env) (b : Broker) (r : Request)
    → let (b', response) = callback env b r in
      (response ≡ denied_callback env)
      ⊎ ((s : SessionResult) × (response ≡ accepted_callback env s.id)
          × IsAccepted b b'
              (env.world 0)
              (cookie_value env r "pending")
              (r.query "state")
              (r.query "code")
              s)
unfolding callback clear_cookie set_cookie cookie_name
callback-IsAccepted env b r =
    let id = cookie_value env r "pending" in
    elim (Bool-cases (id == "" || r.query "error" != "")) [
      | inl bad ↦ rw (bad, callback) (inl refl)
      | inr good ↦
          rw (good, callback)
            (proceed_split
              (λ x.
                (x.1 ≡ denied_callback env)
                ⊎ ((s : SessionResult) × (x.1 ≡ accepted_callback env s.id)
                    × IsAccepted b x.0 (env.world 0) id (r.query "state") (r.query "code") s))
              (complete b (env.world 0) id (r.query "state") (r.query "code")) _ _
              (λ b' e completed. inl refl)
              (λ b' s completed. inr (
                s,
                refl,
                rw (← ap (λ x. x.0) completed) (
                    complete-IsAccepted b (env.world 0) id (r.query "state") (r.query "code") s
                      (ap (λ x. x.1) completed)),
              )))
    ]
