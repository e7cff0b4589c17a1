-- ===== src/Auth/Shown.antt =====
-- internal/auth/session.go: of which sessions `Session` shows a view, and what a refresh leaves.
use jimu_studio.Base.{
  ℕ, ◌+◌, ◌<◌, ◌≤◌, String, true, false, not, ◌||◌, Option, some, ◌∷◌, ◌≡◌, ◌≢◌, refl, arith, sym,
  ap, subst, ltb, eqb, eqb_refl, ◌⊎◌, inl, inr, Option-cases, Bool-cases, eq_iff, if◌then◌else◌,
  ◌==◌,
}
use jimu_studio.Base.Dict.{lookup}
use jimu_studio.Auth.Types.{Tenant, Token, SessionState, SessionView, Broker, World}
use jimu_studio.Auth.Teardown.{find_session}
use jimu_studio.Auth.Session.{
  tenant_name, needs_refresh, refreshed, renewed, install, view_of, visit_session, session,
}

-- The view tells of the session.
pub record IsViewOf (b : Broker) (s : SessionState) (view : SessionView) : Type 0 where
  pub tenant : view.tenant_id ≡ s.tenant_id
  pub tenant_named :
      (tenant : Tenant)
      → lookup s.tenant_id b.tenants ≡ some tenant
      → view.tenant_name ≡ tenant.name
  pub subject : view.subject ≡ s.subject
  pub display_name : view.display_name ≡ s.display_name
  pub roles : view.roles ≡ s.roles
  pub csrf : view.csrf ≡ s.csrf

-- The token of the session at `p` was due, and the provider has given a new one; the object holds it
-- with a client for it and is otherwise as it was, and the old client is closed.
pub record IsRefreshed (b b' : Broker) (w : World) (p : ℕ) (s : SessionState) : Type 0 where
  pub due : (s.token_expiry ≢ 0) × (s.token_expiry ≤ w.now + b.refresh_skew)
  pub given : s.refresh_token ≢ ""
  pub tenant : Tenant
  pub handle : ℕ
  pub token : Token
  pub object : SessionState
  pub known : lookup s.tenant_id b.tenants ≡ some tenant
  pub provider : tenant.identity ≡ some handle
  pub granted : w.refresh handle s.refresh_token ≡ some token
  pub token_given : token.access_token ≢ ""
  pub new_client : w.new_client tenant.provider_base_url token.access_token ≡ some object.client
  pub stored : b'.heap p ≡ some object
  pub access_token : object.access_token ≡ token.access_token
  pub refresh_token :
      object.refresh_token
      ≡ (if token.refresh_token == "" then s.refresh_token else token.refresh_token)
  pub token_expiry : object.token_expiry ≡ token.expiry
  pub unchanged :
      record object {
        client = s.client;
        access_token = s.access_token;
        refresh_token = s.refresh_token;
        token_expiry = s.token_expiry;
      }
      ≡ s
  pub closed : b'.closed ≡ s.client ∷ b.closed
  pub others : (q : ℕ) → q ≢ p → b'.heap q ≡ b.heap q
  pub rest : record b' { heap = b.heap; closed = b.closed } ≡ b

view_of-IsViewOf : (b : Broker) (s : SessionState) → IsViewOf b s (view_of b s)
unfolding view_of tenant_name
view_of-IsViewOf b s = record {
  tenant = refl;
  tenant_named = λ tenant found. rw (found, view_of, tenant_name) refl;
  subject = refl;
  display_name = refl;
  roles = refl;
  csrf = refl;
}

renewed-IsViewOf :
    (b : Broker) (s : SessionState) (token : Token) (client : ℕ)
    → IsViewOf b s (view_of b (renewed token client s))
unfolding view_of tenant_name
renewed-IsViewOf b s token client = record {
  tenant = refl;
  tenant_named = λ tenant found. rw (found, view_of, tenant_name) refl;
  subject = refl;
  display_name = refl;
  roles = refl;
  csrf = refl;
}

install-IsRefreshed :
    (b : Broker) (w : World) (p : ℕ) (s : SessionState) (token : Token) (client : ℕ)
    → needs_refresh w.now b.refresh_skew s ≡ true
    → refreshed b w s ≡ some (token, client)
    → IsRefreshed b (install b p s token client) w p s
unfolding needs_refresh refreshed
install-IsRefreshed b w p s token client due e = elim (Bool-cases (s.refresh_token == "")) [
  | inl empty ↦ let bad = rw (empty, refreshed) at e in cc
  | inr given ↦ elim (Option-cases (lookup s.tenant_id b.tenants)) [
    | inl f ↦ let bad = rw (given, f, refreshed) at e in cc
    | inr (tenant, f) ↦ elim (Option-cases tenant.identity) [
      | inl g ↦ let bad = rw (given, f, g, refreshed) at e in cc
      | inr (handle, g) ↦ elim (Option-cases (w.refresh handle s.refresh_token)) [
        | inl h ↦ let bad = rw (given, f, g, h, refreshed) at e in cc
        | inr (t, h) ↦ elim (Bool-cases (t.access_token == "")) [
          | inl none_given ↦ let bad = rw (given, f, g, h, none_given, refreshed) at e in cc
          | inr some_given ↦
              elim (Option-cases (w.new_client tenant.provider_base_url t.access_token)) [
                | inl c ↦ let bad = rw (given, f, g, h, some_given, c, refreshed) at e in cc
                | inr (client', c) ↦
                    let same : ◌≡◌ {A = Option (Token × ℕ)} (some (t, client'))
                        (some (token, client)) =
                      rw (given, f, g, h, some_given, c, refreshed) at e in
                    let same_token : t ≡ token = cc in
                    let same_client : client' ≡ client = cc in
                    record {
                      due = (ground arith, ground arith);
                      given = ground (arith, eq_iff s.refresh_token "");
                      tenant = tenant;
                      handle = handle;
                      token = token;
                      object = renewed token client s;
                      known = f;
                      provider = g;
                      granted = rw (← same_token) h;
                      token_given = rw (← same_token) (ground (arith, eq_iff t.access_token ""));
                      new_client = rw (← same_token, ← same_client) c;
                      stored = rw (eqb_refl p);
                      access_token = refl;
                      refresh_token = refl;
                      token_expiry = refl;
                      unchanged = refl;
                      closed = refl;
                      others = λ q distinct. ground arith;
                      rest = refl;
                    }
              ]
        ]
      ]
    ]
  ]
]

not_due :
    (now skew : ℕ) (s : SessionState)
    → needs_refresh now skew s ≡ false
    → (s.token_expiry ≡ 0) ⊎ (now + skew < s.token_expiry)
unfolding needs_refresh
not_due now skew s h = elim (Bool-cases (eqb s.token_expiry 0)) [
  | inl zero_expiry ↦ inl (ground arith)
  | inr expiry ↦ inr (ground arith)
]

-- A view is only shown of an active session that has not expired, and it tells of that session. Its
-- token is not due, and the broker is left as it is; or it was refreshed just now: the session's
-- object holds the provider's new tokens and their client and is otherwise unchanged, the old
-- client is closed, and no other object or part of the broker changes.
pub session-view :
    (b : Broker) (w : World) (id : String) (view : SessionView)
    → (session b w id).1 ≡ some view
    → (p : ℕ) × (s : SessionState) × (find_session id b ≡ some (p, s))
      × (s.active ≡ true)
      × (w.now < s.expires)
      × IsViewOf b s view
      × ((((s.token_expiry ≡ 0) ⊎ (w.now + b.refresh_skew < s.token_expiry))
            × ((session b w id).0 ≡ b))
          ⊎ IsRefreshed b (session b w id).0 w p s)
unfolding session
session-view b w id view e = elim (Option-cases (find_session id b)) [
  | inl f ↦ let bad = rw (f, session) at e in cc
  | inr ((p, s), f) ↦ elim (Bool-cases (not s.active || not (ltb w.now s.expires))) [
    | inl dead ↦ let bad = rw (f, session, dead, visit_session) at e in cc
    | inr live ↦ elim (Bool-cases (needs_refresh w.now b.refresh_skew s)) [
      | inr valid ↦
          let shown : ◌≡◌ {A = Option SessionView} (some (view_of b s)) (some view) =
            rw (f, session, live, valid, visit_session) at e in
          let same : view_of b s ≡ view = cc in
          (
            p,
            s,
            f,
            ground arith,
            ground arith,
            rw (← same) (view_of-IsViewOf b s),
            inl (not_due w.now b.refresh_skew s valid, rw (f, session, live, valid, visit_session)),
          )
      | inl due ↦ elim (Option-cases (refreshed b w s)) [
        | inl failed ↦ let bad = rw (f, session, live, due, failed, visit_session) at e in cc
        | inr ((token, client), g) ↦
            let shown : ◌≡◌ {A = Option SessionView} (some (view_of b (renewed token client s)))
                (some view) =
              rw (f, session, live, due, g, visit_session) at e in
            let same : view_of b (renewed token client s) ≡ view = cc in
            let after : ◌≡◌ {A = Broker × Option SessionView} (session b w id)
                (install b p s token client, some (view_of b (renewed token client s))) =
              rw (f, session, live, due, g, visit_session) in
            (
              p,
              s,
              f,
              ground arith,
              ground arith,
              rw (← same) (renewed-IsViewOf b s token client),
              inr (
                  subst (λ b'. IsRefreshed b b' w p s) (sym (ap (λ x. x.0) after))
                    (install-IsRefreshed b w p s token client due g)),
            )
      ]
    ]
  ]
]
