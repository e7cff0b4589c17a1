-- ===== src/Server/Laws/Sessions.antt =====
-- internal/auth/session.go, as the web server sees it: what a visible session is.
use jimu_studio.Base.{
  ℕ, String, true, not, ◌||◌, Option, none, some, ◌≡◌, refl, arith, ap, Bool-cases, Option-cases,
  inl, inr, ltb, eqb_refl, ok,
}
use jimu_studio.Auth.Types.{SessionView, SessionState, Broker, World, Token}
use jimu_studio.Auth.Teardown.{find_session, invalidate}
use jimu_studio.Auth.Begin.{constant_time_equal}
use jimu_studio.Auth.Session.{
  needs_refresh, refreshed, renewed, install, view_of, visit_session, session, validate_csrf,
}
use jimu_studio.Auth.Invariant.Session.{find_session_lem}
use jimu_studio.Auth.SingleUse.{constant_time_equal_iff}

-- The object behind a session that is visible, before and after it was looked for.
pub record IsSeen (b b' : Broker) (id : String) (v : SessionView) : Type 0 where
  pub pointer : ℕ
  pub object : SessionState
  pub object' : SessionState
  pub before : find_session id b ≡ some (pointer, object)
  pub after : find_session id b' ≡ some (pointer, object')
  pub active : object'.active ≡ true
  pub roles : v.roles ≡ object'.roles
  pub csrf : v.csrf ≡ object'.csrf
  pub drafts : object'.optimistic ≡ object.optimistic
  pub others : b'.sessions ≡ b.sessions

-- The outcomes of `Session` on a session that is found.
pub visit_session_cases {ℓ} :
    (P : Broker × Option SessionView → Type ℓ) (b : Broker) (w : World) (id : String) (p : ℕ)
    (s : SessionState)
    → P (invalidate id p b, none)
    → ((token : Token) (client : ℕ)
        → s.active ≡ true
        → P (install b p s token client, some (view_of b (renewed token client s))))
    → (s.active ≡ true → P (b, some (view_of b s)))
    → P (visit_session b w id p s)
unfolding visit_session
visit_session_cases P b w id p s gone renew kept =
    elim (Bool-cases (not s.active || not (ltb w.now s.expires))) [
      | inl over ↦ rw (over, visit_session) gone
      | inr live ↦ elim (Bool-cases (needs_refresh w.now b.refresh_skew s)) [
        | inr fresh ↦ rw (live, fresh, visit_session) (kept (ground arith))
        | inl stale ↦ elim (Option-cases (refreshed b w s)) [
          | inl f ↦ rw (live, stale, f, visit_session) gone
          | inr ((token, client), f) ↦
              rw (live, stale, f, visit_session) (renew token client (ground arith))
        ]
      ]
    ]

pub find_session-install :
    (b : Broker) (id : String) (p : ℕ) (s : SessionState) (token : Token) (client : ℕ)
    → find_session id b ≡ some (p, s)
    → find_session id (install b p s token client) ≡ some (p, renewed token client s)
unfolding find_session
find_session-install b id p s token client e =
    let (mapped, object) = find_session_lem id b p s e in
    rw (mapped, find_session) (rw (eqb_refl p) refl)

pub session-IsSeen :
    (b b' : Broker) (w : World) (id : String) (v : SessionView)
    → session b w id ≡ (b', some v)
    → IsSeen b b' id v
unfolding session view_of
session-IsSeen b b' w id v e = elim (Option-cases (find_session id b)) [
  | inl f ↦ let bad = rw (f, session) at e in cc
  | inr ((p, s), f) ↦
      visit_session_cases (λ x. x ≡ (b', some v) → IsSeen b b' id v) b w id p s (λ h. cc)
        (λ token client active h. rw (← ap (λ x. x.0) h) (record {
          pointer = p;
          object = s;
          object' = renewed token client s;
          before = f;
          after = find_session-install b id p s token client f;
          active = active;
          roles = ground (arith, ap (λ x. x.1) h);
          csrf = ground (arith, ap (λ x. x.1) h);
          drafts = refl;
          others = refl;
        }))
        (λ active h. rw (← ap (λ x. x.0) h) (record {
          pointer = p;
          object = s;
          object' = s;
          before = f;
          after = f;
          active = active;
          roles = ground (arith, ap (λ x. x.1) h);
          csrf = ground (arith, ap (λ x. x.1) h);
          drafts = refl;
          others = refl;
        }))
        (rw (f, session) at e)
]

-- The CSRF token that is accepted for a visible session is the one that is seen.
pub validate_csrf-csrf :
    (b b' : Broker) (w : World) (id csrf : String) (v : SessionView)
    → session b w id ≡ (b', some v)
    → validate_csrf b' id csrf ≡ ok tt
    → csrf ≡ v.csrf
unfolding validate_csrf
validate_csrf-csrf b b' w id csrf v e accepted =
    let seen = session-IsSeen b b' w id v e in
    elim (Bool-cases (constant_time_equal seen.object'.csrf csrf)) [
      | inl same ↦
          ground (arith, seen.csrf, (constant_time_equal_iff seen.object'.csrf csrf).0 same)
      | inr apart ↦ let bad = rw (seen.after, seen.active, apart, validate_csrf) at accepted in cc
    ]
