-- ===== src/Auth/Disposal.antt =====
-- internal/auth/session.go: what `Logout`, `Switch` and `Session` leave of a session.
use jimu_studio.Base.{
  ℕ, ◌≤◌, String, true, false, not, ◌||◌, none, some, [], ◌∷◌, ◌≡◌, ◌≢◌, refl, arith, ltb, eqb_refl,
  ◌⊎◌, inl, inr, Option-cases, Bool-cases, ok, err, eq_refl,
}
use jimu_studio.Base.Dict.{lookup, delete, lookup-delete}
use jimu_studio.Auth.Types.{unknown_session, invalid_csrf, SessionState, Broker, World}
use jimu_studio.Auth.Teardown.{update, wiped, holds, deactivate, invalidate, find_session}
use jimu_studio.Auth.Begin.{constant_time_equal, begin}
use jimu_studio.Auth.Session.{needs_refresh, refreshed, visit_session, session, switch, logout}
use jimu_studio.Auth.Invariant.{IsWiped, Inv}
use jimu_studio.Auth.Invariant.Session.{find_session_lem, found-IsLiveAt}
use jimu_studio.Auth.SingleUse.{constant_time_equal_iff}

-- The session cannot be found any more, and the object behind its pointer keeps no secret.
pub record IsDisposed (id : String) (p : ℕ) (b : Broker) : Type 0 where
  pub object : SessionState
  pub stored : b.heap p ≡ some object
  pub unknown : find_session id b ≡ none
  pub inactive : object.active ≡ false
  pub secrets : IsWiped b.closed object

abbrev without : String → ℕ → SessionState → Broker → Broker
without id p s b = record b {
  sessions = delete id b.sessions;
  heap = update b.heap p (wiped s);
  closed = s.client ∷ b.closed;
}

-- `invalidate` on a registered, active session.
pub invalidate-without :
    (id : String) (p : ℕ) (s : SessionState) (b : Broker)
    → lookup id b.sessions ≡ some p
    → b.heap p ≡ some s
    → s.active ≡ true
    → invalidate id p b ≡ without id p s b
unfolding invalidate deactivate
invalidate-without id p s b mapped object active =
    rw (mapped, holds, eqb_refl p) (rw (object, deactivate, active) refl)

without-IsDisposed :
    (id : String) (p : ℕ) (s : SessionState) (b : Broker) → IsDisposed id p (without id p s b)
unfolding find_session
without-IsDisposed id p s b = record {
  object = wiped s;
  stored = rw (eqb_refl p);
  unknown = rw (lookup-delete id id b.sessions, eq_refl id, find_session);
  inactive = refl;
  secrets = (refl, refl, refl, refl, rw (eqb_refl s.client));
}

pub invalidate-IsDisposed :
    (id : String) (p : ℕ) (s : SessionState) (b : Broker)
    → Inv [] b
    → find_session id b ≡ some (p, s)
    → IsDisposed id p (invalidate id p b)
invalidate-IsDisposed id p s b v e =
    let (mapped, object) = find_session_lem id b p s e in
    rw (invalidate-without id p s b mapped object (found-IsLiveAt id b p s v e).0)
      (without-IsDisposed id p s b)

-- `Logout` with the session's CSRF token succeeds and disposes of the session: it is unknown
-- afterwards, and its object is inactive, with empty tokens, no maps and a closed client.
pub logout-IsDisposed :
    (b : Broker) (id csrf : String) (p : ℕ) (s : SessionState)
    → Inv [] b
    → find_session id b ≡ some (p, s)
    → s.csrf ≡ csrf
    → ((logout b id csrf).1 ≡ ok tt) × IsDisposed id p (logout b id csrf).0
unfolding logout
logout-IsDisposed b id csrf p s v e same =
    let active = (found-IsLiveAt id b p s v e).0 in
    let valid = (constant_time_equal_iff s.csrf csrf).1 same in
    rw (e, active, valid, logout) (refl, invalidate-IsDisposed id p s b v e)

-- With a wrong CSRF token, or without a session, `Logout` fails and changes nothing; so does
-- `Switch`, which then starts no authorization.
pub wrong_csrf_refused :
    (b : Broker) (w : World) (id csrf tenant_id : String)
    → Inv [] b
    → ((p : ℕ) (s : SessionState) → find_session id b ≡ some (p, s) → s.csrf ≢ csrf)
    → ((logout b id csrf).0 ≡ b)
      × ((logout b id csrf).1 ≢ ok tt)
      × ((switch b w id csrf tenant_id).0 ≡ b)
      × (((switch b w id csrf tenant_id).1 ≡ err unknown_session)
          ⊎ ((switch b w id csrf tenant_id).1 ≡ err invalid_csrf))
unfolding logout switch
wrong_csrf_refused b w id csrf tenant_id v wrong = elim (Option-cases (find_session id b)) [
  | inl e ↦ rw (e, logout, switch) (refl, cc, refl, inl refl)
  | inr ((p, s), e) ↦
      let active = (found-IsLiveAt id b p s v e).0 in
      elim (Bool-cases (constant_time_equal s.csrf csrf)) [
        | inl same ↦ absurd (wrong p s e ((constant_time_equal_iff s.csrf csrf).0 same))
        | inr bad ↦ rw (e, active, bad, logout, switch) (refl, cc, refl, inr refl)
      ]
]

-- `Switch` with the session's CSRF token first disposes of the old tenant's session, and then
-- answers as `Begin` does for the new tenant on that broker.
pub switch-IsDisposed :
    (b : Broker) (w : World) (id csrf tenant_id : String) (p : ℕ) (s : SessionState)
    → Inv [] b
    → find_session id b ≡ some (p, s)
    → s.csrf ≡ csrf
    → (switch b w id csrf tenant_id ≡ begin (invalidate id p b) w tenant_id)
      × IsDisposed id p (invalidate id p b)
unfolding switch
switch-IsDisposed b w id csrf tenant_id p s v e same =
    let active = (found-IsLiveAt id b p s v e).0 in
    let valid = (constant_time_equal_iff s.csrf csrf).1 same in
    rw (e, active, valid, switch) (refl, invalidate-IsDisposed id p s b v e)

-- A session that has expired, or whose token is due and cannot be refreshed, is disposed of when it
-- is looked up, and no view is shown.
pub session-expired :
    (b : Broker) (w : World) (id : String) (p : ℕ) (s : SessionState)
    → Inv [] b
    → find_session id b ≡ some (p, s)
    → (s.expires ≤ w.now)
      ⊎ ((needs_refresh w.now b.refresh_skew s ≡ true) × (refreshed b w s ≡ none))
    → ((session b w id).1 ≡ none) × IsDisposed id p (session b w id).0
unfolding session
session-expired b w id p s v e (inl late) =
    let dead : (not s.active || not (ltb w.now s.expires)) ≡ true = ground arith in
    rw (e, session, dead, visit_session) (refl, invalidate-IsDisposed id p s b v e)
session-expired b w id p s v e (inr (due, failed)) =
    elim (Bool-cases (not s.active || not (ltb w.now s.expires))) [
      | inl dead ↦ rw (e, session, dead, visit_session) (refl, invalidate-IsDisposed id p s b v e)
      | inr live ↦
          rw (e, session, live, due, failed, visit_session)
            (refl, invalidate-IsDisposed id p s b v e)
    ]
