-- ===== src/Auth/Teardown.antt =====
-- internal/auth/session.go: how sessions end (deactivate, invalidate, clean up, evict).
use jimu_studio.Base.{
  ℕ, String, Bool, false, ◌||◌, Option, none, some, List, [], ◌∷◌, ltb, eqb, ◌==◌, if◌then◌else◌,
}
use jimu_studio.Base.Lists.{length}
use jimu_studio.Base.Dict.{Dict, lookup, delete, keep, drop_values}
use jimu_studio.Auth.Types.{SessionState, Broker}

-- A write through a pointer.
abbrev pub update : (ℕ → Option SessionState) → ℕ → SessionState → ℕ → Option SessionState
update heap p s q = if eqb p q then some s else heap q

-- What `deactivate` leaves of an active session.
abbrev pub wiped : SessionState → SessionState
wiped s = record s {
  access_token = "";
  refresh_token = "";
  active = false;
  cache = none;
  optimistic = none;
}

unfoldable pub deactivate : ℕ → Broker → Broker
deactivate p b = elim (b.heap p) [
  | none ↦ b
  | some s ↦
      if s.active
      then record b { heap = update b.heap p (wiped s); closed = s.client ∷ b.closed }
      else b
]

-- The loops `for _, stale := range expired { deactivate(stale) }`.
unfoldable pub deactivate_all : List ℕ → Broker → Broker
deactivate_all [] b = b
deactivate_all (p ∷ ps) b = deactivate_all ps (deactivate p b)

-- `broker.sessions[sessionID] == session`, on pointers.
abbrev pub holds : Option ℕ → ℕ → Bool
holds none p = false
holds (some q) p = eqb q p

unfoldable pub invalidate : String → ℕ → Broker → Broker
invalidate id p b =
    deactivate p
      (if holds (lookup id b.sessions) p then record b { sessions = delete id b.sessions } else b)

-- `now.Before(session.expires)`, read through the pointer.
abbrev pub is_live : ℕ → (ℕ → Option SessionState) → ℕ → Bool
is_live now heap p = elim (heap p) [ none ↦ false | some s ↦ ltb now s.expires ]

-- The map that is left, and the sessions that were removed from it.
unfoldable pub cleanup_sessions : ℕ → Broker → Dict ℕ × List ℕ
cleanup_sessions now b =
    (keep (is_live now b.heap) b.sessions, drop_values (is_live now b.heap) b.sessions)

-- The loops that look for the entry created first: `oldestID`, `oldest` and the entry itself.
unfoldable pub oldest {ℓ} :
    {V : Type ℓ} → (V → ℕ) → Dict V → String × ℕ × Option V → String × ℕ × Option V
oldest created [] best = best
oldest created ((id, v) ∷ m) (oldest_id, time, found) = oldest created m (
    if oldest_id == "" || ltb (created v) time
    then (id, created v, some v)
    else (oldest_id, time, found))

abbrev pub created_at : (ℕ → Option SessionState) → ℕ → ℕ
created_at heap p = elim (heap p) [ none ↦ 0 | some s ↦ s.created ]

unfoldable pub evict_oldest_session : ℕ → (ℕ → Option SessionState) → Dict ℕ → Dict ℕ × Option ℕ
evict_oldest_session max_sessions heap sessions =
    if ltb (length sessions) max_sessions
    then (sessions, none)
    else (let (oldest_id, time, evicted) = oldest (created_at heap) sessions ("", 0, none) in
        (delete oldest_id sessions, evicted))

-- The session behind an identifier, with its pointer.
unfoldable pub find_session : String → Broker → Option (ℕ × SessionState)
find_session id b = elim (lookup id b.sessions) [
  | none ↦ none
  | some p ↦ elim (b.heap p) [ none ↦ none | some s ↦ some (p, s) ]
]
