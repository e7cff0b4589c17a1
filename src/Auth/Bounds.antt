-- ===== src/Auth/Bounds.antt =====
-- The broker's limits (internal/auth/broker.go, session.go): how many pending authorizations and
-- sessions it holds, and that the eviction loop ends.
use jimu_studio.Base.{
  ℕ, zero, suc, ◌<◌, ◌≤◌, String, Bool, Option, none, some, List, [], ◌∷◌, arith, ltb, leb, is_some,
  inl, inr, Bool-cases,
}
use jimu_studio.Base.Lists.{length}
use jimu_studio.Base.Dict.{
  Dict, IsDict, lookup, delete, keep, drop_values, delete-IsDict, insert-IsDict, keep-IsDict,
  length-delete-le, length-delete-lt, length-insert-le, length-keep-le,
}
use jimu_studio.Auth.Types.{PendingState, SessionState, Broker, World}
use jimu_studio.Auth.Teardown.{
  is_live, created_at, oldest, deactivate, deactivate_all, invalidate, evict_oldest_session,
}
use jimu_studio.Auth.Begin.{is_pending_live, evict_oldest_pending, admit_pending, begin}
use jimu_studio.Auth.Complete.{deactivate_evicted, admit_session, complete}
use jimu_studio.Auth.Session.{session, logout, switch}
use jimu_studio.Auth.Cases.{
  begin_cases, open_session_cases, exchange_code_cases, complete_cases, session_cases, logout_cases,
  switch_cases,
}
use jimu_studio.Auth.Invariant.Sessions.{oldest-lookup}

pub record Bounds (b : Broker) : Type 0 where
  pub pending_dict : IsDict b.pending
  pub pending_room : 0 < b.max_pending
  pub sessions_room : 0 < b.max_sessions
  pub pending_bound : length b.pending ≤ b.max_pending
  pub sessions_bound : length b.sessions ≤ b.max_sessions

evict_oldest_pending-IsDict :
    (fuel limit : ℕ) (m : Dict PendingState) → IsDict m → IsDict (evict_oldest_pending fuel limit m)
unfolding evict_oldest_pending
evict_oldest_pending-IsDict zero limit m h = h
evict_oldest_pending-IsDict (suc fuel) limit m h =
    let id = (oldest (λ p. p.created) m ("", 0, none)).0 in
    ground (arith, evict_oldest_pending-IsDict fuel limit (delete id m) (delete-IsDict id m h))

-- The loop that evicts pending authorizations ends by its own test: with one round for each entry
-- and one more, fewer entries than the limit are left, where the limit is positive.
pub evict_oldest_pending-lt :
    (fuel limit : ℕ) (m : Dict PendingState)
    → IsDict m
    → 0 < limit
    → length m < fuel
    → length (evict_oldest_pending fuel limit m) < limit
unfolding evict_oldest_pending
evict_oldest_pending-lt zero limit m h room enough = absurd (omega arith)
evict_oldest_pending-lt (suc fuel) limit m h room enough =
    elim (Bool-cases (leb limit (length m))) [
      | inr fits ↦ rw fits (ground arith)
      | inl full ↦
          let created : PendingState → ℕ = λ p. p.created in
          let (v, e, found) = oldest-lookup created m h (ground arith) in
          let id = (oldest created m ("", 0, none)).0 in
          rw full (
            evict_oldest_pending-lt fuel limit (delete id m) (delete-IsDict id m h) room
              (omega (arith, length-delete-lt id v m found)))
    ]

pub deactivate-Bounds : (p : ℕ) (b : Broker) → Bounds b → Bounds (deactivate p b)
unfolding deactivate
deactivate-Bounds p b h = ground arith

deactivate_all-Bounds : (ps : List ℕ) (b : Broker) → Bounds b → Bounds (deactivate_all ps b)
unfolding deactivate_all
deactivate_all-Bounds [] b h = h
deactivate_all-Bounds (p ∷ ps) b h =
    deactivate_all-Bounds ps (deactivate p b) (deactivate-Bounds p b h)

deactivate_evicted-Bounds : (p : Option ℕ) (b : Broker) → Bounds b → Bounds (deactivate_evicted p b)
deactivate_evicted-Bounds none b h = h
deactivate_evicted-Bounds (some p) b h = deactivate-Bounds p b h

pub invalidate-Bounds : (id : String) (p : ℕ) (b : Broker) → Bounds b → Bounds (invalidate id p b)
unfolding invalidate
invalidate-Bounds id p b h = deactivate-Bounds p _ (ground (arith, length-delete-le id b.sessions))

evict_oldest_session-length :
    (limit : ℕ) (heap : ℕ → Option SessionState) (m : Dict ℕ)
    → IsDict m
    → 0 < limit
    → length m ≤ limit
    → length (evict_oldest_session limit heap m).0 < limit
unfolding evict_oldest_session
evict_oldest_session-length limit heap m h room bound = elim (Bool-cases (ltb (length m) limit)) [
  | inl fits ↦ rw fits (ground arith)
  | inr full ↦
      let (p, e, found) = oldest-lookup (created_at heap) m h (ground arith) in
      let shorter = length-delete-lt _ p m found in rw full (omega arith)
]

admit_session-Bounds :
    (b : Broker) (now : ℕ) (s : SessionState)
    → IsDict b.sessions
    → Bounds b
    → Bounds (admit_session b now s).0
unfolding admit_session
admit_session-Bounds b now s d h =
    let live = is_live now b.heap in
    let kept = keep live b.sessions in
    let fewer = length-keep-le live b.sessions in
    let left = (evict_oldest_session b.max_sessions b.heap kept).0 in
    elim (Bool-cases (is_some (lookup s.id kept))) [
      | inl taken ↦
          rw (taken, admit_session)
            (deactivate-Bounds b.next _
              (deactivate_all-Bounds (drop_values live b.sessions) _ (ground arith)))
      | inr free ↦
          let room =
            evict_oldest_session-length b.max_sessions b.heap kept (keep-IsDict live b.sessions d)
              h.sessions_room (omega arith) in
          rw (free, admit_session)
            (deactivate_evicted-Bounds _ _ (
              deactivate_all-Bounds (drop_values live b.sessions) _ (record {
                pending_dict = h.pending_dict;
                pending_room = h.pending_room;
                sessions_room = h.sessions_room;
                pending_bound = h.pending_bound;
                sessions_bound = omega (arith, length-insert-le s.id b.next left, room);
              })))
    ]

pub complete-Bounds :
    (b : Broker) (w : World) (pending_id state code : String)
    → IsDict b.sessions
    → Bounds b
    → Bounds (complete b w pending_id state code).0
complete-Bounds b w pending_id state code d h =
    let h' : Bounds (record b { pending = delete pending_id b.pending }) = record {
      pending_dict = delete-IsDict pending_id b.pending h.pending_dict;
      pending_room = h.pending_room;
      sessions_room = h.sessions_room;
      pending_bound = omega (arith, length-delete-le pending_id b.pending, h.pending_bound);
      sessions_bound = h.sessions_bound;
    } in
    complete_cases Bounds b w pending_id state code h' λ p.
      exchange_code_cases Bounds _ w p code h' λ tenant i.
        open_session_cases Bounds _ w tenant p i h' (λ client. ground (arith, h'))
          λ id csrf client. admit_session-Bounds _ w.now _ d h'

admit_pending-Bounds :
    (b : Broker) (now : ℕ) (p : PendingState) → Bounds b → Bounds (admit_pending b now p).0
unfolding admit_pending
admit_pending-Bounds b now p h =
    let live : PendingState → Bool = is_pending_live now in
    let kept = keep live b.pending in
    let dict = keep-IsDict live b.pending h.pending_dict in
    let left = evict_oldest_pending (suc (length kept)) b.max_pending kept in
    elim (Bool-cases (is_some (lookup p.id kept))) [
      | inl taken ↦
          rw (taken, admit_pending)
            (record {
              pending_dict = dict;
              pending_room = h.pending_room;
              sessions_room = h.sessions_room;
              pending_bound = omega (arith, length-keep-le live b.pending, h.pending_bound);
              sessions_bound = h.sessions_bound;
            })
      | inr free ↦
          rw (free, admit_pending)
            (record {
              pending_dict =
                  insert-IsDict p.id p left
                    (evict_oldest_pending-IsDict (suc (length kept)) b.max_pending kept dict);
              pending_room = h.pending_room;
              sessions_room = h.sessions_room;
              pending_bound = omega (
                arith,
                length-insert-le p.id p left,
                evict_oldest_pending-lt (suc (length kept)) b.max_pending kept dict h.pending_room,
              );
              sessions_bound = h.sessions_bound;
            })
    ]

pub begin-Bounds :
    (b : Broker) (w : World) (tenant_id : String) → Bounds b → Bounds (begin b w tenant_id).0
begin-Bounds b w tenant_id h =
    begin_cases Bounds b w tenant_id h λ p. admit_pending-Bounds b w.now p h

-- Writes through pointers and the disposal of sessions leave the bounds alone.
pub session-Bounds : (b : Broker) (w : World) (id : String) → Bounds b → Bounds (session b w id).0
session-Bounds b w id h =
    session_cases Bounds b w id h (λ p s e. invalidate-Bounds id p b h)
      λ p s token client e. ground arith

pub logout-Bounds : (b : Broker) (id csrf : String) → Bounds b → Bounds (logout b id csrf).0
logout-Bounds b id csrf h = logout_cases Bounds b id csrf h λ p s e. invalidate-Bounds id p b h

pub switch-Bounds :
    (b : Broker) (w : World) (id csrf tenant_id : String)
    → Bounds b
    → Bounds (switch b w id csrf tenant_id).0
switch-Bounds b w id csrf tenant_id h =
    switch_cases Bounds b w id csrf tenant_id h
      λ p s e. begin-Bounds (invalidate id p b) w tenant_id (invalidate-Bounds id p b h)
