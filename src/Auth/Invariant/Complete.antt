-- ===== src/Auth/Invariant/Complete.antt =====
-- `Complete` keeps the invariant, on each of its branches.
use jimu_studio.Base.{
  ℕ, suc, ◌<◌, String, Bool, true, false, none, some, List, [], ◌∷◌, ◌≡◌, refl, arith, ltb, eqb,
  is_some, inl, inr, Option-cases, Bool-cases, eq_iff, eq_refl,
}
use jimu_studio.Base.Lists.{length}
use jimu_studio.Base.Dict.{
  Dict, IsDict, lookup, delete, insert, keep, drop_values, lookup-delete, keep-IsDict,
}
use jimu_studio.Auth.Types.{SessionState, Broker, World, Tenant, PendingState, Identity}
use jimu_studio.Auth.Teardown.{update, is_live, created_at, deactivate, deactivate_all}
use jimu_studio.Auth.Complete.{new_session, admit_session, close_client, open_session, complete}
use jimu_studio.Auth.Cases.{open_session_cases, exchange_code_cases, complete_cases}
use jimu_studio.Auth.Invariant.{memb, HasDrafts, Inv}
use jimu_studio.Auth.Invariant.Deactivate.{
  deactivate-Inv, deactivate_all-Inv, doomed-Inv, memb-concat, memb-append-nil, unmap-Inv,
}
use jimu_studio.Auth.Invariant.Sessions.{keep-Inv, oldest-lookup, admit-Inv, reject-Inv}

-- A removed value stood in the map.
drop_values_key :
    (live : ℕ → Bool) (m : Dict ℕ) (p : ℕ)
    → IsDict m
    → memb p (drop_values live m) ≡ true
    → (k : String) × (lookup k m ≡ some p)
unfolding drop_values lookup
drop_values_key live [] p h e = cc
drop_values_key live ((j, w) ∷ m) p (fresh, h) e = elim (Bool-cases (live w)) [
  | inl keeps ↦
      let (k, found) = drop_values_key live m p h (ground arith) in (k, ground (arith, eq_iff j k))
  | inr goes ↦ elim (Bool-cases (eqb w p)) [
    | inl same ↦ (j, ground (arith, eq_refl j))
    | inr other ↦
        let (k, found) = drop_values_key live m p h (ground arith) in
        (k, ground (arith, eq_iff j k))
  ]
]

module _ (b : Broker) (v : Inv [] b) (now : ℕ) (s : SessionState) (a : s.active ≡ true)
    (h : HasDrafts s.optimistic) where
  abbrev kept : Dict ℕ
  kept = keep (is_live now b.heap) b.sessions

  abbrev expired : List ℕ
  expired = drop_values (is_live now b.heap) b.sessions

  next-expired : memb b.next expired ≡ false
  next-expired = elim (Bool-cases (memb b.next expired)) [
    | inl bad ↦
        let (k, found) = drop_values_key (is_live now b.heap) b.sessions b.next v.dict bad in
        ground (arith, v.mapped k b.next found, v.fresh b.next)
    | inr good ↦ good
  ]

  -- The identifier is taken: the new session is deactivated with the expired ones.
  collision-Inv : Inv [] (
      deactivate b.next (
        deactivate_all expired
          (record b { heap = update b.heap b.next s; next = suc b.next; sessions = kept })))
  collision-Inv = deactivate-Inv b.next [] _ (
      deactivate_all-Inv expired (b.next ∷ []) _ (
        doomed-Inv (b.next ∷ expired) _ _ (λ q. memb-concat q b.next expired)
          (reject-Inv s expired (record b { sessions = kept }) (keep-Inv (is_live now b.heap) b v)
            a)))

  -- There is room.
  room-Inv :
      lookup s.id kept ≡ none
      → Inv [] (
          deactivate_all expired (record b {
            heap = update b.heap b.next s;
            next = suc b.next;
            sessions = insert s.id b.next kept;
          }))
  room-Inv absent = deactivate_all-Inv expired [] _ (
      doomed-Inv expired _ _ (λ q. memb-append-nil q expired)
        (admit-Inv s expired (record b { sessions = kept }) (keep-Inv (is_live now b.heap) b v)
          next-expired a h absent))

  -- The oldest session makes room.
  evict-Inv :
      (id : String) (p : ℕ)
      → lookup id kept ≡ some p
      → lookup s.id kept ≡ none
      → Inv [] (
          deactivate p (
            deactivate_all expired (record b {
              heap = update b.heap b.next s;
              next = suc b.next;
              sessions = insert s.id b.next (delete id kept);
            })))
  evict-Inv id p found absent =
      let w = keep-Inv (is_live now b.heap) b v in
      deactivate-Inv p [] _ (
        deactivate_all-Inv expired (p ∷ []) _ (
          doomed-Inv (p ∷ expired) _ _ (λ q. memb-concat q p expired)
            (admit-Inv s (p ∷ expired) (record b { sessions = delete id kept })
              (unmap-Inv id p expired (record b { sessions = kept }) found w)
              (ground (arith, next-expired, w.mapped id p found, v.fresh b.next)) a h
              (rw (lookup-delete id s.id kept, absent) (ground arith)))))

pub admit_session-Inv :
    (b : Broker) (now : ℕ) (s : SessionState)
    → Inv [] b
    → 0 < b.max_sessions
    → s.active ≡ true
    → HasDrafts s.optimistic
    → Inv [] (admit_session b now s).0
unfolding admit_session
admit_session-Inv b now s v room a h = elim (Option-cases (lookup s.id (kept b v now s a h))) [
  | inr (q, taken) ↦ rw (taken, is_some) (collision-Inv b v now s a h)
  | inl absent ↦ elim (Bool-cases (ltb (length (kept b v now s a h)) b.max_sessions)) [
    | inl fits ↦ rw (absent, fits, is_some) (room-Inv b v now s a h absent)
    | inr full ↦
        let (p, e, found) =
          oldest-lookup (created_at b.heap) (kept b v now s a h)
            (keep-IsDict (is_live now b.heap) b.sessions v.dict) (ground arith) in
        rw (absent, full, is_some, e) (evict-Inv b v now s a h _ p found absent)
  ]
]

closed-Inv : (client : ℕ) (b : Broker) → Inv [] b → Inv [] (close_client client b)
closed-Inv client b v = record {
  dict = v.dict;
  mapped = v.mapped;
  owned = v.owned;
  retired = λ q s e a. ground (arith, v.retired q s e a);
  fresh = v.fresh;
}

pub pending-Inv :
    (b : Broker) (pending : Dict PendingState) → Inv [] b → Inv [] (record b { pending = pending })
pending-Inv b pending v = record {
  dict = v.dict;
  mapped = v.mapped;
  owned = v.owned;
  retired = v.retired;
  fresh = v.fresh;
}

open_session-Inv :
    (b : Broker) (w : World) (tenant : Tenant) (p : PendingState) (i : Identity)
    → Inv [] b
    → 0 < b.max_sessions
    → Inv [] (open_session b w tenant p i).0
unfolding new_session
open_session-Inv b w tenant p i v room =
    open_session_cases (Inv []) b w tenant p i v (λ client. closed-Inv client b v)
      λ id csrf client.
        admit_session-Inv b w.now (new_session b w.now p i id csrf client) v room refl
          (omega arith, tt)

pub complete-Inv :
    (b : Broker) (w : World) (pending_id state code : String)
    → Inv [] b
    → 0 < b.max_sessions
    → Inv [] (complete b w pending_id state code).0
complete-Inv b w pending_id state code v room =
    let v' = pending-Inv b (delete pending_id b.pending) v in
    complete_cases (Inv []) b w pending_id state code v' λ p.
      exchange_code_cases (Inv []) _ w p code v' λ tenant i. open_session-Inv _ w tenant p i v' room
