-- ===== src/Auth/Invariant/Drafts.antt =====
-- The operations on drafts keep the invariant, the bound on a session's drafts included.
use jimu_studio.Base.{
  ℕ, zero, suc, ◌<◌, ◌≤◌, String, true, Option, some, [], ◌≡◌, refl, arith, leb, is_some, inl, inr,
  Option-cases, Bool-cases, Result, ok, err,
}
use jimu_studio.Base.Lists.{length}
use jimu_studio.Base.Dict.{
  Dict, IsDict, lookup, delete, delete-IsDict, insert-IsDict, length-delete-le, length-insert-le,
}
use jimu_studio.Auth.Types.{Any, text, AuthError, SessionState, Broker, World}
use jimu_studio.Auth.Teardown.{find_session}
use jimu_studio.Auth.Drafts.{
  find_drafts, set_optimistic, allocate_draft, save_draft, store_draft, delete_draft, draw_key,
  draft_key, clear_draft, existing_key, draft_state_key, max_session_drafts,
}
use jimu_studio.Auth.Cases.{
  store_draft_cases, draft_key_cases, clear_draft_cases, delete_draft_cases,
}
use jimu_studio.Auth.Invariant.{Inv}
use jimu_studio.Auth.Invariant.Deactivate.{update-Inv}
use jimu_studio.Auth.Invariant.Session.{find_session_lem, found-IsLiveAt}

-- What `find_drafts` has found.
pub find_drafts_lem :
    (id : String) (b : Broker) (p : ℕ) (s : SessionState) (drafts : Dict Any)
    → find_drafts id b ≡ some (p, s, drafts)
    → (find_session id b ≡ some (p, s)) × (s.active ≡ true) × (s.optimistic ≡ some drafts)
unfolding find_drafts
find_drafts_lem id b p s drafts e = ground arith

pub found_drafts :
    (id : String) (b : Broker) (p : ℕ) (s : SessionState) (drafts : Dict Any)
    → Inv [] b
    → find_drafts id b ≡ some (p, s, drafts)
    → (length drafts ≤ 128) × IsDict drafts
found_drafts id b p s drafts v e =
    let (found, active, same) = find_drafts_lem id b p s drafts e in
    rw same at (found-IsLiveAt id b p s v found).2

pub set_optimistic-Inv :
    (id : String) (b : Broker) (p : ℕ) (s : SessionState) (drafts drafts' : Dict Any)
    → Inv [] b
    → find_drafts id b ≡ some (p, s, drafts)
    → (length drafts' ≤ 128)
    → IsDict drafts'
    → Inv [] (set_optimistic b p s drafts')
set_optimistic-Inv id b p s drafts drafts' v e bound dict =
    let (found, active, same) = find_drafts_lem id b p s drafts e in
    update-Inv p s b.closed b v (find_session_lem id b p s found).1 active
      (record s { optimistic = some drafts' }) active refl (bound, dict) (λ c m. m)

-- An answer that gives the map at most one more draft.
abbrev Grows : Result AuthError (String × Dict Any) → Type 0
Grows (err e) = Unit {0}
Grows (ok (reference, drafts)) = (length drafts ≤ 128) × IsDict drafts

allocate_draft-Grows :
    (left attempt : ℕ) (w : World) (category : String) (value : Any) (drafts : Dict Any)
    → length drafts < 128
    → IsDict drafts
    → Grows (allocate_draft left attempt w category value drafts)
unfolding allocate_draft
allocate_draft-Grows zero attempt w category value drafts h d = tt
allocate_draft-Grows (suc left) attempt w category value drafts h d =
    elim (Option-cases (w.random attempt)) [
      | inl e ↦ rw (e, allocate_draft) tt
      | inr (r, e) ↦ elim (Bool-cases (is_some (lookup (draft_state_key category r) drafts))) [
        | inl taken ↦
            rw (e, taken, allocate_draft)
              (allocate_draft-Grows left (suc attempt) w category value drafts h d)
        | inr free ↦
            rw (e, free, allocate_draft)
              (
                omega (arith, length-insert-le (draft_state_key category r) value drafts),
                insert-IsDict (draft_state_key category r) value drafts d,
              )
      ]
    ]

draw_key-Grows :
    (w : World) (scope : String) (drafts : Dict Any)
    → length drafts ≤ 128
    → IsDict drafts
    → Grows (draw_key w scope drafts)
unfolding draw_key
draw_key-Grows w scope drafts h d = elim (Option-cases (existing_key (lookup scope drafts))) [
  | inr (key, e) ↦ rw (e, draw_key) (h, d)
  | inl e ↦ elim (Bool-cases (leb max_session_drafts (length drafts))) [
    | inl full ↦ rw (e, full, draw_key) tt
    | inr room ↦ elim (Option-cases (w.random 0)) [
      | inl f ↦ rw (e, room, f, draw_key) tt
      | inr (key, f) ↦
          rw (e, room, f, draw_key)
            (
              ground (arith, length-insert-le scope (text key) drafts),
              insert-IsDict scope (text key) drafts d,
            )
    ]
  ]
]

save_draft-Inv :
    (id : String) (b : Broker) (p : ℕ) (s : SessionState) (drafts : Dict Any)
    → Inv [] b
    → find_drafts id b ≡ some (p, s, drafts)
    → (r : Result AuthError (String × Dict Any)) → Grows r
    → Inv [] (save_draft b p s r).0
save_draft-Inv id b p s drafts v e (err f) g = v
save_draft-Inv id b p s drafts v e (ok (reference, drafts')) (bound, dict) =
    set_optimistic-Inv id b p s drafts drafts' v e bound dict

pub store_draft-Inv :
    (b : Broker) (w : World) (id category : String) (value : Option Any)
    → Inv [] b
    → Inv [] (store_draft b w id category value).0
store_draft-Inv b w id category value v =
    store_draft_cases (Inv []) b w id category value v λ p s drafts x e room.
      save_draft-Inv id b p s drafts v e _ (
        allocate_draft-Grows 3 0 w category x drafts (ground arith)
          (found_drafts id b p s drafts v e).1)

pub draft_key-Inv :
    (b : Broker) (w : World) (id scope : String) → Inv [] b → Inv [] (draft_key b w id scope).0
draft_key-Inv b w id scope v = draft_key_cases (Inv []) b w id scope v λ p s drafts e.
    let (bound, dict) = found_drafts id b p s drafts v e in
    save_draft-Inv id b p s drafts v e _ (draw_key-Grows w scope drafts bound dict)

remove-Inv :
    (id : String) (b : Broker) (p : ℕ) (s : SessionState) (drafts : Dict Any) (k : String)
    → Inv [] b
    → find_drafts id b ≡ some (p, s, drafts)
    → Inv [] (set_optimistic b p s (delete k drafts))
remove-Inv id b p s drafts k v e =
    let (bound, dict) = found_drafts id b p s drafts v e in
    set_optimistic-Inv id b p s drafts (delete k drafts) v e
      (omega (arith, length-delete-le k drafts)) (delete-IsDict k drafts dict)

pub clear_draft-Inv : (b : Broker) (id scope : String) → Inv [] b → Inv [] (clear_draft b id scope)
clear_draft-Inv b id scope v =
    clear_draft_cases (Inv []) b id scope v λ p s drafts. remove-Inv id b p s drafts scope v

pub delete_draft-Inv :
    (b : Broker) (id category reference : String)
    → Inv [] b
    → Inv [] (delete_draft b id category reference)
delete_draft-Inv b id category reference v =
    delete_draft_cases (Inv []) b id category reference v
      λ p s drafts. remove-Inv id b p s drafts (draft_state_key category reference) v
