-- ===== src/Auth/DraftLaws.antt =====
-- internal/auth/draft.go and operations.go: what the drafts of a session promise.
use mathlib.Core.Path.{fun_ext}
use jimu_studio.Base.{
  ℕ, zero, suc, ◌≤◌, String, true, false, not, ◌||◌, none, some, [], ◌≡◌, ◌≢◌, refl, arith, ap, ◌∙◌,
  ltb, leb, eqb, eqb_refl, is_some, len, inl, inr, Option-cases, Bool-cases, ◌==◌, if◌then◌else◌,
  Result, ok, err, eq_iff,
}
use jimu_studio.Base.Lists.{length}
use jimu_studio.Base.Dict.{Dict, lookup, insert, lookup-insert, lookup-insert_self}
use jimu_studio.Auth.Types.{
  Any, text, AuthError, unsafe_draft, unknown_session, draft_limit, bad_scope, SessionState, Broker,
  World,
}
use jimu_studio.Auth.Teardown.{find_session}
use jimu_studio.Auth.Drafts.{
  find_drafts, set_optimistic, allocate_draft, save_draft, store_draft, load_draft, draw_key,
  draft_key, existing_key, is_safe_category, draft_state_key, max_session_drafts,
}
use jimu_studio.Auth.Invariant.{Inv}
use jimu_studio.Auth.Invariant.Session.{find_session_lem}
use jimu_studio.Auth.Invariant.Drafts.{find_drafts_lem}

-- The drafts that a write through the pointer leaves.
pub find_drafts-set :
    (id : String) (b : Broker) (p : ℕ) (s : SessionState) (drafts drafts' : Dict Any)
    → find_drafts id b ≡ some (p, s, drafts)
    → find_drafts id (set_optimistic b p s drafts')
      ≡ some (p, record s { optimistic = some drafts' }, drafts')
unfolding find_drafts find_session
find_drafts-set id b p s drafts drafts' e =
    let (found, active, same) = find_drafts_lem id b p s drafts e in
    let (mapped, object) = find_session_lem id b p s found in
    rw (mapped, find_drafts, find_session) (rw (eqb_refl p, active))

-- Another session's drafts stay.
pub find_drafts-other :
    (id j : String) (b : Broker) (p : ℕ) (s : SessionState) (drafts drafts' : Dict Any)
    → Inv [] b
    → find_drafts id b ≡ some (p, s, drafts)
    → id ≢ j
    → find_drafts j (set_optimistic b p s drafts') ≡ find_drafts j b
unfolding find_drafts find_session
find_drafts-other id j b p s drafts drafts' v e ne =
    let (found, active, same) = find_drafts_lem id b p s drafts e in
    let (mapped, object) = find_session_lem id b p s found in
    elim (Option-cases (lookup j b.sessions)) [
      | inl f ↦ rw (f, find_drafts, find_session)
      | inr (q, f) ↦ elim (Bool-cases (eqb p q)) [
        | inr apart ↦ rw (f, find_drafts, find_session) (rw apart)
        | inl alike ↦ ground (arith, v.mapped id p mapped, v.mapped j q f)
      ]
    ]

-- The reference that is allocated is new, and the drafts gain the value under it.
allocate_draft-insert :
    (left attempt : ℕ) (w : World) (category : String) (value : Any) (drafts drafts' : Dict Any)
    (reference : String)
    → allocate_draft left attempt w category value drafts ≡ ok (reference, drafts')
    → (drafts' ≡ insert (draft_state_key category reference) value drafts)
      × (lookup (draft_state_key category reference) drafts ≡ none)
unfolding allocate_draft
allocate_draft-insert zero attempt w category value drafts drafts' reference e = cc
allocate_draft-insert (suc left) attempt w category value drafts drafts' reference e =
    elim (Option-cases (w.random attempt)) [
      | inl f ↦ let bad = rw (f, allocate_draft) at e in cc
      | inr (r, f) ↦ elim (Bool-cases (is_some (lookup (draft_state_key category r) drafts))) [
        | inl taken ↦
            allocate_draft-insert left (suc attempt) w category value drafts drafts' reference
              (rw (f, taken, allocate_draft) at e)
        | inr free ↦
            let done : ◌≡◌ {A = Result AuthError (String × Dict Any)}
                (ok (r, insert (draft_state_key category r) value drafts))
                (ok (reference, drafts')) =
              rw (f, free, allocate_draft) at e in
            ground (arith, done, free)
      ]
    ]

save_draft-ok :
    (b : Broker) (p : ℕ) (s : SessionState) (r : Result AuthError (String × Dict Any))
    (reference : String)
    → (save_draft b p s r).1 ≡ ok reference
    → (drafts : Dict Any) × (r ≡ ok (reference, drafts))
      × ((save_draft b p s r).0 ≡ set_optimistic b p s drafts)
save_draft-ok b p s (err f) reference e = cc
save_draft-ok b p s (ok (r, drafts)) reference e = (drafts, cc, refl)

-- What a successful `StoreDraft` has done.
record IsStored (b b' : Broker) (id category reference : String) (value : Any) : Type 0 where
  pointer : ℕ
  object : SessionState
  drafts : Dict Any
  safe : is_safe_category category ≡ true
  found : find_drafts id b ≡ some (pointer, object, drafts)
  new : lookup (draft_state_key category reference) drafts ≡ none
  after :
      b'
      ≡ set_optimistic b pointer object (insert (draft_state_key category reference) value drafts)

-- The outcomes of `StoreDraft` on a value.
store_draft_outcomes {ℓ} :
    (P : Broker × Result AuthError String → Type ℓ) (b : Broker) (w : World) (id category : String)
    (v : Any)
    → P (b, err unsafe_draft)
    → P (b, err unknown_session)
    → P (b, err draft_limit)
    → ((p : ℕ) (s : SessionState) (drafts : Dict Any)
        → is_safe_category category ≡ true
        → find_drafts id b ≡ some (p, s, drafts)
        → P (save_draft b p s (allocate_draft 3 0 w category v drafts)))
    → P (store_draft b w id category (some v))
unfolding store_draft
store_draft_outcomes P b w id category v unsafe unknown full saved =
    elim (Bool-cases (is_safe_category category)) [
      | inr n ↦ rw (n, store_draft) unsafe
      | inl y ↦ elim (Option-cases (find_drafts id b)) [
        | inl f ↦ rw (y, f, store_draft) unknown
        | inr ((p, s, drafts), f) ↦ elim (Bool-cases (leb max_session_drafts (length drafts))) [
          | inl g ↦ rw (y, f, g, store_draft) full
          | inr g ↦ rw (y, f, g, store_draft) (saved p s drafts y f)
        ]
      ]
    ]

save_draft-IsStored :
    (b : Broker) (w : World) (id category reference : String) (v : Any) (p : ℕ) (s : SessionState)
    (drafts : Dict Any)
    → is_safe_category category ≡ true
    → find_drafts id b ≡ some (p, s, drafts)
    → (r : Result AuthError (String × Dict Any)) → allocate_draft 3 0 w category v drafts ≡ r
    → (save_draft b p s r).1 ≡ ok reference
    → IsStored b (save_draft b p s r).0 id category reference v
save_draft-IsStored b w id category reference v p s drafts safe found (err f) a e = cc
save_draft-IsStored b w id category reference v p s drafts safe found (ok (r, drafts')) a e =
    let (inserted, new) = allocate_draft-insert 3 0 w category v drafts drafts' r a in
    let same : r ≡ reference = cc in
    record {
      pointer = p;
      object = s;
      drafts = drafts;
      safe = safe;
      found = found;
      new = rw (← same) new;
      after = rw (← same) (ap (set_optimistic b p s) inserted);
    }

store_draft-IsStored :
    (b : Broker) (w : World) (id category reference : String) (v : Any)
    → (store_draft b w id category (some v)).1 ≡ ok reference
    → IsStored b (store_draft b w id category (some v)).0 id category reference v
store_draft-IsStored b w id category reference v =
    store_draft_outcomes (λ r. r.1 ≡ ok reference → IsStored b r.0 id category reference v) b w id
      category v (λ e. cc) (λ e. cc) (λ e. cc)
      λ p s drafts safe found.
        save_draft-IsStored b w id category reference v p s drafts safe found _ refl

load_draft-lookup :
    (b : Broker) (id c r : String) (p : ℕ) (s : SessionState) (drafts : Dict Any)
    → find_drafts id b ≡ some (p, s, drafts)
    → load_draft b id c r ≡ (
        if not (is_safe_category c) || r == "" || ltb 256 (len r)
        then none
        else lookup (draft_state_key c r) drafts)
unfolding load_draft
load_draft-lookup b id c r p s drafts found = rw (found, load_draft)

-- A stored draft can be loaded by its category and the reference that was returned, while it is not
-- empty and has at most 256 bytes; what the session could load before is unchanged; and another
-- session's drafts are unchanged.
pub load_draft-store :
    (b : Broker) (w : World) (id category reference : String) (value : Any)
    → Inv [] b
    → (store_draft b w id category (some value)).1 ≡ ok reference
    → reference ≢ ""
    → len reference ≤ 256
    → let b' = (store_draft b w id category (some value)).0 in
      (load_draft b' id category reference ≡ some value)
      × ((c r : String) (v : Any) → load_draft b id c r ≡ some v → load_draft b' id c r ≡ some v)
      × ((j c r : String) → id ≢ j → load_draft b' j c r ≡ load_draft b j c r)
unfolding load_draft
load_draft-store b w id category reference value v e given short =
    let t = store_draft-IsStored b w id category reference value e in
    let key = draft_state_key category reference in
    let drafts' = insert key value t.drafts in
    let found' = find_drafts-set id b t.pointer t.object t.drafts drafts' t.found in
    rw t.after (
      load_draft-lookup _ id category reference t.pointer _ drafts' found'
          ∙ ground (arith, t.safe, eq_iff reference "", lookup-insert_self key value t.drafts),
      λ c r y loaded.
          load_draft-lookup _ id c r t.pointer _ drafts' found'
          ∙ ground (
            arith,
            t.new,
            load_draft-lookup b id c r t.pointer t.object t.drafts t.found,
            lookup-insert key (draft_state_key c r) value t.drafts,
            eq_iff key (draft_state_key c r),
          ),
      λ j c r ne.
          rw
            (load_draft, find_drafts-other id j b t.pointer t.object t.drafts drafts' v t.found ne),
    )

-- After `DraftKey`'s step on the map, the key is there.
draw_key-existing :
    (w : World) (scope key : String) (drafts drafts' : Dict Any)
    → draw_key w scope drafts ≡ ok (key, drafts')
    → key ≢ ""
    → existing_key (lookup scope drafts') ≡ some key
unfolding draw_key
draw_key-existing w scope key drafts drafts' e given =
    elim (Option-cases (existing_key (lookup scope drafts))) [
      | inr (old, f) ↦
          let done : ◌≡◌ {A = Result AuthError (String × Dict Any)} (ok (old, drafts))
              (ok (key, drafts')) =
            rw (f, draw_key) at e in
          ground (arith, done, f)
      | inl f ↦ elim (Bool-cases (leb max_session_drafts (length drafts))) [
        | inl full ↦ let bad = rw (f, full, draw_key) at e in cc
        | inr room ↦ elim (Option-cases (w.random 0)) [
          | inl g ↦ let bad = rw (f, room, g, draw_key) at e in cc
          | inr (k, g) ↦
              let done : ◌≡◌ {A = Result AuthError (String × Dict Any)}
                  (ok (k, insert scope (text k) drafts)) (ok (key, drafts')) =
                rw (f, room, g, draw_key) at e in
              ground (arith, done, lookup-insert_self scope (text k) drafts, eq_iff k "")
        ]
      ]
    ]

set_twice :
    (b : Broker) (p : ℕ) (s : SessionState) (drafts : Dict Any)
    → set_optimistic (set_optimistic b p s drafts) p (record s { optimistic = some drafts }) drafts
      ≡ set_optimistic b p s drafts
set_twice b p s drafts = ap (λ heap. record b { heap = heap }) (fun_ext λ q. ground arith)

saved_twice :
    (b : Broker) (w w' : World) (id scope key : String) (p : ℕ) (s : SessionState)
    (drafts : Dict Any)
    → find_drafts id b ≡ some (p, s, drafts)
    → (scope == "" || ltb 1024 (len scope)) ≡ false
    → key ≢ ""
    → (r : Result AuthError (String × Dict Any)) → draw_key w scope drafts ≡ r
    → (save_draft b p s r).1 ≡ ok key
    → let b' = (save_draft b p s r).0 in draft_key b' w' id scope ≡ (b', ok key)
unfolding draft_key draw_key
saved_twice b w w' id scope key p s drafts found sound given (err f) a e = cc
saved_twice b w w' id scope key p s drafts found sound given (ok (k, drafts')) a e =
    let same : k ≡ key = cc in
    let there = draw_key-existing w scope k drafts drafts' a (rw same given) in
    rw (draft_key, sound, find_drafts-set id b p s drafts drafts' found, draw_key, there)
      (λ i. (set_twice b p s drafts' i, ok (same i)))

-- The outcomes of `DraftKey`.
draft_key_outcomes {ℓ} :
    (P : Broker × Result AuthError String → Type ℓ) (b : Broker) (w : World) (id scope : String)
    → P (b, err bad_scope)
    → P (b, err unknown_session)
    → ((p : ℕ) (s : SessionState) (drafts : Dict Any)
        → (scope == "" || ltb 1024 (len scope)) ≡ false
        → find_drafts id b ≡ some (p, s, drafts)
        → P (save_draft b p s (draw_key w scope drafts)))
    → P (draft_key b w id scope)
unfolding draft_key
draft_key_outcomes P b w id scope bad unknown saved =
    elim (Bool-cases (scope == "" || ltb 1024 (len scope))) [
      | inl refused ↦ rw (refused, draft_key) bad
      | inr sound ↦ elim (Option-cases (find_drafts id b)) [
        | inl f ↦ rw (sound, f, draft_key) unknown
        | inr ((p, s, drafts), f) ↦ rw (sound, f, draft_key) (saved p s drafts sound f)
      ]
    ]

-- The key that `DraftKey` hands out for a scope is stable: once it has returned a key that is not
-- empty, it returns the same key for that scope again, without change and whatever the random
-- source gives.
pub draft_key_stable :
    (b : Broker) (w w' : World) (id scope key : String)
    → (draft_key b w id scope).1 ≡ ok key
    → key ≢ ""
    → let b' = (draft_key b w id scope).0 in draft_key b' w' id scope ≡ (b', ok key)
draft_key_stable b w w' id scope key =
    draft_key_outcomes (λ r. r.1 ≡ ok key → key ≢ "" → draft_key r.0 w' id scope ≡ (r.0, ok key)) b
      w id scope (λ e given. cc) (λ e given. cc)
      λ p s drafts sound found e given.
        saved_twice b w w' id scope key p s drafts found sound given _ refl e
