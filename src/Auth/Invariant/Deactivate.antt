-- ===== src/Auth/Invariant/Deactivate.antt =====
-- `deactivate`, `invalidate` and writes through a pointer keep the invariant.
use jimu_studio.Base.{
  ℕ, ◌≤◌, String, true, false, none, some, List, [], ◌∷◌, ◌++◌, ◌≡◌, refl, arith, eqb_refl, eq_iff,
}
use jimu_studio.Base.Dict.{lookup, delete, lookup-delete, delete-IsDict}
use jimu_studio.Auth.Types.{SessionState, Broker}
use jimu_studio.Auth.Teardown.{update, deactivate, deactivate_all, invalidate, holds}
use jimu_studio.Auth.Invariant.{memb, HasDrafts, IsLiveAt, IsWiped, Inv}

module _ (p : ℕ) (D : List ℕ) (b : Broker) (v : Inv (p ∷ D) b) where
  deactivate-mapped :
      (id : String) (q : ℕ)
      → lookup id (deactivate p b).sessions ≡ some q
      → IsLiveAt id ((deactivate p b).heap q) × (memb q D ≡ false)
  unfolding deactivate
  deactivate-mapped id q e = ground (arith, v.mapped id q)

  deactivate-owned :
      (q : ℕ) (s : SessionState)
      → (deactivate p b).heap q ≡ some s
      → s.active ≡ true
      → memb q D ≡ false
      → lookup s.id (deactivate p b).sessions ≡ some q
  unfolding deactivate
  deactivate-owned q s e a m = ground (arith, v.owned q s)

  deactivate-retired :
      (q : ℕ) (s : SessionState)
      → (deactivate p b).heap q ≡ some s
      → s.active ≡ false
      → IsWiped (deactivate p b).closed s
  unfolding deactivate
  deactivate-retired q s e a = ground (arith, v.retired q s)

  deactivate-fresh : (q : ℕ) → (deactivate p b).next ≤ q → (deactivate p b).heap q ≡ none
  unfolding deactivate
  deactivate-fresh q h = ground (arith, v.fresh q)

  deactivate-dict : (deactivate p b).sessions ≡ b.sessions
  unfolding deactivate
  deactivate-dict = ground arith

pub deactivate-Inv : (p : ℕ) (D : List ℕ) (b : Broker) → Inv (p ∷ D) b → Inv D (deactivate p b)
deactivate-Inv p D b v = record {
  dict = rw (deactivate-dict p D b v) v.dict;
  mapped = deactivate-mapped p D b v;
  owned = deactivate-owned p D b v;
  retired = deactivate-retired p D b v;
  fresh = deactivate-fresh p D b v;
}

pub deactivate_all-Inv :
    (ps D : List ℕ) (b : Broker) → Inv (ps ++ D) b → Inv D (deactivate_all ps b)
unfolding deactivate_all
deactivate_all-Inv [] D b v = v
deactivate_all-Inv (p ∷ ps) D b v =
    deactivate_all-Inv ps D (deactivate p b) (deactivate-Inv p (ps ++ D) b v)

-- Only the members of the doomed set count.
pub doomed-Inv :
    (D D' : List ℕ) (b : Broker) → ((q : ℕ) → memb q D' ≡ memb q D) → Inv D b → Inv D' b
doomed-Inv D D' b same v = record {
  dict = v.dict;
  mapped = λ id q e. ground (arith, v.mapped id q e, same q);
  owned = λ q s e a m. ground (arith, v.owned q s e a, same q);
  retired = v.retired;
  fresh = v.fresh;
}

pub memb-concat : (q p : ℕ) (D : List ℕ) → memb q (D ++ p ∷ []) ≡ memb q (p ∷ D)
memb-concat q p [] = refl
memb-concat q p (x ∷ D) = ground (arith, memb-concat q p D)

pub memb-append-nil : (q : ℕ) (D : List ℕ) → memb q (D ++ []) ≡ memb q D
memb-append-nil q [] = refl
memb-append-nil q (x ∷ D) = ground (arith, memb-append-nil q D)

-- A session that leaves the map is doomed.
pub unmap-Inv :
    (id : String) (p : ℕ) (D : List ℕ) (b : Broker)
    → lookup id b.sessions ≡ some p
    → Inv D b
    → Inv (p ∷ D) (record b { sessions = delete id b.sessions })
unmap-Inv id p D b found v = record {
  dict = delete-IsDict id b.sessions v.dict;
  mapped = λ j q e.
      ground (arith, lookup-delete id j b.sessions, v.mapped id p, v.mapped j q, eq_iff id j);
  owned = λ q s e a m.
      ground (arith, lookup-delete id s.id b.sessions, v.owned q s e a, eq_iff id s.id);
  retired = v.retired;
  fresh = v.fresh;
}

pub invalidate-Inv :
    (id : String) (p : ℕ) (b : Broker)
    → lookup id b.sessions ≡ some p
    → Inv [] b
    → Inv [] (invalidate id p b)
unfolding invalidate
invalidate-Inv id p b found v =
    rw (found, holds, eqb_refl p) (deactivate-Inv p [] _ (unmap-Inv id p [] b found v))

-- A write that keeps an active session's identity.
pub update-Inv :
    (p : ℕ) (s : SessionState) (closed : List ℕ) (b : Broker)
    → Inv [] b
    → b.heap p ≡ some s
    → s.active ≡ true
    → (s' : SessionState) → s'.active ≡ true
    → s'.id ≡ s.id
    → HasDrafts s'.optimistic
    → ((c : ℕ) → memb c b.closed ≡ true → memb c closed ≡ true)
    → Inv [] (record b { heap = update b.heap p s'; closed = closed })
update-Inv p s closed b v e a s' a' i h grows = record {
  dict = v.dict;
  mapped = λ j q m. ground (arith, v.mapped j q m);
  owned = λ q t f act m. ground (arith, v.owned q t, v.owned p s);
  retired = λ q t f act. ground (arith, v.retired q t, grows t.client);
  fresh = λ q le. ground (arith, v.fresh q le);
}
