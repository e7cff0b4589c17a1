-- ===== src/Auth/Invariant/Sessions.antt =====
-- `cleanupSessionsLocked`, `evictOldestSessionLocked` and the admission of a session keep the
-- invariant.
use jimu_studio.Base.{
  ℕ, suc, ◌<◌, String, Bool, true, false, Option, none, some, List, [], ◌∷◌, ◌≡◌, refl, ap, ◌||◌,
  arith, ltb, inl, inr, ◌⊎◌, eq_iff, eq_refl, ◌==◌, if◌then◌else◌,
}
use jimu_studio.Base.Lists.{length}
use jimu_studio.Base.Dict.{
  Dict, IsDict, lookup, insert, keep, drop_values, lookup-insert, lookup-keep, insert-IsDict,
  keep-IsDict,
}
use jimu_studio.Auth.Types.{SessionState, Broker}
use jimu_studio.Auth.Teardown.{update, oldest}
use jimu_studio.Auth.Invariant.{memb, HasDrafts, Inv}

-- What `keep` leaves out is among the removed values.
memb-drop_values :
    (p : ℕ → Bool) (m : Dict ℕ) (k : String) (v : ℕ)
    → lookup k m ≡ some v
    → p v ≡ false
    → memb v (drop_values p m) ≡ true
unfolding lookup drop_values
memb-drop_values p [] k v e h = ground arith
memb-drop_values p ((j, w) ∷ m) k v e h = ground (arith, memb-drop_values p m k v)

drop_values_sound :
    (p : ℕ → Bool) (m : Dict ℕ) (v : ℕ) → memb v (drop_values p m) ≡ true → p v ≡ false
unfolding drop_values
drop_values_sound p [] v e = ground arith
drop_values_sound p ((j, w) ∷ m) v e = ground (arith, drop_values_sound p m v)

pub keep-Inv :
    (live : ℕ → Bool) (b : Broker)
    → Inv [] b
    → Inv (drop_values live b.sessions) (record b { sessions = keep live b.sessions })
keep-Inv live b v = record {
  dict = keep-IsDict live b.sessions v.dict;
  mapped = λ id q e. ground (
    arith,
    lookup-keep live id b.sessions v.dict,
    v.mapped id q,
    drop_values_sound live b.sessions q,
  );
  owned = λ q s e a m. ground (
    arith,
    v.owned q s e a,
    lookup-keep live s.id b.sessions v.dict,
    memb-drop_values live b.sessions s.id q,
  );
  retired = v.retired;
  fresh = v.fresh;
}

module _ {ℓ} {V : Type ℓ} where
  -- The loop for the oldest entry ends with an entry of the map, or where it began.
  abbrev pub Found : Dict V → String × ℕ × Option V → Type ℓ
  Found m r = (v : V) × (r.2 ≡ some v) × (lookup r.0 m ≡ some v)

  Found-skip :
      (r : String × ℕ × Option V) (id : String) (w : V) (m : Dict V)
      → lookup id m ≡ none
      → Found m r
      → Found ((id, w) ∷ m) r
  unfolding lookup
  Found-skip r id w m fresh (v, e, found) = (v, e, ground (arith, eq_iff id r.0))

  Found-take :
      (r : String × ℕ × Option V) (id : String) (time : ℕ) (w : V) (m : Dict V)
      → lookup id m ≡ none
      → (r ≡ (id, time, some w)) ⊎ Found m r
      → Found ((id, w) ∷ m) r
  unfolding lookup
  Found-take r id time w m fresh (inl e) = (w, ap (λ x. x.2) e, rw (ap (λ x. x.0) e, eq_refl id))
  Found-take r id time w m fresh (inr f) = Found-skip r id w m fresh f

  Found-step :
      (created : V → ℕ) (id : String) (w : V) (m : Dict V) (best : String × ℕ × Option V)
      → lookup id m ≡ none
      → ((b : String × ℕ × Option V) → (oldest created m b ≡ b) ⊎ Found m (oldest created m b))
      → (t : Bool)
      → (oldest created m (if t then (id, created w, some w) else best) ≡ best)
        ⊎ Found ((id, w) ∷ m) (oldest created m (if t then (id, created w, some w) else best))
  Found-step created id w m best fresh ih true =
      inr (Found-take _ id (created w) w m fresh (ih (id, created w, some w)))
  Found-step created id w m best fresh ih false = elim (ih best) [
    | inl e ↦ inl e
    | inr f ↦ inr (Found-skip (oldest created m best) id w m fresh f)
  ]

  pub oldest-Found :
      (created : V → ℕ) (m : Dict V) (best : String × ℕ × Option V)
      → IsDict m
      → (oldest created m best ≡ best) ⊎ Found m (oldest created m best)
  unfolding oldest
  oldest-Found created [] best h = inl refl
  oldest-Found created ((id, v) ∷ m) (bid, time, found) (fresh, h) =
      Found-step created id v m (bid, time, found) fresh (λ b. oldest-Found created m b h)
        (bid == "" || ltb (created v) time)

  -- From the empty start, a map that is not empty gives one of its entries.
  pub oldest-lookup :
      (created : V → ℕ) (m : Dict V)
      → IsDict m
      → 0 < length m
      → Found m (oldest created m ("", 0, none))
  unfolding oldest
  oldest-lookup created [] h pos = absurd (omega arith)
  oldest-lookup created ((id, v) ∷ m) (fresh, h) pos =
      Found-take _ id (created v) v m fresh (oldest-Found created m (id, created v, some v) h)

-- A new session, under an identifier that is not taken.
pub admit-Inv :
    (s : SessionState) (D : List ℕ) (b : Broker)
    → Inv D b
    → memb b.next D ≡ false
    → s.active ≡ true
    → HasDrafts s.optimistic
    → lookup s.id b.sessions ≡ none
    → Inv D (record b {
      heap = update b.heap b.next s;
      next = suc b.next;
      sessions = insert s.id b.next b.sessions;
    })
admit-Inv s D b v m a h absent = record {
  dict = insert-IsDict s.id b.next b.sessions v.dict;
  mapped = λ id q e. ground (
    arith,
    lookup-insert s.id id b.next b.sessions,
    v.mapped id q,
    v.fresh b.next,
    eq_iff s.id id,
  );
  owned = λ q t e act d. ground (
    arith,
    lookup-insert s.id t.id b.next b.sessions,
    v.owned q t,
    eq_iff s.id t.id,
    v.fresh b.next,
    eq_refl s.id,
  );
  retired = λ q t e act. ground (arith, v.retired q t);
  fresh = λ q le. ground (arith, v.fresh q);
}

-- A session that was allocated and is not registered is doomed.
pub reject-Inv :
    (s : SessionState) (D : List ℕ) (b : Broker)
    → Inv D b
    → s.active ≡ true
    → Inv (b.next ∷ D) (record b { heap = update b.heap b.next s; next = suc b.next })
reject-Inv s D b v a = record {
  dict = v.dict;
  mapped = λ id q e. ground (arith, v.mapped id q, v.fresh b.next);
  owned = λ q t e act d. ground (arith, v.owned q t, v.fresh b.next);
  retired = λ q t e act. ground (arith, v.retired q t);
  fresh = λ q le. ground (arith, v.fresh q);
}
