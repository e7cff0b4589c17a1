-- ===== src/Auth/Admitted.antt =====
-- internal/auth/broker.go: which other authorizations `Begin` keeps.
use jimu_studio.Base.{
  ℕ, zero, suc, ◌<◌, ◌≤◌, String, true, false, none, some, [], ◌∷◌, ◌≡◌, ◌≢◌, ◌↔◌, refl, sym, ap,
  arith, ◌∙◌, is_some, inl, inr, Bool-cases, Option-cases, ok, eq_iff, ltb, leb, if◌then◌else◌,
  Result,
}
use jimu_studio.Base.Lists.{length}
use jimu_studio.Base.Dict.{
  Dict, IsDict, keep, lookup, insert, delete, lookup-delete, lookup-insert, lookup-keep,
  delete-IsDict, keep-IsDict,
}
use jimu_studio.Auth.Types.{AuthError, Pending, PendingState, Broker, World}
use jimu_studio.Auth.Teardown.{oldest}
use jimu_studio.Auth.Begin.{cleanup_pending, evict_oldest_pending, admit_pending}
use jimu_studio.Auth.Invariant.Sessions.{oldest-lookup}

-- The authorizations beside the one that `Begin` returns.
pub record IsAdmitted (b b' : Broker) (w : World) (q : Pending) : Type 0 where
  pub others :
      (k : String) (x : PendingState)
      → k ≢ q.id
      → lookup k b'.pending ≡ some x
      → (lookup k b.pending ≡ some x) × (w.now < x.expires)
  pub roomy :
      (k : String) (x : PendingState)
      → length (keep (λ p. ltb w.now p.expires) b.pending) < b.max_pending
      → k ≢ q.id
      → lookup k b.pending ≡ some x
      → w.now < x.expires
      → lookup k b'.pending ≡ some x
  pub count : length b'.pending ≡ (
      let live = length (keep (λ p. ltb w.now p.expires) b.pending) in
      if ltb live b.max_pending then suc live else b.max_pending)

length-delete_absent {ℓ} :
    {V : Type ℓ} (k : String) (m : Dict V) → lookup k m ≡ none → length (delete k m) ≡ length m
unfolding lookup delete
length-delete_absent k [] e = refl
length-delete_absent k ((j, v) ∷ m) e = ground (arith, length-delete_absent k m)

length-delete_found {ℓ} :
    {V : Type ℓ} (k : String) (v : V) (m : Dict V)
    → IsDict m
    → lookup k m ≡ some v
    → suc (length (delete k m)) ≡ length m
unfolding lookup delete
length-delete_found k v [] d e = absurd (ground arith)
length-delete_found k v ((j, u) ∷ m) (fresh, d) e =
    ground (arith, eq_iff j k, length-delete_absent k m, length-delete_found k v m d)

-- The eviction leaves only entries that it found.
evict_oldest_pending-found :
    (fuel limit : ℕ) (m : Dict PendingState) (k : String) (x : PendingState)
    → lookup k (evict_oldest_pending fuel limit m) ≡ some x
    → lookup k m ≡ some x
unfolding evict_oldest_pending
evict_oldest_pending-found zero limit m k x e = e
evict_oldest_pending-found (suc fuel) limit m k x e =
    let id = (oldest (λ p. p.created) m ("", 0, none)).0 in
    elim (Bool-cases (leb limit (length m))) [
      | inr fits ↦ rw (fits, evict_oldest_pending) at e
      | inl full ↦
          let left =
            evict_oldest_pending-found fuel limit (delete id m) k x
              (rw (full, evict_oldest_pending) at e) in
          ground (arith, lookup-delete id k m)
    ]

-- With room, it leaves all of them.
evict_oldest_pending-roomy :
    (fuel limit : ℕ) (m : Dict PendingState)
    → length m < limit
    → evict_oldest_pending fuel limit m ≡ m
unfolding evict_oldest_pending
evict_oldest_pending-roomy zero limit m room = refl
evict_oldest_pending-roomy (suc fuel) limit m room =
    let fits : leb limit (length m) ≡ false = ground arith in rw fits refl

-- Without, it leaves one less than the limit.
evict_oldest_pending-full :
    (fuel limit : ℕ) (m : Dict PendingState)
    → IsDict m
    → 0 < limit
    → limit ≤ length m
    → length m < fuel
    → suc (length (evict_oldest_pending fuel limit m)) ≡ limit
unfolding evict_oldest_pending
evict_oldest_pending-full zero limit m d positive big enough = absurd (omega arith)
evict_oldest_pending-full (suc fuel) limit m d positive big enough =
    let full : leb limit (length m) ≡ true = ground arith in
    let created : PendingState → ℕ = λ p. p.created in
    let (v, e, found) = oldest-lookup created m d (ground arith) in
    let id = (oldest created m ("", 0, none)).0 in
    let shorter = length-delete_found id v m d found in
    rw full (elim (Bool-cases (leb limit (length (delete id m)))) [
      | inl more ↦
          evict_oldest_pending-full fuel limit (delete id m) (delete-IsDict id m d) positive
            (ground arith) (omega arith)
      | inr fits ↦
          let same = evict_oldest_pending-roomy fuel limit (delete id m) (ground arith) in
          rw same (ground arith)
    ])

length-insert_absent {ℓ} :
    {V : Type ℓ} (k : String) (v : V) (m : Dict V)
    → lookup k m ≡ none
    → length (insert k v m) ≡ suc (length m)
unfolding insert
length-insert_absent k v m e = omega (arith, length-delete_absent k m e)

lookup-insert_other {ℓ} :
    {V : Type ℓ} (k j : String) (v : V) (m : Dict V) → j ≢ k → lookup j (insert k v m) ≡ lookup j m
lookup-insert_other k j v m distinct = lookup-insert k j v m ∙ ground (arith, eq_iff k j)

kept_iff :
    (now : ℕ) (m : Dict PendingState) (k : String) (x : PendingState)
    → IsDict m
    → (lookup k (cleanup_pending now m) ≡ some x) ↔ ((lookup k m ≡ some x) × (now < x.expires))
unfolding cleanup_pending
kept_iff now m k x d =
    let here = lookup-keep (λ p. ltb now p.expires) k m d in
    elim (Option-cases (lookup k m)) [
      | inl f ↦ (λ e. absurd (ground arith), λ (found, early). absurd (ground arith))
      | inr (y, f) ↦ (λ e. ground arith, λ (found, early). ground arith)
    ]

pub admit_pending-IsAdmitted :
    (b : Broker) (w : World) (p : PendingState) (q : Pending)
    → IsDict b.pending
    → 0 < b.max_pending
    → (admit_pending b w.now p).1 ≡ ok q
    → IsAdmitted b (admit_pending b w.now p).0 w q
unfolding admit_pending cleanup_pending
admit_pending-IsAdmitted b w p q d positive e =
    let kept : Dict PendingState = cleanup_pending w.now b.pending in
    let fuel = suc (length kept) in
    let left : Dict PendingState = evict_oldest_pending fuel b.max_pending kept in
    elim (Bool-cases (is_some (lookup p.id kept))) [
      | inl taken ↦ let bad = rw (taken, admit_pending) at e in cc
      | inr free ↦
          let same : ◌≡◌ {A = Result AuthError Pending} (ok p.pending) (ok q) =
            rw (free, admit_pending) at e in
          let named : q.id ≡ p.id = ground arith in
          let after : (admit_pending b w.now p).0.pending ≡ insert p.id p left =
            rw (free, admit_pending) refl in
          let absent : lookup p.id left ≡ none = elim (Option-cases (lookup p.id left)) [
            | inl f ↦ f
            | inr (x, f) ↦
                let was : lookup p.id kept ≡ some x =
                  evict_oldest_pending-found fuel b.max_pending kept p.id x f in
                absurd (ground arith)
          ] in
          record {
            others = λ k x distinct found.
                let distinct' : k ≢ p.id = λ h. distinct (h ∙ sym named) in
                let left_found : lookup k left ≡ some x =
                  sym (lookup-insert_other p.id k p left distinct')
                  ∙ ap (λ m. lookup k m) (sym after)
                  ∙ found in
                (kept_iff w.now b.pending k x d).0
                  (evict_oldest_pending-found fuel b.max_pending kept k x left_found);
            roomy = λ k x room distinct found early.
                let distinct' : k ≢ p.id = λ h. distinct (h ∙ sym named) in
                ap (λ m. lookup k m) after
                ∙ lookup-insert_other p.id k p left distinct'
                ∙ ap (λ m. lookup k m) (evict_oldest_pending-roomy fuel b.max_pending kept room)
                ∙ (kept_iff w.now b.pending k x d).1 (found, early);
            count =
                ap length after
                ∙ length-insert_absent p.id p left absent
                ∙ elim (Bool-cases (ltb (length kept) b.max_pending)) [
                  | inl room ↦
                      rw (evict_oldest_pending-roomy fuel b.max_pending kept (ground arith))
                        (rw room)
                  | inr full ↦
                      evict_oldest_pending-full fuel b.max_pending kept (keep-IsDict _ b.pending d)
                        positive (ground arith) (omega arith)
                      ∙ rw full
                ];
          }
    ]
