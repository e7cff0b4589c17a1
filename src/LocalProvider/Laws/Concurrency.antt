-- ===== src/LocalProvider/Laws/Concurrency.antt =====
-- internal/localprovider: two editors of one entity, and the roles that an assignment leaves.
use jimu_studio.Base.{
  String, Bool, true, false, none, some, List, [], ◌∷◌, ◌≡◌, refl, ◌∙◌, arith, inl, inr,
  Option-cases, Bool-cases, ◌==◌, eq_iff, if◌then◌else◌,
}
use jimu_studio.Base.Lists.{contains}
use jimu_studio.Base.Sort.{IsSorted, sort-IsSorted, contains-sort}
use jimu_studio.Base.Int.{ℤ, pos, eqb_ℤ, eqb_ℤ_iff, eqb_ℤ-incr}
use jimu_studio.Base.Dict.{lookup, lookup-insert_self}
use jimu_studio.LocalProvider.State.{Entity, State, Clock}
use jimu_studio.LocalProvider.Mutation.{conflict, refusal, Effect, settle, mutate, EntityUpdate}
use jimu_studio.LocalProvider.Entities.{update_entity_effect, save_entity}
use jimu_studio.LocalProvider.Identity.{distinct, without, changed_roles}

-- The entity stands under its code at another version than the expected one.
abbrev Moved : String → ℤ → State → Type 0
Moved code expected t =
    (e : Entity) × (lookup code t.entities ≡ some e) × (eqb_ℤ e.version expected ≡ false)

saved-Moved :
    (s : State) (key code action : String) (clock : Clock) (e : Entity) (expected : ℤ)
    → eqb_ℤ e.version expected ≡ false
    → Moved code expected (settle s key (save_entity s clock code action e)).0
saved-Moved s key code action clock e expected other =
    (e, lookup-insert_self code e s.entities, other)

update-Moved :
    (s : State) (key code : String) (clock : Clock) (m : EntityUpdate)
    → (settle s key (update_entity_effect m clock code s)).1.status ≡ 200
    → Moved code m.expected_version (settle s key (update_entity_effect m clock code s)).0
unfolding update_entity_effect
update-Moved s key code clock m h = elim (Option-cases (lookup code s.entities)) [
  | inl e ↦ elim (Bool-cases (eqb_ℤ m.expected_version (pos 0))) [
    | inr stale ↦ let bad = rw (e, stale, update_entity_effect) at h in absurd (omega (arith, bad))
    | inl fresh ↦
        let zero_ : m.expected_version ≡ pos 0 = (eqb_ℤ_iff m.expected_version (pos 0)).0 fresh in
        rw (e, fresh, update_entity_effect)
          (saved-Moved s key code "studio.metadata.entities.create" clock _ m.expected_version
            (rw zero_ refl))
  ]
  | inr (current, e) ↦ elim (Bool-cases (eqb_ℤ current.version m.expected_version)) [
    | inr stale ↦ let bad = rw (e, stale, update_entity_effect) at h in absurd (omega (arith, bad))
    | inl fresh ↦
        let same : current.version ≡ m.expected_version =
          (eqb_ℤ_iff current.version m.expected_version).0 fresh in
        rw (e, fresh, update_entity_effect)
          (saved-Moved s key code "studio.metadata.entities.update" clock _ m.expected_version
            (rw (← same) (eqb_ℤ-incr current.version)))
  ]
]

mutate-free :
    (s : State) (key : String) (e : Effect)
    → lookup key s.idempotency ≡ none
    → mutate s key e ≡ settle s key e
unfolding mutate
mutate-free s key e free = rw (free, mutate)

Moved-refused :
    (s : State) (key code : String) (clock : Clock) (m : EntityUpdate)
    → lookup key s.idempotency ≡ none
    → Moved code m.expected_version s
    → mutate s key (update_entity_effect m clock code s)
      ≡ (s, refusal conflict "version_conflict" "Entity version changed")
unfolding mutate update_entity_effect
Moved-refused s key code clock m free (e, found, other) =
    rw (free, found, other, mutate, update_entity_effect)

-- No update is lost: after an update of an entity that was made under a new key and answered with
-- status 200, another update of that entity with the same expected version and another new key is
-- refused as a version conflict and changes nothing.
pub second_update_refused :
    (s : State) (key key' code : String) (clock clock' : Clock) (m m' : EntityUpdate)
    → lookup key s.idempotency ≡ none
    → (mutate s key (update_entity_effect m clock code s)).1.status ≡ 200
    → lookup key' (mutate s key (update_entity_effect m clock code s)).0.idempotency ≡ none
    → m'.expected_version ≡ m.expected_version
    → let t = (mutate s key (update_entity_effect m clock code s)).0 in
      mutate t key' (update_entity_effect m' clock' code t)
      ≡ (t, refusal conflict "version_conflict" "Entity version changed")
second_update_refused s key key' code clock clock' m m' free success free' same =
    let runs : mutate s key (update_entity_effect m clock code s)
        ≡ settle s key (update_entity_effect m clock code s) =
      mutate-free s key _ free in
    let moved = update-Moved s key code clock m (rw runs at success) in
    Moved-refused _ key' code clock' m' free' (rw (same, runs) moved)

contains-distinct : (rs : List String) (t : String) → contains (distinct rs) t ≡ contains rs t
unfolding distinct
contains-distinct [] t = refl
contains-distinct (r ∷ rs) t =
    ground (arith, contains-distinct rs t, contains-distinct rs r, eq_iff r t)

contains-without :
    (key : String) (rs : List String) (t : String)
    → contains (without key rs) t ≡ (if key == t then false else contains rs t)
unfolding without
contains-without key [] t = ground arith
contains-without key (r ∷ rs) t =
    ground (arith, contains-without key rs t, eq_iff r t, eq_iff key t, eq_iff r key)

-- The roles that an assignment or a revocation leaves are sorted; the role itself is among them
-- after an assignment and not after a revocation, and every other role is among them as before.
pub changed_roles_lem :
    (put : Bool) (key : String) (rs : List String)
    → IsSorted (changed_roles put key rs)
      × ((t : String)
          → contains (changed_roles put key rs) t ≡ (if key == t then put else contains rs t))
unfolding changed_roles
changed_roles_lem true key rs = (
  sort-IsSorted (distinct (key ∷ rs)),
  λ t. contains-sort (distinct (key ∷ rs)) t ∙ contains-distinct (key ∷ rs) t ∙ ground arith,
)
changed_roles_lem false key rs = (
  sort-IsSorted (without key (distinct rs)),
  λ t.
      contains-sort (without key (distinct rs)) t
      ∙ contains-without key (distinct rs) t
      ∙ ground (arith, contains-distinct rs t),
)
