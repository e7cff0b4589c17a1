-- ===== src/LocalProvider/Laws/Resources.antt =====
-- internal/localprovider/operations.go: what a request may do to users and roles.
use jimu_studio.Base.{
  String, Bool, true, false, not, ◌||◌, some, is_some, ◌≡◌, ◌⊎◌, refl, ap, ◌∙◌, arith, inl, inr,
  Option-cases, Bool-cases, ◌==◌, eq_iff,
}
use jimu_studio.Base.Int.{pos, incr, eqb_ℤ}
use jimu_studio.Base.Dict.{Dict, lookup, insert, lookup-insert}
use jimu_studio.LocalProvider.State.{User, Role, State, Request, Clock}
use jimu_studio.LocalProvider.Mutation.{
  Effect, refuse, commit, settle, mutate, Decoders, NewUser, StatusChange, VersionedMutation,
}
use jimu_studio.LocalProvider.Entities.{
  update_entity_effect, plan_deletion_effect, delete_entity_effect,
}
use jimu_studio.LocalProvider.Identity.{
  create_user_effect, set_status_effect, create_role_effect, update_role_effect, change_role_effect,
}
use jimu_studio.LocalProvider.Workflow.{retry_effect, cancel_effect, publish_effect}
use jimu_studio.LocalProvider.Routes.{route, serve_loaded}
use jimu_studio.LocalProvider.Laws.Conduct.{
  Change, entity_updated, deletion_planned, entity_deleted, user_created, status_set, role_created,
  role_updated, user_role_changed, workflow_changed, plan_published, effect_of, Conduct, refuses,
  changes, conducted,
}
use jimu_studio.LocalProvider.Laws.Cases.{reads, conducts, handle-Handles}

-- What an effect leaves when it is committed.
abbrev pub Leaves : (Dict User → Dict Role → Type 0) → Effect → Type 0
Leaves P (refuse f code message) = Unit {0}
Leaves P (commit t body audit) = P t.users t.roles

module _ (P : Dict User → Dict Role → Type 0) (clock : Clock) (s : State)
    (before : P s.users s.roles) where
  settle-Leaves :
      (key : String) (e : Effect) → Leaves P e → P (settle s key e).0.users (settle s key e).0.roles
  settle-Leaves key (refuse f code message) left = before
  settle-Leaves key (commit t body audit) left = left

  mutate-Leaves :
      (key : String) (e : Effect) → Leaves P e → P (mutate s key e).0.users (mutate s key e).0.roles
  unfolding mutate
  mutate-Leaves key e left = elim (Option-cases (lookup key s.idempotency)) [
    | inr (c, found) ↦ rw (found, mutate) before
    | inl free ↦ rw (free, mutate) (settle-Leaves key e left)
  ]

  module _ (each : (c : Change) → Leaves P (effect_of clock c s)) where
    conducted-Leaves : (c : Conduct) → P (conducted c clock s).0.users (conducted c clock s).0.roles
    conducted-Leaves (refuses f code message) = before
    conducted-Leaves (changes key c) = mutate-Leaves key (effect_of clock c s) (each c)

    -- What every effect leaves of the users and roles holds after any request.
    pub serve_loaded-Leaves :
        (json : Decoders) (r : Request)
        → P (serve_loaded json clock s r).0.users (serve_loaded json clock s r).0.roles
    unfolding serve_loaded
    serve_loaded-Leaves json r = elim (handle-Handles json (route r.method r.path) r) [
      | reads show same ↦ rw (same clock s) before
      | conducts (c, same) ↦ rw (same clock s) (conducted-Leaves c)
    ]

-- A role that stands under a key, after a change.
abbrev RoleStands : String → Role → Dict User → Dict Role → Type 0
RoleStands key x us rs = lookup key rs ≡ some x

effect_of-RoleStands :
    (key : String) (x : Role) (clock : Clock) (s : State)
    → lookup key s.roles ≡ some x
    → x.system ≡ true
    → (c : Change) → Leaves (RoleStands key x) (effect_of clock c s)
unfolding update_entity_effect plan_deletion_effect delete_entity_effect create_user_effect
    set_status_effect create_role_effect update_role_effect change_role_effect retry_effect
    cancel_effect publish_effect
effect_of-RoleStands key x clock s found system (entity_updated m code) = ground arith
effect_of-RoleStands key x clock s found system (deletion_planned m code) = ground arith
effect_of-RoleStands key x clock s found system (entity_deleted m code) = ground arith
effect_of-RoleStands key x clock s found system (user_created m) = ground arith
effect_of-RoleStands key x clock s found system (status_set m id) = ground arith
effect_of-RoleStands key x clock s found system (role_created m) = ground (
  arith,
  lookup-insert m.key key
      (record { key = m.key; display_name = m.display_name; system = false; version = pos 1 })
      s.roles,
  eq_iff m.key key,
)
effect_of-RoleStands key x clock s found system (role_updated m k) =
    elim (Option-cases (lookup k s.roles)) [
      | inl e ↦ ground (arith, e)
      | inr (y, e) ↦ ground (
        arith,
        e,
        lookup-insert k key (record y { display_name = m.display_name; version = incr y.version })
            s.roles,
        eq_iff k key,
      )
    ]
effect_of-RoleStands key x clock s found system (user_role_changed m put id k) = ground arith
effect_of-RoleStands key x clock s found system (workflow_changed m retry) = ground arith
effect_of-RoleStands key x clock s found system (plan_published m) = ground arith

-- System roles are immutable: a system role stands unchanged under its key after any request.
pub system_role_stands :
    (json : Decoders) (clock : Clock) (s : State) (r : Request) (key : String) (x : Role)
    → lookup key s.roles ≡ some x
    → x.system ≡ true
    → lookup key (serve_loaded json clock s r).0.roles ≡ some x
system_role_stands json clock s r key x found system =
    serve_loaded-Leaves (RoleStands key x) clock s found
      (effect_of-RoleStands key x clock s found system) json r

-- A user as it was, or its next version with the same name and address.
abbrev pub IsSuccessor : User → User → Type 0
IsSuccessor u u' =
    (u' ≡ u)
    ⊎ ((u'.version ≡ incr u.version)
        × (u'.id ≡ u.id)
        × (u'.display_name ≡ u.display_name)
        × (u'.email ≡ u.email))

abbrev UserStands : String → User → Dict User → Dict Role → Type 0
UserStands id u us rs = (u' : User) × (lookup id us ≡ some u') × IsSuccessor u u'

-- A commit that writes one user leaves every user or its successor.
insert-UserStands :
    (id : String) (u : User) (k : String) (u' : User) (us : Dict User) (rs : Dict Role)
    → lookup id us ≡ some u
    → ((v : User) → lookup k us ≡ some v → IsSuccessor v u')
    → is_some (lookup k us) ≡ true
    → UserStands id u (insert k u' us) rs
insert-UserStands id u k u' us rs found next given = elim (Bool-cases (k == id)) [
  | inl same ↦
      let e : k ≡ id = (eq_iff k id).0 same in
      (u', rw (lookup-insert k id u' us, same), next u (rw e found))
  | inr other ↦ (u, rw (lookup-insert k id u' us, other) found, inl refl)
]

-- What does not touch the users leaves each as it was.
stays-UserStands :
    (id : String) (u : User) (s : State) (e : Effect)
    → lookup id s.users ≡ some u
    → Leaves (λ us rs. us ≡ s.users) e
    → Leaves (UserStands id u) e
stays-UserStands id u s (refuse f code message) found same = same
stays-UserStands id u s (commit t body audit) found same =
    (u, ap (lookup id) same ∙ found, inl refl)

created-UserStands :
    (id : String) (u : User) (clock : Clock) (s : State) (m : NewUser)
    → lookup id s.users ≡ some u
    → Leaves (UserStands id u) (create_user_effect m clock s)
unfolding create_user_effect
created-UserStands id u clock s m found = elim (Option-cases (lookup m.id s.users)) [
  | inr (v, e) ↦ rw (e, create_user_effect) tt
  | inl e ↦
      let other : (m.id == id) ≡ false = ground (arith, eq_iff m.id id, e, found) in
      rw (e, create_user_effect) (u, rw (lookup-insert, other) found, inl refl)
]

status-UserStands :
    (id : String) (u : User) (clock : Clock) (s : State) (m : StatusChange) (k : String)
    → lookup id s.users ≡ some u
    → Leaves (UserStands id u) (set_status_effect m clock k s)
unfolding set_status_effect
status-UserStands id u clock s m k found = elim (Option-cases (lookup k s.users)) [
  | inl e ↦ rw (e, set_status_effect) tt
  | inr (v, e) ↦ elim (Bool-cases (eqb_ℤ v.version m.expected_version)) [
    | inr stale ↦ rw (e, stale, set_status_effect) tt
    | inl fresh ↦
        rw (e, fresh, set_status_effect)
          (insert-UserStands id u k _ s.users s.roles found (λ w f. ground (arith, e, f))
            (rw e refl))
  ]
]

roles-UserStands :
    (id : String) (u : User) (clock : Clock) (s : State) (m : VersionedMutation) (put : Bool)
    (k key : String)
    → lookup id s.users ≡ some u
    → Leaves (UserStands id u) (change_role_effect m clock put k key s)
unfolding change_role_effect
roles-UserStands id u clock s m put k key found = elim (Option-cases (lookup k s.users)) [
  | inl e ↦ rw (e, change_role_effect) tt
  | inr (v, e) ↦
      elim (Bool-cases
        (not (is_some (lookup key s.roles)) || not (eqb_ℤ v.version m.expected_version))) [
          | inl stale ↦ rw (e, stale, change_role_effect) tt
          | inr fresh ↦
              rw (e, fresh, change_role_effect)
                (insert-UserStands id u k _ s.users s.roles found (λ w f. ground (arith, e, f))
                  (rw e refl))
        ]
]

effect_of-UserStands :
    (id : String) (u : User) (clock : Clock) (s : State)
    → lookup id s.users ≡ some u
    → (c : Change) → Leaves (UserStands id u) (effect_of clock c s)
unfolding update_entity_effect plan_deletion_effect delete_entity_effect create_role_effect
    update_role_effect retry_effect cancel_effect publish_effect
effect_of-UserStands id u clock s found (entity_updated m code) =
    stays-UserStands id u s _ found (ground arith)
effect_of-UserStands id u clock s found (deletion_planned m code) =
    stays-UserStands id u s _ found (ground arith)
effect_of-UserStands id u clock s found (entity_deleted m code) =
    stays-UserStands id u s _ found (ground arith)
effect_of-UserStands id u clock s found (user_created m) = created-UserStands id u clock s m found
effect_of-UserStands id u clock s found (status_set m k) = status-UserStands id u clock s m k found
effect_of-UserStands id u clock s found (role_created m) =
    stays-UserStands id u s _ found (ground arith)
effect_of-UserStands id u clock s found (role_updated m k) =
    stays-UserStands id u s _ found (ground arith)
effect_of-UserStands id u clock s found (user_role_changed m put k key) =
    roles-UserStands id u clock s m put k key found
effect_of-UserStands id u clock s found (workflow_changed m retry) =
    stays-UserStands id u s _ found (ground arith)
effect_of-UserStands id u clock s found (plan_published m) =
    stays-UserStands id u s _ found (ground arith)

-- No request removes a user: after any request a user stands under its identifier, either as it
-- was or, with the same identifier, name and address, at its next version.
pub user_stands :
    (json : Decoders) (clock : Clock) (s : State) (r : Request) (id : String) (u : User)
    → lookup id s.users ≡ some u
    → (u' : User) × (lookup id (serve_loaded json clock s r).0.users ≡ some u') × IsSuccessor u u'
user_stands json clock s r id u found =
    serve_loaded-Leaves (UserStands id u) clock s (u, found, inl refl)
      (effect_of-UserStands id u clock s found) json r
