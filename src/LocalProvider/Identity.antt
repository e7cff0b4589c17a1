-- ===== src/LocalProvider/Identity.antt =====
-- The user and role handlers of internal/localprovider/operations.go.
use jimu_studio.Base.{
  String, Bool, true, false, not, ◌||◌, ◌&&◌, Option, none, some, List, [], ◌∷◌, is_some, ◌==◌,
  ◌!=◌, if◌then◌else◌,
}
use jimu_studio.Base.Lists.{contains}
use jimu_studio.Base.Int.{pos, incr, eqb_ℤ}
use jimu_studio.Base.Text.{trim_prefix, split_slash, trim_slashes}
use jimu_studio.Base.Sort.{sort}
use jimu_studio.Base.Dict.{lookup, insert}
use jimu_studio.LocalProvider.State.{
  User, Role, number, word, user, role, users, roles, State, Request, Response, Clock,
}
use jimu_studio.LocalProvider.Mutation.{
  bad_request, conflict, refusal, Effect, refuse, commit, mutate, audit_record, limited,
  VersionedMutation, NewUser, StatusChange, NewRole, RoleUpdate, Decoders,
}
use jimu_studio.LocalProvider.Entities.{sorted_values}
pub use jimu_studio.Provider.Resources.{disable_user_confirmation}

abbrev pub role_prefix : String
role_prefix = "/studio/v1/identity/roles/"

unfoldable pub list_users : State → Response
list_users s = record { status = 200; body = users (sorted_values s.users) }

unfoldable pub list_roles : State → Response
list_roles s = record { status = 200; body = roles (sorted_values s.roles) }

-- `createUser` under the lock.
unfoldable pub create_user_effect : NewUser → Clock → State → Effect
create_user_effect m clock s =
    if is_some (lookup m.id s.users)
    then refuse conflict "user_exists" "User already exists"
    else (let u : User = record {
      id = m.id;
      display_name = m.display_name;
      email = m.email;
      status = "active";
      roles = [];
      version = pos 1;
    } in
        commit (record s { users = insert m.id u s.users }) (user u)
          (some (
            audit_record clock "studio.identity.users.create" m.id
              (("version", number (pos 1)) ∷ []))))

unfoldable pub create_user : Decoders → Clock → State → Request → State × Response
create_user json clock s r =
    let invalid = refusal bad_request "invalid_user" "Valid user required" in
    elim (limited json.new_user r.body) [
      | none ↦ (s, invalid)
      | some m ↦
          if m.id == "" || m.display_name == "" || m.idempotency_key == ""
          then (s, invalid)
          else mutate s m.idempotency_key (create_user_effect m clock s)
    ]

-- `setUserStatus` under the lock.
unfoldable pub set_status_effect : StatusChange → Clock → String → State → Effect
set_status_effect m clock id s =
    let changed = refuse conflict "version_conflict" "User version changed" in
    elim (lookup id s.users) [
      | none ↦ changed
      | some u ↦
          if eqb_ℤ u.version m.expected_version
          then (let u' : User = record u { status = m.status; version = incr u.version } in
              commit (record s { users = insert id u' s.users }) (user u')
                (some (
                  audit_record clock "studio.identity.users.status" id
                    (("status", word m.status) ∷ ("version", number u'.version) ∷ []))))
          else changed
    ]

-- The part at index 4 of a path of six parts.
abbrev pub user_part : List String → Option String
user_part (a ∷ b ∷ c ∷ d ∷ id ∷ e ∷ []) = some id
user_part _ = none

unfoldable pub set_user_status : Decoders → Clock → State → Request → State × Response
set_user_status json clock s r =
    let invalid = refusal bad_request "invalid_status" "Valid confirmed status required" in
    elim (limited json.status_change r.body) [
      | none ↦ (s, invalid)
      | some m ↦
          if m.idempotency_key == ""
            || m.confirmation != disable_user_confirmation
            || m.status != "active" && m.status != "disabled"
          then (s, invalid)
          else elim (user_part (split_slash (trim_slashes r.path))) [
            | none ↦ (s, refusal bad_request "invalid_path" "Valid user path required")
            | some id ↦ mutate s m.idempotency_key (set_status_effect m clock id s)
          ]
    ]

-- `createRole` under the lock.
unfoldable pub create_role_effect : NewRole → Clock → State → Effect
create_role_effect m clock s =
    if is_some (lookup m.key s.roles)
    then refuse conflict "role_exists" "Role already exists"
    else (let x : Role = record {
      key = m.key;
      display_name = m.display_name;
      system = false;
      version = pos 1;
    } in
        commit (record s { roles = insert m.key x s.roles }) (role x)
          (some (
            audit_record clock "studio.identity.roles.create" m.key
              (("version", number (pos 1)) ∷ []))))

unfoldable pub create_role : Decoders → Clock → State → Request → State × Response
create_role json clock s r =
    let invalid = refusal bad_request "invalid_role" "Valid role required" in
    elim (limited json.new_role r.body) [
      | none ↦ (s, invalid)
      | some m ↦
          if m.key == "" || m.display_name == "" || m.idempotency_key == ""
          then (s, invalid)
          else mutate s m.idempotency_key (create_role_effect m clock s)
    ]

-- `updateRole` under the lock.
unfoldable pub update_role_effect : RoleUpdate → Clock → String → State → Effect
update_role_effect m clock key s =
    let changed = refuse conflict "version_conflict" "Role version changed" in
    elim (lookup key s.roles) [
      | none ↦ changed
      | some x ↦
          if not (eqb_ℤ x.version m.expected_version)
          then changed
          else if x.system
          then refuse bad_request "system_role" "System roles are immutable"
          else (let x' : Role = record x {
            display_name = m.display_name;
            version = incr x.version;
          } in
              commit (record s { roles = insert key x' s.roles }) (role x')
                (some (
                  audit_record clock "studio.identity.roles.update" key
                    (("version", number x'.version) ∷ []))))
    ]

unfoldable pub update_role : Decoders → Clock → State → Request → State × Response
update_role json clock s r =
    let invalid = refusal bad_request "invalid_role" "Valid role update required" in
    elim (limited json.role_update r.body) [
      | none ↦ (s, invalid)
      | some m ↦
          if m.display_name == "" || m.idempotency_key == ""
          then (s, invalid)
          else mutate s m.idempotency_key
              (update_role_effect m clock (trim_prefix r.path role_prefix) s)
    ]

-- The keys of the map `roles`: each role once.
unfoldable pub distinct : List String → List String
distinct [] = []
distinct (r ∷ rs) = let rest = distinct rs in if contains rest r then rest else r ∷ rest

unfoldable pub without : String → List String → List String
without key [] = []
without key (r ∷ rs) = let rest = without key rs in if r == key then rest else r ∷ rest

-- The user's roles after an assignment (`PUT`) or a revocation.
unfoldable pub changed_roles : Bool → String → List String → List String
changed_roles true key rs = sort (distinct (key ∷ rs))
changed_roles false key rs = sort (without key (distinct rs))

-- `changeUserRole` under the lock.
unfoldable pub change_role_effect :
    VersionedMutation → Clock → Bool → String → String → State → Effect
change_role_effect m clock put id key s =
    let changed = refuse conflict "version_conflict" "User or role changed" in
    elim (lookup id s.users) [
      | none ↦ changed
      | some u ↦
          if not (is_some (lookup key s.roles)) || not (eqb_ℤ u.version m.expected_version)
          then changed
          else (let u' : User = record u {
            roles = changed_roles put key u.roles;
            version = incr u.version;
          } in
              commit (record s { users = insert id u' s.users }) (user u')
                (some (
                  audit_record clock
                    (if put then "studio.identity.roles.assign" else "studio.identity.roles.revoke")
                    id (("role", word key) ∷ ("version", number u'.version) ∷ []))))
    ]

-- The parts at the indices 4 and 6 of a path of seven parts.
abbrev pub assignment_parts : List String → Option (String × String)
assignment_parts (a ∷ b ∷ c ∷ d ∷ id ∷ e ∷ key ∷ []) = some (id, key)
assignment_parts _ = none

unfoldable pub change_user_role : Decoders → Clock → State → Request → State × Response
change_user_role json clock s r =
    let invalid = refusal bad_request "invalid_assignment" "Valid role assignment required" in
    elim (limited json.versioned r.body) [
      | none ↦ (s, invalid)
      | some m ↦
          if m.idempotency_key == ""
          then (s, invalid)
          else elim (assignment_parts (split_slash (trim_slashes r.path))) [
            | none ↦ (s, refusal bad_request "invalid_path" "Valid role assignment path required")
            | some (id, key) ↦
                mutate s m.idempotency_key (change_role_effect m clock (r.method == "PUT") id key s)
          ]
    ]
