-- ===== src/LocalProvider/Tests.antt =====
-- internal/localprovider on its initial state: mutations, their repetition and the row they leave.
mod Replayed
use jimu_studio.Base.{
  String, true, false, none, some, List, [], ◌∷◌, ◌≡◌, ◌≢◌, ◌<◌, refl, arith, ◌==◌, if◌then◌else◌,
}
use jimu_studio.Base.Int.{pos, incr}
use jimu_studio.Base.Lists.{contains}
use jimu_studio.Base.Sort.{IsSorted, sort}
use jimu_studio.Base.Dict.{lookup, insert, delete}
use jimu_studio.LocalProvider.State.{User, Role, State, Request, Response, Clock, initial_state}
use jimu_studio.LocalProvider.Mutation.{
  conflict, refusal, mutate, audit_record, EntityUpdate, Decoders,
}
use jimu_studio.LocalProvider.Entities.{
  update_entity_effect, delete_entity, delete_entity_effect, decode_deletion,
}
use jimu_studio.LocalProvider.Identity.{changed_roles, distinct, without}
use jimu_studio.LocalProvider.Routes.{route, handle, serve_loaded}
use jimu_studio.LocalProvider.Storage.{Row, Storage, serve, may_drop_schema}
use jimu_studio.LocalProvider.Laws.Replay.{serve_loaded-unchanged}
use jimu_studio.LocalProvider.Laws.Repeat.{is_mutation, replay_later}
use jimu_studio.LocalProvider.Laws.Resources.{system_role_stands, user_stands, IsSuccessor}
use jimu_studio.LocalProvider.Laws.Concurrency.{second_update_refused, changed_roles_lem}
use jimu_studio.LocalProvider.Laws.Persistence.{IsAtomic, serve-IsAtomic}

abbrev pub clock : Clock
clock = record { stamp = "1"; audited_at = "10:00"; changed_at = "10:01" }

-- A decoder that finds one mutation in every body, and nothing else.
abbrev pub json : Decoders
json = record {
  entity_update = λ body. none;
  versioned = λ body.
      some (record {
        confirmation = "DELETE_ENTITY";
        expected_version = pos 1;
        idempotency_key = body;
      });
  new_user = λ body. none;
  status_change = λ body. none;
  new_role = λ body. none;
  role_update = λ body. none;
  plan_change = λ body. none;
}

abbrev pub delete_orders : Request
delete_orders = record {
  method = "DELETE";
  path = "/studio/v1/metadata/entities/orders";
  authorization = "Bearer t";
  body = "key-1";
}

abbrev pub nowhere : Request
nowhere = record { method = "GET"; path = "/nowhere"; authorization = "Bearer t"; body = "" }

nowhere-fails : (serve_loaded json clock initial_state nowhere).1.status ≢ 200
unfolding serve_loaded handle route
nowhere-fails = ground arith

serve_loaded-unchanged_example : (serve_loaded json clock initial_state nowhere).0 ≡ initial_state
serve_loaded-unchanged_example =
    serve_loaded-unchanged json clock initial_state nowhere nowhere-fails

abbrev admin_role : Role
admin_role = record {
  key = "identity.admin";
  display_name = "identity.admin";
  system = true;
  version = pos 1;
}

lookup-admin_role : lookup "identity.admin" initial_state.roles ≡ some admin_role
unfolding initial_state lookup
lookup-admin_role = refl

system_role_stands_example :
    lookup "identity.admin" (serve_loaded json clock initial_state delete_orders).0.roles
    ≡ some admin_role
system_role_stands_example =
    system_role_stands json clock initial_state delete_orders "identity.admin" admin_role
      lookup-admin_role refl

abbrev plain : State
plain = record initial_state {
  users =
      (
        "u",
        record {
          id = "u";
          display_name = "U";
          email = "u@example.com";
          status = "active";
          roles = [];
          version = pos 1;
        },
      )
      ∷ [];
}

abbrev user_u : User
user_u = record {
  id = "u";
  display_name = "U";
  email = "u@example.com";
  status = "active";
  roles = [];
  version = pos 1;
}

lookup-user_u : lookup "u" plain.users ≡ some user_u
unfolding lookup
lookup-user_u = refl

user_stands_example :
    (u : User) × (lookup "u" (serve_loaded json clock plain delete_orders).0.users ≡ some u)
    × IsSuccessor user_u u
user_stands_example = user_stands json clock plain delete_orders "u" user_u lookup-user_u

abbrev edit : String → EntityUpdate
edit name = record {
  entity = record { code = "orders"; name = name; kind = "standard"; version = pos 0; fields = [] };
  expected_version = pos 1;
  idempotency_key = name;
}

abbrev edited : State × Response
edited = mutate initial_state "a" (update_entity_effect (edit "a") clock "orders" initial_state)

edit-free : lookup "a" initial_state.idempotency ≡ none
unfolding initial_state lookup
edit-free = refl

edit-succeeds : edited.1.status ≡ 200
unfolding mutate update_entity_effect initial_state lookup insert audit_record incr
edit-succeeds = refl

edit-free_again : lookup "b" edited.0.idempotency ≡ none
unfolding mutate update_entity_effect initial_state lookup insert audit_record incr
edit-free_again = refl

second_update_refused_example :
    mutate edited.0 "b" (update_entity_effect (edit "b") clock "orders" edited.0)
    ≡ (edited.0, refusal conflict "version_conflict" "Entity version changed")
second_update_refused_example =
    second_update_refused initial_state "a" "b" "orders" clock clock (edit "a") (edit "b") edit-free
      edit-succeeds edit-free_again refl

abbrev some_roles : List String
some_roles = "b" ∷ "a" ∷ []

changed_roles_lem_example :
    IsSorted (changed_roles true "c" some_roles)
    × ((t : String)
        → contains (changed_roles true "c" some_roles) t
          ≡ (if "c" == t then true else contains some_roles t))
changed_roles_lem_example = changed_roles_lem true "c" some_roles

revoked : changed_roles false "a" some_roles ≡ ("b" ∷ [])
unfolding changed_roles distinct without sort
revoked = refl

-- A database whose one payload is the initial state.
abbrev working : Storage
working = record {
  marshal = λ s. some "next";
  unmarshal = λ payload. some initial_state;
  pings = true;
  begins = true;
  loads = true;
  saves = true;
  commits = true;
}

abbrev row : Row
row = record { payload = "first"; revision = 4 }

serve-IsAtomic_example :
    IsAtomic working json clock row delete_orders (serve working json clock row delete_orders)
serve-IsAtomic_example = serve-IsAtomic working json clock row delete_orders

droppable : may_drop_schema "jimu_studio_e2e_1" ≡ true
unfolding may_drop_schema
droppable = refl

kept_schema : may_drop_schema "public" ≡ false
unfolding may_drop_schema
kept_schema = refl
