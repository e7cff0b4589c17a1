-- ===== src/LocalProvider/State.antt =====
-- The data of internal/localprovider and of the provider types it stores (internal/provider), the
-- persistent state, and what a request brings.
use jimu_studio.Base.{ℕ, String, Bool, true, false, List, [], ◌∷◌}
use jimu_studio.Base.Int.{ℤ, pos}
use jimu_studio.Base.Dict.{Dict}
pub use jimu_studio.Provider.Types.{
  Field, Entity, User, Role, WorkflowRun, WorkflowTask, QuotaPlan, DeletionPlan, DeletionReceipt,
}

-- A value of an audit record's details.
pub data Detail : Type 0 where
  number : ℤ → Detail
  word : String → Detail

-- An audit record, which the state holds as an `any`: read back from the database it is the object with
-- these members, its numbers (versions) as far as a float64 holds them.
pub record Audit : Type 0 where
  pub id : String
  pub actor_user_id : String
  pub action : String
  pub target_type : String
  pub target_id : String
  pub occurred_at : String
  pub details : Dict Detail

-- What is written as JSON: a failure with its code and message, one resource, or a list of items.
-- `usage` and `discrepancies` are the fixed sample lists, and `migration_plan` says whether the plan
-- requires a confirmation. `read_back` is a value that encoding/json has read into an `any`, by its
-- JSON text.
pub data Body : Type 0 where
  failure : String → String → Body
  health : String → Body
  entity : Entity → Body
  user : User → Body
  role : Role → Body
  run : WorkflowRun → Body
  plan : QuotaPlan → Body
  deletion_plan : DeletionPlan → Body
  receipt : DeletionReceipt → Body
  entities : List Entity → Body
  users : List User → Body
  roles : List Role → Body
  runs : List WorkflowRun → Body
  tasks : List WorkflowTask → Body
  plans : List QuotaPlan → Body
  audits : List Audit → Body
  usage : Body
  discrepancies : Body
  migration_plan : Bool → Body
  read_back : String → Body

-- `Value any`: within the request that puts it in the map it is the Go value, and once the state has
-- been read from the database it is what encoding/json makes of its JSON.
pub record CachedMutation : Type 0 where
  pub status : ℕ
  pub value : Body

-- `persistentState`, which `loadState` copies into the handler and `snapshotState` out of it; a nil
-- map is the empty one.
pub record State : Type 0 where
  pub entities : Dict Entity
  pub idempotency : Dict CachedMutation
  pub audits : List Audit
  pub users : Dict User
  pub roles : Dict Role
  pub run : WorkflowRun
  pub task : WorkflowTask
  pub plan : QuotaPlan

pub record Request : Type 0 where
  pub method : String
  pub path : String
  pub authorization : String
  pub body : String

pub record Response : Type 0 where
  pub status : ℕ
  pub body : Body

-- The texts that `time.Now()` gives in one request: the stamp in an audit's identifier, the time of
-- the audit and the time that the resource gets.
pub record Clock : Type 0 where
  pub stamp : String
  pub audited_at : String
  pub changed_at : String

abbrev pub sample_time : String
sample_time = "2026-07-19T00:00:00Z"

abbrev pub sample_role_keys : List String
sample_role_keys =
    "identity.admin" ∷ "studio.audit.read" ∷ "studio.metadata.apply" ∷ "studio.metadata.read"
    ∷ "studio.metadata.write" ∷ "studio.quota.admin" ∷ "studio.quota.read"
    ∷ "studio.workflow.operate" ∷ "studio.workflow.read" ∷ []

abbrev system_roles : List String → Dict Role
system_roles [] = []
system_roles (key ∷ keys) =
    (key, record { key = key; display_name = key; system = true; version = pos 1 })
    ∷ system_roles keys

unfoldable pub initial_state : State
initial_state = record {
  entities =
      (
        "orders",
        record {
          code = "orders";
          name = "Orders";
          kind = "standard";
          version = pos 1;
          fields =
              record { code = "id"; data_type = "uuid"; required = true; read_only = true }
              ∷ record { code = "status"; data_type = "string"; required = true; read_only = false }
              ∷ [];
        },
      )
      ∷ [];
  idempotency = [];
  audits =
      record {
        id = "audit-001";
        actor_user_id = "local-admin";
        action = "studio.login";
        target_type = "session";
        target_id = "local-session";
        occurred_at = sample_time;
        details = ("environment", word "local") ∷ [];
      }
      ∷ [];
  users =
      (
        "local-admin",
        record {
          id = "local-admin";
          display_name = "Local Studio Administrator";
          email = "admin@example.com";
          status = "active";
          roles = sample_role_keys;
          version = pos 1;
        },
      )
      ∷ [];
  roles = system_roles sample_role_keys;
  run = record {
    id = "run-001";
    workflow = "local-order-processing";
    state = "running";
    version = pos 1;
    created_at = sample_time;
    updated_at = sample_time;
    lease_state = "active";
    lease_expires_at = sample_time;
    next_wake_at = "";
  };
  task = record {
    id = "task-001";
    run_id = "run-001";
    code = "validate-order";
    state = "running";
    attempt = pos 1;
    version = pos 1;
    next_attempt_at = "";
    error_code = "";
    lease_state = "active";
    lease_expires_at = sample_time;
    recovery_state = "none";
  };
  plan = record {
    code = "local-default";
    version = pos 1;
    effective_at = sample_time;
    window_seconds = pos 60;
    limits = "{\"requests\":1000}";
  };
}
