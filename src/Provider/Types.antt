-- ===== src/Provider/Types.antt =====
-- The data of internal/provider: the resources of the Studio contract, and what a query brings.
use jimu_studio.Base.{String, Bool, List}
use jimu_studio.Base.Int.{ℤ}

pub record Field : Type 0 where
  pub code : String
  pub data_type : String
  pub required : Bool
  pub read_only : Bool

pub record Entity : Type 0 where
  pub code : String
  pub name : String
  pub kind : String
  pub version : ℤ
  pub fields : List Field

pub record User : Type 0 where
  pub id : String
  pub display_name : String
  pub email : String
  pub status : String
  pub roles : List String
  pub version : ℤ

pub record Role : Type 0 where
  pub key : String
  pub display_name : String
  pub system : Bool
  pub version : ℤ

pub record WorkflowRun : Type 0 where
  pub id : String
  pub workflow : String
  pub state : String
  pub version : ℤ
  pub created_at : String
  pub updated_at : String
  pub lease_state : String
  pub lease_expires_at : String
  pub next_wake_at : String

pub record WorkflowTask : Type 0 where
  pub id : String
  pub run_id : String
  pub code : String
  pub state : String
  pub attempt : ℤ
  pub version : ℤ
  pub next_attempt_at : String
  pub error_code : String
  pub lease_state : String
  pub lease_expires_at : String
  pub recovery_state : String

-- `limits` is the JSON text of the map.
pub record QuotaPlan : Type 0 where
  pub code : String
  pub version : ℤ
  pub effective_at : String
  pub window_seconds : ℤ
  pub limits : String

pub record DeletionPlan : Type 0 where
  pub code : String
  pub expected_version : ℤ
  pub deletable : Bool
  pub dependencies : List String
  pub impact_summary : String

pub record DeletionReceipt : Type 0 where
  pub code : String
  pub deleted_version : ℤ
  pub deleted_at : String

pub record UsageRecord : Type 0 where
  pub route : String
  pub unit : String
  pub quantity : ℤ
  pub occurred_at : String
  pub plan_code : String
  pub plan_version : ℤ

pub record QuotaDiscrepancy : Type 0 where
  pub id : String
  pub route : String
  pub unit : String
  pub from : String
  pub until : String
  pub enforcement_total : ℤ
  pub ledger_total : ℤ
  pub plan_code : String
  pub plan_version : ℤ

-- `details` is the JSON text of the map.
pub record AuditRecord : Type 0 where
  pub id : String
  pub actor_user_id : String
  pub action : String
  pub target_type : String
  pub target_id : String
  pub occurred_at : String
  pub details : String
  pub redacted_paths : List String

pub record MigrationPlan : Type 0 where
  pub entity_code : String
  pub plan_code : String
  pub risk : String
  pub summary : String
  pub requires_confirmation : Bool

-- The pages of all resources, which differ in the type of their items only.
pub record Page {ℓ} (A : Type ℓ) : Type ℓ where
  pub items : List A
  pub next_cursor : String

-- `EntityQuery`, `IdentityQuery` and `OperationsQuery`.
pub record Query : Type 0 where
  pub cursor : String
  pub limit : ℤ
  pub search : String

pub record ApiError : Type 0 where
  pub status : ℤ
  pub code : String
  pub message : String
  pub request_id : String

-- `plain` is an error that is no `APIError`, with its text.
pub data ProviderError : Type 0 where
  api : ApiError → ProviderError
  plain : String → ProviderError
