-- ===== src/LocalProvider/Mutation.antt =====
-- How the mutations of internal/localprovider end: `writeCachedLocked`, `cacheAndAuditLocked`,
-- `appendAuditLocked`, and the decoding of bodies (server.go, operations.go).
use Prim.Native.String.{slice, ◌++◌ as ◌+++◌}
use jimu_studio.Base.{ℕ, ◌*◌, String, Option, none, some, List, [], ◌∷◌, ◌++◌}
use jimu_studio.Base.Int.{ℤ}
use jimu_studio.Base.Dict.{Dict, lookup, insert}
use jimu_studio.LocalProvider.State.{
  Detail, Audit, Body, failure, State, Response, Clock, Entity, QuotaPlan,
}

-- The refusals' statuses.
pub data Failure : Type 0 where
  bad_request not_found conflict : Failure

abbrev pub code_of : Failure → ℕ
code_of bad_request = 400
code_of not_found = 404
code_of conflict = 409

abbrev pub refusal : Failure → String → String → Response
refusal f code message = record { status = code_of f; body = failure code message }

-- What a mutation does once its key is found unused: it is refused, or it gives a new state, a
-- result and mostly an audit record.
pub data Effect : Type 0 where
  refuse : Failure → String → String → Effect
  commit : State → Body → Option Audit → Effect

abbrev pub recorded : Option Audit → List Audit
recorded none = []
recorded (some a) = a ∷ []

-- The result is kept under the key, and the audit record is appended.
abbrev pub settle : State → String → Effect → State × Response
settle s key (refuse f code message) = (s, refusal f code message)
settle s key (commit t body audit) = (
  record t {
    idempotency = insert key (record { status = 200; value = body }) t.idempotency;
    audits = t.audits ++ recorded audit;
  },
  record { status = 200; body = body },
)

-- A mutation under its key: a kept result is written again, before any other test.
unfoldable pub mutate : State → String → Effect → State × Response
mutate s key e = elim (lookup key s.idempotency) [
  | some cached ↦ (s, record { status = cached.status; body = cached.value })
  | none ↦ settle s key e
]

-- `appendAuditLocked`.
unfoldable pub audit_record : Clock → String → String → Dict Detail → Audit
audit_record clock action target details = record {
  id = ◌+++◌ "audit-local-" clock.stamp;
  actor_user_id = "local-admin";
  action = action;
  target_type = "metadata_entity";
  target_id = target;
  occurred_at = clock.audited_at;
  details = details;
}

-- `http.MaxBytesReader`: a decoder sees the first 64 KiB of a body.
abbrev pub limited {ℓ} : {A : Type ℓ} → (String → Option A) → String → Option A
limited decode body = decode (slice body 0 (64 * 1024))

pub record EntityUpdate : Type 0 where
  pub entity : Entity
  pub expected_version : ℤ
  pub idempotency_key : String

-- `versionedMutation` and `deletionMutation`.
pub record VersionedMutation : Type 0 where
  pub confirmation : String
  pub expected_version : ℤ
  pub idempotency_key : String

pub record NewUser : Type 0 where
  pub display_name : String
  pub email : String
  pub id : String
  pub idempotency_key : String

pub record StatusChange : Type 0 where
  pub mutation : VersionedMutation
  pub open mutation use *
  pub status : String

pub record NewRole : Type 0 where
  pub display_name : String
  pub idempotency_key : String
  pub key : String

pub record RoleUpdate : Type 0 where
  pub mutation : VersionedMutation
  pub open mutation use *
  pub display_name : String

pub record PlanChange : Type 0 where
  pub mutation : VersionedMutation
  pub open mutation use *
  pub plan : QuotaPlan

-- encoding/json: the first value of a text as a struct, or an error.
pub record Decoders : Type 0 where
  pub entity_update : String → Option EntityUpdate
  pub versioned : String → Option VersionedMutation
  pub new_user : String → Option NewUser
  pub status_change : String → Option StatusChange
  pub new_role : String → Option NewRole
  pub role_update : String → Option RoleUpdate
  pub plan_change : String → Option PlanChange
