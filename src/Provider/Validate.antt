-- ===== src/Provider/Validate.antt =====
-- The validators of internal/provider: each gives the text of its error, or none.
use jimu_studio.Base.{
  ℕ, String, len, Bool, true, false, not, ◌||◌, ◌&&◌, Option, none, some, List, [], ◌∷◌, leb, ltb,
  ◌==◌, ◌!=◌, if◌then◌else◌,
}
use jimu_studio.Base.Lists.{length, all}
use jimu_studio.Base.Int.{ℤ, pos, eqb_ℤ, ltb_ℤ}
use jimu_studio.Provider.Types.{
  Field, Entity, User, Role, WorkflowRun, WorkflowTask, QuotaPlan, UsageRecord, QuotaDiscrepancy,
  AuditRecord, MigrationPlan, DeletionPlan,
}
use jimu_studio.Provider.Text.{has_control, safe_path_value, bounded_text, one_of}

-- The error, unless the value is good.
abbrev pub error_unless : Bool → String → Option String
error_unless good text = if good then none else some text

abbrev pub is_negative : ℤ → Bool
is_negative n = ltb_ℤ n (pos 0)

unfoldable pub is_field : Field → Bool
unfolding safe_path_value has_control
is_field f =
    safe_path_value f.code 256
    && not (f.data_type == "")
    && leb (len f.data_type) 256
    && not (has_control f.data_type)

unfoldable pub is_entity_head : Entity → Bool
unfolding safe_path_value has_control
is_entity_head e =
    safe_path_value e.code 256
    && not (e.name == "")
    && leb (len e.name) 512
    && not (has_control e.name)
    && leb (len e.kind) 128
    && not (has_control e.kind)
    && not (is_negative e.version)
    && leb (length e.fields) 200

unfoldable pub validate_entity : Entity → Option String
unfolding is_entity_head is_field
validate_entity e =
    if not (is_entity_head e)
    then some "entity exceeds Studio contract safety bounds"
    else error_unless (all is_field e.fields) "field exceeds Studio contract safety bounds"

unfoldable pub validate_user : User → Option String
unfolding safe_path_value bounded_text has_control
validate_user u =
    if not (
      safe_path_value u.id 256
      && bounded_text u.display_name 512
      && leb (len u.email) 512
      && not (has_control u.email)
      && (u.status == "active" || u.status == "disabled")
      && not (is_negative u.version)
      && leb (length u.roles) 200)
    then some "user exceeds bounds"
    else error_unless (all (λ role. safe_path_value role 256) u.roles) "user role exceeds bounds"

unfoldable pub validate_role : Role → Option String
unfolding safe_path_value bounded_text
validate_role r =
    error_unless
      (safe_path_value r.key 256 && bounded_text r.display_name 512 && not (is_negative r.version))
      "role exceeds bounds"

-- `validTime`; `parses_time` is `time.Parse` with RFC 3339.
unfoldable pub valid_time : (String → Bool) → String → Bool → Bool
valid_time parses_time value optional = if value == "" then optional else parses_time value

abbrev pub lease_states : List String
lease_states = "none" ∷ "active" ∷ "expired" ∷ []

abbrev pub task_states : List String
task_states =
    "pending" ∷ "running" ∷ "succeeded" ∷ "retry_waiting" ∷ "failed" ∷ "compensating"
    ∷ "compensated" ∷ "compensation_failed" ∷ []

abbrev pub recovery_states : List String
recovery_states = "none" ∷ "retry_waiting" ∷ "lease_expired" ∷ []

unfoldable pub validate_run : (String → Bool) → WorkflowRun → Option String
unfolding safe_path_value bounded_text valid_time one_of
validate_run parses_time v =
    error_unless
      (safe_path_value v.id 256
        && bounded_text v.workflow 256
        && bounded_text v.state 64
        && not (is_negative v.version)
        && valid_time parses_time v.created_at false
        && valid_time parses_time v.updated_at false
        && one_of v.lease_state lease_states
        && valid_time parses_time v.lease_expires_at true
        && valid_time parses_time v.next_wake_at true)
      "workflow run exceeds bounds"

unfoldable pub validate_task : (String → Bool) → String → WorkflowTask → Option String
unfolding safe_path_value bounded_text has_control valid_time one_of
validate_task parses_time run_id v =
    error_unless
      (safe_path_value v.id 256
        && v.run_id == run_id
        && safe_path_value v.run_id 256
        && bounded_text v.code 256
        && not (is_negative v.attempt)
        && not (is_negative v.version)
        && one_of v.state task_states
        && one_of v.lease_state lease_states
        && one_of v.recovery_state recovery_states
        && leb (len v.error_code) 256
        && not (has_control v.error_code)
        && valid_time parses_time v.next_attempt_at true
        && valid_time parses_time v.lease_expires_at true)
      "workflow task exceeds bounds"

-- `count_keys` is the number of keys of a map with the JSON text that `limits` is.
unfoldable pub validate_plan : (String → Bool) → (String → ℕ) → QuotaPlan → Option String
unfolding safe_path_value valid_time
validate_plan parses_time count_keys v =
    if not (
      safe_path_value v.code 256
      && not (is_negative v.version)
      && not (ltb_ℤ v.window_seconds (pos 1))
      && valid_time parses_time v.effective_at false
      && leb (count_keys v.limits) 200)
    then some "quota plan exceeds bounds"
    else error_unless (leb (len v.limits) 65536) "quota limits exceed bounds"

unfoldable pub validate_usage : (String → Bool) → UsageRecord → Option String
unfolding safe_path_value bounded_text valid_time
validate_usage parses_time v =
    error_unless
      (bounded_text v.route 512
        && bounded_text v.unit 128
        && not (is_negative v.quantity)
        && valid_time parses_time v.occurred_at false
        && safe_path_value v.plan_code 256
        && not (is_negative v.plan_version))
      "usage record exceeds bounds"

unfoldable pub validate_discrepancy : (String → Bool) → QuotaDiscrepancy → Option String
unfolding safe_path_value bounded_text valid_time
validate_discrepancy parses_time v =
    error_unless
      (safe_path_value v.id 256
        && bounded_text v.route 512
        && bounded_text v.unit 128
        && valid_time parses_time v.from false
        && valid_time parses_time v.until false
        && not (is_negative v.enforcement_total)
        && not (is_negative v.ledger_total)
        && safe_path_value v.plan_code 256
        && not (is_negative v.plan_version))
      "quota discrepancy exceeds bounds"

unfoldable pub validate_audit : (String → Bool) → AuditRecord → Option String
unfolding safe_path_value bounded_text valid_time
validate_audit parses_time v =
    if not (
      safe_path_value v.id 256
      && bounded_text v.actor_user_id 256
      && bounded_text v.action 256
      && bounded_text v.target_type 256
      && bounded_text v.target_id 256
      && valid_time parses_time v.occurred_at false
      && leb (length v.redacted_paths) 200)
    then some "audit record exceeds bounds"
    else if not (leb (len v.details) 65536)
    then some "audit details exceed bounds"
    else error_unless (all (λ path. bounded_text path 512) v.redacted_paths)
        "audit redaction path exceeds bounds"

-- `validatePage`, on the length of the items.
unfoldable pub validate_page : ℤ → String → ℕ → Option String
unfolding has_control
validate_page limit cursor count =
    error_unless
      (not (ltb_ℤ limit (pos count)) && leb (len cursor) 2048 && not (has_control cursor))
      "provider returned unbounded page"

unfoldable pub validate_migration_plan : MigrationPlan → Option String
unfolding bounded_text
validate_migration_plan p =
    error_unless
      (bounded_text p.entity_code 256
        && bounded_text p.plan_code 256
        && bounded_text p.risk 128
        && bounded_text p.summary 4096)
      "migration plan exceeds safety bounds"

unfoldable pub validate_deletion_plan : DeletionPlan → String → ℤ → Option String
unfolding has_control
validate_deletion_plan p code version =
    if p.code != code
      || not (eqb_ℤ p.expected_version version)
      || ltb 200 (length p.dependencies)
      || ltb 4096 (len p.impact_summary)
      || has_control p.impact_summary
    then some "deletion plan exceeds safety bounds or changed its mutation basis"
    else error_unless (all (λ d. not (d == "" || ltb 512 (len d) || has_control d)) p.dependencies)
        "deletion dependency exceeds safety bounds"
