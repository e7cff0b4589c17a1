-- ===== src/LocalProvider/Workflow.antt =====
-- The workflow and quota handlers of internal/localprovider/operations.go.
use jimu_studio.Base.{String, Bool, not, ◌||◌, none, some, [], ◌∷◌, ◌==◌, ◌!=◌, if◌then◌else◌}
use jimu_studio.Base.Int.{incr, eqb_ℤ}
use jimu_studio.LocalProvider.State.{
  WorkflowRun, WorkflowTask, QuotaPlan, number, run, plan, State, Request, Response, Clock,
}
use jimu_studio.LocalProvider.Mutation.{
  bad_request, conflict, refusal, Effect, refuse, commit, mutate, audit_record, limited,
  VersionedMutation, PlanChange, Decoders,
}
pub use jimu_studio.Provider.Resources.{
  cancel_run_confirmation, retry_task_confirmation, publish_plan_confirmation,
}

-- `workflowMutation` under the lock, for a retry of the task.
unfoldable pub retry_effect : VersionedMutation → Clock → State → Effect
retry_effect m clock s =
    if not (eqb_ℤ s.task.version m.expected_version)
    then refuse conflict "version_conflict" "Task version changed"
    else (let t = s.task in
        let t' : WorkflowTask = record t {
          state = "running";
          attempt = incr t.attempt;
          version = incr t.version;
        } in
        let x = s.run in
        let x' : WorkflowRun = record x {
          state = "running";
          version = incr x.version;
          updated_at = clock.changed_at;
        } in
        commit (record s { run = x'; task = t' }) (run x')
          (some (
            audit_record clock "studio.workflow.tasks.retry" t.id
              (("version", number t'.version) ∷ []))))

-- `workflowMutation` under the lock, for a cancellation of the run.
unfoldable pub cancel_effect : VersionedMutation → Clock → State → Effect
cancel_effect m clock s =
    if not (eqb_ℤ s.run.version m.expected_version)
    then refuse conflict "version_conflict" "Run version changed"
    else (let x = s.run in
        let x' : WorkflowRun = record x {
          state = "cancelled";
          version = incr x.version;
          updated_at = clock.changed_at;
          lease_state = "none";
          lease_expires_at = "";
        } in
        commit (record s { run = x' }) (run x')
          (some (
            audit_record clock "studio.workflow.runs.cancel" x.id
              (("version", number x'.version) ∷ []))))

unfoldable pub workflow_mutation :
    Decoders → Clock → State → Request → String → Bool → State × Response
workflow_mutation json clock s r confirmation retry =
    let invalid =
      refusal bad_request "invalid_workflow_mutation"
        "Valid confirmed workflow mutation required" in
    elim (limited json.versioned r.body) [
      | none ↦ (s, invalid)
      | some m ↦
          if m.confirmation != confirmation || m.idempotency_key == ""
          then (s, invalid)
          else mutate s m.idempotency_key
              (if retry then retry_effect m clock s else cancel_effect m clock s)
    ]

-- `publishPlan` under the lock.
unfoldable pub publish_effect : PlanChange → Clock → State → Effect
publish_effect m clock s =
    if not (eqb_ℤ s.plan.version m.expected_version)
    then refuse conflict "version_conflict" "Quota plan version changed"
    else (let x = m.plan in
        let x' : QuotaPlan = record x { version = incr (s.plan.version) } in
        commit (record s { plan = x' }) (plan x')
          (some (
            audit_record clock "studio.quota.plans.publish" x.code
              (("version", number x'.version) ∷ []))))

unfoldable pub publish_plan : Decoders → Clock → State → Request → State × Response
publish_plan json clock s r =
    let invalid = refusal bad_request "invalid_quota_plan" "Valid confirmed quota plan required" in
    elim (limited json.plan_change r.body) [
      | none ↦ (s, invalid)
      | some m ↦
          if m.confirmation != publish_plan_confirmation || m.idempotency_key == ""
          then (s, invalid)
          else mutate s m.idempotency_key (publish_effect m clock s)
    ]
