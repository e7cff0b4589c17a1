-- ===== src/LocalProvider/Routes.antt =====
-- `serveLoaded` of internal/localprovider/server.go: the routes, and the handler of each.
use jimu_studio.Base.{String, true, false, ◌||◌, ◌&&◌, [], ◌∷◌, ◌==◌, if◌then◌else◌}
use jimu_studio.Base.Text.{has_prefix, has_suffix, contains_text}
use jimu_studio.LocalProvider.State.{
  Body, failure, runs, tasks, plans, audits, usage, discrepancies, migration_plan, State, Request,
  Response, Clock,
}
use jimu_studio.LocalProvider.Mutation.{Decoders}
use jimu_studio.LocalProvider.Entities.{
  entity_prefix, list_entities, update_entity, plan_entity_deletion, delete_entity,
}
use jimu_studio.LocalProvider.Identity.{
  role_prefix, list_users, create_user, set_user_status, list_roles, create_role, update_role,
  change_user_role,
}
use jimu_studio.LocalProvider.Workflow.{
  cancel_run_confirmation, retry_task_confirmation, workflow_mutation, publish_plan,
}

-- The cases of the `switch`.
pub data Route : Type 0 where
  lists_entities updates_entity plans_deletion deletes_entity : Route
  lists_users creates_user sets_status lists_roles creates_role updates_role changes_user_role :
      Route
  lists_runs lists_tasks cancels_run retries_task : Route
  lists_plans publishes_plan lists_usage lists_discrepancies lists_audit : Route
  plans_migration unknown : Route

abbrev run_prefix : String
run_prefix = "/studio/v1/workflows/runs/"

-- The first case whose condition holds.
unfoldable pub route : String → String → Route
route method path =
    if method == "GET" && path == "/studio/v1/metadata/entities"
    then lists_entities
    else if method == "PUT" && has_prefix path entity_prefix
    then updates_entity
    else if method == "POST" && has_suffix path "/delete-plan"
    then plans_deletion
    else if method == "DELETE" && has_prefix path entity_prefix
    then deletes_entity
    else if method == "GET" && path == "/studio/v1/identity/users"
    then lists_users
    else if method == "POST" && path == "/studio/v1/identity/users"
    then creates_user
    else if method == "PATCH" && has_suffix path "/status"
    then sets_status
    else if method == "GET" && path == "/studio/v1/identity/roles"
    then lists_roles
    else if method == "POST" && path == "/studio/v1/identity/roles"
    then creates_role
    else if method == "PATCH" && has_prefix path role_prefix
    then updates_role
    else if (method == "PUT" || method == "DELETE") && contains_text path "/roles/"
    then changes_user_role
    else if method == "GET" && path == "/studio/v1/workflows/runs"
    then lists_runs
    else if method == "GET" && has_prefix path run_prefix && has_suffix path "/tasks"
    then lists_tasks
    else if method == "POST" && has_suffix path "/cancel"
    then cancels_run
    else if method == "POST" && has_suffix path "/retry"
    then retries_task
    else if method == "GET" && path == "/studio/v1/quota/plans"
    then lists_plans
    else if method == "POST" && path == "/studio/v1/quota/plans"
    then publishes_plan
    else if method == "GET" && path == "/studio/v1/quota/usage"
    then lists_usage
    else if method == "GET" && path == "/studio/v1/quota/discrepancies"
    then lists_discrepancies
    else if method == "GET" && path == "/studio/v1/audit"
    then lists_audit
    else if method == "POST"
        && (path == "/studio/v1/metadata/plan" || path == "/studio/v1/metadata/apply")
    then plans_migration
    else unknown

abbrev pub shows : State → Body → State × Response
shows s body = (s, record { status = 200; body = body })

-- The handler of a route.
unfoldable pub handle : Decoders → Clock → Route → State → Request → State × Response
handle json clock lists_entities s r = (s, list_entities s)
handle json clock updates_entity s r = update_entity json clock s r
handle json clock plans_deletion s r = plan_entity_deletion json s r
handle json clock deletes_entity s r = delete_entity json clock s r
handle json clock lists_users s r = (s, list_users s)
handle json clock creates_user s r = create_user json clock s r
handle json clock sets_status s r = set_user_status json clock s r
handle json clock lists_roles s r = (s, list_roles s)
handle json clock creates_role s r = create_role json clock s r
handle json clock updates_role s r = update_role json clock s r
handle json clock changes_user_role s r = change_user_role json clock s r
handle json clock lists_runs s r = shows s (runs (s.run ∷ []))
handle json clock lists_tasks s r = shows s (tasks (s.task ∷ []))
handle json clock cancels_run s r = workflow_mutation json clock s r cancel_run_confirmation false
handle json clock retries_task s r = workflow_mutation json clock s r retry_task_confirmation true
handle json clock lists_plans s r = shows s (plans (s.plan ∷ []))
handle json clock publishes_plan s r = publish_plan json clock s r
handle json clock lists_usage s r = shows s usage
handle json clock lists_discrepancies s r = shows s discrepancies
handle json clock lists_audit s r = shows s (audits (s.audits))
handle json clock plans_migration s r =
    shows s (migration_plan (r.path == "/studio/v1/metadata/apply"))
handle json clock unknown s r =
    (s, record { status = 404; body = failure "not_found" "Local provider route not implemented" })

unfoldable pub serve_loaded : Decoders → Clock → State → Request → State × Response
serve_loaded json clock s r = handle json clock (route r.method r.path) s r
