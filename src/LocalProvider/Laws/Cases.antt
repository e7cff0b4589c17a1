-- ===== src/LocalProvider/Laws/Cases.antt =====
-- The routes of internal/localprovider: one that reads, or a mutation that is conducted.
use jimu_studio.Base.{true, false, ◌≡◌, refl}
use jimu_studio.LocalProvider.State.{State, Request, Response, Clock}
use jimu_studio.LocalProvider.Mutation.{Decoders}
use jimu_studio.LocalProvider.Entities.{list_entities}
use jimu_studio.LocalProvider.Identity.{list_users, list_roles}
use jimu_studio.LocalProvider.Workflow.{cancel_run_confirmation, retry_task_confirmation}
use jimu_studio.LocalProvider.Routes.{
  Route, lists_entities, updates_entity, plans_deletion, deletes_entity, lists_users, creates_user,
  sets_status, lists_roles, creates_role, updates_role, changes_user_role, lists_runs, lists_tasks,
  cancels_run, retries_task, lists_plans, publishes_plan, lists_usage, lists_discrepancies,
  lists_audit, plans_migration, unknown, handle,
}
use jimu_studio.LocalProvider.Laws.Conduct.{IsConducted}
use jimu_studio.LocalProvider.Laws.Handlers.{
  update_entity-IsConducted, plan_entity_deletion-IsConducted, delete_entity-IsConducted,
  create_user-IsConducted, set_user_status-IsConducted, create_role-IsConducted,
  update_role-IsConducted, change_user_role-IsConducted, workflow_mutation-IsConducted,
  publish_plan-IsConducted,
}

-- A route either shows something without a change, or it is conducted.
pub data Handles (json : Decoders) (way : Route) (r : Request) : Type 0 where
  reads :
      (show : State → Response)
      → ((clock : Clock) (s : State) → handle json clock way s r ≡ (s, show s))
      → Handles json way r
  conducts : IsConducted (λ clock s. handle json clock way s r) → Handles json way r

pub handle-Handles : (json : Decoders) (way : Route) (r : Request) → Handles json way r
unfolding handle
handle-Handles json lists_entities r = reads list_entities (λ clock s. refl)
handle-Handles json updates_entity r = conducts (update_entity-IsConducted json r)
handle-Handles json plans_deletion r = conducts (plan_entity_deletion-IsConducted json r)
handle-Handles json deletes_entity r = conducts (delete_entity-IsConducted json r)
handle-Handles json lists_users r = reads list_users (λ clock s. refl)
handle-Handles json creates_user r = conducts (create_user-IsConducted json r)
handle-Handles json sets_status r = conducts (set_user_status-IsConducted json r)
handle-Handles json lists_roles r = reads list_roles (λ clock s. refl)
handle-Handles json creates_role r = conducts (create_role-IsConducted json r)
handle-Handles json updates_role r = conducts (update_role-IsConducted json r)
handle-Handles json changes_user_role r = conducts (change_user_role-IsConducted json r)
handle-Handles json lists_runs r = reads _ (λ clock s. refl)
handle-Handles json lists_tasks r = reads _ (λ clock s. refl)
handle-Handles json cancels_run r =
    conducts (workflow_mutation-IsConducted json r cancel_run_confirmation false)
handle-Handles json retries_task r =
    conducts (workflow_mutation-IsConducted json r retry_task_confirmation true)
handle-Handles json lists_plans r = reads _ (λ clock s. refl)
handle-Handles json publishes_plan r = conducts (publish_plan-IsConducted json r)
handle-Handles json lists_usage r = reads _ (λ clock s. refl)
handle-Handles json lists_discrepancies r = reads _ (λ clock s. refl)
handle-Handles json lists_audit r = reads _ (λ clock s. refl)
handle-Handles json plans_migration r = reads _ (λ clock s. refl)
handle-Handles json unknown r = reads _ (λ clock s. refl)
