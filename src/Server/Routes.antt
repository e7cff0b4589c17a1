-- ===== src/Server/Routes.antt =====
-- The routes of `NewAuthenticated` in internal/server/authenticated.go that use the broker.
use jimu_studio.Base.{true, false}
use jimu_studio.Auth.Types.{Broker}
use jimu_studio.Server.Types.{Request, Env, Response}
use jimu_studio.Server.Login.{index, login, callback, switch_tenant, sign_out}
use jimu_studio.Server.Metadata.{metadata_list, metadata_edit, metadata_new, metadata_mutate}
use jimu_studio.Server.Deletion.{metadata_delete_plan, metadata_delete_apply}
use jimu_studio.Server.Migration.{handle_migration_plan, handle_migration_apply}
use jimu_studio.Server.Identity.{identity_list, identity_mutate}
use jimu_studio.Server.Workflows.{workflow_list, workflow_mutate}
use jimu_studio.Server.Quota.{quota_list, quota_publish, audit_list}

-- The patterns of the multiplexer, by method and path.
pub data Route : Type 0 where
  get_root post_auth_login get_auth_callback post_auth_switch post_auth_logout : Route
  get_metadata get_metadata_new post_metadata_create get_metadata_edit post_metadata_edit : Route
  post_metadata_delete_plan post_metadata_delete_apply post_metadata_plan post_metadata_apply :
      Route
  get_identity post_identity_mutate get_workflows post_workflows_mutate : Route
  get_quota post_quota_publish get_audit : Route

unfoldable pub serve : Env → Route → Broker → Request → Broker × Response
serve env get_root b r = index env b r
serve env post_auth_login b r = login env b r
serve env get_auth_callback b r = callback env b r
serve env post_auth_switch b r = switch_tenant env b r
serve env post_auth_logout b r = sign_out env b r
serve env get_metadata b r = metadata_list env b r
serve env get_metadata_new b r = metadata_new env b r
serve env post_metadata_create b r = metadata_mutate env true b r
serve env get_metadata_edit b r = metadata_edit env b r
serve env post_metadata_edit b r = metadata_mutate env false b r
serve env post_metadata_delete_plan b r = metadata_delete_plan env b r
serve env post_metadata_delete_apply b r = metadata_delete_apply env b r
serve env post_metadata_plan b r = handle_migration_plan env b r
serve env post_metadata_apply b r = handle_migration_apply env b r
serve env get_identity b r = identity_list env b r
serve env post_identity_mutate b r = identity_mutate env b r
serve env get_workflows b r = workflow_list env b r
serve env post_workflows_mutate b r = workflow_mutate env b r
serve env get_quota b r = quota_list env b r
serve env post_quota_publish b r = quota_publish env b r
serve env get_audit b r = audit_list env b r
