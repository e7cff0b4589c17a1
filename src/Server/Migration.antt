-- ===== src/Server/Migration.antt =====
-- The handlers of internal/server/migration.go: the plan of a migration, and its application.
use Prim.Native.String.{◌++◌}
use jimu_studio.Base.{
  String, Bool, true, not, ◌||◌, ◌&&◌, Option, none, some, List, [], ◌∷◌, eqb, ◌==◌, ◌!=◌,
  if◌then◌else◌,
}
use jimu_studio.Base.Int.{pos}
use jimu_studio.Base.Lists.{length}
use jimu_studio.Auth.Types.{Any, text, deletion_draft, migration_draft, object, SessionView, Broker}
use jimu_studio.Auth.Drafts.{draft_key, clear_draft, store_draft, load_draft, delete_draft}
use jimu_studio.Provider.Types.{Entity, MigrationPlan, ProviderError}
use jimu_studio.Provider.Metadata.{apply_migration_confirmation, plan_migrations, apply_migrations}
use jimu_studio.Server.Types.{
  Form, get, Request, Env, failed, migration_review, migration_done, Response,
}
use jimu_studio.Server.Guards.{
  proceed, refuse, render, Guards, Admitted, admit, with_provider, bounded_browser_value,
  render_migration_error, broker_error, is_status, request_id_of,
}
use jimu_studio.Server.Roles.{has_role}
use jimu_studio.Server.Metadata.{find_entity}

abbrev pub migration_category : String
migration_category = "migration"

abbrev pub migration_plan_scope : Env → Entity → String
migration_plan_scope env e = "migration-plan:" ++ (e.code ++ (":" ++ env.format_int e.version))

abbrev pub is_empty {ℓ} : {A : Type ℓ} → List A → Bool
is_empty xs = eqb (length xs) 0

abbrev pub can_apply : SessionView → List MigrationPlan → Bool
can_apply v plans = not (is_empty plans) && has_role v "studio.metadata.apply"

unfoldable pub plan_migration_of : Env → Broker → String → SessionView → Entity → Broker × Response
plan_migration_of env b id v entity =
    proceed (draft_key b (env.world 2) id (migration_plan_scope env entity))
      (λ b₁ e. (b₁, render_migration_error env v (broker_error e)))
      (λ b₁ key.
        (proceed
          (with_provider env 3 b₁ id
            (λ client. plan_migrations (env.http 3) client (entity ∷ []) key))
          (λ b₂ e. (b₂, render_migration_error env v e))
          (λ b₂ plans.
            proceed
              (store_draft b₂ (env.world 4) id migration_category
                (some (migration_draft (entity ∷ []) plans (migration_plan_scope env entity))))
              (λ b₃ e. (b₃, render_migration_error env v (broker_error e)))
              (λ b₃ reference. (
                b₃,
                render v (pos 200) (migration_review plans reference (can_apply v plans) ""),
              )))))

abbrev pub migration_plan_guards : Guards
migration_plan_guards = record {
  role = "studio.metadata.write";
  cross_site = "cross-site migration plan rejected";
  forbidden = "metadata write permission required";
  bad_form = "invalid migration plan form";
  rejected = "migration plan rejected";
}

unfoldable pub migration_planned : Env → Admitted
migration_planned env b id v form =
    if get "code" form == "" || not (bounded_browser_value (get "code" form) 256)
    then (b, refuse 400 "invalid entity code")
    else (proceed (find_entity env 1 b id (get "code" form))
        (λ b' e. (b', render_migration_error env v e))
        (λ b' entity. plan_migration_of env b' id v entity))

-- `migrationPlan`.
unfoldable pub handle_migration_plan : Env → Broker → Request → Broker × Response
handle_migration_plan env b r = admit migration_plan_guards env b r (migration_planned env)

abbrev expired_migration : SessionView → Response
expired_migration v =
    render v (pos 409) (
      failed "Migration plan expired" "Create and review a fresh migration plan before applying."
        "")

abbrev stale_migration : SessionView → String → Response
stale_migration v request_id = render v (pos 409) (
    failed "Migration plan is stale"
      "Metadata changed after planning. Nothing was applied; create and review a fresh plan."
      request_id)

abbrev pub migration_apply_scope : String → String
migration_apply_scope reference = "migration-apply:" ++ reference

unfoldable pub clear_migration_draft : Broker → String → String → String → Broker
clear_migration_draft b id reference plan_scope =
    clear_draft (clear_draft (delete_draft b id migration_category reference) id plan_scope) id
      (migration_apply_scope reference)

-- The entities, the plans and their scope, where a value is a draft of a migration with some of each.
abbrev pub as_migration : Option Any → Option (List Entity × List MigrationPlan × String)
as_migration (some (migration_draft es ps scope)) =
    if is_empty es || is_empty ps then none else some (es, ps, scope)
as_migration (some (deletion_draft plan scope)) = none
as_migration (some (text s)) = none
as_migration (some (object n)) = none
as_migration none = none

-- The answer where the provider refused the migration.
unfoldable pub migration_refused :
    Env → Broker → String → SessionView → String → String → ProviderError → Broker × Response
migration_refused env b id v reference plan_scope e =
    if is_status e 409
    then (clear_migration_draft b id reference plan_scope, stale_migration v (request_id_of e))
    else (b, render_migration_error env v e)

unfoldable pub apply_migration_of :
    Env → Broker → String → SessionView → String → List Entity → String → Broker × Response
apply_migration_of env b id v reference entities plan_scope =
    proceed (draft_key b (env.world 1) id (migration_apply_scope reference))
      (λ b₁ e. (b₁, render_migration_error env v (broker_error e)))
      (λ b₁ key.
        proceed
          (with_provider env 2 b₁ id (λ client. apply_migrations (env.http 2) client entities key))
          (λ b₂ e. migration_refused env b₂ id v reference plan_scope e)
          (λ b₂ applied. (
            clear_migration_draft b₂ id reference plan_scope,
            render v (pos 200) (migration_done applied),
          )))

-- A migration that was loaded from the session's drafts.
unfoldable pub confirm_migration :
    Env
    → Broker
    → String
    → SessionView
    → Form
    → List Entity
    → List MigrationPlan
    → String
    → Broker × Response
confirm_migration env b id v form entities plans plan_scope =
    if get "confirmation" form != apply_migration_confirmation
    then (
      b,
      render v (pos 400) (
          migration_review plans (get "draft" form) true
            "Type the required confirmation exactly before applying."),
    )
    else apply_migration_of env b id v (get "draft" form) entities plan_scope

abbrev pub migration_apply_guards : Guards
migration_apply_guards = record {
  role = "studio.metadata.apply";
  cross_site = "cross-site migration apply rejected";
  forbidden = "migration apply permission required";
  bad_form = "invalid migration apply form";
  rejected = "migration apply rejected";
}

unfoldable pub migration_applied : Env → Admitted
migration_applied env b id v form =
    let reference = get "draft" form in
    if not (bounded_browser_value reference 256) || reference == ""
    then (b, refuse 400 "migration plan reference required")
    else elim (as_migration (load_draft b id migration_category reference)) [
      | none ↦ (b, expired_migration v)
      | some (entities, plans, scope) ↦ confirm_migration env b id v form entities plans scope
    ]

-- `migrationApply`.
unfoldable pub handle_migration_apply : Env → Broker → Request → Broker × Response
handle_migration_apply env b r = admit migration_apply_guards env b r (migration_applied env)
