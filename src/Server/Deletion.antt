-- ===== src/Server/Deletion.antt =====
-- The handlers of internal/server/metadata_delete.go: the plan of a deletion, and its application.
use Prim.Native.String.{◌++◌}
use jimu_studio.Base.{String, not, ◌||◌, Option, none, some, ◌==◌, ◌!=◌, if◌then◌else◌}
use jimu_studio.Base.Int.{pos}
use jimu_studio.Auth.Types.{Any, text, deletion_draft, migration_draft, object, SessionView, Broker}
use jimu_studio.Auth.Drafts.{draft_key, clear_draft, store_draft, load_draft, delete_draft}
use jimu_studio.Provider.Types.{Entity, DeletionPlan, ProviderError}
use jimu_studio.Provider.Metadata.{delete_entity_confirmation, plan_entity_deletion, delete_entity}
use jimu_studio.Server.Types.{
  Form, get, Request, Env, failed, deletion_review, deletion_done, Response,
}
use jimu_studio.Server.Guards.{
  proceed, refuse, render, Guards, Admitted, admit, with_provider, bounded_browser_value,
  render_metadata_error, broker_error, is_status,
}
use jimu_studio.Server.Metadata.{find_entity}

abbrev pub deletion_category : String
deletion_category = "metadata-delete"

abbrev pub deletion_plan_scope : Env → Entity → String
deletion_plan_scope env e = "metadata-delete-plan:" ++ (e.code ++ (":" ++ env.format_int e.version))

-- What is done with a plan: only a plan without dependencies is stored.
unfoldable pub review_deletion :
    Env → Broker → String → SessionView → String → DeletionPlan → Broker × Response
review_deletion env b id v scope plan =
    if not plan.deletable
    then (clear_draft b id scope, render v (pos 200) (deletion_review plan "" ""))
    else proceed
        (store_draft b (env.world 4) id deletion_category (some (deletion_draft plan scope)))
        (λ b' e. (b', render_metadata_error env v (broker_error e)))
        (λ b' reference. (b', render v (pos 200) (deletion_review plan reference "")))

unfoldable pub plan_deletion_of : Env → Broker → String → SessionView → Entity → Broker × Response
plan_deletion_of env b id v entity =
    proceed (draft_key b (env.world 2) id (deletion_plan_scope env entity))
      (λ b₁ e. (b₁, render_metadata_error env v (broker_error e)))
      (λ b₁ key.
        (proceed
          (with_provider env 3 b₁ id
            (λ client. plan_entity_deletion (env.http 3) client entity.code entity.version key))
          (λ b₂ e. (b₂, render_metadata_error env v e))
          (λ b₂ plan. review_deletion env b₂ id v (deletion_plan_scope env entity) plan)))

abbrev pub deletion_plan_guards : Guards
deletion_plan_guards = record {
  role = "studio.metadata.apply";
  cross_site = "cross-site metadata deletion plan rejected";
  forbidden = "metadata deletion permission required";
  bad_form = "invalid metadata deletion form";
  rejected = "metadata deletion plan rejected";
}

unfoldable pub deletion_planned : Env → Admitted
deletion_planned env b id v form =
    if get "code" form == "" || not (bounded_browser_value (get "code" form) 256)
    then (b, refuse 400 "invalid entity code")
    else (proceed (find_entity env 1 b id (get "code" form))
        (λ b' e. (b', render_metadata_error env v e))
        (λ b' entity. plan_deletion_of env b' id v entity))

unfoldable pub metadata_delete_plan : Env → Broker → Request → Broker × Response
metadata_delete_plan env b r = admit deletion_plan_guards env b r (deletion_planned env)

-- `renderExpiredDeletion`.
abbrev pub expired_deletion : SessionView → Response
expired_deletion v = render v (pos 409) (
    failed "Deletion plan expired"
      "Metadata changed or the plan was already used. Nothing was deleted; create and review a fresh plan."
      "")

abbrev pub deletion_apply_scope : String → String
deletion_apply_scope reference = "metadata-delete-apply:" ++ reference

-- `clearMetadataDeletionDraft`.
unfoldable pub clear_deletion_draft : Broker → String → String → String → Broker
clear_deletion_draft b id reference plan_scope =
    clear_draft (clear_draft (delete_draft b id deletion_category reference) id plan_scope) id
      (deletion_apply_scope reference)

-- The plan and its scope, where a value is a draft of a deletion.
abbrev pub as_deletion : Option Any → Option (DeletionPlan × String)
as_deletion (some (deletion_draft plan scope)) = some (plan, scope)
as_deletion (some (migration_draft es ps scope)) = none
as_deletion (some (text s)) = none
as_deletion (some (object n)) = none
as_deletion none = none

-- The answer where the provider refused the deletion.
unfoldable pub deletion_refused :
    Env → Broker → String → SessionView → String → String → ProviderError → Broker × Response
deletion_refused env b id v reference plan_scope e =
    if is_status e 409
    then (clear_deletion_draft b id reference plan_scope, expired_deletion v)
    else (b, render_metadata_error env v e)

unfoldable pub apply_deletion_of :
    Env → Broker → String → SessionView → String → DeletionPlan → String → Broker × Response
apply_deletion_of env b id v reference plan plan_scope =
    proceed (draft_key b (env.world 1) id (deletion_apply_scope reference))
      (λ b₁ e. (b₁, render_metadata_error env v (broker_error e)))
      (λ b₁ key.
        proceed
          (with_provider env 2 b₁ id
            (λ client. delete_entity (env.http 2) client plan.code plan.expected_version key))
          (λ b₂ e. deletion_refused env b₂ id v reference plan_scope e)
          (λ b₂ receipt. (
            clear_deletion_draft b₂ id reference plan_scope,
            render v (pos 200) (deletion_done receipt),
          )))

-- A deletion that was loaded from the session's drafts.
unfoldable pub confirm_deletion :
    Env → Broker → String → SessionView → Form → DeletionPlan → String → Broker × Response
confirm_deletion env b id v form plan plan_scope =
    if not plan.deletable
    then (
      b,
      render v (pos 409) (
          deletion_review plan (get "draft" form)
            "The provider reports dependencies. Resolve them and create a fresh deletion plan."),
    )
    else if get "confirmation" form != delete_entity_confirmation
    then (
      b,
      render v (pos 400) (
          deletion_review plan (get "draft" form)
            "Type the required confirmation exactly before deleting."),
    )
    else apply_deletion_of env b id v (get "draft" form) plan plan_scope

abbrev pub deletion_apply_guards : Guards
deletion_apply_guards = record {
  role = "studio.metadata.apply";
  cross_site = "cross-site metadata deletion rejected";
  forbidden = "metadata deletion permission required";
  bad_form = "invalid metadata deletion form";
  rejected = "metadata deletion rejected";
}

unfoldable pub deletion_applied : Env → Admitted
deletion_applied env b id v form =
    let reference = get "draft" form in
    if reference == "" || not (bounded_browser_value reference 256)
    then (b, refuse 400 "metadata deletion plan reference required")
    else elim (as_deletion (load_draft b id deletion_category reference)) [
      | none ↦ (b, expired_deletion v)
      | some (plan, scope) ↦ confirm_deletion env b id v form plan scope
    ]

unfoldable pub metadata_delete_apply : Env → Broker → Request → Broker × Response
metadata_delete_apply env b r = admit deletion_apply_guards env b r (deletion_applied env)
