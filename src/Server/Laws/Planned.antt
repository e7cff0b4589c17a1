-- ===== src/Server/Laws/Planned.antt =====
-- The handlers of deletions and migrations of internal/server keep what Kept is about.
use jimu_studio.Base.{String, refl, Option-cases, inl, inr, List, not, ◌!=◌}
use jimu_studio.Auth.Types.{SessionView, Broker}
use jimu_studio.Auth.Drafts.{load_draft}
use jimu_studio.Provider.Types.{Entity, DeletionPlan, MigrationPlan}
use jimu_studio.Provider.Metadata.{delete_entity_confirmation, apply_migration_confirmation}
use jimu_studio.Server.Types.{Form, get, Request, Env, Response}
use jimu_studio.Server.Deletion.{
  deletion_category, review_deletion, plan_deletion_of, deletion_planned, deletion_plan_guards,
  metadata_delete_plan, clear_deletion_draft, deletion_refused, apply_deletion_of, confirm_deletion,
  as_deletion, deletion_applied, deletion_apply_guards, metadata_delete_apply,
}
use jimu_studio.Server.Migration.{
  migration_category, plan_migration_of, migration_planned, migration_plan_guards,
  handle_migration_plan, clear_migration_draft, migration_refused, apply_migration_of,
  confirm_migration, as_migration, migration_applied, migration_apply_guards,
  handle_migration_apply,
}
use jimu_studio.Server.Laws.Kept.{
  Keeps, Kept, kept, either, proceed_kept, asked_kept, drawn_kept, stored_kept, cleared_kept,
  deleted_kept, metadata_error_kept, migration_error_kept, admit_kept,
}
use jimu_studio.Server.Laws.Handlers.{found_kept}

module _ {ℓ κ} {P : Broker → Type ℓ} {Q : Response → Type κ} (c : Keeps P Q) where
  review_deletion_kept :
      (env : Env) (b : Broker) (id : String) (v : SessionView) (scope : String)
      (plan : DeletionPlan)
      → P b
      → Kept P Q (review_deletion env b id v scope plan)
  unfolding review_deletion
  review_deletion_kept env b id v scope plan h =
      either c _ _ _ (kept c _ _ (cleared_kept c b id scope h) (c.valid _ refl)) (
        proceed_kept c _ _ _ (stored_kept c env 4 b id _ _ h)
          (λ b' e h'. kept c _ _ h' (metadata_error_kept c env v _))
          (λ b' reference h'. kept c _ _ h' (c.valid _ refl)))

  plan_deletion_of_kept :
      (env : Env) (b : Broker) (id : String) (v : SessionView) (entity : Entity)
      → P b
      → Kept P Q (plan_deletion_of env b id v entity)
  unfolding plan_deletion_of
  plan_deletion_of_kept env b id v entity h =
      proceed_kept c _ _ _ (drawn_kept c env 2 b id _ h)
        (λ b₁ e h₁. kept c _ _ h₁ (metadata_error_kept c env v _))
        (λ b₁ key h₁.
          proceed_kept c _ _ _ (asked_kept c env 3 b₁ id _ h₁)
            (λ b₂ e h₂. kept c _ _ h₂ (metadata_error_kept c env v e))
            (λ b₂ plan h₂. review_deletion_kept env b₂ id v _ plan h₂))

  pub metadata_delete_plan_kept :
      (env : Env) (b : Broker) (r : Request) → P b → Kept P Q (metadata_delete_plan env b r)
  unfolding metadata_delete_plan deletion_planned
  metadata_delete_plan_kept env b r h =
      admit_kept c deletion_plan_guards env b r _ h λ b₁ id v form h₁.
        either c _ _ _ (kept c _ _ h₁ (c.valid _ refl)) (
          proceed_kept c _ _ _ (found_kept c env 1 b₁ id _ h₁)
            (λ b₂ e h₂. kept c _ _ h₂ (metadata_error_kept c env v e))
            (λ b₂ entity h₂. plan_deletion_of_kept env b₂ id v entity h₂))

  clear_deletion_kept :
      (b : Broker) (id reference scope : String)
      → P b
      → P (clear_deletion_draft b id reference scope)
  unfolding clear_deletion_draft
  clear_deletion_kept b id reference scope h =
      cleared_kept c _ id _ (cleared_kept c _ id scope (deleted_kept c b id _ reference h))

  apply_deletion_of_kept :
      (env : Env) (b : Broker) (id : String) (v : SessionView) (reference : String)
      (plan : DeletionPlan) (scope : String)
      → P b
      → Kept P Q (apply_deletion_of env b id v reference plan scope)
  unfolding apply_deletion_of deletion_refused
  apply_deletion_of_kept env b id v reference plan scope h =
      proceed_kept c _ _ _ (drawn_kept c env 1 b id _ h)
        (λ b₁ e h₁. kept c _ _ h₁ (metadata_error_kept c env v _))
        (λ b₁ key h₁.
          proceed_kept c _ _ _ (asked_kept c env 2 b₁ id _ h₁)
            (λ b₂ e h₂.
              either c _ _ _
                (kept c _ _ (clear_deletion_kept b₂ id reference scope h₂) (c.valid _ refl))
                (kept c _ _ h₂ (metadata_error_kept c env v e)))
            (λ b₂ receipt h₂.
              kept c _ _ (clear_deletion_kept b₂ id reference scope h₂) (c.valid _ refl)))

  confirm_deletion_kept :
      (env : Env) (b : Broker) (id : String) (v : SessionView) (form : Form) (plan : DeletionPlan)
      (scope : String)
      → P b
      → Kept P Q (confirm_deletion env b id v form plan scope)
  unfolding confirm_deletion
  confirm_deletion_kept env b id v form plan scope h =
      either c (not plan.deletable) _ _ (kept c _ _ h (c.valid _ refl)) (
        either c (get "confirmation" form != delete_entity_confirmation) _ _
          (kept c _ _ h (c.valid _ refl)) (apply_deletion_of_kept env b id v _ plan scope h))

  loaded_deletion_kept :
      (env : Env) (b : Broker) (id : String) (v : SessionView) (form : Form)
      → P b
      → Kept P Q (deletion_applied env b id v form)
  unfolding deletion_applied
  loaded_deletion_kept env b id v form h =
      elim (Option-cases (as_deletion (load_draft b id deletion_category (get "draft" form)))) [
        | inl f ↦
            rw (f, deletion_applied)
              (either c _ _ _ (kept c _ _ h (c.valid _ refl)) (kept c _ _ h (c.valid _ refl)))
        | inr ((plan, scope), f) ↦
            rw (f, deletion_applied)
              (either c _ _ _ (kept c _ _ h (c.valid _ refl))
                (confirm_deletion_kept env b id v form plan scope h))
      ]

  pub metadata_delete_apply_kept :
      (env : Env) (b : Broker) (r : Request) → P b → Kept P Q (metadata_delete_apply env b r)
  unfolding metadata_delete_apply
  metadata_delete_apply_kept env b r h =
      admit_kept c deletion_apply_guards env b r _ h (loaded_deletion_kept env)

  plan_migration_of_kept :
      (env : Env) (b : Broker) (id : String) (v : SessionView) (entity : Entity)
      → P b
      → Kept P Q (plan_migration_of env b id v entity)
  unfolding plan_migration_of
  plan_migration_of_kept env b id v entity h =
      proceed_kept c _ _ _ (drawn_kept c env 2 b id _ h)
        (λ b₁ e h₁. kept c _ _ h₁ (migration_error_kept c env v _))
        (λ b₁ key h₁.
          proceed_kept c _ _ _ (asked_kept c env 3 b₁ id _ h₁)
            (λ b₂ e h₂. kept c _ _ h₂ (migration_error_kept c env v e))
            (λ b₂ plans h₂.
              proceed_kept c _ _ _ (stored_kept c env 4 b₂ id _ _ h₂)
                (λ b₃ e h₃. kept c _ _ h₃ (migration_error_kept c env v _))
                (λ b₃ reference h₃. kept c _ _ h₃ (c.valid _ refl))))

  pub migration_plan_kept :
      (env : Env) (b : Broker) (r : Request) → P b → Kept P Q (handle_migration_plan env b r)
  unfolding handle_migration_plan migration_planned
  migration_plan_kept env b r h = admit_kept c migration_plan_guards env b r _ h λ b₁ id v form h₁.
      either c _ _ _ (kept c _ _ h₁ (c.valid _ refl)) (
        proceed_kept c _ _ _ (found_kept c env 1 b₁ id _ h₁)
          (λ b₂ e h₂. kept c _ _ h₂ (migration_error_kept c env v e))
          (λ b₂ entity h₂. plan_migration_of_kept env b₂ id v entity h₂))

  clear_migration_kept :
      (b : Broker) (id reference scope : String)
      → P b
      → P (clear_migration_draft b id reference scope)
  unfolding clear_migration_draft
  clear_migration_kept b id reference scope h =
      cleared_kept c _ id _ (cleared_kept c _ id scope (deleted_kept c b id _ reference h))

  apply_migration_of_kept :
      (env : Env) (b : Broker) (id : String) (v : SessionView) (reference : String)
      (entities : List Entity) (scope : String)
      → P b
      → Kept P Q (apply_migration_of env b id v reference entities scope)
  unfolding apply_migration_of migration_refused
  apply_migration_of_kept env b id v reference entities scope h =
      proceed_kept c _ _ _ (drawn_kept c env 1 b id _ h)
        (λ b₁ e h₁. kept c _ _ h₁ (migration_error_kept c env v _))
        (λ b₁ key h₁.
          proceed_kept c _ _ _ (asked_kept c env 2 b₁ id _ h₁)
            (λ b₂ e h₂.
              either c _ _ _
                (kept c _ _ (clear_migration_kept b₂ id reference scope h₂) (c.valid _ refl))
                (kept c _ _ h₂ (migration_error_kept c env v e)))
            (λ b₂ applied h₂.
              kept c _ _ (clear_migration_kept b₂ id reference scope h₂) (c.valid _ refl)))

  confirm_migration_kept :
      (env : Env) (b : Broker) (id : String) (v : SessionView) (form : Form)
      (entities : List Entity) (plans : List MigrationPlan) (scope : String)
      → P b
      → Kept P Q (confirm_migration env b id v form entities plans scope)
  unfolding confirm_migration
  confirm_migration_kept env b id v form entities plans scope h =
      either c (get "confirmation" form != apply_migration_confirmation) _ _
        (kept c _ _ h (c.valid _ refl)) (apply_migration_of_kept env b id v _ entities scope h)

  loaded_migration_kept :
      (env : Env) (b : Broker) (id : String) (v : SessionView) (form : Form)
      → P b
      → Kept P Q (migration_applied env b id v form)
  unfolding migration_applied
  loaded_migration_kept env b id v form h =
      elim (Option-cases (as_migration (load_draft b id migration_category (get "draft" form)))) [
        | inl f ↦
            rw (f, migration_applied)
              (either c _ _ _ (kept c _ _ h (c.valid _ refl)) (kept c _ _ h (c.valid _ refl)))
        | inr ((entities, plans, scope), f) ↦
            rw (f, migration_applied)
              (either c _ _ _ (kept c _ _ h (c.valid _ refl))
                (confirm_migration_kept env b id v form entities plans scope h))
      ]

  pub migration_apply_kept :
      (env : Env) (b : Broker) (r : Request) → P b → Kept P Q (handle_migration_apply env b r)
  unfolding handle_migration_apply
  migration_apply_kept env b r h =
      admit_kept c migration_apply_guards env b r _ h (loaded_migration_kept env)
