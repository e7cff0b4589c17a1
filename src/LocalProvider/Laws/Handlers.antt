-- ===== src/LocalProvider/Laws/Handlers.antt =====
-- Every mutation handler of internal/localprovider is conducted: the request alone decides whether
-- it is refused, or which effect is run under which key.
use jimu_studio.Base.{String, Bool, ◌||◌, ◌&&◌, Option-cases, Bool-cases, inl, inr, ◌==◌, ◌!=◌}
use jimu_studio.Base.Text.{trim_prefix, trim_suffix, contains_text, split_slash, trim_slashes}
use jimu_studio.LocalProvider.State.{Request}
use jimu_studio.LocalProvider.Mutation.{bad_request, limited, Decoders}
use jimu_studio.LocalProvider.Entities.{
  entity_prefix, update_entity, decode_deletion, plan_entity_deletion, delete_entity_confirmation,
  delete_entity,
}
use jimu_studio.LocalProvider.Identity.{
  role_prefix, create_user, set_user_status, create_role, update_role, change_user_role, user_part,
  assignment_parts, disable_user_confirmation,
}
use jimu_studio.LocalProvider.Workflow.{workflow_mutation, publish_plan, publish_plan_confirmation}
use jimu_studio.LocalProvider.Laws.Conduct.{
  entity_updated, deletion_planned, entity_deleted, user_created, status_set, role_created,
  role_updated, user_role_changed, workflow_changed, plan_published, refuses, changes, IsConducted,
}

module _ (json : Decoders) (r : Request) where
  pub update_entity-IsConducted : IsConducted (λ clock s. update_entity json clock s r)
  unfolding update_entity
  update_entity-IsConducted = elim (Option-cases (limited json.entity_update r.body)) [
    | inl e ↦ (
      refuses bad_request "invalid_entity" "Valid entity required",
      λ clock s. rw (e, update_entity),
    )
    | inr (m, e) ↦
        elim (Bool-cases (m.entity.code == "" || m.entity.name == "" || m.idempotency_key == "")) [
          | inl bad ↦ (
            refuses bad_request "invalid_entity" "Valid entity required",
            λ clock s. rw (e, bad, update_entity),
          )
          | inr good ↦
              let code = trim_prefix r.path entity_prefix in
              elim (Bool-cases (code != m.entity.code || contains_text code "/")) [
                | inl other ↦ (
                  refuses bad_request "entity_code_mismatch" "Entity path and body code must match",
                  λ clock s. rw (e, good, other, update_entity),
                )
                | inr same ↦ (
                  changes m.idempotency_key (entity_updated m code),
                  λ clock s. rw (e, good, same, update_entity),
                )
              ]
        ]
  ]

  pub plan_entity_deletion-IsConducted : IsConducted (λ clock s. plan_entity_deletion json s r)
  unfolding plan_entity_deletion
  plan_entity_deletion-IsConducted = elim (Option-cases (decode_deletion json r)) [
    | inl e ↦ (
      refuses bad_request "invalid_mutation" "Expected version and idempotency key required",
      λ clock s. rw (e, plan_entity_deletion),
    )
    | inr (m, e) ↦ (
      changes m.idempotency_key
          (deletion_planned m (trim_suffix (trim_prefix r.path entity_prefix) "/delete-plan")),
      λ clock s. rw (e, plan_entity_deletion),
    )
  ]

  pub delete_entity-IsConducted : IsConducted (λ clock s. delete_entity json clock s r)
  unfolding delete_entity
  delete_entity-IsConducted = elim (Option-cases (decode_deletion json r)) [
    | inl e ↦ (
      refuses bad_request "invalid_mutation" "Expected version and idempotency key required",
      λ clock s. rw (e, delete_entity),
    )
    | inr (m, e) ↦ elim (Bool-cases (m.confirmation != delete_entity_confirmation)) [
      | inl bad ↦ (
        refuses bad_request "confirmation_required" "Exact deletion confirmation required",
        λ clock s. rw (e, bad, delete_entity),
      )
      | inr good ↦ (
        changes m.idempotency_key (entity_deleted m (trim_prefix r.path entity_prefix)),
        λ clock s. rw (e, good, delete_entity),
      )
    ]
  ]

  pub create_user-IsConducted : IsConducted (λ clock s. create_user json clock s r)
  unfolding create_user
  create_user-IsConducted = elim (Option-cases (limited json.new_user r.body)) [
    | inl e ↦
        (refuses bad_request "invalid_user" "Valid user required", λ clock s. rw (e, create_user))
    | inr (m, e) ↦
        elim (Bool-cases (m.id == "" || m.display_name == "" || m.idempotency_key == "")) [
          | inl bad ↦ (
            refuses bad_request "invalid_user" "Valid user required",
            λ clock s. rw (e, bad, create_user),
          )
          | inr good ↦
              (changes m.idempotency_key (user_created m), λ clock s. rw (e, good, create_user))
        ]
  ]

  pub set_user_status-IsConducted : IsConducted (λ clock s. set_user_status json clock s r)
  unfolding set_user_status
  set_user_status-IsConducted = elim (Option-cases (limited json.status_change r.body)) [
    | inl e ↦ (
      refuses bad_request "invalid_status" "Valid confirmed status required",
      λ clock s. rw (e, set_user_status),
    )
    | inr (m, e) ↦
        elim (Bool-cases (
          m.idempotency_key == ""
          || m.confirmation != disable_user_confirmation
          || m.status != "active" && m.status != "disabled")) [
            | inl bad ↦ (
              refuses bad_request "invalid_status" "Valid confirmed status required",
              λ clock s. rw (e, bad, set_user_status),
            )
            | inr good ↦ elim (Option-cases (user_part (split_slash (trim_slashes r.path)))) [
              | inl f ↦ (
                refuses bad_request "invalid_path" "Valid user path required",
                λ clock s. rw (e, good, f, set_user_status),
              )
              | inr (id, f) ↦ (
                changes m.idempotency_key (status_set m id),
                λ clock s. rw (e, good, f, set_user_status),
              )
            ]
          ]
  ]

  pub create_role-IsConducted : IsConducted (λ clock s. create_role json clock s r)
  unfolding create_role
  create_role-IsConducted = elim (Option-cases (limited json.new_role r.body)) [
    | inl e ↦
        (refuses bad_request "invalid_role" "Valid role required", λ clock s. rw (e, create_role))
    | inr (m, e) ↦
        elim (Bool-cases (m.key == "" || m.display_name == "" || m.idempotency_key == "")) [
          | inl bad ↦ (
            refuses bad_request "invalid_role" "Valid role required",
            λ clock s. rw (e, bad, create_role),
          )
          | inr good ↦
              (changes m.idempotency_key (role_created m), λ clock s. rw (e, good, create_role))
        ]
  ]

  pub update_role-IsConducted : IsConducted (λ clock s. update_role json clock s r)
  unfolding update_role
  update_role-IsConducted = elim (Option-cases (limited json.role_update r.body)) [
    | inl e ↦ (
      refuses bad_request "invalid_role" "Valid role update required",
      λ clock s. rw (e, update_role),
    )
    | inr (m, e) ↦ elim (Bool-cases (m.display_name == "" || m.idempotency_key == "")) [
      | inl bad ↦ (
        refuses bad_request "invalid_role" "Valid role update required",
        λ clock s. rw (e, bad, update_role),
      )
      | inr good ↦ (
        changes m.idempotency_key (role_updated m (trim_prefix r.path role_prefix)),
        λ clock s. rw (e, good, update_role),
      )
    ]
  ]

  pub change_user_role-IsConducted : IsConducted (λ clock s. change_user_role json clock s r)
  unfolding change_user_role
  change_user_role-IsConducted = elim (Option-cases (limited json.versioned r.body)) [
    | inl e ↦ (
      refuses bad_request "invalid_assignment" "Valid role assignment required",
      λ clock s. rw (e, change_user_role),
    )
    | inr (m, e) ↦ elim (Bool-cases (m.idempotency_key == "")) [
      | inl bad ↦ (
        refuses bad_request "invalid_assignment" "Valid role assignment required",
        λ clock s. rw (e, bad, change_user_role),
      )
      | inr good ↦ elim (Option-cases (assignment_parts (split_slash (trim_slashes r.path)))) [
        | inl f ↦ (
          refuses bad_request "invalid_path" "Valid role assignment path required",
          λ clock s. rw (e, good, f, change_user_role),
        )
        | inr ((id, key), f) ↦ (
          changes m.idempotency_key (user_role_changed m (r.method == "PUT") id key),
          λ clock s. rw (e, good, f, change_user_role),
        )
      ]
    ]
  ]

  pub workflow_mutation-IsConducted :
      (confirmation : String) (retry : Bool)
      → IsConducted (λ clock s. workflow_mutation json clock s r confirmation retry)
  unfolding workflow_mutation
  workflow_mutation-IsConducted confirmation retry =
      elim (Option-cases (limited json.versioned r.body)) [
        | inl e ↦ (
          refuses bad_request "invalid_workflow_mutation"
              "Valid confirmed workflow mutation required",
          λ clock s. rw (e, workflow_mutation),
        )
        | inr (m, e) ↦
            elim (Bool-cases (m.confirmation != confirmation || m.idempotency_key == "")) [
              | inl bad ↦ (
                refuses bad_request "invalid_workflow_mutation"
                    "Valid confirmed workflow mutation required",
                λ clock s. rw (e, bad, workflow_mutation),
              )
              | inr good ↦ (
                changes m.idempotency_key (workflow_changed m retry),
                λ clock s. rw (e, good, workflow_mutation),
              )
            ]
      ]

  pub publish_plan-IsConducted : IsConducted (λ clock s. publish_plan json clock s r)
  unfolding publish_plan
  publish_plan-IsConducted = elim (Option-cases (limited json.plan_change r.body)) [
    | inl e ↦ (
      refuses bad_request "invalid_quota_plan" "Valid confirmed quota plan required",
      λ clock s. rw (e, publish_plan),
    )
    | inr (m, e) ↦
        elim (Bool-cases (m.confirmation != publish_plan_confirmation || m.idempotency_key == "")) [
          | inl bad ↦ (
            refuses bad_request "invalid_quota_plan" "Valid confirmed quota plan required",
            λ clock s. rw (e, bad, publish_plan),
          )
          | inr good ↦
              (changes m.idempotency_key (plan_published m), λ clock s. rw (e, good, publish_plan))
        ]
  ]
