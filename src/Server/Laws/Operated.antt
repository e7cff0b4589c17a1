-- ===== src/Server/Laws/Operated.antt =====
-- The handlers of internal/server/operations.go keep what Kept is about; the mutations, which show the
-- provider's own status do so for a property of answers that says nothing of the status.
use jimu_studio.Base.{ℕ, String, refl, Option-cases, inl, inr}
use jimu_studio.Base.Int.{ℤ, pos}
use jimu_studio.Auth.Types.{SessionView, Broker}
use jimu_studio.Provider.Types.{QuotaPlan, ApiError, ProviderError, api, plain}
use jimu_studio.Server.Types.{Form, get, Request, Env, Content, Response}
use jimu_studio.Server.Guards.{render}
use jimu_studio.Server.Identity.{parse_identity_version}
use jimu_studio.Server.Workflows.{
  Renderer, render_operation_error, render_workflows, workflow_list, workflow_run,
  required_confirmation, workflow_submitted, workflow_guards, workflow_mutate,
}
use jimu_studio.Server.Quota.{
  render_quota, quota_list, quota_run, quota_plan_of, quota_submitted, quota_guards, quota_publish,
  audit_list,
}
use jimu_studio.Server.Laws.Kept.{
  Keeps, Kept, kept, either, proceed_kept, asked_kept, drawn_kept, cleared_kept,
  metadata_error_kept, admit_kept, visit_kept,
}

module _ {ℓ κ} {P : Broker → Type ℓ} {Q : Response → Type κ} (c : Keeps P Q) where
  render_workflows_kept :
      (env : Env) (n : ℕ) (b : Broker) (r : Request) (id : String) (v : SessionView) (status : ℤ)
      (message request_id : String)
      → ((content : Content) → Q (render v status content))
      → P b
      → Kept P Q (render_workflows env n r id v b status message request_id)
  unfolding render_workflows
  render_workflows_kept env n b r id v status message request_id shown h =
      either c _ _ _ (kept c _ _ h (c.valid _ refl)) (
        proceed_kept c _ _ _ (asked_kept c env n b id _ h)
          (λ b' e h'. kept c _ _ h' (metadata_error_kept c env v e))
          (λ b' listed h'. kept c _ _ h' (shown _)))

  pub workflow_list_kept :
      (env : Env) (b : Broker) (r : Request) → P b → Kept P Q (workflow_list env b r)
  unfolding workflow_list
  workflow_list_kept env b r h = visit_kept c _ env b r _ h λ b₁ id v h₁.
      render_workflows_kept env 1 b₁ r id v (pos 200) _ _ (λ content. c.valid _ refl) h₁

  render_quota_kept :
      (env : Env) (n : ℕ) (b : Broker) (r : Request) (id : String) (v : SessionView) (status : ℤ)
      (message request_id : String)
      → ((content : Content) → Q (render v status content))
      → P b
      → Kept P Q (render_quota env n r id v b status message request_id)
  unfolding render_quota
  render_quota_kept env n b r id v status message request_id shown h =
      either c _ _ _ (kept c _ _ h (c.valid _ refl)) (
        proceed_kept c _ _ _ (asked_kept c env n b id _ h)
          (λ b' e h'. kept c _ _ h' (metadata_error_kept c env v e))
          (λ b' listed h'. kept c _ _ h' (shown _)))

  pub quota_list_kept : (env : Env) (b : Broker) (r : Request) → P b → Kept P Q (quota_list env b r)
  unfolding quota_list
  quota_list_kept env b r h =
      visit_kept c _ env b r _ h
        λ b₁ id v h₁. render_quota_kept env 1 b₁ r id v (pos 200) _ _ (λ content. c.valid _ refl) h₁

  pub audit_list_kept : (env : Env) (b : Broker) (r : Request) → P b → Kept P Q (audit_list env b r)
  unfolding audit_list
  audit_list_kept env b r h = visit_kept c _ env b r _ h λ b₁ id v h₁.
      either c _ _ _ (kept c _ _ h₁ (c.valid _ refl)) (
        proceed_kept c _ _ _ (asked_kept c env 1 b₁ id _ h₁)
          (λ b₂ e h₂. kept c _ _ h₂ (metadata_error_kept c env v e))
          (λ b₂ page h₂. kept c _ _ h₂ (c.valid _ refl)))

  -- The mutations whose errors show the provider's status.
  module _
      (foreign : (v : SessionView) (e : ApiError) (content : Content)
        → Q (render v e.status content)) where
    operation_error_kept :
        (env : Env) (b : Broker) (v : SessionView) (e : ProviderError) (shown : Renderer)
        → P b
        → ((status : ℤ) (message request_id : String)
            → ((content : Content) → Q (render v status content))
            → Kept P Q (shown b status message request_id))
        → Kept P Q (render_operation_error env b v e shown)
    unfolding render_operation_error
    operation_error_kept env b v (plain text) shown h k =
        kept c _ _ h (metadata_error_kept c env v _)
    operation_error_kept env b v (api e) shown h k = k e.status _ _ (foreign v e)

    workflow_run_kept :
        (env : Env) (b : Broker) (r : Request) (id : String) (v : SessionView) (form : Form)
        (version : ℤ)
        → P b
        → Kept P Q (workflow_run env b r id v form version)
    unfolding workflow_run
    workflow_run_kept env b r id v form version h =
        proceed_kept c _ _ _ (drawn_kept c env 1 b id _ h)
          (λ b₁ e h₁. kept c _ _ h₁ (metadata_error_kept c env v _))
          (λ b₁ key h₁.
            proceed_kept c _ _ _ (asked_kept c env 2 b₁ id _ h₁)
              (λ b₂ e h₂. operation_error_kept env b₂ v e _ h₂ (λ status message request_id shown.
                render_workflows_kept env 3 b₂ r id v status message request_id shown h₂))
              (λ b₂ u h₂. kept c _ _ (cleared_kept c b₂ id _ h₂) (c.valid _ refl)))

    quota_run_kept :
        (env : Env) (b : Broker) (r : Request) (id : String) (v : SessionView) (form : Form)
        (version : ℤ) (plan : QuotaPlan)
        → P b
        → Kept P Q (quota_run env b r id v form version plan)
    unfolding quota_run
    quota_run_kept env b r id v form version plan h =
        proceed_kept c _ _ _ (drawn_kept c env 1 b id _ h)
          (λ b₁ e h₁. kept c _ _ h₁ (metadata_error_kept c env v _))
          (λ b₁ key h₁.
            proceed_kept c _ _ _ (asked_kept c env 2 b₁ id _ h₁)
              (λ b₂ e h₂. operation_error_kept env b₂ v e _ h₂ (λ status message request_id shown.
                render_quota_kept env 3 b₂ r id v status message request_id shown h₂))
              (λ b₂ u h₂. kept c _ _ (cleared_kept c b₂ id _ h₂) (c.valid _ refl)))

    workflow_submitted_kept :
        (env : Env) (r : Request) (b : Broker) (id : String) (v : SessionView) (form : Form)
        → P b
        → Kept P Q (workflow_submitted env r b id v form)
    unfolding workflow_submitted
    workflow_submitted_kept env r b id v form h =
        elim (Option-cases (parse_identity_version env (get "expected_version" form))) [
          | inl f ↦ rw (f, workflow_submitted) (kept c _ _ h (c.valid _ refl))
          | inr (version, f) ↦ elim (Option-cases (required_confirmation (get "action" form))) [
            | inl g ↦
                rw (f, g, workflow_submitted)
                  (either c _ _ _ (kept c _ _ h (c.valid _ refl)) (kept c _ _ h (c.valid _ refl)))
            | inr (required, g) ↦
                rw (f, g, workflow_submitted)
                  (either c _ _ _ (kept c _ _ h (c.valid _ refl)) (
                    either c _ _ _
                      (render_workflows_kept env 1 b r id v (pos 400) _ _
                        (λ content. c.valid _ refl) h)
                      (workflow_run_kept env b r id v form version h)))
          ]
        ]

    pub workflow_mutate_kept :
        (env : Env) (b : Broker) (r : Request) → P b → Kept P Q (workflow_mutate env b r)
    unfolding workflow_mutate
    workflow_mutate_kept env b r h =
        admit_kept c workflow_guards env b r _ h (workflow_submitted_kept env r)

    quota_submitted_kept :
        (env : Env) (r : Request) (b : Broker) (id : String) (v : SessionView) (form : Form)
        → P b
        → Kept P Q (quota_submitted env r b id v form)
    unfolding quota_submitted
    quota_submitted_kept env r b id v form h = elim (Option-cases (quota_plan_of env form)) [
      | inl f ↦
          rw (f, quota_submitted)
            (either c _ _ _
              (render_quota_kept env 1 b r id v (pos 400) _ _ (λ content. c.valid _ refl) h)
              (kept c _ _ h (c.valid _ refl)))
      | inr ((version, plan), f) ↦
          rw (f, quota_submitted)
            (either c _ _ _
              (render_quota_kept env 1 b r id v (pos 400) _ _ (λ content. c.valid _ refl) h)
              (quota_run_kept env b r id v form version plan h))
    ]

    pub quota_publish_kept :
        (env : Env) (b : Broker) (r : Request) → P b → Kept P Q (quota_publish env b r)
    unfolding quota_publish
    quota_publish_kept env b r h =
        admit_kept c quota_guards env b r _ h (quota_submitted_kept env r)
