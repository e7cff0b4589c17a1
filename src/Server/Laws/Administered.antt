-- ===== src/Server/Laws/Administered.antt =====
-- The handlers of internal/server/identity.go keep what Kept is about; the mutation, which shows the
-- provider's own status do so for a property of answers that says nothing of the status.
use jimu_studio.Base.{ℕ, String, refl, Option-cases, inl, inr, Bool-cases, ◌==◌, ◌||◌, not}
use jimu_studio.Base.Int.{ℤ, pos}
use jimu_studio.Auth.Types.{SessionView, Broker}
use jimu_studio.Provider.Types.{ApiError, ProviderError, api, plain}
use jimu_studio.Server.Types.{Form, get, Request, Env, Content, Response}
use jimu_studio.Server.Guards.{render, bounded_browser_value}
use jimu_studio.Server.Identity.{
  render_identity, identity_list, find_identity_role, identity_refused, identity_run,
  identity_checked, identity_versioned, parse_identity_version, identity_submitted, identity_guards,
  identity_mutate,
}
use jimu_studio.Server.Laws.Kept.{
  Keeps, Kept, kept, either, proceed_cases, proceed_kept, asked_kept, drawn_kept, cleared_kept,
  metadata_error_kept, admit_kept, visit_kept,
}

module _ {ℓ κ} {P : Broker → Type ℓ} {Q : Response → Type κ} (c : Keeps P Q) where
  render_identity_kept :
      (env : Env) (n : ℕ) (b : Broker) (r : Request) (id : String) (v : SessionView) (status : ℤ)
      (message request_id : String)
      → ((content : Content) → Q (render v status content))
      → P b
      → Kept P Q (render_identity env n b r id v status message request_id)
  unfolding render_identity
  render_identity_kept env n b r id v status message request_id shown h =
      either c _ _ _ (kept c _ _ h (c.valid _ refl)) (
        proceed_kept c _ _ _ (asked_kept c env n b id _ h)
          (λ b' e h'. kept c _ _ h' (metadata_error_kept c env v e))
          (λ b' listed h'. kept c _ _ h' (shown _)))

  pub identity_list_kept :
      (env : Env) (b : Broker) (r : Request) → P b → Kept P Q (identity_list env b r)
  unfolding identity_list
  identity_list_kept env b r h = visit_kept c _ env b r _ h λ b₁ id v h₁.
      render_identity_kept env 1 b₁ r id v (pos 200) _ _ (λ content. c.valid _ refl) h₁

  -- The mutations whose errors show the provider's status.
  module _
      (foreign : (v : SessionView) (e : ApiError) (content : Content)
        → Q (render v e.status content)) where
    identity_refused_kept :
        (env : Env) (b : Broker) (r : Request) (id : String) (v : SessionView) (e : ProviderError)
        → P b
        → Kept P Q (identity_refused env b r id v e)
    unfolding identity_refused
    identity_refused_kept env b r id v (plain text) h = kept c _ _ h (metadata_error_kept c env v _)
    identity_refused_kept env b r id v (api e) h =
        render_identity_kept env 4 b r id v e.status _ _ (foreign v e) h

    identity_run_kept :
        (env : Env) (b : Broker) (r : Request) (id : String) (v : SessionView) (form : Form)
        (action : String) (version : ℤ)
        → P b
        → Kept P Q (identity_run env b r id v form action version)
    unfolding identity_run
    identity_run_kept env b r id v form action version h =
        proceed_kept c _ _ _ (drawn_kept c env 2 b id _ h)
          (λ b₁ e h₁. kept c _ _ h₁ (metadata_error_kept c env v _))
          (λ b₁ key h₁.
            proceed_kept c _ _ _ (asked_kept c env 3 b₁ id _ h₁)
              (λ b₂ e h₂. identity_refused_kept env b₂ r id v e h₂)
              (λ b₂ u h₂. kept c _ _ (cleared_kept c b₂ id _ h₂) (c.valid _ refl)))

    found_role_kept :
        (env : Env) (n : ℕ) (b : Broker) (id key : String)
        → P b
        → P (find_identity_role env n b id key).0
    unfolding find_identity_role
    found_role_kept env n b id key h =
        elim (Bool-cases (not (bounded_browser_value key 256) || key == "")) [
          | inl bad ↦ rw (bad, find_identity_role) h
          | inr good ↦
              rw (good, find_identity_role)
                (proceed_cases c (λ x. P x.0) _ _ _ (asked_kept c env n b id _ h) (λ b' e h'. h')
                  (λ b' page h'. h'))
        ]

    identity_checked_kept :
        (env : Env) (b : Broker) (r : Request) (id : String) (v : SessionView) (form : Form)
        (action : String) (version : ℤ)
        → P b
        → Kept P Q (identity_checked env b r id v form action version)
    unfolding identity_checked
    identity_checked_kept env b r id v form action version h =
        either c _ _ _ (identity_run_kept env b r id v form action version h) (
          proceed_kept c _ _ _ (found_role_kept env 1 b id _ h)
            (λ b' e h'. kept c _ _ h' (metadata_error_kept c env v e))
            (λ b' role h'.
              either c _ _ _
                (render_identity_kept env 2 b' r id v (pos 409) _ _ (λ content. c.valid _ refl) h')
                (identity_run_kept env b' r id v form action version h')))

    identity_submitted_kept :
        (env : Env) (r : Request) (b : Broker) (id : String) (v : SessionView) (form : Form)
        → P b
        → Kept P Q (identity_submitted env r b id v form)
    unfolding identity_submitted
    identity_submitted_kept env r b id v form h =
        elim (Option-cases (
          identity_versioned (get "action" form)
            (parse_identity_version env (get "expected_version" form)))) [
              | inl f ↦
                  rw (f, identity_submitted)
                    (either c _ _ _ (kept c _ _ h (c.valid _ refl)) (
                      either c _ _ _
                        (render_identity_kept env 1 b r id v (pos 400) _ _
                          (λ content. c.valid _ refl) h)
                        (kept c _ _ h (c.valid _ refl))))
              | inr (version, f) ↦
                  rw (f, identity_submitted)
                    (either c _ _ _ (kept c _ _ h (c.valid _ refl)) (
                      either c _ _ _
                        (render_identity_kept env 1 b r id v (pos 400) _ _
                          (λ content. c.valid _ refl) h)
                        (identity_checked_kept env b r id v form _ version h)))
            ]

    pub identity_mutate_kept :
        (env : Env) (b : Broker) (r : Request) → P b → Kept P Q (identity_mutate env b r)
    unfolding identity_mutate
    identity_mutate_kept env b r h =
        admit_kept c identity_guards env b r _ h (identity_submitted_kept env r)
