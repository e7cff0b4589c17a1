-- ===== src/Server/Laws/Handlers.antt =====
-- The metadata handlers of internal/server keep what Kept is about.
use jimu_studio.Base.{ℕ, String, Bool, none, refl, Option-cases, inl, inr}
use jimu_studio.Base.Int.{ℤ}
use jimu_studio.Auth.Types.{SessionView, Broker}
use jimu_studio.Provider.Types.{Entity, ProviderError}
use jimu_studio.Server.Types.{Form, Request, Env, Response}
use jimu_studio.Server.Metadata.{
  metadata_list, find_entity, metadata_edit, metadata_new, parse_metadata_entity, metadata_failed,
  metadata_put, metadata_guards, metadata_submitted, metadata_mutate,
}
use jimu_studio.Server.Laws.Kept.{
  Keeps, Kept, kept, either, proceed_cases, proceed_kept, asked_kept, drawn_kept, cleared_kept,
  metadata_error_kept, admit_kept, visit_kept,
}

module _ {ℓ κ} {P : Broker → Type ℓ} {Q : Response → Type κ} (c : Keeps P Q) where
  pub found_kept :
      (env : Env) (n : ℕ) (b : Broker) (id code : String) → P b → P (find_entity env n b id code).0
  unfolding find_entity
  found_kept env n b id code h =
      proceed_cases c (λ x. P x.0) _ _ _ (asked_kept c env n b id _ h) (λ b' e h'. h')
        (λ b' page h'. h')

  pub metadata_list_kept :
      (env : Env) (b : Broker) (r : Request) → P b → Kept P Q (metadata_list env b r)
  unfolding metadata_list
  metadata_list_kept env b r h = visit_kept c none env b r _ h λ b₁ id v h₁.
      either c _ _ _ (kept c _ _ h₁ (c.valid _ refl)) (
        proceed_kept c _ _ _ (asked_kept c env 1 b₁ id _ h₁)
          (λ b₂ e h₂. kept c _ _ h₂ (metadata_error_kept c env v e))
          (λ b₂ page h₂. kept c _ _ h₂ (c.valid _ refl)))

  pub metadata_edit_kept :
      (env : Env) (b : Broker) (r : Request) → P b → Kept P Q (metadata_edit env b r)
  unfolding metadata_edit
  metadata_edit_kept env b r h = visit_kept c none env b r _ h λ b₁ id v h₁.
      either c _ _ _ (kept c _ _ h₁ (c.valid _ refl)) (
        proceed_kept c _ _ _ (found_kept env 1 b₁ id _ h₁)
          (λ b₂ e h₂. kept c _ _ h₂ (metadata_error_kept c env v e))
          (λ b₂ entity h₂. kept c _ _ h₂ (c.valid _ refl)))

  pub metadata_new_kept :
      (env : Env) (b : Broker) (r : Request) → P b → Kept P Q (metadata_new env b r)
  unfolding metadata_new
  metadata_new_kept env b r h =
      visit_kept c _ env b r _ h λ b₁ id v h₁. kept c _ _ h₁ (c.valid _ refl)

  metadata_failed_kept :
      (env : Env) (b : Broker) (id : String) (v : SessionView) (create : Bool) (entity : Entity)
      (e : ProviderError)
      → P b
      → Kept P Q (metadata_failed env b id v create entity e)
  unfolding metadata_failed
  metadata_failed_kept env b id v create entity e h =
      either c _ _ _
        (proceed_kept c _ _ _ (found_kept env 3 b id entity.code h)
          (λ b' e' h'. kept c _ _ h' (metadata_error_kept c env v e'))
          (λ b' current h'. kept c _ _ h' (c.valid _ refl)))
        (either c _ _ _ (kept c _ _ h (c.valid _ refl))
          (kept c _ _ h (metadata_error_kept c env v e)))

  metadata_put_kept :
      (env : Env) (create : Bool) (b : Broker) (id : String) (v : SessionView) (entity : Entity)
      (version : ℤ)
      → P b
      → Kept P Q (metadata_put env create b id v entity version)
  unfolding metadata_put
  metadata_put_kept env create b id v entity version h =
      proceed_kept c _ _ _ (drawn_kept c env 1 b id _ h)
        (λ b₁ e h₁. kept c _ _ h₁ (metadata_error_kept c env v _))
        (λ b₁ key h₁.
          proceed_kept c _ _ _ (asked_kept c env 2 b₁ id _ h₁)
            (λ b₂ e h₂. metadata_failed_kept env b₂ id v create entity e h₂)
            (λ b₂ updated h₂. kept c _ _ (cleared_kept c b₂ id _ h₂) (c.valid _ refl)))

  metadata_submitted_kept :
      (env : Env) (create : Bool) (b : Broker) (id : String) (v : SessionView) (form : Form)
      → P b
      → Kept P Q (metadata_submitted env create b id v form)
  unfolding metadata_submitted
  metadata_submitted_kept env create b id v form h =
      let p = parse_metadata_entity env form in
      elim (Option-cases p.error) [
        | inr (text, f) ↦ rw (f, metadata_submitted) (kept c _ _ h (c.valid _ refl))
        | inl f ↦
            rw (f, metadata_submitted)
              (either c _ _ _ (kept c _ _ h (c.valid _ refl))
                (metadata_put_kept env create b id v p.entity p.expected_version h))
      ]

  pub metadata_mutate_kept :
      (env : Env) (create : Bool) (b : Broker) (r : Request)
      → P b
      → Kept P Q (metadata_mutate env create b r)
  unfolding metadata_mutate
  metadata_mutate_kept env create b r h =
      admit_kept c metadata_guards env b r _ h (metadata_submitted_kept env create)
