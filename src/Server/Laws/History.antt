-- ===== src/Server/Laws/History.antt =====
-- What the requests to the routes of internal/server do to the broker, and the statuses they end in.
use jimu_studio.Base.{
  Bool, true, false, ◌≡◌, refl, arith, ◌==◌, ◌!=◌, ◌||◌, not, Option-cases, inl, inr,
}
use jimu_studio.Base.Int.{pos}
use jimu_studio.Auth.Types.{AuthError, SessionView, Broker}
use jimu_studio.Provider.Types.{ApiError}
use jimu_studio.Auth.Begin.{begin}
use jimu_studio.Auth.Complete.{complete}
use jimu_studio.Auth.Session.{session, switch, logout}
use jimu_studio.Auth.Runs.{begins, completes, visits, switches, logs_out, step}
use jimu_studio.Server.Types.{get, Request, Env, Content, Response}
use jimu_studio.Server.Guards.{
  max_auth_form_bytes, render, cookie_value, same_site_mutation, set_cookie, clear_cookie,
}
use jimu_studio.Server.Login.{index, login, callback, switch_tenant, switch_status, sign_out}
use jimu_studio.Server.Routes.{
  Route, get_root, post_auth_login, get_auth_callback, post_auth_switch, post_auth_logout,
  get_metadata, get_metadata_new, post_metadata_create, get_metadata_edit, post_metadata_edit,
  post_metadata_delete_plan, post_metadata_delete_apply, post_metadata_plan, post_metadata_apply,
  get_identity, post_identity_mutate, get_workflows, post_workflows_mutate, get_quota,
  post_quota_publish, get_audit, serve,
}
use jimu_studio.Server.Laws.Kept.{is_http_status, Keeps, Kept, kept, either, proceed_kept}
use jimu_studio.Server.Laws.Handlers.{
  metadata_list_kept, metadata_edit_kept, metadata_new_kept, metadata_mutate_kept,
}
use jimu_studio.Server.Laws.Planned.{
  metadata_delete_plan_kept, metadata_delete_apply_kept, migration_plan_kept, migration_apply_kept,
}
use jimu_studio.Server.Laws.Administered.{identity_list_kept, identity_mutate_kept}
use jimu_studio.Server.Laws.Operated.{
  workflow_list_kept, workflow_mutate_kept, quota_list_kept, quota_publish_kept, audit_list_kept,
}

-- The routes whose errors keep the status that the provider's body claims.
abbrev pub shows_provider_status : Route → Bool
shows_provider_status post_identity_mutate = true
shows_provider_status post_workflows_mutate = true
shows_provider_status post_quota_publish = true
shows_provider_status _ = false

switch_status_lem : (e : AuthError) → is_http_status (pos (switch_status e)) ≡ true
switch_status_lem e = ground arith

module _ {ℓ κ} {P : Broker → Type ℓ} {Q : Response → Type κ} (c : Keeps P Q) where
  index_kept : (env : Env) (b : Broker) (r : Request) → P b → Kept P Q (index env b r)
  unfolding index step clear_cookie
  index_kept env b r h =
      let id = cookie_value env r "session" in
      either c (r.path != "/") _ _ (kept c _ _ h (c.valid _ refl)) (
        either c (id == "") _ _ (kept c _ _ h (c.valid _ refl))
          (elim (Option-cases (session b (env.world 0) id).1) [
            | inl f ↦ rw f (kept c _ _ (c.steps b (visits (env.world 0) id) h) (c.valid _ refl))
            | inr (v, f) ↦
                rw f (kept c _ _ (c.steps b (visits (env.world 0) id) h) (c.valid _ refl))
          ]))

  login_kept : (env : Env) (b : Broker) (r : Request) → P b → Kept P Q (login env b r)
  unfolding login step set_cookie
  login_kept env b r h =
      either c (cookie_value env r "session" != "") _ _ (kept c _ _ h (c.valid _ refl)) (
        either c (not (same_site_mutation env r)) _ _ (kept c _ _ h (c.valid _ refl))
          (elim (Option-cases (r.form max_auth_form_bytes)) [
            | inl f ↦ rw f (kept c _ _ h (c.valid _ refl))
            | inr (form, f) ↦ rw f (
                proceed_kept c (begin b (env.world 0) (get "tenant" form)) _ _
                  (c.steps b (begins (env.world 0) (get "tenant" form)) h)
                  (λ b' e h'. kept c _ _ h' (c.valid _ refl))
                  (λ b' p h'. kept c _ _ h' (c.valid _ refl)))
          ]))

  callback_kept : (env : Env) (b : Broker) (r : Request) → P b → Kept P Q (callback env b r)
  unfolding callback step set_cookie clear_cookie
  callback_kept env b r h =
      let id = cookie_value env r "pending" in
      either c (id == "" || r.query "error" != "") _ _ (kept c _ _ h (c.valid _ refl)) (
        proceed_kept c (complete b (env.world 0) id (r.query "state") (r.query "code")) _ _
          (c.steps b (completes (env.world 0) id (r.query "state") (r.query "code")) h)
          (λ b' e h'. kept c _ _ h' (c.valid _ refl)) (λ b' s h'. kept c _ _ h' (c.valid _ refl)))

  switch_tenant_kept :
      (env : Env) (b : Broker) (r : Request) → P b → Kept P Q (switch_tenant env b r)
  unfolding switch_tenant step set_cookie clear_cookie
  switch_tenant_kept env b r h =
      let id = cookie_value env r "session" in
      either c (not (same_site_mutation env r)) _ _ (kept c _ _ h (c.valid _ refl))
        (elim (Option-cases (r.form max_auth_form_bytes)) [
          | inl f ↦ rw f (kept c _ _ h (c.valid _ refl))
          | inr (form, f) ↦ rw f (
              proceed_kept c (switch b (env.world 0) id (get "csrf" form) (get "tenant" form)) _ _
                (c.steps b (switches (env.world 0) id (get "csrf" form) (get "tenant" form)) h)
                (λ b' e h'. kept c _ _ h' (c.valid _ (switch_status_lem e)))
                (λ b' p h'. kept c _ _ h' (c.valid _ refl)))
        ])

  sign_out_kept : (env : Env) (b : Broker) (r : Request) → P b → Kept P Q (sign_out env b r)
  unfolding sign_out step set_cookie clear_cookie
  sign_out_kept env b r h =
      let id = cookie_value env r "session" in
      either c (not (same_site_mutation env r)) _ _ (kept c _ _ h (c.valid _ refl))
        (elim (Option-cases (r.form max_auth_form_bytes)) [
          | inl f ↦ rw f (kept c _ _ h (c.valid _ refl))
          | inr (form, f) ↦ rw f (
              proceed_kept c (logout b id (get "csrf" form)) _ _
                (c.steps b (logs_out id (get "csrf" form)) h)
                (λ b' e h'. kept c _ _ h' (c.valid _ refl))
                (λ b' u h'. kept c _ _ h' (c.valid _ refl)))
        ])

  pub serve_kept :
      (env : Env) (route : Route) (b : Broker) (r : Request)
      → (shows_provider_status route ≡ true
          → (v : SessionView) (e : ApiError) (content : Content) → Q (render v e.status content))
      → P b
      → Kept P Q (serve env route b r)
  unfolding serve
  serve_kept env get_root b r foreign h = index_kept env b r h
  serve_kept env post_auth_login b r foreign h = login_kept env b r h
  serve_kept env get_auth_callback b r foreign h = callback_kept env b r h
  serve_kept env post_auth_switch b r foreign h = switch_tenant_kept env b r h
  serve_kept env post_auth_logout b r foreign h = sign_out_kept env b r h
  serve_kept env get_metadata b r foreign h = metadata_list_kept c env b r h
  serve_kept env get_metadata_new b r foreign h = metadata_new_kept c env b r h
  serve_kept env post_metadata_create b r foreign h = metadata_mutate_kept c env true b r h
  serve_kept env get_metadata_edit b r foreign h = metadata_edit_kept c env b r h
  serve_kept env post_metadata_edit b r foreign h = metadata_mutate_kept c env false b r h
  serve_kept env post_metadata_delete_plan b r foreign h = metadata_delete_plan_kept c env b r h
  serve_kept env post_metadata_delete_apply b r foreign h = metadata_delete_apply_kept c env b r h
  serve_kept env post_metadata_plan b r foreign h = migration_plan_kept c env b r h
  serve_kept env post_metadata_apply b r foreign h = migration_apply_kept c env b r h
  serve_kept env get_identity b r foreign h = identity_list_kept c env b r h
  serve_kept env post_identity_mutate b r foreign h =
      identity_mutate_kept c (foreign refl) env b r h
  serve_kept env get_workflows b r foreign h = workflow_list_kept c env b r h
  serve_kept env post_workflows_mutate b r foreign h =
      workflow_mutate_kept c (foreign refl) env b r h
  serve_kept env get_quota b r foreign h = quota_list_kept c env b r h
  serve_kept env post_quota_publish b r foreign h = quota_publish_kept c (foreign refl) env b r h
  serve_kept env get_audit b r foreign h = audit_list_kept c env b r h

status-Keeps : Keeps (λ (b : Broker). Unit {0}) (λ response. is_http_status response.status ≡ true)
status-Keeps = record { steps = λ b c h. tt; valid = λ response e. e }

-- Every answer of a route has a status from 100 to 599, whatever the provider answers, but those of
-- the mutations of identity, workflows and quota, whose errors keep the provider's status.
pub serve-is_http_status :
    (env : Env) (route : Route) (b : Broker) (r : Request)
    → shows_provider_status route ≡ false
    → is_http_status (serve env route b r).1.status ≡ true
serve-is_http_status env route b r hidden =
    (serve_kept status-Keeps env route b r (λ shows v e content. let bad = rw hidden at shows in cc)
      tt).answer
