-- ===== src/Server/Laws/Guarded.antt =====
-- The guards in front of the handlers of internal/server.
use jimu_studio.Base.{String, true, Option, none, some, ◌≡◌, refl, arith, subst, inl, inr, ◌⊎◌}
use jimu_studio.Base.Lists.{contains}
use jimu_studio.Auth.Types.{SessionView, Broker}
use jimu_studio.Auth.Session.{session}
use jimu_studio.Server.Types.{Form, get, Request, Env, Response}
use jimu_studio.Server.Laws.Searched.{has_role-contains}
use jimu_studio.Server.Guards.{
  max_metadata_form_bytes, cookie_value, same_site_mutation, Guards, visit,
}
use jimu_studio.Server.Metadata.{metadata_new}
use jimu_studio.Server.Identity.{identity_list}
use jimu_studio.Server.Workflows.{workflow_list}
use jimu_studio.Server.Quota.{quota_list, audit_list}
use jimu_studio.Server.Routes.{
  Route, get_root, post_auth_login, get_auth_callback, post_auth_switch, post_auth_logout,
  get_metadata, get_metadata_new, post_metadata_create, get_metadata_edit, post_metadata_edit,
  post_metadata_delete_plan, post_metadata_delete_apply, post_metadata_plan, post_metadata_apply,
  get_identity, post_identity_mutate, get_workflows, post_workflows_mutate, get_quota,
  post_quota_publish, get_audit, serve,
}
use jimu_studio.Server.Laws.Cases.{IsRefusal, IsUntouched, visit_cases}

-- The role that a mutation of the provider's resources needs.
unfoldable pub mutation_role : Route → Option String
mutation_role post_metadata_create = some "studio.metadata.write"
mutation_role post_metadata_edit = some "studio.metadata.write"
mutation_role post_metadata_plan = some "studio.metadata.write"
mutation_role post_metadata_delete_plan = some "studio.metadata.apply"
mutation_role post_metadata_delete_apply = some "studio.metadata.apply"
mutation_role post_metadata_apply = some "studio.metadata.apply"
mutation_role post_identity_mutate = some "identity.admin"
mutation_role post_workflows_mutate = some "studio.workflow.operate"
mutation_role post_quota_publish = some "studio.quota.admin"
mutation_role _ = none

-- A mutation that may happen: from the Studio's own site, with the cookie of a visible session that
-- has the role, and with the session's CSRF token in a form.
pub record MayMutate (env : Env) (b : Broker) (r : Request) (role : String) : Type 0 where
  pub same_site : same_site_mutation env r ≡ true
  pub after : Broker
  pub view : SessionView
  pub seen : session b (env.world 0) (cookie_value env r "session") ≡ (after, some view)
  pub allowed : contains view.roles role ≡ true
  pub form : Form
  pub parsed : r.form max_metadata_form_bytes ≡ some form
  pub csrf : get "csrf" form ≡ view.csrf

abbrev Guarded : Env → Broker → Request → String → Broker × Response → Type 0
Guarded env b r role x = (IsUntouched env b r x.0 × IsRefusal x.1) ⊎ MayMutate env b r role

-- The role that a page of reading needs.
unfoldable pub reading_role : Route → Option String
reading_role get_metadata_new = some "studio.metadata.write"
reading_role get_identity = some "identity.admin"
reading_role get_workflows = some "studio.workflow.read"
reading_role get_quota = some "studio.quota.read"
reading_role get_audit = some "studio.audit.read"
reading_role _ = none

-- A visible session with the role.
pub record MayRead (env : Env) (b : Broker) (r : Request) (role : String) : Type 0 where
  pub after : Broker
  pub view : SessionView
  pub seen : session b (env.world 0) (cookie_value env r "session") ≡ (after, some view)
  pub allowed : contains view.roles role ≡ true

visit-MayRead :
    (name forbidden : String) (env : Env) (b : Broker) (r : Request)
    (handler : Broker → String → SessionView → Broker × Response) (role : String)
    → ◌≡◌ {A = Option String} (some name) (some role)
    → let x = visit (some (name, forbidden)) env b r handler in
      (IsUntouched env b r x.0 × IsRefusal x.1) ⊎ MayRead env b r role
visit-MayRead name forbidden env b r handler role e =
    visit_cases (λ x. (IsUntouched env b r x.0 × IsRefusal x.1) ⊎ MayRead env b r role) env b r
      (λ x. inl) (some (name, forbidden)) handler
      λ b' id v visitor held. inr (record {
        after = b';
        view = v;
        seen = rw visitor.cookie visitor.seen;
        allowed =
            subst (λ role. contains v.roles role ≡ true) (ground (arith, e))
              (has_role-contains v name (held name forbidden refl));
      })

-- The pages for which a role is asked are guarded: whatever the request, either it is refused with a
-- plain text and status 400, 401 or 403, and nothing but the look for its session has happened to
-- the broker; or it bears the cookie of a visible session that has the role of the route.
pub serve-MayRead :
    (env : Env) (route : Route) (b : Broker) (r : Request) (role : String)
    → reading_role route ≡ some role
    → let (b', response) = serve env route b r in
      (IsUntouched env b r b' × IsRefusal response) ⊎ MayRead env b r role
unfolding serve metadata_new identity_list workflow_list quota_list audit_list reading_role
serve-MayRead env get_metadata_new b r role e = visit-MayRead _ _ env b r _ role e
serve-MayRead env get_identity b r role e = visit-MayRead _ _ env b r _ role e
serve-MayRead env get_workflows b r role e = visit-MayRead _ _ env b r _ role e
serve-MayRead env get_quota b r role e = visit-MayRead _ _ env b r _ role e
serve-MayRead env get_audit b r role e = visit-MayRead _ _ env b r _ role e
serve-MayRead env get_root b r role e = cc
serve-MayRead env post_auth_login b r role e = cc
serve-MayRead env get_auth_callback b r role e = cc
serve-MayRead env post_auth_switch b r role e = cc
serve-MayRead env post_auth_logout b r role e = cc
serve-MayRead env get_metadata b r role e = cc
serve-MayRead env post_metadata_create b r role e = cc
serve-MayRead env get_metadata_edit b r role e = cc
serve-MayRead env post_metadata_edit b r role e = cc
serve-MayRead env post_metadata_delete_plan b r role e = cc
serve-MayRead env post_metadata_delete_apply b r role e = cc
serve-MayRead env post_metadata_plan b r role e = cc
serve-MayRead env post_metadata_apply b r role e = cc
serve-MayRead env post_identity_mutate b r role e = cc
serve-MayRead env post_workflows_mutate b r role e = cc
serve-MayRead env post_quota_publish b r role e = cc
