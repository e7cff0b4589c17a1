-- ===== src/Server/Quota.antt =====
-- internal/server/operations.go: the quota page with its publication, and the audit page.
use Prim.Native.String.{◌++◌}
use jimu_studio.Base.{
  ℕ, suc, String, len, not, ◌||◌, Option, none, some, [], ◌∷◌, Result, ltb, ◌==◌, ◌!=◌,
  if◌then◌else◌,
}
use jimu_studio.Base.Int.{ℤ, pos}
use jimu_studio.Auth.Types.{SessionView, Broker}
use jimu_studio.Auth.Drafts.{draft_key, clear_draft}
use jimu_studio.Provider.Types.{
  QuotaPlan, UsageRecord, QuotaDiscrepancy, AuditRecord, Page, Query, ProviderError,
}
use jimu_studio.Provider.Client.{Client, Decoded}
use jimu_studio.Provider.Resources.{
  publish_plan_confirmation, list_quota_plans, list_usage, list_quota_discrepancies, list_audit,
  publish_quota_plan,
}
use jimu_studio.Server.Types.{Form, get, Request, Env, quota, audit, Response}
use jimu_studio.Server.Guards.{
  proceed, refuse, render, Guards, Admitted, admit, visit, with_provider, render_metadata_error,
  broker_error,
}
use jimu_studio.Server.Roles.{has_role}
use jimu_studio.Server.Login.{see_other}
use jimu_studio.Server.Identity.{both, parse_identity_version, identity_basis}
use jimu_studio.Server.Workflows.{
  bounded_operations_query, next_link, Renderer, render_operation_error,
}

abbrev quota_query : Request → String → Query
quota_query r cursor = record { cursor = r.query cursor; limit = pos 50; search = r.query "search" }

unfoldable pub list_quota :
    Env
    → ℕ
    → Request
    → Client
    → Result ProviderError (Page QuotaPlan × (Page UsageRecord × Page QuotaDiscrepancy))
list_quota env n r client =
    both (list_quota_plans (env.http n) client (quota_query r "plan_cursor")) (
      both (list_usage (env.http (suc n)) client (quota_query r "usage_cursor")) (
        list_quota_discrepancies (env.http (suc (suc n))) client
          (quota_query r "discrepancy_cursor")))

abbrev quota_page :
    Env
    → Request
    → SessionView
    → ℤ
    → String
    → String
    → Page QuotaPlan
    → Page UsageRecord
    → Page QuotaDiscrepancy
    → Response
quota_page env r v status message request_id plans usage discrepancies =
    let search = r.query "search" in
    let rest = ("search", search) ∷ [] in
    render v status (
      quota plans.items usage.items discrepancies.items search
        (next_link env "/quota" "plan_cursor" plans.next_cursor rest)
        (next_link env "/quota" "usage_cursor" usage.next_cursor rest)
        (next_link env "/quota" "discrepancy_cursor" discrepancies.next_cursor rest) message
        request_id (has_role v "studio.quota.admin"))

-- `renderQuota`, with the number of its call of the provider.
unfoldable pub render_quota : Env → ℕ → Request → String → SessionView → Renderer
render_quota env n r id v b status message request_id =
    if not (
      bounded_operations_query (
        r.query "search"
        ∷ r.query "plan_cursor"
        ∷ r.query "usage_cursor"
        ∷ r.query "discrepancy_cursor"
        ∷ []))
    then (b, refuse 400 "invalid quota query")
    else (proceed (with_provider env n b id (list_quota env n r))
        (λ b' e. (b', render_metadata_error env v e))
        (λ b' answer.
          let (plans, (usage, discrepancies)) = answer in
          (b', quota_page env r v status message request_id plans usage discrepancies)))

unfoldable pub quota_list : Env → Broker → Request → Broker × Response
quota_list env b r =
    visit (some ("studio.quota.read", "quota read permission required")) env b r
      (λ (b₁ : Broker) (id : String) (v : SessionView).
        render_quota env 1 r id v b₁ (pos 200) "" "")

-- The text of the limits, where they decode: the first value is an object, and nothing follows it.
abbrev limits_of : Option (Decoded (Option String)) → Option String
limits_of none = none
limits_of (some d) = if d.at_end then d.value else none

unfoldable pub decode_limits : Env → String → Option String
decode_limits env value =
    if value == "" || ltb 65536 (len value) then none else limits_of (env.decode_limits value)

-- The version and the plan of a form, where its numbers and its limits are valid.
abbrev plan_of : Form → Option ℤ → Option ℤ → Option String → Option (ℤ × QuotaPlan)
plan_of form (some version) (some window) (some limits) = some (
  version,
  record {
    code = get "code" form;
    version = version;
    effective_at = get "effective_at" form;
    window_seconds = window;
    limits = limits;
  },
)
plan_of form _ _ _ = none

unfoldable pub quota_plan_of : Env → Form → Option (ℤ × QuotaPlan)
quota_plan_of env form =
    plan_of form (parse_identity_version env (get "expected_version" form))
      (env.parse_int (get "window_seconds" form)) (decode_limits env (get "limits" form))

-- A publication of a plan that the form gave.
unfoldable pub quota_run :
    Env → Broker → Request → String → SessionView → Form → ℤ → QuotaPlan → Broker × Response
quota_run env b r id v form version plan =
    let scope = "quota:publish:" ++ identity_basis env form in
    proceed (draft_key b (env.world 1) id scope)
      (λ b₁ e. (b₁, render_metadata_error env v (broker_error e)))
      (λ b₁ key.
        (proceed
          (with_provider env 2 b₁ id
            (λ client. publish_quota_plan (env.http 2) client plan version key))
          (λ b₂ e. render_operation_error env b₂ v e (render_quota env 3 r id v))
          (λ b₂ p. (clear_draft b₂ id scope, see_other "/quota?updated=published"))))

-- The guards of `quotaPublish`; a form that does not parse is refused twice, in one answer.
abbrev pub quota_guards : Guards
quota_guards = record {
  role = "studio.quota.admin";
  cross_site = "cross-site quota mutation rejected";
  forbidden = "quota administrator permission required";
  bad_form = "invalid operation form\nquota publication rejected";
  rejected = "quota publication rejected";
}

unfoldable pub quota_submitted : Env → Request → Admitted
quota_submitted env r b id v form =
    if get "confirmation" form != publish_plan_confirmation
    then render_quota env 1 r id v b (pos 400) "Type the required confirmation exactly." ""
    else elim (quota_plan_of env form) [
      | none ↦ (b, refuse 400 "valid quota plan fields required")
      | some (version, plan) ↦ quota_run env b r id v form version plan
    ]

unfoldable pub quota_publish : Env → Broker → Request → Broker × Response
quota_publish env b r = admit quota_guards env b r (quota_submitted env r)

abbrev audit_page : Env → Request → SessionView → Page AuditRecord → Response
audit_page env r v page =
    let search = r.query "search" in
    render v (pos 200) (
      audit page.items search
        (next_link env "/audit" "cursor" page.next_cursor (("search", search) ∷ [])))

unfoldable pub audit_list : Env → Broker → Request → Broker × Response
audit_list env b r =
    visit (some ("studio.audit.read", "audit read permission required")) env b r
      (λ (b₁ : Broker) (id : String) (v : SessionView).
        if not (bounded_operations_query (r.query "search" ∷ r.query "cursor" ∷ []))
        then (b₁, refuse 400 "invalid audit query")
        else (proceed
            (with_provider env 1 b₁ id
              (λ client. list_audit (env.http 1) client (quota_query r "cursor")))
            (λ b₂ e. (b₂, render_metadata_error env v e))
            (λ b₂ page. (b₂, audit_page env r v page))))
