-- ===== src/Provider/Resources.antt =====
-- The operations of internal/provider/identity.go and operations.go.
use Prim.Native.String.{◌++◌}
use jimu_studio.Base.{
  String, len, Bool, not, ◌||◌, ◌&&◌, Option, none, some, Result, err, ltb, ◌!=◌, if◌then◌else◌,
}
use jimu_studio.Base.Lists.{length}
use jimu_studio.Base.Int.{ℤ, pos, ltb_ℤ}
use jimu_studio.Provider.Types.{
  User, Role, WorkflowRun, WorkflowTask, QuotaPlan, UsageRecord, QuotaDiscrepancy, AuditRecord,
  Page, Query, ProviderError, plain,
}
use jimu_studio.Provider.Text.{safe_path_value, bounded_text, safe_identity_key}
use jimu_studio.Provider.Validate.{
  is_negative, validate_user, validate_role, validate_run, validate_task, validate_plan,
  validate_usage, validate_discrepancy, validate_audit, validate_page,
}
use jimu_studio.Provider.Client.{
  Http, Client, Decoded, new_user, status_change, new_role, role_update, role_change,
  workflow_change, publication, send, checked,
}
use jimu_studio.Provider.Metadata.{is_query, query_values, first_error}

abbrev pub disable_user_confirmation : String
disable_user_confirmation = "DISABLE_USER"

abbrev pub cancel_run_confirmation : String
cancel_run_confirmation = "CANCEL_RUN"

abbrev pub retry_task_confirmation : String
retry_task_confirmation = "RETRY_TASK"

abbrev pub publish_plan_confirmation : String
publish_plan_confirmation = "PUBLISH_QUOTA_PLAN"

-- `identityList` and `listOperation`: one page, unless the query is out of bounds.
unfoldable pub list_page {ℓ} :
    {A : Type ℓ}
    → Http
    → Client
    → String
    → (String → Option (Decoded (Page A)))
    → String
    → Query
    → Result ProviderError (Page A)
unfolding is_query query_values send
list_page http client refusal decode path q =
    if not (is_query q)
    then err (plain refusal)
    else send http client decode "GET" (path ++ ("?" ++ http.encode_query (query_values http q)))
        none

-- The tests of `ListUsers` and `ListRoles` on a page.
unfoldable pub identity_page_error {ℓ} :
    {A : Type ℓ} → String → String → (A → Option String) → ℤ → Page A → Option String
unfolding first_error
identity_page_error unbounded invalid check limit page =
    if ltb_ℤ limit (pos (length page.items)) || ltb 2048 (len page.next_cursor)
    then some unbounded
    else elim (first_error check page.items) [ none ↦ none | some text ↦ some (invalid ++ text) ]

unfoldable pub list_users : Http → Client → Query → Result ProviderError (Page User)
unfolding list_page checked identity_page_error validate_user
list_users http client q =
    checked ""
      (identity_page_error "provider returned unbounded users" "invalid provider user: "
        validate_user q.limit)
      (list_page http client "identity query exceeds bounds" http.user_page
        "/studio/v1/identity/users" q)

unfoldable pub list_roles : Http → Client → Query → Result ProviderError (Page Role)
unfolding list_page checked identity_page_error validate_role
list_roles http client q =
    checked ""
      (identity_page_error "provider returned unbounded roles" "invalid provider role: "
        validate_role q.limit)
      (list_page http client "identity query exceeds bounds" http.role_page
        "/studio/v1/identity/roles" q)

unfoldable pub create_user :
    Http → Client → String → String → String → String → Result ProviderError User
unfolding safe_path_value bounded_text safe_identity_key send checked validate_user
create_user http client id display_name email key =
    if not (safe_path_value id 256)
      || not (bounded_text display_name 512)
      || not (bounded_text email 512)
      || not (safe_identity_key key)
    then err (plain "safe user and idempotency key required")
    else checked "" validate_user (
        send http client http.user "POST" "/studio/v1/identity/users"
          (some (new_user display_name email id key)))

unfoldable pub set_user_status :
    Http → Client → String → String → ℤ → String → Result ProviderError User
unfolding safe_path_value safe_identity_key send checked validate_user
set_user_status http client id status version key =
    if not (safe_path_value id 256)
      || status != "active" && status != "disabled"
      || is_negative version
      || not (safe_identity_key key)
    then err (plain "safe status mutation required")
    else checked "" validate_user (
        send http client http.user "PATCH"
          ("/studio/v1/identity/users/" ++ (http.path_escape id ++ "/status"))
          (some (status_change disable_user_confirmation version key status)))

unfoldable pub create_role : Http → Client → String → String → String → Result ProviderError Role
unfolding safe_path_value bounded_text safe_identity_key send checked validate_role
create_role http client role_key display_name key =
    if not (safe_path_value role_key 256)
      || not (bounded_text display_name 512)
      || not (safe_identity_key key)
    then err (plain "safe role mutation required")
    else checked "" validate_role (
        send http client http.role "POST" "/studio/v1/identity/roles"
          (some (new_role display_name key role_key)))

unfoldable pub update_role :
    Http → Client → String → String → ℤ → String → Result ProviderError Role
unfolding safe_path_value bounded_text safe_identity_key send checked validate_role
update_role http client role_key display_name version key =
    if not (safe_path_value role_key 256)
      || not (bounded_text display_name 512)
      || is_negative version
      || not (safe_identity_key key)
    then err (plain "safe role update required")
    else checked "" validate_role (
        send http client http.role "PATCH"
          ("/studio/v1/identity/roles/" ++ http.path_escape role_key)
          (some (role_update display_name version key)))

unfoldable pub change_user_role :
    Http → Client → String → String → ℤ → String → Bool → Result ProviderError User
unfolding safe_path_value safe_identity_key send checked validate_user
change_user_role http client user_id role_key version key assign =
    if not (safe_path_value user_id 256)
      || not (safe_path_value role_key 256)
      || is_negative version
      || not (safe_identity_key key)
    then err (plain "safe role assignment required")
    else checked "" validate_user (
        send http client http.user (if assign then "PUT" else "DELETE")
          ("/studio/v1/identity/users/"
            ++ (http.path_escape user_id ++ ("/roles/" ++ http.path_escape role_key)))
          (some (role_change version key)))

-- The tests of the lists of operations.go on a page.
unfoldable pub operation_page_error {ℓ} :
    {A : Type ℓ} → (A → Option String) → ℤ → Page A → Option String
unfolding validate_page first_error
operation_page_error check limit page =
    elim (validate_page limit page.next_cursor (length page.items)) [
      | some text ↦ some text
      | none ↦ first_error check page.items
    ]

-- A list of operations.go.
unfoldable pub list_operation {ℓ} :
    {A : Type ℓ}
    → Http
    → Client
    → (A → Option String)
    → (String → Option (Decoded (Page A)))
    → String
    → Query
    → Result ProviderError (Page A)
unfolding list_page checked operation_page_error
list_operation http client check decode path q =
    checked "" (operation_page_error check q.limit)
      (list_page http client "operations query exceeds bounds" decode path q)

unfoldable pub list_workflow_runs : Http → Client → Query → Result ProviderError (Page WorkflowRun)
unfolding list_operation validate_run
list_workflow_runs http client q =
    list_operation http client (validate_run http.parses_time) http.run_page
      "/studio/v1/workflows/runs" q

unfoldable pub list_workflow_tasks :
    Http → Client → String → Query → Result ProviderError (Page WorkflowTask)
unfolding safe_path_value list_operation validate_task
list_workflow_tasks http client run_id q =
    if not (safe_path_value run_id 256)
    then err (plain "safe workflow run ID required")
    else list_operation http client (validate_task http.parses_time run_id) http.task_page
        ("/studio/v1/workflows/runs/" ++ (http.path_escape run_id ++ "/tasks")) q

unfoldable pub workflow_mutation :
    Http → Client → String → String → ℤ → String → String → Result ProviderError WorkflowRun
unfolding safe_path_value safe_identity_key send checked validate_run
workflow_mutation http client path id version key confirmation =
    if not (safe_path_value id 256) || is_negative version || not (safe_identity_key key)
    then err (plain "safe workflow mutation required")
    else checked "" (validate_run http.parses_time)
        (send http client http.run "POST" path (some (workflow_change confirmation version key)))

unfoldable pub cancel_workflow_run :
    Http → Client → String → ℤ → String → Result ProviderError WorkflowRun
unfolding workflow_mutation
cancel_workflow_run http client id version key =
    workflow_mutation http client
      ("/studio/v1/workflows/runs/" ++ (http.path_escape id ++ "/cancel")) id version key
      cancel_run_confirmation

unfoldable pub retry_workflow_task :
    Http → Client → String → ℤ → String → Result ProviderError WorkflowRun
unfolding workflow_mutation
retry_workflow_task http client id version key =
    workflow_mutation http client
      ("/studio/v1/workflows/tasks/" ++ (http.path_escape id ++ "/retry")) id version key
      retry_task_confirmation

unfoldable pub list_quota_plans : Http → Client → Query → Result ProviderError (Page QuotaPlan)
unfolding list_operation validate_plan
list_quota_plans http client q =
    list_operation http client (validate_plan http.parses_time http.count_keys) http.plan_page
      "/studio/v1/quota/plans" q

unfoldable pub list_usage : Http → Client → Query → Result ProviderError (Page UsageRecord)
unfolding list_operation validate_usage
list_usage http client q =
    list_operation http client (validate_usage http.parses_time) http.usage_page
      "/studio/v1/quota/usage" q

unfoldable pub list_quota_discrepancies :
    Http → Client → Query → Result ProviderError (Page QuotaDiscrepancy)
unfolding list_operation validate_discrepancy
list_quota_discrepancies http client q =
    list_operation http client (validate_discrepancy http.parses_time) http.discrepancy_page
      "/studio/v1/quota/discrepancies" q

unfoldable pub list_audit : Http → Client → Query → Result ProviderError (Page AuditRecord)
unfolding list_operation validate_audit
list_audit http client q =
    list_operation http client (validate_audit http.parses_time) http.audit_page "/studio/v1/audit"
      q

unfoldable pub publish_quota_plan :
    Http → Client → QuotaPlan → ℤ → String → Result ProviderError QuotaPlan
unfolding validate_plan safe_identity_key send checked
publish_quota_plan http client p expected_version key =
    elim (validate_plan http.parses_time http.count_keys p) [
      | some text ↦ err (plain text)
      | none ↦
          if is_negative expected_version || not (safe_identity_key key)
          then err (plain "safe quota publication required")
          else checked "" (validate_plan http.parses_time http.count_keys) (
              send http client http.plan "POST" "/studio/v1/quota/plans"
                (some (publication publish_plan_confirmation expected_version key p)))
    ]
