-- ===== src/Server/Workflows.antt =====
-- internal/server/operations.go: the workflows page and its mutations, and what they share with quota.
use Prim.Native.String.{◌++◌}
use jimu_studio.Base.{
  ℕ, suc, String, Bool, true, not, ◌||◌, ◌&&◌, Option, none, some, List, [], ◌∷◌, Result, ok, err,
  ◌==◌, ◌!=◌, if◌then◌else◌,
}
use jimu_studio.Base.Int.{ℤ, pos}
use jimu_studio.Base.Lists.{all}
use jimu_studio.Auth.Types.{SessionView, Broker}
use jimu_studio.Auth.Drafts.{draft_key, clear_draft}
use jimu_studio.Provider.Types.{WorkflowRun, WorkflowTask, Page, ProviderError, api, plain}
use jimu_studio.Provider.Client.{Client}
use jimu_studio.Provider.Resources.{
  cancel_run_confirmation, retry_task_confirmation, list_workflow_runs, list_workflow_tasks,
  cancel_workflow_run, retry_workflow_task,
}
use jimu_studio.Server.Types.{Form, get, Request, Env, workflows, Response}
use jimu_studio.Server.Guards.{
  proceed, refuse, render, Guards, Admitted, admit, visit, with_provider, bounded_browser_value,
  render_metadata_error, broker_error, or_text,
}
use jimu_studio.Server.Roles.{has_role}
use jimu_studio.Server.Login.{see_other}
use jimu_studio.Server.Identity.{kept, parse_identity_version, identity_basis}

abbrev is_bounded_cursor : String → Bool
is_bounded_cursor cursor = bounded_browser_value cursor 2048

unfoldable pub bounded_operations_query : List String → Bool
bounded_operations_query [] = true
bounded_operations_query (search ∷ cursors) =
    bounded_browser_value search 256 && all is_bounded_cursor cursors

abbrev kept_values : List (String × String) → List (String × String)
kept_values [] = []
kept_values ((key, value) ∷ rest) = kept key value (kept_values rest)

unfoldable pub operation_page_url : Env → String → List (String × String) → String
operation_page_url env path values = path ++ ("?" ++ env.encode_query (kept_values values))

-- The link to the next page, where there is one.
abbrev pub next_link : Env → String → String → String → List (String × String) → String
next_link env path key cursor values =
    if cursor == "" then "" else operation_page_url env path ((key, cursor) ∷ values)

-- `operationRenderer`: a page with a status, a message and the identifier of a request.
abbrev pub Renderer : Type 0
Renderer = Broker → ℤ → String → String → Broker × Response

unfoldable pub render_operation_error :
    Env → Broker → SessionView → ProviderError → Renderer → Broker × Response
render_operation_error env b v (plain text) shown = (b, render_metadata_error env v (plain text))
render_operation_error env b v (api e) shown =
    shown b e.status (or_text e.message "The provider rejected the operation.") e.request_id

abbrev first_run : List WorkflowRun → String
first_run [] = ""
first_run (run ∷ rest) = run.id

abbrev no_tasks : Page WorkflowTask
no_tasks = record { items = []; next_cursor = "" }

-- The tasks of the run that is selected, if one is.
abbrev tasks_of :
    Env
    → ℕ
    → Request
    → Client
    → String
    → Page WorkflowRun
    → Result ProviderError (Page WorkflowRun × String × Page WorkflowTask)
tasks_of env n r client selected runs =
    if selected == ""
    then ok (runs, selected, no_tasks)
    else elim (list_workflow_tasks (env.http (suc n)) client selected
        (record { cursor = r.query "task_cursor"; limit = pos 50; search = "" })) [
          | err e ↦ err e
          | ok tasks ↦ ok (runs, selected, tasks)
        ]

unfoldable pub list_workflows :
    Env
    → ℕ
    → Request
    → Client
    → Result ProviderError (Page WorkflowRun × String × Page WorkflowTask)
list_workflows env n r client =
    elim (list_workflow_runs (env.http n) client
      (record { cursor = r.query "run_cursor"; limit = pos 50; search = r.query "search" })) [
        | err e ↦ err e
        | ok runs ↦ tasks_of env n r client (or_text (r.query "run") (first_run runs.items)) runs
      ]

abbrev workflows_page :
    Env
    → Request
    → SessionView
    → ℤ
    → String
    → String
    → Page WorkflowRun
    → String
    → Page WorkflowTask
    → Response
workflows_page env r v status message request_id runs selected tasks =
    let search = r.query "search" in
    let rest = ("search", search) ∷ ("run", selected) ∷ [] in
    render v status (
      workflows runs.items tasks.items selected search
        (next_link env "/workflows" "run_cursor" runs.next_cursor rest)
        (next_link env "/workflows" "task_cursor" tasks.next_cursor rest) message request_id
        (has_role v "studio.workflow.operate"))

-- `renderWorkflows`, with the number of its call of the provider.
unfoldable pub render_workflows : Env → ℕ → Request → String → SessionView → Renderer
render_workflows env n r id v b status message request_id =
    if not (
      bounded_operations_query
        (r.query "search" ∷ r.query "run_cursor" ∷ r.query "task_cursor" ∷ r.query "run" ∷ []))
    then (b, refuse 400 "invalid workflow query")
    else (proceed (with_provider env n b id (list_workflows env n r))
        (λ b' e. (b', render_metadata_error env v e))
        (λ b' answer.
          let (runs, selected, tasks) = answer in
          (b', workflows_page env r v status message request_id runs selected tasks)))

unfoldable pub workflow_list : Env → Broker → Request → Broker × Response
workflow_list env b r =
    visit (some ("studio.workflow.read", "workflow read permission required")) env b r
      (λ (b₁ : Broker) (id : String) (v : SessionView).
        render_workflows env 1 r id v b₁ (pos 200) "" "")

abbrev done : Result ProviderError WorkflowRun → Result ProviderError (Unit {0})
done (err e) = err e
done (ok run) = ok tt

unfoldable pub workflow_operation :
    Env → Client → String → String → ℤ → String → Result ProviderError (Unit {0})
workflow_operation env client action id version key =
    if action == "cancel-run"
    then done (cancel_workflow_run (env.http 2) client id version key)
    else done (retry_workflow_task (env.http 2) client id version key)

-- A mutation that is confirmed.
unfoldable pub workflow_run :
    Env → Broker → Request → String → SessionView → Form → ℤ → Broker × Response
workflow_run env b r id v form version =
    let action = get "action" form in
    let scope = "workflow:" ++ (action ++ (":" ++ identity_basis env form)) in
    proceed (draft_key b (env.world 1) id scope)
      (λ b₁ e. (b₁, render_metadata_error env v (broker_error e)))
      (λ b₁ key.
        (proceed
          (with_provider env 2 b₁ id
            (λ client. workflow_operation env client action (get "id" form) version key))
          (λ b₂ e. render_operation_error env b₂ v e (render_workflows env 3 r id v))
          (λ b₂ u. (
            clear_draft b₂ id scope,
            see_other ("/workflows?updated=" ++ env.query_escape action),
          ))))

-- The confirmation that an action asks for, where it is supported.
abbrev pub required_confirmation : String → Option String
required_confirmation action =
    if action == "retry-task"
    then some retry_task_confirmation
    else if action == "cancel-run"
    then some cancel_run_confirmation
    else none

-- The guards of `workflowMutate`; a form that does not parse is refused twice, in one answer.
abbrev pub workflow_guards : Guards
workflow_guards = record {
  role = "studio.workflow.operate";
  cross_site = "cross-site workflow mutation rejected";
  forbidden = "workflow operate permission required";
  bad_form = "invalid operation form\nworkflow mutation rejected";
  rejected = "workflow mutation rejected";
}

unfoldable pub workflow_submitted : Env → Request → Admitted
workflow_submitted env r b id v form =
    let target = get "id" form in
    elim (parse_identity_version env (get "expected_version" form)) [
      | none ↦ (b, refuse 400 "valid workflow target and version required")
      | some version ↦
          if not (bounded_browser_value target 256) || target == ""
          then (b, refuse 400 "valid workflow target and version required")
          else elim (required_confirmation (get "action" form)) [
            | none ↦ (b, refuse 400 "unsupported workflow action")
            | some required ↦
                if get "confirmation" form != required
                then render_workflows env 1 r id v b (pos 400)
                    "Type the required confirmation exactly." ""
                else workflow_run env b r id v form version
          ]
    ]

unfoldable pub workflow_mutate : Env → Broker → Request → Broker × Response
workflow_mutate env b r = admit workflow_guards env b r (workflow_submitted env r)
