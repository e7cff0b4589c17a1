-- ===== src/LocalProvider/Laws/Repeat.antt =====
-- internal/localprovider: a mutation that succeeded is repeated at any later time, on the state that
-- the database keeps.
use jimu_studio.Base.{
  String, Bool, true, false, Option, some, List, [], ◌∷◌, ◌≡◌, refl, sym, ap, subst, ◌∙◌, ◌==◌, inl,
  inr,
}
use jimu_studio.Base.Dict.{lookup}
use jimu_studio.Base.Text.{has_prefix}
use jimu_studio.LocalProvider.Storage.{Row, Storage, serve}
use jimu_studio.LocalProvider.Laws.Persistence.{
  serve-IsAtomic, IsWorking, serve-success, serve-working,
}
use jimu_studio.LocalProvider.State.{Body, CachedMutation, State, Request, Response, Clock}
use jimu_studio.LocalProvider.Mutation.{Decoders}
use jimu_studio.LocalProvider.Workflow.{cancel_run_confirmation, retry_task_confirmation}
use jimu_studio.LocalProvider.Routes.{
  Route, updates_entity, plans_deletion, deletes_entity, creates_user, sets_status, creates_role,
  updates_role, changes_user_role, cancels_run, retries_task, publishes_plan, lists_entities,
  lists_users, lists_roles, lists_runs, lists_tasks, lists_plans, lists_usage, lists_discrepancies,
  lists_audit, plans_migration, unknown, route, handle, serve_loaded,
}
use jimu_studio.LocalProvider.Laws.Conduct.{conducted, IsConducted}
use jimu_studio.LocalProvider.Laws.Handlers.{
  update_entity-IsConducted, plan_entity_deletion-IsConducted, delete_entity-IsConducted,
  create_user-IsConducted, set_user_status-IsConducted, create_role-IsConducted,
  update_role-IsConducted, change_user_role-IsConducted, workflow_mutation-IsConducted,
  publish_plan-IsConducted,
}
use jimu_studio.LocalProvider.Laws.Replay.{conducted-kept, serve_loaded-keeps}

-- The routes that mutate.
unfoldable pub is_mutation : Route → Bool
is_mutation updates_entity = true
is_mutation plans_deletion = true
is_mutation deletes_entity = true
is_mutation creates_user = true
is_mutation sets_status = true
is_mutation creates_role = true
is_mutation updates_role = true
is_mutation changes_user_role = true
is_mutation cancels_run = true
is_mutation retries_task = true
is_mutation publishes_plan = true
is_mutation _ = false

module _ (json : Decoders) where
  mutation-IsConducted :
      (way : Route) (r : Request)
      → is_mutation way ≡ true
      → IsConducted (λ clock s. handle json clock way s r)
  unfolding handle is_mutation
  mutation-IsConducted updates_entity r h = update_entity-IsConducted json r
  mutation-IsConducted plans_deletion r h = plan_entity_deletion-IsConducted json r
  mutation-IsConducted deletes_entity r h = delete_entity-IsConducted json r
  mutation-IsConducted creates_user r h = create_user-IsConducted json r
  mutation-IsConducted sets_status r h = set_user_status-IsConducted json r
  mutation-IsConducted creates_role r h = create_role-IsConducted json r
  mutation-IsConducted updates_role r h = update_role-IsConducted json r
  mutation-IsConducted changes_user_role r h = change_user_role-IsConducted json r
  mutation-IsConducted cancels_run r h =
      workflow_mutation-IsConducted json r cancel_run_confirmation false
  mutation-IsConducted retries_task r h =
      workflow_mutation-IsConducted json r retry_task_confirmation true
  mutation-IsConducted publishes_plan r h = publish_plan-IsConducted json r
  mutation-IsConducted lists_entities r h = absurd (cc)
  mutation-IsConducted lists_users r h = absurd (cc)
  mutation-IsConducted lists_roles r h = absurd (cc)
  mutation-IsConducted lists_runs r h = absurd (cc)
  mutation-IsConducted lists_tasks r h = absurd (cc)
  mutation-IsConducted lists_plans r h = absurd (cc)
  mutation-IsConducted lists_usage r h = absurd (cc)
  mutation-IsConducted lists_discrepancies r h = absurd (cc)
  mutation-IsConducted lists_audit r h = absurd (cc)
  mutation-IsConducted plans_migration r h = absurd (cc)
  mutation-IsConducted unknown r h = absurd (cc)

serve_loaded-handle :
    (json : Decoders) (clock : Clock) (s : State) (r : Request)
    → serve_loaded json clock s r ≡ handle json clock (route r.method r.path) s r
unfolding serve_loaded
serve_loaded-handle json clock s r = refl

-- One more request to the server, with its time and the database's answers.
pub record Occasion : Type 0 where
  pub db : Storage
  pub clock : Clock
  pub request : Request

-- The database's answers, with one encoding.
abbrev pub answering : Storage → Storage → Storage
answering codec db = record db { marshal = codec.marshal; unmarshal = codec.unmarshal }

-- The row after requests that are served one after another.
unfoldable pub serve_rows : Decoders → Storage → Row → List Occasion → Row
serve_rows json codec row [] = row
serve_rows json codec row (o ∷ os) =
    serve_rows json codec (serve (answering codec o.db) json o.clock row o.request).0 os

-- encoding/json reads back what it has written, but a kept value as `reread` says.
pub record IsCodec (codec : Storage) (reread : Body → Body) : Type 0 where
  pub writes : (s : State) → (payload : String) × (codec.marshal s ≡ some payload)
  pub reads :
      (s : State) (payload : String)
      → codec.marshal s ≡ some payload
      → (t : State) × (codec.unmarshal payload ≡ some t)
        × ((k : String) (c : CachedMutation)
            → lookup k s.idempotency ≡ some c
            → lookup k t.idempotency ≡ some (record c { value = reread c.value }))
  pub settles : (value : Body) → reread (reread value) ≡ reread value

-- The state of a row's payload keeps a result under a key.
abbrev KeepsResult : Storage → String → CachedMutation → String → Type 0
KeepsResult codec k c payload =
    (s : State) × (codec.unmarshal payload ≡ some s) × (lookup k s.idempotency ≡ some c)

module _ (json : Decoders) (codec : Storage) (reread : Body → Body)
    (law : IsCodec codec reread) where
  written-KeepsResult :
      (s : State) (payload : String) (k : String) (c : CachedMutation)
      → codec.marshal s ≡ some payload
      → lookup k s.idempotency ≡ some c
      → KeepsResult codec k (record c { value = reread c.value }) payload
  written-KeepsResult s payload k c written found =
      let (t, read, kept) = law.reads s payload written in (t, read, kept k c found)

  serve-KeepsResult :
      (o : Occasion) (row : Row) (k : String) (c : CachedMutation)
      → reread c.value ≡ c.value
      → KeepsResult codec k c row.payload
      → KeepsResult codec k c (serve (answering codec o.db) json o.clock row o.request).0.payload
  serve-KeepsResult o row k c stable (s, read, found) =
      elim (serve-IsAtomic (answering codec o.db) json o.clock row o.request) [
        | inl same ↦
            subst (λ (row : Row). KeepsResult codec k c row.payload) (sym same) (s, read, found)
        | inr (s', read', written, revision, answered, small, bearer) ↦
            let same : ◌≡◌ {A = Option State} (some s) (some s') = sym read ∙ read' in
            let same_state : s ≡ s' = cc in
            let found' : lookup k s'.idempotency ≡ some c = rw (← same_state) found in
            let kept =
              written-KeepsResult (serve_loaded json o.clock s' o.request).0 _ k c written
                (serve_loaded-keeps json o.clock s' o.request k c found') in
            subst
              (λ value.
                KeepsResult codec k (record c { value = value })
                  (serve (answering codec o.db) json o.clock row o.request).0.payload)
              stable kept
      ]

  serve_rows-KeepsResult :
      (os : List Occasion) (row : Row) (k : String) (c : CachedMutation)
      → reread c.value ≡ c.value
      → KeepsResult codec k c row.payload
      → KeepsResult codec k c (serve_rows json codec row os).payload
  unfolding serve_rows
  serve_rows-KeepsResult [] row k c stable kept = kept
  serve_rows-KeepsResult (o ∷ os) row k c stable kept =
      serve_rows-KeepsResult os (serve (answering codec o.db) json o.clock row o.request).0 k c
        stable (serve-KeepsResult o row k c stable kept)

-- How a request is answered on the states that keep a result under a key.
abbrev FindsResult : Decoders → Request → String → Type 0
FindsResult json r key =
    (clock : Clock) (s : State) (c : CachedMutation)
    → lookup key s.idempotency ≡ some c
    → serve_loaded json clock s r ≡ (s, record { status = c.status; body = c.value })

-- After a success, the row keeps the result as it is read back, where the request finds it again.
success-KeepsResult :
    (json : Decoders) (codec : Storage) (reread : Body → Body) (db : Storage) (clock : Clock)
    (old : Row) (r : Request)
    → IsCodec codec reread
    → is_mutation (route r.method r.path) ≡ true
    → (r.path == "/healthz") ≡ false
    → (serve (answering codec db) json clock old r).1.status ≡ 200
    → (key : String) × KeepsResult codec key
        (record {
          status = 200;
          value = reread (serve (answering codec db) json clock old r).1.body;
        })
        (serve (answering codec db) json clock old r).0.payload
      × FindsResult json r key
      × (has_prefix r.authorization "Bearer " ≡ true)
success-KeepsResult json codec reread db clock old r law mutates path success =
    let (s, read, written, answered, bearer) =
      serve-success (answering codec db) json clock old r path success in
    let (c, same) = mutation-IsConducted json (route r.method r.path) r mutates in
    let runs : (t : State) (now : Clock) → serve_loaded json now t r ≡ conducted c now t =
      λ t now. serve_loaded-handle json now t r ∙ same now t in
    let status : (conducted c clock s).1.status ≡ 200 =
      ap (λ (x : State × Response). x.1.status) (sym (runs s clock))
      ∙ ap (λ (x : Response). x.status) (sym answered)
      ∙ success in
    let (key, kept, again) = conducted-kept c clock s status in
    let body : (conducted c clock s).1.body ≡ (serve (answering codec db) json clock old r).1.body =
      ap (λ (x : State × Response). x.1.body) (sym (runs s clock))
      ∙ ap (λ (x : Response). x.body) (sym answered) in
    let found : lookup key (serve_loaded json clock s r).0.idempotency
        ≡ some (record {
          status = 200;
          value = (serve (answering codec db) json clock old r).1.body;
        }) =
      ap (λ (x : State × Response). lookup key x.0.idempotency) (runs s clock)
      ∙ kept
      ∙ ap (λ value. some (record { status = 200; value = value })) body in
    (
      key,
      written-KeepsResult json codec reread law (serve_loaded json clock s r).0 _ key _ written
          found,
      λ now t d finds. runs t now ∙ again now t d finds,
      bearer,
    )

-- A mutation takes effect once, also over the state table: after a mutation (a request to one of the
-- mutating routes, not the health check) that was answered with status 200, and after any further
-- requests, whatever the database answers to them, the same request on a working database is answered
-- with status 200 and with the first answer's value as encoding/json reads it back, and the state in
-- the row is written back as it was read. Here encoding/json writes every state, reads the kept
-- results of what it has written, and does not change a value again that it reads back once more.
pub replay_later :
    (json : Decoders) (codec : Storage) (reread : Body → Body) (db db' : Storage)
    (clock clock' : Clock) (old : Row) (r : Request) (os : List Occasion)
    → IsCodec codec reread
    → is_mutation (route r.method r.path) ≡ true
    → (r.path == "/healthz") ≡ false
    → (serve (answering codec db) json clock old r).1.status ≡ 200
    → IsWorking db'
    → let (row, answer) = serve (answering codec db) json clock old r in
      let row' = serve_rows json codec row os in
      let (row'', answer') = serve (answering codec db') json clock' row' r in
      (answer' ≡ record { status = 200; body = reread answer.body })
      × ((s : State) × (codec.unmarshal row'.payload ≡ some s)
          × (codec.marshal s ≡ some row''.payload))
replay_later json codec reread db db' clock clock' old r os law mutates path success working =
    let (row, answer) = serve (answering codec db) json clock old r in
    let (key, kept, finds, bearer) =
      success-KeepsResult json codec reread db clock old r law mutates path success in
    let row' = serve_rows json codec row os in
    let result : CachedMutation = record { status = 200; value = reread answer.body } in
    let (s, read, found) =
      serve_rows-KeepsResult json codec reread law os row key result (law.settles answer.body)
        kept in
    let again : serve_loaded json clock' s r
        ≡ (s, record { status = 200; body = reread answer.body }) =
      finds clock' s result found in
    let (payload, written) = law.writes s in
    let served =
      serve-working (answering codec db') json clock' row' r s payload path bearer
        (record {
          begins = working.begins;
          loads = working.loads;
          saves = working.saves;
          commits = working.commits;
        })
        read (ap (λ (x : State × Response). x.1.status) again)
        (ap (λ (x : State × Response). codec.marshal x.0) again ∙ written) in
    (
      ap (λ (x : Row × Response). x.1) served ∙ ap (λ (x : State × Response). x.1) again,
      (s, read, written ∙ sym (ap (λ (x : Row × Response). some x.0.payload) served)),
    )
