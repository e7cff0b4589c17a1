-- ===== src/Provider/Metadata.antt =====
-- The metadata operations of internal/provider: metadata.go, metadata_delete.go and migration.go.
use Prim.Native.String.{◌++◌}
use jimu_studio.Base.{
  String, len, Bool, true, false, not, ◌||◌, Option, none, some, List, [], ◌∷◌, Result, ok, err,
  ltb, ◌==◌, ◌!=◌, eqb, if◌then◌else◌,
}
use jimu_studio.Base.Lists.{length}
use jimu_studio.Base.Int.{ℤ, pos, eqb_ℤ, ltb_ℤ}
use jimu_studio.Provider.Types.{
  Entity, MigrationPlan, DeletionPlan, DeletionReceipt, Page, Query, ProviderError, plain,
}
use jimu_studio.Provider.Text.{has_control, safe_path_value, safe_identity_key}
use jimu_studio.Provider.Validate.{
  error_unless, is_negative, validate_entity, validate_deletion_plan, validate_migration_plan,
}
use jimu_studio.Provider.Client.{
  Http, Client, Payload, entity_change, deletion, migration, receive, send, checked,
}

abbrev pub delete_entity_confirmation : String
delete_entity_confirmation = "DELETE_ENTITY"

abbrev pub apply_migration_confirmation : String
apply_migration_confirmation = "APPLY_MIGRATION"

-- The bounds of a query.
unfoldable pub is_query : Query → Bool
unfolding has_control
is_query q = not (
    ltb_ℤ q.limit (pos 1)
    || ltb_ℤ (pos 200) q.limit
    || ltb 2048 (len q.cursor)
    || ltb 256 (len q.search)
    || has_control q.cursor
    || has_control q.search)

-- The parameters of a query, of which the empty ones are left out.
abbrev given : String → String → List (String × String) → List (String × String)
given key value rest = if value == "" then rest else (key, value) ∷ rest

unfoldable pub query_values : Http → Query → List (String × String)
query_values http q =
    ("limit", http.itoa q.limit) ∷ given "cursor" q.cursor (given "search" q.search [])

unfoldable pub first_error {ℓ} : {A : Type ℓ} → (A → Option String) → List A → Option String
first_error check [] = none
first_error check (a ∷ rest_of) =
    let rest = first_error check rest_of in elim (check a) [ none ↦ rest | some text ↦ some text ]

abbrev behind : String → Option String → Option String
behind prefix none = none
behind prefix (some text) = some (prefix ++ text)

-- The tests of `ListEntities` on a page.
unfoldable pub entity_page_error : ℤ → Page Entity → Option String
unfolding first_error validate_entity
entity_page_error limit page =
    if ltb_ℤ limit (pos (length page.items)) || ltb 2048 (len page.next_cursor)
    then some "provider returned an unbounded metadata page"
    else behind "provider returned invalid metadata: " (first_error validate_entity page.items)

unfoldable pub list_entities : Http → Client → Query → Result ProviderError (Page Entity)
unfolding is_query query_values receive checked entity_page_error
list_entities http client q =
    if not (is_query q)
    then err (plain "metadata query exceeds Studio contract bounds")
    else checked "" (entity_page_error q.limit) (
        receive http client http.entity_page "GET"
          ("/studio/v1/metadata/entities?" ++ http.encode_query (query_values http q)) none)

unfoldable pub put_entity : Http → Client → Entity → ℤ → String → Result ProviderError Entity
unfolding validate_entity safe_identity_key send checked
put_entity http client e expected_version idempotency_key = elim (validate_entity e) [
  | some text ↦ err (plain text)
  | none ↦
      if is_negative expected_version || not (safe_identity_key idempotency_key)
      then err (plain "expected version and safe idempotency key are required")
      else checked "provider returned invalid metadata: " validate_entity (
          send http client http.entity "PUT"
            ("/studio/v1/metadata/entities/" ++ http.path_escape e.code)
            (some (entity_change e expected_version idempotency_key)))
]

-- `metadataDeletionBody`: the body, unless it is refused.
unfoldable pub deletion_body : String → ℤ → String → Bool → Result ProviderError Payload
unfolding safe_path_value safe_identity_key
deletion_body code expected_version idempotency_key confirmed =
    if not (safe_path_value code 256)
      || is_negative expected_version
      || not (safe_identity_key idempotency_key)
    then err (plain "entity code, expected version, and safe idempotency key are required")
    else ok (
        deletion (if confirmed then delete_entity_confirmation else "") expected_version
          idempotency_key)

unfoldable pub plan_entity_deletion :
    Http → Client → String → ℤ → String → Result ProviderError DeletionPlan
unfolding deletion_body send checked validate_deletion_plan
plan_entity_deletion http client code expected_version idempotency_key =
    elim (deletion_body code expected_version idempotency_key false) [
      | err e ↦ err e
      | ok body ↦
          checked "provider returned invalid deletion plan: "
            (λ p. validate_deletion_plan p code expected_version)
            (send http client http.deletion_plan "POST"
              ("/studio/v1/metadata/entities/" ++ (http.path_escape code ++ "/delete-plan"))
              (some body))
    ]

-- The tests of `DeleteEntity` on a receipt.
unfoldable pub receipt_error : (String → Bool) → String → ℤ → DeletionReceipt → Option String
receipt_error parses_time code expected_version r =
    if r.code != code || not (eqb_ℤ r.deleted_version expected_version)
    then some "provider returned a deletion receipt for a different entity version"
    else error_unless (parses_time r.deleted_at) "provider returned an invalid deletion timestamp"

unfoldable pub delete_entity :
    Http → Client → String → ℤ → String → Result ProviderError DeletionReceipt
unfolding deletion_body send checked receipt_error
delete_entity http client code expected_version idempotency_key =
    elim (deletion_body code expected_version idempotency_key true) [
      | err e ↦ err e
      | ok body ↦ checked "" (receipt_error http.parses_time code expected_version) (
          send http client http.deletion_receipt "DELETE"
            ("/studio/v1/metadata/entities/" ++ http.path_escape code) (some body))
    ]

-- The tests of `migrations` on the plans.
unfoldable pub plans_error : List MigrationPlan → Option String
unfolding first_error validate_migration_plan
plans_error plans =
    if ltb 1000 (length plans)
    then some "provider returned an unbounded migration plan"
    else behind "provider returned invalid migration plan: "
        (first_error validate_migration_plan plans)

unfoldable pub migrations :
    Http → Client → String → List Entity → String → Bool → Result ProviderError (List MigrationPlan)
unfolding safe_identity_key first_error validate_entity send checked plans_error
migrations http client path entities idempotency_key apply =
    if eqb (length entities) 0
      || ltb 200 (length entities)
      || not (safe_identity_key idempotency_key)
    then err (plain "bounded entities and safe idempotency key are required")
    else elim (first_error validate_entity entities) [
      | some text ↦ err (plain text)
      | none ↦ checked "" plans_error (
          send http client http.migration_plans "POST" path (
            some (
              migration (if apply then apply_migration_confirmation else "") entities
                idempotency_key)))
    ]

unfoldable pub plan_migrations :
    Http → Client → List Entity → String → Result ProviderError (List MigrationPlan)
unfolding migrations
plan_migrations http client entities idempotency_key =
    migrations http client "/studio/v1/metadata/plan" entities idempotency_key false

unfoldable pub apply_migrations :
    Http → Client → List Entity → String → Result ProviderError (List MigrationPlan)
unfolding migrations
apply_migrations http client entities idempotency_key =
    migrations http client "/studio/v1/metadata/apply" entities idempotency_key true
