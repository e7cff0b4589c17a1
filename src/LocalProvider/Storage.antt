-- ===== src/LocalProvider/Storage.antt =====
-- `ServeHTTP` and `servePersisted` of internal/localprovider/server.go: one request in one
-- PostgreSQL transaction.
use jimu_studio.Base.{ℕ, suc, String, Bool, true, not, Option, none, some, ltb, ◌==◌, if◌then◌else◌}
use jimu_studio.Base.Text.{has_prefix}
use jimu_studio.LocalProvider.State.{failure, health, State, Request, Response, Clock}
use jimu_studio.LocalProvider.Mutation.{Decoders}
use jimu_studio.LocalProvider.Routes.{serve_loaded}

-- The row of the state table: the JSON payload as text, and its revision.
pub record Row : Type 0 where
  pub payload : String
  pub revision : ℕ

-- What encoding/json makes of a state, and how the database answers in one request: whether it can
-- be reached, and whether the transaction begins, loads, saves and commits.
pub record Storage : Type 0 where
  pub marshal : State → Option String
  pub unmarshal : String → Option State
  pub pings : Bool
  pub begins : Bool
  pub loads : Bool
  pub saves : Bool
  pub commits : Bool

abbrev pub unavailable : String → Response
unavailable message = record { status = 503; body = failure "storage_unavailable" message }

abbrev pub corrupt : Response
corrupt = record { status = 500; body = failure "storage_corrupt" "PostgreSQL state is invalid" }

abbrev pub encode_failed : Response
encode_failed = record {
  status = 500;
  body = failure "storage_encode_failed" "Provider state could not be encoded";
}

-- The end of the transaction: a commit makes the new row durable, anything else rolls it back.
unfoldable pub commit_row : Storage → Row → Row → Response → Row × Response
commit_row db old new response =
    if db.commits
    then (new, response)
    else (old, unavailable "PostgreSQL transaction could not commit")

-- The `UPDATE` of the row, for a status below 500.
unfoldable pub save_row : Storage → Row → State → Response → Row × Response
save_row db old s response =
    if ltb response.status 500
    then elim (db.marshal s) [
      | none ↦ (old, encode_failed)
      | some payload ↦
          if not db.saves
          then (old, unavailable "PostgreSQL state could not be saved")
          else commit_row db old (record { payload = payload; revision = suc old.revision })
              response
    ]
    else commit_row db old old response

unfoldable pub serve_persisted : Storage → Decoders → Clock → Row → Request → Row × Response
serve_persisted db json clock old r =
    if not db.begins
    then (old, unavailable "PostgreSQL transaction could not start")
    else if not db.loads
    then (old, unavailable "PostgreSQL state could not be loaded")
    else elim (db.unmarshal old.payload) [
      | none ↦ (old, corrupt)
      | some s ↦ (let (s', response) = serve_loaded json clock s r in save_row db old s' response)
    ]

unfoldable pub serve : Storage → Decoders → Clock → Row → Request → Row × Response
serve db json clock old r =
    if r.path == "/healthz"
    then (if db.pings
        then (old, record { status = 200; body = health "ok" })
        else (old, record { status = 503; body = health "unavailable" }))
    else (if not (has_prefix r.authorization "Bearer ")
        then (old, record { status = 401; body = failure "unauthorized" "Bearer token required" })
        else serve_persisted db json clock old r)

-- `DropTestSchema`: whether the schema may be dropped.
unfoldable pub may_drop_schema : String → Bool
may_drop_schema schema =
    if not (has_prefix schema "jimu_studio_test_")
    then has_prefix schema "jimu_studio_e2e_"
    else true
