-- ===== src/Server/Types.antt =====
-- What a request brings to internal/server, what it answers with, and what it asks of the world.
use jimu_studio.Base.{ℕ, String, Bool, Option, some, List, ◌∷◌}
use jimu_studio.Base.Int.{ℤ}
use jimu_studio.Base.Dict.{Dict, lookup}
use jimu_studio.Auth.Types.{SessionView, TenantView, World}
use jimu_studio.Provider.Types.{
  Entity, DeletionPlan, DeletionReceipt, MigrationPlan, User, Role, WorkflowRun, WorkflowTask,
  QuotaPlan, UsageRecord, QuotaDiscrepancy, AuditRecord,
}
use jimu_studio.Provider.Client.{Client, Decoded, Http}

-- `url.Values`: the values of each key.
abbrev pub Form : Type 0
Form = Dict (List String)

abbrev first_or_empty : Option (List String) → String
first_or_empty (some (v ∷ vs)) = v
first_or_empty _ = ""

-- `Get` of `url.Values`.
abbrev pub get : String → Form → String
get key form = first_or_empty (lookup key form)

-- A request: the first cookie of a name, the first value of a query parameter, the header
-- Sec-Fetch-Site, and the form, where the body has at most so many bytes and is a form.
pub record Request : Type 0 where
  pub path : String
  pub cookie : String → Option String
  pub query : String → String
  pub fetch_site : String
  pub form : ℕ → Option Form

-- What a handler asks of the world: of each call of the broker and of each call of the provider, by
-- their numbers in the handler, the clients behind the broker's handles (`none` for one of another
-- type), and the packages strconv, net/url, strings, crypto/sha256, encoding/json and net/http.
pub record Env : Type 0 where
  pub secure_cookies : Bool
  pub world : ℕ → World
  pub http : ℕ → Http
  pub client_of : ℕ → Option Client
  pub parse_int : String → Option ℤ
  pub format_int : ℤ → String
  pub query_escape : String → String
  pub encode_query : List (String × String) → String
  pub encode_form : Form → String
  pub sha256_hex : String → String
  pub decode_limits : String → Option (Decoded (Option String))
  pub equal_fold : String → String → Bool
  pub status_text : ℤ → String

pub record NavigationItem : Type 0 where
  pub label : String
  pub path : String

-- The data of the pages that a session sees.
pub data Content : Type 0 where
  entity_list : List (Entity × String) → String → String → String → Bool → Content
  entity_form : Entity → Bool → Bool → Bool → String → String → Content
  entity_conflict : Entity → Entity → String → Content
  failed : String → String → String → Content
  deletion_review : DeletionPlan → String → String → Content
  deletion_done : DeletionReceipt → Content
  migration_review : List MigrationPlan → String → Bool → String → Content
  migration_done : List MigrationPlan → Content
  identity : List User → List Role → String → String → String → String → String → String → Content
  workflows :
      List WorkflowRun
      → List WorkflowTask
      → String
      → String
      → String
      → String
      → String
      → String
      → Bool
      → Content
  quota :
      List QuotaPlan
      → List UsageRecord
      → List QuotaDiscrepancy
      → String
      → String
      → String
      → String
      → String
      → String
      → Bool
      → Content
  audit : List AuditRecord → String → String → Content

-- A text of `http.Error`, a redirection, the pages without a session, or a page with the session and
-- its navigation.
pub data View : Type 0 where
  message : String → View
  redirect : String → View
  shell : Option SessionView → List TenantView → List NavigationItem → View
  authorization : String → View
  page : SessionView → List NavigationItem → Content → View

pub data SameSite : Type 0 where
  lax strict : SameSite

pub record Cookie : Type 0 where
  pub name : String
  pub value : String
  pub max_age : ℤ
  pub secure : Bool
  pub same_site : SameSite

-- The cookies are those that are set, the latest first.
pub record Response : Type 0 where
  pub status : ℤ
  pub view : View
  pub cookies : List Cookie
