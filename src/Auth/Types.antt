-- ===== src/Auth/Types.antt =====
-- internal/auth/types.go: the broker's data, and what it asks of the world around it.
use jimu_studio.Base.{ℕ, String, Bool, Option, List}
use jimu_studio.Base.Dict.{Dict}
use jimu_studio.Provider.Types.{Entity, DeletionPlan, MigrationPlan}

-- The errors of the operations, one for each `errors.New` and `fmt.Errorf`; `nil_identity` is the
-- nil dereference of a tenant that has no identity provider.
pub data AuthError : Type 0 where
  invalid_state invalid_csrf unknown_tenant unknown_session : AuthError
  random_failed unsafe_url pending_collision : AuthError
  exchange_failed bad_identity client_failed session_collision nil_identity : AuthError
  unsafe_draft draft_limit draft_allocation bad_scope : AuthError
  no_tenants bad_bounds incomplete_tenant : AuthError
  duplicate_tenant : String → AuthError

pub record AuthorizationRequest : Type 0 where
  pub state : String
  pub nonce : String
  pub code_challenge : String

pub record ExchangeRequest : Type 0 where
  pub code : String
  pub verifier : String
  pub expected_nonce : String

-- Times are numbers of nanoseconds, and 0 is Go's zero time.
pub record Token : Type 0 where
  pub access_token : String
  pub refresh_token : String
  pub expiry : ℕ

pub record Identity : Type 0 where
  pub subject : String
  pub display_name : String
  pub roles : List String
  pub access_token : String
  pub refresh_token : String
  pub expiry : ℕ
  pub nonce : String

-- `identity` is the handle of the tenant's identity provider, `none` for nil.
pub record Tenant : Type 0 where
  pub id : String
  pub name : String
  pub provider_base_url : String
  pub identity : Option ℕ

pub record TenantView : Type 0 where
  pub id : String
  pub name : String

pub record Pending : Type 0 where
  pub id : String
  pub state : String
  pub tenant_id : String
  pub url : String

pub record PendingState : Type 0 where
  pub pending : Pending
  pub open pending use *
  pub nonce : String
  pub verifier : String
  pub created : ℕ
  pub expires : ℕ

pub record SessionResult : Type 0 where
  pub id : String
  pub csrf : String

pub record SessionView : Type 0 where
  pub tenant_id : String
  pub tenant_name : String
  pub subject : String
  pub display_name : String
  pub roles : List String
  pub csrf : String

-- A value of type `any` in a session's maps: a text, one of the web server's drafts (a deletion plan
-- or a migration, with the scope of the plan), or another value by its identity.
pub data Any : Type 0 where
  text : String → Any
  deletion_draft : DeletionPlan → String → Any
  migration_draft : List Entity → List MigrationPlan → String → Any
  object : ℕ → Any

-- `client` is the handle of the token-bound client; a nil map is `none`.
pub record SessionState : Type 0 where
  pub id : String
  pub csrf : String
  pub tenant_id : String
  pub subject : String
  pub display_name : String
  pub roles : List String
  pub access_token : String
  pub refresh_token : String
  pub token_expiry : ℕ
  pub created : ℕ
  pub expires : ℕ
  pub active : Bool
  pub client : ℕ
  pub cache : Option (Dict Any)
  pub optimistic : Option (Dict Any)

-- The sessions are pointers into `heap`; `next` is the next free pointer, and `closed` records the
-- clients on which `Close` was called, the latest first.
pub record Broker : Type 0 where
  pub tenants : Dict Tenant
  pub tenant_views : List TenantView
  pub pending : Dict PendingState
  pub sessions : Dict ℕ
  pub pending_ttl : ℕ
  pub session_ttl : ℕ
  pub refresh_skew : ℕ
  pub max_pending : ℕ
  pub max_sessions : ℕ
  pub heap : ℕ → Option SessionState
  pub next : ℕ
  pub closed : List ℕ

-- The parts of a parsed URL that the broker reads.
pub record Url : Type 0 where
  pub scheme : String
  pub host : String
  pub has_user : Bool
  pub fragment : String

-- What one call of an operation gets from outside: the clock, the n-th answer of the random source,
-- net/url, SHA-256 with base64, the identity providers by their handles and the client factory.
-- `none` is an error. Each call takes a world of its own, so answers may differ between calls.
pub record World : Type 0 where
  pub now : ℕ
  pub random : ℕ → Option String
  pub authorization_url : ℕ → AuthorizationRequest → String
  pub parse_url : String → Option Url
  pub challenge : String → String
  pub exchange : ℕ → ExchangeRequest → Option Identity
  pub refresh : ℕ → String → Option Token
  pub new_client : String → String → Option ℕ
