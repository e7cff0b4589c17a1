-- ===== src/Auth/Complete.antt =====
-- internal/auth/broker.go: `Complete`, which turns a pending authorization into a session.
use jimu_studio.Base.{
  ℕ, suc, ◌+◌, ◌*◌, String, len, Bool, true, ◌&&◌, ◌||◌, Option, none, some, List, [], ◌∷◌, Result,
  ok, err, ltb, leb, is_some, ◌==◌, ◌!=◌, if◌then◌else◌,
}
use jimu_studio.Base.Lists.{length, contains, all}
use jimu_studio.Base.Sort.{sort}
use jimu_studio.Base.Dict.{lookup, insert, delete}
use jimu_studio.Auth.Types.{
  AuthError, invalid_state, exchange_failed, bad_identity, client_failed, random_failed,
  session_collision, nil_identity, ExchangeRequest, Identity, Tenant, PendingState, SessionResult,
  SessionState, Broker, World,
}
use jimu_studio.Auth.Teardown.{
  update, deactivate, deactivate_all, cleanup_sessions, evict_oldest_session,
}
use jimu_studio.Auth.Begin.{constant_time_equal}

-- The keys of the map `unique`: the roles that are not empty, each once.
unfoldable pub unique_roles : List String → List String
unique_roles [] = []
unique_roles (r ∷ rs) =
    let rest = unique_roles rs in if r == "" || contains rest r then rest else r ∷ rest

unfoldable pub normalized_roles : List String → List String
unfolding unique_roles
normalized_roles roles = sort (unique_roles roles)

unfoldable pub is_bounded_identity : Identity → Bool
is_bounded_identity i =
    leb (len i.subject) 1024
    && leb (len i.display_name) 1024
    && leb (length i.roles) 256
    && leb (len i.access_token) (16 * 1024)
    && leb (len i.refresh_token) (16 * 1024)
    && all (λ role. leb (len role) 128) i.roles

-- The tests on the identity that the exchange returns.
unfoldable pub accepts_identity : Identity → String → Bool
unfolding is_bounded_identity constant_time_equal
accepts_identity i nonce =
    i.subject != ""
    && i.access_token != ""
    && is_bounded_identity i
    && constant_time_equal i.nonce nonce

-- The first guard of `Complete`.
unfoldable pub accepts_pending : ℕ → PendingState → String → String → Bool
unfolding constant_time_equal
accepts_pending now p state code =
    ltb now p.expires && constant_time_equal p.state state && code != ""

-- The session that `Complete` builds.
unfoldable pub new_session :
    Broker → ℕ → PendingState → Identity → String → String → ℕ → SessionState
unfolding normalized_roles
new_session b now p i id csrf client = record {
  id = id;
  csrf = csrf;
  tenant_id = p.tenant_id;
  subject = i.subject;
  display_name = i.display_name;
  roles = normalized_roles i.roles;
  access_token = i.access_token;
  refresh_token = i.refresh_token;
  token_expiry = i.expiry;
  created = now;
  expires = now + b.session_ttl;
  active = true;
  client = client;
  cache = some [];
  optimistic = some [];
}

abbrev pub deactivate_evicted : Option ℕ → Broker → Broker
deactivate_evicted none b = b
deactivate_evicted (some p) b = deactivate p b

-- `Complete` under the lock and after it: the session is allocated, expired sessions go, and the
-- oldest one makes room.
unfoldable pub admit_session : Broker → ℕ → SessionState → Broker × Result AuthError SessionResult
unfolding cleanup_sessions evict_oldest_session deactivate_all
admit_session b now s =
    let (kept, expired) = cleanup_sessions now b in
    let (left, evicted) = evict_oldest_session b.max_sessions b.heap kept in
    let heap = update b.heap b.next s in
    if is_some (lookup s.id kept)
    then (
      deactivate b.next
          (deactivate_all expired (record b { heap = heap; next = suc b.next; sessions = kept })),
      err session_collision,
    )
    else (
      deactivate_evicted evicted (
          deactivate_all expired
            (record b { heap = heap; next = suc b.next; sessions = insert s.id b.next left })),
      ok (record { id = s.id; csrf = s.csrf }),
    )

abbrev pub close_client : ℕ → Broker → Broker
close_client client b = record b { closed = client ∷ b.closed }

-- `Complete` from the client factory on.
unfoldable pub open_session :
    Broker → World → Tenant → PendingState → Identity → Broker × Result AuthError SessionResult
unfolding admit_session new_session
open_session b w tenant p i = elim (w.new_client tenant.provider_base_url i.access_token) [
  | none ↦ (b, err client_failed)
  | some client ↦ elim (w.random 0) [
    | none ↦ (close_client client b, err random_failed)
    | some id ↦ elim (w.random 1) [
      | none ↦ (close_client client b, err random_failed)
      | some csrf ↦ admit_session b w.now (new_session b w.now p i id csrf client)
    ]
  ]
]

abbrev pub exchange_request : PendingState → String → ExchangeRequest
exchange_request p code = record { code = code; verifier = p.verifier; expected_nonce = p.nonce }

-- `Complete` from the exchange on.
unfoldable pub exchange_code :
    Broker → World → PendingState → String → Broker × Result AuthError SessionResult
unfolding accepts_identity open_session
exchange_code b w p code = elim (lookup p.tenant_id b.tenants) [
  | none ↦ (b, err nil_identity)
  | some tenant ↦ elim tenant.identity [
    | none ↦ (b, err nil_identity)
    | some handle ↦ elim (w.exchange handle (exchange_request p code)) [
      | none ↦ (b, err exchange_failed)
      | some i ↦
          if accepts_identity i p.nonce then open_session b w tenant p i else (b, err bad_identity)
    ]
  ]
]

unfoldable pub complete :
    Broker → World → String → String → String → Broker × Result AuthError SessionResult
unfolding accepts_pending exchange_code
complete b w pending_id state code =
    let consumed : Broker = record b { pending = delete pending_id b.pending } in
    elim (lookup pending_id b.pending) [
      | none ↦ (consumed, err invalid_state)
      | some p ↦
          if accepts_pending w.now p state code
          then exchange_code consumed w p code
          else (consumed, err invalid_state)
    ]
