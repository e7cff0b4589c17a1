-- ===== src/Auth/Tests.antt =====
-- internal/auth on one broker with two tenants: a login.
mod Sessions
use Prim.Native.String.{slice}
use jimu_studio.Base.{
  ℕ, suc, String, true, false, not, ◌||◌, ◌&&◌, Option, none, some, List, [], ◌∷◌, ◌≡◌, ◌≢◌, ◌<◌,
  ◌≤◌, ◌↔◌, ◌⊎◌, inl, inr, refl, sym, ◌∙◌, arith, Result, ok, err, len, ◌==◌, ltb, ap, eq_iff,
}
use jimu_studio.Base.Int.{pos, eqb_ℤ, leb_ℤ, ltb_ℤ}
use jimu_studio.Base.Lists.{length, contains}
use jimu_studio.Base.Text.{str_leb}
use jimu_studio.Base.Sort.{IsSorted, sort}
use jimu_studio.Base.Dict.{Dict, lookup, insert, delete, keep, drop_values, IsDict}
use jimu_studio.Auth.Types.{
  Any, text, AuthError, invalid_state, unknown_session, invalid_csrf, ExchangeRequest, Identity,
  Token, Tenant, Pending, PendingState, SessionResult, SessionState, SessionView, Broker, Url,
  World,
}
use jimu_studio.Auth.Teardown.{
  deactivate, deactivate_all, invalidate, find_session, cleanup_sessions, evict_oldest_session,
  oldest,
}
use jimu_studio.Auth.Begin.{
  constant_time_equal, cleanup_pending, evict_oldest_pending, is_safe_url, prepare_pending,
  admit_pending, begin,
}
use jimu_studio.Auth.Complete.{
  unique_roles, normalized_roles, is_bounded_identity, accepts_identity, accepts_pending,
  new_session, admit_session, open_session, exchange_code, complete,
}
use jimu_studio.Auth.Session.{
  tenant_name, view_of, needs_refresh, refreshed, visit_session, session, switch, logout, renewed,
  install, validate_csrf, with_client,
}
use jimu_studio.Auth.Drafts.{
  is_safe_category, all_category_chars, draft_state_key, find_drafts, allocate_draft, store_draft,
  load_draft, draw_key, draft_key,
}
use jimu_studio.Auth.Setup.{
  Config, with_defaults, is_out_of_bounds, is_incomplete, register, sorted_views, new_broker,
}
use jimu_studio.Auth.Invariant.{Inv}
use jimu_studio.Auth.Bounds.{evict_oldest_pending-lt}
use jimu_studio.Auth.Runs.{Call, begins, completes, step, run, WellFormed, run-WellFormed}
use jimu_studio.Auth.SingleUse.{
  complete_once, IsAccepted, complete-IsAccepted, constant_time_equal_iff,
}
use jimu_studio.Auth.Admitted.{IsAdmitted}
use jimu_studio.Auth.Login.{IsBegun, begin-IsBegun, begin-complete}
use jimu_studio.Auth.Disposal.{
  IsDisposed, logout-IsDisposed, wrong_csrf_refused, switch-IsDisposed, session-expired,
}
use jimu_studio.Auth.DraftLaws.{load_draft-store, draft_key_stable}
use jimu_studio.Auth.RoleLaws.{normalized_roles_lem}

-- Answers drawn from the letters of a text, at a time.
abbrev pub world : ℕ → String → World
world now letters = record {
  now = now;
  random = λ n. some (slice letters n (suc n));
  authorization_url = λ handle request. "https://id.example/authorize";
  parse_url = λ url.
      some (record { scheme = "https"; host = "id.example"; has_user = false; fragment = "" });
  challenge = λ verifier. verifier;
  exchange = λ handle request. some (record {
    subject = "u1";
    display_name = "User";
    roles = "b" ∷ "a" ∷ "b" ∷ "" ∷ [];
    access_token = "at";
    refresh_token = "rt";
    expiry = 5000;
    nonce = request.expected_nonce;
  });
  refresh = λ handle token. none;
  new_client = λ url token. some 9;
}

abbrev config : Config
config = record {
  tenants =
      record {
        id = "one";
        name = "One";
        provider_base_url = "https://one.example";
        identity = some 0;
      }
      ∷ record {
        id = "two";
        name = "Two";
        provider_base_url = "https://two.example";
        identity = some 1;
      }
      ∷ [];
  has_factory = true;
  pending_ttl = pos 100;
  session_ttl = pos 1000;
  refresh_skew = pos 10;
  max_pending = pos 2;
  max_sessions = pos 2;
}

abbrev broker : Broker
broker = record {
  tenants =
      (
        "two",
        record {
          id = "two";
          name = "Two";
          provider_base_url = "https://two.example";
          identity = some 1;
        },
      )
      ∷ (
        "one",
        record {
          id = "one";
          name = "One";
          provider_base_url = "https://one.example";
          identity = some 0;
        },
      )
      ∷ [];
  tenant_views = record { id = "one"; name = "One" } ∷ record { id = "two"; name = "Two" } ∷ [];
  pending = [];
  sessions = [];
  pending_ttl = 100;
  session_ttl = 1000;
  refresh_skew = 10;
  max_pending = 2;
  max_sessions = 2;
  heap = λ p. none;
  next = 0;
  closed = [];
}

config-broker : new_broker config ≡ ok broker
unfolding new_broker with_defaults is_out_of_bounds register is_incomplete sorted_views lookup
    insert
config-broker = refl

abbrev calls : List Call
calls = begins (world 50 "abcd") "one" ∷ completes (world 60 "wxyz") "a" "b" "code" ∷ []

-- The broker with the session "w", whose CSRF token is "x".
abbrev pub live : Broker
live = run broker calls

abbrev pub live_session : SessionState
live_session = record {
  id = "w";
  csrf = "x";
  tenant_id = "one";
  subject = "u1";
  display_name = "User";
  roles = "a" ∷ "b" ∷ [];
  access_token = "at";
  refresh_token = "rt";
  token_expiry = 5000;
  created = 60;
  expires = 1060;
  active = true;
  client = 9;
  cache = some [];
  optimistic = some [];
}

pub live-find_session : find_session "w" live ≡ some (0, live_session)
unfolding run step begin prepare_pending is_safe_url admit_pending cleanup_pending
    evict_oldest_pending complete accepts_pending constant_time_equal exchange_code accepts_identity
    is_bounded_identity open_session new_session normalized_roles unique_roles sort admit_session
    cleanup_sessions evict_oldest_session deactivate_all deactivate find_session lookup insert
    delete keep drop_values oldest
live-find_session = refl

run-WellFormed_example : WellFormed live
run-WellFormed_example = run-WellFormed config broker calls config-broker

pub live-Inv : Inv [] live
live-Inv = (run-WellFormed config broker calls config-broker).store

abbrev token : String
token = "secret"

abbrev guess : String
guess = "secreT"

constant_time_equal_iff_example : (constant_time_equal token guess ≡ true) ↔ (token ≡ guess)
constant_time_equal_iff_example = constant_time_equal_iff token guess

pub differ : (s t : String) → (s == t) ≡ false → s ≢ t
differ s t h = ground (arith, eq_iff s t)

abbrev code : String
code = "code"

abbrev pub empty : String
empty = ""

abbrev asked : Broker
asked = (begin broker (world 50 "abcd") "one").0

abbrev request : Pending
request = record { id = "a"; state = "b"; tenant_id = "one"; url = "https://id.example/authorize" }

abbrev result : SessionResult
result = record { id = "w"; csrf = "x" }

asked-request : (begin broker (world 50 "abcd") "one").1 ≡ ok request
unfolding begin prepare_pending is_safe_url admit_pending cleanup_pending evict_oldest_pending
    lookup insert delete keep oldest
asked-request = refl

completed-result : (complete asked (world 60 "wxyz") "a" "b" "code").1 ≡ ok result
unfolding begin prepare_pending is_safe_url admit_pending cleanup_pending evict_oldest_pending
    complete accepts_pending constant_time_equal exchange_code accepts_identity is_bounded_identity
    open_session new_session normalized_roles unique_roles sort admit_session cleanup_sessions
    evict_oldest_session deactivate_all deactivate lookup insert delete keep drop_values oldest
completed-result = refl

complete_once_example :
    let b = (complete asked (world 60 "wxyz") "a" "b" "code").0 in
    let (b', answer) = complete b (world 61 "klmn") "a" "b" "again" in
    (answer ≡ err invalid_state)
    × (record b' { pending = b.pending } ≡ b)
    × (lookup "a" b.pending ≡ none)
    × ((other : String) → other ≢ "a" → lookup other b'.pending ≡ lookup other b.pending)
complete_once_example =
    complete_once asked (world 60 "wxyz") (world 61 "klmn") "a" "b" "b" "code" "again"

complete-IsAccepted_example :
    IsAccepted asked
      (complete asked (world 60 "wxyz") "a" "b" "code").0
      (world 60 "wxyz")
      "a"
      "b"
      "code"
      result
complete-IsAccepted_example =
    complete-IsAccepted asked (world 60 "wxyz") "a" "b" "code" result completed-result

begin-IsBegun_example :
    IsBegun broker asked (world 50 "abcd") "one" request
    × IsAdmitted broker asked (world 50 "abcd") request
begin-IsBegun_example =
    begin-IsBegun broker (world 50 "abcd") "one" request tt (omega arith) asked-request

abbrev tenant_one : Tenant
tenant_one = record {
  id = "one";
  name = "One";
  provider_base_url = "https://one.example";
  identity = some 0;
}

abbrev pub identity : Identity
identity = record {
  subject = "u1";
  display_name = "User";
  roles = "b" ∷ "a" ∷ "b" ∷ "" ∷ [];
  access_token = "at";
  refresh_token = "rt";
  expiry = 5000;
  nonce = "c";
}

lookup-tenant_one : lookup "one" broker.tenants ≡ some tenant_one
unfolding lookup
lookup-tenant_one = refl

lookup-no_session : lookup "w" broker.sessions ≡ none
unfolding lookup
lookup-no_session = refl

accepts_identity-identity : accepts_identity identity "c" ≡ true
unfolding accepts_identity is_bounded_identity constant_time_equal
accepts_identity-identity = refl

begin-complete_example :
    let answer = complete asked (world 60 "wxyz") "a" "b" "code" in
    (answer.1 ≡ ok result) × (lookup "w" answer.0.sessions ≡ some 0)
begin-complete_example =
    begin-complete broker (world 50 "abcd") (world 60 "wxyz") "one" "code" "c" "d" "w" "x"
      tenant_one 0 9 request identity asked-request lookup-tenant_one refl refl refl (omega arith)
      (differ code empty refl) refl accepts_identity-identity refl refl refl lookup-no_session

abbrev stored : String → ℕ → PendingState
stored id created = record {
  pending = record {
    id = id;
    state = "s";
    tenant_id = "one";
    url = "https://id.example/authorize";
  };
  nonce = "n";
  verifier = "v";
  created = created;
  expires = 900;
}

abbrev crowd : Dict PendingState
crowd = ("a", stored "a" 7) ∷ ("b", stored "b" 5) ∷ ("c", stored "c" 9) ∷ []

crowd-IsDict : IsDict crowd
unfolding lookup
crowd-IsDict = (refl, (refl, (refl, tt)))

evict_oldest_pending-lt_example : length (evict_oldest_pending 4 2 crowd) < 2
evict_oldest_pending-lt_example =
    evict_oldest_pending-lt 4 2 crowd crowd-IsDict (omega arith) (omega arith)
