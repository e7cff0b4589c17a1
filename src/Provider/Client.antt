-- ===== src/Provider/Client.antt =====
-- `NewClient` and `Do` of internal/provider/client.go, and the decoding of responses in metadata.go.
use Prim.Native.String.{slice, ◌++◌}
use jimu_studio.Base.{
  ℕ, zero, suc, String, len, Bool, true, false, not, ◌||◌, ◌&&◌, Option, none, some, List, Result,
  ok, err, leb, ltb, ◌==◌, ◌!=◌, if◌then◌else◌,
}
use jimu_studio.Base.Int.{ℤ, pos}
use jimu_studio.Base.Text.{has_prefix}
use jimu_studio.Provider.Types.{
  Entity, User, Role, WorkflowRun, WorkflowTask, QuotaPlan, UsageRecord, QuotaDiscrepancy,
  AuditRecord, MigrationPlan, DeletionPlan, DeletionReceipt, Page, ApiError, ProviderError, api,
  plain,
}
use jimu_studio.Provider.Text.{is_token, safe_public_text}

-- The parts of a parsed base URL that `NewClient` reads.
pub record BaseUrl : Type 0 where
  pub scheme : String
  pub host : String
  pub has_user : Bool
  pub raw_query : String
  pub fragment : String

-- `refuses_redirects` says that the `http.Client` has the `CheckRedirect` that gives `ErrRedirect`
-- (else it has net/http's own policy), and `cancelled` that `Close` was called.
pub record Client : Type 0 where
  pub base_url : BaseUrl
  pub token : String
  pub refuses_redirects : Bool
  pub cancelled : Bool

-- The bodies of requests, one for each struct that is marshalled.
pub data Payload : Type 0 where
  entity_change : Entity → ℤ → String → Payload
  deletion : String → ℤ → String → Payload
  new_user : String → String → String → String → Payload
  status_change : String → ℤ → String → String → Payload
  new_role : String → String → String → Payload
  role_update : String → ℤ → String → Payload
  role_change : ℤ → String → Payload
  workflow_change : String → ℤ → String → Payload
  publication : String → ℤ → String → QuotaPlan → Payload
  migration : String → List Entity → String → Payload

-- A request as `Do` builds it; its URL is the path resolved against the base URL.
pub record HttpRequest : Type 0 where
  pub method : String
  pub base_url : BaseUrl
  pub path : String
  pub authorization : String
  pub content_type : Option String
  pub body : Option String
  pub cancelled : Bool

pub record HttpResponse : Type 0 where
  pub status : ℕ
  pub content_type : String
  pub body : String

-- The host and the absoluteness of a parsed reference.
pub record Reference : Type 0 where
  pub is_abs : Bool
  pub host : String

-- The first JSON value of a reader, how many bytes the decoder has taken from the reader by then,
-- and whether nothing but white space follows.
pub record Decoded {ℓ} (A : Type ℓ) : Type ℓ where
  pub value : A
  pub taken : ℕ
  pub at_end : Bool

-- What the client uses of the packages around it: the transport (`none` is an error), net/url, mime,
-- time, strings and encoding/json. `redirect` is the request with which net/http follows a response
-- that is a redirect. `api_error` decodes into a struct and gives that struct also
-- where it fails.
pub record Http : Type 0 where
  pub exchange : HttpRequest → Option HttpResponse
  pub redirect : HttpRequest → HttpResponse → Option HttpRequest
  pub parse_base : String → Option BaseUrl
  pub parse_reference : String → Option Reference
  pub media_type : String → Option String
  pub path_escape : String → String
  pub encode_query : List (String × String) → String
  pub itoa : ℤ → String
  pub parses_time : String → Bool
  pub count_keys : String → ℕ
  pub map_runes : String → String
  pub marshal : Payload → Option String
  pub api_error : String → ApiError → ApiError × Option (ℕ × Bool)
  pub entity_page : String → Option (Decoded (Page Entity))
  pub entity : String → Option (Decoded Entity)
  pub deletion_plan : String → Option (Decoded DeletionPlan)
  pub deletion_receipt : String → Option (Decoded DeletionReceipt)
  pub migration_plans : String → Option (Decoded (List MigrationPlan))
  pub user_page : String → Option (Decoded (Page User))
  pub user : String → Option (Decoded User)
  pub role_page : String → Option (Decoded (Page Role))
  pub role : String → Option (Decoded Role)
  pub run_page : String → Option (Decoded (Page WorkflowRun))
  pub run : String → Option (Decoded WorkflowRun)
  pub task_page : String → Option (Decoded (Page WorkflowTask))
  pub plan_page : String → Option (Decoded (Page QuotaPlan))
  pub plan : String → Option (Decoded QuotaPlan)
  pub usage_page : String → Option (Decoded (Page UsageRecord))
  pub discrepancy_page : String → Option (Decoded (Page QuotaDiscrepancy))
  pub audit_page : String → Option (Decoded (Page AuditRecord))

-- `NewClient`; a token of the regular expression has no line break.
unfoldable pub new_client : Http → String → String → Result ProviderError Client
unfolding is_token
new_client http base_url token = elim (http.parse_base base_url) [
  | none ↦ err (plain "parse Studio provider URL")
  | some parsed ↦
      if parsed.scheme != "https" && parsed.scheme != "http"
        || parsed.host == ""
        || parsed.has_user
        || parsed.raw_query != ""
        || parsed.fragment != ""
      then err (
          plain
            "Studio provider URL must be an HTTP(S) origin without credentials, query, or fragment")
      else if token == "" || ltb 16384 (len token) || not (is_token token)
      then err (plain "safe opaque Studio bearer token is required")
      else ok
          (record { base_url = parsed; token = token; refuses_redirects = true; cancelled = false })
]

abbrev pub close : Client → Client
close client = record client { cancelled = true }

-- The request that `Do` sends.
abbrev pub request_of : Client → String → String → Option String → HttpRequest
request_of client method path body = record {
  method = method;
  base_url = client.base_url;
  path = path;
  authorization = "Bearer " ++ client.token;
  content_type = elim body [ none ↦ none | some b ↦ some "application/json" ];
  body = body;
  cancelled = client.cancelled;
}

-- The test on a parsed path.
unfoldable pub is_path : String → Option Reference → Bool
is_path path none = false
is_path path (some reference) =
    has_prefix path "/"
    && not (has_prefix path "//")
    && not reference.is_abs
    && reference.host == ""

-- net/http without a `CheckRedirect`: a request and its redirects, ten requests at most.
unfoldable pub follow : Http → ℕ → HttpRequest → Result ProviderError HttpResponse
follow http zero request = err (plain "stopped after 10 redirects")
follow http (suc fuel) request = elim (http.exchange request) [
  | none ↦ err (plain "Studio provider request failed")
  | some response ↦ elim (http.redirect request response) [
    | none ↦ ok response
    | some next ↦ follow http fuel next
  ]
]

-- `client.http.Do`: with the client's `CheckRedirect`, a redirect is an error.
unfoldable pub perform : Http → Client → HttpRequest → Result ProviderError HttpResponse
unfolding follow
perform http client request =
    if client.refuses_redirects
    then elim (http.exchange request) [
      | none ↦ err (plain "Studio provider request failed")
      | some response ↦ elim (http.redirect request response) [
        | none ↦ ok response
        | some next ↦ err (plain "Studio provider redirect rejected")
      ]
    ]
    else follow http 10 request

unfoldable pub do_request :
    Http → Client → String → String → Option String → Result ProviderError HttpResponse
unfolding is_path perform
do_request http client method path body =
    if not (is_path path (http.parse_reference path))
    then err (plain "Studio provider path must be an absolute-path reference")
    else perform http client (request_of client method path body)

abbrev pub max_metadata_response : ℕ
max_metadata_response = 2097152

abbrev pub max_error_response : ℕ
max_error_response = 65536

-- `decodeBoundedJSON`: the decoder sees the limit and one more byte.
unfoldable pub decode_bounded {ℓ} :
    {A : Type ℓ} → ℕ → (String → Option (Decoded A)) → String → Result ProviderError A
decode_bounded limit decode body = elim (decode (slice body 0 (suc limit))) [
  | none ↦ err (plain "invalid JSON")
  | some d ↦
      if ltb limit d.taken
      then err (plain "provider response exceeds size limit")
      else if not d.at_end
      then err (plain "provider response contains trailing JSON")
      else ok d.value
]

-- `decodeAPIError`: the texts are cleaned only where the whole body was decoded.
unfoldable pub decode_api_error : Http → HttpResponse → ApiError
unfolding safe_public_text
decode_api_error http response =
    let (e, read) =
      http.api_error (slice response.body 0 (suc max_error_response))
        (record { status = pos response.status; code = ""; message = ""; request_id = "" }) in
    elim read [
      | none ↦ e
      | some (taken, at_end) ↦ if ltb max_error_response taken || not at_end then e else record e {
        code = safe_public_text http.map_runes e.code 128;
        message = safe_public_text http.map_runes e.message 1024;
        request_id = safe_public_text http.map_runes e.request_id 256;
      }
    ]

abbrev is_json : Option String → Bool
is_json none = false
is_json (some media) = media == "application/json"

unfoldable pub decode_response {ℓ} :
    {A : Type ℓ} → Http → (String → Option (Decoded A)) → HttpResponse → Result ProviderError A
unfolding decode_bounded decode_api_error
decode_response http decode response =
    if ltb response.status 200 || leb 300 response.status
    then err (api (decode_api_error http response))
    else if not (is_json (http.media_type response.content_type))
    then err (plain "provider response is not application/json")
    else decode_bounded max_metadata_response decode response.body

-- The answer to a request.
unfoldable pub receive {ℓ} :
    {A : Type ℓ}
    → Http
    → Client
    → (String → Option (Decoded A))
    → String
    → String
    → Option String
    → Result ProviderError A
unfolding do_request decode_response
receive http client decode method path body = elim (do_request http client method path body) [
  | err e ↦ err e
  | ok response ↦ decode_response http decode response
]

-- A request with a marshalled body: `identityRequest`, `operationRequest` and the mutations of
-- metadata. Without a payload the body is empty.
unfoldable pub send {ℓ} :
    {A : Type ℓ}
    → Http
    → Client
    → (String → Option (Decoded A))
    → String
    → String
    → Option Payload
    → Result ProviderError A
unfolding receive
send http client decode method path payload = elim payload [
  | none ↦ receive http client decode method path (some "")
  | some p ↦ elim (http.marshal p) [
    | none ↦ err (plain "request cannot be marshalled")
    | some body ↦ receive http client decode method path (some body)
  ]
]

-- The value, unless it is refused; a refusal's text stands behind the prefix.
unfoldable pub checked {ℓ} :
    {A : Type ℓ} → String → (A → Option String) → Result ProviderError A → Result ProviderError A
checked prefix check (err e) = err e
checked prefix check (ok a) = elim (check a) [
  | none ↦ ok a
  | some text ↦ err (plain (prefix ++ text))
]
