-- ===== src/Provider/Origin.antt =====
-- internal/provider/client.go: where the client's requests go.
use Prim.Native.String.{◌++◌}
use jimu_studio.Base.{◌≤◌, String, len, Bool, true, false, Option, some, ◌≡◌, ◌≢◌, ◌⊎◌}
use jimu_studio.Provider.Text.{is_token}
use jimu_studio.Base.Text.{has_prefix}
use jimu_studio.Provider.Client.{Client, HttpRequest, HttpResponse, Http}

-- A request of a client for the base URL and the token: to that URL, which is an HTTP(S) origin, with
-- that token, which is safe, for an absolute path that names no other host.
pub record IsOwn (http : Http) (base_url token : String) (cancelled : Bool) (r : HttpRequest)
    : Type 0 where
  pub parsed : http.parse_base base_url ≡ some r.base_url
  pub scheme : (r.base_url.scheme ≡ "https") ⊎ (r.base_url.scheme ≡ "http")
  pub host : r.base_url.host ≢ ""
  pub no_user : r.base_url.has_user ≡ false
  pub no_query : r.base_url.raw_query ≡ ""
  pub no_fragment : r.base_url.fragment ≡ ""
  pub authorized : r.authorization ≡ "Bearer " ++ token
  pub safe_token : (token ≢ "") × (len token ≤ 16384) × (is_token token ≡ true)
  pub absolute : has_prefix r.path "/" ≡ true
  pub local : has_prefix r.path "//" ≡ false
  pub disposed : r.cancelled ≡ cancelled

abbrev pub over : Http → (HttpRequest → Option HttpResponse) → Http
over http exchange = record http { exchange = exchange }

-- What `NewClient` has tested, and the client that it gives.
record IsMade (http : Http) (base_url token : String) (client : Client) : Type 0 where
  made_of : http.parse_base base_url ≡ some client.base_url
  http_scheme : (client.base_url.scheme ≡ "https") ⊎ (client.base_url.scheme ≡ "http")
  origin :
      (client.base_url.host ≢ "")
      × (client.base_url.has_user ≡ false)
      × (client.base_url.raw_query ≡ "")
      × (client.base_url.fragment ≡ "")
  same_token : client.token ≡ token
  opaque_token : (token ≢ "") × (len token ≤ 16384) × (is_token token ≡ true)
  refuses : client.refuses_redirects ≡ true

module _ (http : Http) (base_url token : String) (client : Client) (cancelled : Bool)
    (exchange : HttpRequest → Option HttpResponse) (made : IsMade http base_url token client)
    (same : (r : HttpRequest)
      → IsOwn http base_url token cancelled r
      → http.exchange r ≡ exchange r) where
  abbrev used : Client
  used = record client { cancelled = cancelled }
