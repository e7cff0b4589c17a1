-- ===== src/Configuration/File.antt =====
-- internal/config/config.go and development.go: `Validate` and `ValidateListenAddress`.
use Prim.Native.Char.{Char, code}
use jimu_studio.Base.{
  ℕ, suc, String, len, Bool, true, false, not, ◌||◌, ◌&&◌, Option, none, some, List, [], ◌∷◌, leb,
  ltb, eqb, ◌==◌, ◌!=◌, if◌then◌else◌,
}
use jimu_studio.Base.Lists.{length, contains}

pub record Tenant : Type 0 where
  pub id : String
  pub name : String
  pub provider_base_url : String
  pub issuer : String
  pub client_id : String
  pub client_secret_env : String
  pub redirect_url : String
  pub role_claim : String

pub record File : Type 0 where
  pub development : Bool
  pub tenants : List Tenant

-- The keys of the map of addresses.
pub data Label : Type 0 where
  issuer_url provider_url redirect_url : Label

abbrev pub address_of : Label → Tenant → String
address_of issuer_url t = t.issuer
address_of provider_url t = t.provider_base_url
address_of redirect_url t = t.redirect_url

-- The parts of a parsed URL that `Validate` reads.
pub record Endpoint : Type 0 where
  pub scheme : String
  pub host : String
  pub has_user : Bool
  pub raw_query : String
  pub fragment : String

pub data ConfigError : Type 0 where
  tenant_count : ConfigError
  incomplete_identity : ℕ → ConfigError
  repeated_tenant : String → ConfigError
  invalid_address requires_https : String → Label → ConfigError

-- The regular expression of `safeEnvironmentName`.
abbrev is_name_start : Char → Bool
is_name_start c = (leb b'A' (code c) && leb (code c) b'Z') || eqb (code c) b'_'

abbrev is_name_char : Char → Bool
is_name_char c = is_name_start c || (leb b'0' (code c) && leb (code c) b'9')

unfoldable pub all_name_chars : String → Bool
all_name_chars String.[] = true
all_name_chars (String.◌∷◌ c s) = is_name_char c && all_name_chars s

unfoldable pub is_environment_name : String → Bool
is_environment_name String.[] = false
is_environment_name (String.◌∷◌ c s) = is_name_start c && all_name_chars s && leb (len s) 127

unfoldable pub check_endpoint : Bool → String → Label → Option Endpoint → Option ConfigError
check_endpoint development id label none = some (invalid_address id label)
check_endpoint development id label (some u) =
    if u.host == "" || u.has_user || u.raw_query != "" || u.fragment != ""
    then some (invalid_address id label)
    else if (not development && u.scheme != "https")
        || (development && u.scheme != "https" && u.scheme != "http")
    then some (requires_https id label)
    else none

-- The loop over the map of addresses, in the order that the map is read.
unfoldable pub check_addresses :
    (String → Option Endpoint) → Bool → Tenant → List Label → Option ConfigError
check_addresses parse development t [] = none
check_addresses parse development t (label ∷ labels) =
    let rest = check_addresses parse development t labels in
    elim (check_endpoint development t.id label (parse (address_of label t))) [
      | some e ↦ some e
      | none ↦ rest
    ]

unfoldable pub is_incomplete_identity : Tenant → Bool
is_incomplete_identity t =
    t.id == "" || t.name == "" || t.client_id == "" || not (is_environment_name t.client_secret_env)

-- The loop over the tenants, with the identifiers seen so far. Go reads a map in any order, so
-- `order` gives the labels for each index.
unfoldable pub check_tenants :
    (String → Option Endpoint)
    → (ℕ → List Label)
    → Bool
    → List String
    → ℕ
    → List Tenant
    → Option ConfigError
check_tenants parse order development seen index [] = none
check_tenants parse order development seen index (t ∷ ts) =
    let rest = check_tenants parse order development (t.id ∷ seen) (suc index) ts in
    if is_incomplete_identity t
    then some (incomplete_identity index)
    else if contains seen t.id
    then some (repeated_tenant t.id)
    else elim (check_addresses parse development t (order index)) [ some e ↦ some e | none ↦ rest ]

unfoldable pub validate : (String → Option Endpoint) → (ℕ → List Label) → File → Option ConfigError
validate parse order file =
    if eqb (length file.tenants) 0 || ltb 128 (length file.tenants)
    then some tenant_count
    else check_tenants parse order file.development [] 0 file.tenants

-- `isLoopbackHost`; `folds` is `strings.EqualFold`, and `loopback` is `net.ParseIP` with
-- `IsLoopback`.
unfoldable pub is_loopback_host : (String → String → Bool) → (String → Bool) → String → Bool
is_loopback_host folds loopback host = if folds host "localhost" then true else loopback host

-- Whether `ValidateListenAddress` accepts an address; `split` is the host of `net.SplitHostPort`.
unfoldable pub accepts_listen_address :
    (String → Option String) → (String → String → Bool) → (String → Bool) → File → String → Bool
accepts_listen_address split folds loopback file address =
    if not file.development
    then true
    else elim (split address) [ none ↦ false | some host ↦ is_loopback_host folds loopback host ]
