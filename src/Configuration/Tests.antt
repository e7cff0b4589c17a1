-- ===== src/Configuration/Tests.antt =====
-- internal/config on one file.
use jimu_studio.Base.{
  ℕ, ◌≤◌, String, Bool, true, false, Option, none, some, List, [], ◌∷◌, ◌≡◌, refl, ◌==◌,
  if◌then◌else◌,
}
use jimu_studio.Base.Lists.{length, All}
use jimu_studio.Base.Distinct.{Distinct}
use jimu_studio.Configuration.File.{
  File, Label, issuer_url, provider_url, redirect_url, Endpoint, all_name_chars,
  is_environment_name, check_endpoint, check_addresses, is_incomplete_identity, check_tenants,
  validate, is_loopback_host, accepts_listen_address,
}
use jimu_studio.Configuration.Endpoints.{ids, reads_label, IsRegistered, validate-IsRegistered}

abbrev parse : String → Option Endpoint
parse address = some (record {
  scheme = if address == "http://far.example" then "http" else "https";
  host = "id.example";
  has_user = false;
  raw_query = "";
  fragment = "";
})

abbrev order : ℕ → List Label
order index = provider_url ∷ issuer_url ∷ redirect_url ∷ []

abbrev file_over : Bool → String → File
file_over development address = record {
  development = development;
  tenants =
      record {
        id = "one";
        name = "One";
        provider_base_url = address;
        issuer = "https://id.example";
        client_id = "studio";
        client_secret_env = "ONE_SECRET";
        redirect_url = "https://studio.example";
        role_claim = "roles";
      }
      ∷ [];
}

order_complete : (index : ℕ) (l : Label) → reads_label (order index) l ≡ true
order_complete index issuer_url = refl
order_complete index provider_url = refl
order_complete index redirect_url = refl

abbrev file : File
file = file_over false "https://one.example"

file-validate : validate parse order file ≡ none
unfolding validate check_tenants is_incomplete_identity is_environment_name all_name_chars
    check_addresses check_endpoint
file-validate = refl

validate-IsRegistered_example :
    (1 ≤ length file.tenants)
    × (length file.tenants ≤ 128)
    × Distinct (ids file.tenants)
    × All (IsRegistered parse file.development) file.tenants
validate-IsRegistered_example = validate-IsRegistered parse order file order_complete file-validate

-- In development, HTTP is accepted for a host that is not a loopback.
far_http : validate parse order (file_over true "http://far.example") ≡ none
unfolding validate check_tenants is_incomplete_identity is_environment_name all_name_chars
    check_addresses check_endpoint
far_http = refl

abbrev split : String → Option String
split address = some address

abbrev folds : String → String → Bool
folds s t = s == t

abbrev loopback : String → Bool
loopback address = address == "127.0.0.1"

listens_far : accepts_listen_address split folds loopback (file_over true "a") "0.0.0.0" ≡ false
unfolding accepts_listen_address is_loopback_host
listens_far = refl
