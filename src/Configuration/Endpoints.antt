-- ===== src/Configuration/Endpoints.antt =====
-- internal/config/config.go: what `Validate` guarantees of a file it accepts.
use mathlib.Core.List.{◌∷◌}
use jimu_studio.Base.{
  ℕ, suc, ◌≤◌, String, Bool, true, false, ◌||◌, Option, none, some, List, [], ◌≡◌, ◌≢◌, ◌⊎◌, inl,
  inr, arith, eq_iff, Bool-cases, Option-cases, eqb, ltb,
}
use jimu_studio.Base.Lists.{length, contains, All}
use jimu_studio.Base.Distinct.{Distinct, Apart, Apart-tail}
use jimu_studio.Configuration.File.{
  Tenant, File, Label, issuer_url, provider_url, redirect_url, address_of, Endpoint,
  is_environment_name, check_endpoint, check_addresses, is_incomplete_identity, check_tenants,
  validate,
}

-- The address can be used: it has a host, no user, query or fragment, and TLS outside development.
abbrev pub IsUsable : Bool → Option Endpoint → Type 0
IsUsable development none = ⊥
IsUsable development (some u) =
    (u.host ≢ "")
    × (u.has_user ≡ false)
    × (u.raw_query ≡ "")
    × (u.fragment ≡ "")
    × ((u.scheme ≡ "https") ⊎ ((development ≡ true) × (u.scheme ≡ "http")))

check_endpoint-IsUsable :
    (development : Bool) (id : String) (label : Label) (o : Option Endpoint)
    → check_endpoint development id label o ≡ none
    → IsUsable development o
unfolding check_endpoint
check_endpoint-IsUsable development id label none h = cc
check_endpoint-IsUsable development id label (some u) h = ground (
  arith,
  h,
  eq_iff u.host "",
  eq_iff u.raw_query "",
  eq_iff u.fragment "",
  eq_iff u.scheme "https",
  eq_iff u.scheme "http",
)

abbrev UsesLabel : (String → Option Endpoint) → Bool → Tenant → Label → Type 0
UsesLabel parse development t label = IsUsable development (parse (address_of label t))

check_addresses-IsUsable :
    (parse : String → Option Endpoint) (development : Bool) (t : Tenant) (labels : List Label)
    → check_addresses parse development t labels ≡ none
    → All (UsesLabel parse development t) labels
unfolding check_addresses
check_addresses-IsUsable parse development t [] h = tt
check_addresses-IsUsable parse development t (label ∷ labels) h =
    elim (Option-cases (check_endpoint development t.id label (parse (address_of label t)))) [
      | inr (e, f) ↦ let bad = rw (f, check_addresses) at h in cc
      | inl f ↦ (
        check_endpoint-IsUsable development t.id label _ f,
        check_addresses-IsUsable parse development t labels (rw (f, check_addresses) at h),
      )
    ]

-- A tenant with an identity, a secret's environment name and three usable addresses.
pub record IsRegistered (parse : String → Option Endpoint) (development : Bool) (t : Tenant)
    : Type 0 where
  pub id_given : t.id ≢ ""
  pub name_given : t.name ≢ ""
  pub client_given : t.client_id ≢ ""
  pub secret_named : is_environment_name t.client_secret_env ≡ true
  pub issuer_usable : IsUsable development (parse t.issuer)
  pub provider_usable : IsUsable development (parse t.provider_base_url)
  pub redirect_usable : IsUsable development (parse t.redirect_url)

-- The labels are read once each, in some order.
abbrev pub same_label : Label → Label → Bool
same_label issuer_url issuer_url = true
same_label provider_url provider_url = true
same_label redirect_url redirect_url = true
same_label _ _ = false

abbrev pub reads_label : List Label → Label → Bool
reads_label [] l = false
reads_label (x ∷ xs) l = same_label x l || reads_label xs l

UsesLabel-same :
    (parse : String → Option Endpoint) (development : Bool) (t : Tenant) (x l : Label)
    → same_label x l ≡ true
    → UsesLabel parse development t x
    → UsesLabel parse development t l
UsesLabel-same parse development t issuer_url issuer_url h u = u
UsesLabel-same parse development t provider_url provider_url h u = u
UsesLabel-same parse development t redirect_url redirect_url h u = u
UsesLabel-same parse development t issuer_url provider_url h u = absurd (cc)
UsesLabel-same parse development t issuer_url redirect_url h u = absurd (cc)
UsesLabel-same parse development t provider_url issuer_url h u = absurd (cc)
UsesLabel-same parse development t provider_url redirect_url h u = absurd (cc)
UsesLabel-same parse development t redirect_url issuer_url h u = absurd (cc)
UsesLabel-same parse development t redirect_url provider_url h u = absurd (cc)

All-reads_label :
    (parse : String → Option Endpoint) (development : Bool) (t : Tenant) (labels : List Label)
    (l : Label)
    → All (UsesLabel parse development t) labels
    → reads_label labels l ≡ true
    → UsesLabel parse development t l
All-reads_label parse development t [] l a h = absurd (cc)
All-reads_label parse development t (x ∷ xs) l (u, a) h = elim (Bool-cases (same_label x l)) [
  | inl same ↦ UsesLabel-same parse development t x l same u
  | inr other ↦ All-reads_label parse development t xs l a (rw other at h)
]

abbrev pub ids : List Tenant → List String
ids [] = []
ids (t ∷ ts) = t.id ∷ ids ts

module _ (parse : String → Option Endpoint) (order : ℕ → List Label)
    (complete : (index : ℕ) (l : Label) → reads_label (order index) l ≡ true)
    (development : Bool) where
  check_tenants_lem :
      (seen : List String) (index : ℕ) (ts : List Tenant)
      → check_tenants parse order development seen index ts ≡ none
      → All (IsRegistered parse development) ts × Distinct (ids ts) × Apart (ids ts) seen
  unfolding check_tenants is_incomplete_identity
  check_tenants_lem seen index [] h = (tt, tt, tt)
  check_tenants_lem seen index (t ∷ ts) h = elim (Bool-cases (is_incomplete_identity t)) [
    | inl bad ↦ let failed = rw bad at h in cc
    | inr sound ↦ elim (Bool-cases (contains seen t.id)) [
      | inl bad ↦ let failed = rw (sound, bad) at h in cc
      | inr fresh ↦ elim (Option-cases (check_addresses parse development t (order index))) [
        | inr (e, f) ↦ let failed = rw (sound, fresh, f, check_tenants) at h in cc
        | inl f ↦
            let usable = check_addresses-IsUsable parse development t (order index) f in
            let (each, d, a) =
              check_tenants_lem (t.id ∷ seen) (suc index) ts
                (rw (sound, fresh, f, check_tenants) at h) in
            let (a', apart) = Apart-tail (ids ts) seen t.id a in
            let label = λ (l : Label).
              All-reads_label parse development t (order index) l usable (complete index l) in
            (
              (
                record {
                  id_given = ground (arith, eq_iff t.id "");
                  name_given = ground (arith, eq_iff t.name "");
                  client_given = ground (arith, eq_iff t.client_id "");
                  secret_named = ground arith;
                  issuer_usable = label issuer_url;
                  provider_usable = label provider_url;
                  redirect_usable = label redirect_url;
                },
                each,
              ),
              (apart, d),
              (fresh, a'),
            )
      ]
    ]
  ]

-- A file that `Validate` accepts, in whichever order the map of addresses is read, has 1 to 128
-- tenants with different identifiers; each has an identifier, a name, a client and the name of a
-- secret, and three addresses with a host, without user, query and fragment, and with TLS; plain
-- HTTP is left to development.
pub validate-IsRegistered :
    (parse : String → Option Endpoint) (order : ℕ → List Label) (file : File)
    → ((index : ℕ) (l : Label) → reads_label (order index) l ≡ true)
    → validate parse order file ≡ none
    → (1 ≤ length file.tenants)
      × (length file.tenants ≤ 128)
      × Distinct (ids file.tenants)
      × All (IsRegistered parse file.development) file.tenants
unfolding validate
validate-IsRegistered parse order file complete h =
    elim (Bool-cases (eqb (length file.tenants) 0 || ltb 128 (length file.tenants))) [
      | inl bad ↦ let failed = rw (bad, validate) at h in cc
      | inr good ↦
          let (each, distinct, apart) =
            check_tenants_lem parse order complete file.development [] 0 file.tenants
              (rw (good, validate) at h) in
          (ground arith, ground arith, distinct, each)
    ]
