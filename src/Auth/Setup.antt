-- ===== src/Auth/Setup.antt =====
-- internal/auth/broker.go: `NewBroker` and `Tenants`.
use jimu_studio.Base.{
  ℕ, ◌*◌, Bool, true, false, not, ◌||◌, none, List, [], ◌∷◌, Result, ok, err, is_some, ◌==◌,
  if◌then◌else◌,
}
use jimu_studio.Base.Int.{ℤ, pos, negsuc, eqb_ℤ, ltb_ℤ, leb_ℤ}
use jimu_studio.Base.Text.{str_leb}
use jimu_studio.Base.Dict.{Dict, lookup, insert}
use jimu_studio.Auth.Types.{
  AuthError, no_tenants, bad_bounds, incomplete_tenant, duplicate_tenant, Tenant, TenantView,
  Broker,
}

-- The bounds of a configuration; `has_factory` says that the client factory is not nil. The clock
-- and the random source are part of each call's world.
pub record Config : Type 0 where
  pub tenants : List Tenant
  pub has_factory : Bool
  pub pending_ttl : ℤ
  pub session_ttl : ℤ
  pub refresh_skew : ℤ
  pub max_pending : ℤ
  pub max_sessions : ℤ

-- Nanoseconds in a minute.
abbrev pub minute : ℕ
minute = 60000000000

abbrev pub or_default : ℤ → ℕ → ℤ
or_default x d = if eqb_ℤ x (pos 0) then pos d else x

unfoldable pub with_defaults : Config → Config
with_defaults c = record c {
  pending_ttl = or_default c.pending_ttl (10 * minute);
  session_ttl = or_default c.session_ttl (8 * (60 * minute));
  refresh_skew = or_default c.refresh_skew minute;
  max_pending = or_default c.max_pending 1024;
  max_sessions = or_default c.max_sessions 4096;
}

unfoldable pub is_out_of_bounds : Config → Bool
is_out_of_bounds c =
    leb_ℤ c.pending_ttl (pos 0)
    || leb_ℤ c.session_ttl (pos 0)
    || ltb_ℤ c.refresh_skew (pos 0)
    || ltb_ℤ c.max_pending (pos 1)
    || ltb_ℤ c.max_sessions (pos 1)

abbrev pub nat : ℤ → ℕ
nat (pos n) = n
nat (negsuc n) = 0

unfoldable pub is_incomplete : Tenant → Bool
is_incomplete t =
    t.id == "" || t.name == "" || t.provider_base_url == "" || not (is_some t.identity)

-- The loop over the tenants.
unfoldable pub register : List Tenant → Dict Tenant → Result AuthError (Dict Tenant)
unfolding is_incomplete
register [] done = ok done
register (t ∷ ts) done =
    let rest = register ts (insert t.id t done) in
    if is_incomplete t
    then err incomplete_tenant
    else if is_some (lookup t.id done)
    then err (duplicate_tenant t.id)
    else rest

abbrev insert_view : TenantView → List TenantView → List TenantView
insert_view v [] = v ∷ []
insert_view v (x ∷ xs) =
    let rest = insert_view v xs in if str_leb v.id x.id then v ∷ x ∷ xs else x ∷ rest

-- The views of the tenants, sorted by their identifiers.
unfoldable pub sorted_views : List Tenant → List TenantView
sorted_views [] = []
sorted_views (t ∷ ts) = insert_view (record { id = t.id; name = t.name }) (sorted_views ts)

abbrev pub has_tenants : List Tenant → Bool
has_tenants [] = false
has_tenants (t ∷ ts) = true

abbrev pub empty_broker : Config → Dict Tenant → Broker
empty_broker c tenants = record {
  tenants = tenants;
  tenant_views = sorted_views c.tenants;
  pending = [];
  sessions = [];
  pending_ttl = nat c.pending_ttl;
  session_ttl = nat c.session_ttl;
  refresh_skew = nat c.refresh_skew;
  max_pending = nat c.max_pending;
  max_sessions = nat c.max_sessions;
  heap = λ p. none;
  next = 0;
  closed = [];
}

abbrev pub broker_over : Config → Result AuthError (Dict Tenant) → Result AuthError Broker
broker_over c (err e) = err e
broker_over c (ok tenants) = ok (empty_broker c tenants)

unfoldable pub new_broker : Config → Result AuthError Broker
unfolding with_defaults is_out_of_bounds register
new_broker config =
    if not (has_tenants config.tenants) || not config.has_factory
    then err no_tenants
    else (let c = with_defaults config in
        if is_out_of_bounds c then err bad_bounds else broker_over c (register c.tenants []))
