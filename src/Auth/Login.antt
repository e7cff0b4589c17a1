-- ===== src/Auth/Login.antt =====
-- internal/auth/broker.go: the authorization that `Begin` leaves for `Complete`.
use jimu_studio.Base.{
  ℕ, ◌+◌, ◌<◌, String, Bool, true, false, none, some, [], ◌∷◌, ◌≡◌, ◌≢◌, refl, arith, ap, ◌∙◌,
  is_some, inl, inr, Option-cases, Bool-cases, Result, ok, err, eq_iff,
}
use jimu_studio.Base.Dict.{Dict, IsDict, keep, lookup, delete, lookup-insert_self}
use jimu_studio.Auth.Types.{
  AuthError, Identity, Tenant, Pending, PendingState, SessionState, Broker, World,
}
use jimu_studio.Auth.Admitted.{IsAdmitted, admit_pending-IsAdmitted}
use jimu_studio.Auth.Teardown.{is_live}
use jimu_studio.Auth.Complete.{
  accepts_identity, accepts_pending, new_session, admit_session, open_session, exchange_request,
  exchange_code, complete,
}
use jimu_studio.Auth.SingleUse.{complete-IsAccepted, constant_time_equal_iff}
use jimu_studio.Auth.Begin.{
  cleanup_pending, is_safe_url, prepare_pending, admit_pending, then_admit, begin,
}

-- What `Begin` has done when it returns a pending authorization.
pub record IsBegun (b b' : Broker) (w : World) (tenant_id : String) (q : Pending) : Type 0 where
  pub tenant : Tenant
  pub handle : ℕ
  pub stored : PendingState
  pub known : lookup tenant_id b.tenants ≡ some tenant
  pub provider : tenant.identity ≡ some handle
  pub kept : lookup q.id b'.pending ≡ some stored
  pub shown : stored.pending ≡ q
  pub for_tenant : q.tenant_id ≡ tenant_id
  pub drawn :
      (w.random 0 ≡ some q.id)
      × (w.random 1 ≡ some q.state)
      × (w.random 2 ≡ some stored.nonce)
      × (w.random 3 ≡ some stored.verifier)
  pub linked :
      q.url
      ≡ w.authorization_url handle (record {
        state = q.state;
        nonce = stored.nonce;
        code_challenge = w.challenge stored.verifier;
      })
  pub safe : is_safe_url w q.url ≡ true
  pub lifetime : stored.expires ≡ w.now + b.pending_ttl
  pub rest : record b' { pending = b.pending } ≡ b

-- The state that `Begin` prepares.
record IsPrepared (handle ttl : ℕ) (w : World) (tenant_id : String) (p : PendingState)
    : Type 0 where
  for_tenant : p.tenant_id ≡ tenant_id
  drawn :
      (w.random 0 ≡ some p.id)
      × (w.random 1 ≡ some p.state)
      × (w.random 2 ≡ some p.nonce)
      × (w.random 3 ≡ some p.verifier)
  linked :
      p.url
      ≡ w.authorization_url handle
          (record { state = p.state; nonce = p.nonce; code_challenge = w.challenge p.verifier })
  safe : is_safe_url w p.url ≡ true
  lifetime : p.expires ≡ w.now + ttl

-- What holds of every prepared state and of every error.
prepare_pending-cases {ℓ} :
    (P : Result AuthError PendingState → Type ℓ) (handle ttl : ℕ) (w : World) (tenant_id : String)
    → ((e : AuthError) → P (err e))
    → ((p : PendingState) → IsPrepared handle ttl w tenant_id p → P (ok p))
    → P (prepare_pending handle ttl w tenant_id)
unfolding prepare_pending
prepare_pending-cases P handle ttl w tenant_id failed prepared = elim (Option-cases (w.random 0)) [
  | inl e0 ↦ rw (e0, prepare_pending) (failed _)
  | inr (id, e0) ↦ elim (Option-cases (w.random 1)) [
    | inl e1 ↦ rw (e0, e1, prepare_pending) (failed _)
    | inr (state, e1) ↦ elim (Option-cases (w.random 2)) [
      | inl e2 ↦ rw (e0, e1, e2, prepare_pending) (failed _)
      | inr (nonce, e2) ↦ elim (Option-cases (w.random 3)) [
        | inl e3 ↦ rw (e0, e1, e2, e3, prepare_pending) (failed _)
        | inr (verifier, e3) ↦
            let url =
              w.authorization_url handle
                (record { state = state; nonce = nonce; code_challenge = w.challenge verifier }) in
            elim (Bool-cases (is_safe_url w url)) [
              | inr bad ↦ rw (e0, e1, e2, e3, bad, prepare_pending) (failed _)
              | inl safe ↦
                  rw (e0, e1, e2, e3, safe, prepare_pending)
                    (prepared _ (record {
                      for_tenant = refl;
                      drawn = (e0, e1, e2, e3);
                      linked = refl;
                      safe = safe;
                      lifetime = refl;
                    }))
            ]
      ]
    ]
  ]
]

admit_pending-kept :
    (b : Broker) (now : ℕ) (p : PendingState) (q : Pending)
    → (admit_pending b now p).1 ≡ ok q
    → (p.pending ≡ q)
      × (lookup p.id (admit_pending b now p).0.pending ≡ some p)
      × (record (admit_pending b now p).0 { pending = b.pending } ≡ b)
unfolding admit_pending
admit_pending-kept b now p q e =
    elim (Bool-cases (is_some (lookup p.id (cleanup_pending now b.pending)))) [
      | inl taken ↦ let bad = rw (taken, admit_pending) at e in cc
      | inr free ↦
          let same : ◌≡◌ {A = Result AuthError Pending} (ok p.pending) (ok q) =
            rw (free, admit_pending) at e in
          (
            ground arith,
            rw (free, admit_pending) (lookup-insert_self p.id p _),
            rw (free, admit_pending),
          )
    ]

-- What a successful `Begin` has done to the authorization that it returns.
begin-ok :
    (b : Broker) (w : World) (tenant_id : String) (q : Pending)
    → (begin b w tenant_id).1 ≡ ok q
    → IsBegun b (begin b w tenant_id).0 w tenant_id q
unfolding begin
begin-ok b w tenant_id q = elim (Option-cases (lookup tenant_id b.tenants)) [
  | inl f ↦ rw (f, begin) (λ e. cc)
  | inr (tenant, f) ↦ elim (Option-cases tenant.identity) [
    | inl g ↦ rw (f, g, begin) (λ e. cc)
    | inr (handle, g) ↦
        rw (f, g, begin)
          (prepare_pending-cases
            (λ r.
              (then_admit b w.now r).1 ≡ ok q → IsBegun b (then_admit b w.now r).0 w tenant_id q)
            handle b.pending_ttl w tenant_id (λ failed e. cc)
            λ p ready e.
              let (shown, kept, rest) = admit_pending-kept b w.now p q e in
              record {
                tenant = tenant;
                handle = handle;
                stored = p;
                known = f;
                provider = g;
                kept = rw (← shown) kept;
                shown = shown;
                for_tenant = rw (← shown) ready.for_tenant;
                drawn = rw (← shown) ready.drawn;
                linked = rw (← shown) ready.linked;
                safe = rw (← shown) ready.safe;
                lifetime = ready.lifetime;
                rest = rest;
              })
  ]
]

begin-IsAdmitted :
    (b : Broker) (w : World) (tenant_id : String) (q : Pending)
    → IsDict b.pending
    → 0 < b.max_pending
    → (begin b w tenant_id).1 ≡ ok q
    → IsAdmitted b (begin b w tenant_id).0 w q
unfolding begin
begin-IsAdmitted b w tenant_id q d positive = elim (Option-cases (lookup tenant_id b.tenants)) [
  | inl f ↦ rw (f, begin) (λ e. cc)
  | inr (tenant, f) ↦ elim (Option-cases tenant.identity) [
    | inl g ↦ rw (f, g, begin) (λ e. cc)
    | inr (handle, g) ↦
        rw (f, g, begin)
          (prepare_pending-cases
            (λ r. (then_admit b w.now r).1 ≡ ok q → IsAdmitted b (then_admit b w.now r).0 w q)
            handle b.pending_ttl w tenant_id (λ failed e. cc)
            λ p ready e. admit_pending-IsAdmitted b w p q d positive e)
  ]
]

-- On a broker that keeps no identifier twice and has a positive limit of pending authorizations:
-- when `Begin` returns a pending authorization, the tenant is known and has an identity provider,
-- the authorization is kept under its identifier with the drawn state, nonce and verifier, the URL
-- is the provider's for that state, nonce and challenge and passed the tests of a safe URL, and the
-- authorization expires after the broker's time to live. No other part of the broker than the
-- pending authorizations changed. Every other authorization that is kept was kept before and has
-- not expired; while fewer unexpired ones than the limit were kept, all of them still are;
-- otherwise just as many are kept as the limit allows.
pub begin-IsBegun :
    (b : Broker) (w : World) (tenant_id : String) (q : Pending)
    → IsDict b.pending
    → 0 < b.max_pending
    → (begin b w tenant_id).1 ≡ ok q
    → IsBegun b (begin b w tenant_id).0 w tenant_id q × IsAdmitted b (begin b w tenant_id).0 w q
unfolding begin
begin-IsBegun b w tenant_id q d positive e =
    (begin-ok b w tenant_id q e, begin-IsAdmitted b w tenant_id q d positive e)

lookup-keep-none {ℓ} :
    {V : Type ℓ}
    → (f : V → Bool) (k : String) (m : Dict V) → lookup k m ≡ none
    → lookup k (keep f m) ≡ none
unfolding lookup keep
lookup-keep-none f k [] e = refl
lookup-keep-none f k ((j, v) ∷ m) e = ground (arith, lookup-keep-none f k m)

accepts_pending-true :
    (now : ℕ) (p : PendingState) (state code : String)
    → now < p.expires
    → p.state ≡ state
    → code ≢ ""
    → accepts_pending now p state code ≡ true
unfolding accepts_pending
accepts_pending-true now p state code early same given =
    ground (arith, (constant_time_equal_iff p.state state).1 same, eq_iff code "")

admit_session-ok :
    (b : Broker) (now : ℕ) (s : SessionState)
    → lookup s.id b.sessions ≡ none
    → (admit_session b now s).1 ≡ ok (record { id = s.id; csrf = s.csrf })
unfolding admit_session
admit_session-ok b now s free =
    let unknown : is_some (lookup s.id (keep (is_live now b.heap) b.sessions)) ≡ false =
      rw (lookup-keep-none (is_live now b.heap) s.id b.sessions free) in
    rw (unknown, admit_session)

open_session-ok :
    (b : Broker) (w : World) (tenant : Tenant) (p : PendingState) (i : Identity) (client : ℕ)
    (id csrf : String)
    → w.new_client tenant.provider_base_url i.access_token ≡ some client
    → w.random 0 ≡ some id
    → w.random 1 ≡ some csrf
    → lookup id b.sessions ≡ none
    → (open_session b w tenant p i).1 ≡ ok (record { id = id; csrf = csrf })
unfolding open_session
open_session-ok b w tenant p i client id csrf e0 e1 e2 free =
    rw (e0, e1, e2, open_session)
      (admit_session-ok b w.now (new_session b w.now p i id csrf client) free)

complete-ok :
    (b : Broker) (w : World) (tenant : Tenant) (p : PendingState)
    (pending_id state code id csrf : String) (handle : ℕ) (i : Identity)
    → lookup pending_id b.pending ≡ some p
    → accepts_pending w.now p state code ≡ true
    → lookup p.tenant_id b.tenants ≡ some tenant
    → tenant.identity ≡ some handle
    → w.exchange handle (exchange_request p code) ≡ some i
    → accepts_identity i p.nonce ≡ true
    → (open_session (record b { pending = delete pending_id b.pending }) w tenant p i).1
      ≡ ok (record { id = id; csrf = csrf })
    → (complete b w pending_id state code).1 ≡ ok (record { id = id; csrf = csrf })
unfolding complete exchange_code
complete-ok b w tenant p pending_id state code id csrf handle i kept valid known provider exchanged
      fits opened =
    rw (kept, valid, complete) (rw (known, provider, exchanged, fits, exchange_code) opened)

-- A login succeeds: after `Begin` returned a pending authorization, `Complete` with its identifier
-- and state, before it expires and with a code that the tenant's provider exchanges for an
-- acceptable identity, opens a session, if a client is made, two identifiers are drawn and the
-- first is no session's. The session is then registered under it.
pub begin-complete :
    (b : Broker) (w w' : World) (tenant_id code nonce verifier id csrf : String) (tenant : Tenant)
    (handle client : ℕ) (q : Pending) (i : Identity)
    → (begin b w tenant_id).1 ≡ ok q
    → lookup tenant_id b.tenants ≡ some tenant
    → tenant.identity ≡ some handle
    → w.random 2 ≡ some nonce
    → w.random 3 ≡ some verifier
    → w'.now < w.now + b.pending_ttl
    → code ≢ ""
    → w'.exchange handle (record { code = code; verifier = verifier; expected_nonce = nonce })
      ≡ some i
    → accepts_identity i nonce ≡ true
    → w'.new_client tenant.provider_base_url i.access_token ≡ some client
    → w'.random 0 ≡ some id
    → w'.random 1 ≡ some csrf
    → lookup id b.sessions ≡ none
    → let answer = complete (begin b w tenant_id).0 w' q.id q.state code in
      (answer.1 ≡ ok (record { id = id; csrf = csrf }))
      × (lookup id answer.0.sessions ≡ some b.next)
unfolding complete exchange_code
begin-complete b w w' tenant_id code nonce verifier id csrf tenant handle client q i begun known
      provider e2 e3 early given exchanged accepted made d0 d1 free =
    let b' = (begin b w tenant_id).0 in
    let v = begin-ok b w tenant_id q begun in
    let p = v.stored in
    let same_tenant : p.tenant_id ≡ tenant_id =
      ap (λ (x : Pending). x.tenant_id) v.shown ∙ v.for_tenant in
    let same_state : p.state ≡ q.state = ap (λ (x : Pending). x.state) v.shown in
    let same_nonce : p.nonce ≡ nonce = cc in
    let same_verifier : p.verifier ≡ verifier = cc in
    let tenants : b'.tenants ≡ b.tenants = ap (λ (x : Broker). x.tenants) v.rest in
    let sessions : b'.sessions ≡ b.sessions = ap (λ (x : Broker). x.sessions) v.rest in
    let valid : accepts_pending w'.now p q.state code ≡ true =
      accepts_pending-true w'.now p q.state code (rw v.lifetime early) same_state given in
    let consumed : Broker = record b' { pending = delete q.id b'.pending } in
    let opened : (open_session consumed w' tenant p i).1 ≡ ok (record { id = id; csrf = csrf }) =
      open_session-ok consumed w' tenant p i client id csrf made d0 d1 (rw sessions free) in
    let done =
      complete-ok b' w' tenant p q.id q.state code id csrf handle i v.kept valid
        (rw (same_tenant, tenants) known) provider (rw (same_nonce, same_verifier) exchanged)
        (rw same_nonce accepted) opened in
    (
      done,
      (complete-IsAccepted b' w' q.id q.state code (record { id = id; csrf = csrf })
            done).registered
          ∙ ap (λ (x : Broker). some x.next) v.rest,
    )
