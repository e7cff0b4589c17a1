-- ===== src/Auth/SingleUse.antt =====
-- internal/auth/broker.go: what `Complete` demands of an authorization, and that its state is
-- consumed.
use jimu_studio.Base.{
  ℕ, ◌<◌, String, true, Option, none, some, List, [], ◌∷◌, ◌≡◌, ◌≢◌, ◌↔◌, refl, arith, ap, ◌∙◌,
  is_some, inl, inr, Option-cases, Bool-cases, Result, ok, err, eq_iff, eq_refl,
}
use jimu_studio.Base.Dict.{keep, lookup, delete, lookup-delete, lookup-insert_self}
use jimu_studio.Auth.Types.{
  AuthError, invalid_state, Tenant, Identity, PendingState, SessionResult, SessionState, Broker,
  World,
}
use jimu_studio.Auth.Teardown.{is_live, deactivate, deactivate_all}
use jimu_studio.Auth.Begin.{constant_time_equal}
use jimu_studio.Auth.Compared.{constant_time_equal_sound, constant_time_equal_self}
use jimu_studio.Auth.Complete.{
  accepts_identity, accepts_pending, exchange_request, deactivate_evicted, admit_session,
  open_session, exchange_code, complete,
}
use jimu_studio.Auth.Cases.{open_session_cases, exchange_code_cases, complete_cases}

-- The comparison in constant time, a loop over the bytes of two texts, succeeds just for equal texts.
pub constant_time_equal_iff : (s t : String) → (constant_time_equal s t ≡ true) ↔ (s ≡ t)
constant_time_equal_iff s t =
    (constant_time_equal_sound s t, λ e. rw e (constant_time_equal_self t))

deactivate-pending : (p : ℕ) (b : Broker) → (deactivate p b).pending ≡ b.pending
unfolding deactivate
deactivate-pending p b = ground arith

deactivate_all-pending : (ps : List ℕ) (b : Broker) → (deactivate_all ps b).pending ≡ b.pending
unfolding deactivate_all
deactivate_all-pending [] b = refl
deactivate_all-pending (p ∷ ps) b =
    deactivate_all-pending ps (deactivate p b) ∙ deactivate-pending p b

deactivate_evicted-pending :
    (p : Option ℕ) (b : Broker) → (deactivate_evicted p b).pending ≡ b.pending
deactivate_evicted-pending none b = refl
deactivate_evicted-pending (some p) b = deactivate-pending p b

admit_session-pending :
    (b : Broker) (now : ℕ) (s : SessionState) → (admit_session b now s).0.pending ≡ b.pending
unfolding admit_session
admit_session-pending b now s =
    elim (Bool-cases (is_some (lookup s.id (keep (is_live now b.heap) b.sessions)))) [
      | inl taken ↦ rw (taken, admit_session, deactivate-pending, deactivate_all-pending)
      | inr free ↦ rw (free, admit_session, deactivate_evicted-pending, deactivate_all-pending)
    ]

complete-pending :
    (b : Broker) (w : World) (pending_id state code : String)
    → (complete b w pending_id state code).0.pending ≡ delete pending_id b.pending
complete-pending b w pending_id state code =
    let P : Broker → Type 0 = λ c. c.pending ≡ delete pending_id b.pending in
    complete_cases P b w pending_id state code refl λ p.
      exchange_code_cases P _ w p code refl λ tenant i.
        open_session_cases P _ w tenant p i refl (λ client. refl)
          λ id csrf client. admit_session-pending _ w.now _

-- `Complete` leaves the other pending authorizations.
complete_once-other :
    (b : Broker) (w : World) (id state code other : String)
    → other ≢ id
    → lookup other (complete b w id state code).0.pending ≡ lookup other b.pending
complete_once-other b w id state code other distinct =
    rw (complete-pending b w id state code)
      (lookup-delete id other b.pending ∙ ground (arith, eq_iff id other))

-- An authorization is good for one attempt: after any call of `Complete` with its identifier,
-- successful or not, another call with that identifier is refused as an invalid state, whatever
-- state and code it brings, and leaves every other part of the broker as it is: the registered
-- sessions, their objects, the closed clients, and the other pending authorizations.
pub complete_once :
    (b : Broker) (w w' : World) (id state state' code code' : String)
    → let b' = (complete b w id state code).0 in
      let (b'', answer) = complete b' w' id state' code' in
      (answer ≡ err invalid_state)
      × (record b'' { pending = b'.pending } ≡ b')
      × (lookup id b'.pending ≡ none)
      × ((other : String) → other ≢ id → lookup other b''.pending ≡ lookup other b'.pending)
unfolding complete
complete_once b w w' id state state' code code' =
    let gone : lookup id (complete b w id state code).0.pending ≡ none =
      rw (complete-pending b w id state code) (rw (lookup-delete id id b.pending, eq_refl id)) in
    (
      rw (gone, complete) refl,
      rw (gone, complete) refl,
      gone,
      λ other distinct. complete_once-other _ w' id state' code' other distinct,
    )

deactivate-sessions : (p : ℕ) (b : Broker) → (deactivate p b).sessions ≡ b.sessions
unfolding deactivate
deactivate-sessions p b = ground arith

deactivate_all-sessions : (ps : List ℕ) (b : Broker) → (deactivate_all ps b).sessions ≡ b.sessions
unfolding deactivate_all
deactivate_all-sessions [] b = refl
deactivate_all-sessions (p ∷ ps) b =
    deactivate_all-sessions ps (deactivate p b) ∙ deactivate-sessions p b

deactivate_evicted-sessions :
    (p : Option ℕ) (b : Broker) → (deactivate_evicted p b).sessions ≡ b.sessions
deactivate_evicted-sessions none b = refl
deactivate_evicted-sessions (some p) b = deactivate-sessions p b

-- A new session that is admitted is registered under its identifier.
admit_session-registered :
    (b : Broker) (now : ℕ) (s : SessionState) (r : SessionResult)
    → (admit_session b now s).1 ≡ ok r
    → (r.id ≡ s.id)
      × (r.csrf ≡ s.csrf)
      × (lookup r.id (admit_session b now s).0.sessions ≡ some b.next)
unfolding admit_session
admit_session-registered b now s r e =
    elim (Bool-cases (is_some (lookup s.id (keep (is_live now b.heap) b.sessions)))) [
      | inl taken ↦ let bad = rw (taken, admit_session) at e in cc
      | inr free ↦
          let same : ◌≡◌ {A = Result AuthError SessionResult}
              (ok (record { id = s.id; csrf = s.csrf })) (ok r) =
            rw (free, admit_session) at e in
          let id : r.id ≡ s.id = ground arith in
          (
            id,
            ground arith,
            rw (
              id, free, admit_session, deactivate_evicted-sessions, deactivate_all-sessions,
              lookup-insert_self,
            ),
          )
    ]

open_session-registered :
    (b : Broker) (w : World) (tenant : Tenant) (p : PendingState) (i : Identity) (r : SessionResult)
    → (open_session b w tenant p i).1 ≡ ok r
    → (w.random 0 ≡ some r.id)
      × (w.random 1 ≡ some r.csrf)
      × (lookup r.id (open_session b w tenant p i).0.sessions ≡ some b.next)
unfolding open_session
open_session-registered b w tenant p i r e =
    elim (Option-cases (w.new_client tenant.provider_base_url i.access_token)) [
      | inl f ↦ let bad = rw (f, open_session) at e in cc
      | inr (client, f) ↦ elim (Option-cases (w.random 0)) [
        | inl g ↦ let bad = rw (f, g, open_session) at e in cc
        | inr (id, g) ↦ elim (Option-cases (w.random 1)) [
          | inl h ↦ let bad = rw (f, g, h, open_session) at e in cc
          | inr (csrf, h) ↦
              let (same, same', found) =
                admit_session-registered b w.now _ r (rw (f, g, h, open_session) at e) in
              (ground arith, ground arith, rw (f, g, h, open_session) found)
        ]
      ]
    ]

-- What a successful `Complete` rests on: the pending authorization, the exchanged identity and the
-- session that is registered.
pub record IsAccepted (b b' : Broker) (w : World) (id state code : String) (r : SessionResult)
    : Type 0 where
  pub pending : PendingState
  pub found : lookup id b.pending ≡ some pending
  pub fresh : w.now < pending.expires
  pub same_state : pending.state ≡ state
  pub code_given : code ≢ ""
  pub handle : ℕ
  pub identity : Identity
  pub exchanged : w.exchange handle (exchange_request pending code) ≡ some identity
  pub same_nonce : identity.nonce ≡ pending.nonce
  pub subject_given : identity.subject ≢ ""
  pub token_given : identity.access_token ≢ ""
  pub drawn : (w.random 0 ≡ some r.id) × (w.random 1 ≡ some r.csrf)
  pub registered : lookup r.id b'.sessions ≡ some b.next

accepts_pending_lem :
    (now : ℕ) (p : PendingState) (state code : String)
    → accepts_pending now p state code ≡ true
    → (now < p.expires) × (p.state ≡ state) × (code ≢ "")
unfolding accepts_pending
accepts_pending_lem now p state code h = (
  ground arith,
  (constant_time_equal_iff p.state state).0 (ground arith),
  ground (arith, eq_iff code ""),
)

accepts_identity_lem :
    (i : Identity) (nonce : String)
    → accepts_identity i nonce ≡ true
    → (i.nonce ≡ nonce) × (i.subject ≢ "") × (i.access_token ≢ "")
unfolding accepts_identity
accepts_identity_lem i nonce h = (
  (constant_time_equal_iff i.nonce nonce).0 (ground arith),
  ground (arith, eq_iff i.subject ""),
  ground (arith, eq_iff i.access_token ""),
)

exchange_code-IsAccepted :
    (b b₀ : Broker) (w : World) (p : PendingState) (id state code : String) (r : SessionResult)
    → lookup id b₀.pending ≡ some p
    → accepts_pending w.now p state code ≡ true
    → b.next ≡ b₀.next
    → (exchange_code b w p code).1 ≡ ok r
    → IsAccepted b₀ (exchange_code b w p code).0 w id state code r
unfolding exchange_code
exchange_code-IsAccepted b b₀ w p id state code r found y same e =
    elim (Option-cases (lookup p.tenant_id b.tenants)) [
      | inl f ↦ let bad = rw (f, exchange_code) at e in cc
      | inr (tenant, f) ↦ elim (Option-cases tenant.identity) [
        | inl g ↦ let bad = rw (f, g, exchange_code) at e in cc
        | inr (handle, g) ↦ elim (Option-cases (w.exchange handle (exchange_request p code))) [
          | inl h ↦ let bad = rw (f, g, h, exchange_code) at e in cc
          | inr (i, h) ↦ elim (Bool-cases (accepts_identity i p.nonce)) [
            | inr n ↦ let bad = rw (f, g, h, n, exchange_code) at e in cc
            | inl z ↦
                let (fresh, same_state, given) = accepts_pending_lem w.now p state code y in
                let (nonce, subject, token) = accepts_identity_lem i p.nonce z in
                let (id_drawn, csrf_drawn, registered) =
                  open_session-registered b w tenant p i r (rw (f, g, h, z, exchange_code) at e) in
                record {
                  pending = p;
                  found = found;
                  fresh = fresh;
                  same_state = same_state;
                  code_given = given;
                  handle = handle;
                  identity = i;
                  exchanged = h;
                  same_nonce = nonce;
                  subject_given = subject;
                  token_given = token;
                  drawn = (id_drawn, csrf_drawn);
                  registered = rw (f, g, h, z, exchange_code) (registered ∙ ap some same);
                }
          ]
        ]
      ]
    ]

-- A session is only opened for an authorization that was pending and not expired, with its own
-- state and a code, when the identity provider has exchanged the code, with the stored PKCE
-- verifier and nonce, for an identity that bears that nonce, a subject and an access token. The new
-- session is registered under the identifier that was drawn for it.
pub complete-IsAccepted :
    (b : Broker) (w : World) (id state code : String) (r : SessionResult)
    → (complete b w id state code).1 ≡ ok r
    → IsAccepted b (complete b w id state code).0 w id state code r
unfolding complete
complete-IsAccepted b w id state code r e = elim (Option-cases (lookup id b.pending)) [
  | inl f ↦ let bad = rw (f, complete) at e in cc
  | inr (p, f) ↦ elim (Bool-cases (accepts_pending w.now p state code)) [
    | inr n ↦ let bad = rw (f, n, complete) at e in cc
    | inl y ↦
        rw (f, y, complete)
          (exchange_code-IsAccepted _ b w p id state code r f y refl (rw (f, y, complete) at e))
  ]
]
