-- ===== src/Auth/Cases.antt =====
-- The brokers that an operation of internal/auth can leave, as rules to prove a property of them.
use jimu_studio.Base.{
  ℕ, String, false, not, ◌||◌, ◌&&◌, Option, none, some, ◌≡◌, ltb, leb, len, inl, inr, Option-cases,
  Bool-cases, ◌==◌, Result, ok, err,
}
use jimu_studio.Base.Lists.{length}
use jimu_studio.Base.Dict.{Dict, lookup, delete}
use jimu_studio.Auth.Types.{
  Any, AuthError, Token, Tenant, Identity, PendingState, SessionState, Broker, World,
}
use jimu_studio.Auth.Teardown.{invalidate, find_session}
use jimu_studio.Auth.Begin.{constant_time_equal, prepare_pending, admit_pending, then_admit, begin}
use jimu_studio.Auth.Complete.{
  accepts_identity, accepts_pending, exchange_request, new_session, admit_session, close_client,
  open_session, exchange_code, complete,
}
use jimu_studio.Auth.Session.{
  needs_refresh, refreshed, install, visit_session, session, switch, logout,
}
use jimu_studio.Auth.Drafts.{
  find_drafts, set_optimistic, allocate_draft, save_draft, store_draft, delete_draft, draw_key,
  draft_key, clear_draft, is_safe_category, draft_state_key, max_session_drafts,
}

module _ {ℓ} (P : Broker → Type ℓ) (b : Broker) where
  then_admit_cases :
      (now : ℕ) (r : Result AuthError PendingState)
      → P b
      → ((p : PendingState) → P (admit_pending b now p).0)
      → P (then_admit b now r).0
  then_admit_cases now (err e) kept admitted = kept
  then_admit_cases now (ok p) kept admitted = admitted p

  pub begin_cases :
      (w : World) (tenant_id : String)
      → P b
      → ((p : PendingState) → P (admit_pending b w.now p).0)
      → P (begin b w tenant_id).0
  unfolding begin
  begin_cases w tenant_id kept admitted = elim (Option-cases (lookup tenant_id b.tenants)) [
    | inl e ↦ rw (e, begin) kept
    | inr (tenant, e) ↦ elim (Option-cases tenant.identity) [
      | inl f ↦ rw (e, f, begin) kept
      | inr (handle, f) ↦
          rw (e, f, begin)
            (then_admit_cases w.now (prepare_pending handle b.pending_ttl w tenant_id) kept
              admitted)
    ]
  ]

  pub open_session_cases :
      (w : World) (tenant : Tenant) (p : PendingState) (i : Identity)
      → P b
      → ((client : ℕ) → P (close_client client b))
      → ((id csrf : String) (client : ℕ)
          → P (admit_session b w.now (new_session b w.now p i id csrf client)).0)
      → P (open_session b w tenant p i).0
  unfolding open_session
  open_session_cases w tenant p i kept closed admitted =
      elim (Option-cases (w.new_client tenant.provider_base_url i.access_token)) [
        | inl e ↦ rw (e, open_session) kept
        | inr (client, e) ↦ elim (Option-cases (w.random 0)) [
          | inl r ↦ rw (e, r, open_session) (closed client)
          | inr (id, r) ↦ elim (Option-cases (w.random 1)) [
            | inl r' ↦ rw (e, r, r', open_session) (closed client)
            | inr (csrf, r') ↦ rw (e, r, r', open_session) (admitted id csrf client)
          ]
        ]
      ]

  pub exchange_code_cases :
      (w : World) (p : PendingState) (code : String)
      → P b
      → ((tenant : Tenant) (i : Identity) → P (open_session b w tenant p i).0)
      → P (exchange_code b w p code).0
  unfolding exchange_code
  exchange_code_cases w p code kept opened = elim (Option-cases (lookup p.tenant_id b.tenants)) [
    | inl e ↦ rw (e, exchange_code) kept
    | inr (tenant, e) ↦ elim (Option-cases tenant.identity) [
      | inl f ↦ rw (e, f, exchange_code) kept
      | inr (handle, f) ↦ elim (Option-cases (w.exchange handle (exchange_request p code))) [
        | inl g ↦ rw (e, f, g, exchange_code) kept
        | inr (i, g) ↦ elim (Bool-cases (accepts_identity i p.nonce)) [
          | inl y ↦ rw (e, f, g, y, exchange_code) (opened tenant i)
          | inr n ↦ rw (e, f, g, n, exchange_code) kept
        ]
      ]
    ]
  ]

  pub complete_cases :
      (w : World) (pending_id state code : String)
      → P (record b { pending = delete pending_id b.pending })
      → ((p : PendingState)
          → P (exchange_code (record b { pending = delete pending_id b.pending }) w p code).0)
      → P (complete b w pending_id state code).0
  unfolding complete
  complete_cases w pending_id state code kept exchanged =
      elim (Option-cases (lookup pending_id b.pending)) [
        | inl e ↦ rw (e, complete) kept
        | inr (p, e) ↦ elim (Bool-cases (accepts_pending w.now p state code)) [
          | inl y ↦ rw (e, y, complete) (exchanged p)
          | inr n ↦ rw (e, n, complete) kept
        ]
      ]

  pub session_cases :
      (w : World) (id : String)
      → P b
      → ((p : ℕ) (s : SessionState) → find_session id b ≡ some (p, s) → P (invalidate id p b))
      → ((p : ℕ) (s : SessionState) (token : Token) (client : ℕ)
          → find_session id b ≡ some (p, s)
          → P (install b p s token client))
      → P (session b w id).0
  unfolding session
  session_cases w id kept gone installed = elim (Option-cases (find_session id b)) [
    | inl e ↦ rw (e, session) kept
    | inr ((p, s), e) ↦ elim (Bool-cases (not s.active || not (ltb w.now s.expires))) [
      | inl dead ↦ rw (e, session, dead, visit_session) (gone p s e)
      | inr live ↦ elim (Bool-cases (needs_refresh w.now b.refresh_skew s)) [
        | inr valid ↦ rw (e, session, live, valid, visit_session) kept
        | inl stale ↦ elim (Option-cases (refreshed b w s)) [
          | inl failed ↦ rw (e, session, live, stale, failed, visit_session) (gone p s e)
          | inr ((token, client), f) ↦
              rw (e, session, live, stale, f, visit_session) (installed p s token client e)
        ]
      ]
    ]
  ]

  pub logout_cases :
      (id csrf : String)
      → P b
      → ((p : ℕ) (s : SessionState) → find_session id b ≡ some (p, s) → P (invalidate id p b))
      → P (logout b id csrf).0
  unfolding logout
  logout_cases id csrf kept gone = elim (Option-cases (find_session id b)) [
    | inl e ↦ rw (e, logout) kept
    | inr ((p, s), e) ↦ elim (Bool-cases (s.active && constant_time_equal s.csrf csrf)) [
      | inl valid ↦ rw (e, valid, logout) (gone p s e)
      | inr bad ↦ rw (e, bad, logout) kept
    ]
  ]

  pub switch_cases :
      (w : World) (id csrf tenant_id : String)
      → P b
      → ((p : ℕ) (s : SessionState)
          → find_session id b ≡ some (p, s)
          → P (begin (invalidate id p b) w tenant_id).0)
      → P (switch b w id csrf tenant_id).0
  unfolding switch
  switch_cases w id csrf tenant_id kept gone = elim (Option-cases (find_session id b)) [
    | inl e ↦ rw (e, switch) kept
    | inr ((p, s), e) ↦ elim (Bool-cases s.active) [
      | inr dead ↦ rw (e, dead, switch) kept
      | inl active ↦ elim (Bool-cases (constant_time_equal s.csrf csrf)) [
        | inr bad ↦ rw (e, active, bad, switch) kept
        | inl good ↦ rw (e, active, good, switch) (gone p s e)
      ]
    ]
  ]

  pub store_draft_cases :
      (w : World) (id category : String) (value : Option Any)
      → P b
      → ((p : ℕ) (s : SessionState) (drafts : Dict Any) (v : Any)
          → find_drafts id b ≡ some (p, s, drafts)
          → leb max_session_drafts (length drafts) ≡ false
          → P (save_draft b p s (allocate_draft 3 0 w category v drafts)).0)
      → P (store_draft b w id category value).0
  unfolding store_draft
  store_draft_cases w id category none kept saved = kept
  store_draft_cases w id category (some value) kept saved =
      elim (Bool-cases (is_safe_category category)) [
        | inr unsafe ↦ rw (unsafe, store_draft) kept
        | inl safe ↦ elim (Option-cases (find_drafts id b)) [
          | inl e ↦ rw (safe, e, store_draft) kept
          | inr ((p, s, drafts), e) ↦ elim (Bool-cases (leb max_session_drafts (length drafts))) [
            | inl full ↦ rw (safe, e, full, store_draft) kept
            | inr room ↦ rw (safe, e, room, store_draft) (saved p s drafts value e room)
          ]
        ]
      ]

  pub draft_key_cases :
      (w : World) (id scope : String)
      → P b
      → ((p : ℕ) (s : SessionState) (drafts : Dict Any)
          → find_drafts id b ≡ some (p, s, drafts)
          → P (save_draft b p s (draw_key w scope drafts)).0)
      → P (draft_key b w id scope).0
  unfolding draft_key
  draft_key_cases w id scope kept saved = elim (Bool-cases (scope == "" || ltb 1024 (len scope))) [
    | inl bad ↦ rw (bad, draft_key) kept
    | inr good ↦ elim (Option-cases (find_drafts id b)) [
      | inl e ↦ rw (good, e, draft_key) kept
      | inr ((p, s, drafts), e) ↦ rw (good, e, draft_key) (saved p s drafts e)
    ]
  ]

  pub clear_draft_cases :
      (id scope : String)
      → P b
      → ((p : ℕ) (s : SessionState) (drafts : Dict Any)
          → find_drafts id b ≡ some (p, s, drafts)
          → P (set_optimistic b p s (delete scope drafts)))
      → P (clear_draft b id scope)
  unfolding clear_draft
  clear_draft_cases id scope kept saved = elim (Option-cases (find_drafts id b)) [
    | inl e ↦ rw (e, clear_draft) kept
    | inr ((p, s, drafts), e) ↦ rw (e, clear_draft) (saved p s drafts e)
  ]

  pub delete_draft_cases :
      (id category reference : String)
      → P b
      → ((p : ℕ) (s : SessionState) (drafts : Dict Any)
          → find_drafts id b ≡ some (p, s, drafts)
          → P (set_optimistic b p s (delete (draft_state_key category reference) drafts)))
      → P (delete_draft b id category reference)
  unfolding delete_draft
  delete_draft_cases id category reference kept saved =
      elim (Bool-cases (not (is_safe_category category) || reference == "")) [
        | inl bad ↦ rw (bad, delete_draft) kept
        | inr good ↦ elim (Option-cases (find_drafts id b)) [
          | inl e ↦ rw (good, e, delete_draft) kept
          | inr ((p, s, drafts), e) ↦ rw (good, e, delete_draft) (saved p s drafts e)
        ]
      ]
