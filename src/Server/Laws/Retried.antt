-- ===== src/Server/Laws/Retried.antt =====
-- internal/server: the idempotency key of a mutation that is tried again.
use jimu_studio.Base.{
  ℕ, String, false, ◌||◌, none, some, ◌≡◌, ◌≢◌, refl, arith, ap, sym, ◌∙◌, ◌⊎◌, inl, inr,
  Bool-cases, Option-cases, Result, ok, err, ◌==◌, ltb, len, eqb_refl, eq_refl, subst,
}
use jimu_studio.Base.Dict.{Dict, lookup, lookup-delete}
use jimu_studio.Auth.Types.{Any, AuthError, unknown_session, SessionState, Broker, World, Token}
use jimu_studio.Auth.Teardown.{find_session, invalidate, deactivate}
use jimu_studio.Auth.Session.{visit_session, session, install, renewed}
use jimu_studio.Auth.Drafts.{find_drafts, draft_key, draw_key, save_draft}
use jimu_studio.Auth.DraftLaws.{draft_key_stable}
use jimu_studio.Auth.Invariant.Session.{find_session_lem}
use jimu_studio.Auth.Invariant.Drafts.{find_drafts_lem}
use jimu_studio.Auth.Runs.{step, with_client-session}
use jimu_studio.Provider.Types.{ProviderError}
use jimu_studio.Provider.Client.{Client}
use jimu_studio.Server.Types.{Env}
use jimu_studio.Server.Guards.{with_provider}
use jimu_studio.Server.Laws.Sessions.{visit_session_cases, find_session-install}
use jimu_studio.Server.Laws.Kept.{with_provider-step}

save_draft-key :
    (b c : Broker) (p q : ℕ) (s t : SessionState) (r : Result AuthError (String × Dict Any))
    → (save_draft b p s r).1 ≡ (save_draft c q t r).1
save_draft-key b c p q s t (err e) = refl
save_draft-key b c p q s t (ok (key, drafts)) = refl

-- The key depends on the session's drafts only.
draft_key-drafts :
    (b c : Broker) (w : World) (id scope : String) (p q : ℕ) (s t : SessionState)
    (drafts : Dict Any)
    → find_drafts id b ≡ some (p, s, drafts)
    → find_drafts id c ≡ some (q, t, drafts)
    → (draft_key b w id scope).1 ≡ (draft_key c w id scope).1
unfolding draft_key
draft_key-drafts b c w id scope p q s t drafts f g =
    elim (Bool-cases (scope == "" || ltb 1024 (len scope))) [
      | inl bad ↦ rw (bad, draft_key) refl
      | inr sound ↦
          rw (draft_key, sound, f, g) (save_draft-key b c p q s t (draw_key w scope drafts))
    ]

deactivate-sessions : (p : ℕ) (b : Broker) → (deactivate p b).sessions ≡ b.sessions
unfolding deactivate
deactivate-sessions p b = ground arith

invalidate-find_session :
    (b : Broker) (id : String) (p : ℕ) (s : SessionState)
    → find_session id b ≡ some (p, s)
    → lookup id (invalidate id p b).sessions ≡ none
unfolding invalidate
invalidate-find_session b id p s e =
    let (mapped, object) = find_session_lem id b p s e in
    rw (invalidate, deactivate-sessions)
      (rw (mapped, eqb_refl p) (ground (arith, lookup-delete id id b.sessions, eq_refl id)))

invalidate-find_drafts :
    (b : Broker) (id : String) (p : ℕ) (s : SessionState)
    → find_session id b ≡ some (p, s)
    → find_drafts id (invalidate id p b) ≡ none
unfolding find_drafts find_session
invalidate-find_drafts b id p s e =
    rw (find_drafts, find_session, invalidate-find_session b id p s e) refl

-- The key of a scope, or no session.
abbrev HasKey : Broker → World → String → String → String → Type 0
HasKey b w id scope key =
    ((draft_key b w id scope).1 ≡ ok key) ⊎ ((draft_key b w id scope).1 ≡ err unknown_session)

draft_key-gone :
    (b : Broker) (w : World) (id scope key : String)
    → (scope == "" || ltb 1024 (len scope)) ≡ false
    → find_drafts id b ≡ none
    → HasKey b w id scope key
unfolding draft_key
draft_key-gone b w id scope key sound f = inr (rw (draft_key, sound, f) refl)

session-visit_session :
    (b : Broker) (w : World) (id : String) (p : ℕ) (s : SessionState)
    → find_session id b ≡ some (p, s)
    → session b w id ≡ visit_session b w id p s
unfolding session
session-visit_session b w id p s found = rw (found, session) refl

find_drafts-install :
    (b : Broker) (id : String) (p : ℕ) (s : SessionState) (drafts : Dict Any) (token : Token)
    (client : ℕ)
    → find_drafts id b ≡ some (p, s, drafts)
    → find_drafts id (install b p s token client) ≡ some (p, renewed token client s, drafts)
unfolding find_drafts
find_drafts-install b id p s drafts token client f =
    let (found, active, same) = find_drafts_lem id b p s drafts f in
    rw (find_drafts, find_session-install b id p s token client found)
      (ground (arith, active, same))

draft_key-session :
    (b : Broker) (w w' : World) (id scope key : String)
    → (draft_key b w' id scope).1 ≡ ok key
    → HasKey (session b w id).0 w' id scope key
unfolding draft_key
draft_key-session b w w' id scope key drawn =
    elim (Bool-cases (scope == "" || ltb 1024 (len scope))) [
      | inl bad ↦ let refused = rw (bad, draft_key) at drawn in cc
      | inr sound ↦ elim (Option-cases (find_drafts id b)) [
        | inl f ↦ let refused = rw (sound, f, draft_key) at drawn in cc
        | inr ((p, s, drafts), f) ↦
            let (found, active, same) = find_drafts_lem id b p s drafts f in
            subst (λ x. HasKey x.0 w' id scope key) (sym (session-visit_session b w id p s found))
              (visit_session_cases (λ x. HasKey x.0 w' id scope key) b w id p s
                (draft_key-gone (invalidate id p b) w' id scope key sound
                  (invalidate-find_drafts b id p s found))
                (λ token client live. inl (
                  draft_key-drafts (install b p s token client) b w' id scope p p
                    (renewed token client s) s drafts
                    (find_drafts-install b id p s drafts token client f) f
                  ∙ drawn))
                (λ live. inl drawn))
      ]
    ]

-- A mutation that is tried again has the same idempotency key: once `DraftKey` has given a key that
-- is not empty for a scope, then after a call of the provider for that session, whatever it answers,
-- `DraftKey` gives that key for the scope again, or the session is gone.
pub with_provider-draft_key {ℓ} :
    {A : Type ℓ} (env : Env) (n : ℕ) (b : Broker) (w w' : World) (id scope key : String)
    (operation : Client → Result ProviderError A)
    → (draft_key b w id scope).1 ≡ ok key
    → key ≢ ""
    → let b' = (with_provider env n (draft_key b w id scope).0 id operation).0 in
      ((draft_key b' w' id scope).1 ≡ ok key) ⊎ ((draft_key b' w' id scope).1 ≡ err unknown_session)
unfolding step
with_provider-draft_key env n b w w' id scope key operation drawn given =
    let b₁ = (draft_key b w id scope).0 in
    let again : (draft_key b₁ w' id scope).1 ≡ ok key =
      ap (λ x. x.1) (draft_key_stable b w w' id scope key drawn given) in
    let same : (with_provider env n b₁ id operation).0 ≡ (session b₁ (env.world n) id).0 =
      with_provider-step env n b₁ id operation ∙ with_client-session b₁ (env.world n) id in
    subst (λ c. HasKey c w' id scope key) (sym same)
      (draft_key-session b₁ (env.world n) w' id scope key again)
