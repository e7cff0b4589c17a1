-- ===== src/Auth/Runs.antt =====
-- Histories of a broker (internal/auth): the calls that change its state, one after another, each
-- with a world of its own. The mutexes of the source make each call atomic here.
use jimu_studio.Base.{String, Option, List, [], ◌∷◌, ◌≡◌, refl, arith, Result, ok, err}
use jimu_studio.Base.{ℕ, false, Bool-cases, inl, inr, not, ◌||◌, subst}
use jimu_studio.Base.Dict.{Dict, lookup}
use jimu_studio.Auth.Types.{Any, AuthError, SessionState, Broker, World, Tenant}
use jimu_studio.Auth.Begin.{begin}
use jimu_studio.Auth.Complete.{complete}
use jimu_studio.Auth.Session.{session, switch, logout, with_client}
use jimu_studio.Auth.Drafts.{store_draft, delete_draft, draft_key, clear_draft, save_draft}
use jimu_studio.Auth.Setup.{
  Config, empty_broker, with_defaults, is_out_of_bounds, broker_over, register, new_broker,
  has_tenants,
}
use jimu_studio.Auth.Cases.{
  store_draft_cases, draft_key_cases, clear_draft_cases, delete_draft_cases,
}
use jimu_studio.Auth.Invariant.{Inv}
use jimu_studio.Auth.Invariant.Complete.{complete-Inv}
use jimu_studio.Auth.Invariant.Session.{begin-Inv, session-Inv, logout-Inv, switch-Inv}
use jimu_studio.Auth.Invariant.Drafts.{
  store_draft-Inv, draft_key-Inv, clear_draft-Inv, delete_draft-Inv,
}
use jimu_studio.Auth.Bounds.{
  Bounds, begin-Bounds, complete-Bounds, session-Bounds, logout-Bounds, switch-Bounds,
}

pub data Call : Type 0 where
  begins : World → String → Call
  completes : World → String → String → String → Call
  visits : World → String → Call
  switches : World → String → String → String → Call
  logs_out : String → String → Call
  runs : World → String → Call
  stores_draft : World → String → String → Option Any → Call
  deletes_draft : String → String → String → Call
  draws_key : World → String → String → Call
  clears_draft : String → String → Call

unfoldable pub step : Broker → Call → Broker
step b (begins w tenant_id) = (begin b w tenant_id).0
step b (completes w pending_id state code) = (complete b w pending_id state code).0
step b (visits w id) = (session b w id).0
step b (switches w id csrf tenant_id) = (switch b w id csrf tenant_id).0
step b (logs_out id csrf) = (logout b id csrf).0
step b (runs w id) = (with_client b w id).0
step b (stores_draft w id category value) = (store_draft b w id category value).0
step b (deletes_draft id category reference) = delete_draft b id category reference
step b (draws_key w id scope) = (draft_key b w id scope).0
step b (clears_draft id scope) = clear_draft b id scope

unfoldable pub run : Broker → List Call → Broker
unfolding step
run b [] = b
run b (c ∷ cs) = run (step b c) cs

pub record WellFormed (b : Broker) : Type 0 where
  pub store : Inv [] b
  pub bounds : Bounds b

pub with_client-session :
    (b : Broker) (w : World) (id : String) → (with_client b w id).0 ≡ (session b w id).0
unfolding with_client
with_client-session b w id = ground arith

save_draft-Bounds :
    (b : Broker) (p : ℕ) (s : SessionState) (r : Result AuthError (String × Dict Any))
    → Bounds b
    → Bounds (save_draft b p s r).0
save_draft-Bounds b p s (err e) h = h
save_draft-Bounds b p s (ok (reference, drafts)) h = ground arith

step-Bounds : (b : Broker) (c : Call) → WellFormed b → Bounds (step b c)
unfolding step
step-Bounds b (begins w tenant_id) v = begin-Bounds b w tenant_id v.bounds
step-Bounds b (completes w pending_id state code) v =
    complete-Bounds b w pending_id state code v.store.dict v.bounds
step-Bounds b (visits w id) v = session-Bounds b w id v.bounds
step-Bounds b (switches w id csrf tenant_id) v = switch-Bounds b w id csrf tenant_id v.bounds
step-Bounds b (logs_out id csrf) v = logout-Bounds b id csrf v.bounds
step-Bounds b (runs w id) v = rw (with_client-session b w id) (session-Bounds b w id v.bounds)
step-Bounds b (stores_draft w id category value) v =
    store_draft_cases Bounds b w id category value v.bounds
      λ p s drafts x e room. save_draft-Bounds b p s _ v.bounds
step-Bounds b (deletes_draft id category reference) v =
    delete_draft_cases Bounds b id category reference v.bounds
      λ p s drafts e. let h = v.bounds in ground arith
step-Bounds b (draws_key w id scope) v =
    draft_key_cases Bounds b w id scope v.bounds λ p s drafts e. save_draft-Bounds b p s _ v.bounds
step-Bounds b (clears_draft id scope) v =
    clear_draft_cases Bounds b id scope v.bounds λ p s drafts e. let h = v.bounds in ground arith

step-Inv : (b : Broker) (c : Call) → WellFormed b → Inv [] (step b c)
unfolding step
step-Inv b (begins w tenant_id) v = begin-Inv b w tenant_id v.store
step-Inv b (completes w pending_id state code) v =
    complete-Inv b w pending_id state code v.store v.bounds.sessions_room
step-Inv b (visits w id) v = session-Inv b w id v.store
step-Inv b (switches w id csrf tenant_id) v = switch-Inv b w id csrf tenant_id v.store
step-Inv b (logs_out id csrf) v = logout-Inv b id csrf v.store
step-Inv b (runs w id) v = rw (with_client-session b w id) (session-Inv b w id v.store)
step-Inv b (stores_draft w id category value) v = store_draft-Inv b w id category value v.store
step-Inv b (deletes_draft id category reference) v =
    delete_draft-Inv b id category reference v.store
step-Inv b (draws_key w id scope) v = draft_key-Inv b w id scope v.store
step-Inv b (clears_draft id scope) v = clear_draft-Inv b id scope v.store

pub run_from-WellFormed : (b : Broker) (calls : List Call) → WellFormed b → WellFormed (run b calls)
unfolding run
run_from-WellFormed b [] v = v
run_from-WellFormed b (c ∷ cs) v =
    run_from-WellFormed (step b c) cs
      (record { store = step-Inv b c v; bounds = step-Bounds b c v })

empty-WellFormed :
    (c : Config) (tenants : Dict Tenant)
    → is_out_of_bounds c ≡ false
    → WellFormed (empty_broker c tenants)
unfolding is_out_of_bounds lookup
empty-WellFormed c tenants h = record {
  store = record {
    dict = tt;
    mapped = λ id p e. ground (arith, e);
    owned = λ p s e a m. cc;
    retired = λ p s e a. cc;
    fresh = λ p le. refl;
  };
  bounds = ground arith;
}

registered-empty :
    (c : Config) (r : Result AuthError (Dict Tenant)) (b : Broker)
    → broker_over c r ≡ ok b
    → (tenants : Dict Tenant) × (empty_broker c tenants ≡ b)
registered-empty c (err e) b h = cc
registered-empty c (ok tenants) b h = (tenants, cc)

-- What `NewBroker` returns.
new_broker-empty :
    (config : Config) (b : Broker)
    → new_broker config ≡ ok b
    → (tenants : Dict Tenant) × (is_out_of_bounds (with_defaults config) ≡ false)
      × (empty_broker (with_defaults config) tenants ≡ b)
unfolding new_broker
new_broker-empty config b e =
    elim (Bool-cases (not (has_tenants config.tenants) || not config.has_factory)) [
      | inl refused ↦ let bad = rw (refused, new_broker) at e in cc
      | inr given ↦ elim (Bool-cases (is_out_of_bounds (with_defaults config))) [
        | inl out ↦ let bad = rw (given, out, new_broker) at e in cc
        | inr bounded ↦
            let (tenants, same) =
              registered-empty (with_defaults config) (register config.tenants []) b
                (rw (given, bounded, new_broker) at e) in
            (tenants, bounded, same)
      ]
    ]

-- After any history of calls on a new broker, the registered sessions are exactly the active ones,
-- under their own identifiers and with at most 128 drafts each; every other session object has
-- empty tokens, no maps and a closed client; and neither the pending authorizations nor the
-- sessions exceed their limits.
pub run-WellFormed :
    (config : Config) (b : Broker) (calls : List Call)
    → new_broker config ≡ ok b
    → WellFormed (run b calls)
run-WellFormed config b calls e =
    let (tenants, bounded, same) = new_broker-empty config b e in
    run_from-WellFormed b calls
      (subst WellFormed same (empty-WellFormed (with_defaults config) tenants bounded))
