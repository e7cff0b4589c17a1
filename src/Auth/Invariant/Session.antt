-- ===== src/Auth/Invariant/Session.antt =====
-- `Session`, `Switch`, `Logout`, `Begin` and the drafts keep the invariant.
use jimu_studio.Base.{ℕ, String, true, some, [], ◌≡◌, refl, arith, is_some, inl, inr, Bool-cases}
use jimu_studio.Base.Dict.{lookup}
use jimu_studio.Auth.Types.{PendingState, SessionState, Broker, World, Token}
use jimu_studio.Auth.Teardown.{invalidate, find_session}
use jimu_studio.Auth.Begin.{begin, cleanup_pending, admit_pending}
use jimu_studio.Auth.Session.{renewed, install, session, switch, logout}
use jimu_studio.Auth.Cases.{begin_cases, session_cases, logout_cases, switch_cases}
use jimu_studio.Auth.Invariant.Complete.{pending-Inv}
use jimu_studio.Auth.Invariant.{HasDrafts, Inv}
use jimu_studio.Auth.Invariant.Deactivate.{invalidate-Inv, update-Inv}

-- What a successful search has found.
pub find_session_lem :
    (id : String) (b : Broker) (p : ℕ) (s : SessionState)
    → find_session id b ≡ some (p, s)
    → (lookup id b.sessions ≡ some p) × (b.heap p ≡ some s)
unfolding find_session
find_session_lem id b p s e = ground arith

-- A registered session is active and bears its identifier.
pub found-IsLiveAt :
    (id : String) (b : Broker) (p : ℕ) (s : SessionState)
    → Inv [] b
    → find_session id b ≡ some (p, s)
    → (s.active ≡ true) × (s.id ≡ id) × HasDrafts s.optimistic
found-IsLiveAt id b p s v e =
    let (mapped, object) = find_session_lem id b p s e in rw object at (v.mapped id p mapped).0

install-Inv :
    (b : Broker) (id : String) (p : ℕ) (s : SessionState) (token : Token) (client : ℕ)
    → Inv [] b
    → find_session id b ≡ some (p, s)
    → Inv [] (install b p s token client)
install-Inv b id p s token client v e =
    let (mapped, object) = find_session_lem id b p s e in
    let (active, same, drafts) = found-IsLiveAt id b p s v e in
    update-Inv p s _ b v object active (renewed token client s) active refl drafts
      (λ c m. ground arith)

gone-Inv :
    (b : Broker) (id : String) (p : ℕ) (s : SessionState)
    → Inv [] b
    → find_session id b ≡ some (p, s)
    → Inv [] (invalidate id p b)
gone-Inv b id p s v e = invalidate-Inv id p b (find_session_lem id b p s e).0 v

pub session-Inv : (b : Broker) (w : World) (id : String) → Inv [] b → Inv [] (session b w id).0
session-Inv b w id v =
    session_cases (Inv []) b w id v (λ p s. gone-Inv b id p s v)
      λ p s token client. install-Inv b id p s token client v

admit_pending-Inv :
    (b : Broker) (now : ℕ) (p : PendingState) → Inv [] b → Inv [] (admit_pending b now p).0
unfolding admit_pending
admit_pending-Inv b now p v =
    elim (Bool-cases (is_some (lookup p.id (cleanup_pending now b.pending)))) [
      | inl taken ↦ rw (taken, admit_pending) (pending-Inv b _ v)
      | inr free ↦ rw (free, admit_pending) (pending-Inv b _ v)
    ]

pub begin-Inv :
    (b : Broker) (w : World) (tenant_id : String) → Inv [] b → Inv [] (begin b w tenant_id).0
begin-Inv b w tenant_id v = begin_cases (Inv []) b w tenant_id v λ p. admit_pending-Inv b w.now p v

pub logout-Inv : (b : Broker) (id csrf : String) → Inv [] b → Inv [] (logout b id csrf).0
logout-Inv b id csrf v = logout_cases (Inv []) b id csrf v λ p s. gone-Inv b id p s v

pub switch-Inv :
    (b : Broker) (w : World) (id csrf tenant_id : String)
    → Inv [] b
    → Inv [] (switch b w id csrf tenant_id).0
switch-Inv b w id csrf tenant_id v =
    switch_cases (Inv []) b w id csrf tenant_id v
      λ p s e. begin-Inv (invalidate id p b) w tenant_id (gone-Inv b id p s v e)
