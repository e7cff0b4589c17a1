-- ===== src/Auth/Invariant.antt =====
-- The invariant of the broker's store of sessions (internal/auth/session.go), for a set of doomed
-- sessions that the running operation is still going to deactivate.
pub mod Deactivate
pub mod Sessions
pub mod Complete
pub mod Session
pub mod Drafts
use jimu_studio.Base.{
  ℕ, ◌≤◌, String, Bool, true, false, ◌||◌, Option, none, some, List, [], ◌∷◌, ◌≡◌, eqb,
}
use jimu_studio.Base.Lists.{length}
use jimu_studio.Base.Dict.{Dict, lookup, IsDict}
use jimu_studio.Auth.Types.{Any, SessionState, Broker}

abbrev pub memb : ℕ → List ℕ → Bool
memb p [] = false
memb p (q ∷ qs) = eqb q p || memb p qs

abbrev pub HasDrafts : Option (Dict Any) → Type 0
HasDrafts none = ⊥
HasDrafts (some drafts) = (length drafts ≤ 128) × IsDict drafts

-- The pointer of a registered session leads to an active object of that identifier.
abbrev pub IsLiveAt : String → Option SessionState → Type 0
IsLiveAt id none = ⊥
IsLiveAt id (some s) = (s.active ≡ true) × (s.id ≡ id) × HasDrafts s.optimistic

-- An object that is not active keeps no secret, and its client is closed.
abbrev pub IsWiped : List ℕ → SessionState → Type 0
IsWiped closed s =
    (s.access_token ≡ "")
    × (s.refresh_token ≡ "")
    × (s.cache ≡ none)
    × (s.optimistic ≡ none)
    × (memb s.client closed ≡ true)

pub record Inv (doomed : List ℕ) (b : Broker) : Type 0 where
  pub dict : IsDict b.sessions
  pub mapped :
      (id : String) (p : ℕ)
      → lookup id b.sessions ≡ some p
      → IsLiveAt id (b.heap p) × (memb p doomed ≡ false)
  pub owned :
      (p : ℕ) (s : SessionState)
      → b.heap p ≡ some s
      → s.active ≡ true
      → memb p doomed ≡ false
      → lookup s.id b.sessions ≡ some p
  pub retired :
      (p : ℕ) (s : SessionState) → b.heap p ≡ some s → s.active ≡ false → IsWiped b.closed s
  pub fresh : (p : ℕ) → b.next ≤ p → b.heap p ≡ none
