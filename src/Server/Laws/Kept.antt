-- ===== src/Server/Laws/Kept.antt =====
-- What every handler of internal/server keeps of the broker and of its answers, for a property of
-- brokers that the broker's operations keep, and one of answers that holds of valid statuses.
use jimu_studio.Base.{
  ℕ, String, Bool, true, false, Option, some, ◌≡◌, refl, arith, ap, Bool-cases, Option-cases, inl,
  inr, ◌&&◌, Result, ok, err, leb, if◌then◌else◌,
}
use jimu_studio.Base.Int.{ℤ, pos, negsuc, leb_ℤ}
use jimu_studio.Auth.Types.{Any, SessionView, Broker}
use jimu_studio.Auth.Session.{session, with_client}
use jimu_studio.Auth.Runs.{
  Call, visits, runs, stores_draft, deletes_draft, draws_key, clears_draft, step,
}
use jimu_studio.Auth.Drafts.{draft_key, clear_draft, store_draft, delete_draft}
use jimu_studio.Provider.Types.{ProviderError, api, plain}
use jimu_studio.Provider.Client.{Client}
use jimu_studio.Server.Types.{Form, Request, Env, Response}
use jimu_studio.Server.Guards.{
  proceed, Guards, Admitted, admit, visit, with_provider, error_status, cookie_value,
  render_metadata_error, render_migration_error,
}
use jimu_studio.Server.Laws.Cases.{IsRefusal, IsUntouched, Result-cases, admit_cases, visit_cases}

-- A status that net/http writes as it is.
abbrev pub is_http_status : ℤ → Bool
is_http_status (pos n) = leb 100 n && leb n 599
is_http_status (negsuc n) = false

clamped :
    (s : ℤ) → is_http_status (if leb_ℤ (pos 400) s && leb_ℤ s (pos 599) then s else pos 502) ≡ true
clamped (pos n) = elim (Bool-cases (leb 400 n && leb n 599)) [
  | inl inside ↦ rw inside (ground arith)
  | inr outside ↦ rw outside refl
]
clamped (negsuc n) = refl

pub error_status-is_http_status : (e : ProviderError) → is_http_status (error_status e) ≡ true
unfolding error_status
error_status-is_http_status (plain text) = refl
error_status-is_http_status (api e) = clamped e.status

pub with_provider-step {ℓ} :
    {A : Type ℓ} (env : Env) (n : ℕ) (b : Broker) (id : String)
    (operation : Client → Result ProviderError A)
    → (with_provider env n b id operation).0 ≡ step b (runs (env.world n) id)
unfolding with_provider step
with_provider-step env n b id operation = elim (Result-cases (with_client b (env.world n) id).1) [
  | inl (e, f) ↦ rw (f, with_provider) refl
  | inr (h, f) ↦ elim (Option-cases (env.client_of h)) [
    | inl g ↦ rw (f, g, with_provider) refl
    | inr (client, g) ↦ rw (f, g, with_provider) refl
  ]
]

-- A property of brokers that their operations keep, and one of answers that valid statuses have.
pub record Keeps {ℓ κ} (P : Broker → Type ℓ) (Q : Response → Type κ) : Type (ℓ ⊔ κ) where
  pub steps : (b : Broker) (c : Call) → P b → P (step b c)
  pub valid : (response : Response) → is_http_status response.status ≡ true → Q response

pub record Kept {ℓ κ} (P : Broker → Type ℓ) (Q : Response → Type κ) (x : Broker × Response)
    : Type (ℓ ⊔ κ) where
  pub broker : P x.0
  pub answer : Q x.1

module _ {ℓ κ} {P : Broker → Type ℓ} {Q : Response → Type κ} (c : Keeps P Q) where
  pub kept : (b : Broker) (response : Response) → P b → Q response → Kept P Q (b, response)
  kept b response h k = record { broker = h; answer = k }

  pub either :
      (t : Bool) (x y : Broker × Response) → Kept P Q x → Kept P Q y → Kept P Q (if t then x else y)
  either true x y h k = h
  either false x y h k = k

  pub proceed_cases {μ ν ρ} :
      {E : Type 0} {A : Type μ} {B : Type ν} (R : Broker × B → Type ρ) (x : Broker × Result E A)
      (stop : Broker → E → Broker × B) (next : Broker → A → Broker × B)
      → P x.0
      → ((b : Broker) (e : E) → P b → R (stop b e))
      → ((b : Broker) (a : A) → P b → R (next b a))
      → R (proceed x stop next)
  unfolding proceed
  proceed_cases R (b, err e) stop next h stopped continued = stopped b e h
  proceed_cases R (b, ok a) stop next h stopped continued = continued b a h

  pub proceed_kept {μ} :
      {E : Type 0} {A : Type μ} (x : Broker × Result E A) (stop : Broker → E → Broker × Response)
      (next : Broker → A → Broker × Response)
      → P x.0
      → ((b : Broker) (e : E) → P b → Kept P Q (stop b e))
      → ((b : Broker) (a : A) → P b → Kept P Q (next b a))
      → Kept P Q (proceed x stop next)
  proceed_kept x stop next = proceed_cases (Kept P Q) x stop next

  pub asked_kept {μ} :
      {A : Type μ} (env : Env) (n : ℕ) (b : Broker) (id : String)
      (operation : Client → Result ProviderError A)
      → P b
      → P (with_provider env n b id operation).0
  asked_kept env n b id operation h =
      rw (with_provider-step env n b id operation) (c.steps b (runs (env.world n) id) h)

  pub drawn_kept :
      (env : Env) (n : ℕ) (b : Broker) (id scope : String)
      → P b
      → P (draft_key b (env.world n) id scope).0
  unfolding step
  drawn_kept env n b id scope h = c.steps b (draws_key (env.world n) id scope) h

  pub stored_kept :
      (env : Env) (n : ℕ) (b : Broker) (id category : String) (value : Option Any)
      → P b
      → P (store_draft b (env.world n) id category value).0
  unfolding step
  stored_kept env n b id category value h =
      c.steps b (stores_draft (env.world n) id category value) h

  pub cleared_kept : (b : Broker) (id scope : String) → P b → P (clear_draft b id scope)
  unfolding step
  cleared_kept b id scope h = c.steps b (clears_draft id scope) h

  pub deleted_kept :
      (b : Broker) (id category reference : String) → P b → P (delete_draft b id category reference)
  unfolding step
  deleted_kept b id category reference h = c.steps b (deletes_draft id category reference) h

  pub metadata_error_kept :
      (env : Env) (v : SessionView) (e : ProviderError) → Q (render_metadata_error env v e)
  unfolding render_metadata_error
  metadata_error_kept env v e = c.valid _ (error_status-is_http_status e)

  pub migration_error_kept :
      (env : Env) (v : SessionView) (e : ProviderError) → Q (render_migration_error env v e)
  unfolding render_migration_error
  migration_error_kept env v e = c.valid _ (error_status-is_http_status e)

  refused_kept :
      (env : Env) (b : Broker) (r : Request)
      → P b
      → (x : Broker × Response) → IsUntouched env b r x.0 × IsRefusal x.1
      → Kept P Q x
  unfolding step
  refused_kept env b r h x (untouched, refusal) = record {
    broker = elim untouched [
      | inl same ↦ rw same h
      | inr visited ↦ rw visited (c.steps b (visits (env.world 0) (cookie_value env r "session")) h)
    ];
    answer = elim refusal.status [
      | inl e ↦ c.valid x.1 (rw e refl)
      | inr (inl e) ↦ c.valid x.1 (rw e refl)
      | inr (inr e) ↦ c.valid x.1 (rw e refl)
    ];
  }

  seen_kept :
      (env : Env) (b b' : Broker) (id : String) (v : SessionView)
      → session b (env.world 0) id ≡ (b', some v)
      → P b
      → P b'
  unfolding step
  seen_kept env b b' id v seen h = rw (← ap (λ x. x.0) seen) (c.steps b (visits (env.world 0) id) h)

  pub admit_kept :
      (g : Guards) (env : Env) (b : Broker) (r : Request) (handler : Admitted)
      → P b
      → ((b' : Broker) (id : String) (v : SessionView) (form : Form)
          → P b'
          → Kept P Q (handler b' id v form))
      → Kept P Q (admit g env b r handler)
  admit_kept g env b r handler h handled =
      admit_cases (Kept P Q) env b r (refused_kept env b r h) g handler
        λ b' id v form a. handled b' id v form (seen_kept env b b' id v a.visitor.seen h)

  pub visit_kept :
      (role : Option (String × String)) (env : Env) (b : Broker) (r : Request)
      (handler : Broker → String → SessionView → Broker × Response)
      → P b
      → ((b' : Broker) (id : String) (v : SessionView) → P b' → Kept P Q (handler b' id v))
      → Kept P Q (visit role env b r handler)
  visit_kept role env b r handler h handled =
      visit_cases (Kept P Q) env b r (refused_kept env b r h) role handler
        λ b' id v visitor held. handled b' id v (seen_kept env b b' id v visitor.seen h)
