-- ===== src/LocalProvider/Laws/Replay.antt =====
-- Idempotency in internal/localprovider: a mutation takes effect at most once under its key.
use jimu_studio.Base.{
  String, none, some, ◌≡◌, ◌≢◌, refl, ap, ◌∙◌, arith, inl, inr, Option-cases, eq_iff,
}
use jimu_studio.Base.Dict.{lookup, lookup-insert, lookup-insert_self}
use jimu_studio.LocalProvider.State.{CachedMutation, State, Request, Clock}
use jimu_studio.LocalProvider.Mutation.{
  bad_request, not_found, conflict, Effect, refuse, commit, settle, mutate, Decoders,
}
use jimu_studio.LocalProvider.Entities.{
  update_entity_effect, plan_deletion_effect, delete_entity_effect,
}
use jimu_studio.LocalProvider.Identity.{
  create_user_effect, set_status_effect, create_role_effect, update_role_effect, change_role_effect,
}
use jimu_studio.LocalProvider.Workflow.{retry_effect, cancel_effect, publish_effect}
use jimu_studio.LocalProvider.Routes.{route, serve_loaded}
use jimu_studio.LocalProvider.Laws.Conduct.{
  Change, entity_updated, deletion_planned, entity_deleted, user_created, status_set, role_created,
  role_updated, user_role_changed, workflow_changed, plan_published, effect_of, Conduct, refuses,
  changes, conducted,
}
use jimu_studio.LocalProvider.Laws.Cases.{reads, conducts, handle-Handles}

-- An effect leaves the kept results and the audit records alone, and without an audit record it
-- changes nothing.
abbrev pub IsFramed : State → Effect → Type 0
IsFramed s (refuse f code message) = Unit {0}
IsFramed s (commit t body audit) =
    (t.idempotency ≡ s.idempotency) × (t.audits ≡ s.audits) × (audit ≡ none → t ≡ s)

pub effect_of-IsFramed : (clock : Clock) (c : Change) (s : State) → IsFramed s (effect_of clock c s)
unfolding update_entity_effect plan_deletion_effect delete_entity_effect create_user_effect
    set_status_effect create_role_effect update_role_effect change_role_effect retry_effect
    cancel_effect publish_effect
effect_of-IsFramed clock (entity_updated m code) s = ground arith
effect_of-IsFramed clock (deletion_planned m code) s = ground arith
effect_of-IsFramed clock (entity_deleted m code) s = ground arith
effect_of-IsFramed clock (user_created m) s = ground arith
effect_of-IsFramed clock (status_set m id) s = ground arith
effect_of-IsFramed clock (role_created m) s = ground arith
effect_of-IsFramed clock (role_updated m key) s = ground arith
effect_of-IsFramed clock (user_role_changed m put id key) s = ground arith
effect_of-IsFramed clock (workflow_changed m retry) s = ground arith
effect_of-IsFramed clock (plan_published m) s = ground arith

settle-kept :
    (s : State) (key : String) (e : Effect)
    → (settle s key e).1.status ≡ 200
    → lookup key (settle s key e).0.idempotency
      ≡ some (record { status = 200; value = (settle s key e).1.body })
settle-kept s key (refuse bad_request code message) h = absurd (omega arith)
settle-kept s key (refuse not_found code message) h = absurd (omega arith)
settle-kept s key (refuse conflict code message) h = absurd (omega arith)
settle-kept s key (commit t body audit) h = lookup-insert_self key _ t.idempotency

settle-keeps :
    (s : State) (key : String) (e : Effect) (k : String) (c : CachedMutation)
    → IsFramed s e
    → lookup key s.idempotency ≡ none
    → lookup k s.idempotency ≡ some c
    → lookup k (settle s key e).0.idempotency ≡ some c
settle-keeps s key (refuse f code message) k c framed free found = found
settle-keeps s key (commit t body audit) k c framed free found = ground (
  arith,
  lookup-insert key k (record { status = 200; value = body }) t.idempotency,
  ap (lookup k) framed.0,
  eq_iff key k,
)

settle-unchanged :
    (s : State) (key : String) (e : Effect)
    → (settle s key e).1.status ≢ 200
    → (settle s key e).0 ≡ s
settle-unchanged s key (refuse f code message) h = refl
settle-unchanged s key (commit t body audit) h = absurd (h refl)

-- After a success the result stands under the key.
mutate-kept :
    (s : State) (key : String) (e : Effect)
    → (mutate s key e).1.status ≡ 200
    → lookup key (mutate s key e).0.idempotency
      ≡ some (record { status = 200; value = (mutate s key e).1.body })
unfolding mutate
mutate-kept s key e h = elim (Option-cases (lookup key s.idempotency)) [
  | inr (c, found) ↦
      let success : c.status ≡ 200 = rw (found, mutate) at h in
      rw (found, mutate) (found ∙ ap some (λ i. record { status = success i; value = c.value }))
  | inl free ↦ rw (free, mutate) (settle-kept s key e (rw (free, mutate) at h))
]

-- A kept result is written again, and the state stays.
mutate-again :
    (s : State) (key : String) (e : Effect) (c : CachedMutation)
    → lookup key s.idempotency ≡ some c
    → mutate s key e ≡ (s, record { status = c.status; body = c.value })
unfolding mutate
mutate-again s key e c found = rw (found, mutate)

-- Kept results stay.
mutate-keeps :
    (s : State) (key : String) (e : Effect) (k : String) (c : CachedMutation)
    → IsFramed s e
    → lookup k s.idempotency ≡ some c
    → lookup k (mutate s key e).0.idempotency ≡ some c
unfolding mutate
mutate-keeps s key e k c framed found = elim (Option-cases (lookup key s.idempotency)) [
  | inr (d, f) ↦ rw (f, mutate) found
  | inl free ↦ rw (free, mutate) (settle-keeps s key e k c framed free found)
]

mutate-unchanged :
    (s : State) (key : String) (e : Effect)
    → (mutate s key e).1.status ≢ 200
    → (mutate s key e).0 ≡ s
unfolding mutate
mutate-unchanged s key e h = elim (Option-cases (lookup key s.idempotency)) [
  | inr (c, f) ↦ rw (f, mutate)
  | inl free ↦ rw (free, mutate) (settle-unchanged s key e (rw (free, mutate) at h))
]

conducted-unchanged :
    (c : Conduct) (clock : Clock) (s : State)
    → (conducted c clock s).1.status ≢ 200
    → (conducted c clock s).0 ≡ s
conducted-unchanged (refuses f code message) clock s h = refl
conducted-unchanged (changes key c) clock s h = mutate-unchanged s key (effect_of clock c s) h

-- A success stands under a key, under which the same request finds it on any state.
pub conducted-kept :
    (c : Conduct) (clock : Clock) (s : State)
    → (conducted c clock s).1.status ≡ 200
    → (key : String) × (lookup key (conducted c clock s).0.idempotency
        ≡ some (record { status = 200; value = (conducted c clock s).1.body }))
      × ((clock' : Clock) (t : State) (d : CachedMutation)
          → lookup key t.idempotency ≡ some d
          → conducted c clock' t ≡ (t, record { status = d.status; body = d.value }))
conducted-kept (refuses bad_request code message) clock s h = absurd (omega arith)
conducted-kept (refuses not_found code message) clock s h = absurd (omega arith)
conducted-kept (refuses conflict code message) clock s h = absurd (omega arith)
conducted-kept (changes key c) clock s h = (
  key,
  mutate-kept s key (effect_of clock c s) h,
  λ clock' t d found. mutate-again t key (effect_of clock' c t) d found,
)

pub conducted-keeps :
    (c : Conduct) (clock : Clock) (s : State) (k : String) (d : CachedMutation)
    → lookup k s.idempotency ≡ some d
    → lookup k (conducted c clock s).0.idempotency ≡ some d
conducted-keeps (refuses f code message) clock s k d found = found
conducted-keeps (changes key c) clock s k d found =
    mutate-keeps s key (effect_of clock c s) k d (effect_of-IsFramed clock c s) found

module _ (json : Decoders) where
  -- A request that fails changes nothing: whatever the route is, an answer with a status other than
  -- 200 leaves the state as it was.
  pub serve_loaded-unchanged :
      (clock : Clock) (s : State) (r : Request)
      → (serve_loaded json clock s r).1.status ≢ 200
      → (serve_loaded json clock s r).0 ≡ s
  unfolding serve_loaded
  serve_loaded-unchanged clock s r h = elim (handle-Handles json (route r.method r.path) r) [
    | reads show same ↦ rw (same clock s)
    | conducts (c, same) ↦
        rw (same clock s) (conducted-unchanged c clock s (rw (same clock s) at h))
  ]

  pub serve_loaded-keeps :
      (clock : Clock) (s : State) (r : Request) (k : String) (d : CachedMutation)
      → lookup k s.idempotency ≡ some d
      → lookup k (serve_loaded json clock s r).0.idempotency ≡ some d
  unfolding serve_loaded
  serve_loaded-keeps clock s r k d found = elim (handle-Handles json (route r.method r.path) r) [
    | reads show same ↦ rw (same clock s) found
    | conducts (c, same) ↦ rw (same clock s) (conducted-keeps c clock s k d found)
  ]
