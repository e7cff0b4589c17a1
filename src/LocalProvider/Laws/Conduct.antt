-- ===== src/LocalProvider/Laws/Conduct.antt =====
-- A mutation handler of internal/localprovider either refuses a request with an unchanged state, or
-- runs an effect under the request's key: the effects, and what it means to be conducted so.
use jimu_studio.Base.{String, Bool, ◌≡◌, if◌then◌else◌}
use jimu_studio.LocalProvider.State.{State, Response, Clock}
use jimu_studio.LocalProvider.Mutation.{
  Failure, refusal, Effect, mutate, EntityUpdate, VersionedMutation, NewUser, StatusChange, NewRole,
  RoleUpdate, PlanChange,
}
use jimu_studio.LocalProvider.Entities.{
  update_entity_effect, plan_deletion_effect, delete_entity_effect,
}
use jimu_studio.LocalProvider.Identity.{
  create_user_effect, set_status_effect, create_role_effect, update_role_effect, change_role_effect,
}
use jimu_studio.LocalProvider.Workflow.{retry_effect, cancel_effect, publish_effect}

-- The effects of the handlers, with what each takes from its request.
pub data Change : Type 0 where
  entity_updated : EntityUpdate → String → Change
  deletion_planned : VersionedMutation → String → Change
  entity_deleted : VersionedMutation → String → Change
  user_created : NewUser → Change
  status_set : StatusChange → String → Change
  role_created : NewRole → Change
  role_updated : RoleUpdate → String → Change
  user_role_changed : VersionedMutation → Bool → String → String → Change
  workflow_changed : VersionedMutation → Bool → Change
  plan_published : PlanChange → Change

abbrev pub effect_of : Clock → Change → State → Effect
effect_of clock (entity_updated m code) s = update_entity_effect m clock code s
effect_of clock (deletion_planned m code) s = plan_deletion_effect m code s
effect_of clock (entity_deleted m code) s = delete_entity_effect m clock code s
effect_of clock (user_created m) s = create_user_effect m clock s
effect_of clock (status_set m id) s = set_status_effect m clock id s
effect_of clock (role_created m) s = create_role_effect m clock s
effect_of clock (role_updated m key) s = update_role_effect m clock key s
effect_of clock (user_role_changed m put id key) s = change_role_effect m clock put id key s
effect_of clock (workflow_changed m retry) s =
    if retry then retry_effect m clock s else cancel_effect m clock s
effect_of clock (plan_published m) s = publish_effect m clock s

-- How a handler answers, whatever the state and the clock are.
pub data Conduct : Type 0 where
  refuses : Failure → String → String → Conduct
  changes : String → Change → Conduct

abbrev pub conducted : Conduct → Clock → State → State × Response
conducted (refuses f code message) clock s = (s, refusal f code message)
conducted (changes key c) clock s = mutate s key (effect_of clock c s)

-- A request is conducted in one way on every state.
abbrev pub IsConducted : (Clock → State → State × Response) → Type 0
IsConducted run = (c : Conduct) × ((clock : Clock) (s : State) → run clock s ≡ conducted c clock s)
