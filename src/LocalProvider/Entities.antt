-- ===== src/LocalProvider/Entities.antt =====
-- The metadata handlers of internal/localprovider/server.go.
use jimu_studio.Base.{
  String, true, ◌||◌, Option, none, some, List, [], ◌∷◌, ◌==◌, ◌!=◌, if◌then◌else◌,
}
use jimu_studio.Base.Int.{pos, incr, eqb_ℤ, ltb_ℤ}
use jimu_studio.Base.Text.{trim_prefix, trim_suffix, contains_text}
use jimu_studio.Base.Sort.{sort}
use jimu_studio.Base.Dict.{Dict, lookup, insert, delete, keys}
use jimu_studio.LocalProvider.State.{
  Entity, number, entity, deletion_plan, receipt, entities, State, Request, Response, Clock,
}
use jimu_studio.LocalProvider.Mutation.{
  bad_request, not_found, conflict, refusal, Effect, refuse, commit, mutate, audit_record, limited,
  EntityUpdate, VersionedMutation, Decoders,
}
pub use jimu_studio.Provider.Metadata.{delete_entity_confirmation}

abbrev pub entity_prefix : String
entity_prefix = "/studio/v1/metadata/entities/"

-- The values of the sorted keys.
unfoldable pub values_of {ℓ} : {V : Type ℓ} → List String → Dict V → List V
values_of [] m = []
values_of (k ∷ ks) m =
    let rest = values_of ks m in elim (lookup k m) [ none ↦ rest | some v ↦ v ∷ rest ]

unfoldable pub sorted_values {ℓ} : {V : Type ℓ} → Dict V → List V
sorted_values m = values_of (sort (keys m)) m

unfoldable pub list_entities : State → Response
list_entities s = record { status = 200; body = entities (sorted_values s.entities) }

abbrev pub save_entity : State → Clock → String → String → Entity → Effect
save_entity s clock code action e =
    commit (record s { entities = insert code e s.entities }) (entity e)
      (some (audit_record clock action code (("version", number e.version) ∷ [])))

abbrev version_changed : Effect
version_changed = refuse conflict "version_conflict" "Entity version changed"

-- `updateEntity` under the lock.
unfoldable pub update_entity_effect : EntityUpdate → Clock → String → State → Effect
update_entity_effect m clock code s = elim (lookup code s.entities) [
  | none ↦
      if eqb_ℤ m.expected_version (pos 0)
      then save_entity s clock code "studio.metadata.entities.create"
          (record (m.entity) { version = pos 1 })
      else version_changed
  | some current ↦
      if eqb_ℤ current.version m.expected_version
      then save_entity s clock code "studio.metadata.entities.update"
          (record (m.entity) { version = incr current.version })
      else version_changed
]

unfoldable pub update_entity : Decoders → Clock → State → Request → State × Response
update_entity json clock s r =
    let invalid = refusal bad_request "invalid_entity" "Valid entity required" in
    elim (limited json.entity_update r.body) [
      | none ↦ (s, invalid)
      | some m ↦
          if m.entity.code == "" || m.entity.name == "" || m.idempotency_key == ""
          then (s, invalid)
          else (let code = trim_prefix r.path entity_prefix in
              if code != m.entity.code || contains_text code "/"
              then (
                s,
                refusal bad_request "entity_code_mismatch" "Entity path and body code must match",
              )
              else mutate s m.idempotency_key (update_entity_effect m clock code s))
    ]

-- `decodeDeletionMutation`: the body, unless it is refused.
unfoldable pub decode_deletion : Decoders → Request → Option VersionedMutation
decode_deletion json r = elim (limited json.versioned r.body) [
  | none ↦ none
  | some m ↦ if ltb_ℤ m.expected_version (pos 0) || m.idempotency_key == "" then none else some m
]

abbrev pub invalid_deletion : Response
invalid_deletion =
    refusal bad_request "invalid_mutation" "Expected version and idempotency key required"

-- `planEntityDeletion` under the lock: the plan is kept, and no audit record is made.
unfoldable pub plan_deletion_effect : VersionedMutation → String → State → Effect
plan_deletion_effect m code s = elim (lookup code s.entities) [
  | none ↦ refuse not_found "entity_not_found" "Entity was not found"
  | some e ↦
      if eqb_ℤ e.version m.expected_version
      then commit s
          (deletion_plan (record {
            code = code;
            expected_version = e.version;
            deletable = true;
            dependencies = [];
            impact_summary = "The local provider found no dependent metadata definitions.";
          }))
          none
      else version_changed
]

unfoldable pub plan_entity_deletion : Decoders → State → Request → State × Response
plan_entity_deletion json s r =
    let code = trim_suffix (trim_prefix r.path entity_prefix) "/delete-plan" in
    elim (decode_deletion json r) [
      | none ↦ (s, invalid_deletion)
      | some m ↦ mutate s m.idempotency_key (plan_deletion_effect m code s)
    ]

-- `deleteEntity` under the lock.
unfoldable pub delete_entity_effect : VersionedMutation → Clock → String → State → Effect
delete_entity_effect m clock code s = elim (lookup code s.entities) [
  | none ↦ refuse not_found "entity_not_found" "Entity was not found"
  | some e ↦
      if eqb_ℤ e.version m.expected_version
      then commit (record s { entities = delete code s.entities })
          (receipt
            (record { code = code; deleted_version = e.version; deleted_at = clock.changed_at }))
          (some (
            audit_record clock "studio.metadata.entities.delete" code
              (("deleted_version", number e.version) ∷ [])))
      else version_changed
]

unfoldable pub delete_entity : Decoders → Clock → State → Request → State × Response
delete_entity json clock s r =
    let code = trim_prefix r.path entity_prefix in
    elim (decode_deletion json r) [
      | none ↦ (s, invalid_deletion)
      | some m ↦
          if m.confirmation != delete_entity_confirmation
          then (
            s,
            refusal bad_request "confirmation_required" "Exact deletion confirmation required",
          )
          else mutate s m.idempotency_key (delete_entity_effect m clock code s)
    ]
