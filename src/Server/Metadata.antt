-- ===== src/Server/Metadata.antt =====
-- The handlers of internal/server/metadata.go: the list, the form and the mutation of an entity.
use Prim.Native.String.{◌++◌}
use jimu_studio.Base.{
  ℕ, zero, suc, String, Bool, true, false, not, ◌||◌, ◌&&◌, Option, none, some, is_some, List, [],
  ◌∷◌, map, Result, ok, err, leb, ◌==◌, if◌then◌else◌,
}
use jimu_studio.Base.Int.{ℤ, pos, eqb_ℤ}
use jimu_studio.Base.Dict.{lookup}
use jimu_studio.Base.Lists.{all}
use jimu_studio.Auth.Types.{SessionView, Broker}
use jimu_studio.Auth.Drafts.{draft_key, clear_draft}
use jimu_studio.Provider.Types.{Field, Entity, Page, ProviderError, api}
use jimu_studio.Provider.Metadata.{list_entities, put_entity}
use jimu_studio.Server.Types.{
  Form, get, Request, Env, entity_list, entity_form, entity_conflict, Response,
}
use jimu_studio.Server.Guards.{
  proceed, refuse, render, Guards, Admitted, admit, visit, with_provider, bounded_browser_value,
  render_metadata_error, broker_error, is_status, message_of, request_id_of,
}
use jimu_studio.Server.Roles.{has_role}
use jimu_studio.Server.Login.{see_other}

-- `boundedDisplay`.
unfoldable pub bounded_display : String → ℕ → String
bounded_display value limit = if bounded_browser_value value limit then value else ""

-- An entity with the link to its form.
abbrev entity_view : Env → Bool → Entity → Entity × String
entity_view env can_edit e =
    (e, if can_edit then "/metadata/edit?code=" ++ env.query_escape e.code else "")

abbrev next_entities : Env → String → String → String
next_entities env cursor search =
    if cursor == ""
    then ""
    else "/metadata?"
      ++ env.encode_query
          (("cursor", cursor) ∷ (if search == "" then [] else ("search", search) ∷ []))

abbrev list_entities_page : Env → Request → SessionView → Page Entity → Response
list_entities_page env r v page =
    let can_edit = has_role v "studio.metadata.write" in
    render v (pos 200) (
      entity_list (map (entity_view env can_edit) page.items) (r.query "search")
        (next_entities env page.next_cursor (r.query "search"))
        (bounded_display (r.query "updated") 256) can_edit)

unfoldable pub metadata_list : Env → Broker → Request → Broker × Response
metadata_list env b r = visit none env b r (λ (b₁ : Broker) (id : String) (v : SessionView).
    let cursor = r.query "cursor" in
    let search = r.query "search" in
    if not (bounded_browser_value cursor 2048) || not (bounded_browser_value search 256)
    then (b₁, refuse 400 "invalid metadata query")
    else (proceed
        (with_provider env 1 b₁ id (λ client.
          list_entities (env.http 1) client
            (record { cursor = cursor; limit = pos 50; search = search })))
        (λ b₂ e. (b₂, render_metadata_error env v e))
        (λ b₂ page. (b₂, list_entities_page env r v page))))

abbrev entity_not_found : ProviderError
entity_not_found = api (record {
  status = pos 404;
  code = "entity_not_found";
  message = "Entity was not found.";
  request_id = "";
})

unfoldable pub pick_entity : String → List Entity → Result ProviderError Entity
pick_entity code [] = err entity_not_found
pick_entity code (e ∷ rest) =
    let later = pick_entity code rest in if e.code == code then ok e else later

-- `findEntity`, with the number of its call of the provider.
unfoldable pub find_entity :
    Env → ℕ → Broker → String → String → Broker × Result ProviderError Entity
find_entity env n b id code =
    proceed
      (with_provider env n b id (λ client.
        list_entities (env.http n) client (record { cursor = ""; limit = pos 200; search = code })))
      (λ b' e. (b', err e)) (λ b' page. (b', pick_entity code page.items))

unfoldable pub metadata_edit : Env → Broker → Request → Broker × Response
metadata_edit env b r = visit none env b r (λ (b₁ : Broker) (id : String) (v : SessionView).
    if not (bounded_browser_value (r.query "code") 256) || r.query "code" == ""
    then (b₁, refuse 400 "invalid entity code")
    else (proceed (find_entity env 1 b₁ id (r.query "code"))
        (λ b₂ e. (b₂, render_metadata_error env v e))
        (λ b₂ entity. (
          b₂,
          render v (pos 200) (
              entity_form entity (has_role v "studio.metadata.write")
                (has_role v "studio.metadata.apply") false "" ""),
        ))))

abbrev no_field : Field
no_field = record { code = ""; data_type = ""; required = false; read_only = false }

abbrev new_entity : Entity
new_entity = record { code = ""; name = ""; kind = ""; version = pos 0; fields = no_field ∷ [] }

unfoldable pub metadata_new : Env → Broker → Request → Broker × Response
metadata_new env b r =
    visit (some ("studio.metadata.write", "metadata write permission required")) env b r
      (λ (b₁ : Broker) (id : String) (v : SessionView).
        (b₁, render v (pos 200) (entity_form new_entity true false true "" "")))

abbrev pub form_field : Env → Form → ℕ → Field
form_field env form index =
    let suffix = env.format_int (pos index) in
    record {
      code = get ("field_code_" ++ suffix) form;
      data_type = get ("field_type_" ++ suffix) form;
      required = is_some (lookup ("field_required_" ++ suffix) form);
      read_only = is_some (lookup ("field_read_only_" ++ suffix) form);
    }

-- The loop over the fields: `left` remain from `index` on.
unfoldable pub form_fields : Env → Form → ℕ → ℕ → List Field
form_fields env form zero index = []
form_fields env form (suc left) index =
    form_field env form index ∷ form_fields env form left (suc index)

abbrev pub is_browser_entity : Entity → Bool
is_browser_entity e =
    bounded_browser_value e.code 256
    && not (e.code == "")
    && bounded_browser_value e.name 512
    && not (e.name == "")
    && bounded_browser_value e.kind 128

abbrev pub is_browser_field : Field → Bool
is_browser_field f =
    bounded_browser_value f.code 256
    && not (f.code == "")
    && bounded_browser_value f.data_type 256
    && not (f.data_type == "")

-- The entity that a form gives, as far as it was read, its expected version, and the error.
pub record Parsed : Type 0 where
  pub entity : Entity
  pub expected_version : ℤ
  pub error : Option String

abbrev pub form_entity : Form → ℤ → List Field → Entity
form_entity form version fields = record {
  code = get "code" form;
  name = get "name" form;
  kind = get "kind" form;
  version = version;
  fields = fields;
}

abbrev pub browser_error : Entity → Option String
browser_error e =
    if not (is_browser_entity e)
    then some "entity values exceed safe bounds"
    else if all is_browser_field e.fields
    then none
    else some "field values exceed safe bounds"

abbrev pub parse_fields : Env → Form → ℤ → Option ℤ → Parsed
parse_fields env form version (some (pos count)) =
    let e = form_entity form version (form_fields env form count 0) in
    if leb count 200
    then record { entity = e; expected_version = version; error = browser_error e }
    else record {
      entity = form_entity form version [];
      expected_version = version;
      error = some "field count exceeds the supported bound";
    }
parse_fields env form version _ = record {
  entity = form_entity form version [];
  expected_version = version;
  error = some "field count exceeds the supported bound";
}

abbrev pub parse_versioned : Env → Form → Option ℤ → Parsed
parse_versioned env form (some (pos version)) =
    parse_fields env form (pos version) (env.parse_int (get "field_count" form))
parse_versioned env form _ = record {
  entity = form_entity form (pos 0) [];
  expected_version = pos 0;
  error = some "a valid expected version is required";
}

unfoldable pub parse_metadata_entity : Env → Form → Parsed
parse_metadata_entity env form =
    parse_versioned env form (env.parse_int (get "expected_version" form))

abbrev pub metadata_scope : Env → Bool → Entity → ℤ → String
metadata_scope env create e version =
    "metadata:"
    ++ ((if create then "create" else "update")
        ++ (":" ++ (e.code ++ (":" ++ env.format_int version))))

-- What a failed mutation shows: on a conflict the current entity.
unfoldable pub metadata_failed :
    Env → Broker → String → SessionView → Bool → Entity → ProviderError → Broker × Response
metadata_failed env b id v create entity e =
    if is_status e 409
    then (proceed (find_entity env 3 b id entity.code)
        (λ b' e'. (b', render_metadata_error env v e'))
        (λ b' current. (b', render v (pos 409) (entity_conflict entity current (request_id_of e)))))
    else if is_status e 400
    then (
      b,
      render v (pos 400) (entity_form entity true false create (message_of e) (request_id_of e)),
    )
    else (b, render_metadata_error env v e)

-- The mutation of an entity that the form gave.
unfoldable pub metadata_put :
    Env → Bool → Broker → String → SessionView → Entity → ℤ → Broker × Response
metadata_put env create b id v entity version =
    proceed (draft_key b (env.world 1) id (metadata_scope env create entity version))
      (λ b₁ e. (b₁, render_metadata_error env v (broker_error e)))
      (λ b₁ key.
        (proceed
          (with_provider env 2 b₁ id (λ client. put_entity (env.http 2) client entity version key))
          (λ b₂ e. metadata_failed env b₂ id v create entity e)
          (λ b₂ updated. (
            clear_draft b₂ id (metadata_scope env create entity version),
            see_other ("/metadata?updated=" ++ env.query_escape updated.code),
          ))))

abbrev pub metadata_guards : Guards
metadata_guards = record {
  role = "studio.metadata.write";
  cross_site = "cross-site metadata mutation rejected";
  forbidden = "metadata write permission required";
  bad_form = "invalid metadata form";
  rejected = "metadata mutation rejected";
}

unfoldable pub metadata_submitted : Env → Bool → Admitted
metadata_submitted env create b id v form =
    let p = parse_metadata_entity env form in
    elim p.error [
      | some text ↦ (b, render v (pos 400) (entity_form p.entity true false create text ""))
      | none ↦
          if create && not (eqb_ℤ p.expected_version (pos 0))
          then (
            b,
            render v (pos 400) (
                entity_form p.entity true false true
                  "A new entity must start at expected version 0." ""),
          )
          else metadata_put env create b id v p.entity p.expected_version
    ]

-- `metadataMutate`, for `metadataSave` and `metadataCreate`.
unfoldable pub metadata_mutate : Env → Bool → Broker → Request → Broker × Response
metadata_mutate env create b r = admit metadata_guards env b r (metadata_submitted env create)
