-- ===== src/Server/Laws/Submitted.antt =====
-- internal/server/metadata.go: what a form that `parseMetadataEntity` accepts holds.
use jimu_studio.Base.{
  ℕ, zero, suc, ◌≤◌, String, len, true, false, Option, none, some, List, [], ◌∷◌, ◌≡◌, ◌≢◌, refl,
  arith, ap, Bool-cases, inl, inr, eq_iff, leb,
}
use jimu_studio.Base.Int.{ℤ, pos, negsuc}
use jimu_studio.Base.Lists.{length, all, All}
use jimu_studio.Provider.Types.{Field}
use jimu_studio.Provider.Text.{has_control}
use jimu_studio.Server.Types.{Form, get, Env}
use jimu_studio.Server.Guards.{bounded_browser_value}
use jimu_studio.Server.Metadata.{
  form_fields, is_browser_entity, is_browser_field, form_entity, parse_fields, parse_versioned,
  Parsed, parse_metadata_entity,
}

-- A text without control characters that is not longer than its bound.
pub record IsBounded (limit : ℕ) (s : String) : Type 0 where
  pub bounded : len s ≤ limit
  pub printable : has_control s ≡ false

pub record IsSubmittedField (f : Field) : Type 0 where
  pub code : IsBounded 256 f.code
  pub code_given : f.code ≢ ""
  pub data_type : IsBounded 256 f.data_type
  pub type_given : f.data_type ≢ ""

-- What an accepted form holds: the entity's texts and fields in their bounds, its version as the
-- form expects it, and as many fields as the form counts.
pub record IsSubmitted (env : Env) (form : Form) (p : Parsed) : Type 0 where
  pub code : IsBounded 256 p.entity.code
  pub code_given : p.entity.code ≢ ""
  pub name : IsBounded 512 p.entity.name
  pub name_given : p.entity.name ≢ ""
  pub kind : IsBounded 128 p.entity.kind
  pub version : ℕ
  pub expected : env.parse_int (get "expected_version" form) ≡ some (pos version)
  pub same_version : p.expected_version ≡ pos version
  pub entity_version : p.entity.version ≡ pos version
  pub counted : env.parse_int (get "field_count" form) ≡ some (pos (length p.entity.fields))
  pub field_bound : length p.entity.fields ≤ 200
  pub fields : All IsSubmittedField p.entity.fields

length-form_fields :
    (env : Env) (form : Form) (left index : ℕ) → length (form_fields env form left index) ≡ left
unfolding form_fields
length-form_fields env form zero index = refl
length-form_fields env form (suc left) index = ap suc (length-form_fields env form left (suc index))

is_bounded : (s : String) (limit : ℕ) → bounded_browser_value s limit ≡ true → IsBounded limit s
unfolding bounded_browser_value
is_bounded s limit h = record { bounded = ground (arith, h); printable = ground (arith, h) }

submitted_field : (f : Field) → is_browser_field f ≡ true → IsSubmittedField f
submitted_field f h = record {
  code = is_bounded f.code 256 (ground (arith, h));
  code_given = ground (arith, h, eq_iff f.code "");
  data_type = is_bounded f.data_type 256 (ground (arith, h));
  type_given = ground (arith, h, eq_iff f.data_type "");
}

submitted_fields : (fs : List Field) → all is_browser_field fs ≡ true → All IsSubmittedField fs
submitted_fields [] h = tt
submitted_fields (f ∷ fs) h =
    (submitted_field f (ground (arith, h)), submitted_fields fs (ground (arith, h)))

parse_fields-IsSubmitted :
    (env : Env) (form : Form) (version : ℕ) (count : Option ℤ)
    → env.parse_int (get "expected_version" form) ≡ some (pos version)
    → env.parse_int (get "field_count" form) ≡ count
    → let p = parse_fields env form (pos version) count in p.error ≡ none → IsSubmitted env form p
parse_fields-IsSubmitted env form version none expected counted accepted = cc
parse_fields-IsSubmitted env form version (some (negsuc n)) expected counted accepted = cc
parse_fields-IsSubmitted env form version (some (pos count)) expected counted accepted =
    let e = form_entity form (pos version) (form_fields env form count 0) in
    elim (Bool-cases (leb count 200)) [
      | inr over ↦ let bad = rw over at accepted in cc
      | inl bounded ↦ elim (Bool-cases (is_browser_entity e)) [
        | inr unsafe ↦ let bad = rw (bounded, unsafe) at accepted in cc
        | inl safe ↦ elim (Bool-cases (all is_browser_field e.fields)) [
          | inr bad ↦ let refused = rw (bounded, safe, bad) at accepted in cc
          | inl fields ↦
              let length = length-form_fields env form count 0 in
              simp bounded (record {
                code = is_bounded e.code 256 (ground (arith, safe));
                code_given = ground (arith, safe, eq_iff e.code "");
                name = is_bounded e.name 512 (ground (arith, safe));
                name_given = ground (arith, safe, eq_iff e.name "");
                kind = is_bounded e.kind 128 (ground (arith, safe));
                version = version;
                expected = expected;
                same_version = refl;
                entity_version = refl;
                counted = rw length counted;
                field_bound = rw length (ground (arith, bounded));
                fields = submitted_fields e.fields fields;
              })
        ]
      ]
    ]

parse_versioned-IsSubmitted :
    (env : Env) (form : Form) (version : Option ℤ)
    → env.parse_int (get "expected_version" form) ≡ version
    → let p = parse_versioned env form version in p.error ≡ none → IsSubmitted env form p
parse_versioned-IsSubmitted env form none expected accepted = cc
parse_versioned-IsSubmitted env form (some (negsuc n)) expected accepted = cc
parse_versioned-IsSubmitted env form (some (pos version)) expected accepted =
    parse_fields-IsSubmitted env form version _ expected refl accepted

-- A form that is accepted is in its bounds: where `parseMetadataEntity` gives no error, the code, the
-- name and the kind have at most 256, 512 and 128 bytes and no control character, code and name are
-- given, the version is the form's expected version and not negative, and there are as many fields
-- as the form counts, at most 200, each with a code and a type in their bounds.
pub parse_metadata_entity-IsSubmitted :
    (env : Env) (form : Form)
    → (parse_metadata_entity env form).error ≡ none
    → IsSubmitted env form (parse_metadata_entity env form)
unfolding parse_metadata_entity
parse_metadata_entity-IsSubmitted env form accepted =
    parse_versioned-IsSubmitted env form _ refl accepted
