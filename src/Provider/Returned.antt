-- ===== src/Provider/Returned.antt =====
-- internal/provider: what the client's operations guarantee of the values they return.
use Prim.Native.String.{◌++◌}
use jimu_studio.Base.{
  ℕ, ◌≤◌, String, len, Bool, true, false, not, ◌||◌, Option, none, some, List, [], ◌∷◌, ◌≡◌, ◌≢◌,
  ◌↔◌, refl, arith, eq_iff, Bool-cases, Option-cases, inl, inr, ◌!=◌, ltb, Result, ok, err,
}
use jimu_studio.Base.Lists.{length, all, All}
use jimu_studio.Base.Int.{ℤ, pos, negsuc, ltb_ℤ, eqb_ℤ, eqb_ℤ_iff}
use jimu_studio.Provider.Types.{Field, Entity, DeletionReceipt, Page, Query, ProviderError}
use jimu_studio.Provider.Text.{has_control, has_path_mark, safe_path_value, safe_identity_key}
use jimu_studio.Provider.Validate.{is_negative, is_field, is_entity_head, validate_entity}
use jimu_studio.Provider.Client.{Http, Client, deletion, send, checked}
use jimu_studio.Provider.Metadata.{
  delete_entity_confirmation, is_query, first_error, entity_page_error, list_entities,
  deletion_body, receipt_error, delete_entity,
}

-- A text that may stand in a path.
pub record IsSafe (limit : ℕ) (s : String) : Type 0 where
  pub given : s ≢ ""
  pub bounded : len s ≤ limit
  pub printable : has_control s ≡ false
  pub plain_path : has_path_mark s ≡ false

pub record IsField (f : Field) : Type 0 where
  pub code : IsSafe 256 f.code
  pub typed : f.data_type ≢ ""
  pub type_bounded : len f.data_type ≤ 256
  pub type_printable : has_control f.data_type ≡ false

pub record IsEntity (e : Entity) : Type 0 where
  pub code : IsSafe 256 e.code
  pub named : e.name ≢ ""
  pub name_bounded : len e.name ≤ 512
  pub name_printable : has_control e.name ≡ false
  pub kind_bounded : len e.kind ≤ 128
  pub kind_printable : has_control e.kind ≡ false
  pub version : (n : ℕ) × (e.version ≡ pos n)
  pub field_count : length e.fields ≤ 200
  pub fields : All IsField e.fields

safe_path_value_iff : (s : String) (limit : ℕ) → (safe_path_value s limit ≡ true) ↔ IsSafe limit s
unfolding safe_path_value
safe_path_value_iff s limit =
    (λ h. ground (arith, h, eq_iff s ""), λ v. ground (arith, v, eq_iff s ""))

is_field_iff : (f : Field) → (is_field f ≡ true) ↔ IsField f
unfolding is_field
is_field_iff f = (
  λ h. ground (arith, h, eq_iff f.data_type "", safe_path_value_iff f.code 256),
  λ v. ground (arith, v, eq_iff f.data_type "", safe_path_value_iff f.code 256),
)

all_iff {ℓ κ} :
    {A : Type ℓ} (p : A → Bool) (P : A → Type κ) (xs : List A)
    → ((a : A) → (p a ≡ true) ↔ P a)
    → (all p xs ≡ true) ↔ All P xs
all_iff p P [] each = (λ h. tt, λ h. refl)
all_iff p P (x ∷ xs) each = (
  λ h. ((each x).0 (ground arith), (all_iff p P xs each).0 (ground arith)),
  λ h. ground (arith, (each x).1 h.0, (all_iff p P xs each).1 h.1),
)

not_negative_iff : (n : ℤ) → (is_negative n ≡ false) ↔ ((k : ℕ) × (n ≡ pos k))
not_negative_iff (pos k) = (λ h. (k, refl), λ h. ground arith)
not_negative_iff (negsuc k) = (λ h. cc, λ (j, e). cc)

entity_of_tests : (e : Entity) → is_entity_head e ≡ true → all is_field e.fields ≡ true → IsEntity e
unfolding is_entity_head
entity_of_tests e h k = record {
  code = (safe_path_value_iff e.code 256).0 (ground arith);
  named = ground (arith, eq_iff e.name "");
  name_bounded = ground arith;
  name_printable = ground arith;
  kind_bounded = ground arith;
  kind_printable = ground arith;
  version = (not_negative_iff e.version).0 (ground arith);
  field_count = ground arith;
  fields = (all_iff is_field IsField e.fields is_field_iff).0 k;
}

head_of_entity : (e : Entity) → IsEntity e → is_entity_head e ≡ true
unfolding is_entity_head
head_of_entity e v =
    let code = (safe_path_value_iff e.code 256).1 v.code in
    let version = (not_negative_iff e.version).1 v.version in
    rw (code, version)
      (ground (
        arith,
        v.named,
        v.name_bounded,
        v.name_printable,
        v.kind_bounded,
        v.kind_printable,
        v.field_count,
        eq_iff e.name "",
      ))

-- `validateEntity` accepts exactly the entities within the bounds of the Studio contract.
pub validate_entity_iff : (e : Entity) → (validate_entity e ≡ none) ↔ IsEntity e
unfolding validate_entity
validate_entity_iff e = (
  λ h. elim (Bool-cases (is_entity_head e)) [
    | inr bad ↦ let failed = rw (bad, validate_entity) at h in cc
    | inl head ↦ elim (Bool-cases (all is_field e.fields)) [
      | inr bad ↦ let failed = rw (head, bad, validate_entity) at h in cc
      | inl fields ↦ entity_of_tests e head fields
    ]
  ],
  λ v.
      rw
        (
          head_of_entity e v,
          (all_iff is_field IsField e.fields is_field_iff).1 v.fields,
          validate_entity,
        )
        refl,
)

-- A result that passed its check.
pub checked-ok {ℓ} :
    {A : Type ℓ} (prefix : String) (check : A → Option String) (r : Result ProviderError A) (a : A)
    → checked prefix check r ≡ ok a
    → (r ≡ ok a) × (check a ≡ none)
unfolding checked
checked-ok prefix check (err e) a h = cc
checked-ok {A} prefix check (ok b) a h = elim (Option-cases (check b)) [
  | inr (text, f) ↦ let bad = rw (f, checked) at h in cc
  | inl f ↦
      let same : ◌≡◌ {A = Result ProviderError A} (ok b) (ok a) = rw (f, checked) at h in
      (same, ground (arith, same, f))
]

pub first_error-All {ℓ} :
    {A : Type ℓ} (check : A → Option String) (xs : List A)
    → first_error check xs ≡ none
    → All (λ a. check a ≡ none) xs
unfolding first_error
first_error-All check [] h = tt
first_error-All check (x ∷ xs) h = elim (Option-cases (check x)) [
  | inr (text, f) ↦ let bad = rw (f, first_error) at h in cc
  | inl f ↦ (f, first_error-All check xs (rw (f, first_error) at h))
]

All-map {ℓ κ μ} :
    {A : Type ℓ} (P : A → Type κ) (Q : A → Type μ) (xs : List A)
    → ((a : A) → P a → Q a)
    → All P xs
    → All Q xs
All-map P Q [] f h = tt
All-map P Q (x ∷ xs) f (h, hs) = (f x h, All-map P Q xs f hs)

-- The bounds of a page of entities.
pub record IsPage (limit : ℤ) (page : Page Entity) : Type 0 where
  pub count : ltb_ℤ limit (pos (length page.items)) ≡ false
  pub cursor : len page.next_cursor ≤ 2048
  pub entities : All IsEntity page.items

entity_page_error-IsPage :
    (limit : ℤ) (page : Page Entity) → entity_page_error limit page ≡ none → IsPage limit page
unfolding entity_page_error
entity_page_error-IsPage limit page h =
    elim (Bool-cases (ltb_ℤ limit (pos (length page.items)) || ltb 2048 (len page.next_cursor))) [
      | inl bad ↦ let failed = rw (bad, entity_page_error) at h in cc
      | inr good ↦ elim (Option-cases (first_error validate_entity page.items)) [
        | inr (text, f) ↦ let failed = rw (good, f, entity_page_error) at h in cc
        | inl f ↦ record {
          count = ground arith;
          cursor = ground arith;
          entities =
              All-map (λ e. validate_entity e ≡ none) IsEntity page.items
                (λ e valid. (validate_entity_iff e).0 valid)
                (first_error-All validate_entity page.items f);
        }
      ]
    ]

bounded_limit :
    (limit : ℤ)
    → ltb_ℤ limit (pos 1) ≡ false
    → ltb_ℤ (pos 200) limit ≡ false
    → (n : ℕ) × (limit ≡ pos n) × (1 ≤ n) × (n ≤ 200)
bounded_limit (pos n) low high = (n, refl, ground arith, ground arith)
bounded_limit (negsuc n) low high = cc

limit_of_query : (q : Query) → is_query q ≡ true → (n : ℕ) × (q.limit ≡ pos n) × (1 ≤ n) × (n ≤ 200)
unfolding is_query
limit_of_query q h = bounded_limit q.limit (ground arith) (ground arith)

-- A page of entities that the client returns was asked for with a limit of 1 to 200, has no more
-- items than that and a cursor of at most 2048 bytes, and each of its entities is within the bounds
-- of the contract, whatever the provider answered.
pub list_entities-IsPage :
    (http : Http) (client : Client) (q : Query) (page : Page Entity)
    → list_entities http client q ≡ ok page
    → (n : ℕ) × (q.limit ≡ pos n) × (1 ≤ n) × (n ≤ 200) × IsPage q.limit page
unfolding list_entities
list_entities-IsPage http client q page h = elim (Bool-cases (is_query q)) [
  | inr bad ↦ let failed = rw (bad, list_entities) at h in cc
  | inl good ↦
      let (received, valid) =
        checked-ok "" (entity_page_error q.limit) _ page (rw (good, list_entities) at h) in
      let (n, e, low, high) = limit_of_query q good in
      (n, e, low, high, entity_page_error-IsPage q.limit page valid)
]

receipt_error-none :
    (parses_time : String → Bool) (code : String) (version : ℤ) (r : DeletionReceipt)
    → receipt_error parses_time code version r ≡ none
    → (r.code ≡ code) × (r.deleted_version ≡ version) × (parses_time r.deleted_at ≡ true)
unfolding receipt_error
receipt_error-none parses_time code version r h =
    elim (Bool-cases (r.code != code || not (eqb_ℤ r.deleted_version version))) [
      | inl bad ↦ let failed = rw (bad, receipt_error) at h in cc
      | inr good ↦ (
        (eq_iff r.code code).0 (ground arith),
        (eqb_ℤ_iff r.deleted_version version).0 (ground arith),
        ground arith,
      )
    ]

-- A deletion receipt that the client returns is for the entity and the version that were to be
-- deleted, and has a time; and the deletion was sent with the confirmation, for a safe code.
pub delete_entity-receipt :
    (http : Http) (client : Client) (code : String) (version : ℤ) (key : String)
    (r : DeletionReceipt)
    → delete_entity http client code version key ≡ ok r
    → (r.code ≡ code)
      × (r.deleted_version ≡ version)
      × (http.parses_time r.deleted_at ≡ true)
      × IsSafe 256 code
      × (send http client http.deletion_receipt "DELETE"
            ("/studio/v1/metadata/entities/" ++ http.path_escape code)
            (some (deletion delete_entity_confirmation version key))
          ≡ ok r)
unfolding delete_entity deletion_body
delete_entity-receipt http client code version key r h =
    elim (Bool-cases
      (not (safe_path_value code 256) || is_negative version || not (safe_identity_key key))) [
        | inl bad ↦ let failed = rw (bad, delete_entity, deletion_body) at h in cc
        | inr good ↦
            let (received, valid) =
              checked-ok "" (receipt_error http.parses_time code version) _ r
                (rw (good, delete_entity, deletion_body) at h) in
            let (same_code, same_version, time) =
              receipt_error-none http.parses_time code version r valid in
            (
              same_code,
              same_version,
              time,
              (safe_path_value_iff code 256).0 (ground arith),
              received,
            )
      ]
