-- ===== src/Provider/Tests.antt =====
-- internal/provider on a provider that answers well.
use Prim.Native.String.{◌++◌}
use jimu_studio.Base.{
  ℕ, ◌≤◌, true, not, ◌&&◌, Option, none, some, [], ◌∷◌, ◌≡◌, ◌↔◌, refl, ok, err, ◌==◌,
  if◌then◌else◌,
}
use jimu_studio.Base.Int.{pos}
use jimu_studio.Base.Text.{has_prefix}
use jimu_studio.Provider.Types.{Query, plain}
use jimu_studio.Provider.Text.{
  has_control, has_path_mark, safe_path_value, safe_identity_key, is_token, all_token_chars,
}
use jimu_studio.Provider.Validate.{is_field, is_entity_head, validate_entity}
use jimu_studio.Provider.Client.{
  Http, HttpRequest, HttpResponse, deletion, perform, do_request, is_path, decode_bounded,
  decode_response, receive, send, checked,
}
use jimu_studio.Provider.Metadata.{
  delete_entity_confirmation, is_query, query_values, first_error, entity_page_error, list_entities,
  put_entity, deletion_body, receipt_error, delete_entity,
}
use jimu_studio.Provider.Returned.{
  IsSafe, IsEntity, IsPage, validate_entity_iff, list_entities-IsPage, delete_entity-receipt,
}
use jimu_studio.Provider.Sample.{orders, receipt, page_of, http, base, client}

-- A transport that answers requests to absolute paths of one host only.
abbrev local_exchange : HttpRequest → Option HttpResponse
local_exchange r =
    if r.base_url.host == base.host && has_prefix r.path "/" && not (has_prefix r.path "//")
    then http.exchange r
    else none

-- A transport that answers with a redirect.
abbrev redirecting : Http
redirecting = record http { redirect = λ request response. some request }

redirect_refused :
    receive redirecting client http.entity "GET" "/studio" none
    ≡ err (plain "Studio provider redirect rejected")
unfolding receive do_request perform is_path
redirect_refused = refl

-- U+0085 is a control character.
control_refused : has_control "a\u{85}" ≡ true
unfolding has_control
control_refused = refl

validate_entity_iff_example : (validate_entity orders ≡ none) ↔ IsEntity orders
validate_entity_iff_example = validate_entity_iff orders

abbrev query : Query
query = record { cursor = ""; limit = pos 50; search = "orders" }

listed : list_entities http client query ≡ ok (page_of (orders ∷ []))
unfolding list_entities is_query query_values receive do_request is_path decode_response
    decode_bounded checked entity_page_error first_error validate_entity is_entity_head is_field
    safe_path_value has_control has_path_mark
listed = refl

list_entities-IsPage_example :
    (n : ℕ) × (query.limit ≡ pos n)
    × (1 ≤ n)
    × (n ≤ 200)
    × IsPage query.limit (page_of (orders ∷ []))
list_entities-IsPage_example = list_entities-IsPage http client query (page_of (orders ∷ [])) listed

saved : put_entity http client orders (pos 1) "key" ≡ ok orders
unfolding put_entity send receive do_request is_path decode_response decode_bounded checked
    validate_entity is_entity_head is_field safe_path_value has_control has_path_mark
    safe_identity_key is_token all_token_chars
saved = refl

deleted : delete_entity http client "orders" (pos 1) "key" ≡ ok receipt
unfolding delete_entity deletion_body receipt_error send receive do_request is_path decode_response
    decode_bounded checked safe_path_value has_control has_path_mark safe_identity_key is_token
    all_token_chars
deleted = refl

delete_entity-receipt_example :
    (receipt.code ≡ "orders")
    × (receipt.deleted_version ≡ pos 1)
    × (http.parses_time receipt.deleted_at ≡ true)
    × IsSafe 256 "orders"
    × (send http client http.deletion_receipt "DELETE"
          ("/studio/v1/metadata/entities/" ++ http.path_escape "orders")
          (some (deletion delete_entity_confirmation (pos 1) "key"))
        ≡ ok receipt)
delete_entity-receipt_example =
    delete_entity-receipt http client "orders" (pos 1) "key" receipt deleted
