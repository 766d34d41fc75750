-- ===== src/Projection/Promotion.antt =====
-- `load_receipt`, `canonical_payload` and `event_id` of scripts/company_sqlite_projection_apply.py.
use Prim.Native.String.{◌++◌ as ◌◂◌}
use moonproj.Base.{
  String, not, Option, List, [], ◌∷◌, ok, err, ◌>>=◌, raise_if, Json, str, arr, obj, cons, Dict,
  dict, get, is_text, truthy, items, ◌>>◌,
}
use moonproj.Evidence.{Checked, Entry, failure, load_object}
use moonproj.Evidence.Secrets.{reject_secret_keys}

-- What the script takes from Python's libraries: `str` on a value that is no text, SHA-256 in
-- hexadecimal, `json.dumps` with sorted keys and without blanks, `json.loads`.
pub record Codec : Type 0 where
  pub repr : Json → String
  pub sha256 : String → String
  pub dumps : Json → String
  pub loads : String → Option Json

-- An accepted item, with the fields that the script reads.
pub record Item : Type 0 where
  pub source_table : Json
  pub source_id : Json
  pub target_type : Json
  pub target_id : Json
  pub target_candidate : Dict

pub record Promotion : Type 0 where
  pub source_snapshot_id : String
  pub mapping_version : String
  pub accepted_items : List Item

abbrev text_of : String → Json → Checked String
text_of message (str s) = ok s
text_of message _ = err (failure message)

abbrev required_field : String → Dict → Checked Json
required_field key item = do
  raise_if (not (truthy (get key item))) (failure ("accepted item missing " ◂ key))
  ok (get key item)

abbrev candidate_of : Json → Checked Dict
candidate_of (obj d) = ok d
candidate_of _ = err (failure "accepted item candidate is not an object")

unfoldable pub load_item : Json → Checked Item
load_item (obj item) = do
  source_table ← required_field "source_table" item
  source_id ← required_field "source_id" item
  target_type ← required_field "target_type" item
  target_id ← required_field "target_id" item
  present ← required_field "target_candidate" item
  candidate ← candidate_of present
  reject_secret_keys (obj candidate)
  ok (record {
    source_table = source_table;
    source_id = source_id;
    target_type = target_type;
    target_id = target_id;
    target_candidate = candidate;
  })
load_item _ = err (failure "accepted item is not an object")

unfoldable pub load_items : List Json → Checked (List Item)
load_items [] = ok []
load_items (x ∷ xs) = do item ← load_item x; items ← load_items xs; ok (item ∷ items)

-- `accepted_items`, a list that is not empty.
abbrev accepted_list : Json → Checked (List Json)
accepted_list (arr (cons x xs)) = ok (items (cons x xs))
accepted_list _ = err (failure "promotion receipt has no accepted items")

unfoldable pub load_receipt : Entry → Checked Promotion
load_receipt entry = do
  receipt ← load_object entry
  raise_if (not (is_text "moonproj.erp.domain-promotion.v1" (get "format" receipt)))
      (failure "unexpected promotion receipt format")
  raise_if (not (is_text "promoted_through_domain_importers" (get "state" receipt)))
      (failure "promotion receipt is not domain-validated")
  snapshot ← text_of "promotion receipt has no source snapshot" (get "source_snapshot_id" receipt)
  mapping ← text_of "promotion receipt has no mapping version" (get "mapping_version" receipt)
  accepted ← accepted_list (get "accepted_items" receipt)
  loaded ← load_items accepted
  ok (record { source_snapshot_id = snapshot; mapping_version = mapping; accepted_items = loaded })

module _ (codec : Codec) where
  -- `str(value)`
  abbrev pub to_str : Json → String
  to_str (str s) = s
  to_str value = codec.repr value

  unfoldable pub canonical_payload : Promotion → Item → String
  canonical_payload receipt item = codec.dumps (
      obj (
        dict (
          ("format", str "moonproj.company.aggregate-projection.v1")
          ∷ ("source_snapshot_id", str receipt.source_snapshot_id)
          ∷ ("mapping_version", str receipt.mapping_version)
          ∷ ("source_table", item.source_table)
          ∷ ("source_id", item.source_id)
          ∷ ("aggregate_type", item.target_type)
          ∷ ("aggregate_id", item.target_id)
          ∷ ("candidate", obj item.target_candidate)
          ∷ [])))

  unfoldable pub event_id : Promotion → Item → String
  event_id receipt item =
      "erp-promotion:"
      ◂ codec.sha256 (
          receipt.source_snapshot_id
          ◂ "|"
          ◂ receipt.mapping_version
          ◂ "|"
          ◂ to_str item.source_table
          ◂ "|"
          ◂ to_str item.source_id
          ◂ "|"
          ◂ to_str item.target_type
          ◂ "|"
          ◂ to_str item.target_id)
