-- ===== src/Projection/Tests.antt =====
-- Runs of scripts/company_sqlite_projection_apply.py on a receipt of two items, with texts in place of the
-- hashes.
use Prim.Native.String.{◌++◌ as ◌◂◌}
use moonproj.Base.{
  field_of, ℕ, String, ◌≡◌, refl, ◌⊎◌, inl, inr, true, some, [], ◌∷◌, ok, err, Json, bool, int, str,
  arr, nil, cons, Dict, dict, pos, All,
}
use moonproj.Evidence.{Entry, holds, Fault, load_object}
use moonproj.Evidence.Secrets.{has_secret, is_private_key, reject_secret_keys}
use moonproj.Evidence.Sample.{document}
use moonproj.Gate.Replay.{inserts_nothing}
use moonproj.Projection.Promotion.{
  Codec, Item, Promotion, load_item, load_items, load_receipt, canonical_payload, event_id,
}
use moonproj.Projection.Table.{
  Projection, Tables, insert_projection, belongs, selected, logical_projection_hash,
}
use moonproj.Projection.Apply.{
  apply_item, apply_projection_items, ensure_projection_receipt, apply_receipt, run,
}
use moonproj.Projection.Replay.{IsApplied, Keeps, run_twice}
use moonproj.Projection.Atomic.{run_is_atomic, conflicting_event_is_refused}

abbrev dumps : Json → String
dumps value = elim (field_of "source_id" value) [ str s ↦ s | _ ↦ "row" ]

abbrev codec : Codec
codec = record {
  repr = λ value. "0";
  sha256 = λ s. s;
  dumps = dumps;
  loads =
      λ s. some (document (("source_snapshot_id", str "s1") ∷ ("mapping_version", str "v1") ∷ []));
}

abbrev accepted : String → Json
accepted id = document (
    ("source_table", str "t")
    ∷ ("source_id", str id)
    ∷ ("target_type", str "contract")
    ∷ ("target_id", str "c1")
    ∷ ("target_candidate", document (("amount", int (pos 5)) ∷ []))
    ∷ [])

abbrev entry : Entry
entry = holds (
    document (
      ("format", str "moonproj.erp.domain-promotion.v1")
      ∷ ("state", str "promoted_through_domain_importers")
      ∷ ("source_snapshot_id", str "s1")
      ∷ ("mapping_version", str "v1")
      ∷ ("accepted_items", arr (cons (accepted "1") (cons (accepted "2") nil)))
      ∷ []))

abbrev item : String → Item
item id = record {
  source_table = str "t";
  source_id = str id;
  target_type = str "contract";
  target_id = str "c1";
  target_candidate = dict (("amount", int (pos 5)) ∷ []);
}

abbrev receipt : Promotion
receipt = record {
  source_snapshot_id = "s1";
  mapping_version = "v1";
  accepted_items = item "1" ∷ item "2" ∷ [];
}

receipt_loads : load_receipt entry ≡ ok receipt
unfolding load_receipt load_object load_items load_item reject_secret_keys has_secret is_private_key
receipt_loads = refl

abbrev empty_tables : Tables
empty_tables = record { projections = []; receipts = [] }

abbrev stored : String → ℕ → Projection
stored id revision = record {
  aggregate_type = "contract";
  aggregate_id = "c1";
  revision = revision;
  payload = id;
  source_event_id = "erp-promotion:s1|v1|t|" ◂ id ◂ "|contract|c1";
}

abbrev full : Tables
full = record {
  projections = stored "2" 2 ∷ stored "1" 1 ∷ [];
  receipts =
      (
        "domain-projection-s1|v1",
        record {
          source_snapshot_id = "s1";
          target_schema_version = 4;
          mapping_version = "domain:v1";
          state = "Projected";
          baseline_hash = "";
          applied_hash = "row\nrow\n";
        },
      )
      ∷ [];
}

abbrev report : Dict
report = dict (
    ("run_id", str "domain-projection-s1|v1")
    ∷ ("source_snapshot_id", str "s1")
    ∷ ("mapping_version", str "v1")
    ∷ ("inserted_projections", int (pos 2))
    ∷ ("projection_count", int (pos 2))
    ∷ ("receipt_inserted", bool true)
    ∷ ("integrity", str "ok")
    ∷ [])

first_run : run codec "ok" entry empty_tables ≡ (full, ok report)
unfolding run load_receipt load_object load_items load_item reject_secret_keys has_secret
    is_private_key apply_receipt logical_projection_hash selected belongs apply_projection_items
    apply_item insert_projection canonical_payload event_id ensure_projection_receipt
first_run = refl

run_twice_example :
    (again : Dict) × (run codec "ok" entry full ≡ (full, ok again)) × (inserts_nothing again ≡ true)
run_twice_example = run_twice codec "ok" entry empty_tables first_run

run_is_atomic_example :
    let after = (run codec "ok" entry empty_tables).0 in
    (after ≡ empty_tables)
    ⊎ (All (IsApplied codec receipt after.projections) receipt.accepted_items
        × Keeps codec receipt empty_tables.projections after.projections)
run_is_atomic_example = run_is_atomic codec "ok" entry empty_tables receipt receipt_loads

-- The event of the second item with another payload.
abbrev spoiled : Tables
spoiled = record { projections = record (stored "2" 1) { payload = "other" } ∷ []; receipts = [] }

conflicting_event_is_refused_example :
    (fault : Fault) × (run codec "ok" entry spoiled ≡ (spoiled, err fault))
unfolding event_id canonical_payload
conflicting_event_is_refused_example =
    conflicting_event_is_refused codec "ok" entry spoiled receipt (item "2")
      (record (stored "2" 1) { payload = "other" }) receipt_loads (inr (inl refl)) refl refl
