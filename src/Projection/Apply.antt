-- ===== src/Projection/Apply.antt =====
-- `apply_projection_items`, `ensure_projection_receipt` and `run` of
-- scripts/company_sqlite_projection_apply.py, in the transaction of `CompanySqliteDriver`
-- (scripts/company_sqlite_driver.py).
use Prim.Native.String.{◌++◌ as ◌◂◌}
use moonproj.Base.{
  ℕ, zero, suc, ◌+◌, String, Bool, true, false, not, ◌&&◌, ◌||◌, Option, none, some, List, [], ◌∷◌,
  ◌==◌, ok, err, ◌>>=◌, raise_if, bool, int, str, Dict, dict, if◌then◌else◌, pos, items, eqb,
  length, ◌>>◌,
}
use moonproj.Evidence.{Checked, Entry, failure}
use moonproj.Service.Database.{lookup}
use moonproj.Projection.Promotion.{
  Codec, Item, Promotion, load_receipt, to_str, canonical_payload, event_id,
}
use moonproj.Projection.Table.{
  Projection, Certificate, Tables, find_event, max_revision, insert_projection,
  logical_projection_hash,
}

module _ (codec : Codec) (receipt : Promotion) where
  -- The row of an item at a revision.
  abbrev pub row_of : Item → ℕ → Projection
  row_of item revision = record {
    aggregate_type = to_str codec item.target_type;
    aggregate_id = to_str codec item.target_id;
    revision = revision;
    payload = canonical_payload codec receipt item;
    source_event_id = event_id codec receipt item;
  }

  -- A stored row is the item's, whatever its revision.
  abbrev pub is_row_of : Item → Projection → Bool
  is_row_of item r =
      r.aggregate_type == to_str codec item.target_type
      && r.aggregate_id == to_str codec item.target_id
      && r.payload == canonical_payload codec receipt item

  abbrev pub place_item : Item → List Projection → Option Projection → Checked (ℕ × List Projection)
  place_item item rows (some existing) = do
    raise_if (not (is_row_of item existing)) (failure "projection event conflict")
    ok (0, rows)
  place_item item rows none =
      let revision : ℕ =
        max_revision (to_str codec item.target_type) (to_str codec item.target_id) rows + 1 in
      do more ← insert_projection (row_of item revision) rows; ok (1, more)

  -- One item: how many rows it inserted, and the rows.
  unfoldable pub apply_item : Item → List Projection → Checked (ℕ × List Projection)
  apply_item item rows = place_item item rows (find_event (event_id codec receipt item) rows)

  unfoldable pub apply_projection_items :
      List Item → List Projection → Checked (ℕ × List Projection)
  apply_projection_items [] rows = ok (0, rows)
  apply_projection_items (item ∷ items) rows = do
    one ← apply_item item rows
    more ← apply_projection_items items one.1
    ok (one.0 + more.0, more.1)

  abbrev pub domain_version : String
  domain_version = "domain:" ◂ receipt.mapping_version

  abbrev pub certificate : String → String → Certificate
  certificate baseline_hash applied_hash = record {
    source_snapshot_id = receipt.source_snapshot_id;
    target_schema_version = 4;
    mapping_version = domain_version;
    state = "Projected";
    baseline_hash = baseline_hash;
    applied_hash = applied_hash;
  }

  -- A stored receipt certifies the same run; the baseline of its own first run is not compared.
  abbrev pub certifies : String → Certificate → Bool
  certifies applied_hash c =
      c.source_snapshot_id == receipt.source_snapshot_id
      && eqb c.target_schema_version 4
      && c.mapping_version == domain_version
      && c.state == "Projected"
      && c.applied_hash == applied_hash

  abbrev pub certified :
      String
      → String
      → String
      → List (String × Certificate)
      → Option Certificate
      → Checked (Bool × List (String × Certificate))
  certified run_id baseline_hash applied_hash receipts (some existing) = do
    raise_if (not (certifies applied_hash existing)) (failure "projection receipt conflict")
    ok (false, receipts)
  certified run_id baseline_hash applied_hash receipts none =
      ok (true, (run_id, certificate baseline_hash applied_hash) ∷ receipts)

  unfoldable pub ensure_projection_receipt :
      String
      → String
      → String
      → List (String × Certificate)
      → Checked (Bool × List (String × Certificate))
  ensure_projection_receipt run_id baseline_hash applied_hash receipts =
      certified run_id baseline_hash applied_hash receipts (lookup run_id receipts)

-- `hexdigest()[:16]`
abbrev first_characters : ℕ → String → String
first_characters zero s = ""
first_characters (suc n) String.[] = ""
first_characters (suc n) (String.◌∷◌ c s) = String.◌∷◌ c (first_characters n s)

abbrev pub run_id_of : Codec → Promotion → String
run_id_of codec receipt =
    "domain-projection-"
    ◂ first_characters 16
        (codec.sha256 (receipt.source_snapshot_id ◂ "|" ◂ receipt.mapping_version))

-- What a transaction that commits has done.
pub record Applied : Type 0 where
  pub inserted : ℕ
  pub receipt_inserted : Bool
  pub tables : Tables

-- The body of the transaction.
unfoldable pub apply_receipt : Codec → Promotion → Tables → Checked Applied
apply_receipt codec receipt tables = do
  baseline_hash ←
      logical_projection_hash codec receipt.source_snapshot_id receipt.mapping_version
        tables.projections
  items ← apply_projection_items codec receipt receipt.accepted_items tables.projections
  applied_hash ←
      logical_projection_hash codec receipt.source_snapshot_id receipt.mapping_version items.1
  ensured ←
      ensure_projection_receipt codec receipt (run_id_of codec receipt) baseline_hash applied_hash
        tables.receipts
  ok (record {
    inserted = items.0;
    receipt_inserted = ensured.0;
    tables = record { projections = items.1; receipts = ensured.1 };
  })

-- `SELECT count(*) FROM company_migration_receipt WHERE run_id = ?`
abbrev pub count_runs : String → List (String × Certificate) → ℕ
count_runs run_id [] = 0
count_runs run_id ((j, c) ∷ rest) =
    let n = count_runs run_id rest in if j == run_id then n + 1 else n

abbrev pub result : Codec → Promotion → String → Applied → Dict
result codec receipt integrity applied = dict (
    ("run_id", str (run_id_of codec receipt))
    ∷ ("source_snapshot_id", str receipt.source_snapshot_id)
    ∷ ("mapping_version", str receipt.mapping_version)
    ∷ ("inserted_projections", int (pos applied.inserted))
    ∷ ("projection_count", int (pos (length applied.tables.projections)))
    ∷ ("receipt_inserted", bool applied.receipt_inserted)
    ∷ ("integrity", str integrity)
    ∷ [])

-- The transaction has been committed, and the database is opened again; `integrity` is the answer of
-- its `PRAGMA integrity_check`.
abbrev pub verified_durable : Codec → String → Promotion → Applied → Checked Dict
verified_durable codec integrity receipt applied = do
  raise_if
      (not (integrity == "ok")
        || not (eqb (count_runs (run_id_of codec receipt) applied.tables.receipts) 1))
      (failure "projection durability verification failed")
  ok (result codec receipt integrity applied)

abbrev pub committed : Codec → String → Tables → Promotion → Checked Applied → Tables × Checked Dict
committed codec integrity tables receipt (err fault) = (tables, err fault)
committed codec integrity tables receipt (ok applied) =
    (applied.tables, verified_durable codec integrity receipt applied)

abbrev pub loaded : Codec → String → Tables → Checked Promotion → Tables × Checked Dict
loaded codec integrity tables (err fault) = (tables, err fault)
loaded codec integrity tables (ok receipt) =
    committed codec integrity tables receipt (apply_receipt codec receipt tables)

-- `run`: the tables that it leaves, and its report or its exception.
unfoldable pub run : Codec → String → Entry → Tables → Tables × Checked Dict
run codec integrity entry tables = loaded codec integrity tables (load_receipt entry)
