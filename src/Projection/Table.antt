-- ===== src/Projection/Table.antt =====
-- `company_aggregate_projection` and `company_migration_receipt` (scripts/company_sqlite_rehearsal.py),
-- and `logical_projection_hash` of scripts/company_sqlite_projection_apply.py.
use Prim.Native.Nat.{Ordering}
use Prim.Native.String.{compare, ◌++◌ as ◌◂◌}
use moonproj.Base.{
  ℕ, String, Bool, true, false, ◌&&◌, ◌||◌, Option, none, some, List, [], ◌∷◌, ◌==◌, ok, err, ◌>>=◌,
  raise_if, Json, int, str, arr, is_text, if◌then◌else◌, pos, any, ltb, leb, eqb, array, ◌>>◌,
}
use moonproj.Evidence.{Checked, failure, attribute_get}
use moonproj.Projection.Promotion.{Codec}

pub record Projection : Type 0 where
  pub aggregate_type : String
  pub aggregate_id : String
  pub revision : ℕ
  pub payload : String
  pub source_event_id : String

pub record Certificate : Type 0 where
  pub source_snapshot_id : String
  pub target_schema_version : ℕ
  pub mapping_version : String
  pub state : String
  pub baseline_hash : String
  pub applied_hash : String

-- The two tables; the receipts by their `run_id`.
pub record Tables : Type 0 where
  pub projections : List Projection
  pub receipts : List (String × Certificate)

-- `… WHERE source_event_id = ?`, the first row.
abbrev pub find_event : String → List Projection → Option Projection
find_event e [] = none
find_event e (r ∷ rs) = if r.source_event_id == e then some r else find_event e rs

abbrev pub same_aggregate : String → String → Projection → Bool
same_aggregate t i r = r.aggregate_type == t && r.aggregate_id == i

-- `COALESCE(MAX(revision), 0)` of one aggregate
abbrev pub max_revision : String → String → List Projection → ℕ
max_revision t i [] = 0
max_revision t i (r ∷ rs) =
    let rest = max_revision t i rs in
    if same_aggregate t i r then (if ltb rest r.revision then r.revision else rest) else rest

-- The primary key and the unique event.
abbrev pub conflicts : Projection → Projection → Bool
conflicts a b =
    same_aggregate a.aggregate_type a.aggregate_id b
    && (eqb a.revision b.revision || a.source_event_id == b.source_event_id)

-- `INSERT`, where an `IntegrityError` becomes the script's own.
unfoldable pub insert_projection : Projection → List Projection → Checked (List Projection)
insert_projection r rows = do
  raise_if (any (conflicts r) rows) (failure "projection uniqueness conflict")
  ok (r ∷ rows)

-- `ORDER BY aggregate_type, aggregate_id, revision`
abbrev before : Projection → Projection → Bool
before a b = elim (compare a.aggregate_type b.aggregate_type) [
  | Ordering.lt ↦ true
  | Ordering.gt ↦ false
  | Ordering.eq ↦ elim (compare a.aggregate_id b.aggregate_id) [
    | Ordering.lt ↦ true
    | Ordering.gt ↦ false
    | Ordering.eq ↦ leb a.revision b.revision
  ]
]

abbrev place : Projection → List Projection → List Projection
place r [] = r ∷ []
place r (x ∷ xs) = let rest = place r xs in if before r x then r ∷ x ∷ xs else x ∷ rest

abbrev ordered : List Projection → List Projection
ordered [] = []
ordered (r ∷ rs) = place r (ordered rs)

module _ (codec : Codec) (snapshot mapping : String) where
  abbrev payload_of : Option Json → Checked Json
  payload_of none = err (failure "projection payload is invalid JSON")
  payload_of (some payload) = ok payload

  -- Whether a row's payload names the snapshot and the mapping version.
  unfoldable pub belongs : Projection → Checked Bool
  belongs r = do
    payload ← payload_of (codec.loads r.payload)
    named ← attribute_get "source_snapshot_id" payload
    version ← attribute_get "mapping_version" payload
    ok (is_text snapshot named && is_text mapping version)

  unfoldable pub selected : List Projection → Checked (List Projection)
  selected [] = ok []
  selected (r ∷ rs) = do kept ← belongs r; rest ← selected rs; ok (if kept then r ∷ rest else rest)

  -- One line of the digest: the row as a JSON array.
  abbrev line_of : Projection → Json
  line_of r = arr (
      array (
        str r.aggregate_type
        ∷ str r.aggregate_id
        ∷ int (pos r.revision)
        ∷ str r.payload
        ∷ str r.source_event_id
        ∷ []))

  abbrev lines : List Projection → String
  lines [] = ""
  lines (r ∷ rs) = codec.dumps (line_of r) ◂ "\n" ◂ lines rs

  unfoldable pub logical_projection_hash : List Projection → Checked String
  logical_projection_hash rows = do
    chosen ← selected (ordered rows)
    ok (codec.sha256 (lines chosen))
