-- ===== src/Acceptance.antt =====
-- scripts/company_business_acceptance_check.py: the decisions of the owners on the migration.
pub mod Decisions
pub mod Gated
mod Tests
use Prim.Native.String.{◌++◌ as ◌◂◌}
use moonproj.Base.{
  insert_text, sort_texts, ℕ, String, Bool, true, false, not, ◌&&◌, ◌||◌, ok, err, ◌>>=◌, ◌>>◌,
  raise_if, Json, bool, int, str, arr, obj, null, pos, Items, Dict, dict, array, get, get_or,
  is_text, is_filled, is_null, is_dict, field_of, truthy, items, all, any, is_empty, length, Option,
  none, some, List, [], ◌∷◌, map, ◌==◌, if◌then◌else◌,
}
use moonproj.Evidence.{Checked, WorkDir, failure, load_value, attribute_get, is_one_of}
use moonproj.Evidence.Secrets.{reject_secrets}

-- `REQUIRED_DECISIONS`: each decision and the role of its owner.
abbrev pub required_decisions : List (String × String)
required_decisions =
    ("task-state-proj-0001", "business")
    ∷ ("erp-schema-coverage", "migration-owner")
    ∷ ("production-database-deployment", "operations")
    ∷ ("accounting-reconciliation", "finance")
    ∷ ("shadow-period", "operations")
    ∷ []

abbrev pub allowed : List String
allowed = "accept_for_shadow" ∷ "defer" ∷ "reject" ∷ []

abbrev pub shadow_required : List String
shadow_required =
    "production-database-deployment" ∷ "accounting-reconciliation" ∷ "shadow-period" ∷ []

-- A dict from texts, in insertion order.
abbrev pub lookup {ℓ} : {V : Type ℓ} → String → List (String × V) → Option V
lookup k [] = none
lookup k ((j, v) ∷ m) = if j == k then some v else lookup k m

abbrev pub is_some {ℓ} : {V : Type ℓ} → Option V → Bool
is_some none = false
is_some (some v) = true

abbrev pub ById : Type 0
ById = List (String × Dict)

abbrev append_entry : ById → String → Dict → ById
append_entry [] id d = (id, d) ∷ []
append_entry (e ∷ m) id d = e ∷ append_entry m id d

-- The decision's own text, `decision["id"]`; `none` if it is no text.
abbrev text_of : Json → Option String
text_of (str s) = some s
text_of _ = none

abbrev is_text_value : Json → Bool
is_text_value (str s) = true
is_text_value _ = false

abbrev has_refs : Json → Bool
has_refs (arr xs) = truthy (arr xs) && all is_text_value (items xs)
has_refs _ = false

-- A decision that was taken names who took it, when, why and on what evidence.
abbrev pub documented : Dict → Bool
documented d =
    is_filled (get "decided_by" d)
    && is_filled (get "decided_at" d)
    && is_filled (get "rationale" d)
    && has_refs (get "evidence_refs" d)

-- `REQUIRED_DECISIONS[id]`
pub role_of : String → Option String
role_of id = lookup id required_decisions

abbrev or_unexpected : Option String → Checked String
or_unexpected none = err (failure "unexpected decision ID")
or_unexpected (some role) = ok role

-- `value is None or value in ALLOWED`
abbrev known_decision : Json → Checked Bool
known_decision null = ok true
known_decision value = is_one_of allowed value

-- The checks on one decision whose id is a text and new.
check_decision : String → Dict → Checked Unit
unfolding role_of
check_decision id d = do
  role ← or_unexpected (role_of id)
  raise_if (not (is_text role (get "owner_role" d))) (failure "wrong owner role")
  known ← known_decision (get "decision" d)
  raise_if (not known) (failure "unsupported decision")
  raise_if (not (is_null (get "decision" d)) && not (documented d))
      (failure "undocumented decision")

abbrev or_unnamed : Option String → Checked String
or_unnamed none = err (failure "decision IDs must be unique non-empty strings")
or_unnamed (some id) = ok id

add_decision : ById → Json → Checked ById
unfolding check_decision
add_decision by_id (obj d) = do
  id ← or_unnamed (text_of (get "id" d))
  raise_if (is_some (lookup id by_id)) (failure "decision IDs must be unique non-empty strings")
  check_decision id d
  ok (append_entry by_id id d)
add_decision by_id _ = err (failure "decision entry is not an object")

-- The array of decisions.
abbrev list_of : Json → Checked (List Json)
list_of (arr xs) = ok (items xs)
list_of _ = err (failure "decisions must be an array")

pub collect_decisions : ById → List Json → Checked ById
collect_decisions by_id [] = ok by_id
collect_decisions by_id (d ∷ ds) = do next ← add_decision by_id d; collect_decisions next ds

-- The ids whose decision meets a test, sorted.
abbrev pub ids_where : (Json → Bool) → ById → List String
ids_where p [] = []
ids_where p ((id, d) ∷ m) =
    let rest = ids_where p m in if p (get "decision" d) then insert_text id rest else rest

abbrev decided : String → ById → String → Bool
decided value by_id id = elim (lookup id by_id) [
  | none ↦ false
  | some d ↦ is_text value (get "decision" d)
]

-- `authorized`: nothing is pending or rejected, and the three decisions that the shadow period
-- needs are accepted.
pub authorized : ById → Bool
authorized by_id =
    is_empty (ids_where is_null by_id)
    && is_empty (ids_where (is_text "reject") by_id)
    && all (decided "accept_for_shadow" by_id) shadow_required

abbrev texts : List String → Json
texts ids = arr (array (map str ids))

pub result : Json → Json → Json → Json → ById → Dict
unfolding authorized
result snapshot contract row_coverage decisions by_id =
    let pending : List String = ids_where is_null by_id in
    let rejected : List String = ids_where (is_text "reject") by_id in
    let is_authorized : Bool = authorized by_id in
    dict (
      ("format", str "moonproj.erp.business-acceptance-result.v1")
      ∷ ("source_snapshot_id", snapshot)
      ∷ (
        "state",
        str (
            if not (is_empty pending) || not (is_empty rejected)
            then "acceptance_pending"
            else "ready_for_shadow"),
      )
      ∷ ("acceptance_authorized", bool is_authorized)
      ∷ ("shadow_authorized", bool is_authorized)
      ∷ ("cutover_authorized", bool false)
      ∷ ("required_decisions", int (pos (length required_decisions)))
      ∷ ("pending_decisions", texts pending)
      ∷ ("rejected_decisions", texts rejected)
      ∷ ("deferred_decisions", texts (ids_where (is_text "defer") by_id))
      ∷ ("accepted_for_shadow", texts (ids_where (is_text "accept_for_shadow") by_id))
      ∷ (
        "technical_evidence",
        obj (
            dict (
              ("source_export_state", field_of "state" contract)
              ∷ ("source_rows", field_of "source_rows" row_coverage)
              ∷ ("covered_rows", field_of "covered_rows" row_coverage)
              ∷ ("uncovered_rows", field_of "uncovered_rows" row_coverage)
              ∷ [])),
      )
      ∷ ("decisions", decisions)
      ∷ [])

-- `repr` is Python's `str` on values that are no text.
module _ (repr : Json → String) where
  abbrev to_str : Json → String
  to_str (str s) = s
  to_str v = repr v

  -- The snapshot that the manifest names, or the marker that stands for the export's own.
  snapshot_of : Dict → Json → Checked Json
  snapshot_of m contract =
      let sha : Json = elim contract [ obj c ↦ get_or "source_sha256" (str "") c | _ ↦ null ] in
      let expected : String = "erp-snapshot:" ◂ to_str sha in
      let named : Json = get "source_snapshot_id" m in
      let snapshot : Json =
        if is_text "from-source-export-evidence" named then str expected else named in
      do
        raise_if (not (is_text expected snapshot))
            (failure "acceptance source snapshot does not match export evidence")
        ok snapshot

  validate_object : WorkDir → Dict → Checked Dict
  unfolding collect_decisions
  validate_object w m = do
    raise_if (not (is_text "moonproj.erp.business-acceptance.v1" (get "format" m)))
        (failure "unsupported business-acceptance format")
    contract ← load_value (w.file "source-export-contract.json")
    row_coverage ← load_value (w.file "row-coverage.json")
    contract_format ← attribute_get "format" contract
    raise_if (not (is_text "moonproj.erp.export-contract.v1" contract_format))
        (failure "source export contract is missing or invalid")
    coverage_format ← attribute_get "format" row_coverage
    raise_if (not (is_text "moonproj.erp.row-coverage.v1" coverage_format))
        (failure "row coverage evidence is missing or invalid")
    snapshot ← snapshot_of m contract
    entries ← list_of (get "decisions" m)
    by_id ← collect_decisions [] entries
    raise_if (not (all (λ (r : String × String). is_some (lookup r.0 by_id)) required_decisions))
        (failure "required decisions missing")
    ok (result snapshot contract row_coverage (get "decisions" m) by_id)

  pub validate : WorkDir → Json → Checked Dict
  unfolding validate_object
  validate w (obj m) = do reject_secrets (obj m); validate_object w m
  validate w _ = err (failure "acceptance manifest must be an object")
