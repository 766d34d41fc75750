-- ===== src/PeriodClose.antt =====
-- scripts/company_period_close_control.py: the period-close control over the accounting
-- reconciliations, one cohort for each source snapshot and mapping version.
pub mod Cohorts
pub mod Gated
mod Tests
use Prim.Native.String.{◌++◌ as ◌◂◌}
use moonproj.Base.{
  length, eqb, any, is_nil, is_empty, is_false, array, sort_texts, ◌>>◌, ℕ, zero, suc, ◌+◌, String,
  ◌≡◌, refl, sym, ap, ◌∙◌, subst, ◌≢◌, ◌↔◌, ◌⊎◌, inl, inr, Bool, true, false, not, ◌&&◌, ◌||◌,
  Option, none, some, List, [], ◌∷◌, ◌++◌, map, arith, ◌==◌, eq_iff, eq_refl, Result, ok, err,
  ◌>>=◌, raise_if, Json, null, bool, int, str, arr, obj, Items, nil, cons, Dict, end, field, dict,
  get, get_or, is_text, is_true, if◌then◌else◌, json_eq, items_eq, dict_within, ℤ, pos, negsuc,
  ◌+ℤ◌, All, all, strip, is_identifier, is_currency, upper, parse_int, is_space,
}
use moonproj.Evidence.{Checked, Entry, WorkDir, failure, load_object, to_int}

-- The reconciliations of one snapshot and mapping version, by the backends that were reconciled. A
-- cohort without links is refused, so that the count is a natural number.
pub record Cohort : Type 0 where
  pub source_snapshot_id : String
  pub mapping_version : String
  pub link_count : ℕ
  pub state : Json
  pub file : String
  pub files : List String
  pub backends : List String

abbrev pub filled_text : String → Json → Checked String
filled_text message (str s) = do raise_if (is_nil (strip s)) (failure message); ok s
filled_text message _ = err (failure message)

abbrev pub positive_count : ℤ → Checked ℕ
positive_count (pos (suc n)) = ok (suc n)
positive_count _ = err (failure "empty reconciliation cohort")

-- The checks on one reconciliation, and the cohort that it makes by itself.
unfoldable pub read_cohort : String → Dict → Checked Cohort
read_cohort path value = do
  raise_if (not (is_text "moonproj.erp.accounting-reconciliation.v1" (get "format" value)))
      (failure "unexpected reconciliation format")
  raise_if (not (is_text "reconciled" (get "state" value))) (failure "unreconciled cohort")
  raise_if (not (is_text "ok" (get "integrity" value))) (failure "unhealthy cohort")
  raise_if
      (not (is_false (get "cash_released" value)) || not (is_false (get "period_posted" value)))
      (failure "economic side effect already asserted")
  snapshot ← filled_text "reconciliation has no source snapshot" (get "source_snapshot_id" value)
  mapping ← filled_text "reconciliation has no mapping version" (get "mapping_version" value)
  counted ← to_int (get_or "link_count" (int (pos 0)) value)
  links ← positive_count counted
  backend ← filled_text "reconciliation has no backend" (get_or "backend" (str "sqlite") value)
  ok (record {
    source_snapshot_id = snapshot;
    mapping_version = mapping;
    link_count = links;
    state = get "state" value;
    file = path;
    files = path ∷ [];
    backends = backend ∷ [];
  })

abbrev pub same_identity : Cohort → Cohort → Bool
same_identity a b =
    a.source_snapshot_id == b.source_snapshot_id && a.mapping_version == b.mapping_version

abbrev pub with_new : List String → List String → List String
with_new texts [] = texts
with_new texts (s ∷ more) =
    if any (λ t. t == s) texts then with_new texts more else with_new (texts ++ (s ∷ [])) more

-- The cohort of an identity with the files and backends of one more reconciliation.
abbrev pub joined : Cohort → Cohort → Checked Cohort
joined existing c = do
  raise_if (not (eqb existing.link_count c.link_count) || not (json_eq existing.state c.state))
      (failure "duplicate backend reconciliation disagrees")
  ok (record existing {
    files = existing.files ++ c.files;
    backends = with_new existing.backends c.backends;
  })

-- The cohorts in the order of their first reconciliation.
unfoldable pub add_cohort : List Cohort → Cohort → Checked (List Cohort)
add_cohort [] c = ok (c ∷ [])
add_cohort (x ∷ xs) c =
    let later = add_cohort xs c in
    if same_identity x c
    then (do both ← joined x c; ok (both ∷ xs))
    else (do rest ← later; ok (x ∷ rest))

unfoldable pub collect_cohorts :
    (String → Entry) → List Cohort → List String → Checked (List Cohort)
collect_cohorts file cohorts [] = ok cohorts
collect_cohorts file cohorts (path ∷ paths) = do
  value ← load_object (file path)
  cohort ← read_cohort path value
  more ← add_cohort cohorts cohort
  collect_cohorts file more paths

abbrev pub total_links : List Cohort → ℕ
total_links [] = 0
total_links (c ∷ cs) = c.link_count + total_links cs

-- All cohorts are of the first one's snapshot.
abbrev pub one_snapshot : List Cohort → Bool
one_snapshot [] = false
one_snapshot (c ∷ cs) = all (λ d. d.source_snapshot_id == c.source_snapshot_id) cs

abbrev pub snapshot_of : List Cohort → String
snapshot_of [] = ""
snapshot_of (c ∷ cs) = c.source_snapshot_id

abbrev pub texts : List String → Json
texts ss = arr (array (map str ss))

abbrev pub mapping_versions : List Cohort → List String
mapping_versions cohorts =
    sort_texts (with_new [] (map (λ (c : Cohort). c.mapping_version) cohorts))

abbrev cohort_json : Cohort → Json
cohort_json c = obj (
    dict (
      ("file", str c.file)
      ∷ ("files", texts c.files)
      ∷ ("backends", texts c.backends)
      ∷ ("source_snapshot_id", str c.source_snapshot_id)
      ∷ ("mapping_version", str c.mapping_version)
      ∷ ("link_count", int (pos c.link_count))
      ∷ ("state", c.state)
      ∷ []))

-- `digest` is SHA-256 of the cohorts' JSON text, in hexadecimal.
module _ (digest : List Cohort → String) where
  unfoldable pub report : String → List Cohort → Dict
  report period_id cohorts = dict (
      ("format", str "moonproj.erp.period-close-control.v1")
      ∷ ("period_id", str period_id)
      ∷ ("source_snapshot_id", str (snapshot_of cohorts))
      ∷ ("mapping_versions", texts (mapping_versions cohorts))
      ∷ ("cohort_count", int (pos (length cohorts)))
      ∷ ("link_count", int (pos (total_links cohorts)))
      ∷ ("evidence_hash", str ("sha256:" ◂ digest cohorts))
      ∷ ("cohorts", arr (array (map cohort_json cohorts)))
      ∷ ("state", str "ready_for_reconciled_close")
      ∷ ("close_authorized", bool false)
      ∷ ("cash_released", bool false)
      ∷ ("period_posted", bool false)
      ∷ (
        "close_requires",
        texts (
            "named period owner approval" ∷ "native AccountingBook.close_reconciled"
            ∷ "rollback evidence retained" ∷ []),
      )
      ∷ [])

  unfoldable pub run : WorkDir → String → Checked Dict
  run w period_id = do
    raise_if (is_nil (strip period_id)) (failure "period_id must be non-empty")
    raise_if (is_empty w.reconciliations) (failure "no accounting reconciliation cohorts found")
    cohorts ← collect_cohorts w.file [] w.reconciliations
    raise_if (not (one_snapshot cohorts))
        (failure "reconciliation cohorts come from different source snapshots")
    ok (report period_id cohorts)
