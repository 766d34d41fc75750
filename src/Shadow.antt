-- ===== src/Shadow.antt =====
-- scripts/company_shadow_period_check.py: the contract of the read-only shadow period.
pub mod Gated
mod Tests
use moonproj.Base.{
  ℕ, zero, suc, ◌≡◌, String, Bool, true, false, not, ◌&&◌, ◌||◌, ok, err, ◌>>=◌, ◌>>◌, raise_if,
  Json, bool, int, str, arr, obj, null, nil, pos, negsuc, Items, Dict, dict, get, get_or, is_true,
  is_false, is_text, is_filled, is_dict, field_of, truthy, items, all, any, is_empty, length, leb,
  ltb, List, [], ◌∷◌, if◌then◌else◌,
}
use moonproj.Evidence.{
  Checked, Entry, WorkDir, failure, load_value, attribute_get, attribute_get_or, iterate,
}
use moonproj.Evidence.Secrets.{reject_secrets}

-- `positive_int(value, name, maximum)`
unfoldable pub positive_int : Json → ℕ → Checked ℕ
positive_int (int (pos n)) maximum = do
  raise_if (leb n 0) (failure "must be a positive integer")
  raise_if (ltb maximum n) (failure "exceeds the maximum")
  ok n
positive_int _ maximum = err (failure "must be a positive integer")

abbrev is_text_value : Json → Bool
is_text_value (str s) = true
is_text_value _ = false

-- `isinstance(value, list) and value and all(isinstance(item, str) for item in value)`
abbrev is_text_list : Json → Bool
is_text_list (arr xs) = truthy (arr xs) && all is_text_value (items xs)
is_text_list _ = false

-- The terms of the manifest, before any evidence is read; the result is the two durations.
terms : Dict → Checked (ℕ × ℕ)
unfolding positive_int
terms m = do
  raise_if (not (is_text "moonproj.company.shadow-period.v1" (get "format" m)))
      (failure "unsupported shadow-period format")
  raise_if (not (is_filled (get "period_id" m))) (failure "missing non-empty field: period_id")
  raise_if (not (is_filled (get "owner_role" m))) (failure "missing non-empty field: owner_role")
  raise_if (not (is_filled (get "rollback_runbook" m)))
      (failure "missing non-empty field: rollback_runbook")
  raise_if (not (is_true (get "legacy_authoritative" m)))
      (failure "legacy_authoritative must remain true during shadow")
  raise_if (not (is_text "read_only_shadow" (get "target_mode" m)))
      (failure "target_mode must be read_only_shadow")
  raise_if (not (is_false (get "target_mutations_allowed" m)))
      (failure "target mutations must be disabled during shadow")
  duration_days ← positive_int (get "duration_days" m) 90
  comparison_interval_hours ← positive_int (get "comparison_interval_hours" m) 168
  raise_if (not (is_text_list (get "comparison_dimensions" m)))
      (failure "comparison_dimensions must be a non-empty string array")
  ok (duration_days, comparison_interval_hours)

-- `[load(path) for path in paths]`
unfoldable pub load_values : (String → Entry) → List String → Checked (List Json)
load_values file [] = ok []
load_values file (path ∷ paths) = do
  v ← load_value (file path)
  vs ← load_values file paths
  ok (v ∷ vs)

-- `any(report.get("state") != "shadow_verified" for report in reports)`
any_unverified : List Json → Checked Bool
any_unverified [] = ok false
any_unverified (report ∷ reports) =
    let rest = any_unverified reports in
    (do
      state ← attribute_get "state" report
      if not (is_text "shadow_verified" state) then ok true else rest)

verified_reports : List Json → Checked (List Json)
unfolding any_unverified
verified_reports reports = do
  unverified ← (if is_empty reports then ok true else any_unverified reports)
  raise_if unverified (failure "all projection parity reports must be shadow_verified")
  ok reports

parity_reports : WorkDir → Checked (List Json)
unfolding verified_reports load_values
parity_reports w = do reports ← load_values w.file w.parity_paths; verified_reports reports

-- The row coverage; reading its state has shown that it is a dict.
coverage : WorkDir → Checked Json
coverage w = do
  row_coverage ← load_value (w.file "row-coverage.json")
  state ← attribute_get "state" row_coverage
  raise_if (not (is_text "row_coverage_verified" state)) (failure "row coverage is not verified")
  ok row_coverage

-- One reconciliation is unsettled or has external effects.
abbrev unsettled : Json → Bool
unsettled item =
    not (is_text "reconciled" (field_of "state" item))
    || not (is_false (field_of "cash_released" item))
    || not (is_false (field_of "period_posted" item))

any_unsettled : List Json → Checked Bool
any_unsettled [] = ok false
any_unsettled (item ∷ rest) =
    let later = any_unsettled rest in
    (do state ← attribute_get "state" item; if unsettled item then ok true else later)

reconciliations : WorkDir → Checked (List Json)
unfolding any_unsettled load_values
reconciliations w = do
  values ← load_values w.file w.reconciliations
  bad ← (if is_empty values then ok true else any_unsettled values)
  raise_if bad (failure "accounting reconciliation evidence is missing or has external effects")
  ok values

-- The decision on the shadow period: the last entry of that id.
shadow_decision : Json → List Json → Json
shadow_decision found [] = found
shadow_decision found (d ∷ ds) =
    shadow_decision
      (if is_dict d && is_text "shadow-period" (field_of "id" d)
        then field_of "decision" d
        else found)
      ds

acceptance_decision : WorkDir → Checked Json
unfolding shadow_decision
acceptance_decision w = do
  acceptance ← load_value (w.file "business-acceptance.json")
  format ← attribute_get "format" acceptance
  raise_if (not (is_text "moonproj.erp.business-acceptance-result.v1" format))
      (failure "business acceptance packet is missing or invalid")
  decisions ← attribute_get_or "decisions" (arr nil) acceptance
  entries ← iterate decisions
  ok (shadow_decision null entries)

unfoldable pub result : Dict → ℕ × ℕ → List Json → List Json → Json → Json → Dict
result m (duration_days, comparison_interval_hours) parity reconciled row_coverage decision =
    let authorized : Bool = is_text "accept_for_shadow" decision in
    dict (
      ("format", str "moonproj.company.shadow-period-result.v1")
      ∷ ("period_id", get "period_id" m)
      ∷ ("state", str (if authorized then "shadow_ready" else "shadow_pending_owner"))
      ∷ ("legacy_authoritative", bool true)
      ∷ ("target_mode", str "read_only_shadow")
      ∷ ("target_mutations_allowed", bool false)
      ∷ ("duration_days", int (pos duration_days))
      ∷ ("comparison_interval_hours", int (pos comparison_interval_hours))
      ∷ ("comparison_dimensions", get "comparison_dimensions" m)
      ∷ ("parity_report_count", int (pos (length parity)))
      ∷ ("reconciliation_report_count", int (pos (length reconciled)))
      ∷ ("source_rows", field_of "source_rows" row_coverage)
      ∷ ("covered_rows", field_of "covered_rows" row_coverage)
      ∷ ("owner_role", get "owner_role" m)
      ∷ ("rollback_runbook", get "rollback_runbook" m)
      ∷ ("shadow_authorized", bool authorized)
      ∷ ("cutover_authorized", bool false)
      ∷ [])

validate_object : WorkDir → Dict → Checked Dict
unfolding terms
validate_object w m = do
  durations ← terms m
  parity ← parity_reports w
  row_coverage ← coverage w
  reconciled ← reconciliations w
  decision ← acceptance_decision w
  ok (result m durations parity reconciled row_coverage decision)

pub validate : WorkDir → Json → Checked Dict
unfolding validate_object
validate w (obj m) = do reject_secrets (obj m); validate_object w m
validate w _ = err (failure "shadow manifest must be an object")
