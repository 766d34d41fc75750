-- ===== src/Gate/Scope.antt =====
-- The checks of `run` on the staging, the schema scope, the export contract, the schema-only
-- cohorts, the relationships and the routes.
use moonproj.Base.{
  ℕ, String, Bool, ◌&&◌, false, ok, ◌>>=◌, and_then, ltb_ℤ, ℤ, pos, ◌+ℤ◌, Json, int, arr, nil, Dict,
  List, [], ◌∷◌, all, get, get_or, items, count, eqb, is_false, is_int, is_text, is_true, is_dict,
  field_of,
}
use moonproj.Evidence.{Checked, WorkDir, attribute_get_or, iterate, is_positive, len_of, to_int}
use moonproj.Gate.Check.{Check, required, optional}

-- `isinstance(value, list) and len(value) == n`
abbrev pub has_items : ℕ → Json → Bool
has_items n (arr xs) = eqb (count xs) n
has_items n _ = false

sum_rows : List Json → Checked ℤ
sum_rows [] = ok (pos 0)
sum_rows (table ∷ tables) = do
  rows ← attribute_get_or "rows" (int (pos 0)) table
  n ← to_int rows
  rest ← sum_rows tables
  ok (n +ℤ rest)

unfoldable pub staging_passes : Dict → Checked Bool
unfolding sum_rows
staging_passes d = do
  tables ← iterate (get_or "tables" (arr nil) d)
  staged_rows ← sum_rows tables
  ok (is_text "moonproj.erp.raw-staging.v1" (get "format" d) && ltb_ℤ (pos 0) staged_rows)

unfoldable pub source_staging : WorkDir → Checked (List Check)
source_staging w =
    required "source_staging" (w.file "raw-staging.ndjson.manifest.json") staging_passes

unfoldable pub schema_scope_passes : Dict → Checked Bool
schema_scope_passes d = ok (
    is_text "moonproj.erp.schema-gap.v1" (get "format" d)
    && is_int 75 (get "schema_tables" d)
    && is_int 26 (get "present_tables" d)
    && is_int 49 (get "schema_only_tables" d))

unfoldable pub schema_scope : WorkDir → Checked (List Check)
schema_scope w = required "schema_scope" (w.file "schema-gap.json") schema_scope_passes

-- `len(missing_tables)` is taken for the report too, so it raises whatever the verdict.
unfoldable pub export_contract_passes : Dict → Checked Bool
export_contract_passes d = do
  missing ← len_of (get_or "missing_tables" (arr nil) d)
  ok (
      is_text "moonproj.erp.export-contract.v1" (get "format" d)
      && is_true (get "content_verified" d)
      && is_int 75 (get "schema_tables" d)
      && is_int 26 (get "export_tables" d)
      && is_int 26 (get "present_tables" d)
      && eqb missing 49
      && is_false (get "promotion_authorized" d))

unfoldable pub source_export_contract : WorkDir → Checked (List Check)
source_export_contract w =
    optional "source_export_contract" (w.file "source-export-contract.json") export_contract_passes

unfoldable pub export_request_passes : Dict → Checked Bool
export_request_passes d = ok (
    is_text "moonproj.erp.source-export-request.v1" (get "format" d)
    && is_text "awaiting_source_export" (get "state" d)
    && is_int 75 (get "schema_tables" d)
    && is_int 26 (get "present_tables" d)
    && is_int 49 (get "requested_tables" d)
    && is_false (get "cutover_authorized" d)
    && is_false (get "promotion_authorized" d)
    && has_items 49 (get_or "tables" (arr nil) d))

unfoldable pub source_export_request : WorkDir → Checked (List Check)
source_export_request w =
    optional "source_export_request" (w.file "source-export-request.json") export_request_passes

unfoldable pub cohort_plan_passes : Dict → Checked Bool
cohort_plan_passes d = ok (
    is_text "moonproj.erp.schema-cohort-plan.v1" (get "format" d)
    && is_int 49 (get "schema_only_tables" d)
    && has_items 7 (get_or "waves" (arr nil) d)
    && is_false (get "cutover_authorized" d))

unfoldable pub schema_cohort_plan : WorkDir → Checked (List Check)
schema_cohort_plan w =
    optional "schema_cohort_plan" (w.file "schema-cohort-plan.json") cohort_plan_passes

-- `isinstance(item, dict) and item.get("promotion_authorized") is False`
abbrev pub unpromoted : Json → Bool
unpromoted item = is_dict item && is_false (field_of "promotion_authorized" item)

abbrev all_unpromoted : Json → Bool
all_unpromoted (arr xs) = all unpromoted (items xs)
all_unpromoted _ = false

-- The test that the seven schema-only cohorts share, on the cohort's wave and number of tables.
unfoldable pub mapping_passes : String → ℕ → Dict → Checked Bool
mapping_passes wave tables d =
    let mapped : Json = get_or "tables" (arr nil) d in
    ok (
      is_text "moonproj.erp.schema-cohort-mapping-result.v1" (get "format" d)
      && is_text wave (get "wave" d)
      && is_text "mapped_scope_only" (get "state" d)
      && is_int tables (get "mapped_tables" d)
      && is_int 0 (get "source_rows_available" d)
      && is_false (get "promotion_authorized" d)
      && has_items tables mapped
      && all_unpromoted mapped)

unfoldable pub foundation_security : WorkDir → Checked (List Check)
foundation_security w =
    optional "foundation_security_schema_mapping" (w.file "schema-foundation-security.json")
      (mapping_passes "foundation-security" 6)

unfoldable pub workflow_control : WorkDir → Checked (List Check)
workflow_control w =
    optional "workflow_control_schema_mapping" (w.file "schema-workflow-control.json")
      (mapping_passes "workflow-control" 7)

unfoldable pub cost_investment : WorkDir → Checked (List Check)
cost_investment w =
    optional "cost_investment_schema_mapping" (w.file "schema-cost-investment.json")
      (mapping_passes "cost-investment" 9)

unfoldable pub procurement_contract : WorkDir → Checked (List Check)
procurement_contract w =
    optional "procurement_contract_schema_mapping" (w.file "schema-procurement-contract.json")
      (mapping_passes "procurement-contract" 7)

unfoldable pub sales_receivables : WorkDir → Checked (List Check)
sales_receivables w =
    optional "sales_receivables_schema_mapping" (w.file "schema-sales-receivables.json")
      (mapping_passes "sales-receivables" 8)

unfoldable pub delivery_treasury : WorkDir → Checked (List Check)
delivery_treasury w =
    optional "delivery_treasury_schema_mapping" (w.file "schema-delivery-treasury.json")
      (mapping_passes "delivery-treasury" 8)

unfoldable pub reporting_notification : WorkDir → Checked (List Check)
reporting_notification w =
    optional "reporting_notification_schema_mapping" (w.file "schema-reporting-notification.json")
      (mapping_passes "reporting-notification" 4)

unfoldable pub relationship_passes : Dict → Checked Bool
relationship_passes d =
    and_then
      (is_text "moonproj.erp.relationship-audit.v1" (get "format" d)
        && is_text "relationship_integrity_verified" (get "state" d))
      (do
        counted ← is_positive (get_or "relationship_count" (int (pos 0)) d)
        ok (counted && is_int 0 (get "orphan_count" d)))

unfoldable pub relationship_integrity : WorkDir → Checked (List Check)
relationship_integrity w =
    required "relationship_integrity" (w.file "relationship-audit.json") relationship_passes

unfoldable pub route_passes : Dict → Checked Bool
route_passes d = ok (
    is_text "moonproj.erp.route-inventory.v1" (get "format" d)
    && is_text "route_surface_inventory_verified" (get "state" d)
    && is_int 30 (get "route_file_count" d)
    && is_int 338 (get "handler_count" d)
    && is_int 28 (get "middleware_count" d))

unfoldable pub route_surface_inventory : WorkDir → Checked (List Check)
route_surface_inventory w =
    required "route_surface_inventory" (w.file "route-inventory.json") route_passes
