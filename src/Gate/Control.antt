-- ===== src/Gate/Control.antt =====
-- The checks of `run` on the period close, the target database, the backup, the driver, the
-- deployment, the service, the row coverage, the acceptance and the shadow period.
use moonproj.Base.{
  ℕ, String, Bool, ◌&&◌, not, true, false, ok, ◌>>=◌, and_then, ℤ, pos, negsuc, Json, int, arr, str,
  nil, Dict, List, [], ◌∷◌, Option, none, some, get, get_or, eqb, is_false, is_int, is_text,
  is_true, truthy, json_eq, ◌==◌,
}
use text.Mathlib.Text.{starts_with}
use moonproj.Evidence.{Checked, WorkDir, is_one_of, is_positive}
use moonproj.Gate.Check.{Check, verdict, required, optional}

-- `isinstance(value, str) and bool(value)`
abbrev pub is_nonempty_text : Json → Bool
is_nonempty_text (str s) = truthy (str s)
is_nonempty_text _ = false

-- `isinstance(value, list) and bool(value)`
abbrev pub is_nonempty_list : Json → Bool
is_nonempty_list (arr xs) = truthy (arr xs)
is_nonempty_list _ = false

abbrev pub is_prefixed : String → Json → Bool
is_prefixed p (str s) = starts_with s p
is_prefixed p _ = false

unfoldable pub period_close_passes : Dict → Checked Bool
period_close_passes d =
    and_then
      (is_text "moonproj.erp.period-close-control.v1" (get "format" d)
        && is_text "ready_for_reconciled_close" (get "state" d)
        && is_nonempty_text (get "source_snapshot_id" d)
        && is_nonempty_list (get "mapping_versions" d)
        && is_prefixed "sha256:" (get "evidence_hash" d)
        && is_false (get "close_authorized" d)
        && is_false (get "cash_released" d)
        && is_false (get "period_posted" d))
      (is_positive (get_or "link_count" (int (pos 0)) d))

unfoldable pub period_close_control : WorkDir → Checked (List Check)
period_close_control w =
    optional "period_close_control" (w.file "period-close-control.json") period_close_passes

-- What `database_counts` reads from the target database.
pub record Target : Type 0 where
  pub integrity : String
  pub schema_version : ℕ
  pub company_record : ℕ
  pub company_aggregate_projection : ℕ
  pub company_accounting_event_link : ℕ

-- The counts that the caller of the gate expects, where it names them.
pub record Expected : Type 0 where
  pub raw : Option ℤ
  pub projections : Option ℤ
  pub links : Option ℤ

-- A negative count, which the arguments allow, agrees with none.
abbrev pub agrees : Option ℤ → ℕ → Bool
agrees none n = true
agrees (some (pos e)) n = eqb n e
agrees (some (negsuc e)) n = false

unfoldable pub counts_passed : Expected → Target → Bool
counts_passed e t =
    t.integrity == "ok"
    && eqb t.schema_version 4
    && agrees e.raw t.company_record
    && agrees e.projections t.company_aggregate_projection
    && agrees e.links t.company_accounting_event_link

unfoldable pub target_database : Expected → Checked Target → Checked (List Check)
target_database e database = do
  counts ← database
  ok (verdict "target_database" (counts_passed e counts))

abbrev unknown : Json
unknown = str "unknown"

unfoldable pub backup_passes : Dict → Checked Bool
backup_passes d = ok (is_text "backup_restore_verified" (get_or "state" unknown d))

unfoldable pub backup_restore : WorkDir → Checked (List Check)
backup_restore w = required "backup_restore" (w.file "backup-restore.json") backup_passes

unfoldable pub driver_passes : Dict → Checked Bool
driver_passes d = ok (
    is_text "driver_transaction_verified" (get_or "state" unknown d)
    && is_true (get "sql_command_verified" d)
    && is_true (get "duplicate_rejected" d))

unfoldable pub sql_driver : WorkDir → Checked (List Check)
sql_driver w = required "sql_driver" (w.file "driver-smoke.json") driver_passes

unfoldable pub deployment_passes : Dict → Checked Bool
deployment_passes d =
    and_then (is_text "moonproj.company.production-deployment-gate.v1" (get "format" d))
      (is_one_of ("ready_for_owner_review" ∷ "ready_for_managed_deployment" ∷ []) (get "state" d))

unfoldable pub production_deployment : WorkDir → Checked (List Check)
production_deployment w =
    optional "production_deployment_contract" (w.file "production-deployment-gate.json")
      deployment_passes

unfoldable pub service_passes : Dict → Checked Bool
service_passes d =
    and_then (is_text "moonproj.company.production-service-gate.v1" (get "format" d)) (do
      known ←
          is_one_of ("ready_for_service_review" ∷ "ready_for_production_service" ∷ [])
            (get "state" d)
      ok (
          known
          && is_false (get "arbitrary_sql" d)
          && json_eq (get "mutation_endpoints" d) (arr nil)))

unfoldable pub production_service : WorkDir → Checked (List Check)
production_service w =
    optional "production_service_contract" (w.file "production-service-gate.json") service_passes

unfoldable pub coverage_passes : Dict → Checked Bool
coverage_passes d = ok (
    is_text "moonproj.erp.row-coverage.v1" (get "format" d)
    && is_text "row_coverage_verified" (get "state" d)
    && is_int 120 (get "source_rows" d)
    && is_int 120 (get "covered_rows" d)
    && is_int 0 (get "uncovered_rows" d)
    && not (truthy (get "uncovered_tables" d))
    && is_false (get "promotion_authorized" d))

unfoldable pub row_coverage : WorkDir → Checked (List Check)
row_coverage w = optional "row_coverage" (w.file "row-coverage.json") coverage_passes

unfoldable pub acceptance_passes : Dict → Checked Bool
acceptance_passes d =
    and_then (is_text "moonproj.erp.business-acceptance-result.v1" (get "format" d)) (do
      known ← is_one_of ("acceptance_pending" ∷ "ready_for_shadow" ∷ []) (get "state" d)
      ok (known && is_int 5 (get "required_decisions" d) && is_false (get "cutover_authorized" d)))

unfoldable pub business_acceptance : WorkDir → Checked (List Check)
business_acceptance w =
    optional "business_acceptance_packet" (w.file "business-acceptance.json") acceptance_passes

-- The conjuncts of the shadow check from `legacy_authoritative` on.
unfoldable pub shadow_terms : Dict → Checked Bool
shadow_terms d =
    and_then
      (is_true (get "legacy_authoritative" d)
        && is_text "read_only_shadow" (get "target_mode" d)
        && is_false (get "target_mutations_allowed" d)
        && is_false (get "cutover_authorized" d))
      (do
        reported ← is_positive (get_or "parity_report_count" (int (pos 0)) d)
        ok (reported && json_eq (get "source_rows" d) (get "covered_rows" d)))

unfoldable pub shadow_passes : Dict → Checked Bool
unfolding shadow_terms
shadow_passes d = and_then (is_text "moonproj.company.shadow-period-result.v1" (get "format" d)) (do
  known ← is_one_of ("shadow_pending_owner" ∷ "shadow_ready" ∷ []) (get "state" d)
  and_then known (shadow_terms d))

unfoldable pub shadow_period : WorkDir → Checked (List Check)
shadow_period w = optional "shadow_period_contract" (w.file "shadow-period.json") shadow_passes
