-- ===== src/Gate/Tests.antt =====
-- Runs of the cutover gate of scripts/company_migration_cutover_gate.py on the least evidence that
-- passes, and its theorems there.
use moonproj.Base.{
  String, ◌≡◌, refl, ◌↔◌, true, false, none, some, List, [], ◌∷◌, ok, Json, bool, pos, str, arr,
  nil, null, json_eq, cons, ◌+ℤ◌, All,
}
use moonproj.Evidence.{WorkDir, load_object}
use moonproj.Evidence.Sample.{files, document, number, settled}
use moonproj.Gate.Check.{Passes, required, optional}
use moonproj.Gate.Scope.{
  staging_passes, source_staging, schema_scope_passes, schema_scope, source_export_contract,
  source_export_request, schema_cohort_plan, foundation_security, workflow_control, cost_investment,
  procurement_contract, sales_receivables, delivery_treasury, reporting_notification,
  relationship_passes, relationship_integrity, route_passes, route_surface_inventory,
}
use moonproj.Gate.Control.{
  period_close_control, Target, Expected, counts_passed, target_database, backup_passes,
  backup_restore, driver_passes, sql_driver, production_deployment, production_service,
  row_coverage, business_acceptance, shadow_period,
}
use moonproj.Gate.Replay.{
  load_all, load_present, projection_parity, exception_review, observed_evidence, review_passes,
  evidence_passes, promotion_terms, candidate_terms, parity_terms, replay_terms, replay_idempotency,
  accounting_reconciliation,
}
use moonproj.Gate.Run.{collect, steps, open_unless, report, run, exit_status, main}
use moonproj.Gate.Soundness.{exit_zero_iff}
use moonproj.Gate.Cleared.{Cleared, main-Cleared}

-- A document with the source of the review.
abbrev from_snapshot : List (String × Json) → Json
from_snapshot fields =
    document (("source_snapshot_id", str "s1") ∷ ("mapping_version", str "m1") ∷ fields)

abbrev no_effect : List (String × Json)
no_effect =
    ("decision_required", bool true)
    ∷ ("target_state_mutated", bool false)
    ∷ ("cash_released", bool false)
    ∷ ("accounting_posted", bool false)
    ∷ ("period_closed", bool false)
    ∷ []

-- The observation that the evidence of the exception was promoted to.
abbrev observation : Json
observation = document (
    ("target_type", str "project_task_state_observation")
    ∷ (
      "target_candidate",
      document (("observation_policy", str "quarantined_source_evidence") ∷ no_effect),
    )
    ∷ [])

abbrev evidence : List (String × Json)
evidence =
    (
      "raw-staging.ndjson.manifest.json",
      document (
          ("format", str "moonproj.erp.raw-staging.v1")
          ∷ ("tables", arr (cons (document (("rows", number 120) ∷ [])) nil))
          ∷ []),
    )
    ∷ (
      "schema-gap.json",
      document (
          ("format", str "moonproj.erp.schema-gap.v1")
          ∷ ("schema_tables", number 75)
          ∷ ("present_tables", number 26)
          ∷ ("schema_only_tables", number 49)
          ∷ []),
    )
    ∷ (
      "relationship-audit.json",
      document (
          ("format", str "moonproj.erp.relationship-audit.v1")
          ∷ ("state", str "relationship_integrity_verified")
          ∷ ("relationship_count", number 5)
          ∷ ("orphan_count", number 0)
          ∷ []),
    )
    ∷ (
      "route-inventory.json",
      document (
          ("format", str "moonproj.erp.route-inventory.v1")
          ∷ ("state", str "route_surface_inventory_verified")
          ∷ ("route_file_count", number 30)
          ∷ ("handler_count", number 338)
          ∷ ("middleware_count", number 28)
          ∷ []),
    )
    ∷ ("backup-restore.json", document (("state", str "backup_restore_verified") ∷ []))
    ∷ (
      "driver-smoke.json",
      document (
          ("state", str "driver_transaction_verified")
          ∷ ("sql_command_verified", bool true)
          ∷ ("duplicate_rejected", bool true)
          ∷ []),
    )
    ∷ ("projection-parity.json", document (("state", str "shadow_verified") ∷ []))
    ∷ ("projection-replay.json", document (("receipt_inserted", bool false) ∷ []))
    ∷ ("accounting-reconciliation.json", settled)
    ∷ (
      "typed-cohorts/task-state-exception-review.json",
      from_snapshot (
          ("format", str "moonproj.erp.task-state-exception-review.v1")
          ∷ ("state", str "review_required")
          ∷ (
            "exceptions",
            arr (cons (document (("id", str "task-state") ∷ ("decision", null) ∷ [])) nil),
          )
          ∷ []),
    )
    ∷ (
      "typed-cohorts/task-state-exception-evidence-promotion.json",
      from_snapshot (
          ("format", str "moonproj.erp.domain-promotion.v1")
          ∷ ("state", str "promoted_through_domain_importers")
          ∷ ("cohort", str "task-state-exception-evidence-v1")
          ∷ ("accepted_items", arr (cons observation nil))
          ∷ no_effect),
    )
    ∷ (
      "typed-cohorts/task-state-exception-evidence-projection-parity.json",
      from_snapshot (
          ("format", str "moonproj.erp.projection-parity.v1")
          ∷ ("state", str "shadow_verified")
          ∷ ("expected_items", number 1)
          ∷ ("actual_items", number 1)
          ∷ ("missing", arr nil)
          ∷ ("extra", arr nil)
          ∷ []),
    )
    ∷ (
      "typed-cohorts/task-state-exception-evidence-projection-replay.json",
      from_snapshot (
          ("integrity", str "ok")
          ∷ ("inserted_projections", number 0)
          ∷ ("receipt_inserted", bool false)
          ∷ []),
    )
    ∷ []

abbrev work_dir : WorkDir
work_dir = record {
  file = files evidence;
  cohorts_dir = true;
  parity_paths = "projection-parity.json" ∷ [];
  cohort_replays = [];
  reconciliations = "accounting-reconciliation.json" ∷ [];
}

abbrev target : Target
target = record {
  integrity = "ok";
  schema_version = 4;
  company_record = 120;
  company_aggregate_projection = 40;
  company_accounting_event_link = 9;
}

abbrev expected : Expected
expected = record { raw = some (pos 120); projections = none; links = some (pos 9) }

cleared_gate : main true expected (ok target) work_dir ≡ 0
unfolding main exit_status report run open_unless collect accounting_reconciliation
    replay_idempotency load_present exception_review observed_evidence review_passes evidence_passes
    promotion_terms candidate_terms parity_terms replay_terms json_eq projection_parity load_all
    shadow_period business_acceptance row_coverage production_service production_deployment
    sql_driver driver_passes backup_restore backup_passes target_database counts_passed
    period_close_control route_surface_inventory route_passes relationship_integrity
    relationship_passes reporting_notification delivery_treasury sales_receivables
    procurement_contract cost_investment workflow_control foundation_security schema_cohort_plan
    source_export_request source_export_contract schema_scope schema_scope_passes source_staging
    staging_passes required optional load_object ◌+ℤ◌
cleared_gate = refl

exit_zero_iff_example :
    (main true expected (ok target) work_dir ≡ 0)
    ↔ ((true ≡ true) × All Passes (steps expected (ok target) work_dir))
exit_zero_iff_example = exit_zero_iff true expected (ok target) work_dir

main-Cleared_example : Cleared expected (ok target) work_dir
main-Cleared_example = main-Cleared true expected (ok target) work_dir cleared_gate
