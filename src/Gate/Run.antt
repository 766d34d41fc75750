-- ===== src/Gate/Run.antt =====
-- `run` and `main` of the cutover gate: the checks in their order, the open exceptions, the report
-- and the exit status.
use moonproj.Base.{
  ℕ, String, Bool, false, ok, err, ◌>>=◌, List, [], ◌∷◌, ◌++◌, get, is_text, if◌then◌else◌,
}
use moonproj.Evidence.{Checked, Entry, WorkDir, is_file, load_object}
use moonproj.Gate.Check.{Check, all_passed}
use moonproj.Gate.Scope.{
  source_staging, schema_scope, source_export_contract, source_export_request, schema_cohort_plan,
  foundation_security, workflow_control, cost_investment, procurement_contract, sales_receivables,
  delivery_treasury, reporting_notification, relationship_integrity, route_surface_inventory,
}
use moonproj.Gate.Control.{
  period_close_control, Target, Expected, target_database, backup_restore, sql_driver,
  production_deployment, production_service, row_coverage, business_acceptance, shadow_period,
}
use moonproj.Gate.Replay.{
  projection_parity, exception_review, replay_idempotency, accounting_reconciliation,
}

-- Each step appends its checks, or raises.
unfoldable pub collect : List (Checked (List Check)) → Checked (List Check)
collect [] = ok []
collect (step ∷ steps) = do checks ← step; rest ← collect steps; ok (checks ++ rest)

abbrev pub steps : Expected → Checked Target → WorkDir → List (Checked (List Check))
steps e database w =
    source_staging w
    ∷ schema_scope w
    ∷ source_export_contract w
    ∷ source_export_request w
    ∷ schema_cohort_plan w
    ∷ foundation_security w
    ∷ workflow_control w
    ∷ cost_investment w
    ∷ procurement_contract w
    ∷ sales_receivables w
    ∷ delivery_treasury w
    ∷ reporting_notification w
    ∷ relationship_integrity w
    ∷ route_surface_inventory w
    ∷ period_close_control w
    ∷ target_database e database
    ∷ backup_restore w
    ∷ sql_driver w
    ∷ production_deployment w
    ∷ production_service w
    ∷ row_coverage w
    ∷ business_acceptance w
    ∷ shadow_period w
    ∷ projection_parity w
    ∷ exception_review w
    ∷ replay_idempotency w
    ∷ accounting_reconciliation w
    ∷ []

-- The exceptions of the report, by their `id`.
pub data Exception : Type 0 where
  task_state production_database schema_coverage acceptance shadow : Exception

pub record Report : Type 0 where
  pub state : String
  pub technical_checks_passed : Bool
  pub cutover_authorized : Bool
  pub checks : List Check
  pub exceptions : List Exception

-- An exception stays open unless its evidence is there, in the given state.
unfoldable pub open_unless : String → Exception → Entry → Checked (List Exception)
open_unless settled exception entry =
    if is_file entry
    then (do
      d ← load_object entry
      ok (if is_text settled (get "state" d) then [] else exception ∷ []))
    else ok (exception ∷ [])

unfoldable pub report : List Check → List Exception → Report
report checks owner_exceptions = record {
  state =
      if all_passed checks then "ready_for_business_acceptance" else "blocked_by_technical_checks";
  technical_checks_passed = all_passed checks;
  cutover_authorized = false;
  checks = checks;
  exceptions = task_state ∷ production_database ∷ schema_coverage ∷ owner_exceptions;
}

unfoldable pub run : Expected → Checked Target → WorkDir → Checked Report
run e database w = do
  checks ← collect (steps e database w)
  acceptance_open ← open_unless "ready_for_shadow" acceptance (w.file "business-acceptance.json")
  shadow_open ← open_unless "shadow_ready" shadow (w.file "shadow-period.json")
  ok (report checks (acceptance_open ++ shadow_open))

-- The exit status. Any exception, whether `main` handles it or not, ends the script with 1;
-- `written` says whether the report could be written.
unfoldable pub exit_status : Bool → Checked Report → ℕ
exit_status written (ok report) =
    if written then (if report.technical_checks_passed then 0 else 1) else 1
exit_status written (err fault) = 1

unfoldable pub main : Bool → Expected → Checked Target → WorkDir → ℕ
main written e database w = exit_status written (run e database w)
