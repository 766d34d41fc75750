-- ===== src/Shadow/Tests.antt =====
-- A run of `validate` of scripts/company_shadow_period_check.py on a manifest and its evidence.
use moonproj.Base.{
  ◌≡◌, refl, true, false, [], ◌∷◌, ok, bool, str, arr, obj, nil, cons, Dict, dict, get, json_eq,
  strip,
}
use moonproj.Evidence.{WorkDir, load_value}
use moonproj.Evidence.Sample.{files, document, number, settled}
use moonproj.Evidence.Secrets.{has_secret, is_secret_key, reject_secrets}
use moonproj.Gate.Control.{shadow_passes}
use moonproj.Shadow.{
  validate, validate_object, terms, positive_int, parity_reports, verified_reports, any_unverified,
  load_values, coverage, reconciliations, any_unsettled, acceptance_decision, shadow_decision,
  result,
}
use moonproj.Shadow.Gated.{validate-shadow_passes}

abbrev work_dir : WorkDir
work_dir = record {
  file = files (
      ("projection-parity.json", document (("state", str "shadow_verified") ∷ []))
      ∷ (
        "row-coverage.json",
        document (
            ("state", str "row_coverage_verified")
            ∷ ("source_rows", number 120)
            ∷ ("covered_rows", number 120)
            ∷ []),
      )
      ∷ ("accounting-reconciliation.json", settled)
      ∷ (
        "business-acceptance.json",
        document (
            ("format", str "moonproj.erp.business-acceptance-result.v1")
            ∷ (
              "decisions",
              arr (
                  cons
                    (document
                      (("id", str "shadow-period") ∷ ("decision", str "accept_for_shadow") ∷ []))
                    nil),
            )
            ∷ []),
      )
      ∷ []);
  cohorts_dir = false;
  parity_paths = "projection-parity.json" ∷ [];
  cohort_replays = [];
  reconciliations = "accounting-reconciliation.json" ∷ [];
}

abbrev manifest : Dict
manifest = dict (
    ("format", str "moonproj.company.shadow-period.v1")
    ∷ ("period_id", str "2026-q1")
    ∷ ("owner_role", str "operations")
    ∷ ("rollback_runbook", str "runbook")
    ∷ ("legacy_authoritative", bool true)
    ∷ ("target_mode", str "read_only_shadow")
    ∷ ("target_mutations_allowed", bool false)
    ∷ ("duration_days", number 14)
    ∷ ("comparison_interval_hours", number 24)
    ∷ ("comparison_dimensions", arr (cons (str "amounts") nil))
    ∷ [])

abbrev contract : Dict
contract =
    result manifest (14, 24) (document (("state", str "shadow_verified") ∷ []) ∷ []) (settled ∷ [])
      (document (
        ("state", str "row_coverage_verified")
        ∷ ("source_rows", number 120)
        ∷ ("covered_rows", number 120)
        ∷ []))
      (str "accept_for_shadow")

written : validate work_dir (obj manifest) ≡ ok contract
unfolding validate validate_object terms positive_int parity_reports verified_reports any_unverified
    load_values coverage reconciliations any_unsettled acceptance_decision shadow_decision
    reject_secrets has_secret is_secret_key load_value strip
written = refl

validate-shadow_passes_example :
    shadow_passes contract ≡ ok (json_eq (get "source_rows" contract) (get "covered_rows" contract))
validate-shadow_passes_example = validate-shadow_passes work_dir (obj manifest) written
