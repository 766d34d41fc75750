-- ===== src/Acceptance/Tests.antt =====
-- A run of `validate` of scripts/company_business_acceptance_check.py on decisions that all accept.
use moonproj.Base.{
  String, ◌≡◌, refl, true, false, List, [], ◌∷◌, map, ok, Json, bool, str, arr, obj, nil, cons,
  Dict, dict, get, array, All, strip,
}
use moonproj.Evidence.{WorkDir, load_value}
use moonproj.Evidence.Sample.{files, document}
use moonproj.Evidence.Secrets.{has_secret, is_secret_key, reject_secrets}
use moonproj.Gate.Control.{acceptance_passes}
use moonproj.Acceptance.{
  shadow_required, list_of, ById, role_of, check_decision, add_decision, collect_decisions,
  authorized, result, snapshot_of, validate_object, validate,
}
use moonproj.Acceptance.Gated.{validate-acceptance_passes, authorized-Accepted, Accepted}

abbrev repr : Json → String
repr value = "None"

abbrev work_dir : WorkDir
work_dir = record {
  file = files (
      (
        "source-export-contract.json",
        document (
            ("format", str "moonproj.erp.export-contract.v1") ∷ ("source_sha256", str "ab12") ∷ []),
      )
      ∷ ("row-coverage.json", document (("format", str "moonproj.erp.row-coverage.v1") ∷ []))
      ∷ []);
  cohorts_dir = false;
  parity_paths = [];
  cohort_replays = [];
  reconciliations = [];
}

abbrev accepting : String → String → Dict
accepting id owner_role = dict (
    ("id", str id)
    ∷ ("owner_role", str owner_role)
    ∷ ("decision", str "accept_for_shadow")
    ∷ ("decided_by", str "lead")
    ∷ ("decided_at", str "2026-01-05")
    ∷ ("rationale", str "reviewed")
    ∷ ("evidence_refs", arr (cons (str "cutover-gate.json") nil))
    ∷ [])

abbrev decisions : ById
decisions =
    ("task-state-proj-0001", accepting "task-state-proj-0001" "business")
    ∷ ("erp-schema-coverage", accepting "erp-schema-coverage" "migration-owner")
    ∷ ("production-database-deployment", accepting "production-database-deployment" "operations")
    ∷ ("accounting-reconciliation", accepting "accounting-reconciliation" "finance")
    ∷ ("shadow-period", accepting "shadow-period" "operations")
    ∷ []

abbrev manifest : Dict
manifest = dict (
    ("format", str "moonproj.erp.business-acceptance.v1")
    ∷ ("source_snapshot_id", str "from-source-export-evidence")
    ∷ ("decisions", arr (array (map (λ (e : String × Dict). obj e.1) decisions)))
    ∷ [])

abbrev packet : Dict
packet =
    result (str "erp-snapshot:ab12")
      (document
        (("format", str "moonproj.erp.export-contract.v1") ∷ ("source_sha256", str "ab12") ∷ []))
      (document (("format", str "moonproj.erp.row-coverage.v1") ∷ [])) (get "decisions" manifest)
      decisions

written : validate repr work_dir (obj manifest) ≡ ok packet
unfolding validate validate_object snapshot_of collect_decisions add_decision check_decision role_of
    reject_secrets has_secret is_secret_key load_value strip
written = refl

granted : get "shadow_authorized" packet ≡ bool true
unfolding result authorized
granted = refl

validate-acceptance_passes_example : acceptance_passes packet ≡ ok true
validate-acceptance_passes_example = validate-acceptance_passes repr work_dir (obj manifest) written

authorized-Accepted_example :
    (es : List Json) × (list_of (get "decisions" manifest) ≡ ok es)
    × All (Accepted es) shadow_required
authorized-Accepted_example = authorized-Accepted repr work_dir manifest written granted
