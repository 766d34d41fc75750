-- ===== src/PeriodClose/Tests.antt =====
-- A period close over two backends of one cohort.
use moonproj.Base.{
  ◌+◌, String, ◌≡◌, refl, true, false, List, [], ◌∷◌, ok, Json, bool, str, if◌then◌else◌, json_eq,
  strip,
}
use moonproj.Evidence.{WorkDir, load_object}
use moonproj.Evidence.Sample.{files, document, number}
use moonproj.Gate.Control.{period_close_passes}
use moonproj.PeriodClose.{
  Cohort, read_cohort, same_identity, add_cohort, collect_cohorts, total_links, report, run,
}
use moonproj.PeriodClose.Cohorts.{add_cohort-total_links}
use moonproj.PeriodClose.Gated.{run-period_close_passes}
use moonproj.Base.{any}

abbrev digest : List Cohort → String
digest cohorts = "00"

abbrev reconciliation : String → Json
reconciliation backend = document (
    ("format", str "moonproj.erp.accounting-reconciliation.v1")
    ∷ ("state", str "reconciled")
    ∷ ("integrity", str "ok")
    ∷ ("cash_released", bool false)
    ∷ ("period_posted", bool false)
    ∷ ("source_snapshot_id", str "s1")
    ∷ ("mapping_version", str "v1")
    ∷ ("link_count", number 9)
    ∷ ("backend", str backend)
    ∷ [])

abbrev work_dir : WorkDir
work_dir = record {
  file = files (
      ("a-reconciliation.json", reconciliation "sqlite")
      ∷ ("b-reconciliation.json", reconciliation "postgres")
      ∷ []);
  cohorts_dir = false;
  parity_paths = [];
  cohort_replays = [];
  reconciliations = "a-reconciliation.json" ∷ "b-reconciliation.json" ∷ [];
}

abbrev single : String → String → Cohort
single path backend = record {
  source_snapshot_id = "s1";
  mapping_version = "v1";
  link_count = 9;
  state = str "reconciled";
  file = path;
  files = path ∷ [];
  backends = backend ∷ [];
}

abbrev both : Cohort
both = record (single "a-reconciliation.json" "sqlite") {
  files = "a-reconciliation.json" ∷ "b-reconciliation.json" ∷ [];
  backends = "sqlite" ∷ "postgres" ∷ [];
}

written : run digest work_dir "2026-01" ≡ ok (report digest "2026-01" (both ∷ []))
unfolding run collect_cohorts add_cohort read_cohort load_object strip json_eq
written = refl

run-period_close_passes_example :
    period_close_passes (report digest "2026-01" (both ∷ [])) ≡ ok true
run-period_close_passes_example = run-period_close_passes digest work_dir "2026-01" written

joins :
    add_cohort
      (single "a-reconciliation.json" "sqlite" ∷ [])
      (single "b-reconciliation.json" "postgres")
    ≡ ok (both ∷ [])
unfolding add_cohort json_eq
joins = refl

add_cohort-total_links_example :
    total_links (both ∷ [])
    ≡ total_links (single "a-reconciliation.json" "sqlite" ∷ [])
      + (if any
            (λ x. same_identity x (single "b-reconciliation.json" "postgres"))
            (single "a-reconciliation.json" "sqlite" ∷ [])
          then 0
          else 9)
add_cohort-total_links_example =
    add_cohort-total_links (single "a-reconciliation.json" "sqlite" ∷ [])
      (single "b-reconciliation.json" "postgres") joins
