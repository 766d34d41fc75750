-- ===== src/Gate/Replay.antt =====
-- The checks of `run` on the parity reports, the task-state exception and its preserved evidence,
-- the replays and the accounting reconciliations.
use moonproj.Base.{
  String, Bool, ◌&&◌, ◌||◌, not, true, false, ok, ◌>>=◌, and_then, pos, Json, int, arr, nil, cons,
  null, obj, end, Dict, List, [], ◌∷◌, ◌++◌, all, is_empty, get, get_or, items, is_false, is_int,
  is_text, is_true, is_null, is_dict, truthy, field_of, json_eq, if◌then◌else◌,
}
use moonproj.Evidence.{Checked, Entry, WorkDir, is_file, load_object, attribute_get}
use moonproj.Gate.Check.{Check, verdict}

-- `load` of every path, in order.
unfoldable pub load_all : (String → Entry) → List String → Checked (List Dict)
load_all file [] = ok []
load_all file (path ∷ paths) = do
  d ← load_object (file path)
  rest ← load_all file paths
  ok (d ∷ rest)

-- The same, passing over the paths where there is no file.
unfoldable pub load_present : (String → Entry) → List String → Checked (List Dict)
load_present file [] = ok []
load_present file (path ∷ paths) =
    let rest = load_present file paths in
    if is_file (file path) then (do d ← load_object (file path); ds ← rest; ok (d ∷ ds)) else rest

-- `bool(values) and all(...)`
abbrev pub every_some : (Dict → Bool) → List Dict → Bool
every_some p ds = not (is_empty ds) && all p ds

abbrev pub verified : Dict → Bool
verified d = is_text "shadow_verified" (get "state" d)

unfoldable pub projection_parity : WorkDir → Checked (List Check)
projection_parity w = do
  reports ← load_all w.file w.parity_paths
  ok (verdict "projection_parity" (every_some verified reports))

-- `item.get("decision") is None for item in … if isinstance(item, dict)`
abbrev pub undecided : Json → Bool
undecided item = not (is_dict item) || is_null (field_of "decision" item)

abbrev pub all_undecided : Json → Bool
all_undecided (arr xs) = truthy (arr xs) && all undecided (items xs)
all_undecided _ = false

unfoldable pub review_passes : Dict → Bool
review_passes d =
    is_text "moonproj.erp.task-state-exception-review.v1" (get "format" d)
    && is_text "review_required" (get "state" d)
    && all_undecided (get_or "exceptions" (arr nil) d)

-- `accepted_items[0]` where `accepted_items` is a list of one item, and `None` otherwise
abbrev pub only_item : Json → Json
only_item (arr (cons x nil)) = x
only_item _ = null

abbrev is_singleton : Json → Bool
is_singleton (arr (cons x nil)) = true
is_singleton _ = false

-- The target candidate of the one accepted item, or `{}`.
abbrev pub candidate_of : Json → Json
candidate_of (obj d) = get_or "target_candidate" (obj end) d
candidate_of _ = obj end

abbrev pub effect_free : Dict → Bool
effect_free d =
    is_true (get "decision_required" d)
    && is_false (get "target_state_mutated" d)
    && is_false (get "cash_released" d)
    && is_false (get "accounting_posted" d)
    && is_false (get "period_closed" d)

unfoldable pub promotion_terms : Dict → Bool
promotion_terms p =
    is_text "moonproj.erp.domain-promotion.v1" (get "format" p)
    && is_text "promoted_through_domain_importers" (get "state" p)
    && is_text "task-state-exception-evidence-v1" (get "cohort" p)
    && effect_free p
    && is_singleton (get_or "accepted_items" (arr nil) p)

-- The conjuncts on the candidate; a candidate that is no dict has no `get`.
unfoldable pub candidate_terms : Json → Checked Bool
candidate_terms c = do
  policy ← attribute_get "observation_policy" c
  ok (
      is_text "quarantined_source_evidence" policy
      && is_true (field_of "decision_required" c)
      && is_false (field_of "target_state_mutated" c)
      && is_null (field_of "decision" c)
      && is_null (field_of "decision_owner" c)
      && is_false (field_of "cash_released" c)
      && is_false (field_of "accounting_posted" c)
      && is_false (field_of "period_closed" c))

abbrev pub same_source : Dict → Dict → Bool
same_source d p =
    json_eq (get "source_snapshot_id" d) (get "source_snapshot_id" p)
    && json_eq (get "mapping_version" d) (get "mapping_version" p)

unfoldable pub parity_terms : Dict → Dict → Bool
parity_terms q p =
    is_text "moonproj.erp.projection-parity.v1" (get "format" q)
    && same_source q p
    && is_text "shadow_verified" (get "state" q)
    && is_int 1 (get "expected_items" q)
    && is_int 1 (get "actual_items" q)
    && json_eq (get "missing" q) (arr nil)
    && json_eq (get "extra" q) (arr nil)

unfoldable pub replay_terms : Dict → Dict → Bool
replay_terms r p =
    is_text "ok" (get "integrity" r)
    && same_source r p
    && is_int 0 (get "inserted_projections" r)
    && is_false (get "receipt_inserted" r)

-- `evidence_passed`, from the promotion, its parity, its replay and the review.
unfoldable pub evidence_passes : Dict → Dict → Dict → Dict → Checked Bool
unfolding promotion_terms candidate_terms parity_terms replay_terms
evidence_passes promotion parity replay review =
    let item : Json = only_item (get_or "accepted_items" (arr nil) promotion) in
    and_then (promotion_terms promotion) (do
      target ← attribute_get "target_type" item
      and_then (is_text "project_task_state_observation" target) (do
        quarantined ← candidate_terms (candidate_of item)
        ok (
            quarantined
            && same_source promotion review
            && parity_terms parity promotion
            && replay_terms replay promotion)))

-- Whether the three artifacts are there, and what they show if they are.
unfoldable pub observed_evidence : WorkDir → Dict → Checked Bool
unfolding evidence_passes
observed_evidence w review =
    let promotion : Entry = w.file "typed-cohorts/task-state-exception-evidence-promotion.json" in
    let parity : Entry =
      w.file "typed-cohorts/task-state-exception-evidence-projection-parity.json" in
    let replay : Entry =
      w.file "typed-cohorts/task-state-exception-evidence-projection-replay.json" in
    and_then (is_file promotion && is_file parity && is_file replay) (do
      p ← load_object promotion
      q ← load_object parity
      r ← load_object replay
      evidence_passes p q r review)

abbrev pub review_path : String
review_path = "typed-cohorts/task-state-exception-review.json"

-- With no review, a directory of typed cohorts fails both checks.
unfoldable pub exception_review : WorkDir → Checked (List Check)
unfolding observed_evidence review_passes
exception_review w =
    if is_file (w.file review_path)
    then (do
      review ← load_object (w.file review_path)
      evidence_passed ← observed_evidence w review
      ok (
          verdict "task_state_exception_review" (review_passes review)
          ++ verdict "task_state_exception_observed_evidence" evidence_passed))
    else if w.cohorts_dir
    then ok (
        verdict "task_state_exception_review" false
        ++ verdict "task_state_exception_observed_evidence" false)
    else ok []

abbrev pub replay_paths : List String
replay_paths =
    "projection-replay.json" ∷ "advance-offset-projection-replay.json"
    ∷ "accounting-link-replay.json" ∷ "advance-offset-accounting-link-replay.json"
    ∷ "payment-accounting-link-replay.json" ∷ "cbs-cost-link-replay.json" ∷ "cbs-budget-replay.json"
    ∷ "cbs-budget-source-replay.json" ∷ "workflow-assignment-replay.json"
    ∷ "delivery-progress-replay.json" ∷ "delivery-recognition-replay.json"
    ∷ "delivery-recognition-accounting-link-replay.json" ∷ "consolidated-report-replay.json"
    ∷ "investment-benchmark-replay.json" ∷ "warning-replay.json" ∷ "warning-source-replay.json"
    ∷ "notification-replay.json" ∷ "access-replay.json" ∷ "accounting-posting-replay.json"
    ∷ "opening-control-replay.json" ∷ "tax-filing-replay.json" ∷ "bank-statement-replay.json"
    ∷ "financing-facility-replay.json" ∷ "asset-lifecycle-replay.json"
    ∷ "treasury-plan-dispatch-replay.json" ∷ "invoice-subledger-replay.json"
    ∷ "procurement-cohort-replay.json" ∷ "investment-performance-replay.json" ∷ []

-- A replay that inserted nothing and wrote no receipt.
abbrev pub inserts_nothing : Dict → Bool
inserts_nothing d =
    is_int 0 (get_or "inserted_projections" (int (pos 0)) d)
    && is_int 0 (get_or "inserted_accounting_links" (int (pos 0)) d)
    && is_false (get "receipt_inserted" d)

unfoldable pub replay_idempotency : WorkDir → Checked (List Check)
replay_idempotency w = do
  replays ← load_present w.file (replay_paths ++ w.cohort_replays)
  ok (verdict "replay_idempotency" (every_some inserts_nothing replays))

abbrev pub reconciliation_paths : List String
reconciliation_paths =
    "accounting-reconciliation.json" ∷ "advance-offset-accounting-reconciliation.json"
    ∷ "payment-accounting-reconciliation.json" ∷ []

abbrev pub reconciled : Dict → Bool
reconciled d =
    is_text "reconciled" (get "state" d)
    && is_false (get "cash_released" d)
    && is_false (get "period_posted" d)

unfoldable pub accounting_reconciliation : WorkDir → Checked (List Check)
accounting_reconciliation w = do
  values ← load_present w.file reconciliation_paths
  ok (verdict "accounting_reconciliation" (every_some reconciled values))
