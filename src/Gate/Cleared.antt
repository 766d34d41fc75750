-- ===== src/Gate/Cleared.antt =====
-- The facts on the evidence that a cleared cutover gate stands for
-- (scripts/company_migration_cutover_gate.py).
use moonproj.Base.{
  all, ℕ, String, ◌≡◌, ◌≢◌, Bool, true, ok, >>=-eq-ok, ok-injective, Dict, List, [], ◌∷◌, ◌++◌, All,
  ◌⊎◌, arith, Option, none, some, some-eq, ℤ, pos, negsuc, ap, ◌∙◌, eqb, get, is_int, eq_iff, sym,
}
use moonproj.Evidence.{Checked, Entry, WorkDir, is_file}
use moonproj.Gate.Check.{Check, all_passed, Passes, verdict}
use moonproj.Gate.Scope.{relationship_integrity, relationship_passes}
use moonproj.Gate.Control.{Target, Expected, agrees, counts_passed, target_database}
use moonproj.Gate.Replay.{
  load_all, load_present, every_some, projection_parity, replay_idempotency,
  accounting_reconciliation, verified, inserts_nothing, reconciled, replay_paths,
  reconciliation_paths, review_path,
}
use moonproj.Gate.Exception.{Undecided, exception_review-Undecided}
use moonproj.Gate.Run.{main}
use moonproj.Gate.Soundness.{
  Shown, Passes-required, load_all-Shown, load_present-Shown, exit_zero_iff,
}

-- Every path of the list that holds a file holds an object that meets the test.
abbrev pub ShownWhereThere : (String → Entry) → (Dict → Bool) → List String → Type 0
ShownWhereThere file p = All (λ path. is_file (file path) ≡ true → Shown file p path)

-- The verdict of a check that passed.
verdict-passed :
    (name : String) {b : Bool} {cs : List Check}
    → ◌≡◌ {A = Checked (List Check)} (ok (verdict name b)) (ok cs)
    → all_passed cs ≡ true
    → b ≡ true
verdict-passed name {b} {cs} h p = ground arith

agrees-eq : (o : Option ℤ) {n : ℕ} {z : ℤ} → agrees o n ≡ true → o ≡ some z → z ≡ pos n
agrees-eq none h e = absurd (cc e)
agrees-eq (some (pos k)) {n} h e = sym (some-eq e) ∙ ap pos (same k n h)
  where
    same : (k n : ℕ) → eqb n k ≡ true → k ≡ n
    same k n h = ground arith
agrees-eq (some (negsuc k)) h e = absurd (cc h)

-- What the target database holds when its check has passed.
pub record Agrees (e : Expected) (t : Target) : Type 0 where
  pub sound : t.integrity ≡ "ok"
  pub version : t.schema_version ≡ 4
  pub records : (z : ℤ) → e.raw ≡ some z → z ≡ pos t.company_record
  pub projections : (z : ℤ) → e.projections ≡ some z → z ≡ pos t.company_aggregate_projection
  pub links : (z : ℤ) → e.links ≡ some z → z ≡ pos t.company_accounting_event_link

counts_passed-Agrees : (e : Expected) (t : Target) → counts_passed e t ≡ true → Agrees e t
unfolding counts_passed
counts_passed-Agrees e t h = record {
  sound = ground (arith, eq_iff t.integrity "ok");
  version = ground arith;
  records = λ n k. agrees-eq e.raw (ground arith) k;
  projections = λ n k. agrees-eq e.projections (ground arith) k;
  links = λ n k. agrees-eq e.links (ground arith) k;
}

target_database-Agrees :
    (e : Expected) (db : Checked Target)
    → Passes (target_database e db)
    → (t : Target) × (db ≡ ok t) × Agrees e t
unfolding target_database
target_database-Agrees e db (cs, h, p) =
    let (t, et, h1) = >>=-eq-ok db _ h in
    (t, et, counts_passed-Agrees e t (verdict-passed "target_database" h1 p))

every_some-split :
    (p : Dict → Bool) (ds : List Dict) → every_some p ds ≡ true → (ds ≢ []) × (all p ds ≡ true)
every_some-split p [] h = (λ e. cc, cc)
every_some-split p (d ∷ ds) h = (λ e. cc, h)

load_all-nil :
    (file : String → Entry) (paths : List String) {ds : List Dict}
    → load_all file paths ≡ ok ds
    → paths ≡ []
    → ds ≡ []
unfolding load_all
load_all-nil file [] h e = sym (ok-injective h)
load_all-nil file (path ∷ paths) h e = cc

parity-Shown :
    (w : WorkDir)
    → Passes (projection_parity w)
    → (w.parity_paths ≢ []) × All (Shown w.file verified) w.parity_paths
unfolding projection_parity
parity-Shown w (cs, h, p) =
    let (ds, ed, h1) = >>=-eq-ok (load_all w.file w.parity_paths) _ h in
    let (ne, all_ok) = every_some-split verified ds (verdict-passed "projection_parity" h1 p) in
    (
      λ none_listed. ne (load_all-nil w.file w.parity_paths ed none_listed),
      load_all-Shown w.file verified w.parity_paths ed all_ok,
    )

replays-Shown :
    (w : WorkDir)
    → Passes (replay_idempotency w)
    → ShownWhereThere w.file inserts_nothing (replay_paths ++ w.cohort_replays)
unfolding replay_idempotency
replays-Shown w (cs, h, p) =
    let paths : List String = replay_paths ++ w.cohort_replays in
    let (ds, ed, h1) = >>=-eq-ok (load_present w.file paths) _ h in
    let (ne, all_ok) =
      every_some-split inserts_nothing ds (verdict-passed "replay_idempotency" h1 p) in
    load_present-Shown w.file inserts_nothing paths ed all_ok

reconciliations-Shown :
    (w : WorkDir)
    → Passes (accounting_reconciliation w)
    → ShownWhereThere w.file reconciled reconciliation_paths
unfolding accounting_reconciliation
reconciliations-Shown w (cs, h, p) =
    let (ds, ed, h1) = >>=-eq-ok (load_present w.file reconciliation_paths) _ h in
    let (ne, all_ok) =
      every_some-split reconciled ds (verdict-passed "accounting_reconciliation" h1 p) in
    load_present-Shown w.file reconciled reconciliation_paths ed all_ok

-- No row of the relationship audit is an orphan.
abbrev pub orphan_free : Dict → Bool
orphan_free d = is_int 0 (get "orphan_count" d)

relationships-Shown :
    (w : WorkDir)
    → Passes (relationship_integrity w)
    → Shown w.file orphan_free "relationship-audit.json"
unfolding relationship_integrity relationship_passes
relationships-Shown w h =
    let (d, ed, t) =
      Passes-required "relationship_integrity" (w.file "relationship-audit.json")
        relationship_passes h in
    (d, ed, ground arith)

pub record Cleared (e : Expected) (db : Checked Target) (w : WorkDir) : Type 0 where
  pub target : (t : Target) × (db ≡ ok t) × Agrees e t
  pub relationships : Shown w.file orphan_free "relationship-audit.json"
  pub some_parity : w.parity_paths ≢ []
  pub parity : All (Shown w.file verified) w.parity_paths
  pub replays : ShownWhereThere w.file inserts_nothing (replay_paths ++ w.cohort_replays)
  pub reconciliations : ShownWhereThere w.file reconciled reconciliation_paths
  pub reviewed : (w.cohorts_dir ≡ true) ⊎ (is_file (w.file review_path) ≡ true) → Undecided w.file

-- Exit status 0 stands for these facts: the target database is sound, at schema version 4 and has
-- each count that the caller names; the relationship audit found no orphan; there is a parity
-- report and every one is verified; every replay that was recorded inserted nothing and wrote no
-- receipt; every reconciliation that is there is reconciled, released no cash and posted no period;
-- and where there are typed cohorts, or a review of the task-state exception, the review lists
-- exceptions of which none is decided, and the evidence behind it is promoted without an effect on
-- the target, compared and not inserted again, all from one source.
pub main-Cleared :
    (written : Bool) (e : Expected) (db : Checked Target) (w : WorkDir)
    → main written e db w ≡ 0
    → Cleared e db w
main-Cleared written e db w h =
    let ps = ((exit_zero_iff written e db w).0 h).1 in
    let (ne, verified_all) = parity-Shown w ps.1.1.1.1.1.1.1.1.1.1.1.1.1.1.1.1.1.1.1.1.1.1.1.0 in
    record {
      target = target_database-Agrees e db ps.1.1.1.1.1.1.1.1.1.1.1.1.1.1.1.0;
      relationships = relationships-Shown w ps.1.1.1.1.1.1.1.1.1.1.1.1.0;
      some_parity = ne;
      parity = verified_all;
      replays = replays-Shown w ps.1.1.1.1.1.1.1.1.1.1.1.1.1.1.1.1.1.1.1.1.1.1.1.1.1.0;
      reconciliations =
          reconciliations-Shown w ps.1.1.1.1.1.1.1.1.1.1.1.1.1.1.1.1.1.1.1.1.1.1.1.1.1.1.0;
      reviewed = exception_review-Undecided w ps.1.1.1.1.1.1.1.1.1.1.1.1.1.1.1.1.1.1.1.1.1.1.1.1.0;
    }
