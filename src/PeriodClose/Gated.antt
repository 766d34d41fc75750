-- ===== src/PeriodClose/Gated.antt =====
-- The report that scripts/company_period_close_control.py writes, before the check of the cutover gate
-- that reads it.
use Prim.Native.String.{◌++◌ as ◌◂◌}
use Prim.Native.Nat.{Ordering}
use Prim.Native.String.{compare}
use text.Mathlib.TextPositions.{slice-append_left}
use moonproj.Base.{
  insert_text, ◌+◌, String, ◌≡◌, refl, ap, subst, inl, inr, Bool, true, false, not, ◌&&◌, List, [],
  ◌∷◌, ◌++◌, map, arith, ◌==◌, ok, str, Dict, strip,
}
use moonproj.Base.{
  raise_if-eq-ok, >>=-eq-ok, ok-injective, Bool-cases, is_nil, any, sort_texts, is_empty,
}
use moonproj.Base.{ltb, and_then}
use moonproj.Evidence.{Checked, WorkDir}
use moonproj.Gate.Control.{period_close_passes, is_prefixed, is_nonempty_list}
use moonproj.PeriodClose.{
  with_new, texts, Cohort, collect_cohorts, total_links, one_snapshot, report, run,
}
use moonproj.PeriodClose.Cohorts.{AllGood, collect_cohorts-AllGood}

prefixed : (x : String) → is_prefixed "sha256:" (str ("sha256:" ◂ x)) ≡ true
prefixed x = ap (λ s. s == "sha256:") (slice-append_left "sha256:" x)

insert_text-cons :
    (s : String) (ts : List String) → is_nonempty_list (texts (insert_text s ts)) ≡ true
insert_text-cons s [] = refl
insert_text-cons s (t ∷ ts) =
    elim (compare t s)
      as (λ o.
        is_nonempty_list (texts (elim o [ Ordering.lt ↦ t ∷ insert_text s ts | _ ↦ s ∷ t ∷ ts ]))
        ≡ true) [ Ordering.lt ↦ refl | Ordering.eq ↦ refl | Ordering.gt ↦ refl ]

sort_texts-cons :
    (ss : List String) → is_empty ss ≡ false → is_nonempty_list (texts (sort_texts ss)) ≡ true
sort_texts-cons [] h = absurd (cc h)
sort_texts-cons (s ∷ ss) h = insert_text-cons s (sort_texts ss)

with_new-cons : (t : String) (ts more : List String) → is_empty (with_new (t ∷ ts) more) ≡ false
with_new-cons t ts [] = refl
with_new-cons t ts (s ∷ more) = elim (Bool-cases (any (λ u. u == s) (t ∷ ts))) [
  | inl known ↦ rw known (with_new-cons t ts more)
  | inr new ↦ rw new (with_new-cons t (ts ++ (s ∷ [])) more)
]

-- The conditions of the gate's check on a report, from the parts of the report.
checks_pass :
    {snapshot mappings hash links : Bool}
    → snapshot ≡ true
    → mappings ≡ true
    → hash ≡ true
    → links ≡ true
    → ◌≡◌ {A = Checked Bool}
        (and_then (snapshot && mappings && hash && true && true && true) (ok links))
        (ok true)
checks_pass a b c d = rw (a, b, c, d) refl

report-passes :
    (digest : List Cohort → String) (period_id : String) (cs : List Cohort)
    → AllGood cs
    → period_close_passes (report digest period_id cs) ≡ ok true
unfolding period_close_passes report AllGood
report-passes digest period_id [] (good, there) = absurd (cc there)
report-passes digest period_id (c ∷ cs) (((links, snapshot), others), there) =
    let mappings =
      sort_texts-cons
        (with_new (c.mapping_version ∷ []) (map (λ (d : Cohort). d.mapping_version) cs))
        (with_new-cons c.mapping_version [] (map (λ (d : Cohort). d.mapping_version) cs)) in
    let named : not (is_nil c.source_snapshot_id) ≡ true = rw snapshot refl in
    checks_pass {links = ltb 0 (c.link_count + total_links cs)} named mappings
      (prefixed (digest (c ∷ cs))) (ground arith)

-- Whenever the period-close control is written, the cutover gate's check of it passes.
pub run-period_close_passes :
    (digest : List Cohort → String) (w : WorkDir) (period_id : String) {r : Dict}
    → run digest w period_id ≡ ok r
    → period_close_passes r ≡ ok true
unfolding run
run-period_close_passes digest w period_id {r} h =
    let (_, h1) = raise_if-eq-ok (is_nil (strip period_id)) _ _ h in
    let (some_path, h2) = raise_if-eq-ok (is_empty w.reconciliations) _ _ h1 in
    let (cs, ec, h3) = >>=-eq-ok (collect_cohorts w.file [] w.reconciliations) _ h2 in
    let (_, h4) = raise_if-eq-ok (not (one_snapshot cs)) _ _ h3 in
    subst (λ d. period_close_passes d ≡ ok true) (ok-injective h4)
      (report-passes digest period_id cs
        (collect_cohorts-AllGood w.file [] w.reconciliations ec tt some_path))
