-- ===== src/Gate/Soundness.antt =====
-- What exit status 0 of the cutover gate says about the evidence (scripts/company_migration_cutover_gate.py).
use moonproj.Base.{
  ◌∙◌, ap, ok-injective, subst, sym, String, ◌≡◌, ◌↔◌, refl, Bool, true, ok, err, >>=-eq-ok, obj,
  Dict, List, [], ◌∷◌, ◌++◌, all, All, all-append, Bool-cases, and-eq-true, inl, inr, arith,
  if◌then◌else◌, get, is_text,
}
use moonproj.Evidence.{
  Checked, Entry, absent, corrupt, holds, WorkDir, is_file, load_object, load_object-eq-ok,
}
use moonproj.Gate.Check.{Check, all_passed, required, optional, Passes}
use moonproj.Gate.Control.{
  Target, Expected, acceptance_passes, shadow_passes, business_acceptance, shadow_period,
}
use moonproj.Gate.Replay.{load_all, load_present}
use moonproj.Gate.Run.{
  collect, steps, Report, open_unless, report, run, exit_status, main, Exception, acceptance,
  shadow,
}

-- The file at a path holds an object that meets the test.
abbrev pub Shown : (String → Entry) → (Dict → Bool) → String → Type 0
Shown file p path = (d : Dict) × (file path ≡ holds (obj d)) × (p d ≡ true)

-- If the collected checks all pass, each step ran and passed.
collect-Passes :
    (ss : List (Checked (List Check))) {cs : List Check}
    → collect ss ≡ ok cs
    → all_passed cs ≡ true
    → All Passes ss
unfolding collect
collect-Passes [] h p = tt
collect-Passes (s ∷ ss) {cs} h p =
    let (a, ea, h1) = >>=-eq-ok s _ h in
    let (b, eb, h2) = >>=-eq-ok (collect ss) _ h1 in
    let e : a ++ b ≡ cs = cc in
    let split = all-append (λ (c : Check). c.passed) a b (rw e p) in
    ((a, ea, split.0), collect-Passes ss eb split.1)

append-all_passed :
    (a b : List Check) → all_passed a ≡ true → all_passed b ≡ true → all_passed (a ++ b) ≡ true
append-all_passed [] b h k = k
append-all_passed (x ∷ a) b h k = ground (arith, append-all_passed a b)

Passes-collect : (ss : List (Checked (List Check))) → All Passes ss → Passes (collect ss)
unfolding collect
Passes-collect [] h = ([], refl, refl)
Passes-collect (s ∷ ss) ((a, ea, pa), hs) =
    let (b, eb, pb) = Passes-collect ss hs in (a ++ b, rw (ea, eb), append-all_passed a b pa pb)

-- A check that passes has read an object that meets its test.
pub Passes-required :
    (name : String) (entry : Entry) (test : Dict → Checked Bool)
    → Passes (required name entry test)
    → (d : Dict) × (entry ≡ holds (obj d)) × (test d ≡ ok true)
unfolding required
Passes-required name entry test (cs, e, p) =
    let (d, ed, h1) = >>=-eq-ok (load_object entry) _ e in
    let (b, eb, h2) = >>=-eq-ok (test d) _ h1 in (d, load_object-eq-ok entry ed, ground arith)

pub Passes-optional :
    (name : String) (entry : Entry) (test : Dict → Checked Bool)
    → Passes (optional name entry test)
    → is_file entry ≡ true
    → (d : Dict) × (entry ≡ holds (obj d)) × (test d ≡ ok true)
unfolding optional
Passes-optional name entry test h there = Passes-required name entry test (rw there at h)

-- An exception's evidence is read without a fault where it is an object or is not there.
open_unless-returns :
    (settled : String) (x : Exception) (entry : Entry)
    → (is_file entry ≡ true → (d : Dict) × (entry ≡ holds (obj d)))
    → (l : List Exception) × (open_unless settled x entry ≡ ok l)
unfolding open_unless load_object
open_unless-returns settled x absent h = (x ∷ [], refl)
open_unless-returns settled x corrupt h = let (d, e) = h refl in absurd (cc e)
open_unless-returns settled x (holds v) h =
    let (d, e) = h refl in
    let l : List Exception = if is_text settled (get "state" d) then [] else x ∷ [] in
    (l, subst (λ y. open_unless settled x y ≡ ok l) (sym e) refl)

pub load_all-Shown :
    (file : String → Entry) (p : Dict → Bool) (paths : List String) {ds : List Dict}
    → load_all file paths ≡ ok ds
    → all p ds ≡ true
    → All (Shown file p) paths
unfolding load_all
load_all-Shown file p [] h t = tt
load_all-Shown file p (path ∷ paths) {ds} h t =
    let (d, ed, h1) = >>=-eq-ok (load_object (file path)) _ h in
    let (rest, er, h2) = >>=-eq-ok (load_all file paths) _ h1 in
    let e : d ∷ rest ≡ ds = cc in
    let (pd, prest) = and-eq-true (p d) (all p rest) (subst (λ l. all p l ≡ true) (sym e) t) in
    ((d, load_object-eq-ok (file path) ed, pd), load_all-Shown file p paths er prest)

pub load_present-Shown :
    (file : String → Entry) (p : Dict → Bool) (paths : List String) {ds : List Dict}
    → load_present file paths ≡ ok ds
    → all p ds ≡ true
    → All (λ path. is_file (file path) ≡ true → Shown file p path) paths
unfolding load_present
load_present-Shown file p [] h t = tt
load_present-Shown file p (path ∷ paths) {ds} h t = elim (Bool-cases (is_file (file path))) [
  | inl there ↦
      let (d, ed, h1) = >>=-eq-ok (load_object (file path)) _ (rw there at h) in
      let (rest, er, h2) = >>=-eq-ok (load_present file paths) _ h1 in
      let e : d ∷ rest ≡ ds = cc in
      let (pd, prest) = and-eq-true (p d) (all p rest) (subst (λ l. all p l ≡ true) (sym e) t) in
      (λ _. (d, load_object-eq-ok (file path) ed, pd), load_present-Shown file p paths er prest)
  | inr gone ↦ (λ there. cc, load_present-Shown file p paths (rw gone at h) t)
]

-- A run that returns has collected its checks.
run-returns :
    (e : Expected) (db : Checked Target) (w : WorkDir) {r : Report}
    → run e db w ≡ ok r
    → (cs : List Check) × (collect (steps e db w) ≡ ok cs)
      × (r.technical_checks_passed ≡ all_passed cs)
unfolding run
run-returns e db w {r} h =
    let (cs, ec, h1) = >>=-eq-ok (collect (steps e db w)) _ h in
    let (a, ea, h2) = >>=-eq-ok (open_unless "ready_for_shadow" acceptance _) _ h1 in
    let (b, eb, h3) = >>=-eq-ok (open_unless "shadow_ready" shadow _) _ h2 in
    (
      cs,
      ec,
      sym (unfold report in ap (λ (x : Report). x.technical_checks_passed) (ok-injective h3)),
    )

exit_zero-inv :
    (written : Bool) (m : Checked Report)
    → exit_status written m ≡ 0
    → (written ≡ true) × (r : Report) × (m ≡ ok r) × (r.technical_checks_passed ≡ true)
unfolding exit_status
exit_zero-inv written (ok r) h = (ground arith, r, refl, ground arith)
exit_zero-inv written (err f) h = absurd (omega arith)

-- The converse: with every step passed, the report is made and passes.
run-Passes :
    (e : Expected) (db : Checked Target) (w : WorkDir)
    → All Passes (steps e db w)
    → (r : Report) × (run e db w ≡ ok r) × (r.technical_checks_passed ≡ true)
unfolding run report
run-Passes e db w ps =
    let (cs, ec, pc) = Passes-collect (steps e db w) ps in
    let accepted : Entry = w.file "business-acceptance.json" in
    let shadowed : Entry = w.file "shadow-period.json" in
    let (a, ea) = open_unless-returns "ready_for_shadow" acceptance accepted (λ there.
      let (d, ed, _) =
        Passes-optional "business_acceptance_packet" accepted acceptance_passes
          (unfold business_acceptance in ps.1.1.1.1.1.1.1.1.1.1.1.1.1.1.1.1.1.1.1.1.1.0) there in
      (d, ed)) in
    let (b, eb) = open_unless-returns "shadow_ready" shadow shadowed (λ there.
      let (d, ed, _) =
        Passes-optional "shadow_period_contract" shadowed shadow_passes
          (unfold shadow_period in ps.1.1.1.1.1.1.1.1.1.1.1.1.1.1.1.1.1.1.1.1.1.1.0) there in
      (d, ed)) in
    (report cs (a ++ b), rw (ec, ea, eb), pc)

-- The gate exits with 0 exactly when the report could be written and every step of the gate ran
-- and passed its checks.
pub exit_zero_iff :
    (written : Bool) (e : Expected) (db : Checked Target) (w : WorkDir)
    → (main written e db w ≡ 0) ↔ ((written ≡ true) × All Passes (steps e db w))
exit_zero_iff written e db w = (only, conversely)
  where
    only : main written e db w ≡ 0 → (written ≡ true) × All Passes (steps e db w)
    only h =
        let (t, r, er, p) = exit_zero-inv written (run e db w) (unfold main in h) in
        let (cs, ec, ep) = run-returns e db w er in
        (t, collect-Passes (steps e db w) ec (sym ep ∙ p))

    conversely : (written ≡ true) × All Passes (steps e db w) → main written e db w ≡ 0
    conversely (t, ps) =
        let (r, er, p) = run-Passes e db w ps in unfold main exit_status in rw (er, t, p)
