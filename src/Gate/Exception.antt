-- ===== src/Gate/Exception.antt =====
-- The task-state exception of a typed migration, as the cutover gate
-- (scripts/company_migration_cutover_gate.py) leaves it to its owner.
use moonproj.Base.{
  ap, ◌∙◌, ◌++◌, all, String, ◌≡◌, ◌≢◌, refl, ◌⊎◌, inl, inr, Bool, true, false, ◌&&◌, ok, and_then,
  >>=-eq-ok, ok-injective, and-eq-true, Json, null, bool, int, str, arr, obj, Items, nil, cons,
  Dict, List, [], ◌∷◌, All, arith, get, get_or, items, is_dict, is_int, is_false, is_text,
  is_text-true, field_of, is_null, Bool-cases, Result,
}
use moonproj.Evidence.{
  Checked, Entry, WorkDir, holds, is_file, load_object, load_object-eq-ok, attribute_get,
}
use moonproj.Gate.Check.{Check, all_passed, Passes, verdict}
use moonproj.Gate.Replay.{
  exception_review, review_path, review_passes, observed_evidence, evidence_passes, all_undecided,
  undecided, effect_free, same_source, promotion_terms, parity_terms, replay_terms, candidate_terms,
  candidate_of, only_item,
}

-- What the artifacts of a task-state exception show: the review lists at least one exception and
-- asks for decisions, none of which has been taken, and the evidence behind it was promoted from
-- the review's own source without an effect on the target, was compared, and is not inserted again.
pub record Undecided (file : String → Entry) : Type 0 where
  pub review : Dict
  pub review_there : file review_path ≡ holds (obj review)
  pub asks : get "state" review ≡ str "review_required"
  pub exceptions : Items
  pub listed : get_or "exceptions" (arr nil) review ≡ arr exceptions
  pub some_listed : exceptions ≢ nil
  pub none_decided :
      All (λ item. is_dict item ≡ true → field_of "decision" item ≡ null) (items exceptions)
  pub promotion : Dict
  pub promotion_there :
      file "typed-cohorts/task-state-exception-evidence-promotion.json" ≡ holds (obj promotion)
  pub promoted : get "state" promotion ≡ str "promoted_through_domain_importers"
  pub without_effect : effect_free promotion ≡ true
  pub same_review : same_source promotion review ≡ true
  pub parity : Dict
  pub parity_there :
      file "typed-cohorts/task-state-exception-evidence-projection-parity.json" ≡ holds (obj parity)
  pub compared : get "state" parity ≡ str "shadow_verified"
  pub same_parity : same_source parity promotion ≡ true
  pub replay : Dict
  pub replay_there :
      file "typed-cohorts/task-state-exception-evidence-projection-replay.json" ≡ holds (obj replay)
  pub not_again : is_int 0 (get "inserted_projections" replay) ≡ true
  pub no_receipt : is_false (get "receipt_inserted" replay) ≡ true
  pub same_replay : same_source replay promotion ≡ true

and_then-true :
    {E : Type 0} (b : Bool) (later : Result E Bool)
    → and_then b later ≡ ok true
    → (b ≡ true) × (later ≡ ok true)
and_then-true true later h = (refl, h)
and_then-true false later h = absurd (cc (ok-injective h))

is_null-true : (v : Json) → is_null v ≡ true → v ≡ null
is_null-true null h = refl
is_null-true (bool b) h = absurd (cc h)
is_null-true (int z) h = absurd (cc h)
is_null-true (str s) h = absurd (cc h)
is_null-true (arr a) h = absurd (cc h)
is_null-true (obj d) h = absurd (cc h)

field-null :
    (item : Json) → undecided item ≡ true → is_dict item ≡ true → field_of "decision" item ≡ null
field-null (obj d) h e = is_null-true (get "decision" d) h
field-null null h e = refl
field-null (bool b) h e = refl
field-null (int z) h e = refl
field-null (str s) h e = refl
field-null (arr a) h e = refl

all-undecided :
    (xs : List Json)
    → all undecided xs ≡ true
    → All (λ item. is_dict item ≡ true → field_of "decision" item ≡ null) xs
all-undecided [] h = tt
all-undecided (x ∷ xs) h =
    let (p, rest) = and-eq-true (undecided x) (all undecided xs) h in
    (field-null x p, all-undecided xs rest)

listed-undecided :
    (v : Json)
    → all_undecided v ≡ true
    → (exceptions : Items) × (v ≡ arr exceptions)
      × (exceptions ≢ nil)
      × All (λ item. is_dict item ≡ true → field_of "decision" item ≡ null) (items exceptions)
listed-undecided (arr nil) h = absurd (cc h)
listed-undecided (arr (cons x xs)) h = (cons x xs, refl, λ e. cc e, all-undecided (x ∷ items xs) h)
listed-undecided null h = absurd (cc h)
listed-undecided (bool b) h = absurd (cc h)
listed-undecided (int z) h = absurd (cc h)
listed-undecided (str s) h = absurd (cc h)
listed-undecided (obj d) h = absurd (cc h)

-- The two verdicts of the check, when both pass.
both-passed :
    (a b : Bool) {cs : List Check}
    → ◌≡◌ {A = Checked (List Check)}
        (ok (
          verdict "task_state_exception_review" a
          ++ verdict "task_state_exception_observed_evidence" b))
        (ok cs)
    → all_passed cs ≡ true
    → (a ≡ true) × (b ≡ true)
both-passed a b {cs} h p = ground arith

review-facts :
    (review : Dict)
    → review_passes review ≡ true
    → (get "state" review ≡ str "review_required")
      × (all_undecided (get_or "exceptions" (arr nil) review) ≡ true)
unfolding review_passes
review-facts review h =
    (is_text-true "review_required" (get "state" review) (ground arith), ground arith)

promotion-facts :
    (p : Dict)
    → promotion_terms p ≡ true
    → (get "state" p ≡ str "promoted_through_domain_importers") × (effect_free p ≡ true)
unfolding promotion_terms
promotion-facts p h =
    (is_text-true "promoted_through_domain_importers" (get "state" p) (ground arith), ground arith)

parity-facts :
    (q p : Dict)
    → parity_terms q p ≡ true
    → (get "state" q ≡ str "shadow_verified") × (same_source q p ≡ true)
unfolding parity_terms
parity-facts q p h = (is_text-true "shadow_verified" (get "state" q) (ground arith), ground arith)

replay-facts :
    (r p : Dict)
    → replay_terms r p ≡ true
    → (is_int 0 (get "inserted_projections" r) ≡ true)
      × (is_false (get "receipt_inserted" r) ≡ true)
      × (same_source r p ≡ true)
unfolding replay_terms
replay-facts r p h = (ground arith, ground arith, ground arith)

four-true : (a b c d : Bool) → (a && b && c && d) ≡ true → (b ≡ true) × (c ≡ true) × (d ≡ true)
four-true a b c d h = (ground arith, ground arith, ground arith)

module _ (w : WorkDir) (review : Dict) (there : w.file review_path ≡ holds (obj review)) where
  evidence-Undecided :
      (p q r : Dict)
      → w.file "typed-cohorts/task-state-exception-evidence-promotion.json" ≡ holds (obj p)
      → w.file "typed-cohorts/task-state-exception-evidence-projection-parity.json" ≡ holds (obj q)
      → w.file "typed-cohorts/task-state-exception-evidence-projection-replay.json" ≡ holds (obj r)
      → review_passes review ≡ true
      → evidence_passes p q r review ≡ ok true
      → Undecided w.file
  unfolding evidence_passes
  evidence-Undecided p q r ep eq er passes h =
      let (terms, h1) = and_then-true (promotion_terms p) _ h in
      let (target, _, h2) =
        >>=-eq-ok (attribute_get "target_type" (only_item (get_or "accepted_items" (arr nil) p))) _
          h1 in
      let (_, h3) = and_then-true (is_text "project_task_state_observation" target) _ h2 in
      let (quarantined, _, h4) =
        >>=-eq-ok (candidate_terms (candidate_of (only_item (get_or "accepted_items" (arr nil) p))))
          _ h3 in
      let (same_review, parity_ok, replay_ok) =
        four-true quarantined (same_source p review) (parity_terms q p) (replay_terms r p)
          (ok-injective h4) in
      let (asks, undecided_all) = review-facts review passes in
      let (promoted, without_effect) = promotion-facts p terms in
      let (compared, same_parity) = parity-facts q p parity_ok in
      let (not_again, no_receipt, same_replay) = replay-facts r p replay_ok in
      let (exceptions, listed, some_listed, none_decided) =
        listed-undecided (get_or "exceptions" (arr nil) review) undecided_all in
      record {
        review = review;
        review_there = there;
        asks = asks;
        exceptions = exceptions;
        listed = listed;
        some_listed = some_listed;
        none_decided = none_decided;
        promotion = p;
        promotion_there = ep;
        promoted = promoted;
        without_effect = without_effect;
        same_review = same_review;
        parity = q;
        parity_there = eq;
        compared = compared;
        same_parity = same_parity;
        replay = r;
        replay_there = er;
        not_again = not_again;
        no_receipt = no_receipt;
        same_replay = same_replay;
      }

  observed-Undecided :
      review_passes review ≡ true → observed_evidence w review ≡ ok true → Undecided w.file
  unfolding observed_evidence
  observed-Undecided passes h =
      let (_, h1) = and_then-true _ _ h in
      let (p, ep, h2) =
        >>=-eq-ok
          (load_object (w.file "typed-cohorts/task-state-exception-evidence-promotion.json")) _
          h1 in
      let (q, eq, h3) =
        >>=-eq-ok
          (load_object
            (w.file "typed-cohorts/task-state-exception-evidence-projection-parity.json"))
          _ h2 in
      let (r, er, h4) =
        >>=-eq-ok
          (load_object
            (w.file "typed-cohorts/task-state-exception-evidence-projection-replay.json"))
          _ h3 in
      evidence-Undecided p q r (load_object-eq-ok _ ep) (load_object-eq-ok _ eq)
        (load_object-eq-ok _ er) passes h4

-- When the check passes on typed cohorts, or where there is a review, the exception is left undecided.
pub exception_review-Undecided :
    (w : WorkDir)
    → Passes (exception_review w)
    → (w.cohorts_dir ≡ true) ⊎ (is_file (w.file review_path) ≡ true)
    → Undecided w.file
unfolding exception_review
exception_review-Undecided w (cs, h, p) typed = elim (Bool-cases (is_file (w.file review_path))) [
  | inl there ↦
      let (review, e, h1) = >>=-eq-ok (load_object (w.file review_path)) _ (rw there at h) in
      let (passed, e2, h2) = >>=-eq-ok (observed_evidence w review) _ h1 in
      let (reviewed, observed) = both-passed (review_passes review) passed h2 p in
      observed-Undecided w review (load_object-eq-ok _ e) reviewed (e2 ∙ ap ok observed)
  | inr gone ↦ elim typed [
    | inl dir ↦ absurd (cc (both-passed false false (rw (gone, dir) at h) p).0)
    | inr there ↦ absurd (cc (gone, there))
  ]
]
