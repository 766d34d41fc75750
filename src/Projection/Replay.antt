-- ===== src/Projection/Replay.antt =====
-- What a run of scripts/company_sqlite_projection_apply.py leaves for the next run of the same receipt.
use moonproj.Base.{
  eqb, any, some-eq, Bool-cases, raise_if-eq-ok, >>=-eq-ok, ok-injective, ℕ, ◌+◌, String, ◌≡◌, refl,
  sym, ap, ◌∙◌, subst, inl, inr, Bool, true, false, not, ◌||◌, Option, none, some, List, [], ◌∷◌,
  arith, ◌==◌, eq_iff, eq_refl, ok, err, Dict, All,
}
use moonproj.Evidence.{Checked, Entry}
use moonproj.Service.Database.{lookup}
use moonproj.Gate.Replay.{inserts_nothing}
use moonproj.Projection.Promotion.{
  Codec, Item, Promotion, load_receipt, to_str, canonical_payload, event_id,
}
use moonproj.Projection.Table.{
  Projection, Certificate, Tables, find_event, max_revision, insert_projection,
  logical_projection_hash, conflicts,
}
use moonproj.Projection.Apply.{
  certificate, count_runs, domain_version, is_row_of, row_of, apply_item, apply_projection_items,
  certifies, certified, ensure_projection_receipt, row_of, is_row_of, place_item, apply_item,
  apply_projection_items, certifies, certified, ensure_projection_receipt, run_id_of, Applied,
  apply_receipt, result, verified_durable, committed, loaded, run,
}

find_event-event :
    (e : String) (rows : List Projection) {r : Projection}
    → find_event e rows ≡ some r
    → r.source_event_id ≡ e
find_event-event e [] h = absurd (cc h)
find_event-event e (x ∷ xs) h = elim (Bool-cases (x.source_event_id == e)) [
  | inl same ↦
      subst (λ (y : Projection). y.source_event_id ≡ e) (some-eq (rw same at h))
        ((eq_iff x.source_event_id e).0 same)
  | inr other ↦ find_event-event e xs (rw other at h)
]

-- A row with a new event hides no row of another event.
find_event-insert :
    (e : String) (x : Projection) (rows : List Projection) {r : Projection}
    → find_event x.source_event_id rows ≡ none
    → find_event e rows ≡ some r
    → find_event e (x ∷ rows) ≡ some r
find_event-insert e x rows new found = elim (Bool-cases (x.source_event_id == e)) [
  | inl same ↦ absurd (
      cc (
        sym (subst (λ y. find_event y rows ≡ none) ((eq_iff x.source_event_id e).0 same) new)
        ∙ found))
  | inr other ↦ rw other found
]

insert_projection-eq-ok :
    (r : Projection) (rows : List Projection) {after : List Projection}
    → insert_projection r rows ≡ ok after
    → after ≡ r ∷ rows
unfolding insert_projection
insert_projection-eq-ok r rows h =
    let (_, k) = raise_if-eq-ok (any (conflicts r) rows) _ _ h in sym (ok-injective k)

not-eq-false : {b : Bool} → not b ≡ false → b ≡ true
not-eq-false h = ground arith

module _ (codec : Codec) (receipt : Promotion) where
  -- The item's event has a row, the item's own.
  abbrev pub IsApplied : List Projection → Item → Type 0
  IsApplied rows item =
      (r : Projection) × (find_event (event_id codec receipt item) rows ≡ some r)
      × (is_row_of codec receipt item r ≡ true)

  -- Later rows keep the rows that events are found at.
  abbrev pub Keeps : List Projection → List Projection → Type 0
  Keeps rows after =
      (e : String) (r : Projection) → find_event e rows ≡ some r → find_event e after ≡ some r

  row_of-is_row_of :
      (item : Item) (n : ℕ) → is_row_of codec receipt item (row_of codec receipt item n) ≡ true
  row_of-is_row_of item n = rw (
    eq_refl (to_str codec item.target_type),
    eq_refl (to_str codec item.target_id),
    eq_refl (canonical_payload codec receipt item),
  )

  place_item-lem :
      (item : Item) (rows : List Projection) (o : Option Projection) {n : ℕ}
      {after : List Projection}
      → find_event (event_id codec receipt item) rows ≡ o
      → place_item codec receipt item rows o ≡ ok (n, after)
      → IsApplied after item × Keeps rows after
  place_item-lem item rows (some existing) e h =
      let (same, k) = raise_if-eq-ok (not (is_row_of codec receipt item existing)) _ _ h in
      subst (λ (p : ℕ × List Projection). IsApplied p.1 item × Keeps rows p.1) (ok-injective k)
        ((existing, e, not-eq-false same), λ e r found. found)
  place_item-lem item rows none e h =
      let revision : ℕ =
        max_revision (to_str codec item.target_type) (to_str codec item.target_id) rows + 1 in
      let row : Projection = row_of codec receipt item revision in
      let (more, em, k) = >>=-eq-ok (insert_projection row rows) _ h in
      subst (λ (p : ℕ × List Projection). IsApplied p.1 item × Keeps rows p.1) (ok-injective k)
        (subst (λ l. IsApplied l item × Keeps rows l) (sym (insert_projection-eq-ok row rows em))
          (
            (row, rw (eq_refl (event_id codec receipt item)) refl, row_of-is_row_of item revision),
            λ e2 r found. find_event-insert e2 row rows e found,
          ))

  -- A pass over the items: each is applied in the end.
  pub apply_projection_items-lem :
      (items : List Item) (rows : List Projection) {n : ℕ} {after : List Projection}
      → apply_projection_items codec receipt items rows ≡ ok (n, after)
      → All (IsApplied after) items × Keeps rows after
  unfolding apply_projection_items apply_item
  apply_projection_items-lem [] rows h =
      subst (λ (p : ℕ × List Projection). Unit {0} × Keeps rows p.1) (ok-injective h)
        (tt, λ e r found. found)
  apply_projection_items-lem (item ∷ items) rows {n} {after} h =
      let (one, eo, h1) = >>=-eq-ok (apply_item codec receipt item rows) _ h in
      let (more, em, h2) = >>=-eq-ok (apply_projection_items codec receipt items one.1) _ h1 in
      let whole : more.1 ≡ after = ap (λ (p : ℕ × List Projection). p.1) (ok-injective h2) in
      let ((r, found, own), keeps) =
        place_item-lem item rows (find_event (event_id codec receipt item) rows) refl eo in
      let (later, kept) = apply_projection_items-lem items one.1 em in
      subst (λ l. All (IsApplied l) (item ∷ items) × Keeps rows l) whole
        (
          ((r, kept (event_id codec receipt item) r found, own), later),
          λ e r found. kept e r (keeps e r found),
        )

  -- A pass over items that are applied inserts nothing.
  apply_projection_items-again :
      (items : List Item) (rows : List Projection)
      → All (IsApplied rows) items
      → apply_projection_items codec receipt items rows ≡ ok (0, rows)
  unfolding apply_projection_items apply_item
  apply_projection_items-again [] rows h = refl
  apply_projection_items-again (item ∷ items) rows ((r, found, own), later) =
      rw (found, own, apply_projection_items-again items rows later) refl

  -- The receipt of a run, stored or new, certifies the run's applied hash.
  certified-certifies :
      (run_id baseline applied : String) (receipts : List (String × Certificate))
      (o : Option Certificate) {fresh : Bool} {after : List (String × Certificate)}
      → lookup run_id receipts ≡ o
      → certified codec receipt run_id baseline applied receipts o ≡ ok (fresh, after)
      → (c : Certificate) × (lookup run_id after ≡ some c)
        × (certifies codec receipt applied c ≡ true)
  certified-certifies run_id baseline applied receipts (some existing) {fresh} {after} e h =
      let (same, k) = raise_if-eq-ok (not (certifies codec receipt applied existing)) _ _ h in
      subst
        (λ (p : Bool × List (String × Certificate)).
          (c : Certificate) × (lookup run_id p.1 ≡ some c)
          × (certifies codec receipt applied c ≡ true))
        (ok-injective k) (existing, e, not-eq-false same)
  certified-certifies run_id baseline applied receipts none {fresh} {after} e h =
      subst
        (λ (p : Bool × List (String × Certificate)).
          (c : Certificate) × (lookup run_id p.1 ≡ some c)
          × (certifies codec receipt applied c ≡ true))
        (ok-injective h)
        (
          certificate codec receipt baseline applied,
          rw (eq_refl run_id) refl,
          rw
              (
                eq_refl receipt.source_snapshot_id,
                eq_refl (domain_version codec receipt),
                eq_refl applied,
              )
              refl,
        )

  -- What a run has applied is applied again without change.
  apply_receipt-again :
      (tables : Tables) {applied : Applied}
      → apply_receipt codec receipt tables ≡ ok applied
      → apply_receipt codec receipt applied.tables
        ≡ ok (record { inserted = 0; receipt_inserted = false; tables = applied.tables })
  unfolding apply_receipt ensure_projection_receipt
  apply_receipt-again tables {applied} h =
      let hash : List Projection → Checked String =
        logical_projection_hash codec receipt.source_snapshot_id receipt.mapping_version in
      let (baseline, eb, h1) = >>=-eq-ok (hash tables.projections) _ h in
      let (pass, ep, h2) =
        >>=-eq-ok (apply_projection_items codec receipt receipt.accepted_items tables.projections) _
          h1 in
      let (after_hash, ea, h3) = >>=-eq-ok (hash pass.1) _ h2 in
      let (ensured, ee, h4) =
        >>=-eq-ok
          (ensure_projection_receipt codec receipt (run_id_of codec receipt) baseline after_hash
            tables.receipts)
          _ h3 in
      let (c, found, certified_hash) =
        certified-certifies (run_id_of codec receipt) baseline after_hash tables.receipts
          (lookup (run_id_of codec receipt) tables.receipts) refl ee in
      let again =
        apply_projection_items-again receipt.accepted_items pass.1
          (apply_projection_items-lem receipt.accepted_items tables.projections ep).0 in
      subst
        (λ (a : Applied).
          apply_receipt codec receipt a.tables
          ≡ ok (record { inserted = 0; receipt_inserted = false; tables = a.tables }))
        (ok-injective h4) (rw (ea, again, ea, found, certified_hash) refl)

  verified_durable-again :
      (integrity : String) (applied : Applied) {report : Dict}
      → verified_durable codec integrity receipt applied ≡ ok report
      → let same : Applied = record {
        inserted = 0;
        receipt_inserted = false;
        tables = applied.tables;
      } in
        (again : Dict) × (verified_durable codec integrity receipt same ≡ ok again)
        × (inserts_nothing again ≡ true)
  verified_durable-again integrity applied h =
      let (good, k) =
        raise_if-eq-ok
          (not (integrity == "ok")
            || not (eqb (count_runs (run_id_of codec receipt) applied.tables.receipts) 1))
          _ _ h in
      let same : Applied = record {
        inserted = 0;
        receipt_inserted = false;
        tables = applied.tables;
      } in
      (result codec receipt integrity same, rw good refl, refl)

-- When a run on a receipt has succeeded, a second run of it succeeds, leaves the tables as they are,
-- and reports that it inserted nothing: its report meets the replay test of the cutover gate.
pub run_twice :
    (codec : Codec) (integrity : String) (entry : Entry) (tables : Tables) {after : Tables}
    {report : Dict}
    → run codec integrity entry tables ≡ (after, ok report)
    → (again : Dict) × (run codec integrity entry after ≡ (after, ok again))
      × (inserts_nothing again ≡ true)
unfolding run
run_twice codec integrity entry tables {after} {report} h = go (load_receipt entry) refl h
  where
    settled :
        (receipt : Promotion) (o : Checked Applied)
        → apply_receipt codec receipt tables ≡ o
        → committed codec integrity tables receipt o ≡ (after, ok report)
        → (again : Dict) × (loaded codec integrity after (ok receipt) ≡ (after, ok again))
          × (inserts_nothing again ≡ true)
    settled receipt (err fault) e k = absurd (cc k)
    settled receipt (ok applied) e k =
        let (again, eq, nothing) =
          verified_durable-again codec receipt integrity applied
            (ap (λ (x : Tables × Checked Dict). x.1) k) in
        subst
          (λ (a : Tables).
            (again : Dict) × (committed codec integrity a receipt (apply_receipt codec receipt a)
              ≡ (a, ok again))
            × (inserts_nothing again ≡ true))
          (ap (λ (x : Tables × Checked Dict). x.0) k)
          (again, rw (apply_receipt-again codec receipt tables e, eq) refl, nothing)

    go :
        (o : Checked Promotion)
        → load_receipt entry ≡ o
        → loaded codec integrity tables o ≡ (after, ok report)
        → (again : Dict) × (loaded codec integrity after (load_receipt entry) ≡ (after, ok again))
          × (inserts_nothing again ≡ true)
    go (err fault) e k = absurd (cc k)
    go (ok receipt) e k = rw e (settled receipt _ refl k)
