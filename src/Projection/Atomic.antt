-- ===== src/Projection/Atomic.antt =====
-- What a run of scripts/company_sqlite_projection_apply.py does to the tables, whether it succeeds or not.
use moonproj.Base.{
  some-eq, >>=-eq-ok, ok-injective, String, ◌≡◌, refl, sym, ◌∙◌, subst, ◌⊎◌, inl, inr, true, false,
  some, List, ok, err, All,
}
use moonproj.Base.{Among, All-Among}
use moonproj.Evidence.{Checked, Entry, Fault}
use moonproj.Projection.Promotion.{Codec, Item, Promotion, load_receipt, event_id}
use moonproj.Projection.Table.{Projection, Tables, find_event, logical_projection_hash}
use moonproj.Projection.Apply.{
  is_row_of, apply_projection_items, ensure_projection_receipt, is_row_of, apply_projection_items,
  ensure_projection_receipt, run_id_of, Applied, apply_receipt, committed, run,
}
use moonproj.Projection.Replay.{IsApplied, Keeps, apply_projection_items-lem}

apply_receipt-lem :
    (codec : Codec) (receipt : Promotion) (tables : Tables) {applied : Applied}
    → apply_receipt codec receipt tables ≡ ok applied
    → All (IsApplied codec receipt applied.tables.projections) receipt.accepted_items
      × Keeps codec receipt tables.projections applied.tables.projections
unfolding apply_receipt
apply_receipt-lem codec receipt tables h =
    let hash : List Projection → Checked String =
      logical_projection_hash codec receipt.source_snapshot_id receipt.mapping_version in
    let (baseline, _, h1) = >>=-eq-ok (hash tables.projections) _ h in
    let (pass, ep, h2) =
      >>=-eq-ok (apply_projection_items codec receipt receipt.accepted_items tables.projections) _
        h1 in
    let (after_hash, _, h3) = >>=-eq-ok (hash pass.1) _ h2 in
    let (ensured, _, h4) =
      >>=-eq-ok
        (ensure_projection_receipt codec receipt (run_id_of codec receipt) baseline after_hash
          tables.receipts)
        _ h3 in
    subst
      (λ (a : Applied).
        All (IsApplied codec receipt a.tables.projections) receipt.accepted_items
        × Keeps codec receipt tables.projections a.tables.projections)
      (ok-injective h4)
      (apply_projection_items-lem codec receipt receipt.accepted_items tables.projections ep)

-- A run on a receipt that loads leaves the tables as they were, or has applied every item of the
-- receipt and kept the row of every event that was there. There is nothing in between, whatever the
-- run reports.
pub run_is_atomic :
    (codec : Codec) (integrity : String) (entry : Entry) (tables : Tables) (receipt : Promotion)
    → load_receipt entry ≡ ok receipt
    → let after = (run codec integrity entry tables).0 in
      (after ≡ tables)
      ⊎ (All (IsApplied codec receipt after.projections) receipt.accepted_items
          × Keeps codec receipt tables.projections after.projections)
unfolding run
run_is_atomic codec integrity entry tables receipt e =
    rw e (go (apply_receipt codec receipt tables) refl)
  where
    go :
        (o : Checked Applied)
        → apply_receipt codec receipt tables ≡ o
        → ((committed codec integrity tables receipt o).0 ≡ tables)
          ⊎ (All
                (IsApplied codec receipt (committed codec integrity tables receipt o).0.projections)
                receipt.accepted_items
              × Keeps codec receipt tables.projections
                  (committed codec integrity tables receipt o).0.projections)
    go (err fault) k = inl refl
    go (ok applied) k = inr (apply_receipt-lem codec receipt tables k)

-- An item whose event is stored with another aggregate or payload makes the run raise, and the
-- tables stay as they were.
pub conflicting_event_is_refused :
    (codec : Codec) (integrity : String) (entry : Entry) (tables : Tables) (receipt : Promotion)
    (item : Item) (stored : Projection)
    → load_receipt entry ≡ ok receipt
    → Among item receipt.accepted_items
    → find_event (event_id codec receipt item) tables.projections ≡ some stored
    → is_row_of codec receipt item stored ≡ false
    → (fault : Fault) × (run codec integrity entry tables ≡ (tables, err fault))
unfolding run
conflicting_event_is_refused codec integrity entry tables receipt item stored e listed found other =
    rw e (go (apply_receipt codec receipt tables) refl)
  where
    go :
        (o : Checked Applied)
        → apply_receipt codec receipt tables ≡ o
        → (fault : Fault) × (committed codec integrity tables receipt o ≡ (tables, err fault))
    go (err fault) k = (fault, refl)
    go (ok applied) k =
        let (all_applied, keeps) = apply_receipt-lem codec receipt tables k in
        let (r, there, own) =
          All-Among (IsApplied codec receipt applied.tables.projections) item receipt.accepted_items
            all_applied listed in
        let same : r ≡ stored =
          some-eq (sym there ∙ keeps (event_id codec receipt item) stored found) in
        absurd (cc (sym (subst (λ x. is_row_of codec receipt item x ≡ true) same own) ∙ other))
