-- ===== src/Loan/Ledger.antt =====
-- The amounts of all loans of scripts/company_postgres_service.py, through the blocks of loan commands.
use moonproj.Base.{
  String, ◌≡◌, refl, sym, ap, ◌∙◌, subst, ◌≢◌, inl, inr, false, Option, none, some, List, [], ◌∷◌,
  ◌==◌, Json, Dict, get, All, some-eq, Option-cases, any,
}
use moonproj.Service.Rows.{Row, latest, next_revision, insert_row, insert_row-eq-some, latest-All}
use moonproj.Service.Database.{Db, insert_audit}
use moonproj.Service.Exceptions.{>>=-eq-some, raise_when-eq-some}
use moonproj.Service.Kept.{Keeps}
use moonproj.Loan.Checks.{
  LoanCommand, create, submit, offset, sync_from_workflow, update, void, expected_states,
}
use moonproj.Loan.Transaction.{
  Postgres, known, excluded, Next, moved_payload, next_payload, begin, advance, decide, row_of,
  with_offset, loan_block,
}
use moonproj.Loan.Balance.{Amounts, IsBalanced, IsFit, unsettled}
use moonproj.Loan.Written.{moved-Amounts, offset-Amounts, first-Amounts, update-Amounts}

abbrev pub AreBalanced : Db → Type 0
AreBalanced db = All IsBalanced db.loans

module _ (postgres : Postgres) (request : Dict) (actor_id event_id : String) (command : LoanCommand)
    (loan_id : String) where
  -- The row that a block inserts, and nothing else among the loans.
  pub loan_block-inserts :
      (db : Db) (after : Db × Json)
      → loan_block postgres request actor_id event_id command loan_id db ≡ some after
      → (next : Next) × (decide postgres request actor_id event_id command loan_id command db.loans
          ≡ some next)
        × (after.0.loans
            ≡ row_of postgres request actor_id event_id command loan_id next ∷ db.loans)
        × (after.0.payments ≡ db.payments)
        × (after.0.receipts ≡ db.receipts)
  unfolding loan_block
  loan_block-inserts db after h =
      let (next, decided, h1) =
        >>=-eq-some (decide postgres request actor_id event_id command loan_id command db.loans) _
          h in
      let (loans, inserted, h2) =
        >>=-eq-some
          (insert_row (row_of postgres request actor_id event_id command loan_id next) db.loans) _
          h1 in
      let (offsets, e, h3) =
        >>=-eq-some
          (with_offset postgres request actor_id event_id command loan_id command db.offsets) _
          h2 in
      let (audits, e', h4) = >>=-eq-some (insert_audit _ db.audits) _ h3 in
      let done = some-eq h4 in
      (
        next,
        decided,
        ap (λ (x : Db × Json). x.0.loans) (sym done) ∙ insert_row-eq-some _ db.loans inserted,
        ap (λ (x : Db × Json). x.0.payments) (sym done),
        ap (λ (x : Db × Json). x.0.receipts) (sym done),
      )

  -- What `advance` has read and tested.
  pub advance-eq-some :
      (rows : List Row) {next : Next}
      → advance postgres request actor_id event_id command loan_id rows (latest loan_id rows)
        ≡ some next
      → (old : Row) × (latest loan_id rows ≡ some old)
        × (excluded (expected_states command) (get "apply_state" old.payload) ≡ false)
        × (next_payload postgres request actor_id event_id command old.payload ≡ some next.payload)
  advance-eq-some rows {next} h = elim (Option-cases (latest loan_id rows)) [
    | inl no_row ↦ absurd (cc (rw no_row at h))
    | inr (old, found) ↦
        let (local, h1) = raise_when-eq-some _ _ (rw found at h) in
        let (allowed, h2) = raise_when-eq-some _ _ h1 in
        let (revision, _, h2) = >>=-eq-some (next_revision loan_id rows) _ h2 in
        let (payload, e, h3) =
          >>=-eq-some (next_payload postgres request actor_id event_id command old.payload) _ h2 in
        (old, found, allowed, e ∙ ap some (ap (λ (n : Next). n.payload) (some-eq h3)))
  ]

module _ (postgres : Postgres) (request : Dict) (actor_id event_id : String) where
  moved-keeps :
      (state : String) (states : List String) (p q : Dict)
      → any (λ t. "Approved" == t) states ≡ false
      → excluded states (get "apply_state" p) ≡ false
      → ◌≡◌ {A = Option Dict}
          (some (moved_payload postgres request actor_id event_id state p))
          (some q)
      → (get "source_kind" q ≡ get "source_kind" p) × (Amounts p → Amounts q)
  moved-keeps state states p q before allowed h =
      let (source, amounts) = moved-Amounts postgres request actor_id event_id state p in
      let e = some-eq h in
      (
        ap (get "source_kind") (sym e) ∙ source,
        λ a. subst Amounts e (amounts a (unsettled states p a allowed before)),
      )

  next_payload-Amounts :
      (command : LoanCommand) (p q : Dict)
      → command ≢ create
      → IsFit command request
      → excluded (expected_states command) (get "apply_state" p) ≡ false
      → next_payload postgres request actor_id event_id command p ≡ some q
      → (get "source_kind" q ≡ get "source_kind" p) × (Amounts p → Amounts q)
  next_payload-Amounts create p q other fit allowed h = absurd (other refl)
  next_payload-Amounts submit p q other fit allowed h =
      moved-keeps "Approving" ("Draft" ∷ []) p q refl allowed h
  next_payload-Amounts offset p q other fit allowed h =
      offset-Amounts postgres request actor_id event_id p q fit h
  next_payload-Amounts sync_from_workflow p q other fit allowed h =
      moved-keeps "" [] p q refl allowed h
  next_payload-Amounts update p q other fit allowed h =
      let (source, amounts) = update-Amounts postgres request actor_id event_id p q fit h in
      (source, amounts allowed)
  next_payload-Amounts void p q other fit allowed h =
      moved-keeps "Voided" ("Draft" ∷ "Rejected" ∷ []) p q refl allowed h

  begin-IsBalanced :
      (command : LoanCommand) (loan_id : String) (o : Option Row) {next : Next}
      → IsFit create request
      → begin postgres request actor_id event_id command loan_id o ≡ some next
      → IsBalanced (row_of postgres request actor_id event_id command loan_id next)
  begin-IsBalanced command loan_id (some old) fit h local = absurd (cc h)
  begin-IsBalanced command loan_id none fit h local =
      subst Amounts (ap (λ (n : Next). n.payload) (some-eq h))
        (first-Amounts postgres request actor_id event_id fit)

  advance-IsBalanced :
      (command : LoanCommand) (loan_id : String) (rows : List Row) {next : Next}
      → command ≢ create
      → IsFit command request
      → All IsBalanced rows
      → advance postgres request actor_id event_id command loan_id rows (latest loan_id rows)
        ≡ some next
      → IsBalanced (row_of postgres request actor_id event_id command loan_id next)
  advance-IsBalanced command loan_id rows {next} other fit known h local =
      let (old, found, allowed, e) =
        advance-eq-some postgres request actor_id event_id command loan_id rows h in
      let (source, amounts) =
        next_payload-Amounts command old.payload next.payload other fit allowed e in
      amounts (latest-All IsBalanced loan_id rows known found (sym source ∙ local))

  decide-IsBalanced :
      (command : LoanCommand) (loan_id : String) (rows : List Row) {next : Next}
      → IsFit command request
      → All IsBalanced rows
      → decide postgres request actor_id event_id command loan_id command rows ≡ some next
      → IsBalanced (row_of postgres request actor_id event_id command loan_id next)
  decide-IsBalanced create loan_id rows fit known h =
      begin-IsBalanced create loan_id (latest loan_id rows) fit h
  decide-IsBalanced submit loan_id rows fit known h =
      advance-IsBalanced submit loan_id rows (λ e. cc) fit known h
  decide-IsBalanced offset loan_id rows fit known h =
      advance-IsBalanced offset loan_id rows (λ e. cc) fit known h
  decide-IsBalanced sync_from_workflow loan_id rows fit known h =
      advance-IsBalanced sync_from_workflow loan_id rows (λ e. cc) fit known h
  decide-IsBalanced update loan_id rows fit known h =
      advance-IsBalanced update loan_id rows (λ e. cc) fit known h
  decide-IsBalanced void loan_id rows fit known h =
      advance-IsBalanced void loan_id rows (λ e. cc) fit known h

  -- A block with a fit request keeps the amounts of all loans.
  pub loan_block-Keeps :
      (command : LoanCommand) (loan_id : String)
      → IsFit command request
      → Keeps AreBalanced (loan_block postgres request actor_id event_id command loan_id)
  loan_block-Keeps command loan_id fit db after known h =
      let (next, decided, loans, e, e') =
        loan_block-inserts postgres request actor_id event_id command loan_id db after h in
      subst (λ rows. All IsBalanced rows) (sym loans)
        (decide-IsBalanced command loan_id db.loans fit known decided, known)
