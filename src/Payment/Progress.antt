-- ===== src/Payment/Progress.antt =====
-- What the transactions of scripts/company_postgres_service.py can still do to an approved payment
-- application, and the row and the audit event that a block writes.
use Prim.Native.String.{◌++◌ as ◌◂◌}
use moonproj.Base.{
  String, ◌≡◌, refl, sym, ap, ◌∙◌, subst, ◌≢◌, false, some, ◌==◌, Json, str, Dict, get,
}
use moonproj.Base.{any, some-eq, ◌<◌}
use moonproj.Service.Merge.{merge, get-put}
use moonproj.Service.Rows.{Row, latest, top_revision, insert_row-new}
use moonproj.Service.Database.{Db, insert_audit-new}
use moonproj.Payment.Request.{
  PaymentCommand, create, submit, approve, reject, resubmit, update, void,
}
use moonproj.Payment.Transaction.{next_payload, Next, payment_block, write, row_of}
use moonproj.Payment.Transitions.{
  Move, submitted, approved, rejected, resubmitted, updated, voided, block_moves, written,
}

Move-approved : (c : PaymentCommand) {s t : Json} → Move c s t → s ≡ str "approved" → c ≡ void
Move-approved create m e = elim m [ ]
Move-approved submit (submitted p) e = absurd (cc (rw e at p))
Move-approved approve (approved p) e = absurd (cc (rw e at p))
Move-approved reject (rejected p) e = absurd (cc (rw e at p))
Move-approved resubmit (resubmitted p) e = absurd (cc (rw e at p))
Move-approved update (updated p) e = absurd (cc (rw e at p))
Move-approved void (voided p) e = refl

void-keeps_application :
    (current : Dict) (s : Json) (request : Dict) (event actor : String)
    → get "payment_application" (next_payload void current s request event actor)
      ≡ get "payment_application" current
unfolding next_payload merge
void-keeps_application current s request event actor = simp (get-put)

module _ (command : PaymentCommand) (id : String) (request : Dict) (actor event : String) where
  -- A block whose application has a row already is not that of a `create`.
  committed-ne_create :
      (db : Db) {after : Db × Json} {old : Row}
      → latest id db.payments ≡ some old
      → payment_block command id request actor event db ≡ some after
      → command ≢ create
  unfolding payment_block
  committed-ne_create db {after} {old} found h e =
      let begun : payment_block create id request actor event db ≡ some after =
        subst (λ c. payment_block c id request actor event db ≡ some after) e h in
      cc (rw found at begun)

  -- On an approved application only `void` commits, and it keeps what was applied for.
  pub approved_is_frozen :
      (db : Db) {db' : Db} {result : Json} {old : Row}
      → latest id db.payments ≡ some old
      → get "state" old.payload ≡ str "approved"
      → payment_block command id request actor event db ≡ some (db', result)
      → (command ≡ void)
        × (new : Row) × (latest id db'.payments ≡ some new)
        × (get "payment_application" new.payload ≡ get "payment_application" old.payload)
  approved_is_frozen db {db'} {result} {old} found state h =
      let moved =
        block_moves command id request actor event db (committed-ne_create db found h) h in
      let same : old ≡ moved.old = some-eq (sym found ∙ moved.found) in
      let is_void : command ≡ void =
        Move-approved command moved.move
          (ap (λ (r : Row). get "state" r.payload) (sym same) ∙ state) in
      (
        is_void,
        moved.new,
        moved.newest,
        ap (get "payment_application") moved.payload
            ∙ subst
                (λ c.
                  get "payment_application" (
                    next_payload c moved.old.payload (get "state" moved.new.payload) request event
                      actor)
                  ≡ get "payment_application" old.payload)
                (sym is_void)
                (void-keeps_application moved.old.payload _ request event actor
                  ∙ ap (λ (r : Row). get "payment_application" r.payload) (sym same)),
      )

  pub write-commits :
      (db : Db) (next : Next)
      → top_revision id db.payments < next.revision
      → any (λ x. x.event == event) db.payments ≡ false
      → any (λ s. s == "moonproj:audit:" ◂ event) db.audits ≡ false
      → write command id request actor event db (some next)
        ≡ some (written command id request actor event db next)
  write-commits db next h fresh unaudited = rw (
    insert_row-new (row_of command id request actor event next) db.payments h fresh,
    insert_audit-new ("moonproj:audit:" ◂ event) db.audits unaudited,
  )
