-- ===== src/Payment/Committed.antt =====
-- What a transaction of `payment_application_command` of scripts/company_postgres_service.py that commits
-- has done to the database.
use moonproj.Base.{
  String, ◌≡◌, ◌≢◌, sym, ap, ◌∙◌, subst, ◌⊎◌, inl, inr, true, ap₂, none, some, ◌∷◌, Json, obj, Dict,
}
use moonproj.Service.Database.{Db, Returned, lookup, transaction}
use moonproj.Service.Settled.{Replays, transaction-ends}
use moonproj.Payment.Request.{PaymentCommand, create}
use moonproj.Payment.Transaction.{payment_block}
use moonproj.Payment.Transitions.{Moved, block_moves}

module _ (command : PaymentCommand) (id : String) (request : Dict) (actor event key : String) where
  -- A transaction of a command that is not `create`, when it commits, either finds the receipt of its
  -- key, returns it and changes nothing; or its key is new, the application has a latest row, and one
  -- row is inserted, with the next revision, which becomes the latest: its state comes by a `Move` of
  -- the command from that of the row before and its payload is the command's, the latest rows of the
  -- other applications, the loans and the offsets stay, one audit event is added, and so is one
  -- receipt, of the request and of the result that names the new state and revision.
  pub transaction_moves :
      (db : Db) {db' : Db} {r : Returned}
      → command ≢ create
      → transaction key (obj request) (payment_block command id request actor event) db
        ≡ some (db', r)
      → Replays key (obj request) (payment_block command id request actor event) db db' r
        ⊎ ((lookup key db.receipts ≡ none)
            × (r.created ≡ true)
            × (r.receipt.request ≡ obj request)
            × (db'.receipts ≡ (key, r.receipt) ∷ db.receipts)
            × Moved command id request actor event db
                (record db' { receipts = db.receipts }, r.receipt.result))
  transaction_moves db {db'} {r} ne h =
      elim (transaction-ends key (obj request) (payment_block command id request actor event) db
        h) [
          | inl old ↦ inl old
          | inr (free, made, asked, after, ran, result, e) ↦
              let moved = block_moves command id request actor event db ne ran in
              inr (
                free,
                made,
                asked,
                ap (λ (x : Db). x.receipts) e,
                subst (Moved command id request actor event db)
                    (ap₂ (λ (x : Db) (v : Json). (x, v))
                      (ap (λ rows. record after.0 { receipts = rows }) moved.receipts
                        ∙ ap (λ (x : Db). record x { receipts = db.receipts }) (sym e))
                      (sym result))
                    moved,
              )
        ]
