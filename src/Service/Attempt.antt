-- ===== src/Service/Attempt.antt =====
-- `PsqlPool.execute_read` of scripts/company_postgres_service.py, through which `query_lines` sends
-- every query, the commands' transactions too: a failed call is made once more.
use moonproj.Base.{
  subst, ok-injective, ◌∙◌, String, ◌≡◌, refl, false, Option, none, some, ok, err, Json,
}
use moonproj.Service.Database.{
  Db, Returned, service_error, Answer, transaction, lookup, transaction-receipt, transaction-old,
  transaction-quotable,
}

-- How the environment lets one `PsqlPool.execute` end: with an answer, with a failure before the
-- transaction is committed, or with the answer lost after it (a timeout, a closed session).
pub data Delivery : Type 0 where
  delivered lost_before lost_after : Delivery

abbrev pub outcome : Delivery → Db → Option (Db × Returned) → Db × Answer Returned
outcome delivered db (some (after, row)) = (after, ok row)
outcome lost_after db (some (after, row)) = (after, err (service_error "database query timed out"))
outcome _ db _ = (db, err (service_error "database session closed unexpectedly"))

-- One `execute` of a transaction.
unfoldable pub execute : Delivery → (Db → Option (Db × Returned)) → Db → Db × Answer Returned
execute delivery t db = outcome delivery db (t db)

abbrev pub again :
    Delivery
    → (Db → Db)
    → (Db → Option (Db × Returned))
    → Db × Answer Returned
    → Db × Answer Returned
again second meanwhile t (after, ok row) = (after, ok row)
again second meanwhile t (after, err fault) = execute second t (meanwhile after)

-- `execute_read`; other requests may commit between the two calls.
unfoldable pub execute_read :
    Delivery → Delivery → (Db → Db) → (Db → Option (Db × Returned)) → Db → Db × Answer Returned
execute_read first second meanwhile t db = again second meanwhile t (execute first t db)

module _ (key : String) (request : Json) (block : Db → Option (Db × Json))
    (meanwhile : Db → Db) where
  -- An answered attempt leaves the receipt that it answers under the key.
  execute-receipt :
      (d : Delivery) (db : Db) {row : Returned}
      → (execute d (transaction key request block) db).1 ≡ ok row
      → lookup key (execute d (transaction key request block) db).0.receipts ≡ some row.receipt
  unfolding execute
  execute-receipt d db {row} h = go d (transaction key request block db) refl h
    where
      go :
          (d : Delivery) (o : Option (Db × Returned))
          → transaction key request block db ≡ o
          → (outcome d db o).1 ≡ ok row
          → lookup key (outcome d db o).0.receipts ≡ some row.receipt
      go delivered (some (after, r)) e k =
          subst (λ (x : Returned). lookup key after.receipts ≡ some x.receipt) (ok-injective k)
            (transaction-receipt key request block db e)
      go lost_after (some (after, r)) e k = absurd (cc k)
      go lost_before o e k = absurd (cc k)
      go _ none e k = absurd (cc k)

  -- So does an answered pair of attempts.
  pub execute_read-receipt :
      (first second : Delivery) (db : Db) {row : Returned}
      → let after = execute_read first second meanwhile (transaction key request block) db in
        after.1 ≡ ok row → lookup key after.0.receipts ≡ some row.receipt
  unfolding execute_read
  execute_read-receipt first second db {row} h =
      go (execute first (transaction key request block) db) refl h
    where
      go :
          (attempt : Db × Answer Returned)
          → execute first (transaction key request block) db ≡ attempt
          → (again second meanwhile (transaction key request block) attempt).1 ≡ ok row
          → lookup key (again second meanwhile (transaction key request block) attempt).0.receipts
            ≡ some row.receipt
      go (after, ok r) e k =
          subst
            (λ (x : Db × Answer Returned).
              x.1 ≡ ok row → lookup key x.0.receipts ≡ some row.receipt)
            e (execute-receipt first db) k
      go (after, err fault) e k = execute-receipt second (meanwhile after) k

  -- If the first attempt commits and its answer is lost, the second attempt changes nothing, and,
  -- delivered, it returns the receipt that the first one wrote. The requests that commit in between
  -- keep the key's receipt.
  pub retry_at_most_once :
      (second : Delivery) (db : Db) {db' : Db} {row : Returned}
      → transaction key request block db ≡ some (db', row)
      → lookup key (meanwhile db').receipts ≡ lookup key db'.receipts
      → let answer = execute_read lost_after second meanwhile (transaction key request block) db in
        (answer.0 ≡ meanwhile db')
        × (second ≡ delivered → answer.1 ≡ ok (record { created = false; receipt = row.receipt }))
  unfolding execute_read execute
  retry_at_most_once second db {db'} {row} h kept =
      let old =
        transaction-old key request block (meanwhile db')
          (transaction-quotable key request block db h).0
          (kept ∙ transaction-receipt key request block db h) in
      rw (h, old) (go second)
    where
      go :
          (second : Delivery)
          → let answer =
              outcome second
                (meanwhile db')
                (some (meanwhile db', record { created = false; receipt = row.receipt })) in
            (answer.0 ≡ meanwhile db')
            × (second ≡ delivered
                → answer.1 ≡ ok (record { created = false; receipt = row.receipt }))
      go delivered = (refl, λ _. refl)
      go lost_before = (refl, λ e. absurd (cc e))
      go lost_after = (refl, λ e. absurd (cc e))
