-- ===== src/Service/Command.antt =====
-- The way of a command of scripts/company_postgres_service.py from its stored request to its answer:
-- the receipt of its key, its checks, its transaction, its answer. `payment_application_command` and
-- `loan_command` write it out with their own names, which `what` stands for.
use moonproj.Base.{
  ◌≡◌, false, String, refl, ap, ◌∙◌, true, Option, none, some, Json, obj, Dict, ok, err,
  ok-injective, json_eq,
}
use moonproj.Service.Database.{
  Db, Answer, Reply, Returned, transaction, lookup, replayed, answered, receipt_of,
  replayed-receipt, answered-receipt, replayed-is_replay,
}
use moonproj.Service.Attempt.{Delivery, execute_read, execute_read-receipt}

-- What happens around the transaction: the requests that commit between the checks and it, the two
-- deliveries, and the requests that commit between the two attempts.
pub record Surroundings : Type 0 where
  pub before : Db → Db
  pub first : Delivery
  pub meanwhile : Db → Db
  pub second : Delivery

module _ (what : String) (around : Surroundings) (key : String) (request : Dict)
    (block : Db → Option (Db × Json)) where
  abbrev pub reply_of : Db × Answer Returned → Db × Answer Reply
  reply_of (db, ok returned) = (db, answered what (obj request) returned)
  reply_of (db, err fault) = (db, err fault)

  abbrev pub sent : Db → Db × Answer Returned
  sent db =
      execute_read around.first around.second around.meanwhile (transaction key (obj request) block)
        (around.before db)

  abbrev pub admitted : Db → Answer (Unit {0}) → Db × Answer Reply
  admitted db (err fault) = (db, err fault)
  admitted db (ok done) = reply_of (sent db)

  abbrev pub unless_replayed : Db → Answer (Unit {0}) → Answer (Option Reply) → Db × Answer Reply
  unless_replayed db checks (err fault) = (db, err fault)
  unless_replayed db checks (ok (some reply)) = (db, ok reply)
  unless_replayed db checks (ok none) = admitted db checks

  -- The command, once its request is made: `checks` is what it asks of the aggregate before its
  -- transaction, `block` what it does in it.
  unfoldable pub run_command : Answer (Unit {0}) → Db → Db × Answer Reply
  run_command checks db = unless_replayed db checks (replayed what key (obj request) db.receipts)

-- The database holds, under the key, the receipt of the answer.
abbrev pub Stored : String → Db × Answer Reply → Type 0
Stored key after =
    (reply : Reply) → after.1 ≡ ok reply → lookup key after.0.receipts ≡ some (receipt_of reply)

module _ (what : String) (around : Surroundings) (key : String) (request : Dict)
    (block : Db → Option (Db × Json)) where
  reply_of-Stored :
      (attempt : Db × Answer Returned)
      → ((row : Returned) → attempt.1 ≡ ok row → lookup key attempt.0.receipts ≡ some row.receipt)
      → Stored key (reply_of what around key request block attempt)
  reply_of-Stored (db, err fault) h reply k = absurd (cc k)
  reply_of-Stored (db, ok row) h reply k =
      h row refl ∙ ap some (answered-receipt _ (obj request) row k)

  admitted-Stored :
      (db : Db) (checks : Answer (Unit {0}))
      → Stored key (admitted what around key request block db checks)
  admitted-Stored db (err fault) reply k = absurd (cc k)
  admitted-Stored db (ok done) reply k =
      reply_of-Stored _
        (λ row.
          execute_read-receipt key (obj request) block around.meanwhile around.first around.second
            (around.before db))
        reply k

  pub run_command-Stored :
      (checks : Answer (Unit {0})) (db : Db)
      → Stored key (run_command what around key request block checks db)
  unfolding run_command
  run_command-Stored checks db = go (replayed what key (obj request) db.receipts) refl
    where
      go :
          (o : Answer (Option Reply))
          → replayed what key (obj request) db.receipts ≡ o
          → Stored key (unless_replayed what around key request block db checks o)
      go (err fault) e reply k = absurd (cc k)
      go (ok (some found)) e reply k =
          replayed-receipt _ key (obj request) db.receipts
            (e ∙ ap (λ r. ok (some r)) (ok-injective k))
      go (ok none) e reply k = admitted-Stored db checks reply k

  pub run_command-replay :
      (checks : Answer (Unit {0})) (db : Db) (stored : Json) (result : Dict)
      → lookup key db.receipts ≡ some (record { request = stored; result = obj result })
      → json_eq stored (obj request) ≡ true
      → run_command what around key request block checks db
        ≡ (db, ok (record { request = stored; result = result; idempotent_replay = true }))
  unfolding run_command replayed
  run_command-replay checks db stored result found same = rw (found, same)

  -- An answer that is no replay was let through by the checks.
  pub run_command-checked :
      (checks : Answer (Unit {0})) (db : Db) {reply : Reply}
      → (run_command what around key request block checks db).1 ≡ ok reply
      → reply.idempotent_replay ≡ false
      → checks ≡ ok tt
  unfolding run_command
  run_command-checked checks db {reply} h new =
      go (replayed what key (obj request) db.receipts) refl checks h
    where
      go :
          (o : Answer (Option Reply))
          → replayed what key (obj request) db.receipts ≡ o
          → (c : Answer (Unit {0}))
          → (unless_replayed what around key request block db c o).1 ≡ ok reply
          → c ≡ ok tt
      go (err fault) e c k = absurd (cc k)
      go (ok (some found)) e c k = absurd (
          cc (
            replayed-is_replay what key (obj request) db.receipts
                (e ∙ ap (λ r. ok (some r)) (ok-injective k)),
            new,
          ))
      go (ok none) e (err fault) k = absurd (cc k)
      go (ok none) e (ok done) k = refl
