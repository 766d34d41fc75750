-- ===== src/Service/Kept.antt =====
-- What a command of scripts/company_postgres_service.py keeps of the database, if its block does.
use moonproj.Base.{
  String, ◌≡◌, refl, ap, subst, Option, none, some, List, ok, err, Json, obj, Dict, some-eq,
}
use moonproj.Service.Database.{
  Db, Answer, Reply, Returned, Receipt, transaction, transaction-quotable, lookup, replayed, commit,
  settle,
}
use moonproj.Service.Attempt.{
  Delivery, delivered, lost_before, lost_after, outcome, again, execute, execute_read,
}
use moonproj.Service.Command.{Surroundings, run_command, reply_of, admitted, unless_replayed}

-- A property of the database that does not depend on the receipts.
abbrev pub IgnoresReceipts : (Db → Type 0) → Type 0
IgnoresReceipts P =
    (db : Db) (receipts : List (String × Receipt)) → P db → P (record db { receipts = receipts })

abbrev pub Keeps : (Db → Type 0) → (Db → Option (Db × Json)) → Type 0
Keeps P block = (db : Db) (after : Db × Json) → P db → block db ≡ some after → P after.0

module _ (P : Db → Type 0) (ignores : IgnoresReceipts P) (key : String) (request : Json)
    (block : Db → Option (Db × Json)) (keeps : Keeps P block) where
  transaction-keeps :
      (db : Db) {db' : Db} {r : Returned}
      → P db
      → transaction key request block db ≡ some (db', r)
      → P db'
  transaction-keeps db {db'} {r} p h =
      go (lookup key db.receipts) (transaction-quotable key request block db h).1
    where
      committed :
          (b : Option (Db × Json)) → block db ≡ b → commit key request db b ≡ some (db', r) → P db'
      committed none e k = absurd (cc k)
      committed (some (after, result)) e k =
          subst P (ap (λ (q : Db × Returned). q.0) (some-eq k))
            (ignores after _ (keeps db (after, result) p e))

      go : (o : Option Receipt) → settle key request block db o ≡ some (db', r) → P db'
      go none k = committed (block db) refl k
      go (some receipt) k = subst P (ap (λ (q : Db × Returned). q.0) (some-eq k)) p

  execute-keeps :
      (d : Delivery) (db : Db) → P db → P (execute d (transaction key request block) db).0
  unfolding execute
  execute-keeps d db p = go d (transaction key request block db) refl
    where
      go :
          (d : Delivery) (o : Option (Db × Returned))
          → transaction key request block db ≡ o
          → P (outcome d db o).0
      go delivered (some (after, row)) e = transaction-keeps db p e
      go lost_after (some (after, row)) e = transaction-keeps db p e
      go lost_before (some (after, row)) e = p
      go delivered none e = p
      go lost_after none e = p
      go lost_before none e = p

  pub execute_read-keeps :
      (first second : Delivery) (meanwhile : Db → Db) (db : Db)
      → ((db : Db) → P db → P (meanwhile db))
      → P db
      → P (execute_read first second meanwhile (transaction key request block) db).0
  unfolding execute_read
  execute_read-keeps first second meanwhile db later p =
      go (execute first (transaction key request block) db) (execute-keeps first db p)
    where
      go :
          (attempt : Db × Answer Returned)
          → P attempt.0
          → P (again second meanwhile (transaction key request block) attempt).0
      go (after, ok row) q = q
      go (after, err fault) q = execute-keeps second (meanwhile after) (later after q)

-- The requests of others keep a property.
abbrev pub OthersKeep : (Db → Type 0) → Surroundings → Type 0
OthersKeep P around =
    ((db : Db) → P db → P (around.before db)) × ((db : Db) → P db → P (around.meanwhile db))

-- The block runs only if the checks let it.
pub run_command-keeps :
    (P : Db → Type 0) (what : String) (around : Surroundings) (key : String) (request : Dict)
    (block : Db → Option (Db × Json)) (checks : Answer (Unit {0})) (db : Db)
    → IgnoresReceipts P
    → OthersKeep P around
    → (checks ≡ ok tt → Keeps P block)
    → P db
    → P (run_command what around key request block checks db).0
unfolding run_command
run_command-keeps P what around key request block checks db ignores (before, meanwhile) keeps p =
    go (replayed what key (obj request) db.receipts)
  where
    replied :
        (attempt : Db × Answer Returned)
        → P attempt.0
        → P (reply_of what around key request block attempt).0
    replied (after, ok row) q = q
    replied (after, err fault) q = q

    checked :
        (c : Answer (Unit {0}))
        → (c ≡ ok tt → Keeps P block)
        → P (admitted what around key request block db c).0
    checked (err fault) k = p
    checked (ok done) k = replied _ (
        execute_read-keeps P ignores key (obj request) block (k refl) around.first around.second
          around.meanwhile (around.before db) meanwhile (before db p))

    go :
        (o : Answer (Option Reply))
        → P (unless_replayed what around key request block db checks o).0
    go (err fault) = p
    go (ok (some reply)) = p
    go (ok none) = checked checks keeps
