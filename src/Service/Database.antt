-- ===== src/Service/Database.antt =====
-- The tables that the payment and loan commands of scripts/company_postgres_service.py write, and the
-- receipts that make a command idempotent. `company_record` is kept by the part of it that is
-- written: the receipts by their `source_id` and the `source_id`s of the audit events.
use Prim.Native.String.{◌++◌ as ◌◂◌}
use moonproj.Base.{
  arith, some-eq, raise_if, ap, sym, ◌∙◌, ok-injective, raise_if-eq-ok, >>=-eq-ok, ◌>>◌, bool, int,
  arr, subst, ℕ, String, ◌≡◌, refl, Bool, true, false, ◌&&◌, not, Option, none, some, List, [], ◌∷◌,
  any, ◌==◌, eq_refl, Dict, Json, null, str, obj, json_eq, Result, ok, err, ◌>>=◌, if◌then◌else◌,
}
use moonproj.Service.Rows.{Row}
use moonproj.Service.Quoting.{quotable, parsed, parsed-eq-some}

-- `CommandRejected` with its HTTP status, `ServiceError`, `ValueError`, and an exception of a class that
-- no handler catches.
pub data Fault : Type 0 where
  rejected : ℕ → String → Fault
  service_error : String → Fault
  value_error : String → Fault
  uncaught : String → Fault

abbrev pub Answer : Type 0 → Type 0
Answer A = Result Fault A

-- A command's row in `company_record`; `result` is null until the command's block has written it.
pub record Receipt : Type 0 where
  pub request : Json
  pub result : Json

pub record Db : Type 0 where
  pub receipts : List (String × Receipt)
  pub audits : List String
  pub payments : List Row
  pub loans : List Row
  pub offsets : List Row

module _ {ℓ} {V : Type ℓ} where
  abbrev pub lookup : String → List (String × V) → Option V
  lookup k [] = none
  lookup k ((j, v) ∷ m) = if j == k then some v else lookup k m

-- The answer to a command: the stored request, its result, and whether it was replayed.
pub record Reply : Type 0 where
  pub request : Json
  pub result : Dict
  pub idempotent_replay : Bool

-- What the last `SELECT` of a command's transaction returns.
pub record Returned : Type 0 where
  pub created : Bool
  pub receipt : Receipt

-- The block has returned the database and the result, which is written into the receipt; `none` is
-- an exception, which rolls all back.
abbrev pub commit : String → Json → Db → Option (Db × Json) → Option (Db × Returned)
commit key request db none = none
commit key request db (some (after, result)) =
    let receipt : Receipt = record { request = request; result = result } in
    some (
      record after { receipts = (key, receipt) ∷ db.receipts },
      record { created = true; receipt = receipt },
    )

abbrev pub settle :
    String → Json → (Db → Option (Db × Json)) → Db → Option Receipt → Option (Db × Returned)
settle key request block db (some receipt) =
    some (db, record { created = false; receipt = receipt })
settle key request block db none = commit key request db (block db)

-- The transaction of a command: the receipt is inserted on a new key, and the block runs only then.
-- On a request that is not `quotable` its script is cut off and raises.
unfoldable pub transaction : String → Json → (Db → Option (Db × Json)) → Db → Option (Db × Returned)
transaction key request block db =
    parsed (quotable request) (settle key request block db (lookup key db.receipts))

-- `INSERT` of an audit event; `none` is a second event of the same source.
unfoldable pub insert_audit : String → List String → Option (List String)
insert_audit source audits = if any (λ s. s == source) audits then none else some (source ∷ audits)

-- The answer from a receipt: its result is a dict.
abbrev reply_from : String → Bool → Json → Json → Answer Reply
reply_from message replay request (obj result) =
    ok (record { request = request; result = result; idempotent_replay = replay })
reply_from message replay request _ = err (service_error message)

abbrev replay_of : String → Json → Option Receipt → Answer (Option Reply)
replay_of what request none = ok none
replay_of what request (some receipt) = do
  raise_if (not (json_eq receipt.request request))
      (rejected 409 "Idempotency-Key was already used for another request")
  reply ←
      reply_from ("stored " ◂ what ◂ " command receipt has no result") true receipt.request
        receipt.result
  ok (some reply)

-- The part of a command before its transaction that looks for the key's receipt: a receipt of
-- another request is refused, one of this request answers. `what` names the command in the message.
unfoldable pub replayed : String → String → Json → List (String × Receipt) → Answer (Option Reply)
replayed what key request receipts = replay_of what request (lookup key receipts)

-- The part after it, which reads the returned receipt.
unfoldable pub answered : String → Json → Returned → Answer Reply
answered what request returned = do
  raise_if (not returned.created && not (json_eq returned.receipt.request request))
      (rejected 409 "Idempotency-Key was already used for another request")
  reply_from (what ◂ " command receipt has no result") (not returned.created)
      returned.receipt.request returned.receipt.result

module _ (key : String) (request : Json) (block : Db → Option (Db × Json)) (db : Db) where
  -- A key that has a receipt changes nothing and returns that receipt.
  pub transaction-old :
      {receipt : Receipt}
      → quotable request ≡ true
      → lookup key db.receipts ≡ some receipt
      → transaction key request block db ≡ some (db, record { created = false; receipt = receipt })
  unfolding transaction
  transaction-old whole e = rw (whole, e, settle)

  -- The script of a transaction that commits was whole.
  pub transaction-quotable :
      {after : Db × Returned}
      → transaction key request block db ≡ some after
      → (quotable request ≡ true)
        × (settle key request block db (lookup key db.receipts) ≡ some after)
  unfolding transaction
  transaction-quotable h = parsed-eq-some (quotable request) _ h

  -- After a transaction the key has the receipt that was returned.
  pub transaction-receipt :
      {db' : Db} {r : Returned}
      → transaction key request block db ≡ some (db', r)
      → lookup key db'.receipts ≡ some r.receipt
  transaction-receipt {db'} {r} h =
      go (lookup key db.receipts) refl (block db) (transaction-quotable h).1
    where
      go :
          (o : Option Receipt)
          → lookup key db.receipts ≡ o
          → (b : Option (Db × Json))
          → elim o [
            | some x ↦ settle key request block db (some x)
            | none ↦ commit key request db b
          ]
            ≡ some (db', r)
          → lookup key db'.receipts ≡ some r.receipt
      go (some x) e b k =
          let p = some-eq k in
          subst (λ (q : Db × Returned). lookup key q.0.receipts ≡ some q.1.receipt) p e
      go none e none k = absurd (cc k)
      go none e (some (after, result)) k =
          let p = some-eq k in
          subst (λ (q : Db × Returned). lookup key q.0.receipts ≡ some q.1.receipt) p (rw eq_refl)

abbrev pub receipt_of : Reply → Receipt
receipt_of reply = record { request = reply.request; result = obj reply.result }

reply_from-receipt :
    (message : String) (replay : Bool) (request result : Json) {reply : Reply}
    → reply_from message replay request result ≡ ok reply
    → ◌≡◌ {A = Receipt} (record { request = request; result = result }) (receipt_of reply)
reply_from-receipt message replay request (obj result) h = ap receipt_of (ok-injective h)
reply_from-receipt message replay request null h = absurd (cc h)
reply_from-receipt message replay request (bool b) h = absurd (cc h)
reply_from-receipt message replay request (int z) h = absurd (cc h)
reply_from-receipt message replay request (str s) h = absurd (cc h)
reply_from-receipt message replay request (arr a) h = absurd (cc h)

-- A reply carries the key's receipt: a replayed one the stored receipt,
pub replayed-receipt :
    (what key : String) (request : Json) (receipts : List (String × Receipt)) {reply : Reply}
    → replayed what key request receipts ≡ ok (some reply)
    → lookup key receipts ≡ some (receipt_of reply)
unfolding replayed
replayed-receipt what key request receipts {reply} h = go (lookup key receipts) h
  where
    go :
        (o : Option Receipt)
        → replay_of what request o ≡ ok (some reply)
        → o ≡ some (receipt_of reply)
    go none k = absurd (cc k)
    go (some receipt) k =
        let (same, bound) = raise_if-eq-ok (not (json_eq receipt.request request)) _ _ k in
        let (found, e, last) =
          >>=-eq-ok (reply_from _ true receipt.request receipt.result) _ bound in
        ap some (
          reply_from-receipt _ true receipt.request receipt.result e
          ∙ ap receipt_of (some-eq (ok-injective last)))

reply_from-replay :
    (message : String) (replay : Bool) (request result : Json) {reply : Reply}
    → reply_from message replay request result ≡ ok reply
    → reply.idempotent_replay ≡ replay
reply_from-replay message replay request (obj result) h =
    sym (ap (λ (r : Reply). r.idempotent_replay) (ok-injective h))
reply_from-replay message replay request null h = absurd (cc h)
reply_from-replay message replay request (bool b) h = absurd (cc h)
reply_from-replay message replay request (int z) h = absurd (cc h)
reply_from-replay message replay request (str s) h = absurd (cc h)
reply_from-replay message replay request (arr a) h = absurd (cc h)

pub replayed-is_replay :
    (what key : String) (request : Json) (receipts : List (String × Receipt)) {reply : Reply}
    → replayed what key request receipts ≡ ok (some reply)
    → reply.idempotent_replay ≡ true
unfolding replayed
replayed-is_replay what key request receipts {reply} h = go (lookup key receipts) h
  where
    go :
        (o : Option Receipt)
        → replay_of what request o ≡ ok (some reply)
        → reply.idempotent_replay ≡ true
    go none k = absurd (cc k)
    go (some receipt) k =
        let (same, bound) = raise_if-eq-ok (not (json_eq receipt.request request)) _ _ k in
        let (found, e, last) =
          >>=-eq-ok (reply_from _ true receipt.request receipt.result) _ bound in
        sym (ap (λ (r : Reply). r.idempotent_replay) (some-eq (ok-injective last)))
        ∙ reply_from-replay _ true receipt.request receipt.result e

-- and the reply to a transaction the receipt that the transaction returned.
pub answered-receipt :
    (what : String) (request : Json) (returned : Returned) {reply : Reply}
    → answered what request returned ≡ ok reply
    → returned.receipt ≡ receipt_of reply
unfolding answered
answered-receipt what request returned h =
    let (same, k) =
      raise_if-eq-ok (not returned.created && not (json_eq returned.receipt.request request)) _ _
        h in
    reply_from-receipt _ (not returned.created) returned.receipt.request returned.receipt.result k

pub insert_audit-new :
    (source : String) (audits : List String)
    → any (λ s. s == source) audits ≡ false
    → insert_audit source audits ≡ some (source ∷ audits)
unfolding insert_audit
insert_audit-new source audits fresh = rw fresh

pub insert_audit-eq-some :
    (source : String) (audits : List String) {after : List String}
    → insert_audit source audits ≡ some after
    → after ≡ source ∷ audits
unfolding insert_audit
insert_audit-eq-some source audits h = ground arith
