-- ===== src/Payment/Transaction.antt =====
-- The transaction of `payment_application_command` of scripts/company_postgres_service.py: the block
-- that runs on a new key.
use Prim.Native.String.{◌++◌ as ◌◂◌}
use moonproj.Base.{
  ℕ, String, Option, none, some, Json, str, int, null, obj, pos, Dict, dict, get, List, [], ◌∷◌,
  if◌then◌else◌,
}
use moonproj.Service.Merge.{merge, strip_nulls, differs, equals}
use moonproj.Service.Rows.{Row, latest, next_revision, insert_row}
use moonproj.Service.Database.{Db, insert_audit}
use moonproj.Payment.Request.{
  PaymentCommand, create, submit, approve, reject, resubmit, update, void,
}

-- The next state of a command on the current one; `none` is an exception.
unfoldable pub next_state : PaymentCommand → Json → Option Json
next_state create s = none
next_state submit s = if differs "draft" s then none else some (str "submitted")
next_state approve s = if differs "submitted" s then none else some (str "approved")
next_state reject s = if differs "submitted" s then none else some (str "rejected")
next_state resubmit s = if differs "rejected" s then none else some (str "submitted")
next_state update s = if differs "submitted" s then none else some s
next_state void s = if equals "voided" s then none else some (str "voided")

-- `application || changes`; an application that is no object does not arise.
abbrev merged_application : Json → Dict → Json
merged_application (obj a) changes = obj (merge a changes)
merged_application _ changes = null

abbrev changes_of : Dict → Dict
changes_of request = strip_nulls (
    dict (
      ("subject", get "subject" request)
      ∷ ("amount_minor", get "amount_minor" request)
      ∷ ("apply_type_code", get "apply_type_code" request)
      ∷ []))

abbrev stamped : Json → String → String → List (String × Json)
stamped state event_id actor_id =
    ("state", state) ∷ ("event_id", str event_id) ∷ ("updated_by", str actor_id) ∷ []

unfoldable pub next_payload : PaymentCommand → Dict → Json → Dict → String → String → Dict
next_payload update current state request event_id actor_id = merge current (
    dict (
      ("state", state)
      ∷ ("event_id", str event_id)
      ∷ ("updated_by", str actor_id)
      ∷ (
        "payment_application",
        merged_application (get "payment_application" current) (changes_of request),
      )
      ∷ []))
next_payload _ current state request event_id actor_id = merge current (
    dict (
      ("state", state)
      ∷ ("event_id", str event_id)
      ∷ ("updated_by", str actor_id)
      ∷ ("reason", get "reason" request)
      ∷ []))

unfoldable pub first_payload : Dict → String → String → Dict
first_payload request event_id actor_id = dict (
    ("format", str "moonproj.company.payment-application-command.v1")
    ∷ ("state", str "draft")
    ∷ ("payment_application", obj request)
    ∷ ("event_id", str event_id)
    ∷ ("updated_by", str actor_id)
    ∷ [])

-- The revision, the state and the payload of the row that the block inserts.
pub record Next : Type 0 where
  pub revision : ℕ
  pub state : Json
  pub payload : Dict

module _ (command : PaymentCommand) (apply_id : String) (request : Dict)
    (actor_id event_id : String) where
  abbrev pub moved : Dict → Option Json → Option ℕ → Option Next
  moved current none next_revision = none
  moved current (some state) none = none
  moved current (some state) (some revision) = some (record {
    revision = revision;
    state = state;
    payload = next_payload command current state request event_id actor_id;
  })

  abbrev pub advance : List Row → Option Row → Option Next
  advance rows none = none
  advance rows (some current) =
      moved current.payload (next_state command (get "state" current.payload))
        (next_revision apply_id rows)

  abbrev pub begin : Option Row → Option Next
  begin (some current) = none
  begin none = some (record {
    revision = 1;
    state = str "draft";
    payload = first_payload request event_id actor_id;
  })

  -- `begin` for `create`, `advance` for every other command.
  abbrev pub decide : PaymentCommand → List Row → Option Next
  decide create rows = begin (latest apply_id rows)
  decide _ rows = advance rows (latest apply_id rows)

  abbrev pub row_of : Next → Row
  row_of next = record {
    aggregate_id = apply_id;
    revision = next.revision;
    payload = next.payload;
    event = event_id;
  }

  abbrev pub outcome : Next → Json
  outcome next = obj (
      dict (
        ("apply_id", str apply_id)
        ∷ ("state", next.state)
        ∷ ("revision", int (pos next.revision))
        ∷ ("event_id", str event_id)
        ∷ ("audit_id", str (event_id ◂ ":audit"))
        ∷ ("actor_id", str actor_id)
        ∷ []))

  abbrev pub audited : Db → Next → List Row → Option (List String) → Option (Db × Json)
  audited db next rows none = none
  audited db next rows (some audits) =
      some (record db { payments = rows; audits = audits }, outcome next)

  abbrev pub inserted : Db → Next → Option (List Row) → Option (Db × Json)
  inserted db next none = none
  inserted db next (some rows) =
      audited db next rows (insert_audit ("moonproj:audit:" ◂ event_id) db.audits)

  abbrev pub write : Db → Option Next → Option (Db × Json)
  write db none = none
  write db (some next) = inserted db next (insert_row (row_of next) db.payments)

  -- The block up to its result, which `commit` writes into the receipt: `none` is an exception.
  unfoldable pub payment_block : Db → Option (Db × Json)
  payment_block db = write db (decide command db.payments)
