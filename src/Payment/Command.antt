-- ===== src/Payment/Command.antt =====
-- `payment_application_command` of scripts/company_postgres_service.py, with the columns that it takes
-- from `payment_applications`. The reads before the transaction are taken to succeed; a read that
-- fails ends the command before it writes.
use Prim.Native.String.{◌++◌ as ◌◂◌}
use moonproj.Base.{
  String, not, ◌||◌, Option, none, some, Json, null, str, Dict, field_of, get, ok, err, ◌>>◌,
  raise_if, is_identifier, ◌==◌, if◌then◌else◌,
}
use moonproj.Service.Rows.{Row, latest}
use moonproj.Service.Database.{Db, Answer, rejected, value_error, Reply}
use moonproj.Service.Command.{Surroundings, run_command}
use moonproj.Payment.Request.{
  PaymentCommand, create, submit, approve, reject, resubmit, update, void, name_of, Reads,
  payment_request,
}
use moonproj.Payment.Transaction.{payment_block}

abbrev pub command_named : String → Answer PaymentCommand
command_named command_type =
    if command_type == "create"
    then ok create
    else if command_type == "submit"
    then ok submit
    else if command_type == "approve"
    then ok approve
    else if command_type == "reject"
    then ok reject
    else if command_type == "resubmit"
    then ok resubmit
    else if command_type == "update"
    then ok update
    else if command_type == "void"
    then ok void
    else err (rejected 404 "unsupported payment application command")

-- The imported rows of an application, which no command writes: the payload of its projection and of
-- its raw record. `printed` is PostgreSQL's text of a JSON value that is no string.
pub record Imported : Type 0 where
  pub projection : String → Option Json
  pub raw : String → Json
  pub printed : Json → String

-- The columns of `payment_applications` that the command reads.
pub record Current : Type 0 where
  pub operation_state : String
  pub pay_state : String
  pub source_kind : String

module _ (imported : Imported) where
  -- `coalesce(value->>key, otherwise)`
  abbrev text_or : String → Json → String
  text_or otherwise null = otherwise
  text_or otherwise (str s) = s
  text_or otherwise value = imported.printed value

  abbrev imported_state : Json → String
  imported_state raw =
      let pay : String = text_or "" (field_of "pay_state" raw) in
      let apply : String = text_or "" (field_of "apply_state" raw) in
      if pay == "完全支付"
      then "paid"
      else if pay == "部分支付"
      then "partially_paid"
      else if apply == "已审核" || apply == "approved" || apply == "Approved"
      then "approved"
      else if apply == "已驳回" || apply == "rejected" || apply == "Rejected"
      then "rejected"
      else if apply == "申请审批中" || apply == "submitted" || apply == "Approving"
      then "submitted"
      else "draft"

  abbrev imported_current : Json → Option Json → Option Current
  imported_current raw none = none
  imported_current raw (some payload) = some (record {
    operation_state = imported_state raw;
    pay_state =
        text_or (text_or "" (field_of "pay_state" raw))
          (field_of "pay_state" (field_of "application" (field_of "candidate" payload)));
    source_kind = "imported";
  })

  abbrev current_of : String → Option Row → Option Current
  current_of id none = imported_current (imported.raw id) (imported.projection id)
  current_of id (some row) = some (record {
    operation_state = text_or "draft" (get "state" row.payload);
    pay_state = text_or "未支付" (field_of "pay_state" (get "payment_application" row.payload));
    source_kind = "command";
  })

  -- `payment_applications(pool, apply_id, "all", 1)`: a row of a command hides the imported one.
  unfoldable pub current_application : String → Db → Option Current
  current_application id db = current_of id (latest id db.payments)

abbrev requires : PaymentCommand → String → Current → Answer (Unit {0})
requires command expected current = raise_if (not (current.operation_state == expected)) (
    rejected 409 (
      "payment application transition "
      ◂ name_of command
      ◂ " requires "
      ◂ expected
      ◂ ", found "
      ◂ current.operation_state))

abbrev local_draft : Current → Answer (Unit {0})
local_draft current =
    raise_if (not (current.source_kind == "command"))
      (rejected 409 "source payment application is read-only; create a local command draft first")

-- The checks on the current application before the transaction.
unfoldable pub admit : PaymentCommand → Option Current → Answer (Unit {0})
admit create none = ok tt
admit create (some current) = err (rejected 409 "payment application already exists")
admit command none = err (rejected 404 "payment application not found")
admit update (some current) = do local_draft current; requires update "submitted" current
admit void (some current) = do
  local_draft current
  raise_if (not (current.pay_state == "未支付"))
      (rejected 409 "paid payment application cannot be voided")
  raise_if (current.operation_state == "voided")
      (rejected 409 "payment application is already voided")
admit submit (some current) = requires submit "draft" current
admit approve (some current) = requires approve "submitted" current
admit reject (some current) = requires reject "submitted" current
admit resubmit (some current) = requires resubmit "rejected" current

abbrev pub requested :
    Imported
    → Surroundings
    → PaymentCommand
    → String
    → String
    → Db
    → Answer (String × Dict)
    → Db × Answer Reply
requested imported around command actor_id key db (err fault) = (db, err fault)
requested imported around command actor_id key db (ok (id, request)) =
    run_command "payment application" around key request
      (payment_block command id request actor_id
        ("payment-application:" ◂ name_of command ◂ ":" ◂ key))
      (do
        raise_if (not (is_identifier id)) (value_error "invalid payment application id")
        admit command (current_application imported id db))
      db

abbrev pub named :
    Reads
    → Imported
    → Surroundings
    → Option String
    → Dict
    → String
    → String
    → Db
    → Answer PaymentCommand
    → Db × Answer Reply
named reads imported around apply_id body actor_id key db (err fault) = (db, err fault)
named reads imported around apply_id body actor_id key db (ok command) =
    requested imported around command actor_id key db
      (payment_request reads command apply_id body actor_id)

unfoldable pub payment_application_command :
    Reads
    → Imported
    → Surroundings
    → String
    → Option String
    → Dict
    → String
    → String
    → Db
    → Db × Answer Reply
payment_application_command reads imported around command_type apply_id body actor_id key db =
    named reads imported around apply_id body actor_id key db (do
      raise_if (not (is_identifier key))
          (rejected 422 "Idempotency-Key contains unsupported characters")
      command_named command_type)
