-- ===== src/Loan/Request.antt =====
-- `_loan_request` of scripts/company_postgres_service.py: the request that is stored, by command. The
-- loan that the request depends on is read in the database as it is before the checks.
use Prim.Native.String.{◌++◌ as ◌◂◌}
use moonproj.Base.{
  ℕ, String, Bool, true, false, not, ◌||◌, Option, none, some, List, [], ◌∷◌, ◌++◌, ok, err, ◌>>=◌,
  raise_if, Json, int, str, obj, Dict, dict, get, get_or, is_text, if◌then◌else◌, ℤ, pos, strip,
  is_identifier, ◌>>◌, leb_ℤ, ltb_ℤ, ◌-ℤ◌, contains,
}
use moonproj.Service.Rows.{Row, latest}
use moonproj.Service.Database.{Db, Answer, Fault, rejected, value_error, uncaught}
use moonproj.Loan.Checks.{
  LoanCommand, name_of, Python, invalid, loan_required_text, loan_required_identifier, int_of,
  loan_amount_minor, offset_amount_minor, loan_authority, stripped_text, create, submit, offset,
  sync_from_workflow, update, void,
}
use moonproj.Loan.Create.{create_request}

-- The exception of `int(value)`: a `TypeError` unless the value is a text.
abbrev int_fault : Json → Fault
int_fault (str s) = value_error "int()"
int_fault _ = uncaught "int()"

abbrev int_or_raise : Json → Option ℤ → Answer ℤ
int_or_raise value none = err (int_fault value)
int_or_raise value (some z) = ok z

-- `int(value)` of a stored value
abbrev pub stored_number : Json → Answer ℤ
stored_number value = int_or_raise value (int_of value)

-- `int(payload.get(key, 0))`
abbrev pub stored_int : String → Dict → Answer ℤ
stored_int key payload = stored_number (get_or key (int (pos 0)) payload)

abbrev read_only : String
read_only = "imported loans are read-only; create a local loan first"

abbrev pub local_loan : Option Row → Answer Dict
local_loan none = err (rejected 409 read_only)
local_loan (some row) = do
  raise_if (not (is_text "command" (get "source_kind" row.payload))) (rejected 409 read_only)
  ok row.payload

-- The fields that every request but a `create` starts with.
abbrev pub header : LoanCommand → String → String → List (String × Json)
header command loan_id actor_id =
    ("command_type", str (name_of command))
    ∷ ("loan_id", str loan_id)
    ∷ ("actor_id", str actor_id)
    ∷ []

unfoldable pub offset_request : Python → Option Row → String → Dict → String → String → Answer Dict
offset_request python current loan_id body actor_id key = do
  payload ← local_loan current
  employee_id ← loan_required_identifier payload "employee_id"
  principal_id ← loan_required_identifier payload "principal_id"
  amount_minor ← offset_amount_minor body
  remain_minor ← stored_int "remain_amount_minor" payload
  raise_if (ltb_ℤ remain_minor (pos amount_minor))
      (invalid "offset amount exceeds remaining loan balance")
  offset_date ← loan_required_text body "offset_date"
  authority ← loan_authority body actor_id principal_id employee_id "advance:offset" amount_minor
  ok (
      dict (
        header offset loan_id actor_id
        ++ ("offset_id", str ("offset-" ◂ key))
          ∷ ("offset_amount_minor", int (pos amount_minor))
          ∷ ("offset_date", str offset_date)
          ∷ ("related_expense_id", str (stripped_text python body "related_expense_id"))
          ∷ ("remark", str (stripped_text python body "remark"))
          ∷ ("authority", obj authority)
          ∷ []))

-- The changes that an update makes so far, and the fields that the request gains by them.
abbrev pub Fields : Type 0
Fields = List (String × Json)

abbrev pub subject_change : Dict → Answer Fields
subject_change body =
    if contains "subject" body
    then (do subject ← loan_required_text body "subject"; ok (("subject", str subject) ∷ []))
    else ok []

abbrev pub found_loan : Option Row → Answer Dict
found_loan none = err (rejected 404 "loan not found")
found_loan (some row) = ok row.payload

-- A new amount, and what then remains of the loan.
abbrev pub amount_change : Python → Option Row → Dict → Answer (Option (ℕ × ℤ))
amount_change python current body =
    if contains "loan_amount" body || contains "amount_minor" body
    then (do
      amount_minor ← loan_amount_minor python body
      payload ← found_loan current
      balance_minor ← stored_int "balance_amount_minor" payload
      raise_if (leb_ℤ (pos amount_minor) balance_minor)
          (invalid "loan amount must exceed already offset balance")
      ok (some (amount_minor, pos amount_minor -ℤ balance_minor)))
    else ok none

abbrev pub stripped_field : String → Json → Answer Fields
stripped_field key (str s) = ok ((key, str (strip s)) ∷ [])
stripped_field key _ = err (invalid (key ◂ " must be text"))

abbrev pub text_change : String → Dict → Answer Fields
text_change key body = if contains key body then stripped_field key (get key body) else ok []

abbrev pub loan_amount : Option (ℕ × ℤ) → Fields
loan_amount none = []
loan_amount (some (amount, remain)) = ("loan_amount_minor", int (pos amount)) ∷ []

abbrev pub next_remain : Option (ℕ × ℤ) → Fields
next_remain none = []
next_remain (some (amount, remain)) = ("next_remain_amount_minor", int remain) ∷ []

abbrev pub empty_fields : Fields → Bool
empty_fields [] = true
empty_fields (f ∷ fs) = false

unfoldable pub update_request : Python → Option Row → String → Dict → String → Answer Dict
update_request python current loan_id body actor_id = do
  subject ← subject_change body
  amount ← amount_change python current body
  pay_unit ← text_change "pay_unit" body
  proj_guid ← text_change "proj_guid" body
  let changes : Fields = subject ++ loan_amount amount ++ pay_unit ++ proj_guid
  raise_if (empty_fields changes) (invalid "update requires at least one mutable field")
  ok (
      dict (
        header update loan_id actor_id
        ++ next_remain amount
        ++ ("changes", obj (dict changes)) ∷ []))

abbrev pub reason_of : Json → Answer String
reason_of (str s) = ok (strip s)
reason_of _ = err (invalid "reason must be text")

abbrev pub required_id : Option String → Answer String
required_id none = err (invalid "loan_id is required")
required_id (some id) = do raise_if (not (is_identifier id)) (invalid "loan_id is required"); ok id

unfoldable pub loan_request :
    Python → LoanCommand → Option String → Dict → String → String → Db → Answer (String × Dict)
loan_request python create loan_id body actor_id key db = create_request python body actor_id key
loan_request python submit loan_id body actor_id key db = do
  id ← required_id loan_id
  ok (id, dict (header submit id actor_id))
loan_request python offset loan_id body actor_id key db = do
  id ← required_id loan_id
  request ← offset_request python (latest id db.loans) id body actor_id key
  ok (id, request)
loan_request python sync_from_workflow loan_id body actor_id key db = do
  id ← required_id loan_id
  err (
      rejected 409
        "workflow synchronization is gated until wf_process_instance source rows are available")
loan_request python update loan_id body actor_id key db = do
  id ← required_id loan_id
  request ← update_request python (latest id db.loans) id body actor_id
  ok (id, request)
loan_request python void loan_id body actor_id key db = do
  id ← required_id loan_id
  reason ← reason_of (get_or "reason" (str "") body)
  ok (id, dict (header void id actor_id ++ ("reason", str reason) ∷ []))
