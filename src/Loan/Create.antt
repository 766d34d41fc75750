-- ===== src/Loan/Create.antt =====
-- The request of a new loan, as `_loan_request` of scripts/company_postgres_service.py makes it.
use Prim.Native.String.{◌++◌ as ◌◂◌}
use moonproj.Base.{
  String, Bool, false, not, [], ◌∷◌, ◌==◌, ok, ◌>>=◌, raise_if, Json, null, int, str, arr, obj, nil,
  Dict, dict, get, get_or, if◌then◌else◌, pos, all, strip, is_identifier, is_currency, upper, ◌>>◌,
  is_null, is_filled,
}
use moonproj.Base.{items}
use moonproj.Service.Database.{Answer}
use moonproj.Loan.Checks.{
  Python, invalid, text_of, loan_required_text, loan_required_identifier, loan_amount_minor,
  loan_authority, stripped_text,
}

abbrev valid_identifier : Json → Bool
valid_identifier (str s) = is_identifier s
valid_identifier _ = false

-- The identifier of a new loan: the body's, or one made from the key.
abbrev pub new_identifier : String → Json → Answer String
new_identifier key null = do
  raise_if (not (is_identifier ("loan-" ◂ key))) (invalid "loan_id contains unsupported characters")
  ok ("loan-" ◂ key)
new_identifier key value = do
  raise_if (not (valid_identifier value)) (invalid "loan_id contains unsupported characters")
  ok (text_of value)

abbrev pub currency_of : Dict → Answer String
currency_of body =
    if is_null (get "currency" body)
    then ok "CNY"
    else (do currency ← loan_required_identifier body "currency"; ok (upper currency))

-- `isinstance(value, list) and all(…)`
abbrev pub evidence_ids : Json → Bool
evidence_ids (arr values) = all valid_identifier (items values)
evidence_ids _ = false

unfoldable pub create_request : Python → Dict → String → String → Answer (String × Dict)
create_request python body actor_id key = do
  identifier ← new_identifier key (get "loan_id" body)
  employee_id ← loan_required_identifier body "employee_id"
  principal_id ← loan_required_identifier body "principal_id"
  scope ← loan_required_identifier body "scope"
  raise_if (not (scope == ("employee:" ◂ employee_id)))
      (invalid "scope must equal employee:<employee_id>")
  amount_minor ← loan_amount_minor python body
  authority ← loan_authority body actor_id principal_id employee_id "advance:create" amount_minor
  let loan_code : Json = get_or "loan_code" (str ("JK-" ◂ identifier)) body
  raise_if (not (is_filled loan_code)) (invalid "loan_code must be non-empty text")
  subject ← loan_required_text body "subject"
  currency ← currency_of body
  apply_dept_guid ← loan_required_identifier body "apply_dept_guid"
  apply_date ← loan_required_text body "apply_date"
  raise_if (not (is_currency currency)) (invalid "currency must be a three-letter code")
  raise_if (not (evidence_ids (get_or "evidence_ids" (arr nil) body)))
      (invalid "evidence_ids must be identifier strings")
  ok (
    identifier,
    dict (
        ("command_type", str "create")
        ∷ ("loan_id", str identifier)
        ∷ ("loan_code", str (strip (text_of loan_code)))
        ∷ ("subject", str subject)
        ∷ ("employee_id", str employee_id)
        ∷ ("principal_id", str principal_id)
        ∷ ("scope", str scope)
        ∷ ("currency", str currency)
        ∷ ("loan_amount_minor", int (pos amount_minor))
        ∷ ("balance_amount_minor", int (pos 0))
        ∷ ("remain_amount_minor", int (pos amount_minor))
        ∷ ("apply_dept_guid", str apply_dept_guid)
        ∷ ("applied_by", str actor_id)
        ∷ ("apply_date", str apply_date)
        ∷ ("pay_unit", str (stripped_text python body "pay_unit"))
        ∷ ("proj_guid", str (stripped_text python body "proj_guid"))
        ∷ ("process_instance_guid", str "")
        ∷ ("evidence_ids", get_or "evidence_ids" (arr nil) body)
        ∷ ("authority", obj authority)
        ∷ ("state", str "Draft")
        ∷ ("source_kind", str "command")
        ∷ []),
  )
