-- ===== src/Loan/Checks.antt =====
-- The commands on loans of scripts/company_postgres_service.py, and `_loan_required_text`,
-- `_loan_amount_minor` and `_loan_authority`, the checks on the parts of a command's body.
use Prim.Native.String.{◌++◌ as ◌◂◌}
use moonproj.Base.{
  ℕ, String, true, not, Option, none, some, List, [], ◌∷◌, ◌==◌, ok, err, ◌>>=◌, raise_if, Json,
  null, bool, int, str, obj, Dict, dict, get, get_or, is_text, is_true, if◌then◌else◌, ℤ, pos,
  negsuc, strip, is_identifier, parse_int, ◌>>◌, bool_int, ltb, is_null, ltb_ℤ, is_filled,
}
use moonproj.Service.Database.{Fault, Answer, rejected}

pub data LoanCommand : Type 0 where
  create submit offset sync_from_workflow update void : LoanCommand

abbrev pub name_of : LoanCommand → String
name_of create = "create"
name_of submit = "submit"
name_of offset = "offset"
name_of sync_from_workflow = "sync_from_workflow"
name_of update = "update"
name_of void = "void"

abbrev pub command_named : String → Answer LoanCommand
command_named command_type =
    if command_type == "create"
    then ok create
    else if command_type == "submit"
    then ok submit
    else if command_type == "offset"
    then ok offset
    else if command_type == "sync_from_workflow"
    then ok sync_from_workflow
    else if command_type == "update"
    then ok update
    else if command_type == "void"
    then ok void
    else err (rejected 404 "unsupported loan command")

-- The states that a command is allowed in, and the one that it leads to. `create` asks for no loan,
-- and `sync_from_workflow` is refused before its states are looked up.
abbrev pub expected_states : LoanCommand → List String
expected_states create = []
expected_states submit = "Draft" ∷ []
expected_states offset = "Approved" ∷ []
expected_states sync_from_workflow = []
expected_states update = "Draft" ∷ []
expected_states void = "Draft" ∷ "Rejected" ∷ []

abbrev pub next_state : LoanCommand → String
next_state create = "Draft"
next_state submit = "Approving"
next_state offset = "Approved"
next_state sync_from_workflow = ""
next_state update = "Draft"
next_state void = "Voided"

-- Python's text of a value that is no text, and a decimal amount in hundredths: `int` of
-- `(Decimal(str(value)) * 100).quantize(Decimal("1"))`, where `none` is its exception.
pub record Python : Type 0 where
  pub repr : Json → String
  pub hundredths : Json → Option ℤ

abbrev pub invalid : String → Fault
invalid message = rejected 422 message

abbrev pub forbidden : String → Fault
forbidden message = rejected 403 message

abbrev pub text_of : Json → String
text_of (str s) = s
text_of _ = ""

-- `_loan_required_text(body, key)`
unfoldable pub loan_required_text : Dict → String → Answer String
loan_required_text body key = do
  raise_if (not (is_filled (get key body))) (invalid (key ◂ " is required"))
  ok (strip (text_of (get key body)))

-- `_loan_required_text(body, key, identifier=True)`
unfoldable pub loan_required_identifier : Dict → String → Answer String
loan_required_identifier body key = do
  cleaned ← loan_required_text body key
  raise_if (not (is_identifier cleaned)) (invalid (key ◂ " contains unsupported characters"))
  ok cleaned

-- `int(value)`; `none` is a TypeError or a ValueError.
abbrev pub int_of : Json → Option ℤ
int_of (int z) = some z
int_of (bool b) = some (bool_int b)
int_of (str s) = parse_int s
int_of _ = none

-- An amount: a positive integer.
abbrev pub positive : String → Option ℤ → Answer ℕ
positive key none = err (invalid (key ◂ " must be an integer amount in minor units"))
positive key (some (negsuc n)) = err (invalid "loan amount must be > 0")
positive key (some (pos n)) = if ltb 0 n then ok n else err (invalid "loan amount must be > 0")

abbrev present_amount : String → Json → Answer ℕ
present_amount key value = do
  raise_if (is_null value) (invalid (key ◂ " is required"))
  positive key (int_of value)

abbrev decimal_amount : Option ℤ → Answer Json
decimal_amount none = err (invalid "loan_amount must be a decimal number")
decimal_amount (some z) = ok (int z)

-- The amount in minor units, or else `loan_amount` in units.
abbrev amount_value : Python → Dict → Answer Json
amount_value python body =
    if not (is_null (get "amount_minor" body))
    then ok (get "amount_minor" body)
    else if is_null (get "loan_amount" body)
    then ok null
    else decimal_amount (python.hundredths (get "loan_amount" body))

-- `_loan_amount_minor(body)`
unfoldable pub loan_amount_minor : Python → Dict → Answer ℕ
loan_amount_minor python body = do
  value ← amount_value python body
  present_amount "amount_minor" value

-- `_loan_amount_minor(body, "offset_amount_minor")`
unfoldable pub offset_amount_minor : Dict → Answer ℕ
offset_amount_minor body = present_amount "offset_amount_minor" (get "offset_amount_minor" body)

abbrev pub granted : Json → Answer Dict
granted (obj grant) = ok grant
granted _ = err (forbidden "authority grant is required")

abbrev pub granted_amount : Option ℤ → Answer ℤ
granted_amount none = err (forbidden "authority grant max_amount_minor is required")
granted_amount (some z) = ok z

-- `_loan_authority`
unfoldable pub loan_authority : Dict → String → String → String → String → ℕ → Answer Dict
loan_authority body actor_id principal_id employee_id capability amount_minor = do
  grant ← granted (get "authority" body)
  raise_if (not (is_true (get "active" grant))) (forbidden "authority grant is inactive")
  raise_if (not (is_text principal_id (get "principal_id" grant)))
      (forbidden "authority grant principal does not match loan")
  raise_if (not (is_text actor_id (get "actor_id" grant)))
      (forbidden "authority grant actor does not match signed actor")
  raise_if (not (is_text capability (get "capability" grant)))
      (forbidden ("authority grant must allow " ◂ capability))
  raise_if (not (is_text ("employee:" ◂ employee_id) (get "scope" grant)))
      (forbidden "authority grant scope must be employee-scoped")
  max_amount ← granted_amount (int_of (get "max_amount_minor" grant))
  raise_if (ltb_ℤ max_amount (pos amount_minor)) (forbidden "authority grant amount is exceeded")
  ok (
      dict (
        ("active", bool true)
        ∷ ("principal_id", str principal_id)
        ∷ ("actor_id", str actor_id)
        ∷ ("capability", str capability)
        ∷ ("scope", str ("employee:" ◂ employee_id))
        ∷ ("max_amount_minor", int max_amount)
        ∷ []))

-- `str(value)`
abbrev pub python_str : Python → Json → String
python_str python (str s) = s
python_str python value = python.repr value

-- `str(body.get(key, "")).strip()`
abbrev pub stripped_text : Python → Dict → String → String
stripped_text python body key = strip (python_str python (get_or key (str "") body))
