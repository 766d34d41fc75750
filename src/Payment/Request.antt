-- ===== src/Payment/Request.antt =====
-- `_payment_text` and `_payment_request` of scripts/company_postgres_service.py: the checks on the
-- body of a payment command and the request that is stored.
use Prim.Native.String.{◌++◌ as ◌◂◌}
use moonproj.Base.{
  ℕ, String, Bool, true, false, not, ◌&&◌, ◌||◌, ok, err, ◌>>=◌, ◌>>◌, raise_if, Option, none, some,
  Json, bool, int, str, Dict, dict, get, get_or, is_filled, is_nil, strip, is_identifier,
  is_currency, upper, ℤ, pos, ◌+ℤ◌, ltb_ℤ, ltb, bool_int, List, [], ◌∷◌, ◌++◌, is_text, is_null,
  is_int, if◌then◌else◌,
}
use moonproj.Service.Database.{Fault, rejected, Answer}

pub data PaymentCommand : Type 0 where
  create submit approve reject resubmit update void : PaymentCommand

abbrev pub name_of : PaymentCommand → String
name_of create = "create"
name_of submit = "submit"
name_of approve = "approve"
name_of reject = "reject"
name_of resubmit = "resubmit"
name_of update = "update"
name_of void = "void"

-- The contract that a new application draws on, as the query for it returns it.
pub record Contract : Type 0 where
  pub amount_minor : ℤ
  pub project_id : Json

-- What the request reads besides the body: the contracts, the plans of a contract, the sum of the
-- imported applications on a contract, a random identifier and the date.
pub record Reads : Type 0 where
  pub contract : String → Option Contract
  pub has_plan : String → String → Bool
  pub imported_amount : String → ℤ
  pub fresh : String
  pub today : String

abbrev invalid : String → Fault
invalid message = rejected 422 message

abbrev stripped : Json → String
stripped (str s) = strip s
stripped _ = ""

-- `_payment_text(body, key)`
unfoldable pub payment_text : Dict → String → Answer String
payment_text body key = do
  raise_if (not (is_filled (get key body))) (invalid (key ◂ " is required"))
  ok (stripped (get key body))

-- `_payment_text(body, key, identifier=True)`
unfoldable pub payment_identifier : Dict → String → Answer String
unfolding payment_text
payment_identifier body key = do
  value ← payment_text body key
  raise_if (not (is_identifier value)) (invalid (key ◂ " contains unsupported characters"))
  ok value

-- A positive integer that is no Boolean.
abbrev pub positive_amount : Json → Answer ℕ
positive_amount (int (pos n)) =
    if ltb 0 n then ok n else err (invalid "amount_minor must be a positive integer")
positive_amount _ = err (invalid "amount_minor must be a positive integer")

abbrev text_value : String → Json → Answer String
text_value message (str s) = ok (strip s)
text_value message _ = err (invalid message)

abbrev filled_value : String → Json → Answer String
filled_value message v = do raise_if (not (is_filled v)) (invalid message); ok (stripped v)

-- `int(value) if isinstance(value, int) else 0`
abbrev int_or_zero : Json → ℤ
int_or_zero (int z) = z
int_or_zero (bool b) = bool_int b
int_or_zero _ = pos 0

-- `value not in (None, "", False)`
abbrev is_given : Json → Bool
is_given v = not (is_null v || is_text "" v || is_int 0 v)

abbrev optional_field : String → Dict → List (String × Json)
optional_field key body =
    let value : Json = get key body in if is_given value then (key, value) ∷ [] else []

abbrev contract_of : Option Contract → Answer Contract
contract_of none = err (rejected 404 "contract not found")
contract_of (some c) = ok c

-- The identifier of a new application: the body's, or a random one.
abbrev new_identifier : Reads → Json → Answer String
new_identifier reads v =
    let id : String = if is_filled v then stripped v else "PAY-" ◂ reads.fresh in
    do raise_if (not (is_identifier id)) (invalid "apply_id contains unsupported characters"); ok id

-- The amount already applied for on a contract and the new amount stay within the contract. Only
-- imported applications are summed.
unfoldable pub within_contract : Reads → String → ℕ → Contract → Bool
within_contract reads contract_id amount_minor contract =
    not (ltb_ℤ contract.amount_minor (reads.imported_amount contract_id +ℤ pos amount_minor))

unfoldable pub create_request : Reads → Dict → String → Answer (String × Dict)
unfolding within_contract payment_identifier
create_request reads body actor_id = do
  apply_id ← new_identifier reads (get "apply_id" body)
  apply_code ← payment_identifier body "apply_code"
  contract_id ← payment_identifier body "contract_id"
  subject ← payment_text body "subject"
  currency ← payment_identifier body "currency"
  raise_if (not (is_currency (upper currency))) (invalid "currency must be a three-letter code")
  amount_minor ← positive_amount (get "amount_minor" body)
  contract ← contract_of (reads.contract contract_id)
  plan_id ← text_value "plan_id must be text" (get_or "plan_id" (str "") body)
  raise_if (not (is_nil plan_id) && not (reads.has_plan plan_id contract_id))
      (invalid "plan_id does not belong to contract")
  raise_if (not (within_contract reads contract_id amount_minor contract))
      (rejected 409 "payment application exceeds contract amount")
  apply_type_code ←
      filled_value "apply_type_code must be text"
        (get_or "apply_type_code" (str "WORK_PROGRESS") body)
  ok (
    apply_id,
    dict (
        ("command_type", str "create")
        ∷ ("apply_id", str apply_id)
        ∷ ("apply_code", str apply_code)
        ∷ ("contract_id", str contract_id)
        ∷ ("plan_id", str plan_id)
        ∷ ("apply_class", int (int_or_zero (get_or "apply_class" (int (pos 0)) body)))
        ∷ ("apply_type_code", str apply_type_code)
        ∷ ("subject", str subject)
        ∷ ("amount_minor", int (pos amount_minor))
        ∷ ("currency", str (upper currency))
        ∷ ("apply_date", get_or "apply_date" (str reads.today) body)
        ∷ ("applied_by", str actor_id)
        ∷ ("project_id", contract.project_id)
        ∷ ("actor_id", str actor_id)
        ∷ (optional_field "milestone_id" body
            ++ optional_field "early_pay_reason" body
            ++ optional_field "force_early" body)),
  )

-- A field of an update: absent (`None`), or a value that passes its check.
abbrev update_field : String → (Json → Answer Json) → Dict → Answer (List (String × Json))
update_field key check body =
    if is_null (get key body)
    then ok []
    else (do value ← check (get key body); ok ((key, value) ∷ []))

abbrev checked_text : String → Json → Answer Json
checked_text message v = do text ← filled_value message v; ok (str text)

abbrev checked_amount : Json → Answer Json
checked_amount v = do n ← positive_amount v; ok (int (pos n))

abbrev given : List (String × Json) → Bool
given [] = false
given (x ∷ xs) = true

unfoldable pub update_request : String → Dict → String → Answer Dict
update_request apply_id body actor_id = do
  subject ← update_field "subject" (checked_text "subject must be non-empty text") body
  amount ← update_field "amount_minor" checked_amount body
  code ← update_field "apply_type_code" (checked_text "apply_type_code must be non-empty text") body
  raise_if (not (given subject || given amount || given code))
      (invalid "update requires subject, amount_minor, or apply_type_code")
  ok (
      dict (
        ("command_type", str "update")
        ∷ ("apply_id", str apply_id)
        ∷ ("actor_id", str actor_id)
        ∷ (subject ++ amount ++ code)))

unfoldable pub transition_request : PaymentCommand → String → Dict → String → Answer Dict
transition_request command apply_id body actor_id = do
  reason ← text_value "reason must be text" (get_or "reason" (str "") body)
  ok (
      dict (
        ("command_type", str (name_of command))
        ∷ ("apply_id", str apply_id)
        ∷ ("reason", str reason)
        ∷ ("actor_id", str actor_id)
        ∷ []))

abbrev required_id : Option String → Answer String
required_id none = err (invalid "apply_id is required")
required_id (some id) = do raise_if (not (is_identifier id)) (invalid "apply_id is required"); ok id

unfoldable pub payment_request :
    Reads → PaymentCommand → Option String → Dict → String → Answer (String × Dict)
payment_request reads create apply_id body actor_id = create_request reads body actor_id
payment_request reads update apply_id body actor_id = do
  id ← required_id apply_id
  request ← update_request id body actor_id
  ok (id, request)
payment_request reads command apply_id body actor_id = do
  id ← required_id apply_id
  request ← transition_request command id body actor_id
  ok (id, request)
