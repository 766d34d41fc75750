-- ===== src/Loan/Transaction.antt =====
-- The block of `loan_command` of scripts/company_postgres_service.py that runs on a new key.
use Prim.Native.String.{◌++◌ as ◌◂◌}
use moonproj.Base.{
  ℕ, String, Bool, true, false, not, Option, none, some, List, [], ◌∷◌, ◌==◌, leb, if◌then◌else◌, ℤ,
  pos, negsuc, ◌+ℤ◌, ◌-ℤ◌, any, Json, null, int, str, obj, Dict, dict, get,
}
use moonproj.Service.Merge.{merge, differs}
use moonproj.Service.Rows.{Row, latest, next_revision, insert_row}
use moonproj.Service.Database.{Db, insert_audit}
use moonproj.Service.Exceptions.{◌>>=◌, ◌>>◌, raise_when}
use moonproj.Loan.Checks.{LoanCommand, create, offset, update, expected_states, next_state}

-- PostgreSQL's text of a JSON value that is no string, and its cast of a text to `bigint`, where
-- `none` is an exception.
pub record Postgres : Type 0 where
  pub printed : Json → String
  pub bigint : String → Option ℤ

-- `->>`: NULL stays NULL.
abbrev text_value : Postgres → Json → Json
text_value postgres null = null
text_value postgres (str s) = str s
text_value postgres value = str (postgres.printed value)

-- The range of `bigint`.
abbrev pub fits : ℤ → Bool
fits (pos n) = leb n 9223372036854775807
fits (negsuc n) = leb n 9223372036854775807

abbrev pub bounded : ℤ → Option ℤ
bounded z = if fits z then some z else none

-- A `bigint` that may be NULL, and the arithmetic on it.
abbrev pub known : Option ℤ → Option (Option ℤ)
known none = none
known (some z) = some (some z)

unfoldable pub cast : Postgres → Json → Option (Option ℤ)
cast postgres null = some none
cast postgres (int z) = known (bounded z)
cast postgres (str s) = known (postgres.bigint s)
cast postgres _ = none

abbrev pub or_zero : Option ℤ → ℤ
or_zero none = pos 0
or_zero (some z) = z

abbrev pub plus : ℤ → Option ℤ → Option (Option ℤ)
plus a none = some none
plus a (some b) = known (bounded (a +ℤ b))

abbrev pub minus : ℤ → Option ℤ → Option (Option ℤ)
minus a none = some none
minus a (some b) = known (bounded (a -ℤ b))

abbrev pub negative : Option ℤ → Bool
negative (some (negsuc n)) = true
negative _ = false

abbrev pub number : Option ℤ → Json
number none = null
number (some z) = int z

-- `NOT (state = ANY(states))`, which a NULL state passes as well.
abbrev pub excluded : List String → Json → Bool
excluded states null = false
excluded states (str s) = not (any (λ t. s == t) states)
excluded states _ = true

-- The revision and the payload of the row that the block inserts.
pub record Next : Type 0 where
  pub revision : ℕ
  pub payload : Dict

-- The changes of an update are an object.
abbrev pub changed : Dict → Json → Option Dict
changed current null = some current
changed current (obj changes) = some (merge current changes)
changed current _ = none

-- `coalesce(request, current)` of what remains
abbrev pub remaining : Postgres → Json → Option ℤ → Option (Option ℤ)
remaining postgres stored (some z) = some (some z)
remaining postgres stored none = cast postgres stored

module _ (postgres : Postgres) (request : Dict) (actor_id event_id : String) where
  abbrev pub stamped : String → List (String × Json)
  stamped state =
      ("apply_state", str state) ∷ ("event_id", str event_id) ∷ ("updated_by", str actor_id) ∷ []

  unfoldable pub first_payload : Dict
  first_payload = merge request (
      dict (
        ("apply_state", str "Draft")
        ∷ ("source_kind", str "command")
        ∷ ("event_id", str event_id)
        ∷ ("updated_by", str actor_id)
        ∷ []))

  unfoldable pub offset_payload : Dict → Option Dict
  offset_payload current = do
    balance ← cast postgres (get "balance_amount_minor" current)
    amount ← cast postgres (get "offset_amount_minor" request)
    next_balance ← plus (or_zero balance) amount
    loan ← cast postgres (get "loan_amount_minor" current)
    next_remain ← minus (or_zero loan) next_balance
    raise_when (negative next_remain)
    some (
        merge current (
          dict (
            ("balance_amount_minor", number next_balance)
            ∷ ("remain_amount_minor", number next_remain)
            ∷ stamped "Approved")))

  unfoldable pub update_payload : Dict → Option Dict
  update_payload current = do
    updated ← changed current (get "changes" request)
    asked ← cast postgres (get "next_remain_amount_minor" request)
    next_remain ← remaining postgres (get "remain_amount_minor" current) asked
    some (merge updated (dict (("remain_amount_minor", number next_remain) ∷ stamped "Draft")))

  unfoldable pub moved_payload : String → Dict → Dict
  moved_payload state current = merge current (
      dict (
        ("apply_state", str state)
        ∷ ("event_id", str event_id)
        ∷ ("updated_by", str actor_id)
        ∷ ("reason", text_value postgres (get "reason" request))
        ∷ []))

  abbrev pub next_payload : LoanCommand → Dict → Option Dict
  next_payload offset current = offset_payload current
  next_payload update current = update_payload current
  next_payload command current = some (moved_payload (next_state command) current)

  module _ (command : LoanCommand) (loan_id : String) where
    abbrev pub begin : Option Row → Option Next
    begin (some current) = none
    begin none = some (record { revision = 1; payload = first_payload })

    abbrev pub advance : List Row → Option Row → Option Next
    advance rows none = none
    advance rows (some current) = do
      raise_when (differs "command" (get "source_kind" current.payload))
      raise_when (excluded (expected_states command) (get "apply_state" current.payload))
      revision ← next_revision loan_id rows
      payload ← next_payload command current.payload
      some (record { revision = revision; payload = payload })

    -- `begin` for `create`, `advance` for every other command.
    abbrev pub decide : LoanCommand → List Row → Option Next
    decide create rows = begin (latest loan_id rows)
    decide _ rows = advance rows (latest loan_id rows)

    abbrev pub row_of : Next → Row
    row_of next = record {
      aggregate_id = loan_id;
      revision = next.revision;
      payload = next.payload;
      event = event_id;
    }

    abbrev text_in : Json → String
    text_in (str s) = s
    text_in _ = ""

    abbrev pub offset_row : Row
    offset_row = record {
      aggregate_id = text_in (get "offset_id" request);
      revision = 1;
      payload = merge request (
          dict (
            ("loan_id", str loan_id)
            ∷ ("source_kind", str "command")
            ∷ ("source_id", str event_id)
            ∷ []));
      event = event_id ◂ ":offset";
    }

    -- An offset has a row of its own.
    abbrev pub with_offset : LoanCommand → List Row → Option (List Row)
    with_offset offset rows = insert_row offset_row rows
    with_offset _ rows = some rows

    abbrev basic_result : Next → List (String × Json) → Dict
    basic_result next more = dict (
        ("loan_id", str loan_id)
        ∷ ("state", text_value postgres (get "apply_state" next.payload))
        ∷ ("revision", int (pos next.revision))
        ∷ ("event_id", str event_id)
        ∷ ("audit_id", str (event_id ◂ ":audit"))
        ∷ ("actor_id", str actor_id)
        ∷ more)

    abbrev pub outcome : LoanCommand → Next → Json
    outcome offset next = obj (
        basic_result next (
          ("offset_id", str (text_in (get "offset_id" request)))
          ∷ ("balance_amount_minor", text_value postgres (get "balance_amount_minor" next.payload))
          ∷ ("remain_amount_minor", text_value postgres (get "remain_amount_minor" next.payload))
          ∷ []))
    outcome _ next = obj (basic_result next [])

    -- The block up to its result, which `commit` writes into the receipt: `none` is an exception.
    unfoldable pub loan_block : Db → Option (Db × Json)
    loan_block db = do
      next ← decide command db.loans
      loans ← insert_row (row_of next) db.loans
      offsets ← with_offset command db.offsets
      audits ← insert_audit ("moonproj:audit:" ◂ event_id) db.audits
      some (record db { loans = loans; offsets = offsets; audits = audits }, outcome command next)
