-- ===== src/Loan/Command.antt =====
-- `loan_command` of scripts/company_postgres_service.py. The reads before the transaction are taken to
-- succeed; a read that fails ends the command before it writes.
use Prim.Native.String.{◌++◌ as ◌◂◌}
use moonproj.Base.{
  ◌&&◌, String, Bool, true, false, not, Option, none, some, List, [], ◌∷◌, any, ◌==◌, str, Dict,
  get, get_or, is_text, is_identifier, ok, err, ◌>>◌, raise_if,
}
use moonproj.Service.Rows.{Row, latest}
use moonproj.Service.Database.{Db, Answer, Reply, rejected}
use moonproj.Service.Command.{Surroundings, run_command}
use moonproj.Loan.Checks.{
  python_str, LoanCommand, create, submit, update, void, name_of, command_named, expected_states,
  Python, invalid, forbidden,
}
use moonproj.Loan.Request.{loan_request}
use moonproj.Loan.Transaction.{Postgres, loan_block}

-- What `loans(pool, loan_id, None, 1)` finds among the imported loans, whose identifiers are given in
-- the order of the query: the limit of one row is applied before the identifiers are compared. The
-- view's loans of commands add nothing to the loan's own rows, which are read as well.
unfoldable pub imported : List String → String → Bool
imported [] loan_id = false
imported (first ∷ rest) loan_id = first == loan_id

abbrev joined : List String → String
joined [] = ""
joined (s ∷ []) = s
joined (s ∷ t ∷ ts) = s ◂ "," ◂ joined (t ∷ ts)

-- `str(payload.get("apply_state", ""))`
abbrev pub state_of : Python → Dict → String
state_of python payload = python_str python (get_or "apply_state" (str "") payload)

-- `command_type in {"submit", "update", "void"}`
abbrev pub is_applicants : LoanCommand → Bool
is_applicants submit = true
is_applicants update = true
is_applicants void = true
is_applicants _ = false

-- The checks on a loan that is there.
abbrev pub admit_current : Python → LoanCommand → String → Dict → Answer (Unit {0})
admit_current python command actor_id payload = do
  raise_if (not (is_text "command" (get "source_kind" payload)))
      (rejected 409 "imported loans are read-only")
  raise_if (not (any (λ t. state_of python payload == t) (expected_states command))) (
      rejected 409 (
        "loan transition "
        ◂ name_of command
        ◂ " requires "
        ◂ joined (expected_states command)
        ◂ ", found "
        ◂ state_of python payload))
  raise_if (is_applicants command && not (is_text actor_id (get "applied_by" payload)))
      (forbidden "only the loan applicant may change this loan")

-- The checks before the transaction.
unfoldable pub admit : Python → LoanCommand → String → Option Row → Bool → Answer (Unit {0})
admit python create actor_id none false = ok tt
admit python create actor_id current found = err (rejected 409 "loan already exists")
admit python command actor_id none true =
    err (rejected 409 "imported loans are read-only; create a local loan first")
admit python command actor_id none false = err (rejected 404 "loan not found")
admit python command actor_id (some row) found = admit_current python command actor_id row.payload

module _ (python : Python) (postgres : Postgres) (raw_loans : List String)
    (around : Surroundings) where
  abbrev pub event_of : LoanCommand → String → String
  event_of command key = "employee_advance:" ◂ name_of command ◂ ":" ◂ key

  abbrev pub requested :
      LoanCommand → String → String → Db → Answer (String × Dict) → Db × Answer Reply
  requested command actor_id key db (err fault) = (db, err fault)
  requested command actor_id key db (ok (id, request)) =
      run_command "loan" around key request
        (loan_block postgres request actor_id (event_of command key) command id)
        (admit python command actor_id (latest id db.loans) (imported raw_loans id)) db

  abbrev pub named :
      Option String → Dict → String → String → Db → Answer LoanCommand → Db × Answer Reply
  named loan_id body actor_id key db (err fault) = (db, err fault)
  named loan_id body actor_id key db (ok command) =
      requested command actor_id key db (loan_request python command loan_id body actor_id key db)

  unfoldable pub loan_command :
      String → Option String → Dict → String → String → Db → Db × Answer Reply
  loan_command command_type loan_id body actor_id key db = named loan_id body actor_id key db (do
    raise_if (not (is_identifier key)) (invalid "Idempotency-Key contains unsupported characters")
    command_named command_type)
