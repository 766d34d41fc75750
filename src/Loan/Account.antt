-- ===== src/Loan/Account.antt =====
-- `loan_command` of scripts/company_postgres_service.py as a whole: what it keeps of the loans, what its
-- answers mean, and who may ask for what.
use moonproj.Base.{
  String, ◌≡◌, refl, ap, subst, Bool, true, false, not, Option, some, List, ◌==◌, ok, err, raise_if,
  str, Dict, get, is_identifier, ◌>>◌, any,
}
use moonproj.Base.{is_text-true, not-false}
use moonproj.Service.Rows.{Row, latest, latest-All}
use moonproj.Service.Database.{Db, Answer, Reply, lookup, receipt_of}
use moonproj.Service.Command.{Surroundings, Stored, run_command-Stored, run_command-checked}
use moonproj.Service.Kept.{OthersKeep, run_command-keeps}
use moonproj.Loan.Checks.{LoanCommand, command_named, expected_states, Python, invalid}
use moonproj.Loan.Request.{loan_request}
use moonproj.Loan.Transaction.{Postgres}
use moonproj.Loan.Command.{imported, state_of, is_applicants, admit, requested, named, loan_command}
use moonproj.Loan.Balance.{IsBalanced}
use moonproj.Loan.Fit.{loan_request-IsFit}
use moonproj.Loan.Admission.{admit-IsUnset, admit-eq-ok}
use moonproj.Loan.Ledger.{AreBalanced, loan_block-Keeps}

module _ (python : Python) (postgres : Postgres) (raw_loans : List String)
    (around : Surroundings) where
  requested-keeps :
      (command : LoanCommand) (loan_id : Option String) (body : Dict) (actor_id key : String)
      (db : Db)
      → OthersKeep AreBalanced around
      → AreBalanced db
      → AreBalanced
          (requested python postgres raw_loans around command actor_id key db
            (loan_request python command loan_id body actor_id key db)).0
  requested-keeps command loan_id body actor_id key db others known =
      go (loan_request python command loan_id body actor_id key db) refl
    where
      go :
          (o : Answer (String × Dict))
          → loan_request python command loan_id body actor_id key db ≡ o
          → AreBalanced (requested python postgres raw_loans around command actor_id key db o).0
      go (err fault) e = known
      go (ok (id, request)) e =
          run_command-keeps AreBalanced "loan" around key request _ _ db (λ d receipts p. p) others
            (λ admitted. loan_block-Keeps postgres request actor_id _ command id (
              loan_request-IsFit python command loan_id body actor_id key db id request e
                (λ is_update.
                  admit-IsUnset python actor_id (latest id db.loans) (imported raw_loans id)
                    (λ row found. latest-All IsBalanced id db.loans known found)
                    (subst
                      (λ c.
                        admit python c actor_id (latest id db.loans) (imported raw_loans id)
                        ≡ ok tt)
                      is_update admitted))))
            known

  -- Whatever a loan command answers, if every loan of a command was balanced (what was lent is what
  -- has been offset and what remains, and nothing is offset before the approval), every one of them
  -- still is, provided that the requests that commit in between keep this too.
  pub loan_command-AreBalanced :
      (command_type : String) (loan_id : Option String) (body : Dict) (actor_id key : String)
      (db : Db)
      → OthersKeep AreBalanced around
      → AreBalanced db
      → AreBalanced
          (loan_command python postgres raw_loans around command_type loan_id body actor_id key
            db).0
  unfolding loan_command
  loan_command-AreBalanced command_type loan_id body actor_id key db others known =
      go (raise_if (not (is_identifier key)) _ >> command_named command_type)
    where
      go :
          (o : Answer LoanCommand)
          → AreBalanced (named python postgres raw_loans around loan_id body actor_id key db o).0
      go (err fault) = known
      go (ok command) = requested-keeps command loan_id body actor_id key db others known

  -- After an answered loan command the key has a receipt with the request and the result of the
  -- answer.
  pub answered_loan_command_is_stored :
      (command_type : String) (loan_id : Option String) (body : Dict) (actor_id key : String)
      (db : Db) {reply : Reply}
      → let after =
          loan_command python postgres raw_loans around command_type loan_id body actor_id key db in
        after.1 ≡ ok reply → lookup key after.0.receipts ≡ some (receipt_of reply)
  unfolding loan_command
  answered_loan_command_is_stored command_type loan_id body actor_id key db {reply} =
      go (raise_if (not (is_identifier key)) _ >> command_named command_type) reply
    where
      asked :
          (command : LoanCommand) (o : Answer (String × Dict))
          → Stored key (requested python postgres raw_loans around command actor_id key db o)
      asked command (err fault) reply k = absurd (cc k)
      asked command (ok (id, request)) reply k =
          run_command-Stored "loan" around key request _ _ db reply k

      go :
          (o : Answer LoanCommand)
          → Stored key (named python postgres raw_loans around loan_id body actor_id key db o)
      go (err fault) reply k = absurd (cc k)
      go (ok command) reply k =
          asked command (loan_request python command loan_id body actor_id key db) reply k

  -- A submit, update or void that is answered, and not as a replay, was asked for by the applicant of
  -- a loan of a command that is in a state that allows it.
  pub answered_loan_command_is_the_applicants :
      (command_type : String) (loan_id : Option String) (body : Dict) (actor_id key : String)
      (db : Db) (command : LoanCommand) (id : String) (request : Dict) {reply : Reply}
      → command_named command_type ≡ ok command
      → is_applicants command ≡ true
      → loan_request python command loan_id body actor_id key db ≡ ok (id, request)
      → (loan_command python postgres raw_loans around command_type loan_id body actor_id key db).1
        ≡ ok reply
      → reply.idempotent_replay ≡ false
      → (row : Row) × (latest id db.loans ≡ some row)
        × (get "source_kind" row.payload ≡ str "command")
        × (get "applied_by" row.payload ≡ str actor_id)
        × (any (λ t. state_of python row.payload == t) (expected_states command) ≡ true)
  unfolding loan_command
  answered_loan_command_is_the_applicants command_type loan_id body actor_id key db command id
        request {reply} name theirs asked answer new =
      let passed = run (is_identifier key) answer in
      let (row, found, local, expected, applied) =
        admit-eq-ok python command actor_id (latest id db.loans) (imported raw_loans id)
          (λ e. cc (theirs, ap is_applicants e))
          (run_command-checked "loan" around key request _ _ db passed new) in
      (row, found, local, is_text-true actor_id _ (not-false (rw theirs at applied)), expected)
    where
      run :
          (b : Bool)
          → (named python postgres raw_loans around loan_id body actor_id key db (
              raise_if (not b) (invalid "Idempotency-Key contains unsupported characters")
              >> command_named command_type)).1
            ≡ ok reply
          → (requested python postgres raw_loans around command actor_id key db
              (ok (id, request))).1
            ≡ ok reply
      run true k = rw (name, asked) at k
      run false k = absurd (cc k)
