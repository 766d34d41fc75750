-- ===== src/Loan/Tests.antt =====
-- Commands on a loan of scripts/company_postgres_service.py.
use moonproj.Base.{
  ℕ, String, ◌≡◌, refl, inl, true, false, none, some, [], ◌∷◌, ◌==◌, ok, err, int, str, obj, Dict,
  end, dict, get, json_eq, pos, strip, is_identifier, is_currency, any,
}
use moonproj.Service.Rows.{Row, latest, insert_row, top_revision, next_revision}
use moonproj.Service.Merge.{merge, put}
use moonproj.Service.Database.{Db, replayed, transaction, insert_audit, answered, lookup}
use moonproj.Service.Attempt.{delivered, execute_read, execute}
use moonproj.Service.Command.{Surroundings, run_command}
use moonproj.Loan.Checks.{
  expected_states, invalid, loan_required_text, loan_required_identifier, loan_amount_minor,
  offset_amount_minor, loan_authority, create, submit, offset,
}
use moonproj.Loan.Create.{create_request}
use moonproj.Loan.Request.{offset_request, loan_request}
use moonproj.Loan.Transaction.{first_payload, moved_payload, loan_block}
use moonproj.Loan.Command.{imported, state_of, admit, loan_command}
use moonproj.Loan.Balance.{Amounts}
use moonproj.Loan.Ledger.{AreBalanced}
use moonproj.Loan.Account.{
  loan_command-AreBalanced, answered_loan_command_is_stored,
  answered_loan_command_is_the_applicants,
}
use moonproj.Loan.Authority.{IsGranted, IsOwed, create-IsGranted, offset-IsOwed}
use moonproj.Service.Quoting.{quotable, quotable_text}
use moonproj.Loan.Sample.{
  python, postgres, around, no_rows, body, request, created_result, draft, approved_row, approved,
  offset_body, offset_asked,
}

asked_for : loan_request python create none body "u1" "k1" no_rows ≡ ok ("l1", request)
unfolding loan_request create_request loan_required_text loan_required_identifier loan_amount_minor
    loan_authority strip is_identifier is_currency
asked_for = refl

create-IsGranted_example :
    (employee_id : String) × (principal_id : String) × (n : ℕ) × (get "employee_id" request
      ≡ str employee_id)
    × (get "principal_id" request ≡ str principal_id)
    × (get "applied_by" request ≡ str "u1")
    × (get "loan_amount_minor" request ≡ int (pos n))
    × IsGranted body "u1" principal_id employee_id "advance:create" n
create-IsGranted_example =
    create-IsGranted python none body "u1" "k1" no_rows "l1" request asked_for

offset_asked_for :
    loan_request python offset (some "l1") offset_body "u1" "k2" approved ≡ ok ("l1", offset_asked)
unfolding loan_request offset_request offset_amount_minor loan_required_text
    loan_required_identifier loan_authority strip is_identifier latest
offset_asked_for = refl

offset-IsOwed_example :
    (row : Row) × (latest "l1" approved.loans ≡ some row) × IsOwed offset_body "u1" row offset_asked
offset-IsOwed_example =
    offset-IsOwed python (some "l1") offset_body "u1" "k2" approved "l1" offset_asked
      offset_asked_for

abbrev created : Db
created = (loan_command python postgres [] around "create" none body "u1" "k1" no_rows).0

creates :
    (loan_command python postgres [] around "create" none body "u1" "k1" no_rows).1
    ≡ ok (record { request = obj request; result = created_result; idempotent_replay = true })
unfolding loan_command loan_request create_request loan_required_text loan_required_identifier
    loan_amount_minor loan_authority strip is_identifier is_currency replayed imported latest admit
    run_command execute_read execute transaction quotable quotable_text loan_block first_payload
    insert_row insert_audit answered merge put json_eq
creates = refl

loan_command-AreBalanced_example : AreBalanced created
loan_command-AreBalanced_example =
    loan_command-AreBalanced python postgres [] around "create" none body "u1" "k1" no_rows
      (λ db p. p, λ db p. p) tt

answered_loan_command_is_stored_example :
    lookup "k1" created.receipts
    ≡ some (record { request = obj request; result = obj created_result })
answered_loan_command_is_stored_example =
    answered_loan_command_is_stored python postgres [] around "create" none body "u1" "k1" no_rows
      creates

abbrev amounts : Amounts approved_row.payload
amounts = record {
  loan = 50000;
  balance = 20000;
  remain = 30000;
  state = "Approved";
  has_loan = refl;
  has_balance = refl;
  has_remain = refl;
  has_state = refl;
  adds_up = refl;
  settled = inl refl;
}

abbrev prompt : Surroundings
prompt = record around { first = delivered }

abbrev submit_asked : Dict
submit_asked =
    dict (("command_type", str "submit") ∷ ("loan_id", str "l1") ∷ ("actor_id", str "u1") ∷ [])

submit_asked_for :
    loan_request python submit (some "l1") end "u1" "k3" draft ≡ ok ("l1", submit_asked)
unfolding loan_request is_identifier
submit_asked_for = refl

submits :
    (loan_command python postgres [] prompt "submit" (some "l1") end "u1" "k3" draft).1
    ≡ ok (record {
      request = obj submit_asked;
      result = dict (
          ("loan_id", str "l1")
          ∷ ("state", str "Approving")
          ∷ ("revision", int (pos 2))
          ∷ ("event_id", str "employee_advance:submit:k3")
          ∷ ("audit_id", str "employee_advance:submit:k3:audit")
          ∷ ("actor_id", str "u1")
          ∷ []);
      idempotent_replay = false;
    })
unfolding loan_command loan_request is_identifier replayed imported latest admit run_command
    execute_read execute transaction quotable quotable_text loan_block moved_payload insert_row
    next_revision top_revision insert_audit answered merge put
submits = refl

answered_loan_command_is_the_applicants_example :
    (row : Row) × (latest "l1" draft.loans ≡ some row)
    × (get "source_kind" row.payload ≡ str "command")
    × (get "applied_by" row.payload ≡ str "u1")
    × (any (λ t. state_of python row.payload == t) (expected_states submit) ≡ true)
answered_loan_command_is_the_applicants_example =
    answered_loan_command_is_the_applicants python postgres [] prompt "submit" (some "l1") end "u1"
      "k3" draft submit "l1" submit_asked refl refl submit_asked_for submits refl

-- More than what remains is refused before the transaction, with status 422.
offset_too_large :
    loan_request python offset
      (some "l1")
      (merge offset_body (dict (("offset_amount_minor", int (pos 30001)) ∷ [])))
      "u1"
      "k2"
      approved
    ≡ err (invalid "offset amount exceeds remaining loan balance")
unfolding loan_request offset_request offset_amount_minor loan_required_text
    loan_required_identifier strip is_identifier latest merge put
offset_too_large = refl
