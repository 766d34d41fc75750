-- ===== src/Payment/Tests.antt =====
-- A payment application of scripts/company_postgres_service.py that is created and submitted, and the
-- theorems on its commands there.
use moonproj.Service.Command.{run_command}
use moonproj.Base.{
  ◌≡◌, refl, ap, true, false, none, some, ◌∷◌, ok, str, obj, get, json_eq, ◌+ℤ◌, All, ◌⊎◌, false,
  dict, [], strip, is_identifier, is_currency, upper,
}
use moonproj.Service.Rows.{Row, latest, top_revision, next_revision, insert_row}
use moonproj.Service.Database.{
  Answer, Db, lookup, Reply, Returned, transaction, insert_audit, replayed, answered,
}
use moonproj.Service.Attempt.{delivered, lost_after, execute, execute_read, retry_at_most_once}
use moonproj.Payment.Request.{
  payment_text, payment_identifier, within_contract, create_request, payment_request,
}
use moonproj.Payment.Request.{create, submit, void}
use moonproj.Payment.Transaction.{next_state, first_payload, payment_block}
use moonproj.Payment.Command.{current_application, admit, payment_application_command}
use moonproj.Payment.Transitions.{Moved}
use moonproj.Payment.Committed.{transaction_moves}
use moonproj.Payment.Progress.{approved_is_frozen}
use moonproj.Service.Quoting.{quotable, quotable_text}
use moonproj.Service.Settled.{Replays}
use moonproj.Payment.States.{HasState, block_keeps_states}
use moonproj.Payment.Idempotent.{answered_command_is_stored, repeated_command_replays}
use moonproj.Payment.Sample.{
  reads, imported, around, no_rows, body, request, created_result, created, submit_request,
  submitted, submitted_result, approved_row, approved, void_request, voided, voided_result,
}

asked : payment_request reads create none body "u1" ≡ ok ("a1", request)
unfolding payment_request create_request within_contract payment_identifier payment_text strip
    is_identifier is_currency upper ◌+ℤ◌
asked = refl

creates : payment_application_command reads imported around "create" none body "u1" "k1" no_rows ≡ (
  created,
  ok (record { request = obj request; result = created_result; idempotent_replay = true }),
)
unfolding payment_application_command payment_request create_request within_contract
    payment_identifier payment_text strip is_identifier is_currency upper replayed
    current_application latest admit run_command execute_read execute transaction quotable
    quotable_text payment_block top_revision insert_row insert_audit answered json_eq ◌+ℤ◌
creates = refl

answered_command_is_stored_example :
    lookup "k1"
      (payment_application_command reads imported around "create" none body "u1" "k1"
        no_rows).0.receipts
    ≡ some (record { request = obj request; result = obj created_result })
answered_command_is_stored_example =
    answered_command_is_stored reads imported around "k1" "create" none body "u1" no_rows
      {reply = record { request = obj request; result = created_result; idempotent_replay = true }}
      (ap (λ (x : Db × Answer Reply). x.1) creates)

identified : is_identifier "k1" ≡ true
unfolding is_identifier
identified = refl

same_request : json_eq (obj request) (obj request) ≡ true
unfolding json_eq
same_request = refl

repeated_command_replays_example :
    payment_application_command reads imported around "create" none body "u1" "k1" created ≡ (
      created,
      ok (record { request = obj request; result = created_result; idempotent_replay = true }),
    )
repeated_command_replays_example =
    repeated_command_replays reads imported around "k1" "create" none body "u1" created create "a1"
      request created_result (obj request) identified refl asked refl same_request

submits :
    payment_block submit "a1" submit_request "u1" "payment-application:submit:k2" created
    ≡ some (submitted, submitted_result)
unfolding payment_block latest next_revision top_revision next_state first_payload insert_row
    insert_audit
submits = refl

abbrev submitted_returned : Returned
submitted_returned = record {
  created = true;
  receipt = record { request = obj submit_request; result = submitted_result };
}

abbrev submitted_after : Db
submitted_after = record submitted {
  receipts = ("k2", submitted_returned.receipt) ∷ created.receipts;
}

submits_with_receipt :
    transaction "k2"
      (obj submit_request)
      (payment_block submit "a1" submit_request "u1" "payment-application:submit:k2")
      created
    ≡ some (submitted_after, submitted_returned)
unfolding transaction payment_block latest next_revision top_revision next_state first_payload
    insert_row insert_audit quotable quotable_text
submits_with_receipt = refl

transaction_moves_example :
    Replays "k2"
      (obj submit_request)
      (payment_block submit "a1" submit_request "u1" "payment-application:submit:k2")
      created
      submitted_after
      submitted_returned
    ⊎ ((lookup "k2" created.receipts ≡ none)
        × (true ≡ true)
        × (obj submit_request ≡ obj submit_request)
        × (submitted_after.receipts ≡ ("k2", submitted_returned.receipt) ∷ created.receipts)
        × Moved submit "a1" submit_request "u1" "payment-application:submit:k2" created
            (record submitted_after { receipts = created.receipts }, submitted_result))
transaction_moves_example =
    transaction_moves submit "a1" submit_request "u1" "payment-application:submit:k2" "k2" created
      (λ e. cc) submits_with_receipt

cut_off : quotable (obj (dict (("subject", str "5$$ each") ∷ []))) ≡ false
unfolding quotable quotable_text
cut_off = refl

created-HasState : All HasState created.payments
unfolding first_payload
created-HasState = (refl, tt)

block_keeps_states_example : All HasState submitted.payments
block_keeps_states_example =
    block_keeps_states submit "a1" submit_request "u1" "payment-application:submit:k2" created
      created-HasState submits

voids :
    payment_block void "a1" void_request "u1" "payment-application:void:k3" approved
    ≡ some (voided, voided_result)
unfolding payment_block latest next_revision top_revision next_state insert_row insert_audit
voids = refl

approved_latest : latest "a1" approved.payments ≡ some approved_row
unfolding latest
approved_latest = refl

approved_is_frozen_example :
    (void ≡ void)
    × (new : Row) × (latest "a1" voided.payments ≡ some new)
    × (get "payment_application" new.payload ≡ get "payment_application" approved_row.payload)
approved_is_frozen_example =
    approved_is_frozen void "a1" void_request "u1" "payment-application:void:k3" approved
      approved_latest refl voids

first_attempt :
    transaction "k1"
      (obj request)
      (payment_block create "a1" request "u1" "payment-application:create:k1")
      no_rows
    ≡ some (
      created,
      record {
        created = true;
        receipt = record { request = obj request; result = obj created_result };
      },
    )
unfolding transaction payment_block latest insert_row insert_audit quotable quotable_text
first_attempt = refl

retry_at_most_once_example :
    let answer =
      execute_read lost_after delivered
        (λ db. db)
        (transaction "k1"
          (obj request)
          (payment_block create "a1" request "u1" "payment-application:create:k1"))
        no_rows in
    (answer.0 ≡ created)
    × (delivered ≡ delivered
        → answer.1
          ≡ ok (record {
            created = false;
            receipt = record { request = obj request; result = obj created_result };
          }))
retry_at_most_once_example =
    retry_at_most_once "k1" (obj request)
      (payment_block create "a1" request "u1" "payment-application:create:k1") (λ db. db) delivered
      no_rows first_attempt refl
