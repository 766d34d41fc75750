-- ===== src/Payment/Idempotent.antt =====
-- The idempotency of `payment_application_command` of scripts/company_postgres_service.py.
use moonproj.Base.{
  String, ◌≡◌, true, not, Option, some, Json, obj, Dict, ok, err, ◌>>◌, raise_if, is_identifier,
  json_eq,
}
use moonproj.Service.Database.{Db, Answer, Reply, lookup, receipt_of}
use moonproj.Service.Command.{Surroundings, Stored, run_command-Stored, run_command-replay}
use moonproj.Payment.Request.{PaymentCommand, Reads, payment_request}
use moonproj.Payment.Command.{
  Imported, payment_application_command, command_named, named, requested,
}

module _ (reads : Reads) (imported : Imported) (around : Surroundings) (key : String) where
  requested-Stored :
      (command : PaymentCommand) (actor : String) (db : Db) (o : Answer (String × Dict))
      → Stored key (requested imported around command actor key db o)
  requested-Stored command actor db (err fault) reply k = absurd (cc k)
  requested-Stored command actor db (ok (id, request)) reply k =
      run_command-Stored "payment application" around key request _ _ db reply k

  -- After an answered command the reply key has a receipt with the request and the result of the answer.
  pub answered_command_is_stored :
      (command_type : String) (apply_id : Option String) (body : Dict) (actor : String) (db : Db)
      {reply : Reply}
      → let after =
          payment_application_command reads imported around command_type apply_id body actor key
            db in
        after.1 ≡ ok reply → lookup key after.0.receipts ≡ some (receipt_of reply)
  unfolding payment_application_command
  answered_command_is_stored command_type apply_id body actor db {reply} =
      go (raise_if (not (is_identifier key)) _ >> command_named command_type) reply
    where
      go :
          (o : Answer PaymentCommand)
          → Stored key (named reads imported around apply_id body actor key db o)
      go (err fault) reply k = absurd (cc k)
      go (ok command) reply k =
          requested-Stored command actor db (payment_request reads command apply_id body actor)
            reply k

  -- A command whose key has a receipt with the same request answers with the receipt's result, marked
  -- as a replay, and changes nothing, whatever the state of the application.
  pub repeated_command_replays :
      (command_type : String) (apply_id : Option String) (body : Dict) (actor : String) (db : Db)
      (command : PaymentCommand) (id : String) (request result : Dict) (stored : Json)
      → is_identifier key ≡ true
      → command_named command_type ≡ ok command
      → payment_request reads command apply_id body actor ≡ ok (id, request)
      → lookup key db.receipts ≡ some (record { request = stored; result = obj result })
      → json_eq stored (obj request) ≡ true
      → payment_application_command reads imported around command_type apply_id body actor key db
        ≡ (db, ok (record { request = stored; result = result; idempotent_replay = true }))
  unfolding payment_application_command
  repeated_command_replays command_type apply_id body actor db command id request result stored
        valid known asked found same =
      rw (
        valid,
        known,
        asked,
        run_command-replay "payment application" around key request _ _ db stored result found same,
      )
