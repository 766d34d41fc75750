-- ===== src/Identity/Tests.antt =====
-- A signed request of the gateway on a loan, as the service handles it.
use moonproj.Base.{
  String, ◌≡◌, refl, true, false, none, some, [], ◌∷◌, ◌==◌, ok, int, str, obj, dict, if◌then◌else◌,
  pos, strip, is_identifier, parse_int, ◌-ℤ◌,
}
use moonproj.Base.{all_chars, lower}
use moonproj.Service.Rows.{latest, insert_row, next_revision, top_revision}
use moonproj.Service.Quoting.{quotable, quotable_text}
use moonproj.Service.Merge.{merge, put}
use moonproj.Service.Database.{Reply, replayed, transaction, insert_audit, answered}
use moonproj.Service.Attempt.{delivered, execute_read, execute}
use moonproj.Service.Command.{Surroundings, run_command}
use moonproj.Loan.Request.{loan_request}
use moonproj.Loan.Transaction.{loan_block, moved_payload}
use moonproj.Loan.Command.{loan_command, imported, admit}
use moonproj.Loan.Sample.{python, postgres, around, draft}
use moonproj.Identity.Gateway.{
  Digest, signed_headers, verify_trusted_identity, is_digest, is_timestamp,
}
use moonproj.Identity.Handler.{
  Config, Request, answer, request_actor_id, authorize, asked, without_prefix, loan_method_alias,
}
use moonproj.Identity.Roundtrip.{request_actor_id-signed_headers}
use moonproj.Identity.Applicant.{Identifies, IsApplicants, loan_method_alias-IsApplicants}

abbrev signature : String
signature = "0123456789abcdef0123456789abcdef0123456789abcdef0123456789abcdef"

abbrev digest : Digest
digest = record { hmac = λ key message. signature; sha256 = λ s. s }

abbrev config : Config
config = record {
  bearer_token = "t";
  require_forwarded_tls = true;
  cors_origins = [];
  actor_id = "service";
  actor_signing_secret = some "s";
}

hmac_is_digest : is_digest signature ≡ true
unfolding is_digest all_chars
hmac_is_digest = refl

identifier_u1 : is_identifier "u1" ≡ true
unfolding is_identifier
identifier_u1 = refl

request_actor_id-signed_headers_example :
    request_actor_id digest config (signed_headers digest "t" "s" "u1") ≡ ok "u1"
request_actor_id-signed_headers_example =
    request_actor_id-signed_headers digest config "t" "s" "u1" (λ key message. hmac_is_digest) refl
      identifier_u1

accepted : verify_trusted_identity digest "u1" "1000" signature "s" (pos 1060) ≡ true
unfolding verify_trusted_identity is_identifier is_digest is_timestamp parse_int all_chars strip
    ◌-ℤ◌
accepted = refl

too_late : verify_trusted_identity digest "u1" "1000" signature "s" (pos 1061) ≡ false
unfolding verify_trusted_identity is_identifier is_digest is_timestamp parse_int all_chars strip
    ◌-ℤ◌
too_late = refl

abbrev prompt : Surroundings
prompt = record around { first = delivered }

abbrev deletes : Request
deletes = record {
  put = false;
  path = "/api/company/loans/l1";
  headers = λ name.
      if name == "Idempotency-Key" then some "k4" else signed_headers digest "t" "s" "u1" name;
  content = none;
}

abbrev reply : Reply
reply = record {
  request = obj (
      dict (
        ("command_type", str "void")
        ∷ ("loan_id", str "l1")
        ∷ ("actor_id", str "u1")
        ∷ ("reason", str "")
        ∷ []));
  result = dict (
      ("loan_id", str "l1")
      ∷ ("state", str "Voided")
      ∷ ("revision", int (pos 2))
      ∷ ("event_id", str "employee_advance:void:k4")
      ∷ ("audit_id", str "employee_advance:void:k4:audit")
      ∷ ("actor_id", str "u1")
      ∷ []);
  idempotent_replay = false;
}

deleted : (loan_method_alias digest config python postgres [] prompt deletes draft).1 ≡ answer reply
unfolding loan_method_alias asked authorize request_actor_id signed_headers loan_command
    loan_request is_identifier strip lower all_chars replayed imported latest admit run_command
    execute_read execute transaction quotable quotable_text loan_block moved_payload insert_row
    next_revision top_revision insert_audit answered merge put
deleted = refl

loan_method_alias-IsApplicants_example :
    (id : String) × (actor : String) × (authorize digest config deletes.headers ≡ ok tt)
    × (without_prefix "/api/company/loans/" deletes.path ≡ some id)
    × Identifies digest "service" (some "s") deletes.headers actor
    × IsApplicants draft id actor
loan_method_alias-IsApplicants_example =
    loan_method_alias-IsApplicants python postgres [] prompt digest config deletes draft deleted
      refl
