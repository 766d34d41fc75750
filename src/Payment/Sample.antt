-- ===== src/Payment/Sample.antt =====
-- A payment application of scripts/company_postgres_service.py and what surrounds it, for the tests.
use moonproj.Base.{
  false, none, some, [], ◌∷◌, ◌==◌, Json, null, int, str, obj, Dict, dict, if◌then◌else◌, pos,
}
use moonproj.Service.Rows.{Row}
use moonproj.Service.Database.{Db}
use moonproj.Service.Attempt.{delivered, lost_after}
use moonproj.Payment.Request.{Reads}
use moonproj.Payment.Request.{submit, void}
use moonproj.Payment.Transaction.{next_payload, first_payload}
use moonproj.Payment.Command.{Imported}
use moonproj.Service.Command.{Surroundings}

abbrev pub reads : Reads
reads = record {
  contract = λ id.
      if id == "c1" then some (record { amount_minor = pos 1000; project_id = str "p1" }) else none;
  has_plan = λ plan contract. false;
  imported_amount = λ contract. pos 400;
  fresh = "0001";
  today = "2026-01-05";
}

abbrev pub imported : Imported
imported = record { projection = λ id. none; raw = λ id. null; printed = λ value. "0" }

-- The answer of the first attempt is lost, so that the transaction is sent twice.
abbrev pub around : Surroundings
around = record { before = λ db. db; first = lost_after; meanwhile = λ db. db; second = delivered }

abbrev pub no_rows : Db
no_rows = record { receipts = []; audits = []; payments = []; loans = []; offsets = [] }

abbrev pub body : Dict
body = dict (
    ("apply_id", str "a1")
    ∷ ("apply_code", str "PA-1")
    ∷ ("contract_id", str "c1")
    ∷ ("subject", str "first stage")
    ∷ ("currency", str "cny")
    ∷ ("amount_minor", int (pos 600))
    ∷ [])

abbrev pub request : Dict
request = dict (
    ("command_type", str "create")
    ∷ ("apply_id", str "a1")
    ∷ ("apply_code", str "PA-1")
    ∷ ("contract_id", str "c1")
    ∷ ("plan_id", str "")
    ∷ ("apply_class", int (pos 0))
    ∷ ("apply_type_code", str "WORK_PROGRESS")
    ∷ ("subject", str "first stage")
    ∷ ("amount_minor", int (pos 600))
    ∷ ("currency", str "CNY")
    ∷ ("apply_date", str "2026-01-05")
    ∷ ("applied_by", str "u1")
    ∷ ("project_id", str "p1")
    ∷ ("actor_id", str "u1")
    ∷ [])

abbrev pub created_result : Dict
created_result = dict (
    ("apply_id", str "a1")
    ∷ ("state", str "draft")
    ∷ ("revision", int (pos 1))
    ∷ ("event_id", str "payment-application:create:k1")
    ∷ ("audit_id", str "payment-application:create:k1:audit")
    ∷ ("actor_id", str "u1")
    ∷ [])

abbrev pub created_row : Row
created_row = record {
  aggregate_id = "a1";
  revision = 1;
  payload = first_payload request "payment-application:create:k1" "u1";
  event = "payment-application:create:k1";
}

abbrev pub created : Db
created = record {
  receipts = ("k1", record { request = obj request; result = obj created_result }) ∷ [];
  audits = "moonproj:audit:payment-application:create:k1" ∷ [];
  payments = created_row ∷ [];
  loans = [];
  offsets = [];
}

abbrev pub submit_request : Dict
submit_request = dict (
    ("command_type", str "submit")
    ∷ ("apply_id", str "a1")
    ∷ ("reason", str "ready")
    ∷ ("actor_id", str "u1")
    ∷ [])

abbrev pub submitted_row : Row
submitted_row = record {
  aggregate_id = "a1";
  revision = 2;
  payload =
      next_payload submit created_row.payload (str "submitted") submit_request
        "payment-application:submit:k2" "u1";
  event = "payment-application:submit:k2";
}

abbrev pub submitted : Db
submitted = record created {
  audits =
      "moonproj:audit:payment-application:submit:k2"
      ∷ "moonproj:audit:payment-application:create:k1" ∷ [];
  payments = submitted_row ∷ created_row ∷ [];
}

abbrev pub submitted_result : Json
submitted_result = obj (
    dict (
      ("apply_id", str "a1")
      ∷ ("state", str "submitted")
      ∷ ("revision", int (pos 2))
      ∷ ("event_id", str "payment-application:submit:k2")
      ∷ ("audit_id", str "payment-application:submit:k2:audit")
      ∷ ("actor_id", str "u1")
      ∷ []))

abbrev pub approved_row : Row
approved_row = record created_row {
  payload = dict (("state", str "approved") ∷ ("payment_application", obj request) ∷ []);
}

abbrev pub approved : Db
approved = record created { payments = approved_row ∷ [] }

abbrev pub void_request : Dict
void_request = dict (
    ("command_type", str "void")
    ∷ ("apply_id", str "a1")
    ∷ ("reason", str "")
    ∷ ("actor_id", str "u1")
    ∷ [])

abbrev pub voided : Db
voided = record approved {
  audits = ("moonproj:audit:payment-application:void:k3") ∷ approved.audits;
  payments =
      record {
        aggregate_id = "a1";
        revision = 2;
        payload =
            next_payload void approved_row.payload (str "voided") void_request
              "payment-application:void:k3" "u1";
        event = "payment-application:void:k3";
      }
      ∷ approved.payments;
}

abbrev pub voided_result : Json
voided_result = obj (
    dict (
      ("apply_id", str "a1")
      ∷ ("state", str "voided")
      ∷ ("revision", int (pos 2))
      ∷ ("event_id", str "payment-application:void:k3")
      ∷ ("audit_id", str "payment-application:void:k3:audit")
      ∷ ("actor_id", str "u1")
      ∷ []))
