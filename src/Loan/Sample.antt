-- ===== src/Loan/Sample.antt =====
-- A loan of scripts/company_postgres_service.py and what surrounds it, for the tests.
use moonproj.Base.{
  ℕ, String, true, none, some, [], ◌∷◌, Json, bool, int, str, arr, obj, nil, Dict, dict, pos,
}
use moonproj.Service.Rows.{Row}
use moonproj.Service.Database.{Db}
use moonproj.Service.Attempt.{delivered, lost_after}
use moonproj.Service.Command.{Surroundings}
use moonproj.Loan.Checks.{Python}
use moonproj.Loan.Transaction.{Postgres}

abbrev pub python : Python
python = record { repr = λ v. "1"; hundredths = λ v. some (pos 50000) }

abbrev pub postgres : Postgres
postgres = record { printed = λ v. "0"; bigint = λ s. none }

-- The answer of the first attempt is lost, so that the transaction is sent twice.
abbrev pub around : Surroundings
around = record { before = λ db. db; first = lost_after; meanwhile = λ db. db; second = delivered }

abbrev pub no_rows : Db
no_rows = record { receipts = []; audits = []; payments = []; loans = []; offsets = [] }

abbrev pub grant : String → Json
grant capability = obj (
    dict (
      ("active", bool true)
      ∷ ("principal_id", str "p1")
      ∷ ("actor_id", str "u1")
      ∷ ("capability", str capability)
      ∷ ("scope", str "employee:e1")
      ∷ ("max_amount_minor", int (pos 50000))
      ∷ []))

abbrev pub body : Dict
body = dict (
    ("loan_id", str "l1")
    ∷ ("employee_id", str "e1")
    ∷ ("principal_id", str "p1")
    ∷ ("scope", str "employee:e1")
    ∷ ("loan_amount", str "500.00")
    ∷ ("authority", grant "advance:create")
    ∷ ("subject", str "travel")
    ∷ ("apply_dept_guid", str "d1")
    ∷ ("apply_date", str "2026-01-05")
    ∷ [])

abbrev pub request : Dict
request = dict (
    ("command_type", str "create")
    ∷ ("loan_id", str "l1")
    ∷ ("loan_code", str "JK-l1")
    ∷ ("subject", str "travel")
    ∷ ("employee_id", str "e1")
    ∷ ("principal_id", str "p1")
    ∷ ("scope", str "employee:e1")
    ∷ ("currency", str "CNY")
    ∷ ("loan_amount_minor", int (pos 50000))
    ∷ ("balance_amount_minor", int (pos 0))
    ∷ ("remain_amount_minor", int (pos 50000))
    ∷ ("apply_dept_guid", str "d1")
    ∷ ("applied_by", str "u1")
    ∷ ("apply_date", str "2026-01-05")
    ∷ ("pay_unit", str "")
    ∷ ("proj_guid", str "")
    ∷ ("process_instance_guid", str "")
    ∷ ("evidence_ids", arr nil)
    ∷ ("authority", grant "advance:create")
    ∷ ("state", str "Draft")
    ∷ ("source_kind", str "command")
    ∷ [])

abbrev pub created_result : Dict
created_result = dict (
    ("loan_id", str "l1")
    ∷ ("state", str "Draft")
    ∷ ("revision", int (pos 1))
    ∷ ("event_id", str "employee_advance:create:k1")
    ∷ ("audit_id", str "employee_advance:create:k1:audit")
    ∷ ("actor_id", str "u1")
    ∷ [])

-- A loan in a state, with its amounts.
abbrev pub loan_row : String → ℕ → ℕ → ℕ → Row
loan_row state loan balance remain = record {
  aggregate_id = "l1";
  revision = 1;
  payload = dict (
      ("loan_id", str "l1")
      ∷ ("employee_id", str "e1")
      ∷ ("principal_id", str "p1")
      ∷ ("loan_amount_minor", int (pos loan))
      ∷ ("balance_amount_minor", int (pos balance))
      ∷ ("remain_amount_minor", int (pos remain))
      ∷ ("applied_by", str "u1")
      ∷ ("source_kind", str "command")
      ∷ ("apply_state", str state)
      ∷ []);
  event = "e";
}

abbrev pub with_loan : Row → Db
with_loan row = record no_rows { loans = row ∷ [] }

abbrev pub draft : Db
draft = with_loan (loan_row "Draft" 50000 0 50000)

abbrev pub approved_row : Row
approved_row = loan_row "Approved" 50000 20000 30000

abbrev pub approved : Db
approved = with_loan approved_row

abbrev pub offset_body : Dict
offset_body = dict (
    ("offset_amount_minor", int (pos 30000))
    ∷ ("offset_date", str "2026-02-01")
    ∷ ("authority", grant "advance:offset")
    ∷ [])

abbrev pub offset_asked : Dict
offset_asked = dict (
    ("command_type", str "offset")
    ∷ ("loan_id", str "l1")
    ∷ ("actor_id", str "u1")
    ∷ ("offset_id", str "offset-k2")
    ∷ ("offset_amount_minor", int (pos 30000))
    ∷ ("offset_date", str "2026-02-01")
    ∷ ("related_expense_id", str "")
    ∷ ("remark", str "")
    ∷ ("authority", grant "advance:offset")
    ∷ [])
