-- ===== src/Payment/Allowed.antt =====
-- Which commands of scripts/company_postgres_service.py a payment application admits in which state.
use Prim.Native.String.{◌++◌ as ◌◂◌}
use moonproj.Base.{◌+◌, String, ◌≡◌, ◌≢◌, Json, str, Dict}
use moonproj.Service.Rows.{Row, top_revision}
use moonproj.Service.Database.{Db}
use moonproj.Payment.Request.{PaymentCommand, submit, approve, reject, resubmit, update, void}
use moonproj.Payment.Transaction.{next_payload, Next}

-- The state machine: a command, the state that it wants and the state that it leads to.
pub data Permits : PaymentCommand → String → String → Type 0 where
  submit_draft : Permits submit "draft" "submitted"
  approve_submitted : Permits approve "submitted" "approved"
  reject_submitted : Permits reject "submitted" "rejected"
  resubmit_rejected : Permits resubmit "rejected" "submitted"
  update_submitted : Permits update "submitted" "submitted"
  void_open : {s : String} → s ≢ "voided" → Permits void s "voided"

abbrev Leads : PaymentCommand → String → Json → Type 0
Leads c s v = (t : String) × (v ≡ str t) × Permits c s t

module _ (command : PaymentCommand) (id : String) (request : Dict) (actor event key : String) where
  -- The next row of an allowed command.
  abbrev next_of : Db → Row → String → Next
  next_of db old t = record {
    revision = top_revision id db.payments + 1;
    state = str t;
    payload = next_payload command old.payload (str t) request event actor;
  }
