-- ===== src/Loan/Offsets.antt =====
-- When an offset of a loan of scripts/company_postgres_service.py commits.
use Prim.Native.String.{◌++◌ as ◌◂◌}
use moonproj.Base.{ℕ, String, ◌∷◌, int, Dict, dict, pos}
use moonproj.Service.Merge.{merge}
use moonproj.Loan.Transaction.{Postgres, stamped}

module _ (postgres : Postgres) (request : Dict) (actor_id event_id : String) (id : String) where
  -- The row after an offset of `n`.
  abbrev paid : Dict → ℕ → ℕ → Dict
  paid p balance remain = merge p (
      dict (
        ("balance_amount_minor", int (pos balance))
        ∷ ("remain_amount_minor", int (pos remain))
        ∷ stamped postgres request actor_id event_id "Approved"))
