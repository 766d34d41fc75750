-- ===== src/Loan/Balance.antt =====
-- The amounts of a loan of scripts/company_postgres_service.py, the requests that keep them, and the
-- arithmetic on them.
use moonproj.Base.{
  eq_of_parts, -ℤ_parts, ℕ, ◌+◌, String, ◌≡◌, refl, sym, ap, ◌∙◌, ◌⊎◌, inl, inr, Bool, true, false,
  Option, none, some, List, arith, ◌==◌, Json, null, int, str, obj, Dict, get, if◌then◌else◌, ℤ,
  pos, negsuc, ◌+ℤ◌, ◌-ℤ◌, some-eq, any, pos_part, neg_part,
}
use moonproj.Service.Merge.{merge}
use moonproj.Service.Rows.{Row}
use moonproj.Loan.Checks.{LoanCommand, create, offset, update}
use moonproj.Loan.Transaction.{
  known, plus, minus, negative, Postgres, fits, bounded, cast, or_zero, excluded,
}

-- The amounts of a loan: what was lent is what has been offset and what remains. Before the approval
-- nothing has been offset.
pub record Amounts (p : Dict) : Type 0 where
  pub loan : ℕ
  pub balance : ℕ
  pub remain : ℕ
  pub state : String
  pub has_loan : get "loan_amount_minor" p ≡ int (pos loan)
  pub has_balance : get "balance_amount_minor" p ≡ int (pos balance)
  pub has_remain : get "remain_amount_minor" p ≡ int (pos remain)
  pub has_state : get "apply_state" p ≡ str state
  pub adds_up : loan ≡ balance + remain
  pub settled : (state ≡ "Approved") ⊎ (balance ≡ 0)

-- A loan of a command has amounts; rows of another source are free.
abbrev pub IsBalanced : Row → Type 0
IsBalanced r = get "source_kind" r.payload ≡ str "command" → Amounts r.payload

-- What the changes of an update do to the amounts: the new amount remains, or none of them changes.
abbrev pub IsChange : Dict → Dict → Type 0
IsChange request changes =
    ((p : Dict) → get "balance_amount_minor" (merge p changes) ≡ get "balance_amount_minor" p)
    × ((p : Dict) → get "source_kind" (merge p changes) ≡ get "source_kind" p)
    × (((n : ℕ) × (get "next_remain_amount_minor" request ≡ int (pos n))
          × ((p : Dict) → get "loan_amount_minor" (merge p changes) ≡ int (pos n)))
        ⊎ ((get "next_remain_amount_minor" request ≡ null)
            × ((p : Dict) → get "loan_amount_minor" (merge p changes) ≡ get "loan_amount_minor" p)))

-- The requests that keep the amounts.
abbrev pub IsFit : LoanCommand → Dict → Type 0
IsFit create request =
    (n : ℕ) × (get "loan_amount_minor" request ≡ int (pos n))
    × (get "balance_amount_minor" request ≡ int (pos 0))
    × (get "remain_amount_minor" request ≡ int (pos n))
IsFit offset request = (n : ℕ) × (get "offset_amount_minor" request ≡ int (pos n))
IsFit update request =
    (changes : Dict) × (get "changes" request ≡ obj changes) × IsChange request changes
IsFit _ request = (Unit {0})

known-bounded : (z : ℤ) {o : Option ℤ} → known (bounded z) ≡ some o → o ≡ some z
known-bounded z h = go (fits z) h
  where
    go : (b : Bool) {o : Option ℤ} → known (if b then some z else none) ≡ some o → o ≡ some z
    go true k = sym (some-eq k)
    go false k = absurd (cc k)

pub plus-natural :
    (a b : ℕ) {x y o : Option ℤ}
    → x ≡ some (pos a)
    → y ≡ some (pos b)
    → plus (or_zero x) y ≡ some o
    → o ≡ some (pos (a + b))
unfolding ◌+ℤ◌
plus-natural a b ex ey h =
    known-bounded _ (rw (ex, ey) at h)
    ∙ ap some (eq_of_parts (or_zero (some (pos a)) +ℤ pos b) (pos (a + b)) (ground arith))

pub minus-natural :
    (a b : ℕ) {x y o : Option ℤ}
    → x ≡ some (pos a)
    → y ≡ some (pos b)
    → minus (or_zero x) y ≡ some o
    → negative o ≡ false
    → (r : ℕ) × (o ≡ some (pos r)) × (a ≡ b + r)
minus-natural a b {o = o} ex ey h nonneg =
    go (pos a -ℤ pos b) refl (known-bounded _ (rw (ex, ey) at h))
  where
    go : (z : ℤ) → (pos a -ℤ pos b) ≡ z → o ≡ some z → (r : ℕ) × (o ≡ some (pos r)) × (a ≡ b + r)
    go (pos r) e k = (r, k, omega (arith, -ℤ_parts (pos a) (pos b), ap pos_part e, ap neg_part e))
    go (negsuc n) e k = absurd (cc (rw k at nonneg))

-- A loan in a state before the approval has no offset.
pub unsettled :
    (states : List String) (p : Dict) (a : Amounts p)
    → excluded states (get "apply_state" p) ≡ false
    → any (λ t. "Approved" == t) states ≡ false
    → a.balance ≡ 0
unsettled states p a allowed other = elim a.settled [
  | inl approved ↦ absurd (cc (rw (a.has_state, approved, other) at allowed))
  | inr none_offset ↦ none_offset
]

module _ (postgres : Postgres) where
  pub cast-natural :
      (v : Json) (n : ℕ) {o : Option ℤ}
      → v ≡ int (pos n)
      → cast postgres v ≡ some o
      → o ≡ some (pos n)
  unfolding cast
  cast-natural v n e h = known-bounded (pos n) (rw e at h)

  pub cast-null : (v : Json) {o : Option ℤ} → v ≡ null → cast postgres v ≡ some o → none ≡ o
  unfolding cast
  cast-null v e h = some-eq (rw e at h)
