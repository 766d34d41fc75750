-- ===== src/Payment/States.antt =====
-- The states of the payment applications of scripts/company_postgres_service.py.
use moonproj.Base.{
  String, ◌≡◌, refl, sym, ap, subst, ◌≢◌, ◌⊎◌, inl, inr, Bool, true, ◌||◌, Option, none, some, Json,
  Dict, get, is_text, All,
}
use moonproj.Base.{some-eq}
use Prim.Native.String.{◌++◌ as ◌◂◌}
use moonproj.Service.Rows.{Row, latest, latest-All}
use moonproj.Service.Database.{Db}
use moonproj.Payment.Request.{
  PaymentCommand, create, submit, approve, reject, resubmit, update, void,
}
use moonproj.Payment.Transaction.{first_payload, Next, payment_block, begin, row_of}
use moonproj.Payment.Transitions.{
  Move, submitted, approved, rejected, resubmitted, updated, voided, payment_block-written,
  block_moves,
}

-- A state of the machine.
abbrev pub is_state : Json → Bool
is_state s =
    is_text "draft" s
    || is_text "submitted" s
    || is_text "approved" s
    || is_text "rejected" s
    || is_text "voided" s

abbrev pub HasState : Row → Type 0
HasState r = is_state (get "state" r.payload) ≡ true

Move-is_state :
    {c : PaymentCommand} {s t : Json} → Move c s t → is_state s ≡ true → is_state t ≡ true
Move-is_state (submitted p) h = refl
Move-is_state (approved p) h = refl
Move-is_state (rejected p) h = refl
Move-is_state (resubmitted p) h = refl
Move-is_state (updated p) h = h
Move-is_state (voided p) h = refl

module _ (id : String) (request : Dict) (actor event : String) where
  abbrev first : Row
  first = record {
    aggregate_id = id;
    revision = 1;
    payload = first_payload request event actor;
    event = event;
  }

  begin-first :
      (o : Option Row) {next : Next}
      → begin create id request actor event o ≡ some next
      → row_of create id request actor event next ≡ first
  begin-first none h = ap (row_of create id request actor event) (sym (some-eq h))
  begin-first (some r) h = absurd (cc h)

is_create : (c : PaymentCommand) → (c ≡ create) ⊎ (c ≢ create)
is_create create = inl refl
is_create submit = inr (λ e. cc)
is_create approve = inr (λ e. cc)
is_create reject = inr (λ e. cc)
is_create resubmit = inr (λ e. cc)
is_create update = inr (λ e. cc)
is_create void = inr (λ e. cc)

first-HasState :
    (id : String) (request : Dict) (actor event : String) → HasState (first id request actor event)
unfolding first_payload
first-HasState id request actor event = refl

-- A block that commits keeps the states of the rows within the machine's.
pub block_keeps_states :
    (command : PaymentCommand) (id : String) (request : Dict) (actor event : String) (db : Db)
    {db' : Db} {result : Json}
    → All HasState db.payments
    → payment_block command id request actor event db ≡ some (db', result)
    → All HasState db'.payments
block_keeps_states command id request actor event db {db'} {result} known h =
    elim (is_create command) [
      | inl e ↦
          let (next, decided, committed) =
            payment_block-written create id request actor event db
              (subst (λ c. payment_block c id request actor event db ≡ some (db', result)) e h) in
          subst (λ (x : Db × Json). All HasState x.0.payments) (sym committed)
            (
              subst HasState
                  (sym (begin-first id request actor event (latest id db.payments) decided))
                  (first-HasState id request actor event),
              known,
            )
      | inr ne ↦
          let moved = block_moves command id request actor event db ne h in
          subst (λ rows. All HasState rows) (sym moved.inserted_row)
            (Move-is_state moved.move (latest-All HasState id db.payments known moved.found), known)
    ]
