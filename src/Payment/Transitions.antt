-- ===== src/Payment/Transitions.antt =====
-- The state machine that the transactions of scripts/company_postgres_service.py implement for payment
-- applications.
use Prim.Native.String.{◌++◌ as ◌◂◌}
use moonproj.Base.{
  ap₂, ℕ, ◌+◌, String, ◌≡◌, ◌≢◌, refl, sym, subst, Bool, true, false, Option, none, some, some-eq,
  Json, str, Dict, get, List, ◌∷◌, ap, ◌∙◌, if◌then◌else◌,
}
use moonproj.Service.Merge.{merge, differs, equals, get-put}
use moonproj.Service.Rows.{
  Row, latest, top_revision, next_revision, next_revision-eq-some, insert_row, insert_row-eq-some,
  latest-insert_self, latest-insert_ne,
}
use moonproj.Service.Database.{Db, insert_audit, insert_audit-eq-some}
use moonproj.Payment.Request.{
  PaymentCommand, create, submit, approve, reject, resubmit, update, void,
}
use moonproj.Payment.Transaction.{
  next_state, next_payload, Next, payment_block, decide, write, row_of, moved, advance, inserted,
  audited, outcome,
}

-- The moves of an application that exists, as its states are meant.
pub data Move : PaymentCommand → Json → Json → Type 0 where
  submitted : {s : Json} → differs "draft" s ≡ false → Move submit s (str "submitted")
  approved : {s : Json} → differs "submitted" s ≡ false → Move approve s (str "approved")
  rejected : {s : Json} → differs "submitted" s ≡ false → Move reject s (str "rejected")
  resubmitted : {s : Json} → differs "rejected" s ≡ false → Move resubmit s (str "submitted")
  updated : {s : Json} → differs "submitted" s ≡ false → Move update s s
  voided : {s : Json} → equals "voided" s ≡ false → Move void s (str "voided")

guarded :
    (refused : Bool) {s t : Json}
    → (if refused then none else some s) ≡ some t
    → (refused ≡ false) × (s ≡ t)
guarded true h = absurd (cc h)
guarded false h = (refl, some-eq h)

next_state-Move : (c : PaymentCommand) (s : Json) {t : Json} → next_state c s ≡ some t → Move c s t
unfolding next_state
next_state-Move create s h = absurd (cc h)
next_state-Move submit s h =
    let (p, e) = guarded (differs "draft" s) h in subst (λ t. Move submit s t) e (submitted p)
next_state-Move approve s h =
    let (p, e) = guarded (differs "submitted" s) h in subst (λ t. Move approve s t) e (approved p)
next_state-Move reject s h =
    let (p, e) = guarded (differs "submitted" s) h in subst (λ t. Move reject s t) e (rejected p)
next_state-Move resubmit s h =
    let (p, e) = guarded (differs "rejected" s) h in
    subst (λ t. Move resubmit s t) e (resubmitted p)
next_state-Move update s h =
    let (p, e) = guarded (differs "submitted" s) h in subst (λ t. Move update s t) e (updated p)
next_state-Move void s h =
    let (p, e) = guarded (equals "voided" s) h in subst (λ t. Move void s t) e (voided p)

module _ (command : PaymentCommand) (id : String) (request : Dict) (actor event : String) where
  -- The database and the result of a block that commits.
  abbrev pub written : Db → Next → Db × Json
  written db next = (
    record db {
      payments = row_of command id request actor event next ∷ db.payments;
      audits = ("moonproj:audit:" ◂ event) ∷ db.audits;
    },
    outcome command id request actor event next,
  )

  -- A block that commits has inserted one row, the one that was decided on, and its audit event.
  pub payment_block-written :
      (db : Db) {after : Db × Json}
      → payment_block command id request actor event db ≡ some after
      → (next : Next) × (decide command id request actor event command db.payments ≡ some next)
        × (after ≡ written db next)
  unfolding payment_block
  payment_block-written db {after} h =
      go (decide command id request actor event command db.payments) refl h
    where
      done :
          (next : Next) (o : Option (List String)) (rows : List Row)
          → insert_audit ("moonproj:audit:" ◂ event) db.audits ≡ o
          → rows ≡ row_of command id request actor event next ∷ db.payments
          → audited command id request actor event db next rows o ≡ some after
          → after ≡ written db next
      done next none rows a e k = absurd (cc k)
      done next (some audits) rows a e k =
          sym (some-eq k)
          ∙ ap₂
              (λ (r : List Row) (s : List String). (
                record db { payments = r; audits = s },
                outcome command id request actor event next,
              ))
              e (insert_audit-eq-some _ db.audits a)

      wrote :
          (next : Next) (o : Option (List Row))
          → insert_row (row_of command id request actor event next) db.payments ≡ o
          → inserted command id request actor event db next o ≡ some after
          → after ≡ written db next
      wrote next none e k = absurd (cc k)
      wrote next (some rows) e k = done next _ rows refl (insert_row-eq-some _ db.payments e) k

      go :
          (o : Option Next)
          → decide command id request actor event command db.payments ≡ o
          → write command id request actor event db o ≡ some after
          → (next : Next) × (decide command id request actor event command db.payments ≡ some next)
            × (after ≡ written db next)
      go none e k = absurd (cc k)
      go (some next) e k = (next, e, wrote next _ refl k)

  pub get-next_payload :
      (c : PaymentCommand) (current : Dict) (s : Json)
      → get "state" (next_payload c current s request event actor) ≡ s
  unfolding next_payload merge
  get-next_payload create current s = simp (get-put)
  get-next_payload submit current s = simp (get-put)
  get-next_payload approve current s = simp (get-put)
  get-next_payload reject current s = simp (get-put)
  get-next_payload resubmit current s = simp (get-put)
  get-next_payload update current s = simp (get-put)
  get-next_payload void current s = simp (get-put)

  -- What `advance` decides.
  abbrev Advanced : List Row → Next → Row → Type 0
  Advanced rows next current =
      (latest id rows ≡ some current)
      × (next.revision ≡ top_revision id rows + 1)
      × (next_state command (get "state" current.payload) ≡ some next.state)
      × (next.payload ≡ next_payload command current.payload next.state request event actor)

  advance-moves :
      (rows : List Row) {next : Next}
      → advance command id request actor event rows (latest id rows) ≡ some next
      → (current : Row) × Advanced rows next current
  advance-moves rows {next} h = go (latest id rows) refl h
    where
      settled :
          (current : Row) (o : Option Json) (r : Option ℕ)
          → next_state command (get "state" current.payload) ≡ o
          → next_revision id rows ≡ r
          → moved command id request actor event current.payload o r ≡ some next
          → latest id rows ≡ some current
          → Advanced rows next current
      settled current none r e n k f = absurd (cc k)
      settled current (some s) none e n k f = absurd (cc k)
      settled current (some s) (some m) e n k f =
          subst (λ (x : Next). Advanced rows x current) (some-eq k)
            (f, (next_revision-eq-some id rows n).0, e, refl)

      go :
          (o : Option Row)
          → latest id rows ≡ o
          → advance command id request actor event rows o ≡ some next
          → (current : Row) × Advanced rows next current
      go none e k = absurd (cc k)
      go (some current) e k = (current, settled current _ _ refl refl k e)

  pub decide-advance :
      (c : PaymentCommand) (rows : List Row)
      → c ≢ create
      → decide command id request actor event c rows
        ≡ advance command id request actor event rows (latest id rows)
  decide-advance create rows ne = absurd (ne refl)
  decide-advance submit rows ne = refl
  decide-advance approve rows ne = refl
  decide-advance reject rows ne = refl
  decide-advance resubmit rows ne = refl
  decide-advance update rows ne = refl
  decide-advance void rows ne = refl

  -- What a block of a command other than `create` does, from the database before to the pair after.
  pub record Moved (before : Db) (after : Db × Json) : Type 0 where
    pub old : Row
    pub new : Row
    pub found : latest id before.payments ≡ some old
    pub inserted_row : after.0.payments ≡ new ∷ before.payments
    pub newest : latest id after.0.payments ≡ some new
    pub revision : new.revision ≡ top_revision id before.payments + 1
    pub move : Move command (get "state" old.payload) (get "state" new.payload)
    pub payload :
        new.payload ≡ next_payload command old.payload (get "state" new.payload) request event actor
    pub others :
        (other : String) → id ≢ other → latest other after.0.payments ≡ latest other before.payments
    pub audit : after.0.audits ≡ ("moonproj:audit:" ◂ event) ∷ before.audits
    pub loans : after.0.loans ≡ before.loans
    pub offsets : after.0.offsets ≡ before.offsets
    pub receipts : after.0.receipts ≡ before.receipts
    pub result :
        after.1
        ≡ outcome command id request actor event (record {
          revision = new.revision;
          state = get "state" new.payload;
          payload = new.payload;
        })

  pub block_moves :
      (db : Db) {after : Db × Json}
      → command ≢ create
      → payment_block command id request actor event db ≡ some after
      → Moved db after
  block_moves db {after} ne h =
      let (next, decided, e) = payment_block-written db h in
      let (old, (found, revision, state, payload)) =
        advance-moves db.payments (sym (decide-advance command db.payments ne) ∙ decided) in
      let new : Row = row_of command id request actor event next in
      let kept : get "state" next.payload ≡ next.state =
        ap (get "state") payload ∙ get-next_payload command old.payload next.state in
      subst (Moved db) (sym e) (record {
        old = old;
        new = new;
        found = found;
        inserted_row = refl;
        newest = latest-insert_self new db.payments revision;
        revision = revision;
        move =
            subst (λ s. Move command (get "state" old.payload) s) (sym kept)
              (next_state-Move command _ state);
        payload =
            subst (λ s. next.payload ≡ next_payload command old.payload s request event actor)
              (sym kept) payload;
        others = λ other apart. latest-insert_ne other new db.payments apart;
        audit = refl;
        loans = refl;
        offsets = refl;
        receipts = refl;
        result =
            ap
              (λ s.
                outcome command id request actor event
                  (record { revision = next.revision; state = s; payload = next.payload }))
              (sym kept);
      })
