-- ===== src/Loan/Admission.antt =====
-- The checks of `loan_command` of scripts/company_postgres_service.py on the current loan.
use moonproj.Base.{
  ℕ, String, ◌≡◌, refl, sym, ap, ◌∙◌, subst, ◌≢◌, ◌⊎◌, inl, inr, Bool, true, false, not, ◌&&◌,
  Option, none, some, [], ◌∷◌, ◌==◌, ok, int, str, get, is_text, pos, raise_if-eq-ok, some-eq, any,
}
use moonproj.Base.{is_text-true, not-false}
use moonproj.Service.Merge.{get_or-of_get}
use moonproj.Service.Rows.{Row}
use moonproj.Loan.Checks.{
  python_str, LoanCommand, expected_states, Python, create, submit, offset, sync_from_workflow,
  update, void,
}
use moonproj.Loan.Command.{is_applicants, admit, admit_current, state_of}
use moonproj.Loan.Balance.{IsBalanced}
use moonproj.Base.{raise_if-false}
use moonproj.Loan.Changes.{IsUnset}

pub admit-current :
    (python : Python) (command : LoanCommand) (actor_id : String) (row : Row) (found : Bool)
    → command ≢ create
    → admit python command actor_id (some row) found
      ≡ admit_current python command actor_id row.payload
unfolding admit
admit-current python create actor_id row found other = absurd (other refl)
admit-current python submit actor_id row found other = refl
admit-current python offset actor_id row found other = refl
admit-current python sync_from_workflow actor_id row found other = refl
admit-current python update actor_id row found other = refl
admit-current python void actor_id row found other = refl

not_approved :
    (state : String) {balance : ℕ}
    → any (λ t. state == t) ("Draft" ∷ []) ≡ true
    → (state ≡ "Approved") ⊎ (balance ≡ 0)
    → balance ≡ 0
not_approved state h (inl approved) = absurd (cc (rw approved at h))
not_approved state h (inr unset) = unset

admit-none :
    (python : Python) (command : LoanCommand) (actor_id : String) (found : Bool)
    → command ≢ create
    → admit python command actor_id none found ≢ ok tt
unfolding admit
admit-none python create actor_id found other h = absurd (other refl)
admit-none python submit actor_id true other h = cc
admit-none python submit actor_id false other h = cc
admit-none python offset actor_id true other h = cc
admit-none python offset actor_id false other h = cc
admit-none python sync_from_workflow actor_id true other h = cc
admit-none python sync_from_workflow actor_id false other h = cc
admit-none python update actor_id true other h = cc
admit-none python update actor_id false other h = cc
admit-none python void actor_id true other h = cc
admit-none python void actor_id false other h = cc

-- What the checks have found of the loan.
pub admit-eq-ok :
    (python : Python) (command : LoanCommand) (actor_id : String) (current : Option Row)
    (found : Bool)
    → command ≢ create
    → admit python command actor_id current found ≡ ok tt
    → (row : Row) × (current ≡ some row)
      × (get "source_kind" row.payload ≡ str "command")
      × (any (λ t. state_of python row.payload == t) (expected_states command) ≡ true)
      × ((is_applicants command && not (is_text actor_id (get "applied_by" row.payload))) ≡ false)
admit-eq-ok python command actor_id none found other h =
    absurd (admit-none python command actor_id found other h)
admit-eq-ok python command actor_id (some row) found other h =
    let h1 = sym (admit-current python command actor_id row found other) ∙ h in
    let (local, h2) =
      raise_if-eq-ok (not (is_text "command" (get "source_kind" row.payload))) _ _ h1 in
    let (expected, h3) =
      raise_if-eq-ok (not (any (λ t. state_of python row.payload == t) (expected_states command))) _
        _ h2 in
    (
      row,
      refl,
      is_text-true "command" _ (not-false local),
      not-false expected,
      raise_if-false _ _ h3,
    )

-- A loan that is admitted for an update has no offset.
pub admit-IsUnset :
    (python : Python) (actor_id : String) (current : Option Row) (found : Bool)
    → ((row : Row) → current ≡ some row → IsBalanced row)
    → admit python update actor_id current found ≡ ok tt
    → IsUnset current
admit-IsUnset python actor_id current found known h row e =
    let (found_row, e', local, expected, theirs) =
      admit-eq-ok python update actor_id current found (λ e. cc) h in
    let same = some-eq (sym e' ∙ e) in
    let a =
      known row e (subst (λ (r : Row). get "source_kind" r.payload ≡ str "command") same local) in
    let state =
      ap (python_str python)
        (get_or-of_get "apply_state" (str "") row.payload a.has_state (λ e. cc)) in
    let unset =
      not_approved a.state
        (ap (λ s. any (λ t. s == t) ("Draft" ∷ []))
            (sym state ∙ ap (λ (r : Row). state_of python r.payload) (sym same))
          ∙ expected)
        a.settled in
    get_or-of_get "balance_amount_minor" (int (pos 0)) row.payload
      (a.has_balance ∙ ap (λ b. int (pos b)) unset) (λ e. cc)
