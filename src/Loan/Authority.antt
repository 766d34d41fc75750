-- ===== src/Loan/Authority.antt =====
-- The authority that a loan command of scripts/company_postgres_service.py needs.
use Prim.Native.String.{◌++◌ as ◌◂◌}
use moonproj.Base.{
  ℕ, String, ◌≡◌, refl, sym, ap, subst, true, false, not, Option, none, some, arith, ◌==◌, ok, Json,
  null, bool, int, str, arr, obj, nil, Dict, get, get_or, is_text, is_true, ℤ, pos, is_currency,
  ltb_ℤ, is_filled, ok-injective, raise_if-eq-ok, >>=-eq-ok,
}
use moonproj.Base.{is_text-true, not-false, ◌≤ℤ◌, is_true}
use moonproj.Service.Rows.{Row, latest}
use moonproj.Service.Database.{Db}
use moonproj.Loan.Checks.{
  Python, loan_required_text, loan_required_identifier, int_of, loan_amount_minor,
  offset_amount_minor, granted, granted_amount, loan_authority, create, offset,
}
use moonproj.Loan.Create.{new_identifier, currency_of, evidence_ids, create_request}
use moonproj.Loan.Request.{stored_int, local_loan, offset_request, required_id, loan_request}

-- The body carries an active grant of the capability to the actor, for the principal and the
-- employee, of at least the amount.
abbrev pub IsGranted : Dict → String → String → String → String → ℕ → Type 0
IsGranted body actor_id principal_id employee_id capability amount =
    (grant : Dict) × (get "authority" body ≡ obj grant)
    × (is_true (get "active" grant) ≡ true)
    × (get "principal_id" grant ≡ str principal_id)
    × (get "actor_id" grant ≡ str actor_id)
    × (get "capability" grant ≡ str capability)
    × (get "scope" grant ≡ str ("employee:" ◂ employee_id))
    × (most : ℤ) × (int_of (get "max_amount_minor" grant) ≡ some most)
    × (pos amount ≤ℤ most)

granted-eq-ok : (v : Json) {grant : Dict} → granted v ≡ ok grant → v ≡ obj grant
granted-eq-ok (obj d) h = ap obj (ok-injective h)
granted-eq-ok null h = absurd (cc h)
granted-eq-ok (bool b) h = absurd (cc h)
granted-eq-ok (int z) h = absurd (cc h)
granted-eq-ok (str s) h = absurd (cc h)
granted-eq-ok (arr a) h = absurd (cc h)

granted_amount-eq-ok : (o : Option ℤ) {z : ℤ} → granted_amount o ≡ ok z → o ≡ some z
granted_amount-eq-ok none h = absurd (cc h)
granted_amount-eq-ok (some z) h = ap some (ok-injective h)

enough : (most : ℤ) (n : ℕ) → ltb_ℤ most (pos n) ≡ false → pos n ≤ℤ most
enough most n h = ground arith

loan_authority-IsGranted :
    (body : Dict) (actor_id principal_id employee_id capability : String) (n : ℕ) {g : Dict}
    → loan_authority body actor_id principal_id employee_id capability n ≡ ok g
    → IsGranted body actor_id principal_id employee_id capability n
unfolding loan_authority
loan_authority-IsGranted body actor_id principal_id employee_id capability n h =
    let (grant, given, h) = >>=-eq-ok (granted (get "authority" body)) _ h in
    let (active, h) = raise_if-eq-ok (not (is_true (get "active" grant))) _ _ h in
    let (principal, h) =
      raise_if-eq-ok (not (is_text principal_id (get "principal_id" grant))) _ _ h in
    let (actor, h) = raise_if-eq-ok (not (is_text actor_id (get "actor_id" grant))) _ _ h in
    let (capable, h) = raise_if-eq-ok (not (is_text capability (get "capability" grant))) _ _ h in
    let (scope, h) =
      raise_if-eq-ok (not (is_text ("employee:" ◂ employee_id) (get "scope" grant))) _ _ h in
    let (most, bound, h) = >>=-eq-ok (granted_amount (int_of (get "max_amount_minor" grant))) _ h in
    let (within, h) = raise_if-eq-ok (ltb_ℤ most (pos n)) _ _ h in
    (
      grant,
      granted-eq-ok _ given,
      not-false active,
      is_text-true _ _ (not-false principal),
      is_text-true _ _ (not-false actor),
      is_text-true _ _ (not-false capable),
      is_text-true _ _ (not-false scope),
      most,
      granted_amount-eq-ok _ bound,
      enough most n within,
    )

-- A request for a new loan is made only with a grant to its author of at least its amount, for the
-- loan's employee and principal.
pub create-IsGranted :
    (python : Python) (loan_id : Option String) (body : Dict) (actor_id key : String) (db : Db)
    (id : String) (request : Dict)
    → loan_request python create loan_id body actor_id key db ≡ ok (id, request)
    → (employee_id : String) × (principal_id : String) × (n : ℕ) × (get "employee_id" request
        ≡ str employee_id)
      × (get "principal_id" request ≡ str principal_id)
      × (get "applied_by" request ≡ str actor_id)
      × (get "loan_amount_minor" request ≡ int (pos n))
      × IsGranted body actor_id principal_id employee_id "advance:create" n
unfolding loan_request create_request
create-IsGranted python loan_id body actor_id key db id request h =
    let (i, e, h) = >>=-eq-ok (new_identifier key (get "loan_id" body)) _ h in
    let (employee, e, h) = >>=-eq-ok (loan_required_identifier body "employee_id") _ h in
    let (principal, e, h) = >>=-eq-ok (loan_required_identifier body "principal_id") _ h in
    let (scope, e, h) = >>=-eq-ok (loan_required_identifier body "scope") _ h in
    let (e, h) = raise_if-eq-ok (not (scope == ("employee:" ◂ employee))) _ _ h in
    let (amount, e, h) = >>=-eq-ok (loan_amount_minor python body) _ h in
    let (authority, granted_by, h) =
      >>=-eq-ok (loan_authority body actor_id principal employee "advance:create" amount) _ h in
    let (e, h) =
      raise_if-eq-ok (not (is_filled (get_or "loan_code" (str ("JK-" ◂ i)) body))) _ _ h in
    let (subject, e, h) = >>=-eq-ok (loan_required_text body "subject") _ h in
    let (currency, e, h) = >>=-eq-ok (currency_of body) _ h in
    let (dept, e, h) = >>=-eq-ok (loan_required_identifier body "apply_dept_guid") _ h in
    let (date, e, h) = >>=-eq-ok (loan_required_text body "apply_date") _ h in
    let (e, h) = raise_if-eq-ok (not (is_currency currency)) _ _ h in
    let (e, h) = raise_if-eq-ok (not (evidence_ids (get_or "evidence_ids" (arr nil) body))) _ _ h in
    let made = ap (λ (r : String × Dict). r.1) (sym (ok-injective h)) in
    (
      employee,
      principal,
      amount,
      ap (get "employee_id") made,
      ap (get "principal_id") made,
      ap (get "applied_by") made,
      ap (get "loan_amount_minor") made,
      loan_authority-IsGranted body actor_id principal employee "advance:create" amount granted_by,
    )

-- What a request for an offset asks of the loan's row and of the body.
abbrev pub IsOwed : Dict → String → Row → Dict → Type 0
IsOwed body actor_id row request =
    (get "source_kind" row.payload ≡ str "command")
    × (employee_id : String) × (principal_id : String) × (n : ℕ) × (remain : ℤ)
    × (loan_required_identifier row.payload "employee_id" ≡ ok employee_id)
    × (loan_required_identifier row.payload "principal_id" ≡ ok principal_id)
    × (stored_int "remain_amount_minor" row.payload ≡ ok remain)
    × (get "offset_amount_minor" request ≡ int (pos n))
    × (pos n ≤ℤ remain)
    × IsGranted body actor_id principal_id employee_id "advance:offset" n

local_loan-eq-ok :
    (current : Option Row) {payload : Dict}
    → local_loan current ≡ ok payload
    → (row : Row) × (current ≡ some row)
      × (get "source_kind" row.payload ≡ str "command")
      × (payload ≡ row.payload)
local_loan-eq-ok none h = absurd (cc h)
local_loan-eq-ok (some row) h =
    let (local, h1) =
      raise_if-eq-ok (not (is_text "command" (get "source_kind" row.payload))) _ _ h in
    (row, refl, is_text-true _ _ (not-false local), sym (ok-injective h1))

offset_request-IsOwed :
    (python : Python) (current : Option Row) (id : String) (body : Dict) (actor_id key : String)
    {request : Dict}
    → offset_request python current id body actor_id key ≡ ok request
    → (row : Row) × (current ≡ some row) × IsOwed body actor_id row request
unfolding offset_request
offset_request-IsOwed python current id body actor_id key h =
    let (payload, loaded, h) = >>=-eq-ok (local_loan current) _ h in
    let (employee, e1, h) = >>=-eq-ok (loan_required_identifier payload "employee_id") _ h in
    let (principal, e2, h) = >>=-eq-ok (loan_required_identifier payload "principal_id") _ h in
    let (amount, e3, h) = >>=-eq-ok (offset_amount_minor body) _ h in
    let (remain, e4, h) = >>=-eq-ok (stored_int "remain_amount_minor" payload) _ h in
    let (within, h) = raise_if-eq-ok (ltb_ℤ remain (pos amount)) _ _ h in
    let (date, e5, h) = >>=-eq-ok (loan_required_text body "offset_date") _ h in
    let (authority, granted_by, h) =
      >>=-eq-ok (loan_authority body actor_id principal employee "advance:offset" amount) _ h in
    let (row, found, local, same) = local_loan-eq-ok current loaded in
    (
      row,
      found,
      (
        local,
        employee,
        principal,
        amount,
        remain,
        subst (λ p. loan_required_identifier p "employee_id" ≡ ok employee) same e1,
        subst (λ p. loan_required_identifier p "principal_id" ≡ ok principal) same e2,
        subst (λ p. stored_int "remain_amount_minor" p ≡ ok remain) same e4,
        ap (get "offset_amount_minor") (sym (ok-injective h)),
        enough remain amount within,
        loan_authority-IsGranted body actor_id principal employee "advance:offset" amount
            granted_by,
      ),
    )

-- A request for an offset is made only on a loan of a command, for at most what the loan's row says
-- remains, and with a grant to its author of at least its amount for the loan's employee and
-- principal.
pub offset-IsOwed :
    (python : Python) (loan_id : Option String) (body : Dict) (actor_id key : String) (db : Db)
    (id : String) (request : Dict)
    → loan_request python offset loan_id body actor_id key db ≡ ok (id, request)
    → (row : Row) × (latest id db.loans ≡ some row) × IsOwed body actor_id row request
unfolding loan_request
offset-IsOwed python loan_id body actor_id key db id request h =
    let (i, e, h1) = >>=-eq-ok (required_id loan_id) _ h in
    let (r, asked, h2) =
      >>=-eq-ok (offset_request python (latest i db.loans) i body actor_id key) _ h1 in
    subst
      (λ (x : String × Dict).
        (row : Row) × (latest x.0 db.loans ≡ some row) × IsOwed body actor_id row x.1)
      (ok-injective h2) (offset_request-IsOwed python (latest i db.loans) i body actor_id key asked)
