-- ===== src/Loan/Fit.antt =====
-- The requests that `_loan_request` of scripts/company_postgres_service.py makes, as far as the amounts
-- depend on them.
use moonproj.Base.{
  String, ◌≡◌, refl, sym, ap, subst, not, Option, ◌++◌, ok, arr, nil, Dict, get, get_or, pos,
  is_currency, ltb_ℤ, ok-injective, raise_if-eq-ok, >>=-eq-ok,
}
use moonproj.Service.Rows.{Row, latest}
use moonproj.Service.Database.{Db}
use moonproj.Loan.Checks.{
  LoanCommand, Python, loan_required_text, loan_required_identifier, loan_amount_minor,
  offset_amount_minor, loan_authority, create, submit, offset, sync_from_workflow, update, void,
}
use moonproj.Loan.Create.{create_request, new_identifier, currency_of, evidence_ids}
use moonproj.Loan.Request.{
  local_loan, stored_int, offset_request, subject_change, amount_change, text_change, loan_amount,
  empty_fields, update_request, required_id, loan_request,
}
use moonproj.Loan.Balance.{IsFit}
use moonproj.Loan.Changes.{
  IsUnset, subject_change-Leaves, text_change-Leaves, amount_change-IsWhole, changes-IsChange,
}

abbrev FitsCreate : String × Dict → Type 0
FitsCreate r = IsFit create r.1

create_request-IsFit :
    (python : Python) (body : Dict) (actor_id key : String) {r : String × Dict}
    → create_request python body actor_id key ≡ ok r
    → FitsCreate r
unfolding create_request
create_request-IsFit python body actor_id key h =
    let (id, e, h) = >>=-eq-ok (new_identifier key (get "loan_id" body)) _ h in
    let (employee, e, h) = >>=-eq-ok (loan_required_identifier body "employee_id") _ h in
    let (principal, e, h) = >>=-eq-ok (loan_required_identifier body "principal_id") _ h in
    let (scope, e, h) = >>=-eq-ok (loan_required_identifier body "scope") _ h in
    let (e, h) = raise_if-eq-ok _ _ _ h in
    let (amount, e, h) = >>=-eq-ok (loan_amount_minor python body) _ h in
    let (authority, e, h) =
      >>=-eq-ok (loan_authority body actor_id principal employee "advance:create" amount) _ h in
    let (e, h) = raise_if-eq-ok _ _ _ h in
    let (subject, e, h) = >>=-eq-ok (loan_required_text body "subject") _ h in
    let (currency, e, h) = >>=-eq-ok (currency_of body) _ h in
    let (dept, e, h) = >>=-eq-ok (loan_required_identifier body "apply_dept_guid") _ h in
    let (date, e, h) = >>=-eq-ok (loan_required_text body "apply_date") _ h in
    let (e, h) = raise_if-eq-ok (not (is_currency currency)) _ _ h in
    let (e, h) = raise_if-eq-ok (not (evidence_ids (get_or "evidence_ids" (arr nil) body))) _ _ h in
    subst FitsCreate (ok-injective h) (amount, refl, refl, refl)

offset_request-IsFit :
    (python : Python) (current : Option Row) (id : String) (body : Dict) (actor_id key : String)
    {request : Dict}
    → offset_request python current id body actor_id key ≡ ok request
    → IsFit offset request
unfolding offset_request
offset_request-IsFit python current id body actor_id key h =
    let (payload, e, h) = >>=-eq-ok (local_loan current) _ h in
    let (employee, e, h) = >>=-eq-ok (loan_required_identifier payload "employee_id") _ h in
    let (principal, e, h) = >>=-eq-ok (loan_required_identifier payload "principal_id") _ h in
    let (amount, e, h) = >>=-eq-ok (offset_amount_minor body) _ h in
    let (remain, e, h) = >>=-eq-ok (stored_int "remain_amount_minor" payload) _ h in
    let (e, h) = raise_if-eq-ok (ltb_ℤ remain (pos amount)) _ _ h in
    let (date, e, h) = >>=-eq-ok (loan_required_text body "offset_date") _ h in
    let (authority, e, h) =
      >>=-eq-ok (loan_authority body actor_id principal employee "advance:offset" amount) _ h in
    subst (IsFit offset) (ok-injective h) (amount, refl)

update_request-IsFit :
    (python : Python) (current : Option Row) (id : String) (body : Dict) (actor_id : String)
    {request : Dict}
    → IsUnset current
    → update_request python current id body actor_id ≡ ok request
    → IsFit update request
unfolding update_request
update_request-IsFit python current id body actor_id unset h =
    let (subject, e1, h1) = >>=-eq-ok (subject_change body) _ h in
    let (amount, e2, h2) = >>=-eq-ok (amount_change python current body) _ h1 in
    let (pay_unit, e3, h3) = >>=-eq-ok (text_change "pay_unit" body) _ h2 in
    let (proj_guid, e4, h4) = >>=-eq-ok (text_change "proj_guid" body) _ h3 in
    let (e5, h5) =
      raise_if-eq-ok (empty_fields (subject ++ loan_amount amount ++ pay_unit ++ proj_guid)) _ _
        h4 in
    subst (IsFit update) (ok-injective h5) (
      changes-IsChange id actor_id subject amount pay_unit proj_guid (subject_change-Leaves body e1)
        (amount_change-IsWhole python current body unset e2)
        (text_change-Leaves "pay_unit" body refl refl refl e3)
        (text_change-Leaves "proj_guid" body refl refl refl e4))

pub loan_request-IsFit :
    (python : Python) (command : LoanCommand) (loan_id : Option String) (body : Dict)
    (actor_id key : String) (db : Db) (id : String) (request : Dict)
    → loan_request python command loan_id body actor_id key db ≡ ok (id, request)
    → (command ≡ update → IsUnset (latest id db.loans))
    → IsFit command request
unfolding loan_request
loan_request-IsFit python create loan_id body actor_id key db id request h unset =
    create_request-IsFit python body actor_id key h
loan_request-IsFit python submit loan_id body actor_id key db id request h unset = tt
loan_request-IsFit python offset loan_id body actor_id key db id request h unset =
    let (i, e1, h1) = >>=-eq-ok (required_id loan_id) _ h in
    let (r, e2, h2) =
      >>=-eq-ok (offset_request python (latest i db.loans) i body actor_id key) _ h1 in
    subst (IsFit offset) (ap (λ (x : String × Dict). x.1) (ok-injective h2))
      (offset_request-IsFit python (latest i db.loans) i body actor_id key e2)
loan_request-IsFit python sync_from_workflow loan_id body actor_id key db id request h unset = tt
loan_request-IsFit python update loan_id body actor_id key db id request h unset =
    let (i, e1, h1) = >>=-eq-ok (required_id loan_id) _ h in
    let (r, e2, h2) = >>=-eq-ok (update_request python (latest i db.loans) i body actor_id) _ h1 in
    let same = ap (λ (x : String × Dict). x.0) (ok-injective h2) in
    subst (IsFit update) (ap (λ (x : String × Dict). x.1) (ok-injective h2)) (
      update_request-IsFit python (latest i db.loans) i body actor_id
        (subst (λ j. IsUnset (latest j db.loans)) (sym same) (unset refl)) e2)
loan_request-IsFit python void loan_id body actor_id key db id request h unset = tt
