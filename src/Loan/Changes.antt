-- ===== src/Loan/Changes.antt =====
-- The changes of an update of a loan of scripts/company_postgres_service.py, as far as the amounts depend
-- on them.
use moonproj.Base.{
  ℕ, String, ◌≡◌, refl, sym, ap, ◌∙◌, subst, inl, inr, false, ◌||◌, Option, none, some, List, [],
  ◌∷◌, ◌++◌, arith, ◌==◌, ok, Json, null, bool, int, str, arr, obj, Dict, dict, get, get_or, ℤ, pos,
  strip, ◌-ℤ◌, ok-injective, raise_if-eq-ok, >>=-eq-ok, contains,
}
use moonproj.Base.{if-eq-ok, eq_of_parts, -ℤ_parts}
use moonproj.Service.Merge.{merge, get-put, merge-append}
use moonproj.Service.Rows.{Row}
use moonproj.Loan.Checks.{Python, loan_required_text, loan_amount_minor, update}
use moonproj.Loan.Request.{
  stored_number, stored_int, header, subject_change, found_loan, amount_change, stripped_field,
  text_change, loan_amount, next_remain,
}
use moonproj.Loan.Balance.{IsFit}

-- Fields that leave the amounts and the source as they are.
abbrev Leaves : List (String × Json) → Type 0
Leaves fields =
    (p : Dict)
    → (get "balance_amount_minor" (merge p (dict fields)) ≡ get "balance_amount_minor" p)
      × (get "source_kind" (merge p (dict fields)) ≡ get "source_kind" p)
      × (get "loan_amount_minor" (merge p (dict fields)) ≡ get "loan_amount_minor" p)

no_fields-Leaves : Leaves []
unfolding merge
no_fields-Leaves p = (refl, refl, refl)

one_field-Leaves :
    (key : String) (v : Json)
    → (key == "balance_amount_minor") ≡ false
    → (key == "source_kind") ≡ false
    → (key == "loan_amount_minor") ≡ false
    → Leaves ((key, v) ∷ [])
unfolding merge
one_field-Leaves key v b s l p = (
  get-put "balance_amount_minor" key v p ∙ rw b refl,
  get-put "source_kind" key v p ∙ rw s refl,
  get-put "loan_amount_minor" key v p ∙ rw l refl,
)

pub subject_change-Leaves :
    (body : Dict) {fields : List (String × Json)} → subject_change body ≡ ok fields → Leaves fields
subject_change-Leaves body h = elim (if-eq-ok (contains "subject" body) _ _ h) [
  | inl written ↦
      let (subject, e, h1) = >>=-eq-ok (loan_required_text body "subject") _ written in
      subst Leaves (ok-injective h1) (one_field-Leaves "subject" (str subject) refl refl refl)
  | inr unwritten ↦ subst Leaves (ok-injective unwritten) no_fields-Leaves
]

pub text_change-Leaves :
    (key : String) (body : Dict) {fields : List (String × Json)}
    → (key == "balance_amount_minor") ≡ false
    → (key == "source_kind") ≡ false
    → (key == "loan_amount_minor") ≡ false
    → text_change key body ≡ ok fields
    → Leaves fields
text_change-Leaves key body {fields} b s l h = elim (if-eq-ok (contains key body) _ _ h) [
  | inl written ↦ go (get key body) written
  | inr unwritten ↦ subst Leaves (ok-injective unwritten) no_fields-Leaves
]
  where
    go : (v : Json) → stripped_field key v ≡ ok fields → Leaves fields
    go (str t) h = subst Leaves (ok-injective h) (one_field-Leaves key (str (strip t)) b s l)
    go null h = absurd (cc h)
    go (bool t) h = absurd (cc h)
    go (int t) h = absurd (cc h)
    go (arr t) h = absurd (cc h)
    go (obj t) h = absurd (cc h)

-- A new amount replaces the old one, and what remains is all of it.
abbrev IsWhole : Option (ℕ × ℤ) → Type 0
IsWhole none = (Unit {0})
IsWhole (some (n, z)) = z ≡ pos n

-- The loan that is updated has no offset.
abbrev pub IsUnset : Option Row → Type 0
IsUnset current =
    (row : Row)
    → current ≡ some row
    → get_or "balance_amount_minor" (int (pos 0)) row.payload ≡ int (pos 0)

found_loan-IsUnset :
    (current : Option Row) {payload : Dict} {balance : ℤ} (n : ℕ)
    → IsUnset current
    → found_loan current ≡ ok payload
    → stored_int "balance_amount_minor" payload ≡ ok balance
    → (pos n -ℤ balance) ≡ pos n
found_loan-IsUnset none n unset e2 e3 = absurd (cc e2)
found_loan-IsUnset (some row) n unset e2 e3 =
    let read = λ (d : Dict). stored_number (get_or "balance_amount_minor" (int (pos 0)) d) in
    let no_balance =
      ok-injective (sym e3 ∙ ap read (sym (ok-injective e2)) ∙ ap stored_number (unset row refl)) in
    ap (λ z. pos n -ℤ z) no_balance
    ∙ eq_of_parts (pos n -ℤ pos 0) (pos n) (omega (arith, -ℤ_parts (pos n) (pos 0)))

pub amount_change-IsWhole :
    (python : Python) (current : Option Row) (body : Dict) {amount : Option (ℕ × ℤ)}
    → IsUnset current
    → amount_change python current body ≡ ok amount
    → IsWhole amount
amount_change-IsWhole python current body unset h =
    elim (if-eq-ok (contains "loan_amount" body || contains "amount_minor" body) _ _ h) [
      | inl written ↦
          let (n, e1, h1) = >>=-eq-ok (loan_amount_minor python body) _ written in
          let (payload, e2, h2) = >>=-eq-ok (found_loan current) _ h1 in
          let (balance, e3, h3) = >>=-eq-ok (stored_int "balance_amount_minor" payload) _ h2 in
          let (above, h4) = raise_if-eq-ok _ _ _ h3 in
          subst IsWhole (ok-injective h4) (found_loan-IsUnset current n unset e2 e3)
      | inr unwritten ↦ subst IsWhole (ok-injective unwritten) tt
    ]

module _ (subject amount pay_unit proj_guid : List (String × Json)) (p : Dict) where
  merge-four :
      merge p (dict (subject ++ amount ++ pay_unit ++ proj_guid))
      ≡ merge
          (merge (merge (merge p (dict subject)) (dict amount)) (dict pay_unit))
          (dict proj_guid)
  merge-four =
      merge-append p (subject ++ amount ++ pay_unit) proj_guid
      ∙ ap (λ q. merge q (dict proj_guid))
          (merge-append p (subject ++ amount) pay_unit
            ∙ ap (λ q. merge q (dict pay_unit)) (merge-append p subject amount))

  -- The changes leave what the amount's leave.
  merge-through :
      (k : String)
      → ((q : Dict) → get k (merge q (dict pay_unit)) ≡ get k q)
      → ((q : Dict) → get k (merge q (dict proj_guid)) ≡ get k q)
      → get k (merge p (dict (subject ++ amount ++ pay_unit ++ proj_guid)))
        ≡ get k (merge (merge p (dict subject)) (dict amount))
  merge-through k a b = ap (get k) merge-four ∙ b _ ∙ a _

pub changes-IsChange :
    (id actor_id : String) (subject : List (String × Json)) (amount : Option (ℕ × ℤ))
    (pay_unit proj_guid : List (String × Json))
    → Leaves subject
    → IsWhole amount
    → Leaves pay_unit
    → Leaves proj_guid
    → IsFit update (
        dict (
          header update id actor_id
          ++ next_remain amount
          ++ ("changes", obj (dict (subject ++ loan_amount amount ++ pay_unit ++ proj_guid))) ∷ []))
unfolding merge
changes-IsChange id actor_id subject none pay_unit proj_guid s w a b = (
  _,
  refl,
  (
    λ p.
        merge-through subject [] pay_unit proj_guid p "balance_amount_minor" (λ q. (a q).0)
          (λ q. (b q).0)
        ∙ (s p).0,
    λ p.
        merge-through subject [] pay_unit proj_guid p "source_kind" (λ q. (a q).1) (λ q. (b q).1)
        ∙ (s p).1,
    inr (
      refl,
      λ p.
          merge-through subject [] pay_unit proj_guid p "loan_amount_minor" (λ q. (a q).2)
            (λ q. (b q).2)
          ∙ (s p).2,
    ),
  ),
)
changes-IsChange id actor_id subject (some (n, z)) pay_unit proj_guid s w a b = (
  _,
  refl,
  (
    λ p.
        merge-through subject lent pay_unit proj_guid p "balance_amount_minor" (λ q. (a q).0)
          (λ q. (b q).0)
        ∙ get-put "balance_amount_minor" "loan_amount_minor" (int (pos n)) _
        ∙ (s p).0,
    λ p.
        merge-through subject lent pay_unit proj_guid p "source_kind" (λ q. (a q).1) (λ q. (b q).1)
        ∙ get-put "source_kind" "loan_amount_minor" (int (pos n)) _
        ∙ (s p).1,
    inl (
      n,
      ap int w,
      λ p.
          merge-through subject lent pay_unit proj_guid p "loan_amount_minor" (λ q. (a q).2)
            (λ q. (b q).2)
          ∙ get-put "loan_amount_minor" "loan_amount_minor" (int (pos n)) _,
    ),
  ),
)
  where
    lent : List (String × Json)
    lent = ("loan_amount_minor", int (pos n)) ∷ []
