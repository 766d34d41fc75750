-- ===== src/Loan/Written.antt =====
-- What the block of a loan command of scripts/company_postgres_service.py writes as the amounts of a loan.
use moonproj.Base.{
  ℕ, ◌+◌, String, ◌≡◌, refl, sym, ap, ◌∙◌, subst, inl, inr, false, Option, some, [], ◌∷◌, arith,
  int, Dict, dict, get, ℤ, pos, some-eq,
}
use moonproj.Service.Merge.{merge, get-put}
use moonproj.Service.Exceptions.{>>=-eq-some, raise_when-eq-some}
use moonproj.Loan.Checks.{create, offset, update}
use moonproj.Loan.Transaction.{
  stamped, plus, minus, negative, number, changed, remaining, Postgres, cast, or_zero, excluded,
  first_payload, offset_payload, update_payload, moved_payload,
}
use moonproj.Loan.Balance.{
  Amounts, IsFit, plus-natural, minus-natural, unsettled, cast-natural, cast-null,
}

module _ (postgres : Postgres) where
  module _ (request : Dict) (actor_id event_id : String) where
    pub first-Amounts :
        IsFit create request → Amounts (first_payload postgres request actor_id event_id)
    unfolding first_payload merge
    first-Amounts (n, loan, balance, remain) = record {
      loan = n;
      balance = 0;
      remain = n;
      state = "Draft";
      has_loan = simp (get-put, loan);
      has_balance = simp (get-put, balance);
      has_remain = simp (get-put, remain);
      has_state = simp (get-put);
      adds_up = omega arith;
      settled = inr refl;
    }

    -- The amounts that an offset writes, and those that an update writes.
    offset-written :
        (p : Dict) (nb nr : Option ℤ) (loan balance remain : ℕ)
        → get "loan_amount_minor" p ≡ int (pos loan)
        → nb ≡ some (pos balance)
        → nr ≡ some (pos remain)
        → loan ≡ balance + remain
        → Amounts (
            merge p (
              dict (
                ("balance_amount_minor", number nb)
                ∷ ("remain_amount_minor", number nr)
                ∷ stamped postgres request actor_id event_id "Approved")))
    unfolding merge
    offset-written p nb nr loan balance remain lent paid left sum = record {
      loan = loan;
      balance = balance;
      remain = remain;
      state = "Approved";
      has_loan = simp (get-put, lent);
      has_balance = simp (get-put, paid);
      has_remain = simp (get-put, left);
      has_state = simp (get-put);
      adds_up = sum;
      settled = inl refl;
    }

    offset-source :
        (p : Dict) (nb nr : Option ℤ)
        → get "source_kind" (
            merge p (
              dict (
                ("balance_amount_minor", number nb)
                ∷ ("remain_amount_minor", number nr)
                ∷ stamped postgres request actor_id event_id "Approved")))
          ≡ get "source_kind" p
    unfolding merge
    offset-source p nb nr = simp (get-put)

    update-source :
        (u : Dict) (nr : Option ℤ)
        → get "source_kind" (
            merge u (
              dict (
                ("remain_amount_minor", number nr)
                ∷ stamped postgres request actor_id event_id "Draft")))
          ≡ get "source_kind" u
    unfolding merge
    update-source u nr = simp (get-put)

    update-written :
        (u : Dict) (nr : Option ℤ) (loan balance remain : ℕ)
        → get "loan_amount_minor" u ≡ int (pos loan)
        → get "balance_amount_minor" u ≡ int (pos balance)
        → nr ≡ some (pos remain)
        → loan ≡ balance + remain
        → balance ≡ 0
        → Amounts (
            merge u (
              dict (
                ("remain_amount_minor", number nr)
                ∷ stamped postgres request actor_id event_id "Draft")))
    unfolding merge
    update-written u nr loan balance remain lent unset left sum settled = record {
      loan = loan;
      balance = balance;
      remain = remain;
      state = "Draft";
      has_loan = simp (get-put, lent);
      has_balance = simp (get-put, unset);
      has_remain = simp (get-put, left);
      has_state = simp (get-put);
      adds_up = sum;
      settled = inr settled;
    }

    -- An offset that is paid is at most what remains, and is taken from it.
    pub offset_payload-eq-some :
        (p q : Dict)
        → IsFit offset request
        → offset_payload postgres request actor_id event_id p ≡ some q
        → (nb : Option ℤ) × (nr : Option ℤ) × (merge p (
              dict (
                ("balance_amount_minor", number nb)
                ∷ ("remain_amount_minor", number nr)
                ∷ stamped postgres request actor_id event_id "Approved"))
            ≡ q)
          × ((n : ℕ) (a : Amounts p)
              → get "offset_amount_minor" request ≡ int (pos n)
              → (nb ≡ some (pos (a.balance + n)))
                × (r : ℕ) × (nr ≡ some (pos r))
                × (a.loan ≡ a.balance + n + r))
    unfolding offset_payload
    offset_payload-eq-some p q (n, amount) h =
        let (b, eb, h1) = >>=-eq-some (cast postgres (get "balance_amount_minor" p)) _ h in
        let (m, em, h2) = >>=-eq-some (cast postgres (get "offset_amount_minor" request)) _ h1 in
        let (nb, en, h3) = >>=-eq-some (plus (or_zero b) m) _ h2 in
        let (l, el, h4) = >>=-eq-some (cast postgres (get "loan_amount_minor" p)) _ h3 in
        let (nr, er, h5) = >>=-eq-some (minus (or_zero l) nb) _ h4 in
        let (nonneg, h6) = raise_when-eq-some (negative nr) _ h5 in
        (
          nb,
          nr,
          some-eq h6,
          λ n a amount.
              let next =
                plus-natural a.balance n (cast-natural postgres _ a.balance a.has_balance eb)
                  (cast-natural postgres _ n amount em) en in
              let (r, left, sum) =
                minus-natural a.loan (a.balance + n) (cast-natural postgres _ a.loan a.has_loan el)
                  next er nonneg in
              (next, r, left, sum),
        )

    pub offset-Amounts :
        (p q : Dict)
        → IsFit offset request
        → offset_payload postgres request actor_id event_id p ≡ some q
        → (get "source_kind" q ≡ get "source_kind" p) × (Amounts p → Amounts q)
    offset-Amounts p q (n, amount) h =
        let (nb, nr, written, paid) = offset_payload-eq-some p q (n, amount) h in
        (
          ap (get "source_kind") (sym written) ∙ offset-source p nb nr,
          λ a.
              let (next, r, left, sum) = paid n a amount in
              subst Amounts written
                (offset-written p nb nr a.loan (a.balance + n) r a.has_loan next left sum),
        )

    pub update-Amounts :
        (p q : Dict)
        → IsFit update request
        → update_payload postgres request actor_id event_id p ≡ some q
        → (get "source_kind" q ≡ get "source_kind" p)
          × (excluded ("Draft" ∷ []) (get "apply_state" p) ≡ false → Amounts p → Amounts q)
    unfolding update_payload
    update-Amounts p q (changes, e, (balance, source, kind)) h =
        let (u, eu, h1) = >>=-eq-some (changed p (get "changes" request)) _ h in
        let (asked, ea, h2) =
          >>=-eq-some (cast postgres (get "next_remain_amount_minor" request)) _ h1 in
        let (nr, er, h3) =
          >>=-eq-some (remaining postgres (get "remain_amount_minor" p) asked) _ h2 in
        let merged = some-eq (rw e at eu) in
        let written = some-eq h3 in
        (
          ap (get "source_kind") (sym written)
              ∙ update-source u nr
              ∙ ap (get "source_kind") (sym merged)
              ∙ source p,
          λ draft a.
              let unset = unsettled ("Draft" ∷ []) p a draft refl in
              let kept = ap (get "balance_amount_minor") (sym merged) ∙ balance p ∙ a.has_balance in
              subst Amounts written (elim kind [
                | inl (n, asks, lends) ↦
                    update-written u nr n 0 n (ap (get "loan_amount_minor") (sym merged) ∙ lends p)
                      (kept ∙ ap (λ b. int (pos b)) unset)
                      (sym (some-eq (rw (cast-natural postgres _ n asks ea) at er))) (omega arith)
                      refl
                | inr (none_asked, lends) ↦
                    update-written u nr a.loan a.balance a.remain
                      (ap (get "loan_amount_minor") (sym merged) ∙ lends p ∙ a.has_loan) kept
                      (cast-natural postgres _ a.remain a.has_remain
                        (rw (sym (cast-null postgres _ none_asked ea)) at er))
                      a.adds_up unset
              ]),
        )

    pub moved-Amounts :
        (state : String) (p : Dict)
        → (get "source_kind" (moved_payload postgres request actor_id event_id state p)
            ≡ get "source_kind" p)
          × ((a : Amounts p)
              → a.balance ≡ 0
              → Amounts (moved_payload postgres request actor_id event_id state p))
    unfolding moved_payload merge
    moved-Amounts state p = (
      simp (get-put),
      λ a unset. record {
        loan = a.loan;
        balance = a.balance;
        remain = a.remain;
        state = state;
        has_loan = simp (get-put, a.has_loan);
        has_balance = simp (get-put, a.has_balance);
        has_remain = simp (get-put, a.has_remain);
        has_state = simp (get-put);
        adds_up = a.adds_up;
        settled = inr unset;
      },
    )
