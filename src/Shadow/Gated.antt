-- ===== src/Shadow/Gated.antt =====
-- The contract that scripts/company_shadow_period_check.py writes, before the check of the cutover gate
-- that reads it.
use moonproj.Base.{
  sym, ℕ, ◌≡◌, ok, >>=-eq-ok, raise_if-eq-ok, Json, obj, Dict, get, json_eq, List, arith, subst,
  ok-injective, is_text, Bool-cases, inl, inr, [], ◌∷◌,
}
use moonproj.Evidence.{WorkDir}
use moonproj.Evidence.Secrets.{reject_secrets}
use moonproj.Gate.Control.{shadow_passes}
use moonproj.Shadow.{
  result, validate, validate_object, verified_reports, parity_reports, load_values, any_unverified,
  terms, coverage, reconciliations, acceptance_decision,
}

result-passes :
    (m : Dict) (n : ℕ × ℕ) (x : Json) (xs rs : List Json) (c d : Json)
    → let r = result m n (x ∷ xs) rs c d in
      shadow_passes r ≡ ok (json_eq (get "source_rows" r) (get "covered_rows" r))
unfolding result shadow_passes
result-passes m (a, b) x xs rs c d = elim (Bool-cases (is_text "accept_for_shadow" d)) [
  | inl accepted ↦ rw accepted (ground arith)
  | inr undecided ↦ rw undecided (ground arith)
]

-- The parity reports that are returned are not none.
verified_reports-cons :
    (ds : List Json) {rs : List Json}
    → verified_reports ds ≡ ok rs
    → (x : Json) × (xs : List Json) × (rs ≡ x ∷ xs)
unfolding verified_reports
verified_reports-cons [] h = absurd (cc h)
verified_reports-cons (x ∷ xs) h =
    let (u, eu, h1) = >>=-eq-ok (any_unverified (x ∷ xs)) _ h in
    let (_, h2) = raise_if-eq-ok u _ _ h1 in (x, xs, sym (ok-injective h2))

parity_reports-cons :
    (w : WorkDir) {rs : List Json}
    → parity_reports w ≡ ok rs
    → (x : Json) × (xs : List Json) × (rs ≡ x ∷ xs)
unfolding parity_reports
parity_reports-cons w h =
    let (ds, _, h1) = >>=-eq-ok (load_values w.file w.parity_paths) _ h in
    verified_reports-cons ds h1

validate_object-result :
    (w : WorkDir) (m : Dict) {r : Dict}
    → validate_object w m ≡ ok r
    → (n : ℕ × ℕ) × (x : Json) × (xs : List Json) × (rs : List Json) × (c : Json) × (d : Json) × (r
        ≡ result m n (x ∷ xs) rs c d)
unfolding validate_object
validate_object-result w m {r} h =
    let (n, _, h1) = >>=-eq-ok (terms m) _ h in
    let (ps, ep, h2) = >>=-eq-ok (parity_reports w) _ h1 in
    let (c, _, h3) = >>=-eq-ok (coverage w) _ h2 in
    let (rs, _, h4) = >>=-eq-ok (reconciliations w) _ h3 in
    let (d, _, h5) = >>=-eq-ok (acceptance_decision w) _ h4 in
    let (x, xs, e) = parity_reports-cons w ep in
    (n, x, xs, rs, c, d, subst (λ l. r ≡ result m n l rs c d) e (sym (ok-injective h5)))

-- Whenever the shadow check writes a contract, the cutover gate's check of that contract runs to an
-- end, and passes exactly when the contract's source rows equal its covered rows.
pub validate-shadow_passes :
    (w : WorkDir) (m : Json) {r : Dict}
    → validate w m ≡ ok r
    → shadow_passes r ≡ ok (json_eq (get "source_rows" r) (get "covered_rows" r))
unfolding validate
validate-shadow_passes w (obj m) {r} h =
    let (_, _, h1) = >>=-eq-ok (reject_secrets (obj m)) _ h in
    let (n, x, xs, rs, c, d, e) = validate_object-result w m h1 in
    subst (λ r. shadow_passes r ≡ ok (json_eq (get "source_rows" r) (get "covered_rows" r))) (sym e)
      (result-passes m n x xs rs c d)
validate-shadow_passes w m h = absurd (cc h)
