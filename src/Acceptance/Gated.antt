-- ===== src/Acceptance/Gated.antt =====
-- The packet that scripts/company_business_acceptance_check.py writes, before the check of the cutover
-- gate that reads it, and the decisions behind an authorisation.
use moonproj.Base.{
  AllAmong-self, Among, ◌∙◌, String, ◌≡◌, refl, sym, true, not, ◌&&◌, ok, >>=-eq-ok, raise_if-eq-ok,
  ok-injective, Json, bool, obj, Dict, get, is_text, is_null, All, is_empty, ◌||◌, Option-cases,
  Bool-cases, inl, inr, List, [], subst, and-eq-true,
}
use moonproj.Evidence.{WorkDir, load_value, attribute_get}
use moonproj.Evidence.Secrets.{reject_secrets}
use moonproj.Gate.Control.{acceptance_passes}
use moonproj.Acceptance.{
  shadow_required, lookup, ById, list_of, collect_decisions, decided, authorized, ids_where, result,
  snapshot_of, validate_object, validate,
}
use moonproj.Acceptance.Decisions.{IsVouched, Gathered, collect_decisions-Gathered, lookup-Gathered}

module _ (s c v ds : Json) (m : ById) where
  result-passes : acceptance_passes (result s c v ds m) ≡ ok true
  unfolding result acceptance_passes
  result-passes =
      elim (Bool-cases
        (not (is_empty (ids_where is_null m)) || not (is_empty (ids_where (is_text "reject") m)))) [
          | inl waiting ↦ rw waiting
          | inr settled ↦ rw settled
        ]

  result-authorized : get "shadow_authorized" (result s c v ds m) ≡ bool (authorized m)
  unfolding result
  result-authorized = refl

module _ (repr : Json → String) (w : WorkDir) where
  validate_object-result :
      (m : Dict) {r : Dict}
      → validate_object repr w m ≡ ok r
      → (s : Json) × (c : Json) × (v : Json) × (es : List Json) × (by_id : ById) × (list_of
            (get "decisions" m)
          ≡ ok es)
        × (collect_decisions [] es ≡ ok by_id)
        × (r ≡ result s c v (get "decisions" m) by_id)
  unfolding validate_object
  validate_object-result m h =
      let (_, h1) = raise_if-eq-ok _ _ _ h in
      let (c, _, h2) = >>=-eq-ok (load_value (w.file "source-export-contract.json")) _ h1 in
      let (v, _, h3) = >>=-eq-ok (load_value (w.file "row-coverage.json")) _ h2 in
      let (f, _, h4) = >>=-eq-ok (attribute_get "format" c) _ h3 in
      let (_, h5) = raise_if-eq-ok _ _ _ h4 in
      let (g, _, h6) = >>=-eq-ok (attribute_get "format" v) _ h5 in
      let (_, h7) = raise_if-eq-ok _ _ _ h6 in
      let (s, _, h8) = >>=-eq-ok (snapshot_of repr m c) _ h7 in
      let (es, ee, h9) = >>=-eq-ok (list_of (get "decisions" m)) _ h8 in
      let (by_id, eb, h10) = >>=-eq-ok (collect_decisions [] es) _ h9 in
      let (_, h11) = raise_if-eq-ok _ _ _ h10 in
      (s, c, v, es, by_id, ee, eb, sym (ok-injective h11))

  -- Whenever the acceptance check writes a packet, the cutover gate's check of it passes.
  pub validate-acceptance_passes :
      (m : Json) {r : Dict} → validate repr w m ≡ ok r → acceptance_passes r ≡ ok true
  unfolding validate
  validate-acceptance_passes (obj m) {r} h =
      let (_, _, h1) = >>=-eq-ok (reject_secrets (obj m)) _ h in
      let (s, c, v, es, by_id, _, _, e) = validate_object-result m h1 in
      subst (λ x. acceptance_passes x ≡ ok true) (sym e)
        (result-passes s c v (get "decisions" m) by_id)
  validate-acceptance_passes m h = absurd (cc h)

-- One of the manifest's decisions has this id, is vouched for and accepts the shadow period.
abbrev pub Accepted : List Json → String → Type 0
Accepted es id =
    (d : Dict) × IsVouched id d
    × Among (obj d) es
    × (is_text "accept_for_shadow" (get "decision" d) ≡ true)

decided-Accepted :
    (es : List Json) (m : ById) (id : String)
    → Gathered es m
    → decided "accept_for_shadow" m id ≡ true
    → Accepted es id
decided-Accepted es m id g h = elim (Option-cases (lookup id m)) [
  | inl missing ↦ absurd (cc (rw (missing, decided) at h))
  | inr (d, found) ↦
      let (vouched, among) = lookup-Gathered es m id g found in
      (d, vouched, among, rw (found, decided) at h)
]

authorized-decided :
    (m : ById)
    → authorized m ≡ true
    → All (λ id. decided "accept_for_shadow" m id ≡ true) shadow_required
unfolding authorized
authorized-decided m h =
    let (_, h2) =
      and-eq-true (is_empty (ids_where is_null m) && is_empty (ids_where (is_text "reject") m)) _
        h in
    let (deployment, h3) =
      and-eq-true (decided "accept_for_shadow" m "production-database-deployment") _ h2 in
    let (reconciliation, h4) =
      and-eq-true (decided "accept_for_shadow" m "accounting-reconciliation") _ h3 in
    let (shadow, _) = and-eq-true (decided "accept_for_shadow" m "shadow-period") _ h4 in
    (deployment, (reconciliation, (shadow, tt)))

-- If a packet authorises the shadow period, the manifest's decisions hold, for each of the three
-- decisions that the shadow period needs, one that accepts it and that its owner vouches for.
pub authorized-Accepted :
    (repr : Json → String) (w : WorkDir) (m : Dict) {r : Dict}
    → validate repr w (obj m) ≡ ok r
    → get "shadow_authorized" r ≡ bool true
    → (es : List Json) × (list_of (get "decisions" m) ≡ ok es) × All (Accepted es) shadow_required
unfolding validate
authorized-Accepted repr w m {r} h a =
    let (_, _, h1) = >>=-eq-ok (reject_secrets (obj m)) _ h in
    let (s, c, v, es, by_id, ee, eb, e) = validate_object-result repr w m h1 in
    let g = collect_decisions-Gathered es [] es tt (AllAmong-self es) eb in
    let granted : bool (authorized by_id) ≡ bool true =
      sym (result-authorized s c v (get "decisions" m) by_id)
      ∙ subst (λ x. get "shadow_authorized" x ≡ bool true) e a in
    let granted_all : authorized by_id ≡ true = cc in
    let (d1, (d2, (d3, _))) = authorized-decided by_id granted_all in
    (
      es,
      ee,
      (
        decided-Accepted es by_id "production-database-deployment" g d1,
        (
          decided-Accepted es by_id "accounting-reconciliation" g d2,
          (decided-Accepted es by_id "shadow-period" g d3, tt),
        ),
      ),
    )
