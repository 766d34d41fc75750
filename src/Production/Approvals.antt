-- ===== src/Production/Approvals.antt =====
-- The approvals behind an authorised deployment and an authorised service.
use moonproj.Base.{
  ℕ, String, ◌≡◌, refl, sym, ap, ◌∙◌, subst, inl, inr, Bool, true, false, not, List, [], ◌∷◌, ◌==◌,
  eq_iff, ok, Json, null, bool, int, str, arr, obj, nil, Dict, get, get_or, is_text, is_true, All,
  all, is_filled, ok-injective, raise_if-eq-ok, >>=-eq-ok, Bool-cases, Among, is_empty,
}
use moonproj.Base.{AllAmong, AllAmong-self, not-false}
use moonproj.Production.Manifest.{object_value, required_string}
use moonproj.Production.Deployment.{
  Database, required_roles, has, list_of, named_roles, Approvals, has_refs, check_grounds,
  check_approval, add_approval, collect_approvals, no_approvals, approval_terms, missing_roles,
  result, validate,
}
use moonproj.Production.Service
use moonproj.Production.Gated.{object_value-eq-ok, validate-result, service-result}

-- One of the records is an approval by this role, with its author, its date, its grounds and its
-- evidence.
abbrev pub Approved : List Json → String → Type 0
Approved records role =
    (d : Dict) × Among (obj d) records
    × (required_string d "role" ≡ ok role)
    × (required_string d "decision" ≡ ok "approve")
    × (is_filled (get "actor_id" d) ≡ true)
    × (is_filled (get "decided_at" d) ≡ true)
    × (is_filled (get "rationale" d) ≡ true)
    × (has_refs (get "evidence_refs" d) ≡ true)

required_string-filled :
    (d : Dict) (key : String) {v : String}
    → required_string d key ≡ ok v
    → is_filled (get key d) ≡ true
unfolding required_string
required_string-filled d key h =
    let (filled, _) = raise_if-eq-ok (not (is_filled (get key d))) _ _ h in not-false filled

abbrev Backed : List Json → Approvals → Type 0
Backed records seen = All (Approved records) seen.approved_roles

check_grounds-Backed :
    (records : List Json) (d : Dict) (role : String) (seen : Approvals) {after : Approvals}
    → Among (obj d) records
    → required_string d "role" ≡ ok role
    → required_string d "decision" ≡ ok "approve"
    → Backed records seen
    → check_grounds d role seen ≡ ok after
    → Backed records after
unfolding check_grounds
check_grounds-Backed records d role seen among named decided backed h =
    let (actor, e1, h1) = >>=-eq-ok (required_string d "actor_id") _ h in
    let (date, e2, h2) = >>=-eq-ok (required_string d "decided_at") _ h1 in
    let (rationale, e3, h3) = >>=-eq-ok (required_string d "rationale") _ h2 in
    let (refs, h4) = raise_if-eq-ok (not (has_refs (get "evidence_refs" d))) _ _ h3 in
    subst (Backed records) (ok-injective h4) (
      (
        d,
        among,
        named,
        decided,
        required_string-filled d "actor_id" e1,
        required_string-filled d "decided_at" e2,
        required_string-filled d "rationale" e3,
        not-false refs,
      ),
      backed,
    )

check_approval-Backed :
    (records : List Json) (d : Dict) (role : String) (seen : Approvals) {after : Approvals}
    → Among (obj d) records
    → required_string d "role" ≡ ok role
    → Backed records seen
    → check_approval d role seen ≡ ok after
    → Backed records after
unfolding check_approval
check_approval-Backed records d role seen {after} among named backed h =
    let (decision, e, h1) = >>=-eq-ok (required_string d "decision") _ h in
    elim (Bool-cases (decision == "approve")) [
      | inl approves ↦
          check_grounds-Backed records d role seen among named
            (e ∙ ap ok ((eq_iff decision "approve").0 approves)) backed (rw approves at h1)
      | inr other ↦ subst (Backed records) (ok-injective (rw other at h1)) backed
    ]

add_approval-Backed :
    (records : List Json) (v : Json) (seen : Approvals) {after : Approvals}
    → Among v records
    → Backed records seen
    → add_approval seen v ≡ ok after
    → Backed records after
unfolding add_approval
add_approval-Backed records v seen among backed h =
    let (d, e, h1) = >>=-eq-ok (object_value v) _ h in
    let (role, named, h2) = >>=-eq-ok (required_string d "role") _ h1 in
    let (_, h3) = raise_if-eq-ok (not (has required_roles role)) _ _ h2 in
    let (_, h4) = raise_if-eq-ok (has seen.record_roles role) _ _ h3 in
    check_approval-Backed records d role seen
      (subst (λ x. Among x records) (object_value-eq-ok v e) among) named backed h4

collect_approvals-Backed :
    (records vs : List Json) (seen : Approvals) {after : Approvals}
    → AllAmong records vs
    → Backed records seen
    → collect_approvals seen vs ≡ ok after
    → Backed records after
unfolding collect_approvals
collect_approvals-Backed records [] seen among backed h =
    subst (Backed records) (ok-injective h) backed
collect_approvals-Backed records (v ∷ vs) seen (a, more) backed h =
    let (next, e, h1) = >>=-eq-ok (add_approval seen v) _ h in
    collect_approvals-Backed records vs next more (add_approval-Backed records v seen a backed e) h1

has-All :
    (P : String → Type 0) (roles : List String) (role : String)
    → All P roles
    → has roles role ≡ true
    → P role
has-All P [] role ps h = absurd (cc h)
has-All P (r ∷ rs) role (p, ps) h = elim (Bool-cases (r == role)) [
  | inl same ↦ subst P ((eq_iff r role).0 same) p
  | inr other ↦ has-All P rs role ps (rw other at h)
]

none_missing-All :
    (P : String → Type 0) (roles approved : List String)
    → All P approved
    → is_empty (missing_roles roles approved) ≡ true
    → All P roles
none_missing-All P [] approved ps h = tt
none_missing-All P (role ∷ roles) approved ps h = elim (Bool-cases (has approved role)) [
  | inl there ↦
      (has-All P approved role ps there, none_missing-All P roles approved ps (rw there at h))
  | inr missing ↦ absurd (cc (rw missing at h))
]

-- The records of a deployment manifest.
abbrev pub Records : Json → List Json → Type 0
Records manifest records =
    (root : Dict) × (approvals : Dict) × (manifest ≡ obj root)
    × (get "approvals" root ≡ obj approvals)
    × (list_of (get_or "records" (arr nil) approvals) ≡ ok records)

approval_terms-Backed :
    (root : Dict) {seen : Approvals}
    → approval_terms root ≡ ok seen
    → (records : List Json) × Records (obj root) records × Backed records seen
unfolding approval_terms
approval_terms-Backed root h =
    let (approvals, e, h1) = >>=-eq-ok (object_value (get "approvals" root)) _ h in
    let (named, _, h2) = >>=-eq-ok (named_roles approvals) _ h1 in
    let (records, e', h3) = >>=-eq-ok (list_of (get_or "records" (arr nil) approvals)) _ h2 in
    let (seen, collected, h4) = >>=-eq-ok (collect_approvals no_approvals records) _ h3 in
    let (_, h5) = raise_if-eq-ok (not (all (has seen.record_roles) named)) _ _ h4 in
    (
      records,
      (root, approvals, refl, object_value-eq-ok _ e, e'),
      subst (Backed records) (ok-injective h5) (
          collect_approvals-Backed records records no_approvals (AllAmong-self records) tt
            collected),
    )

result-authorized :
    (database : Database) (days : ℕ) (times : ℕ × ℕ) (seen : Approvals)
    → get "deployment_authorized" (result database days times seen)
      ≡ bool (is_empty (missing_roles required_roles seen.approved_roles))
unfolding result
result-authorized database days times seen = refl

bool-injective : {a b : Bool} → ◌≡◌ {A = Json} (bool a) (bool b) → a ≡ b
bool-injective h = cc

-- If the result of the deployment check authorises the deployment, each of the roles finance,
-- operations and security has approved it by a record of the manifest with author, date, grounds and
-- evidence.
pub authorized-Approved :
    (manifest : Json) {r : Dict}
    → validate manifest ≡ ok r
    → get "deployment_authorized" r ≡ bool true
    → (records : List Json) × Records manifest records × All (Approved records) required_roles
authorized-Approved manifest {r} h granted =
    let (root, whole, database, _, days, times, seen, e, made) = validate-result manifest h in
    let (records, named, backed) = approval_terms-Backed root e in
    let complete = bool-injective (
      sym (result-authorized database days times seen)
      ∙ ap (get "deployment_authorized") (sym made)
      ∙ granted) in
    (
      records,
      subst (λ m. Records m records) (sym whole) named,
      none_missing-All (Approved records) required_roles seen.approved_roles backed complete,
    )

service-authorized :
    (pool : ℕ × ℕ) (token_env : String) (authorized : Bool)
    → get "service_authorized" (Service.result pool token_env authorized) ≡ bool authorized
unfolding Service.result
service-authorized pool token_env authorized = refl

is_true-true : (v : Json) → is_true v ≡ true → v ≡ bool true
is_true-true (bool true) h = refl
is_true-true (bool false) h = absurd (cc h)
is_true-true null h = absurd (cc h)
is_true-true (int z) h = absurd (cc h)
is_true-true (str s) h = absurd (cc h)
is_true-true (arr a) h = absurd (cc h)
is_true-true (obj d) h = absurd (cc h)

deployment_terms-authorized :
    (r : Dict) {authorized : Bool}
    → Service.deployment_terms (obj r) ≡ ok authorized
    → authorized ≡ true
    → get "deployment_authorized" r ≡ bool true
unfolding Service.deployment_terms
deployment_terms-authorized r h granted =
    let (_, h1) =
      raise_if-eq-ok
        (not (is_text "moonproj.company.production-deployment-gate.v1" (get "format" r))) _ _ h in
    is_true-true (get "deployment_authorized" r) (ok-injective h1 ∙ granted)

-- If the service check, run on the result of the deployment check, authorises the service, the same
-- three roles have approved the deployment in its manifest.
pub service-Approved :
    (manifest service : Json) {r s : Dict}
    → validate manifest ≡ ok r
    → Service.validate service (obj r) ≡ ok s
    → get "service_authorized" s ≡ bool true
    → (records : List Json) × Records manifest records × All (Approved records) required_roles
service-Approved manifest service {r} {s} h h' granted =
    let (pool, token_env, authorized, e, made) = service-result service (obj r) h' in
    authorized-Approved manifest h (
      deployment_terms-authorized r e (
        bool-injective (
          sym (service-authorized pool token_env authorized)
          ∙ ap (get "service_authorized") (sym made)
          ∙ granted)))
