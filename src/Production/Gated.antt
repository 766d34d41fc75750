-- ===== src/Production/Gated.antt =====
-- What the production checks write, before the checks of the cutover gate that read it.
use moonproj.Base.{
  ℕ, String, ◌≡◌, refl, sym, ap, subst, inl, inr, Bool, true, false, not, ok, Json, null, bool, int,
  str, arr, obj, Dict, get, is_text, json_eq, ok-injective, raise_if-eq-ok, >>=-eq-ok, Bool-cases,
  is_empty,
}
use moonproj.Evidence.Secrets.{has_secret, is_credential_key, is_dsn}
use moonproj.Gate.Control.{deployment_passes, service_passes}
use moonproj.Production.Manifest.{object_value}
use moonproj.Production.Deployment.{
  Database, Approvals, database_terms, backup_terms, restore_terms, operations_terms,
  approval_terms, missing_roles, required_roles,
}
use moonproj.Production.Deployment
use moonproj.Production.Service

pub object_value-eq-ok : (v : Json) {d : Dict} → object_value v ≡ ok d → v ≡ obj d
object_value-eq-ok (obj d) h = ap obj (ok-injective h)
object_value-eq-ok null h = absurd (cc h)
object_value-eq-ok (bool b) h = absurd (cc h)
object_value-eq-ok (int z) h = absurd (cc h)
object_value-eq-ok (str s) h = absurd (cc h)
object_value-eq-ok (arr a) h = absurd (cc h)

-- The parts of a deployment manifest that is accepted, and the result.
validate_object-result :
    (root : Dict) {r : Dict}
    → Deployment.validate_object root ≡ ok r
    → (database : Database) × (database_terms root ≡ ok database)
      × (days : ℕ) × (times : ℕ × ℕ) × (seen : Approvals) × (approval_terms root ≡ ok seen)
      × (r ≡ Deployment.result database days times seen)
unfolding Deployment.validate_object
validate_object-result root h =
    let (_, h) = raise_if-eq-ok (has_secret is_credential_key is_dsn (obj root)) _ _ h in
    let (_, h) =
      raise_if-eq-ok (not (is_text "moonproj.company.production-deployment.v1" (get "format" root)))
        _ _ h in
    let (_, h) = raise_if-eq-ok (not (is_text "production" (get "environment" root))) _ _ h in
    let (database, e, h) = >>=-eq-ok (database_terms root) _ h in
    let (days, _, h) = >>=-eq-ok (backup_terms root) _ h in
    let (times, _, h) = >>=-eq-ok (restore_terms root) _ h in
    let (done, _, h) = >>=-eq-ok (operations_terms root) _ h in
    let (seen, e', h) = >>=-eq-ok (approval_terms root) _ h in
    (database, e, days, times, seen, e', sym (ok-injective h))

pub validate-result :
    (manifest : Json) {r : Dict}
    → Deployment.validate manifest ≡ ok r
    → (root : Dict) × (manifest ≡ obj root)
      × (database : Database) × (database_terms root ≡ ok database)
      × (days : ℕ) × (times : ℕ × ℕ) × (seen : Approvals) × (approval_terms root ≡ ok seen)
      × (r ≡ Deployment.result database days times seen)
unfolding Deployment.validate
validate-result manifest h =
    let (root, whole, h1) = >>=-eq-ok (object_value manifest) _ h in
    let (database, e, days, times, seen, e', made) = validate_object-result root h1 in
    (root, object_value-eq-ok manifest whole, database, e, days, times, seen, e', made)

deployment-passes :
    (database : Database) (days : ℕ) (times : ℕ × ℕ) (seen : Approvals)
    → deployment_passes (Deployment.result database days times seen) ≡ ok true
unfolding Deployment.result deployment_passes
deployment-passes database days times seen =
    elim (Bool-cases (is_empty (missing_roles required_roles seen.approved_roles))) [
      | inl complete ↦ rw complete
      | inr missing ↦ rw missing
    ]

-- Whenever the deployment check writes its result, the cutover gate's check of it passes.
pub validate-deployment_passes :
    (manifest : Json) {r : Dict}
    → Deployment.validate manifest ≡ ok r
    → deployment_passes r ≡ ok true
validate-deployment_passes manifest h =
    let (root, whole, database, e, days, times, seen, e', made) = validate-result manifest h in
    subst (λ d. deployment_passes d ≡ ok true) (sym made)
      (deployment-passes database days times seen)

service-passes :
    (pool : ℕ × ℕ) (token_env : String) (authorized : Bool)
    → service_passes (Service.result pool token_env authorized) ≡ ok true
unfolding Service.result service_passes json_eq
service-passes pool token_env true = refl
service-passes pool token_env false = refl

-- The result of a service manifest that is accepted, and what it takes from the deployment gate.
service_object-result :
    (root : Dict) (gate : Json) {r : Dict}
    → Service.validate_object root gate ≡ ok r
    → (pool : ℕ × ℕ) × (token_env : String) × (authorized : Bool) × (Service.deployment_terms gate
        ≡ ok authorized)
      × (r ≡ Service.result pool token_env authorized)
unfolding Service.validate_object
service_object-result root gate h =
    let (_, h) = raise_if-eq-ok (has_secret Service.is_service_secret is_dsn (obj root)) _ _ h in
    let (_, h) =
      raise_if-eq-ok (not (is_text "moonproj.company.production-service.v1" (get "format" root))) _
        _ h in
    let (_, h) = raise_if-eq-ok (not (is_text "production" (get "environment" root))) _ _ h in
    let (pool, _, h) = >>=-eq-ok (Service.database_terms root) _ h in
    let (token_env, _, h) = >>=-eq-ok (Service.http_terms root) _ h in
    let (done, _, h) = >>=-eq-ok (Service.endpoint_terms root) _ h in
    let (done, _, h) = >>=-eq-ok (Service.observability_terms root) _ h in
    let (authorized, e, h) = >>=-eq-ok (Service.deployment_terms gate) _ h in
    (pool, token_env, authorized, e, sym (ok-injective h))

pub service-result :
    (service gate : Json) {r : Dict}
    → Service.validate service gate ≡ ok r
    → (pool : ℕ × ℕ) × (token_env : String) × (authorized : Bool) × (Service.deployment_terms gate
        ≡ ok authorized)
      × (r ≡ Service.result pool token_env authorized)
unfolding Service.validate
service-result service gate h =
    let (root, _, h1) = >>=-eq-ok (object_value service) _ h in service_object-result root gate h1

-- Whenever the service check writes its result, the cutover gate's check of it passes.
pub validate-service_passes :
    (service gate : Json) {r : Dict}
    → Service.validate service gate ≡ ok r
    → service_passes r ≡ ok true
validate-service_passes service gate h =
    let (pool, token_env, authorized, _, made) = service-result service gate h in
    subst (λ d. service_passes d ≡ ok true) (sym made) (service-passes pool token_env authorized)
