-- ===== src/Production/Service.antt =====
-- `validate` of scripts/company_production_service_check.py.
use moonproj.Base.{
  ℕ, String, Bool, true, false, not, ◌&&◌, ◌||◌, List, [], ◌∷◌, map, ◌==◌, ok, err, ◌>>=◌, raise_if,
  Json, bool, int, str, arr, obj, nil, Dict, dict, get, get_or, is_text, is_true, if◌then◌else◌,
  json_eq, pos, all, ◌>>◌, ltb, eqb, any, truthy, is_false,
}
use moonproj.Base.{items, array}
use moonproj.Evidence.{Checked, failure, type_error}
use moonproj.Evidence.Secrets.{has_secret, is_credential_key, is_dsn}
use moonproj.Production.Manifest.{object_value, required_string, is_env_name}

-- `SECRET_KEY.search(key) and key not in {"token_env"}`
abbrev pub is_service_secret : String → Bool
is_service_secret key = is_credential_key key && not (key == "token_env")

-- `READ_ENDPOINTS`, sorted
abbrev pub read_allowed : List String
read_allowed =
    "/api/company/projections" ∷ "/api/company/receipts" ∷ "/api/company/summary" ∷ "/api/health"
    ∷ []

-- `positive_int(value, key, maximum=…)`
unfoldable pub bounded_int : ℕ → Json → Checked ℕ
bounded_int maximum (int (pos n)) = do
  raise_if (eqb n 0) (failure "must be a positive integer")
  raise_if (ltb maximum n) (failure "exceeds the maximum")
  ok n
bounded_int maximum _ = err (failure "must be a positive integer")

unfoldable pub database_terms : Dict → Checked (ℕ × ℕ)
database_terms root = do
  database ← object_value (get "database" root)
  raise_if (not (is_text "postgresql" (get "engine" database)))
      (failure "service database engine must be postgresql")
  artifact ← required_string database "deployment_gate_artifact"
  pool ← object_value (get "pool" database)
  raise_if (not (is_true (get "reuse_connections" pool)))
      (failure "database.pool.reuse_connections must be true")
  max_in_flight ← bounded_int 256 (get "max_in_flight" pool)
  acquire_timeout ← bounded_int 300 (get "acquire_timeout_seconds" pool)
  raise_if (not (is_true (get "fail_closed_on_exhaustion" pool)))
      (failure "pool exhaustion must fail closed")
  health ← object_value (get "health" database)
  query_name ← required_string health "readiness_query_name"
  schema_version ← required_string health "migration_schema_version"
  raise_if (not (is_true (get "readiness_requires_schema_match" health)))
      (failure "readiness must require schema-version match")
  ok (max_in_flight, acquire_timeout)

-- `value.startswith(prefix)`
starts_with : String → String → Bool
starts_with String.[] s = true
starts_with (String.◌∷◌ c p) String.[] = false
starts_with (String.◌∷◌ c p) (String.◌∷◌ d s) =
    (String.◌∷◌ c String.[] == String.◌∷◌ d String.[]) && starts_with p s

abbrev is_https : Json → Bool
is_https (str s) = starts_with "https://" s && not (s == "*")
is_https _ = false

-- A non-empty list of HTTPS origins.
abbrev is_origins : Json → Bool
is_origins (arr xs) = truthy (arr xs) && all is_https (items xs)
is_origins _ = false

-- The name of the variable that holds the token.
unfoldable pub http_terms : Dict → Checked String
unfolding starts_with
http_terms root = do
  http ← object_value (get "http" root)
  bind ← required_string http "bind_host"
  raise_if (bind == "0.0.0.0" || bind == "::" || bind == "[::]")
      (failure "service must bind privately behind its gateway")
  tls ← required_string http "tls_terminated_by"
  raise_if (not (is_true (get "forwarded_tls_required" http)))
      (failure "forwarded TLS must be required")
  timeout ← bounded_int 300 (get "request_timeout_seconds" http)
  rows ← bounded_int 10000 (get "max_response_rows" http)
  auth ← object_value (get "auth" http)
  raise_if (not (is_true (get "required" auth))) (failure "HTTP authentication must be required")
  token_env ← required_string auth "token_env"
  raise_if (not (is_env_name token_env))
      (failure "auth.token_env must be an uppercase environment name")
  issuer ← required_string auth "issuer"
  audience ← required_string auth "audience"
  raise_if (not (is_origins (get "cors_origins" http)))
      (failure "cors_origins must contain only explicit HTTPS origins")
  ok token_env

-- A list and a dict are not hashable.
abbrev hashable : Json → Bool
hashable (arr xs) = false
hashable (obj d) = false
hashable _ = true

abbrev is_read_endpoint : Json → Bool
is_read_endpoint v = any (λ name. is_text name v) read_allowed

-- `isinstance(value, list)` and `set(value) == READ_ENDPOINTS`
abbrev reads_only : Json → Checked Bool
reads_only (arr xs) = do
  raise_if (not (all hashable (items xs))) type_error
  ok (all is_read_endpoint (items xs) && all (λ name. any (is_text name) (items xs)) read_allowed)
reads_only _ = ok false

unfoldable pub endpoint_terms : Dict → Checked (Unit {0})
endpoint_terms root = do
  endpoints ← object_value (get "endpoints" root)
  reading ← reads_only (get "read" endpoints)
  raise_if (not reading) (failure "read endpoints must match the fixed read-model allow-list")
  raise_if (not (json_eq (get_or "mutation" (arr nil) endpoints) (arr nil)))
      (failure "mutation endpoints require a separate command gateway")
  raise_if (not (is_false (get "arbitrary_sql" endpoints)))
      (failure "arbitrary SQL must be disabled")

unfoldable pub observability_terms : Dict → Checked (Unit {0})
observability_terms root = do
  observability ← object_value (get "observability" root)
  metrics ← required_string observability "metrics"
  audit_log ← required_string observability "audit_log"
  alerts ← required_string observability "alerts"
  request_trace ← required_string observability "request_trace"
  ok tt

-- Whether the deployment gate authorises the deployment.
unfoldable pub deployment_terms : Json → Checked Bool
deployment_terms gate = do
  deployment ← object_value gate
  raise_if
      (not (is_text "moonproj.company.production-deployment-gate.v1" (get "format" deployment)))
      (failure "unexpected deployment gate format")
  ok (is_true (get "deployment_authorized" deployment))

abbrev texts : List String → Json
texts names = arr (array (map str names))

unfoldable pub result : ℕ × ℕ → String → Bool → Dict
result (max_in_flight, acquire_timeout) token_env authorized = dict (
    ("format", str "moonproj.company.production-service-gate.v1")
    ∷ ("environment", str "production")
    ∷ ("database_engine", str "postgresql")
    ∷ (
      "pool",
      obj (
          dict (
            ("max_in_flight", int (pos max_in_flight))
            ∷ ("acquire_timeout_seconds", int (pos acquire_timeout))
            ∷ ("fail_closed_on_exhaustion", bool true)
            ∷ [])),
    )
    ∷ ("auth_token_env", str token_env)
    ∷ ("read_endpoints", texts read_allowed)
    ∷ ("mutation_endpoints", arr nil)
    ∷ ("arbitrary_sql", bool false)
    ∷ ("deployment_authorized", bool authorized)
    ∷ ("service_authorized", bool authorized)
    ∷ (
      "state",
      str (if authorized then "ready_for_production_service" else "ready_for_service_review"),
    )
    ∷ [])

unfoldable pub validate_object : Dict → Json → Checked Dict
validate_object root gate = do
  raise_if (has_secret is_service_secret is_dsn (obj root)) (failure "secret in the manifest")
  raise_if (not (is_text "moonproj.company.production-service.v1" (get "format" root)))
      (failure "unsupported service manifest format")
  raise_if (not (is_text "production" (get "environment" root)))
      (failure "service environment must be production")
  pool ← database_terms root
  token_env ← http_terms root
  done ← endpoint_terms root
  done ← observability_terms root
  authorized ← deployment_terms gate
  ok (result pool token_env authorized)

unfoldable pub validate : Json → Json → Checked Dict
validate service gate = do root ← object_value service; validate_object root gate
