-- ===== src/Production/Deployment.antt =====
-- `validate` of scripts/company_production_deployment_check.py.
use moonproj.Base.{
  ℕ, String, Bool, true, false, not, ◌&&◌, ◌||◌, List, [], ◌∷◌, map, ◌==◌, ok, err, ◌>>=◌, raise_if,
  Json, bool, int, str, arr, obj, nil, Dict, dict, get, get_or, is_text, is_true, if◌then◌else◌,
  pos, negsuc, all, upper, ◌>>◌, ltb, eqb, is_filled, any, truthy, is_empty,
}
use moonproj.Base.{sort_texts, items, array}
use moonproj.Evidence.{Checked, failure}
use moonproj.Evidence.Secrets.{has_secret, is_credential_key, is_dsn}
use moonproj.Production.Manifest.{object_value, required_string, is_env_name}

-- `positive_int(obj, key)`, and with `allow_zero`
unfoldable pub positive_int : Bool → Json → Checked ℕ
positive_int allow_zero (int (pos n)) = do
  raise_if (eqb n 0 && not allow_zero) (failure "must be positive")
  ok n
positive_int allow_zero (int (negsuc n)) = err (failure "must be positive")
positive_int allow_zero _ = err (failure "must be an integer")

-- `value.lower()` of the engine's name; of the characters outside ASCII, none is in lower case one of
-- the letters that it is compared with.
unfoldable pub is_postgresql : String → Bool
is_postgresql s = upper s == "POSTGRESQL"

pub record Database : Type 0 where
  pub dsn_env : String
  pub pool_min : ℕ
  pub pool_max : ℕ
  pub acquire_timeout : ℕ

unfoldable pub database_terms : Dict → Checked Database
unfolding is_postgresql
database_terms root = do
  database ← object_value (get "database" root)
  engine ← required_string database "engine"
  raise_if (not (is_postgresql engine)) (failure "Moonproj production engine must be postgresql")
  dsn_env ← required_string database "dsn_env"
  raise_if (not (is_env_name dsn_env))
      (failure "dsn_env must be an uppercase environment-variable name")
  pool ← object_value (get "pool" database)
  pool_min ← positive_int true (get "min" pool)
  pool_max ← positive_int false (get "max" pool)
  raise_if (ltb pool_max pool_min) (failure "database.pool.max must be >= database.pool.min")
  acquire_timeout ← positive_int false (get "acquire_timeout_seconds" pool)
  raise_if (ltb 300 acquire_timeout) (failure "database.pool.acquire_timeout_seconds exceeds 300")
  tls ← object_value (get "tls" database)
  raise_if
      (not (is_true (get "required" tls)) || not (is_true (get "verify_server_certificate" tls)))
      (failure "database TLS must be required with certificate verification")
  encryption ← object_value (get "encryption_at_rest" database)
  provider ← required_string encryption "provider"
  key_management ← required_string encryption "key_management"
  ok (record {
    dsn_env = dsn_env;
    pool_min = pool_min;
    pool_max = pool_max;
    acquire_timeout = acquire_timeout;
  })

-- The days that backups are kept.
unfoldable pub backup_terms : Dict → Checked ℕ
backup_terms root = do
  backup ← object_value (get "backup" root)
  schedule ← required_string backup "schedule"
  retention_days ← positive_int false (get "retention_days" backup)
  destination ← required_string backup "destination"
  encryption ← required_string backup "encryption"
  raise_if (not (is_true (get "cross_region" backup))) (failure "backup.cross_region must be true")
  ok retention_days

-- The two times of a restore, in minutes.
unfoldable pub restore_terms : Dict → Checked (ℕ × ℕ)
restore_terms root = do
  restore ← object_value (get "restore" root)
  rpo_minutes ← positive_int true (get "rpo_minutes" restore)
  rto_minutes ← positive_int false (get "rto_minutes" restore)
  verification_command ← required_string restore "verification_command"
  runbook ← required_string restore "runbook"
  ok (rpo_minutes, rto_minutes)

unfoldable pub operations_terms : Dict → Checked (Unit {0})
operations_terms root = do
  operations ← object_value (get "operations" root)
  migration_lock ← required_string operations "migration_lock"
  rollback_runbook ← required_string operations "rollback_runbook"
  observability ← object_value (get "observability" operations)
  metrics ← required_string observability "metrics"
  audit_log ← required_string observability "audit_log"
  alerts ← required_string observability "alerts"
  ok tt

-- `sorted(REQUIRED_APPROVAL_ROLES)`
abbrev pub required_roles : List String
required_roles = "finance" ∷ "operations" ∷ "security" ∷ []

abbrev pub has : List String → String → Bool
has roles role = any (λ r. r == role) roles

abbrev is_text_value : Json → Bool
is_text_value (str s) = true
is_text_value _ = false

abbrev text_of : Json → String
text_of (str s) = s
text_of _ = ""

abbrev pub list_of : Json → Checked (List Json)
list_of (arr xs) = ok (items xs)
list_of _ = err (failure "must be an array")

-- The list of role names, which authorises nothing by itself.
unfoldable pub named_roles : Dict → Checked (List String)
named_roles approvals = do
  values ← list_of (get_or "approved_roles" (arr nil) approvals)
  raise_if (not (all is_text_value values))
      (failure "approvals.approved_roles must be an array of strings")
  raise_if (not (all (λ v. has required_roles (text_of v)) values))
      (failure "approvals.approved_roles contains an unknown role")
  ok (map text_of values)

-- The roles that have a record, and those that have approved.
pub record Approvals : Type 0 where
  pub record_roles : List String
  pub approved_roles : List String

-- `isinstance(refs, list) and refs and all(…)`
abbrev pub has_refs : Json → Bool
has_refs (arr xs) = truthy (arr xs) && all is_filled (items xs)
has_refs _ = false

-- What an approving record must name.
unfoldable pub check_grounds : Dict → String → Approvals → Checked Approvals
check_grounds d role seen = do
  actor_id ← required_string d "actor_id"
  decided_at ← required_string d "decided_at"
  rationale ← required_string d "rationale"
  raise_if (not (has_refs (get "evidence_refs" d)))
      (failure "approval record requires evidence_refs")
  ok (record {
    record_roles = role ∷ seen.record_roles;
    approved_roles = role ∷ seen.approved_roles;
  })

unfoldable pub check_approval : Dict → String → Approvals → Checked Approvals
check_approval d role seen = do
  decision ← required_string d "decision"
  (if not (decision == "approve")
      then ok (record seen { record_roles = role ∷ seen.record_roles })
      else check_grounds d role seen)

-- One record of `approvals.records`.
unfoldable pub add_approval : Approvals → Json → Checked Approvals
add_approval seen value = do
  d ← object_value value
  role ← required_string d "role"
  raise_if (not (has required_roles role)) (failure "approval record has unknown role")
  raise_if (has seen.record_roles role) (failure "duplicate approval record")
  check_approval d role seen

unfoldable pub collect_approvals : Approvals → List Json → Checked Approvals
collect_approvals seen [] = ok seen
collect_approvals seen (v ∷ vs) = do next ← add_approval seen v; collect_approvals next vs

abbrev pub no_approvals : Approvals
no_approvals = record { record_roles = []; approved_roles = [] }

unfoldable pub approval_terms : Dict → Checked Approvals
approval_terms root = do
  approvals ← object_value (get "approvals" root)
  named ← named_roles approvals
  records ← list_of (get_or "records" (arr nil) approvals)
  seen ← collect_approvals no_approvals records
  raise_if (not (all (has seen.record_roles) named))
      (failure "approved_roles must be backed by approval records")
  ok seen

abbrev texts : List String → Json
texts names = arr (array (map str names))

-- `sorted(required_roles - approved_roles)`
abbrev pub missing_roles : List String → List String → List String
missing_roles [] approved = []
missing_roles (role ∷ roles) approved =
    let rest = missing_roles roles approved in if has approved role then rest else role ∷ rest

unfoldable pub result : Database → ℕ → ℕ × ℕ → Approvals → Dict
result database retention_days (rpo_minutes, rto_minutes) seen =
    let missing : List String = missing_roles required_roles seen.approved_roles in
    dict (
      ("format", str "moonproj.company.production-deployment-gate.v1")
      ∷ ("environment", str "production")
      ∷ ("engine", str "postgresql")
      ∷ ("dsn_env", str database.dsn_env)
      ∷ (
        "pool",
        obj (
            dict (
              ("min", int (pos database.pool_min))
              ∷ ("max", int (pos database.pool_max))
              ∷ ("acquire_timeout_seconds", int (pos database.acquire_timeout))
              ∷ [])),
      )
      ∷ (
        "backup",
        obj (
            dict (("retention_days", int (pos retention_days)) ∷ ("cross_region", bool true) ∷ [])),
      )
      ∷ (
        "restore",
        obj (
            dict (
              ("rpo_minutes", int (pos rpo_minutes))
              ∷ ("rto_minutes", int (pos rto_minutes))
              ∷ [])),
      )
      ∷ ("required_approval_roles", texts required_roles)
      ∷ ("missing_approval_roles", texts missing)
      ∷ ("approval_record_roles", texts (sort_texts seen.record_roles))
      ∷ ("deployment_authorized", bool (is_empty missing))
      ∷ (
        "state",
        str (if is_empty missing then "ready_for_managed_deployment" else "ready_for_owner_review"),
      )
      ∷ [])

unfoldable pub validate_object : Dict → Checked Dict
validate_object root = do
  raise_if (has_secret is_credential_key is_dsn (obj root)) (failure "secret in the manifest")
  raise_if (not (is_text "moonproj.company.production-deployment.v1" (get "format" root)))
      (failure "unsupported deployment manifest format")
  raise_if (not (is_text "production" (get "environment" root)))
      (failure "environment must be production")
  database ← database_terms root
  retention_days ← backup_terms root
  times ← restore_terms root
  done ← operations_terms root
  seen ← approval_terms root
  ok (result database retention_days times seen)

unfoldable pub validate : Json → Checked Dict
validate manifest = do root ← object_value manifest; validate_object root
