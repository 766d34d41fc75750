-- ===== src/Production/Tests.antt =====
-- The production checks on a deployment manifest with the three approvals and a service manifest.
use moonproj.Base.{
  ℕ, String, ◌≡◌, refl, true, false, List, [], ◌∷◌, ok, Json, bool, int, str, arr, obj, Items, nil,
  cons, Dict, dict, get, json_eq, pos, All, strip, upper, ◌≤◌,
}
use moonproj.Evidence.Secrets.{has_secret, is_credential_key, is_dsn}
use moonproj.Gate.Control.{deployment_passes, service_passes}
use moonproj.Production.Manifest.{required_string, is_env_name}
use moonproj.Production.Deployment.{
  required_roles, positive_int, database_terms, backup_terms, restore_terms, operations_terms,
  named_roles, approval_terms, collect_approvals, add_approval, check_approval, check_grounds,
  is_postgresql,
}
use moonproj.Production.Deployment
use moonproj.Production.Service
use moonproj.Production.Gated.{validate-deployment_passes, validate-service_passes}
use moonproj.Production.Approvals.{Approved, Records, authorized-Approved, service-Approved}
use moonproj.Production.Pool.{validate-pool_bounds}

abbrev texts : List String → Json
texts [] = arr nil
texts (s ∷ ss) = arr (go (s ∷ ss))
  where
    go : List String → Items
    go [] = nil
    go (s ∷ ss) = cons (str s) (go ss)

abbrev filled : List String → List (String × Json)
filled [] = []
filled (k ∷ ks) = (k, str "x") ∷ filled ks

abbrev approval : String → Json
approval role = obj (
    dict (
      ("role", str role)
      ∷ ("decision", str "approve")
      ∷ ("evidence_refs", texts ("r1" ∷ []))
      ∷ filled ("actor_id" ∷ "decided_at" ∷ "rationale" ∷ [])))

abbrev database : Json
database = obj (
    dict (
      ("engine", str "PostgreSQL")
      ∷ ("dsn_env", str "MOONPROJ_DSN")
      ∷ (
        "pool",
        obj (
            dict (
              ("min", int (pos 0))
              ∷ ("max", int (pos 8))
              ∷ ("acquire_timeout_seconds", int (pos 300))
              ∷ [])),
      )
      ∷ (
        "tls",
        obj (dict (("required", bool true) ∷ ("verify_server_certificate", bool true) ∷ [])),
      )
      ∷ ("encryption_at_rest", obj (dict (filled ("provider" ∷ "key_management" ∷ []))))
      ∷ []))

abbrev manifest : Json
manifest = obj (
    dict (
      ("format", str "moonproj.company.production-deployment.v1")
      ∷ ("environment", str "production")
      ∷ ("database", database)
      ∷ (
        "backup",
        obj (
            dict (
              ("retention_days", int (pos 30))
              ∷ ("cross_region", bool true)
              ∷ filled ("schedule" ∷ "destination" ∷ "encryption" ∷ []))),
      )
      ∷ (
        "restore",
        obj (
            dict (
              ("rpo_minutes", int (pos 0))
              ∷ ("rto_minutes", int (pos 60))
              ∷ filled ("verification_command" ∷ "runbook" ∷ []))),
      )
      ∷ (
        "operations",
        obj (
            dict (
              ("observability", obj (dict (filled ("metrics" ∷ "audit_log" ∷ "alerts" ∷ []))))
              ∷ filled ("migration_lock" ∷ "rollback_runbook" ∷ []))),
      )
      ∷ (
        "approvals",
        obj (
            dict (
              ("approved_roles", texts ("finance" ∷ []))
              ∷ (
                "records",
                arr (
                    cons (approval "security")
                      (cons (approval "finance") (cons (approval "operations") nil))),
              )
              ∷ [])),
      )
      ∷ []))

abbrev gate : Dict
gate =
    Deployment.result
      (record { dsn_env = "MOONPROJ_DSN"; pool_min = 0; pool_max = 8; acquire_timeout = 300 }) 30
      (0, 60)
      (record {
        record_roles = "operations" ∷ "finance" ∷ "security" ∷ [];
        approved_roles = "operations" ∷ "finance" ∷ "security" ∷ [];
      })

accepted : Deployment.validate manifest ≡ ok gate
unfolding Deployment.validate Deployment.validate_object has_secret is_credential_key is_dsn
    database_terms backup_terms restore_terms operations_terms named_roles approval_terms
    collect_approvals add_approval check_approval check_grounds positive_int is_postgresql
    is_env_name required_string strip upper
accepted = refl

authorized : get "deployment_authorized" gate ≡ bool true
unfolding Deployment.result
authorized = refl

validate-deployment_passes_example : deployment_passes gate ≡ ok true
validate-deployment_passes_example = validate-deployment_passes manifest accepted

authorized-Approved_example :
    (records : List Json) × Records manifest records × All (Approved records) required_roles
authorized-Approved_example = authorized-Approved manifest accepted authorized

validate-pool_bounds_example :
    (least : ℕ) × (most : ℕ) × (timeout : ℕ) × (get "pool" gate
      ≡ obj (
          dict (
            ("min", int (pos least))
            ∷ ("max", int (pos most))
            ∷ ("acquire_timeout_seconds", int (pos timeout))
            ∷ [])))
    × (least ≤ most)
    × (1 ≤ most)
    × (1 ≤ timeout)
    × (timeout ≤ 300)
validate-pool_bounds_example = validate-pool_bounds manifest accepted

abbrev service : Json
service = obj (
    dict (
      ("format", str "moonproj.company.production-service.v1")
      ∷ ("environment", str "production")
      ∷ (
        "database",
        obj (
            dict (
              ("engine", str "postgresql")
              ∷ ("deployment_gate_artifact", str "gate.json")
              ∷ (
                "pool",
                obj (
                    dict (
                      ("reuse_connections", bool true)
                      ∷ ("max_in_flight", int (pos 256))
                      ∷ ("acquire_timeout_seconds", int (pos 5))
                      ∷ ("fail_closed_on_exhaustion", bool true)
                      ∷ [])),
              )
              ∷ (
                "health",
                obj (
                    dict (
                      ("readiness_requires_schema_match", bool true)
                      ∷ filled ("readiness_query_name" ∷ "migration_schema_version" ∷ []))),
              )
              ∷ [])),
      )
      ∷ (
        "http",
        obj (
            dict (
              ("bind_host", str "127.0.0.1")
              ∷ ("tls_terminated_by", str "gateway")
              ∷ ("forwarded_tls_required", bool true)
              ∷ ("request_timeout_seconds", int (pos 30))
              ∷ ("max_response_rows", int (pos 1000))
              ∷ (
                "auth",
                obj (
                    dict (
                      ("required", bool true)
                      ∷ ("token_env", str "MOONPROJ_AUTH")
                      ∷ filled ("issuer" ∷ "audience" ∷ []))),
              )
              ∷ ("cors_origins", texts ("https://erp.example" ∷ []))
              ∷ [])),
      )
      ∷ (
        "endpoints",
        obj (dict (("read", texts Service.read_allowed) ∷ ("arbitrary_sql", bool false) ∷ [])),
      )
      ∷ (
        "observability",
        obj (dict (filled ("metrics" ∷ "audit_log" ∷ "alerts" ∷ "request_trace" ∷ []))),
      )
      ∷ []))

abbrev service_gate : Dict
service_gate = Service.result (256, 5) "MOONPROJ_AUTH" true

service_accepted : Service.validate service (obj gate) ≡ ok service_gate
unfolding Service.validate Service.validate_object has_secret is_credential_key is_dsn
    Service.database_terms Service.http_terms Service.endpoint_terms Service.observability_terms
    Service.deployment_terms Service.bounded_int Deployment.result is_env_name required_string strip
    json_eq
service_accepted = refl

service_authorized : get "service_authorized" service_gate ≡ bool true
unfolding Service.result
service_authorized = refl

validate-service_passes_example : service_passes service_gate ≡ ok true
validate-service_passes_example = validate-service_passes service (obj gate) service_accepted

service-Approved_example :
    (records : List Json) × Records manifest records × All (Approved records) required_roles
service-Approved_example =
    service-Approved manifest service accepted service_accepted service_authorized
