-- ===== src/Production/Pool.antt =====
-- The bounds of the connection pool in an accepted deployment manifest.
use moonproj.Base.{
  ℕ, ◌≡◌, refl, ap, ◌∙◌, subst, true, false, not, ◌&&◌, ◌||◌, [], ◌∷◌, arith, ok, Json, null, bool,
  int, str, arr, obj, Dict, dict, get, is_true, pos, negsuc, ltb, eqb, ok-injective, raise_if-eq-ok,
  >>=-eq-ok, ◌≤◌,
}
use moonproj.Production.Manifest.{object_value, required_string, is_env_name}
use moonproj.Production.Deployment.{
  Database, Approvals, positive_int, is_postgresql, database_terms, result, validate,
}
use moonproj.Production.Gated.{validate-result}

positive_int-bound : (v : Json) {n : ℕ} → positive_int false v ≡ ok n → 1 ≤ n
unfolding positive_int
positive_int-bound (int (pos n)) h =
    let (positive, e) = raise_if-eq-ok (eqb n 0 && not false) _ _ h in
    let same = ok-injective e in ground arith
positive_int-bound (int (negsuc n)) h = absurd (cc h)
positive_int-bound null h = absurd (cc h)
positive_int-bound (bool b) h = absurd (cc h)
positive_int-bound (str s) h = absurd (cc h)
positive_int-bound (arr a) h = absurd (cc h)
positive_int-bound (obj d) h = absurd (cc h)

abbrev IsBounded : Database → Type 0
IsBounded d =
    (d.pool_min ≤ d.pool_max)
    × (1 ≤ d.pool_max)
    × (1 ≤ d.acquire_timeout)
    × (d.acquire_timeout ≤ 300)

below : (a b : ℕ) → ltb a b ≡ false → b ≤ a
below a b h = ground arith

database_terms-IsBounded :
    (root : Dict) {database : Database} → database_terms root ≡ ok database → IsBounded database
unfolding database_terms
database_terms-IsBounded root h =
    let (database, _, h) = >>=-eq-ok (object_value (get "database" root)) _ h in
    let (engine, _, h) = >>=-eq-ok (required_string database "engine") _ h in
    let (_, h) = raise_if-eq-ok (not (is_postgresql engine)) _ _ h in
    let (dsn_env, _, h) = >>=-eq-ok (required_string database "dsn_env") _ h in
    let (_, h) = raise_if-eq-ok (not (is_env_name dsn_env)) _ _ h in
    let (pool, _, h) = >>=-eq-ok (object_value (get "pool" database)) _ h in
    let (least, _, h) = >>=-eq-ok (positive_int true (get "min" pool)) _ h in
    let (most, e1, h) = >>=-eq-ok (positive_int false (get "max" pool)) _ h in
    let (e2, h) = raise_if-eq-ok (ltb most least) _ _ h in
    let (timeout, e3, h) =
      >>=-eq-ok (positive_int false (get "acquire_timeout_seconds" pool)) _ h in
    let (e4, h) = raise_if-eq-ok (ltb 300 timeout) _ _ h in
    let (tls, _, h) = >>=-eq-ok (object_value (get "tls" database)) _ h in
    let (_, h) =
      raise_if-eq-ok
        (not (is_true (get "required" tls)) || not (is_true (get "verify_server_certificate" tls)))
        _ _ h in
    let (encryption, _, h) = >>=-eq-ok (object_value (get "encryption_at_rest" database)) _ h in
    let (provider, _, h) = >>=-eq-ok (required_string encryption "provider") _ h in
    let (keys, _, h) = >>=-eq-ok (required_string encryption "key_management") _ h in
    subst IsBounded (ok-injective h)
      (below most least e2, positive_int-bound _ e1, positive_int-bound _ e3, below 300 timeout e4)

result-pool :
    (database : Database) (days : ℕ) (times : ℕ × ℕ) (seen : Approvals)
    → get "pool" (result database days times seen)
      ≡ obj (
          dict (
            ("min", int (pos database.pool_min))
            ∷ ("max", int (pos database.pool_max))
            ∷ ("acquire_timeout_seconds", int (pos database.acquire_timeout))
            ∷ []))
unfolding result
result-pool database days times seen = refl

-- The pool in the result of the deployment check has at least one connection and no fewer than its
-- minimum, and waits for one between 1 and 300 seconds.
pub validate-pool_bounds :
    (manifest : Json) {r : Dict}
    → validate manifest ≡ ok r
    → (least : ℕ) × (most : ℕ) × (timeout : ℕ) × (get "pool" r
        ≡ obj (
            dict (
              ("min", int (pos least))
              ∷ ("max", int (pos most))
              ∷ ("acquire_timeout_seconds", int (pos timeout))
              ∷ [])))
      × (least ≤ most)
      × (1 ≤ most)
      × (1 ≤ timeout)
      × (timeout ≤ 300)
validate-pool_bounds manifest h =
    let (root, whole, database, e, days, times, seen, _, made) = validate-result manifest h in
    let (a, b, c, d) = database_terms-IsBounded root e in
    (
      database.pool_min,
      database.pool_max,
      database.acquire_timeout,
      ap (get "pool") made ∙ result-pool database days times seen,
      a,
      b,
      c,
      d,
    )
