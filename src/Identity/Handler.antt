-- ===== src/Identity/Handler.antt =====
-- The handler's methods `_origin`, `_authorize`, `_json_body`, `_request_actor_id` and
-- `_loan_method_alias` of scripts/company_postgres_service.py.
use Prim.Native.Char.{code}
use moonproj.Base.{
  ℕ, String, Bool, true, false, not, ◌&&◌, ◌||◌, Option, none, some, List, any, ◌==◌, eqb, leb,
  if◌then◌else◌, Json, obj, Dict, end, ok, err, ◌>>=◌, ◌>>◌, raise_if, Result, ℤ, pos, negsuc,
  strip, is_identifier, parse_int, lower, is_nil, all_chars,
}
use moonproj.Service.Database.{
  Db, Fault, rejected, service_error, value_error, uncaught, Answer, Reply,
}
use moonproj.Service.Command.{Surroundings}
use moonproj.Loan.Checks.{Python}
use moonproj.Loan.Transaction.{Postgres}
use moonproj.Loan.Command.{loan_command}
use moonproj.Identity.Gateway.{Digest, Headers, header}

-- The configuration of the handler.
pub record Config : Type 0 where
  pub bearer_token : String
  pub require_forwarded_tls : Bool
  pub cors_origins : List String
  pub actor_id : String
  pub actor_signing_secret : Option String

-- A request that is not answered: with a status, or by an exception that the handler does not catch,
-- after which no response is sent.
pub data Refusal : Type 0 where
  status : ℕ → Refusal
  dropped : Refusal

-- What the client gets.
pub data Response : Type 0 where
  answer : Reply → Response
  refusal : Refusal → Response

-- A request: its method is `PUT` or `DELETE`, `path` is that of its parsed URL, and `content` its body
-- as JSON, where `none` is a body that is no JSON.
pub record Request : Type 0 where
  pub put : Bool
  pub path : String
  pub headers : Headers
  pub content : Option Json

-- `value[n:]` of a value that starts with a prefix of length n
abbrev pub without_prefix : String → String → Option String
without_prefix String.[] s = some s
without_prefix (String.◌∷◌ c p) String.[] = none
without_prefix (String.◌∷◌ c p) (String.◌∷◌ d s) =
    let rest = without_prefix p s in
    if String.◌∷◌ c String.[] == String.◌∷◌ d String.[] then rest else none

-- What a check on the actor answers: a fault of the service, or the `TypeError` that
-- `hmac.compare_digest` raises on a text outside ASCII.
pub data ActorFault : Type 0 where
  refused : ℕ → ActorFault
  type_error : ActorFault

module _ (digest : Digest) (config : Config) where
  -- An `Origin` that is not allowed is refused; without one there is nothing to check.
  abbrev pub origin_allowed : Option String → Bool
  origin_allowed none = true
  origin_allowed (some origin) = any (λ o. o == origin) config.cors_origins && not (is_nil origin)

  abbrev pub tls_ok : Headers → Bool
  tls_ok headers =
      not config.require_forwarded_tls || lower (header headers "X-Forwarded-Proto") == "https"

  abbrev pub is_bearer : Option String → Bool
  is_bearer none = false
  is_bearer (some supplied) = digest.sha256 (strip supplied) == digest.sha256 config.bearer_token

  -- `_authorize`, with the status of a refusal.
  unfoldable pub authorize : Headers → Result ℕ (Unit {0})
  authorize headers = do
    raise_if (not (origin_allowed (headers "Origin"))) 403
    raise_if (not (tls_ok headers)) 400
    raise_if (not (is_bearer (without_prefix "Bearer " (header headers "Authorization")))) 401

  -- `_request_actor_id`
  unfoldable pub request_actor_id : Headers → Result ActorFault String
  request_actor_id headers = elim config.actor_signing_secret [
    | none ↦ ok config.actor_id
    | some secret ↦
        let supplied_actor : String = strip (header headers "X-Moonproj-Actor") in
        let supplied_signature : String = strip (header headers "X-Moonproj-Actor-Signature") in
        do
          raise_if (not (is_identifier supplied_actor) || is_nil supplied_signature) (refused 403)
          raise_if (not (all_chars (λ c. leb c 127) supplied_signature)) type_error
          raise_if (not (supplied_signature == digest.hmac secret supplied_actor)) (refused 403)
          ok supplied_actor
  ]

abbrev body_value : Option Json → Result ℕ Dict
body_value (some (obj d)) = ok d
body_value _ = err 400

abbrev body_within : Option ℤ → Option Json → Result ℕ Dict
body_within none content = err 400
body_within (some (negsuc n)) content = err 413
body_within (some (pos n)) content =
    if eqb n 0 || not (leb n 131072) then err 413 else body_value content

-- `_json_body`
unfoldable pub json_body : Headers → Option Json → Result ℕ Dict
json_body headers content = body_within (parse_int (header headers "Content-Length")) content

-- `_json_body` is called only with a `Content-Length`.
abbrev pub optional_body : Headers → Option Json → Result ℕ Dict
optional_body headers content =
    if is_nil (header headers "Content-Length") then ok end else json_body headers content

-- What becomes of an error of a command.
abbrev pub refusal_of : Fault → Refusal
refusal_of (rejected code message) = status code
refusal_of (service_error message) = status 503
refusal_of (value_error message) = status 503
refusal_of (uncaught message) = dropped

abbrev pub respond : Db × Answer Reply → Db × Response
respond (db, ok reply) = (db, answer reply)
respond (db, err fault) = (db, refusal (refusal_of fault))

abbrev pub loan_path : Option String → Result ℕ String
loan_path none = err 404
loan_path (some id) = do raise_if (not (is_identifier id)) 404; ok id

abbrev pub with_status {ℓ} : {A : Type ℓ} → Result ℕ A → Result Refusal A
with_status (ok a) = ok a
with_status (err code) = err (status code)

abbrev pub with_actor : Result ActorFault String → Result Refusal String
with_actor (ok actor) = ok actor
with_actor (err (refused code)) = err (status code)
with_actor (err type_error) = err dropped

-- What a request asks for, once it is let in.
pub record Asked : Type 0 where
  pub loan_id : String
  pub body : Dict
  pub key : String
  pub actor : String

module _ (digest : Digest) (config : Config) where
  unfoldable pub asked : Request → Result Refusal Asked
  asked request = do
    with_status (authorize digest config request.headers)
    loan_id ← with_status (loan_path (without_prefix "/api/company/loans/" request.path))
    body ← with_status (optional_body request.headers request.content)
    let key : String = strip (header request.headers "Idempotency-Key")
    raise_if (is_nil key) (status 400)
    actor ← with_actor (request_actor_id digest config request.headers)
    ok (record { loan_id = loan_id; body = body; key = key; actor = actor })

  module _ (python : Python) (postgres : Postgres) (raw_loans : List String)
      (around : Surroundings) where
    abbrev pub command_type : Request → String
    command_type request = if request.put then "update" else "void"

    abbrev pub run : Request → Db → Result Refusal Asked → Db × Response
    run request db (err r) = (db, refusal r)
    run request db (ok a) = respond (
        loan_command python postgres raw_loans around (command_type request) (some a.loan_id) a.body
          a.actor a.key db)

    -- `_loan_method_alias`
    unfoldable pub loan_method_alias : Request → Db → Db × Response
    loan_method_alias request db = run request db (asked request)
