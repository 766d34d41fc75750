-- ===== src/Identity/Applicant.antt =====
-- Who changes a loan over HTTP.
use moonproj.Base.{
  ℕ, String, ◌≡◌, refl, sym, ap, ◌∙◌, subst, Bool, true, false, not, ◌||◌, Option, none, some, List,
  ◌==◌, eq_iff, Result, ok, err, raise_if, str, Dict, get, get_or, if◌then◌else◌, strip,
  is_identifier, ◌>>◌, leb, ok-injective, raise_if-eq-ok, >>=-eq-ok, is_nil,
}
use moonproj.Base.{all_chars, not-false, Option-cases, inl, inr}
use moonproj.Service.Rows.{Row, latest}
use moonproj.Service.Database.{Db, Answer, Reply}
use moonproj.Service.Command.{Surroundings}
use moonproj.Loan.Checks.{LoanCommand, command_named, Python, invalid, update, void}
use moonproj.Loan.Request.{loan_request, required_id, update_request, reason_of}
use moonproj.Loan.Transaction.{Postgres}
use moonproj.Loan.Command.{requested, named, loan_command}
use moonproj.Loan.Account.{answered_loan_command_is_the_applicants}
use moonproj.Identity.Gateway.{Digest, Headers, header}
use moonproj.Identity.Handler.{
  Refusal, Config, Request, without_prefix, ActorFault, authorize, request_actor_id, optional_body,
  respond, loan_path, with_status, with_actor, Asked, asked, command_type, run, loan_method_alias,
  answer, refused, type_error,
}

-- The headers carry the actor and its signature under the secret.
abbrev pub CarriesActor : Digest → String → Headers → String → Type 0
CarriesActor digest secret headers actor =
    (strip (header headers "X-Moonproj-Actor") ≡ actor)
    × (strip (header headers "X-Moonproj-Actor-Signature") ≡ digest.hmac secret actor)

-- Who asks: with a signing secret the actor that the headers carry, without one the service's own.
abbrev pub Identifies : Digest → String → Option String → Headers → String → Type 0
Identifies digest service none headers actor = actor ≡ service
Identifies digest service (some secret) headers actor = CarriesActor digest secret headers actor

module _ (digest : Digest) (config : Config) where
  request_actor_id-CarriesActor :
      (secret : String) (headers : Headers) {actor : String}
      → config.actor_signing_secret ≡ some secret
      → request_actor_id digest config headers ≡ ok actor
      → CarriesActor digest secret headers actor
  unfolding request_actor_id
  request_actor_id-CarriesActor secret headers {actor} shared h = go (rw shared at h)
    where
      supplied : String
      supplied = strip (header headers "X-Moonproj-Actor")

      signature : String
      signature = strip (header headers "X-Moonproj-Actor-Signature")

      go :
          (do
            raise_if (not (is_identifier supplied) || is_nil signature) (refused 403)
            raise_if (not (all_chars (λ c. leb c 127) signature)) type_error
            raise_if (not (signature == digest.hmac secret supplied)) (refused 403)
            ok supplied)
            ≡ ok actor
          → CarriesActor digest secret headers actor
      go k =
          let (_, k1) = raise_if-eq-ok (not (is_identifier supplied) || is_nil signature) _ _ k in
          let (_, k2) = raise_if-eq-ok (not (all_chars (λ c. leb c 127) signature)) _ _ k1 in
          let (signed, k3) =
            raise_if-eq-ok (not (signature == digest.hmac secret supplied)) _ _ k2 in
          let same = ok-injective k3 in
          (
            same,
            (eq_iff signature (digest.hmac secret supplied)).0 (not-false signed)
                ∙ ap (digest.hmac secret) same,
          )

  request_actor_id-Identifies :
      (headers : Headers) {actor : String}
      → request_actor_id digest config headers ≡ ok actor
      → Identifies digest config.actor_id config.actor_signing_secret headers actor
  unfolding request_actor_id
  request_actor_id-Identifies headers {actor} h = elim (Option-cases config.actor_signing_secret) [
    | inl unsigned ↦
        subst (λ o. Identifies digest config.actor_id o headers actor) (sym unsigned)
          (sym (ok-injective (rw unsigned at h)))
    | inr (secret, shared) ↦
        subst (λ o. Identifies digest config.actor_id o headers actor) (sym shared)
          (request_actor_id-CarriesActor secret headers shared h)
  ]

  with_actor-eq-ok :
      (r : Result ActorFault String) {actor : String} → with_actor r ≡ ok actor → r ≡ ok actor
  with_actor-eq-ok (ok a) h = ap ok (ok-injective h)
  with_actor-eq-ok (err (refused n)) h = absurd (cc h)
  with_actor-eq-ok (err type_error) h = absurd (cc h)

  with_status-eq-ok : {A : Type 0} (r : Result ℕ A) {a : A} → with_status r ≡ ok a → r ≡ ok a
  with_status-eq-ok (ok a) h = ap ok (ok-injective h)
  with_status-eq-ok (err n) h = absurd (cc h)

  loan_path-eq-ok : (o : Option String) {id : String} → loan_path o ≡ ok id → o ≡ some id
  loan_path-eq-ok none h = absurd (cc h)
  loan_path-eq-ok (some i) h =
      let (_, h1) = raise_if-eq-ok (not (is_identifier i)) _ _ h in ap some (ok-injective h1)

  -- What has been checked of a request that is let in.
  asked-eq-ok :
      (request : Request) {a : Asked}
      → asked digest config request ≡ ok a
      → (authorize digest config request.headers ≡ ok tt)
        × (without_prefix "/api/company/loans/" request.path ≡ some a.loan_id)
        × Identifies digest config.actor_id config.actor_signing_secret request.headers a.actor
  unfolding asked
  asked-eq-ok request h =
      let (done, e1, h1) = >>=-eq-ok (with_status (authorize digest config request.headers)) _ h in
      let (id, e2, h2) =
        >>=-eq-ok (with_status (loan_path (without_prefix "/api/company/loans/" request.path))) _
          h1 in
      let (body, e3, h3) =
        >>=-eq-ok (with_status (optional_body request.headers request.content)) _ h2 in
      let (_, h4) =
        raise_if-eq-ok (is_nil (strip (header request.headers "Idempotency-Key"))) _ _ h3 in
      let (actor, e5, h5) =
        >>=-eq-ok (with_actor (request_actor_id digest config request.headers)) _ h4 in
      let made = ok-injective h5 in
      (
        with_status-eq-ok _ e1,
        loan_path-eq-ok _ (with_status-eq-ok _ e2) ∙ ap some (ap (λ (x : Asked). x.loan_id) made),
        subst (Identifies digest config.actor_id config.actor_signing_secret request.headers)
            (ap (λ (x : Asked). x.actor) made)
            (request_actor_id-Identifies request.headers (with_actor-eq-ok _ e5)),
      )

respond-answer :
    (x : Db × Answer Reply) {reply : Reply} → (respond x).1 ≡ answer reply → x.1 ≡ ok reply
respond-answer (db, ok r) h = cc
respond-answer (db, err fault) h = absurd (cc h)

module _ (python : Python) (postgres : Postgres) (raw_loans : List String)
    (around : Surroundings) where
  loan_command-requested :
      (command_type : String) (command : LoanCommand) (loan_id : Option String) (body : Dict)
      (actor key : String) (db : Db) {reply : Reply}
      → command_named command_type ≡ ok command
      → (loan_command python postgres raw_loans around command_type loan_id body actor key db).1
        ≡ ok reply
      → (x : String × Dict) × (loan_request python command loan_id body actor key db ≡ ok x)
  unfolding loan_command
  loan_command-requested command_type command loan_id body actor key db {reply} name h =
      keyed (is_identifier key) h
    where
      asking :
          (o : Answer (String × Dict))
          → (requested python postgres raw_loans around command actor key db o).1 ≡ ok reply
          → (x : String × Dict) × (o ≡ ok x)
      asking (err fault) k = absurd (cc k)
      asking (ok x) k = (x, refl)

      keyed :
          (b : Bool)
          → (named python postgres raw_loans around loan_id body actor key db (
              raise_if (not b) (invalid "Idempotency-Key contains unsupported characters")
              >> command_named command_type)).1
            ≡ ok reply
          → (x : String × Dict) × (loan_request python command loan_id body actor key db ≡ ok x)
      keyed false k = absurd (cc k)
      keyed true k = asking (loan_request python command loan_id body actor key db) (rw name at k)

required_id-some : (id : String) {i : String} → required_id (some id) ≡ ok i → i ≡ id
required_id-some id h =
    let (_, h1) = raise_if-eq-ok (not (is_identifier id)) _ _ h in sym (ok-injective h1)

update_request-id :
    (python : Python) (id : String) (body : Dict) (actor key : String) (db : Db) {x : String × Dict}
    → loan_request python update (some id) body actor key db ≡ ok x
    → x.0 ≡ id
unfolding loan_request
update_request-id python id body actor key db h =
    let (i, e, h1) = >>=-eq-ok (required_id (some id)) _ h in
    let (r, _, h2) = >>=-eq-ok (update_request python (latest i db.loans) i body actor) _ h1 in
    ap (λ (y : String × Dict). y.0) (sym (ok-injective h2)) ∙ required_id-some id e

void_request-id :
    (python : Python) (id : String) (body : Dict) (actor key : String) (db : Db) {x : String × Dict}
    → loan_request python void (some id) body actor key db ≡ ok x
    → x.0 ≡ id
unfolding loan_request
void_request-id python id body actor key db h =
    let (i, e, h1) = >>=-eq-ok (required_id (some id)) _ h in
    let (r, _, h2) = >>=-eq-ok (reason_of (get_or "reason" (str "") body)) _ h1 in
    ap (λ (y : String × Dict). y.0) (sym (ok-injective h2)) ∙ required_id-some id e

-- The row is the latest of the loan, a loan of a command, and the actor is its applicant.
abbrev pub IsApplicants : Db → String → String → Type 0
IsApplicants db id actor =
    (row : Row) × (latest id db.loans ≡ some row)
    × (get "source_kind" row.payload ≡ str "command")
    × (get "applied_by" row.payload ≡ str actor)

module _ (python : Python) (postgres : Postgres) (raw_loans : List String)
    (around : Surroundings) where
  answered-IsApplicants :
      (put : Bool) (id : String) (body : Dict) (actor key : String) (db : Db) {reply : Reply}
      → (loan_command python postgres raw_loans around
          (if put then "update" else "void")
          (some id)
          body
          actor
          key
          db).1
        ≡ ok reply
      → reply.idempotent_replay ≡ false
      → IsApplicants db id actor
  answered-IsApplicants true id body actor key db h new =
      let (x, e) =
        loan_command-requested python postgres raw_loans around "update" update (some id) body actor
          key db refl h in
      let (row, found, local, applied, _) =
        answered_loan_command_is_the_applicants python postgres raw_loans around "update" (some id)
          body actor key db update x.0 x.1 refl refl e h new in
      subst (λ i. IsApplicants db i actor) (update_request-id python id body actor key db e)
        (row, found, local, applied)
  answered-IsApplicants false id body actor key db h new =
      let (x, e) =
        loan_command-requested python postgres raw_loans around "void" void (some id) body actor key
          db refl h in
      let (row, found, local, applied, _) =
        answered_loan_command_is_the_applicants python postgres raw_loans around "void" (some id)
          body actor key db void x.0 x.1 refl refl e h new in
      subst (λ i. IsApplicants db i actor) (void_request-id python id body actor key db e)
        (row, found, local, applied)

  -- A PUT or DELETE on a loan that is answered with a result, and not as a replay, was let in by the
  -- bearer token and the other checks of the handler, and the one who asks is the applicant of the
  -- loan of the path, which is a loan of a command: where the service has a signing secret, this is
  -- the actor that the headers carry with its signature, and without one the service's own actor.
  pub loan_method_alias-IsApplicants :
      (digest : Digest) (config : Config) (request : Request) (db : Db) {reply : Reply}
      → (loan_method_alias digest config python postgres raw_loans around request db).1
        ≡ answer reply
      → reply.idempotent_replay ≡ false
      → (id : String) × (actor : String) × (authorize digest config request.headers ≡ ok tt)
        × (without_prefix "/api/company/loans/" request.path ≡ some id)
        × Identifies digest config.actor_id config.actor_signing_secret request.headers actor
        × IsApplicants db id actor
  unfolding loan_method_alias
  loan_method_alias-IsApplicants digest config request db {reply} h new =
      go (asked digest config request) refl h
    where
      go :
          (o : Result Refusal Asked)
          → asked digest config request ≡ o
          → (run digest config python postgres raw_loans around request db o).1 ≡ answer reply
          → (id : String) × (actor : String) × (authorize digest config request.headers ≡ ok tt)
            × (without_prefix "/api/company/loans/" request.path ≡ some id)
            × Identifies digest config.actor_id config.actor_signing_secret request.headers actor
            × IsApplicants db id actor
      go (err r) e k = absurd (cc k)
      go (ok a) e k =
          let (allowed, path, carries) = asked-eq-ok digest config request e in
          (
            a.loan_id,
            a.actor,
            allowed,
            path,
            carries,
            answered-IsApplicants request.put a.loan_id a.body a.actor a.key db (respond-answer _ k)
                new,
          )
