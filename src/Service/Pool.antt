-- ===== src/Service/Pool.antt =====
-- The queue of sessions of `PsqlPool` in scripts/company_postgres_service.py: the requests of several
-- threads as events on the pool. A session is an identifier; a psql process behind it is outside
-- the model, and answers or fails.
mod Sessions
pub mod Invariant
mod Tests
use moonproj.Base.{
  length, leb, ltb, eqb, ◌≤◌, ◌>>◌, some-eq, Option-cases, Bool-cases, ℕ, zero, suc, ◌+◌, String,
  ◌≡◌, refl, sym, ap, ◌∙◌, subst, ◌≢◌, ◌↔◌, ◌⊎◌, inl, inr, Bool, true, false, not, ◌&&◌, ◌||◌,
  Option, none, some, List, [], ◌∷◌, ◌++◌, map, arith, ◌==◌, eq_iff, eq_refl, Result, ok, err,
  ◌>>=◌, raise_if, Json, null, bool, int, str, arr, obj, Items, nil, cons, Dict, end, field, dict,
  get, get_or, is_text, is_true, if◌then◌else◌, json_eq, items_eq, dict_within, ℤ, pos, negsuc,
  ◌+ℤ◌, All, all, strip, is_identifier, is_currency, upper, parse_int, is_space,
}
use moonproj.Service.Database.{Answer, Fault, service_error}

-- `entered` requests have found the pool open and wait for a session; `running` are the sessions on
-- which a request runs; `returning` those whose request has found the pool open afterwards and has
-- not yet put its session back. `spawned` counts the sessions that were made.
pub record Pool : Type 0 where
  pub size : ℕ
  pub spawned : ℕ
  pub closed : Bool
  pub entered : ℕ
  pub available : List ℕ
  pub running : List ℕ
  pub returning : List ℕ

-- What a thread does next: `execute` up to its test of `_closed`, a timeout in the queue, a session
-- taken, the answer or the `ServiceError` of a session up to the second test of `_closed`, the
-- `put`, and `close`. `close` holds the lock until the queue is empty, so no test of `_closed` comes
-- between its parts.
pub data Event : Type 0 where
  enter exhaust acquire close : Event
  answer fail put : ℕ → Event

-- `n` new sessions
abbrev pub sessions : ℕ → List ℕ
sessions zero = []
sessions (suc n) = n ∷ sessions n

-- `PsqlPool(...)`; the tests of the two timeouts are given by their outcomes.
unfoldable pub new_pool : ℤ → Bool → Bool → Answer Pool
new_pool (negsuc n) acquire_valid query_valid =
    err (service_error "pool size must be between 1 and 64")
new_pool (pos size) acquire_valid query_valid = do
  raise_if (leb size 0 || ltb 64 size) (service_error "pool size must be between 1 and 64")
  raise_if (not acquire_valid) (service_error "acquire timeout must be between 0 and 300 seconds")
  raise_if (not query_valid) (service_error "query timeout must be between 0 and 300 seconds")
  ok (record {
    size = size;
    spawned = size;
    closed = false;
    entered = 0;
    available = sessions size;
    running = [];
    returning = [];
  })

abbrev pub kept : ℕ → Option (List ℕ) → Option (List ℕ)
kept x none = none
kept x (some xs) = some (x ∷ xs)

-- One occurrence taken out of a list.
abbrev pub remove : ℕ → List ℕ → Option (List ℕ)
remove s [] = none
remove s (x ∷ xs) = let rest = remove s xs in if eqb x s then some xs else kept x rest

abbrev leave : Pool → ℕ → Option Pool
leave p zero = none
leave p (suc n) = some (record p { entered = n })

-- The session at the head of the queue.
abbrev pub take : Pool → ℕ → List ℕ → Option Pool
take p zero queue = none
take p (suc n) [] = none
take p (suc n) (s ∷ queue) =
    some (record p { entered = n; available = queue; running = s ∷ p.running })

-- After the answer of a session: a closed pool closes it, an open one keeps it.
abbrev pub settle : Pool → ℕ → Bool → Option (List ℕ) → Option Pool
settle p s closed none = none
settle p s true (some running) = some (record p { running = running })
settle p s false (some running) = some (record p { running = running; returning = s ∷ p.returning })

-- After its failure the session is closed, and in an open pool a new one is made.
abbrev pub replace : Pool → Bool → Option (List ℕ) → Option Pool
replace p closed none = none
replace p true (some running) = some (record p { running = running })
replace p false (some running) =
    some
      (record p { running = running; returning = p.spawned ∷ p.returning; spawned = p.spawned + 1 })

abbrev pub put_back : Pool → ℕ → Option (List ℕ) → Option Pool
put_back p s none = none
put_back p s (some returning) =
    some (record p { returning = returning; available = p.available ++ (s ∷ []) })

-- One event; `none` where it cannot happen.
unfoldable pub step : Event → Pool → Option Pool
step enter p = some (if p.closed then p else record p { entered = p.entered + 1 })
step exhaust p = leave p p.entered
step acquire p = take p p.entered p.available
step (answer s) p = settle p s p.closed (remove s p.running)
step (fail s) p = replace p p.closed (remove s p.running)
step (put s) p = put_back p s (remove s p.returning)
step close p = some (if p.closed then p else record p { closed = true; available = [] })

abbrev pub then_step : Event → Option Pool → Option Pool
then_step e none = none
then_step e (some p) = step e p

-- A schedule of events, the last one first.
unfoldable pub schedule : List Event → Pool → Option Pool
schedule [] p = some p
schedule (e ∷ es) p = let before = schedule es p in then_step e before
