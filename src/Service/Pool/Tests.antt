-- ===== src/Service/Pool/Tests.antt =====
-- A pool of two sessions in which one session fails while the other answers.
use moonproj.Base.{◌≡◌, refl, true, false, some, List, [], ◌∷◌, ok, pos}
use moonproj.Service.Pool.{enter, acquire, answer, fail, put, Pool, Event, new_pool, step, schedule}
use moonproj.Service.Pool.Invariant.{IsSound, schedule-IsSound}

abbrev fresh : Pool
fresh = record {
  size = 2;
  spawned = 2;
  closed = false;
  entered = 0;
  available = 1 ∷ 0 ∷ [];
  running = [];
  returning = [];
}

made : new_pool (pos 2) true true ≡ ok fresh
unfolding new_pool
made = refl

abbrev events : List Event
events = put 2 ∷ answer 0 ∷ fail 1 ∷ acquire ∷ enter ∷ acquire ∷ enter ∷ []

-- The session that failed is replaced by the session 2; the session 0 has not been put back yet.
abbrev after : Pool
after = record {
  size = 2;
  spawned = 3;
  closed = false;
  entered = 0;
  available = 2 ∷ [];
  running = [];
  returning = 0 ∷ [];
}

runs : schedule events fresh ≡ some after
unfolding schedule step
runs = refl

schedule-IsSound_example : IsSound after
schedule-IsSound_example = schedule-IsSound (pos 2) true true events made runs
