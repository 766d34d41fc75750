-- ===== src/Service/Pool/Invariant.antt =====
-- The places of the sessions of `PsqlPool` in scripts/company_postgres_service.py.
use moonproj.Base.{
  raise_if-eq-ok, ok-injective, length, leb, ltb, eqb, ◌≤◌, some-eq, Bool-cases, ℕ, zero, suc, ◌+◌,
  ◌≡◌, refl, sym, ◌∙◌, subst, inl, inr, Bool, true, false, not, ◌||◌, Option, none, some, List, [],
  ◌∷◌, arith, ok, if◌then◌else◌, ℤ, pos, negsuc,
}
use moonproj.Service.Pool.{
  enter, exhaust, acquire, close, answer, fail, put, leave, Pool, Event, sessions, new_pool, remove,
  take, settle, replace, put_back, step, then_step, schedule,
}
use moonproj.Service.Pool.Sessions.{
  occurrences, length-snoc, occurrences-snoc, remove-length, remove-occurrences,
}

abbrev pub total : Pool → ℕ
total p = length p.available + length p.running + length p.returning

abbrev pub uses : ℕ → Pool → ℕ
uses n p = occurrences n p.available + occurrences n p.running + occurrences n p.returning

-- No session has two places, sessions are numbered below `spawned`, there are at most `size` of them
-- and, until the pool is closed, exactly `size`.
pub record IsSound (p : Pool) : Type 0 where
  pub single : (n : ℕ) → uses n p ≤ 1
  pub numbered : (n : ℕ) → p.spawned ≤ n → uses n p ≡ 0
  pub bounded : total p ≤ p.size
  pub complete : p.closed ≡ false → total p ≡ p.size

-- How a step that keeps the sessions moves them: none is lost and none is doubled.
abbrev Moved : Pool → Pool → Type 0
Moved p q =
    ((n : ℕ) → uses n q ≡ uses n p)
    × (total q ≡ total p)
    × (q.size ≡ p.size)
    × (q.closed ≡ p.closed)
    × (q.spawned ≡ p.spawned)

Moved-IsSound : {p q : Pool} → Moved p q → IsSound p → IsSound q
Moved-IsSound {p} {q} (same, count, size, closed, spawned) sound = record {
  single = λ n. rw (same n) (sound.single n);
  numbered = λ n h. same n ∙ sound.numbered n (subst (λ k. k ≤ n) spawned h);
  bounded = rw (count, size) sound.bounded;
  complete = λ h. count ∙ sound.complete (sym closed ∙ h) ∙ sym size;
}

take-IsSound :
    (p : Pool) (waiting : ℕ) (queue : List ℕ) {q : Pool}
    → p.available ≡ queue
    → take p waiting queue ≡ some q
    → IsSound p
    → IsSound q
take-IsSound p zero queue e h sound = absurd (cc h)
take-IsSound p (suc n) [] e h sound = absurd (cc h)
take-IsSound p (suc n) (s ∷ queue) {q} e h sound =
    subst IsSound (some-eq h) (
      Moved-IsSound {p = p} ((λ m. rw e (ground arith)), rw e (omega arith), refl, refl, refl)
        sound)

settle-IsSound :
    (p : Pool) (s : ℕ) (closed : Bool) (o : Option (List ℕ)) {q : Pool}
    → p.closed ≡ closed
    → remove s p.running ≡ o
    → settle p s closed o ≡ some q
    → IsSound p
    → IsSound q
settle-IsSound p s closed none e r h sound = absurd (cc h)
settle-IsSound p s true (some running) e r h sound = subst IsSound (some-eq h) (record {
  single = λ n.
      let moved = remove-occurrences n s p.running r in let one = sound.single n in ground arith;
  numbered = λ n b.
      let moved = remove-occurrences n s p.running r in
      let zero_uses = sound.numbered n b in ground arith;
  bounded = let shorter = remove-length s p.running r in let old = sound.bounded in omega arith;
  complete = λ k. absurd (cc (sym e ∙ k));
})
settle-IsSound p s false (some running) e r h sound = subst IsSound (some-eq h) (
    Moved-IsSound {p = p}
      (
        (λ n. let moved = remove-occurrences n s p.running r in ground arith),
        (let shorter = remove-length s p.running r in omega arith),
        refl,
        refl,
        refl,
      )
      sound)

replace-IsSound :
    (p : Pool) (s : ℕ) (closed : Bool) (o : Option (List ℕ)) {q : Pool}
    → p.closed ≡ closed
    → remove s p.running ≡ o
    → replace p closed o ≡ some q
    → IsSound p
    → IsSound q
replace-IsSound p s closed none e r h sound = absurd (cc h)
replace-IsSound p s true (some running) e r h sound =
    settle-IsSound p s true (some running) e r h sound
replace-IsSound p s false (some running) e r h sound =
    let shorter = remove-length s p.running r in
    let same_total = sound.complete e in
    subst IsSound (some-eq h) (record {
      single = λ n. elim (Bool-cases (eqb p.spawned n)) [
        | inl fresh ↦
            let moved = remove-occurrences n s p.running r in
            let unused = sound.numbered n (ground arith) in ground arith
        | inr other ↦
            let moved = remove-occurrences n s p.running r in
            let one = sound.single n in ground arith
      ];
      numbered = λ n b.
          let moved = remove-occurrences n s p.running r in
          let unused = sound.numbered n (omega arith) in ground arith;
      bounded = omega arith;
      complete = λ k. omega arith;
    })

put_back-IsSound :
    (p : Pool) (s : ℕ) (o : Option (List ℕ)) {q : Pool}
    → remove s p.returning ≡ o
    → put_back p s o ≡ some q
    → IsSound p
    → IsSound q
put_back-IsSound p s none r h sound = absurd (cc h)
put_back-IsSound p s (some returning) r h sound = subst IsSound (some-eq h) (
    Moved-IsSound {p = p}
      (
        (λ n.
            let moved = remove-occurrences n s p.returning r in
            let added = occurrences-snoc n p.available s in ground arith),
        (let shorter = remove-length s p.returning r in
            let longer = length-snoc p.available s in omega arith),
        refl,
        refl,
        refl,
      )
      sound)

leave-IsSound : (p : Pool) (n : ℕ) {q : Pool} → leave p n ≡ some q → IsSound p → IsSound q
leave-IsSound p zero h sound = absurd (cc h)
leave-IsSound p (suc n) h sound =
    subst IsSound (some-eq h) (Moved-IsSound {p = p} ((λ n. refl), refl, refl, refl, refl) sound)

either-IsSound : (b : Bool) (p q : Pool) → IsSound p → IsSound q → IsSound (if b then p else q)
either-IsSound true p q sound changed = sound
either-IsSound false p q sound changed = changed

entered-IsSound : (p : Pool) → IsSound p → IsSound (record p { entered = p.entered + 1 })
entered-IsSound p sound = Moved-IsSound {p = p} ((λ n. refl), refl, refl, refl, refl) sound

drained-IsSound : (p : Pool) → IsSound p → IsSound (record p { closed = true; available = [] })
drained-IsSound p sound = record {
  single = λ n. let one = sound.single n in omega arith;
  numbered = λ n b. let unused = sound.numbered n b in omega arith;
  bounded = let old = sound.bounded in omega arith;
  complete = λ k. absurd (cc k);
}

step-IsSound : (e : Event) (p : Pool) {q : Pool} → step e p ≡ some q → IsSound p → IsSound q
unfolding step
step-IsSound enter p h sound =
    subst IsSound (some-eq h) (either-IsSound p.closed p _ sound (entered-IsSound p sound))
step-IsSound exhaust p h sound = leave-IsSound p p.entered h sound
step-IsSound acquire p h sound = take-IsSound p p.entered p.available refl h sound
step-IsSound (answer s) p h sound =
    settle-IsSound p s p.closed (remove s p.running) refl refl h sound
step-IsSound (fail s) p h sound =
    replace-IsSound p s p.closed (remove s p.running) refl refl h sound
step-IsSound (put s) p h sound = put_back-IsSound p s (remove s p.returning) refl h sound
step-IsSound close p h sound =
    subst IsSound (some-eq h) (either-IsSound p.closed p _ sound (drained-IsSound p sound))

sessions-length : (k : ℕ) → length (sessions k) ≡ k
sessions-length zero = refl
sessions-length (suc k) = let e = sessions-length k in omega arith

sessions-occurrences : (n k : ℕ) → occurrences n (sessions k) ≡ (if ltb n k then 1 else 0)
sessions-occurrences n zero = ground arith
sessions-occurrences n (suc k) = let e = sessions-occurrences n k in ground arith

-- A new pool is sound.
new_pool-IsSound : (size : ℤ) (a b : Bool) {p : Pool} → new_pool size a b ≡ ok p → IsSound p
unfolding new_pool
new_pool-IsSound (negsuc n) a b h = absurd (cc h)
new_pool-IsSound (pos size) a b h =
    let (_, h1) = raise_if-eq-ok (leb size 0 || ltb 64 size) _ _ h in
    let (_, h2) = raise_if-eq-ok (not a) _ _ h1 in
    let (_, h3) = raise_if-eq-ok (not b) _ _ h2 in
    let count = sessions-length size in
    subst IsSound (ok-injective h3) (record {
      single = λ n. let e = sessions-occurrences n size in ground arith;
      numbered = λ n k. let e = sessions-occurrences n size in ground arith;
      bounded = omega arith;
      complete = λ k. omega arith;
    })

-- Whatever the requests of the pool do, and in whatever order, from a new pool on: no session is in
-- two places, so each that is taken serves one request at a time; there are at most `size` sessions;
-- and until the pool is closed there are exactly `size`, none being lost.
pub schedule-IsSound :
    (size : ℤ) (acquire_valid query_valid : Bool) {start : Pool} (events : List Event) {p : Pool}
    → new_pool size acquire_valid query_valid ≡ ok start
    → schedule events start ≡ some p
    → IsSound p
unfolding schedule
schedule-IsSound size a b [] made h = subst IsSound (some-eq h) (new_pool-IsSound size a b made)
schedule-IsSound size a b {start} (e ∷ es) {p} made h =
    go (schedule es start) (λ before eq. schedule-IsSound size a b es {p = before} made eq) refl h
  where
    go :
        (o : Option Pool)
        → ((before : Pool) → schedule es start ≡ some before → IsSound before)
        → schedule es start ≡ o
        → then_step e o ≡ some p
        → IsSound p
    go none earlier eq k = absurd (cc k)
    go (some before) earlier eq k = step-IsSound e before k (earlier before eq)
