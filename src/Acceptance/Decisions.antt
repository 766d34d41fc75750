-- ===== src/Acceptance/Decisions.antt =====
-- What the loop over the decisions of an acceptance manifest has checked.
use moonproj.Base.{
  AllAmong, Among, raise_if-false, String, ◌≡◌, ◌⊎◌, inl, inr, Bool, true, false, not, ◌&&◌, ok,
  >>=-eq-ok, raise_if-eq-ok, ok-injective, Json, obj, Dict, get, is_text, is_null, Option, none,
  some, Bool-cases, List, [], ◌∷◌, arith, subst, eq_iff, ◌==◌,
}
use moonproj.Acceptance.{
  lookup, is_some, role_of, or_unexpected, or_unnamed, known_decision, ById, append_entry, text_of,
  documented, check_decision, add_decision, collect_decisions, decided,
}

-- A decision that its owner made: the owner has the decision's role, and whoever decided is named
-- with the time, the rationale and the evidence, unless nothing is decided yet.
pub record IsVouched (id : String) (d : Dict) : Type 0 where
  pub named : text_of (get "id" d) ≡ some id
  pub role : String
  pub required : role_of id ≡ some role
  pub owned : is_text role (get "owner_role" d) ≡ true
  pub explained : (is_null (get "decision" d) ≡ true) ⊎ (documented d ≡ true)

or_unexpected-eq-ok : (o : Option String) {r : String} → or_unexpected o ≡ ok r → o ≡ some r
or_unexpected-eq-ok none h = cc
or_unexpected-eq-ok (some r) h = cc

or_unnamed-eq-ok : (o : Option String) {r : String} → or_unnamed o ≡ ok r → o ≡ some r
or_unnamed-eq-ok none h = cc
or_unnamed-eq-ok (some r) h = cc

undocumented-false :
    (decided documented : Bool)
    → (not decided && not documented) ≡ false
    → (decided ≡ true) ⊎ (documented ≡ true)
undocumented-false decided documented h = ground arith

check_decision-IsVouched :
    (id : String) (d : Dict) {u : Unit {0}}
    → text_of (get "id" d) ≡ some id
    → check_decision id d ≡ ok u
    → IsVouched id d
unfolding check_decision
check_decision-IsVouched id d n h =
    let (role, er, h1) = >>=-eq-ok (or_unexpected (role_of id)) _ h in
    let (owner, h2) = raise_if-eq-ok (not (is_text role (get "owner_role" d))) _ _ h1 in
    let (known, _, h3) = >>=-eq-ok (known_decision (get "decision" d)) _ h2 in
    let (_, h4) = raise_if-eq-ok (not known) _ _ h3 in
    let told : (not (is_null (get "decision" d)) && not (documented d)) ≡ false =
      raise_if-false _ _ h4 in
    record {
      named = n;
      role = role;
      required = or_unexpected-eq-ok (role_of id) er;
      owned = ground arith;
      explained = undocumented-false (is_null (get "decision" d)) (documented d) told;
    }

-- Every entry is vouched for, and is one of the manifest's.
abbrev pub Gathered : List Json → ById → Type 0
Gathered es [] = Unit
Gathered es ((id, d) ∷ m) = IsVouched id d × Among (obj d) es × Gathered es m

append_entry-Gathered :
    (es : List Json) (m : ById) (id : String) (d : Dict)
    → Gathered es m
    → IsVouched id d
    → Among (obj d) es
    → Gathered es (append_entry m id d)
append_entry-Gathered es [] id d g v a = (v, a, tt)
append_entry-Gathered es (e ∷ m) id d g v a = (g.0, g.1, append_entry-Gathered es m id d g.2 v a)

add_decision-Gathered :
    (es : List Json) (m : ById) (x : Json) {m' : ById}
    → Gathered es m
    → Among x es
    → add_decision m x ≡ ok m'
    → Gathered es m'
unfolding add_decision
add_decision-Gathered es m (obj d) {m'} g a h =
    let (id, ei, h1) = >>=-eq-ok (or_unnamed (text_of (get "id" d))) _ h in
    let (_, h2) = raise_if-eq-ok (is_some (lookup id m)) _ _ h1 in
    let (_, ec, h3) = >>=-eq-ok (check_decision id d) _ h2 in
    subst (Gathered es) (ok-injective h3) (
      append_entry-Gathered es m id d g
        (check_decision-IsVouched id d (or_unnamed-eq-ok (text_of (get "id" d)) ei) ec) a)
add_decision-Gathered es m x g a h = absurd (cc h)

pub collect_decisions-Gathered :
    (es : List Json) (m : ById) (ds : List Json) {m' : ById}
    → Gathered es m
    → AllAmong es ds
    → collect_decisions m ds ≡ ok m'
    → Gathered es m'
unfolding collect_decisions
collect_decisions-Gathered es m [] g a h = subst (Gathered es) (ok-injective h) g
collect_decisions-Gathered es m (d ∷ ds) g (a, more) h =
    let (next, en, h1) = >>=-eq-ok (add_decision m d) _ h in
    collect_decisions-Gathered es next ds (add_decision-Gathered es m d g a en) more h1

-- The entry that is found under an id is vouched for and is one of the manifest's.
pub lookup-Gathered :
    (es : List Json) (m : ById) (id : String) {d : Dict}
    → Gathered es m
    → lookup id m ≡ some d
    → IsVouched id d × Among (obj d) es
lookup-Gathered es [] id g h = absurd (cc h)
lookup-Gathered es ((j, c) ∷ m) id {d} g h = elim (Bool-cases (j == id)) [
  | inl same ↦
      let known : ◌≡◌ {A = Option Dict} (some c) (some d) = rw same at h in
      let found : c ≡ d = cc in
      (
        subst (λ i. IsVouched i d) ((eq_iff j id).0 same) (subst (IsVouched j) found g.0),
        subst (λ x. Among (obj x) es) found g.1,
      )
  | inr other ↦ lookup-Gathered es m id g.2 (rw other at h)
]
