-- ===== src/Service/Rows.antt =====
-- The rows of `company_aggregate_projection` of one aggregate type
-- (scripts/postgres_target_schema.sql), and the three queries that the commands make on them.
use moonproj.Base.{
  some-eq, subst, ◌∙◌, Option-cases, ℕ, ◌+◌, ◌≤◌, ◌<◌, String, ◌≡◌, ◌≢◌, refl, Bool, false, ◌&&◌,
  ◌||◌, Option, none, some, List, [], ◌∷◌, any, ltb, leb, eqb, ◌==◌, eq_iff, arith, Dict,
  if◌then◌else◌, All, Bool-cases, inl, inr,
}

pub record Row : Type 0 where
  pub aggregate_id : String
  pub revision : ℕ
  pub payload : Dict
  pub event : String

abbrev newer : Row → Option Row → Option Row
newer r none = some r
newer r (some b) = if ltb b.revision r.revision then some r else some b

-- `… WHERE aggregate_id = id ORDER BY revision DESC LIMIT 1`
unfoldable pub latest : String → List Row → Option Row
latest id [] = none
latest id (r ∷ rs) = let best = latest id rs in if r.aggregate_id == id then newer r best else best

abbrev larger : ℕ → ℕ → ℕ
larger a b = if ltb a b then b else a

-- `coalesce(max(revision), 0)` over the rows of one aggregate
unfoldable pub top_revision : String → List Row → ℕ
top_revision id [] = 0
top_revision id (r ∷ rs) =
    let rest = top_revision id rs in if r.aggregate_id == id then larger r.revision rest else rest

-- `SELECT coalesce(max(revision), 0) + 1 INTO next_revision`; `none` is no `integer`.
unfoldable pub next_revision : String → List Row → Option ℕ
next_revision id rows =
    let next = top_revision id rows + 1 in if leb next 2147483647 then some next else none

-- The primary key and the unique event of the table.
abbrev pub clashes : Row → Row → Bool
clashes a b = a.aggregate_id == b.aggregate_id && (eqb a.revision b.revision || a.event == b.event)

-- `INSERT`; `none` is a unique violation.
unfoldable pub insert_row : Row → List Row → Option (List Row)
insert_row r rs = if any (clashes r) rs then none else some (r ∷ rs)

pub insert_row-eq-some :
    (r : Row) (rs : List Row) {rs' : List Row} → insert_row r rs ≡ some rs' → rs' ≡ r ∷ rs
unfolding insert_row
insert_row-eq-some r rs h = ground arith

pub latest-le-top :
    (id : String) (rs : List Row) {b : Row}
    → latest id rs ≡ some b
    → b.revision ≤ top_revision id rs
unfolding latest top_revision
latest-le-top id [] h = absurd (cc h)
latest-le-top id (r ∷ rs) {b} h = elim (Option-cases (latest id rs)) [
  | inl no_row ↦ ground arith
  | inr (c, e) ↦ ground (arith, latest-le-top id rs e)
]

-- The row inserted with the next revision is the latest of its aggregate.
pub latest-insert_self :
    (r : Row) (rs : List Row)
    → r.revision ≡ top_revision r.aggregate_id rs + 1
    → latest r.aggregate_id (r ∷ rs) ≡ some r
unfolding latest
latest-insert_self r rs e = elim (Option-cases (latest r.aggregate_id rs)) [
  | inl no_row ↦ ground (arith, eq_iff r.aggregate_id r.aggregate_id)
  | inr (c, found) ↦
      ground (arith, eq_iff r.aggregate_id r.aggregate_id, latest-le-top r.aggregate_id rs found)
]

pub latest-insert_ne :
    (id : String) (r : Row) (rs : List Row)
    → r.aggregate_id ≢ id
    → latest id (r ∷ rs) ≡ latest id rs
unfolding latest
latest-insert_ne id r rs h = ground (arith, eq_iff r.aggregate_id id)

-- The rows found are rows of the aggregate.
pub latest-id :
    (id : String) (rs : List Row) {b : Row} → latest id rs ≡ some b → b.aggregate_id ≡ id
unfolding latest
latest-id id [] h = absurd (cc h)
latest-id id (r ∷ rs) {b} h = elim (Option-cases (latest id rs)) [
  | inl no_row ↦ ground (arith, eq_iff r.aggregate_id id)
  | inr (c, e) ↦ ground (arith, eq_iff r.aggregate_id id, latest-id id rs e)
]

-- A row with a new revision of its aggregate and a new event clashes with none.
pub no_clash :
    (r : Row) (rs : List Row)
    → top_revision r.aggregate_id rs < r.revision
    → any (λ x. x.event == r.event) rs ≡ false
    → any (clashes r) rs ≡ false
unfolding top_revision
no_clash r [] h fresh = refl
no_clash r (x ∷ rs) h fresh = ground (
  arith,
  eq_iff r.aggregate_id x.aggregate_id,
  eq_iff x.aggregate_id r.aggregate_id,
  eq_iff r.event x.event,
  eq_iff x.event r.event,
  no_clash r rs,
)

pub insert_row-new :
    (r : Row) (rs : List Row)
    → top_revision r.aggregate_id rs < r.revision
    → any (λ x. x.event == r.event) rs ≡ false
    → insert_row r rs ≡ some (r ∷ rs)
unfolding insert_row
insert_row-new r rs h fresh = rw (no_clash r rs h fresh)

pub latest-none-top : (id : String) (rs : List Row) → latest id rs ≡ none → top_revision id rs ≡ 0
unfolding latest top_revision
latest-none-top id [] h = refl
latest-none-top id (r ∷ rs) h = elim (Option-cases (latest id rs)) [
  | inl no_row ↦ ground (arith, latest-none-top id rs no_row)
  | inr (c, e) ↦ ground arith
]

-- What holds of all rows holds of the latest.
pub latest-All :
    (P : Row → Type 0) (id : String) (rs : List Row) {b : Row}
    → All P rs
    → latest id rs ≡ some b
    → P b
unfolding latest
latest-All P id [] ps h = absurd (cc h)
latest-All P id (r ∷ rs) {b} (p, ps) h = elim (Bool-cases (r.aggregate_id == id)) [
  | inl same ↦ elim (Option-cases (latest id rs)) [
    | inl no_row ↦ subst P (some-eq (rw (same, no_row) at h)) p
    | inr (c, e) ↦ elim (Bool-cases (ltb c.revision r.revision)) [
      | inl newest ↦ subst P (some-eq (rw (same, e, newest) at h)) p
      | inr older ↦ latest-All P id rs ps (e ∙ (rw (same, e, older) at h))
    ]
  ]
  | inr other ↦ latest-All P id rs ps (rw other at h)
]

-- The next revision is one more than the last, within `integer`,
pub next_revision-eq-some :
    (id : String) (rows : List Row) {n : ℕ}
    → next_revision id rows ≡ some n
    → (n ≡ top_revision id rows + 1) × (top_revision id rows < 2147483647)
unfolding next_revision
next_revision-eq-some id rows h = ground arith

-- and it is there until the last one is reached.
pub next_revision-fits :
    (id : String) (rows : List Row)
    → top_revision id rows < 2147483647
    → next_revision id rows ≡ some (top_revision id rows + 1)
unfolding next_revision
next_revision-fits id rows h = ground arith
