-- ===== src/PeriodClose/Cohorts.antt =====
-- The cohorts that the loop of scripts/company_period_close_control.py gathers, and their links.
use moonproj.Base.{
  is_false, ℕ, zero, suc, ◌+◌, String, ◌≡◌, refl, sym, ap, subst, ◌⊎◌, inl, inr, Bool, true, false,
  not, ◌&&◌, ◌||◌, List, [], ◌∷◌, arith, ok, ◌>>=◌, Json, null, bool, int, str, arr, obj, Dict, get,
  get_or, is_text, if◌then◌else◌, json_eq, ℤ, pos, negsuc, All, strip,
}
use moonproj.Base.{raise_if-eq-ok, >>=-eq-ok, ok-injective, eqb, is_nil, any, ◌<◌, is_empty}
use moonproj.Evidence.{Entry, load_object, to_int}
use moonproj.PeriodClose.{
  positive_count, filled_text, joined, Cohort, read_cohort, same_identity, add_cohort,
  collect_cohorts, total_links,
}

abbrev pub IsGood : Cohort → Type 0
IsGood c = (0 < c.link_count) × (is_nil c.source_snapshot_id ≡ false)

filled_text-filled :
    (message : String) (v : Json) {s : String} → filled_text message v ≡ ok s → is_nil s ≡ false
unfolding strip
filled_text-filled message (str String.[]) h = absurd (cc h)
filled_text-filled message (str (String.◌∷◌ c s)) h =
    let (_, k) = raise_if-eq-ok (is_nil (strip (String.◌∷◌ c s))) _ _ h in
    subst (λ t. is_nil t ≡ false) (ok-injective k) refl
filled_text-filled message null h = absurd (cc h)
filled_text-filled message (bool b) h = absurd (cc h)
filled_text-filled message (int z) h = absurd (cc h)
filled_text-filled message (arr xs) h = absurd (cc h)
filled_text-filled message (obj d) h = absurd (cc h)

positive_count-positive : (z : ℤ) {n : ℕ} → positive_count z ≡ ok n → 0 < n
positive_count-positive (pos (suc n)) h = subst (λ m. 0 < m) (ok-injective h) (omega arith)
positive_count-positive (pos zero) h = absurd (cc h)
positive_count-positive (negsuc n) h = absurd (cc h)

read_cohort-IsGood : (path : String) (d : Dict) {c : Cohort} → read_cohort path d ≡ ok c → IsGood c
unfolding read_cohort
read_cohort-IsGood path d h =
    let (_, h1) =
      raise_if-eq-ok (not (is_text "moonproj.erp.accounting-reconciliation.v1" (get "format" d))) _
        _ h in
    let (_, h2) = raise_if-eq-ok (not (is_text "reconciled" (get "state" d))) _ _ h1 in
    let (_, h3) = raise_if-eq-ok (not (is_text "ok" (get "integrity" d))) _ _ h2 in
    let (_, h4) =
      raise_if-eq-ok
        (not (is_false (get "cash_released" d)) || not (is_false (get "period_posted" d))) _ _ h3 in
    let (s, es, h5) =
      >>=-eq-ok (filled_text "reconciliation has no source snapshot" (get "source_snapshot_id" d)) _
        h4 in
    let (m, _, h6) =
      >>=-eq-ok (filled_text "reconciliation has no mapping version" (get "mapping_version" d)) _
        h5 in
    let (z, _, h7) = >>=-eq-ok (to_int (get_or "link_count" (int (pos 0)) d)) _ h6 in
    let (n, en, h8) = >>=-eq-ok (positive_count z) _ h7 in
    let (b, _, h9) =
      >>=-eq-ok (filled_text "reconciliation has no backend" (get_or "backend" (str "sqlite") d)) _
        h8 in
    subst IsGood (ok-injective h9)
      (positive_count-positive z en, filled_text-filled _ (get "source_snapshot_id" d) es)

joined-links :
    (x c : Cohort) {both : Cohort}
    → joined x c ≡ ok both
    → (both.link_count ≡ x.link_count) × (both.source_snapshot_id ≡ x.source_snapshot_id)
joined-links x c h =
    let (_, k) =
      raise_if-eq-ok (not (eqb x.link_count c.link_count) || not (json_eq x.state c.state)) _ _ h in
    (
      sym (ap (λ (y : Cohort). y.link_count) (ok-injective k)),
      sym (ap (λ (y : Cohort). y.source_snapshot_id) (ok-injective k)),
    )

-- Adding to cohorts either joins the first of them or goes on behind it.
add_cohort-cases :
    (x : Cohort) (xs : List Cohort) (c : Cohort) {after : List Cohort}
    → add_cohort (x ∷ xs) c ≡ ok after
    → ((same_identity x c ≡ true) × (both : Cohort) × (joined x c ≡ ok both) × (both ∷ xs ≡ after))
      ⊎ ((same_identity x c ≡ false)
          × (rest : List Cohort) × (add_cohort xs c ≡ ok rest)
          × (x ∷ rest ≡ after))
unfolding add_cohort
add_cohort-cases x xs c {after} h = go (same_identity x c) refl h
  where
    go :
        (b : Bool)
        → same_identity x c ≡ b
        → (if b
            then (do both ← joined x c; ok (both ∷ xs))
            else (do rest ← add_cohort xs c; ok (x ∷ rest)))
          ≡ ok after
        → ((same_identity x c ≡ true)
            × (both : Cohort) × (joined x c ≡ ok both)
            × (both ∷ xs ≡ after))
          ⊎ ((same_identity x c ≡ false)
              × (rest : List Cohort) × (add_cohort xs c ≡ ok rest)
              × (x ∷ rest ≡ after))
    go true e k =
        let (both, eb, k2) = >>=-eq-ok (joined x c) _ k in inl (e, both, eb, ok-injective k2)
    go false e k =
        let (rest, er, k2) = >>=-eq-ok (add_cohort xs c) _ k in inr (e, rest, er, ok-injective k2)

-- A reconciliation of a snapshot and mapping version that is there adds nothing to the links, any
-- other adds its own.
pub add_cohort-total_links :
    (cs : List Cohort) (c : Cohort) {after : List Cohort}
    → add_cohort cs c ≡ ok after
    → total_links after
      ≡ total_links cs + (if any (λ x. same_identity x c) cs then 0 else c.link_count)
unfolding add_cohort
add_cohort-total_links [] c {after} h =
    subst (λ l. total_links l ≡ 0 + c.link_count) (ok-injective h) (omega arith)
add_cohort-total_links (x ∷ xs) c {after} h = elim (add_cohort-cases x xs c h) [
  | inl (same, both, eb, e) ↦
      let (links, _) = joined-links x c eb in
      subst
        (λ l.
          total_links l
          ≡ total_links (x ∷ xs)
            + (if any (λ y. same_identity y c) (x ∷ xs) then 0 else c.link_count))
        e (rw same (omega arith))
  | inr (other, rest, er, e) ↦
      let counted = add_cohort-total_links xs c er in
      subst
        (λ l.
          total_links l
          ≡ total_links (x ∷ xs)
            + (if any (λ y. same_identity y c) (x ∷ xs) then 0 else c.link_count))
        e (rw other (omega arith))
]

unfoldable pub AllGood : List Cohort → Type 0
AllGood cs = All IsGood cs × (is_empty cs ≡ false)

add_cohort-AllGood :
    (cs : List Cohort) (c : Cohort) {after : List Cohort}
    → add_cohort cs c ≡ ok after
    → All IsGood cs
    → IsGood c
    → AllGood after
unfolding AllGood add_cohort
add_cohort-AllGood [] c h good g = subst AllGood (ok-injective h) ((g, tt), refl)
add_cohort-AllGood (x ∷ xs) c h (good, others) g = elim (add_cohort-cases x xs c h) [
  | inl (same, both, eb, e) ↦
      let (links, snapshot) = joined-links x c eb in
      subst AllGood e (((rw links good.0, rw snapshot good.1), others), refl)
  | inr (other, rest, er, e) ↦
      let (more, _) = add_cohort-AllGood xs c er others g in subst AllGood e ((good, more), refl)
]

pub collect_cohorts-AllGood :
    (file : String → Entry) (cs : List Cohort) (paths : List String) {after : List Cohort}
    → collect_cohorts file cs paths ≡ ok after
    → All IsGood cs
    → is_empty cs && is_empty paths ≡ false
    → AllGood after
unfolding collect_cohorts AllGood
collect_cohorts-AllGood file [] [] h good some_cohort = absurd (cc some_cohort)
collect_cohorts-AllGood file (c ∷ cs) [] h good some_cohort =
    subst AllGood (ok-injective h) (good, refl)
collect_cohorts-AllGood file cs (path ∷ paths) h good some_cohort =
    let (d, _, h1) = >>=-eq-ok (load_object (file path)) _ h in
    let (c, ec, h2) = >>=-eq-ok (read_cohort path d) _ h1 in
    let (more, em, h3) = >>=-eq-ok (add_cohort cs c) _ h2 in
    let (all_good, there) = add_cohort-AllGood cs c em good (read_cohort-IsGood path d ec) in
    collect_cohorts-AllGood file more paths h3 all_good (rw there refl)
