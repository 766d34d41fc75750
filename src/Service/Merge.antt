-- ===== src/Service/Merge.antt =====
-- `jsonb` objects: `||` and `jsonb_strip_nulls` of PostgreSQL as scripts/company_postgres_service.py
-- uses them, and its text comparisons on `->>`, which are false on NULL.
use moonproj.Base.{
  String, ◌≡◌, refl, Bool, true, false, not, ◌==◌, eq_iff, arith, Json, null, str, Dict, end, field,
  get, get_or, is_null, if◌then◌else◌, contains, dict, ◌∷◌, [], List, ◌++◌, ◌≢◌, Bool-cases, inl,
  inr,
}

-- One key written.
unfoldable pub put : String → Json → Dict → Dict
put k v end = field k v end
put k v (field j w d) = if j == k then field k v d else field j w (put k v d)

-- `a || b`
unfoldable pub merge : Dict → Dict → Dict
merge a end = a
merge a (field k v b) = merge (put k v a) b

-- `jsonb_strip_nulls(b)` of a flat object
unfoldable pub strip_nulls : Dict → Dict
strip_nulls end = end
strip_nulls (field k v d) = let rest = strip_nulls d in if is_null v then rest else field k v rest

-- `value <> s` where `value` is a text, NULL, or another value as text.
abbrev pub differs : String → Json → Bool
differs s (str t) = not (t == s)
differs s null = false
differs s _ = true

-- `value = s`
abbrev pub equals : String → Json → Bool
equals s (str t) = t == s
equals s _ = false

pub get-put :
    (j k : String) (v : Json) (d : Dict) → get j (put k v d) ≡ (if k == j then v else get j d)
unfolding put
get-put j k v end = refl
get-put j k v (field i w d) = ground (arith, eq_iff k j, eq_iff i k, eq_iff i j, get-put j k v d)

-- A key that is not written keeps its value.
pub get-merge_absent :
    (k : String) (a b : Dict) → contains k b ≡ false → get k (merge a b) ≡ get k a
unfolding merge
get-merge_absent k a end h = refl
get-merge_absent k a (field j v b) h =
    ground (arith, eq_iff j k, get-put k j v a, get-merge_absent k (put j v a) b)

-- Two objects merged one after the other.
pub merge-append :
    (a : Dict) (xs ys : List (String × Json))
    → merge a (dict (xs ++ ys)) ≡ merge (merge a (dict xs)) (dict ys)
unfolding merge
merge-append a [] ys = refl
merge-append a ((k, v) ∷ xs) ys = merge-append (put k v a) xs ys

-- The default does not matter where the key is.
pub get_or-of_get :
    (k : String) (default : Json) (d : Dict) {v : Json}
    → get k d ≡ v
    → v ≢ null
    → get_or k default d ≡ v
get_or-of_get k default end h ne = absurd (ne (cc h))
get_or-of_get k default (field j w d) h ne = elim (Bool-cases (j == k)) [
  | inl same ↦ rw (same, rw same at h)
  | inr other ↦ rw (other, get_or-of_get k default d (rw other at h) ne)
]
