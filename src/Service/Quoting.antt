-- ===== src/Service/Quoting.antt =====
-- The texts of a request in the script of its command (scripts/company_postgres_service.py). The script
-- holds the request as JSON in literals of `sql_literal`
-- (scripts/company_postgres_target_apply.py), which doubles the quotes alone, and some of these
-- literals stand between the two `$$` of a `DO` block.
use Prim.Native.Char.{code}
use moonproj.Base.{
  String, ◌≡◌, refl, Bool, true, false, not, ◌&&◌, eqb, Option, none, some, Json, str, arr, obj,
  Items, nil, cons, Dict, end, field,
}

-- No `$$`, and no U+0000, which `jsonb` refuses; `dollar` says whether a `$` comes right before.
unfoldable pub quotable_text : Bool → String → Bool
quotable_text dollar String.[] = true
quotable_text dollar (String.◌∷◌ c s) =
    let rest = quotable_text (eqb (code c) b'$') s in
    not (dollar && eqb (code c) b'$') && not (eqb (code c) 0) && rest

unfoldable mutual
  pub quotable : Json → Bool
  quotable (str s) = quotable_text false s
  quotable (arr a) = quotable_items a
  quotable (obj d) = quotable_dict d
  quotable _ = true

  pub quotable_items : Items → Bool
  quotable_items nil = true
  quotable_items (cons x xs) = quotable x && quotable_items xs

  pub quotable_dict : Dict → Bool
  quotable_dict end = true
  quotable_dict (field k v d) = quotable_text false k && quotable v && quotable_dict d

-- A script that is cut off in a literal is an exception.
abbrev pub parsed {ℓ} : {A : Type ℓ} → Bool → Option A → Option A
parsed true result = result
parsed false result = none

pub parsed-eq-some {ℓ} :
    {A : Type ℓ} (whole : Bool) (result : Option A) {a : A}
    → parsed whole result ≡ some a
    → (whole ≡ true) × (result ≡ some a)
parsed-eq-some true result h = (refl, h)
parsed-eq-some false result h = absurd (cc h)
