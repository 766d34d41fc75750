-- ===== src/Base/Values.antt =====
-- JSON values as Python holds them after `json.loads`. Numbers are integers: a document with a
-- fractional number is outside the model.
use Prim.Native.Nat.{ℕ, suc}
use Prim.Native.String.{String}
use mathlib.Core.Bool.{Bool, true, false, not, ◌&&◌}
use mathlib.Core.List.{List, [], ◌∷◌}
use mathlib.Core.Path.{◌≡◌, ap}
use text.Mathlib.Text.{◌==◌}
use text.Mathlib.TextEquality.{eq_iff}
use moonproj.Base.Tests.{ltb, eqb, if◌then◌else◌}
use moonproj.Base.Int.{ℤ, pos, negsuc, eqb_ℤ}
use moonproj.Base.Text.{is_nil, strip}

mutual
  pub data Json : Type 0 where
    null : Json
    bool : Bool → Json
    int : ℤ → Json
    str : String → Json
    arr : Items → Json
    obj : Dict → Json

  pub data Items : Type 0 where
    nil : Items
    cons : Json → Items → Items

  -- A dict, in insertion order.
  pub data Dict : Type 0 where
    end : Dict
    field : String → Json → Dict → Dict

-- `d.get(k, default)`
abbrev pub get_or : String → Json → Dict → Json
get_or k default end = default
get_or k default (field j v d) = if j == k then v else get_or k default d

-- `d.get(k)`
abbrev pub get : String → Dict → Json
get k d = get_or k null d

-- `k in d`
abbrev pub contains : String → Dict → Bool
contains k end = false
contains k (field j v d) = if j == k then true else contains k d

abbrev pub items : Items → List Json
items nil = []
items (cons x xs) = x ∷ items xs

abbrev pub count : Items → ℕ
count nil = 0
count (cons x xs) = suc (count xs)

abbrev pub size : Dict → ℕ
size end = 0
size (field k v d) = suc (size d)

-- A dict display.
abbrev pub dict : List (String × Json) → Dict
dict [] = end
dict ((k, v) ∷ d) = field k v (dict d)

abbrev pub keys : Dict → List Json
keys end = []
keys (field k v d) = str k ∷ keys d

abbrev pub characters : String → List Json
characters String.[] = []
characters (String.◌∷◌ c s) = str (String.◌∷◌ c String.[]) ∷ characters s

abbrev pub array : List Json → Items
array [] = nil
array (x ∷ xs) = cons x (array xs)

-- `isinstance(value, dict)`
abbrev pub is_dict : Json → Bool
is_dict (obj d) = true
is_dict _ = false

-- `value.get(key)` of a value known to be a dict
abbrev pub field_of : String → Json → Json
field_of k (obj d) = get k d
field_of k _ = null

-- `value is True`
abbrev pub is_true : Json → Bool
is_true (bool true) = true
is_true _ = false

-- `value is False`
abbrev pub is_false : Json → Bool
is_false (bool false) = true
is_false _ = false

-- `value is None`
abbrev pub is_null : Json → Bool
is_null null = true
is_null _ = false

-- `value == "..."`
abbrev pub is_text : String → Json → Bool
is_text s (str t) = t == s
is_text s _ = false

pub is_text-true : (s : String) (v : Json) → is_text s v ≡ true → v ≡ str s
is_text-true s (str t) h = ap str ((eq_iff t s).0 h)
is_text-true s null h = absurd (cc h)
is_text-true s (bool b) h = absurd (cc h)
is_text-true s (int z) h = absurd (cc h)
is_text-true s (arr a) h = absurd (cc h)
is_text-true s (obj d) h = absurd (cc h)

-- `value == n`, where `True == 1` and `False == 0`
abbrev pub is_int : ℕ → Json → Bool
is_int n (int (pos m)) = eqb m n
is_int n (bool true) = eqb 1 n
is_int n (bool false) = eqb 0 n
is_int n _ = false

-- `isinstance(value, str) and value.strip()`
abbrev pub is_filled : Json → Bool
is_filled (str s) = not (is_nil (strip s))
is_filled _ = false

-- `bool(value)`
abbrev pub truthy : Json → Bool
truthy null = false
truthy (bool b) = b
truthy (int (pos n)) = ltb 0 n
truthy (int (negsuc n)) = true
truthy (str s) = not (is_nil s)
truthy (arr nil) = false
truthy (arr (cons x xs)) = true
truthy (obj end) = false
truthy (obj (field k v d)) = true

abbrev pub bool_int : Bool → ℤ
bool_int true = pos 1
bool_int false = pos 0

-- `a == b`: two dicts are equal whatever the order of their keys.
unfoldable mutual
  pub json_eq : Json → Json → Bool
  json_eq null null = true
  json_eq (bool a) (bool b) = eqb_ℤ (bool_int a) (bool_int b)
  json_eq (bool a) (int b) = eqb_ℤ (bool_int a) b
  json_eq (int a) (bool b) = eqb_ℤ a (bool_int b)
  json_eq (int a) (int b) = eqb_ℤ a b
  json_eq (str a) (str b) = a == b
  json_eq (arr a) (arr b) = items_eq a b
  json_eq (obj a) (obj b) = eqb (size a) (size b) && dict_within a b
  json_eq _ _ = false

  pub items_eq : Items → Items → Bool
  items_eq nil nil = true
  items_eq (cons x xs) (cons y ys) = json_eq x y && items_eq xs ys
  items_eq _ _ = false

  pub dict_within : Dict → Dict → Bool
  dict_within end b = true
  dict_within (field k v d) b = contains k b && json_eq v (get k b) && dict_within d b
