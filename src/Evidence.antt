-- ===== src/Evidence.antt =====
-- The files that the evidence scripts read from their working directory, and the exceptions that
-- they raise: `load` and `check_file` of scripts/company_migration_cutover_gate.py, and `load` of
-- the other scripts. Reading and decoding a file is outside the model: a path holds nothing, bytes
-- that cannot be read as JSON, or a value.
pub mod Secrets
pub mod Sample
use moonproj.Base.{
  any, ◌==◌, ℕ, String, ◌≡◌, Bool, true, false, Result, ok, err, Json, bool, int, str, arr, obj,
  Dict, get, get_or, items, keys, characters, count, ℤ, pos, negsuc, chars, size, ltb, bool_int,
  parse_int, Option, none, some, List, arith,
}

-- `failure` is the script's own exception class; the others are Python's.
pub data Fault : Type 0 where
  failure : String → Fault
  type_error value_error attribute_error : Fault

abbrev pub Checked : Type 0 → Type 0
Checked A = Result Fault A

pub data Entry : Type 0 where
  absent : Entry
  corrupt : Entry
  holds : Json → Entry

-- `file` gives each path below `work_dir`; the globs give sorted paths.
pub record WorkDir : Type 0 where
  pub file : String → Entry
  pub cohorts_dir : Bool
  pub parity_paths : List String
  pub cohort_replays : List String
  pub reconciliations : List String

-- `path.is_file()`
abbrev pub is_file : Entry → Bool
is_file absent = false
is_file _ = true

-- `load` of the gate and of the period-close control: the value must be an object.
unfoldable pub load_object : Entry → Checked Dict
load_object (holds (obj d)) = ok d
load_object (holds _) = err (failure "evidence is not an object")
load_object _ = err (failure "cannot read JSON evidence")

-- `load` of the shadow, acceptance and deployment checks: any value.
unfoldable pub load_value : Entry → Checked Json
load_value (holds v) = ok v
load_value _ = err (failure "cannot read JSON evidence")

-- `value.get(key)`, on a value that may be no dict
abbrev pub attribute_get : String → Json → Checked Json
attribute_get k (obj d) = ok (get k d)
attribute_get k _ = err attribute_error

-- `value.get(key, default)`
abbrev pub attribute_get_or : String → Json → Json → Checked Json
attribute_get_or k default (obj d) = ok (get_or k default d)
attribute_get_or k default _ = err attribute_error

-- `for item in value`
abbrev pub iterate : Json → Checked (List Json)
iterate (arr xs) = ok (items xs)
iterate (obj d) = ok (keys d)
iterate (str s) = ok (characters s)
iterate _ = err type_error

-- `value in {…}`, over a set of texts; a list or a dict is not hashable.
abbrev pub is_one_of : List String → Json → Checked Bool
is_one_of names (str s) = ok (any (λ name. name == s) names)
is_one_of names (arr xs) = err type_error
is_one_of names (obj d) = err type_error
is_one_of names _ = ok false

-- `value > 0`
abbrev pub is_positive : Json → Checked Bool
is_positive (int (pos n)) = ok (ltb 0 n)
is_positive (int (negsuc n)) = ok false
is_positive (bool b) = ok b
is_positive _ = err type_error

-- `len(value)`
abbrev pub len_of : Json → Checked ℕ
len_of (str s) = ok (chars s)
len_of (arr xs) = ok (count xs)
len_of (obj d) = ok (size d)
len_of _ = err type_error

abbrev or_value_error : Option ℤ → Checked ℤ
or_value_error none = err value_error
or_value_error (some z) = ok z

-- `int(value)`
abbrev pub to_int : Json → Checked ℤ
to_int (int z) = ok z
to_int (bool b) = ok (bool_int b)
to_int (str s) = or_value_error (parse_int s)
to_int _ = err type_error

-- An object read from a file is what the file holds.
pub load_object-eq-ok : (e : Entry) {d : Dict} → load_object e ≡ ok d → e ≡ holds (obj d)
unfolding load_object
load_object-eq-ok (holds (obj d)) h = ground arith
load_object-eq-ok e h = ground arith
