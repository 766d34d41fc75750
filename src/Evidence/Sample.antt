-- ===== src/Evidence/Sample.antt =====
-- Working directories for the tests of the evidence scripts: the files that are there, by path.
use moonproj.Base.{
  ℕ, String, Json, List, [], ◌∷◌, ◌==◌, if◌then◌else◌, dict, obj, str, int, pos, bool, false,
}
use moonproj.Evidence.{Entry, absent, holds}

abbrev pub files : List (String × Json) → String → Entry
files [] path = absent
files ((name, value) ∷ rest) path = if name == path then holds value else files rest path

abbrev pub document : List (String × Json) → Json
document fields = obj (dict fields)

abbrev pub number : ℕ → Json
number n = int (pos n)

-- A reconciliation without external effects.
abbrev pub settled : Json
settled = document (
    ("state", str "reconciled")
    ∷ ("cash_released", bool false)
    ∷ ("period_posted", bool false)
    ∷ [])
