-- ===== src/Production/Manifest.antt =====
-- The parts that scripts/company_production_deployment_check.py and
-- scripts/company_production_service_check.py share: tests on the values of a manifest.
use Prim.Native.Char.{code}
use moonproj.Base.{
  ℕ, String, Bool, true, false, not, ◌&&◌, ◌||◌, ok, err, raise_if, Json, str, obj, Dict, get,
  strip, ◌>>◌, leb, eqb, is_filled,
}
use moonproj.Base.{chars, leb, eqb}
use moonproj.Evidence.{Checked, failure}

-- `object_value(value, name)`
abbrev pub object_value : Json → Checked Dict
object_value (obj d) = ok d
object_value _ = err (failure "must be an object")

abbrev stripped : Json → String
stripped (str s) = strip s
stripped _ = ""

-- `required_string(obj, key)`
unfoldable pub required_string : Dict → String → Checked String
required_string d key = do
  raise_if (not (is_filled (get key d))) (failure "missing non-empty string")
  ok (stripped (get key d))

env_character : ℕ → Bool
env_character c = (leb b'A' c && leb c b'Z') || (leb b'0' c && leb c b'9') || eqb c b'_'

env_characters : String → Bool
unfolding env_character
env_characters String.[] = true
env_characters (String.◌∷◌ c s) = env_character (code c) && env_characters s

-- `ENV_NAME.fullmatch(value)`
unfoldable pub is_env_name : String → Bool
unfolding env_characters
is_env_name String.[] = false
is_env_name (String.◌∷◌ c s) =
    leb b'A' (code c)
    && leb (code c) b'Z'
    && leb 2 (chars s)
    && leb (chars s) 127
    && env_characters s
