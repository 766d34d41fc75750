-- ===== src/Evidence/Secrets.antt =====
-- `SECRET_KEY` and `reject_secrets` of scripts/company_shadow_period_check.py and
-- scripts/company_business_acceptance_check.py, which are the same text: no key of a manifest, at
-- any depth, may look like a secret.
use Prim.Native.Char.{code}
use moonproj.Base.{
  is_empty, length, suc, ℕ, ◌+◌, String, ◌≡◌, refl, Bool, true, false, ◌&&◌, ◌||◌, List, [], ◌∷◌,
  any, eqb, leb, Json, obj, arr, Items, nil, cons, Dict, end, field, raise_if, if◌then◌else◌, dict,
  null, str,
}
use moonproj.Evidence.{Checked, failure}

-- One character under `re.IGNORECASE`: the letters outside ASCII that match i, s or k too.
fold_case : ℕ → ℕ
fold_case c =
    if leb b'A' c && leb c b'Z'
    then c + 32
    else if eqb c 304 || eqb c 305
    then b'i'
    else if eqb c 383
    then b's'
    else if eqb c 8490
    then b'k'
    else c

abbrev folded : String → List ℕ
folded String.[] = []
folded (String.◌∷◌ c s) = fold_case (code c) ∷ folded s

is_prefix : List ℕ → List ℕ → Bool
is_prefix [] t = true
is_prefix (c ∷ p) [] = false
is_prefix (c ∷ p) (d ∷ t) = eqb c d && is_prefix p t

occurs : List ℕ → List ℕ → Bool
unfolding is_prefix
occurs p [] = is_prefix p []
occurs p (d ∷ t) = is_prefix p (d ∷ t) || occurs p t

ends_with : List ℕ → List ℕ → Bool
unfolding is_prefix
ends_with p [] = is_empty p
ends_with p (c ∷ t) = (is_prefix p (c ∷ t) && eqb (length p) (suc (length t))) || ends_with p t

-- `SECRET_KEY.search(key)`
unfoldable pub is_secret_key : String → Bool
unfolding fold_case occurs
is_secret_key key =
    any (λ word. occurs (folded word) (folded key))
      ("password" ∷ "secret" ∷ "token" ∷ "private" ∷ "credential" ∷ [])

-- `SECRET_KEY.search(key)` of the apply scripts: `password|secret|token|private|ip$`, where `$` stands
-- at the end and before a last line feed.
unfoldable pub is_private_key : String → Bool
unfolding fold_case occurs ends_with
is_private_key key =
    any (λ word. occurs (folded word) (folded key))
      ("password" ∷ "secret" ∷ "token" ∷ "private" ∷ [])
    || ends_with (folded "ip") (folded key)
    || ends_with (folded "ip\n") (folded key)

-- `SECRET_KEY.search(key)` of the production checks:
-- `password|secret|token|private[_-]?key|credential`.
unfoldable pub is_credential_key : String → Bool
unfolding fold_case occurs
is_credential_key key =
    any (λ word. occurs (folded word) (folded key))
      ("password" ∷ "secret" ∷ "token" ∷ "privatekey" ∷ "private_key" ∷ "private-key" ∷ "credential"
        ∷ [])

abbrev lowered : String → List ℕ
lowered String.[] = []
lowered (String.◌∷◌ c s) =
    (if leb b'A' (code c) && leb (code c) b'Z' then code c + 32 else code c) ∷ lowered s

-- A text that names a database by its address; of the characters outside ASCII, none is one of the
-- prefixes' letters in lower case.
unfoldable pub is_dsn : String → Bool
unfolding occurs
is_dsn value =
    any (λ prefix. occurs (lowered prefix) (lowered value))
      ("postgres://" ∷ "postgresql://" ∷ "mysql://" ∷ [])

abbrev pub no_text : String → Bool
no_text s = false

-- Whether `reject_secrets` meets a key that the pattern finds, or a text that is refused.
module _ (is_secret is_refused : String → Bool) where
  unfoldable mutual
    pub has_secret : Json → Bool
    has_secret (obj d) = secret_fields d
    has_secret (arr xs) = secret_items xs
    has_secret (str s) = is_refused s
    has_secret _ = false

    pub secret_items : Items → Bool
    secret_items nil = false
    secret_items (cons x xs) = has_secret x || secret_items xs

    pub secret_fields : Dict → Bool
    secret_fields end = false
    secret_fields (field k v d) = is_secret k || has_secret v || secret_fields d

unfoldable pub reject_secrets : Json → Checked Unit
reject_secrets value =
    raise_if (has_secret is_secret_key no_text value) (failure "secret-shaped key")

-- `reject_secret_keys` of the apply scripts
unfoldable pub reject_secret_keys : Json → Checked Unit
reject_secret_keys value =
    raise_if (has_secret is_private_key no_text value) (failure "secret-shaped key")

nested_token :
    has_secret is_secret_key no_text
      (obj (dict (("a", arr (cons (obj (dict (("apiToKen", null) ∷ []))) nil)) ∷ [])))
    ≡ true
unfolding has_secret is_secret_key
nested_token = refl

private_keys :
    (is_private_key "clientIP" ≡ true)
    × (is_private_key "ipAddress" ≡ false)
    × (is_private_key "ip\n" ≡ true)
unfolding is_private_key
private_keys = (refl, refl, refl)
