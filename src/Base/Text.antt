-- ===== src/Base/Text.antt =====
-- Python's text functions that the source uses: `str.strip`, `int(str)` on ASCII digits, the
-- three-letter currency test, and `IDENTIFIER` of scripts/company_postgres_service.py.
use Prim.Native.Nat.{ℕ, zero, suc, ◌+◌, ◌-◌, ◌*◌}
use Prim.Native.Char.{code}
use Prim.Native.String.{String, char_at}
use mathlib.Core.Bool.{Bool, true, false, not, ◌&&◌, ◌||◌}
use mathlib.Core.Option.{Option, none, some}
use mathlib.Core.Path.{◌≡◌, refl, ap, ◌∙◌}
use mathlib.Core.Logic.{inl, inr}
use native.Mathlib.Omega.{arith}
use moonproj.Base.Tests.{Bool-cases, leb, eqb, if◌then◌else◌}
use moonproj.Base.Int.{ℤ, pos, negsuc}

abbrev pub chars : String → ℕ
chars String.[] = 0
chars (String.◌∷◌ c s) = suc (chars s)

abbrev pub is_nil : String → Bool
is_nil String.[] = true
is_nil (String.◌∷◌ c s) = false

abbrev between : ℕ → ℕ → ℕ → Bool
between lo hi c = leb lo c && leb c hi

-- `str.isspace` of one character
unfoldable pub is_space : ℕ → Bool
is_space c =
    between 9 13 c
    || between 28 32 c
    || eqb c 133
    || eqb c 160
    || eqb c 5760
    || between 8192 8202 c
    || eqb c 8232
    || eqb c 8233
    || eqb c 8239
    || eqb c 8287
    || eqb c 12288

trim_start : String → String
trim_start String.[] = String.[]
trim_start (String.◌∷◌ c s) =
    let rest = trim_start s in if is_space (code c) then rest else String.◌∷◌ c s

trim_end : String → String
trim_end String.[] = String.[]
trim_end (String.◌∷◌ c s) =
    let rest = trim_end s in
    if is_nil rest && is_space (code c) then String.[] else String.◌∷◌ c rest

-- `str.strip()`
unfoldable pub strip : String → String
unfolding trim_start trim_end is_space
strip s = trim_end (trim_start s)

unfoldable pub all_chars : (ℕ → Bool) → String → Bool
all_chars p String.[] = true
all_chars p (String.◌∷◌ c s) = p (code c) && all_chars p s

unfoldable pub identifier_char : ℕ → Bool
identifier_char c =
    between b'A' b'Z' c
    || between b'a' b'z' c
    || between b'0' b'9' c
    || eqb c b'_'
    || eqb c b'.'
    || eqb c b':'
    || eqb c b'-'

-- `IDENTIFIER.fullmatch(s)`
unfoldable pub is_identifier : String → Bool
unfolding all_chars identifier_char
is_identifier s = leb 1 (chars s) && leb (chars s) 128 && all_chars identifier_char s

-- `re.fullmatch(r"[A-Z]{3}", s)`
unfoldable pub is_currency : String → Bool
unfolding all_chars
is_currency s = eqb (chars s) 3 && all_chars (between b'A' b'Z') s

-- The digits of `int(str)`: an underscore may stand between two digits.
parse_digits : Bool → ℕ → String → Option ℕ
parse_digits seen acc String.[] = if seen then some acc else none
parse_digits seen acc (String.◌∷◌ c s) =
    let digit : Bool = between b'0' b'9' (code c) in
    let rest = parse_digits digit (if digit then acc * 10 + (code c - b'0') else acc) s in
    if digit || (eqb (code c) b'_' && seen) then rest else none

abbrev negated : Option ℕ → Option ℤ
negated none = none
negated (some zero) = some (pos 0)
negated (some (suc n)) = some (negsuc n)

abbrev positive : Option ℕ → Option ℤ
positive none = none
positive (some n) = some (pos n)

signed : String → Option ℤ
unfolding parse_digits
signed String.[] = none
signed (String.◌∷◌ c s) =
    if eqb (code c) b'-'
    then negated (parse_digits false 0 s)
    else if eqb (code c) b'+'
    then positive (parse_digits false 0 s)
    else positive (parse_digits false 0 (String.◌∷◌ c s))

-- `int(s)`; `none` is its ValueError.
unfoldable pub parse_int : String → Option ℤ
unfolding signed strip
parse_int s = signed (strip s)

-- `str.upper()` on ASCII text, the only text that the source applies it to.
unfoldable pub upper : String → String
upper String.[] = String.[]
upper (String.◌∷◌ c s) =
    let rest = upper s in
    if between b'a' b'z' (code c)
    then String.◌∷◌ (char_at "ABCDEFGHIJKLMNOPQRSTUVWXYZ" (code c - b'a')) rest
    else String.◌∷◌ c rest

-- `str.lower()` on ASCII text; no character outside ASCII has a lower case that the source compares
-- with.
unfoldable pub lower : String → String
lower String.[] = String.[]
lower (String.◌∷◌ c s) =
    let rest = lower s in
    if between b'A' b'Z' (code c)
    then String.◌∷◌ (char_at "abcdefghijklmnopqrstuvwxyz" (code c - b'A')) rest
    else String.◌∷◌ c rest

trim_start-visible : (s : String) → all_chars (λ c. not (is_space c)) s ≡ true → trim_start s ≡ s
unfolding trim_start all_chars
trim_start-visible String.[] h = refl
trim_start-visible (String.◌∷◌ c s) h = ground arith

and_false : (b : Bool) → (b && false) ≡ false
and_false b = ground arith

trim_end-visible : (s : String) → all_chars (λ c. not (is_space c)) s ≡ true → trim_end s ≡ s
unfolding trim_end all_chars
trim_end-visible String.[] h = refl
trim_end-visible (String.◌∷◌ c s) h = elim (Bool-cases (is_space (code c))) [
  | inl space ↦ absurd (cc (rw space at h))
  | inr other ↦ rw (trim_end-visible s (rw other at h), other, and_false (is_nil s))
]

pub all_chars_mono :
    (p q : ℕ → Bool) (s : String)
    → ((c : ℕ) → p c ≡ true → q c ≡ true)
    → all_chars p s ≡ true
    → all_chars q s ≡ true
unfolding all_chars
all_chars_mono p q String.[] sub h = refl
all_chars_mono p q (String.◌∷◌ c s) sub h = ground (arith, sub (code c), all_chars_mono p q s sub)

identifier_char-visible : (c : ℕ) → identifier_char c ≡ true → not (is_space c) ≡ true
unfolding identifier_char is_space
identifier_char-visible c h = ground arith

pub identifier-chars : (s : String) → is_identifier s ≡ true → all_chars identifier_char s ≡ true
unfolding is_identifier
identifier-chars s h = ground arith

-- An identifier has no blanks to strip.
pub strip-identifier : (s : String) → is_identifier s ≡ true → strip s ≡ s
unfolding strip
strip-identifier s h =
    let each = identifier-chars s h in
    let visible =
      all_chars_mono identifier_char (λ c. not (is_space c)) s identifier_char-visible each in
    ap trim_end (trim_start-visible s visible) ∙ trim_end-visible s visible
