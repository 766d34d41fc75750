-- ===== src/Service/Exceptions.antt =====
-- The statements of a block of scripts/company_postgres_service.py in sequence: `none` is an exception
-- of PostgreSQL, after which nothing runs.
use moonproj.Base.{ap, ◌∙◌, ◌≡◌, refl, Bool, true, false, Option, none, some}

infixl 5 ◌>>=◌
abbrev pub ◌>>=◌ {ℓ κ} : {A : Type ℓ} {B : Type κ} → Option A → (A → Option B) → Option B
none >>= rest = none
some a >>= rest = rest a

infixl 5 ◌>>◌
abbrev pub ◌>>◌ {κ} : {B : Type κ} → Option (Unit {0}) → Option B → Option B
first >> second = first >>= (λ done. second)

-- `IF test THEN RAISE EXCEPTION`
abbrev pub raise_when : Bool → Option (Unit {0})
raise_when true = none
raise_when false = some tt

-- A statement that does not raise hands over to the rest.
pub then-some {ℓ κ} :
    {A : Type ℓ} {B : Type κ} (step : Option A) (rest : A → Option B) {a : A} {o : Option B}
    → step ≡ some a
    → rest a ≡ o
    → (step >>= rest) ≡ o
then-some step rest e h = ap (λ s. s >>= rest) e ∙ h

-- A block that ends ran each of its statements,
pub >>=-eq-some {ℓ κ} :
    {A : Type ℓ} {B : Type κ} (step : Option A) (rest : A → Option B) {b : B}
    → (step >>= rest) ≡ some b
    → (a : A) × (step ≡ some a) × (rest a ≡ some b)
>>=-eq-some none rest h = absurd (cc h)
>>=-eq-some (some a) rest h = (a, refl, h)

-- and its tests were false.
pub raise_when-eq-some {κ} :
    {B : Type κ} (test : Bool) (rest : Option B) {b : B}
    → (raise_when test >> rest) ≡ some b
    → (test ≡ false) × (rest ≡ some b)
raise_when-eq-some true rest h = absurd (cc h)
raise_when-eq-some false rest h = (refl, h)
