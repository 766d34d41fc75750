-- ===== src/Base/Results.antt =====
-- A function that may raise: `err` carries the exception.
use mathlib.Core.Path.{◌≡◌, refl}
use mathlib.Core.Logic.{◌⊎◌, inl, inr}
use mathlib.Core.Bool.{Bool, true, false}
use moonproj.Base.Tests.{if◌then◌else◌}

pub data Result {ℓ κ} (E : Type ℓ) (A : Type κ) : Type (ℓ ⊔ κ) where
  ok : A → Result E A
  err : E → Result E A

-- The statement after one that has returned; an exception passes by the rest.
infixl 5 ◌>>=◌
abbrev pub ◌>>=◌ {ℓ κ μ} :
    {E : Type ℓ} {A : Type κ} {B : Type μ} → Result E A → (A → Result E B) → Result E B
err exception >>= rest = err exception
ok value >>= rest = rest value

-- `if test: raise e`
abbrev pub raise_if {ℓ} : {E : Type ℓ} → Bool → E → Result E (Unit {0})
raise_if true e = err e
raise_if false e = ok tt

-- Two statements of which the first is made for its exceptions alone.
infixl 5 ◌>>◌
abbrev pub ◌>>◌ {ℓ κ} : {E : Type ℓ} {B : Type κ} → Result E (Unit {0}) → Result E B → Result E B
first >> second = first >>= (λ done. second)

-- `test and later`, where evaluating `later` may raise.
abbrev pub and_then {ℓ} : {E : Type ℓ} → Bool → Result E Bool → Result E Bool
and_then true later = later
and_then false later = ok false

-- A block that returns ran each of its steps.
pub >>=-eq-ok {ℓ κ μ} :
    {E : Type ℓ} {A : Type κ} {B : Type μ} (step : Result E A) (rest : A → Result E B) {answer : B}
    → (step >>= rest) ≡ ok answer
    → (value : A) × (step ≡ ok value) × (rest value ≡ ok answer)
>>=-eq-ok (err exception) rest returned = cc
>>=-eq-ok (ok value) rest returned = (value, refl, returned)

-- A guard that let the block go on was false.
pub raise_if-eq-ok {ℓ κ} :
    {E : Type ℓ} {B : Type κ} (t : Bool) (e : E) (k : Result E B) {b : B}
    → (raise_if t e >> k) ≡ ok b
    → (t ≡ false) × (k ≡ ok b)
raise_if-eq-ok true e k h = cc
raise_if-eq-ok false e k h = (refl, h)

pub ok-injective {ℓ κ} :
    {E : Type ℓ} {A : Type κ} {a b : A} → ◌≡◌ {A = Result E A} (ok a) (ok b) → a ≡ b
ok-injective h = cc

-- A last guard that let the block end was false.
pub raise_if-false {ℓ} :
    {E : Type ℓ} (t : Bool) (e : E) {u : Unit {0}} → raise_if t e ≡ ok u → t ≡ false
raise_if-false true e h = cc
raise_if-false false e h = refl

-- A conditional block that returns ran one of its branches.
pub if-eq-ok {ℓ κ} :
    {E : Type ℓ} {A : Type κ} (t : Bool) (x y : Result E A) {a : A}
    → (if t then x else y) ≡ ok a
    → (x ≡ ok a) ⊎ (y ≡ ok a)
if-eq-ok true x y h = inl h
if-eq-ok false x y h = inr h
