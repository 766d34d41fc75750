-- ===== src/Base/Lists.antt =====
-- Lists: length over the native numbers, the tests `all` and `any`, a predicate of every item.
use Prim.Native.Nat.{ℕ, suc}
use mathlib.Core.Path.{◌≡◌, refl, sym, subst}
use mathlib.Core.Logic.{◌⊎◌, inl, inr}
use mathlib.Core.Bool.{Bool, true, false, ◌&&◌, ◌||◌}
use mathlib.Core.List.{List, [], ◌∷◌, ◌++◌}
use native.Mathlib.Omega.{arith}

module _ {ℓ} {A : Type ℓ} where
  abbrev pub length : List A → ℕ
  length [] = 0
  length (x ∷ xs) = suc (length xs)

  -- Python's `all(p(x) for x in xs)`
  abbrev pub all : (A → Bool) → List A → Bool
  all p [] = true
  all p (x ∷ xs) = p x && all p xs

  -- Python's `any(p(x) for x in xs)`
  abbrev pub any : (A → Bool) → List A → Bool
  any p [] = false
  any p (x ∷ xs) = p x || any p xs

  abbrev pub is_empty : List A → Bool
  is_empty [] = true
  is_empty (x ∷ xs) = false

  pub all-append :
      (p : A → Bool) (xs ys : List A)
      → all p (xs ++ ys) ≡ true
      → (all p xs ≡ true) × (all p ys ≡ true)
  all-append p [] ys h = (refl, h)
  all-append p (x ∷ xs) ys h = ground (arith, all-append p xs ys)

module _ {ℓ κ} {A : Type ℓ} where
  abbrev pub All : (A → Type κ) → List A → Type κ
  All P [] = Unit
  All P (x ∷ xs) = P x × All P xs

module _ {A : Type 0} where
  -- One of the items is this value.
  abbrev pub Among : A → List A → Type 0
  Among x [] = ⊥
  Among x (y ∷ ys) = (x ≡ y) ⊎ Among x ys

  pub All-Among : (P : A → Type 0) (x : A) (xs : List A) → All P xs → Among x xs → P x
  All-Among P x [] ps m = elim m [ ]
  All-Among P x (y ∷ ys) (p, ps) (inl e) = subst P (sym e) p
  All-Among P x (y ∷ ys) (p, ps) (inr later) = All-Among P x ys ps later

  -- All of the items are among these.
  abbrev pub AllAmong : List A → List A → Type 0
  AllAmong es xs = All (λ x. Among x es) xs

  AllAmong-cons : (e : A) (es xs : List A) → AllAmong es xs → AllAmong (e ∷ es) xs
  AllAmong-cons e es [] h = tt
  AllAmong-cons e es (x ∷ xs) h = (inr h.0, AllAmong-cons e es xs h.1)

  pub AllAmong-self : (es : List A) → AllAmong es es
  AllAmong-self [] = tt
  AllAmong-self (x ∷ xs) = (inl refl, AllAmong-cons x xs xs (AllAmong-self xs))
