-- ===== src/Service/Pool/Sessions.antt =====
-- Lists of sessions: how often a session stands in one, after a removal and an addition.
use moonproj.Base.{
  length, eqb, some-eq, Bool-cases, ℕ, suc, ◌+◌, ◌≡◌, refl, subst, ◌⊎◌, inl, inr, Option, none,
  some, List, [], ◌∷◌, ◌++◌, arith, if◌then◌else◌,
}
use moonproj.Service.Pool.{kept, remove}

-- How often a session stands in a list.
abbrev pub occurrences : ℕ → List ℕ → ℕ
occurrences n [] = 0
occurrences n (x ∷ xs) = let rest = occurrences n xs in if eqb x n then suc rest else rest

pub length-snoc : (xs : List ℕ) (s : ℕ) → length (xs ++ (s ∷ [])) ≡ length xs + 1
length-snoc [] s = refl
length-snoc (x ∷ xs) s = ground (arith, length-snoc xs s)

pub occurrences-snoc :
    (n : ℕ) (xs : List ℕ) (s : ℕ)
    → occurrences n (xs ++ (s ∷ [])) ≡ occurrences n xs + (if eqb s n then 1 else 0)
occurrences-snoc n [] s = ground arith
occurrences-snoc n (x ∷ xs) s = ground (arith, occurrences-snoc n xs s)

-- A session that is removed is the head, or is removed from the tail.
remove-cases :
    (s x : ℕ) (xs : List ℕ) {ys : List ℕ}
    → remove s (x ∷ xs) ≡ some ys
    → ((x ≡ s) × (xs ≡ ys)) ⊎ ((zs : List ℕ) × (remove s xs ≡ some zs) × (x ∷ zs ≡ ys))
remove-cases s x xs {ys} h = elim (Bool-cases (eqb x s)) [
  | inl same ↦ inl (ground arith, some-eq (rw same at h))
  | inr other ↦ inr (tail (remove s xs) refl (rw other at h))
]
  where
    tail :
        (o : Option (List ℕ))
        → remove s xs ≡ o
        → kept x o ≡ some ys
        → (zs : List ℕ) × (remove s xs ≡ some zs) × (x ∷ zs ≡ ys)
    tail none e k = absurd (cc k)
    tail (some zs) e k = (zs, e, some-eq k)

pub remove-length :
    (s : ℕ) (xs : List ℕ) {ys : List ℕ} → remove s xs ≡ some ys → length xs ≡ length ys + 1
remove-length s [] h = absurd (cc h)
remove-length s (x ∷ xs) {ys} h = elim (remove-cases s x xs h) [
  | inl (same, e) ↦ subst (λ l. suc (length xs) ≡ length l + 1) e (omega arith)
  | inr (zs, found, e) ↦
      let shorter = remove-length s xs found in
      subst (λ l. suc (length xs) ≡ length l + 1) e (omega arith)
]

pub remove-occurrences :
    (n s : ℕ) (xs : List ℕ) {ys : List ℕ}
    → remove s xs ≡ some ys
    → occurrences n xs ≡ occurrences n ys + (if eqb s n then 1 else 0)
remove-occurrences n s [] h = absurd (cc h)
remove-occurrences n s (x ∷ xs) {ys} h = elim (remove-cases s x xs h) [
  | inl (same, e) ↦
      subst (λ l. occurrences n (x ∷ xs) ≡ occurrences n l + (if eqb s n then 1 else 0)) e
        (ground arith)
  | inr (zs, found, e) ↦
      let shorter = remove-occurrences n s xs found in
      subst (λ l. occurrences n (x ∷ xs) ≡ occurrences n l + (if eqb s n then 1 else 0)) e
        (ground arith)
]
