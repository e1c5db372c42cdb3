-- ===== src/Prelude/Sort.antt =====
-- `slice::sort_by`, a stable sort by a comparison: `le a b` is `cmp(a, b) != Greater`.
use Prim.Native.Nat.{ℕ, zero, suc}
use mathlib.Core.Path.{◌≡◌, refl, ap, ◌∙◌, subst}
use mathlib.Core.Logic.{inl, inr}
use mathlib.Core.Bool.{Bool, true, false, ◌||◌}
use mathlib.Core.List.{List, [], ◌∷◌, Perm}
use mathlib.Core.List.Perm
use native.Mathlib.Omega.{arith}
use aether_engine.Prelude.Tests.{if◌then◌else◌, Bool-cases}
use aether_engine.Prelude.Lists.{length, take, All, any}

module _ {A : Type 0} (le : A → A → Bool) where
  unfoldable pub place : A → List A → List A
  place x [] = x ∷ []
  place x (y ∷ ys) = if le x y then x ∷ y ∷ ys else y ∷ place x ys

  unfoldable pub sort : List A → List A
  unfolding place
  sort [] = []
  sort (x ∷ xs) = place x (sort xs)

  pub place-perm : (x : A) (xs : List A) → Perm (place x xs) (x ∷ xs)
  unfolding place
  place-perm x [] = Perm.refl (x ∷ [])
  place-perm x (y ∷ ys) = elim (Bool-cases (le x y)) [
    | inl e ↦ rw e (Perm.refl (x ∷ y ∷ ys))
    | inr e ↦ rw e (Perm.trans (Perm.cons y (place-perm x ys)) (Perm.swap x y ys))
  ]

  pub sort-perm : (xs : List A) → Perm (sort xs) xs
  unfolding sort
  sort-perm [] = Perm.refl []
  sort-perm (x ∷ xs) = Perm.trans (place-perm x (sort xs)) (Perm.cons x (sort-perm xs))

  pub length-place : (x : A) (xs : List A) → length (place x xs) ≡ suc (length xs)
  unfolding place
  length-place x [] = refl
  length-place x (y ∷ ys) = ground (arith, length-place x ys)

  pub length-sort : (xs : List A) → length (sort xs) ≡ length xs
  unfolding sort
  length-sort [] = refl
  length-sort (x ∷ xs) = length-place x (sort xs) ∙ ap suc (length-sort xs)

  -- Each element comes before all that follow it.
  abbrev pub IsSorted : List A → Type 0
  IsSorted [] = Unit
  IsSorted (x ∷ xs) = All (λ y. le x y ≡ true) xs × IsSorted xs

  pub place-All : (P : A → Type 0) (x : A) (xs : List A) → P x → All P xs → All P (place x xs)
  unfolding place
  place-All P x [] p a = (p, tt)
  place-All P x (y ∷ ys) p a = ground (arith, place-All P x ys p a.1)

  pub sort-All : (P : A → Type 0) (xs : List A) → All P xs → All P (sort xs)
  unfolding sort
  sort-All P [] a = tt
  sort-All P (x ∷ xs) a = place-All P x (sort xs) a.0 (sort-All P xs a.1)

  pub any-place : (p : A → Bool) (x : A) (xs : List A) → any p (place x xs) ≡ (p x || any p xs)
  unfolding any place
  any-place p x [] = refl
  any-place p x (y ∷ ys) = ground (arith, any-place p x ys)

  pub any-sort : (p : A → Bool) (xs : List A) → any p (sort xs) ≡ any p xs
  unfolding any sort
  any-sort p [] = refl
  any-sort p (x ∷ xs) = any-place p x (sort xs) ∙ ap (λ b. p x || b) (any-sort p xs)

module _ {A : Type 0} (le : A → A → Bool) (total : (a b : A) → le a b ≡ false → le b a ≡ true)
    (trans : (a b c : A) → le a b ≡ true → le b c ≡ true → le a c ≡ true) where
  below :
      (x y : A) (ys : List A)
      → le x y ≡ true
      → All (λ z. le y z ≡ true) ys
      → All (λ z. le x z ≡ true) ys
  below x y [] h a = tt
  below x y (z ∷ zs) h a = (trans x y z h a.0, below x y zs h a.1)

  place-IsSorted : (x : A) (xs : List A) → IsSorted le xs → IsSorted le (place le x xs)
  unfolding place
  place-IsSorted x [] s = (tt, tt)
  place-IsSorted x (y ∷ ys) s = elim (Bool-cases (le x y)) [
    | inl e ↦ rw e ((e, below x y ys e s.0), s)
    | inr e ↦
        rw e (place-All le (λ z. le y z ≡ true) x ys (total x y e) s.0, place-IsSorted x ys s.1)
  ]

  pub sort-IsSorted : (xs : List A) → IsSorted le (sort le xs)
  unfolding sort
  sort-IsSorted [] = tt
  sort-IsSorted (x ∷ xs) = place-IsSorted x (sort le xs) (sort-IsSorted xs)

-- Each element is related to the one that follows it.
abbrev pub IsChain : {A : Type 0} → (A → A → Type 0) → List A → Type 0
IsChain R [] = Unit
IsChain R (x ∷ []) = Unit
IsChain R (x ∷ y ∷ ys) = R x y × IsChain R (y ∷ ys)

pub take-IsChain :
    {A : Type 0} (R : A → A → Type 0) (n : ℕ) (xs : List A) → IsChain R xs → IsChain R (take n xs)
take-IsChain R zero xs c = tt
take-IsChain R (suc n) [] c = tt
take-IsChain R (suc n) (x ∷ []) c = alone n
  where
    alone : (n : ℕ) → IsChain R (x ∷ take n [])
    alone zero = tt
    alone (suc n) = tt
take-IsChain R (suc zero) (x ∷ y ∷ ys) c = tt
take-IsChain R (suc (suc n)) (x ∷ y ∷ ys) c = (c.0, take-IsChain R (suc n) (y ∷ ys) c.1)

-- A sort by a comparison that need not be transitive.
module _ {A : Type 0} (le : A → A → Bool) (R : A → A → Type 0)
    (yes : (x y : A) → le x y ≡ true → R x y) (no : (x y : A) → le x y ≡ false → R y x) where
  place-IsChain : (x : A) (ys : List A) → IsChain R ys → IsChain R (place le x ys)
  unfolding place
  place-IsChain x [] c = tt
  place-IsChain x (y ∷ []) c = elim (Bool-cases (le x y)) [
    | inl e ↦ rw e (yes x y e, tt)
    | inr e ↦ rw e (no x y e, tt)
  ]
  place-IsChain x (y ∷ z ∷ zs) c =
      let rest = place-IsChain x (z ∷ zs) c.1 in
      elim (Bool-cases (le x y)) [
        | inl e ↦ rw e (yes x y e, c)
        | inr e ↦ elim (Bool-cases (le x z)) [
          | inl f ↦ rw (e, f) (no x y e, (yes x z f, c.1))
          | inr f ↦
              let tail : IsChain R (z ∷ place le x zs) =
                subst (λ l. IsChain R l) (ap (λ b. if b then x ∷ z ∷ zs else z ∷ place le x zs) f)
                  rest in
              rw (e, f) (c.0, tail)
        ]
      ]

  pub sort-IsChain : (xs : List A) → IsChain R (sort le xs)
  unfolding sort
  sort-IsChain [] = tt
  sort-IsChain (x ∷ xs) = place-IsChain x (sort le xs) (sort-IsChain xs)
