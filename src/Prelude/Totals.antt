-- ===== src/Prelude/Totals.antt =====
-- Sums over lists, and what they say of a permutation and of a part of a list.
use Prim.Native.Nat.{ℕ, zero, suc, ◌+◌, ◌≤◌}
use mathlib.Core.Path.{◌≡◌, refl, ap, ◌∙◌}
use mathlib.Core.Bool.{Bool, true}
use mathlib.Core.List.{List, [], ◌∷◌, map, Perm, Permᴰ}
use mathlib.Core.Logic.{∥∥₁_elim}
use native.Mathlib.Nat.{ℕ_set}
use native.Mathlib.Omega.{arith}
use aether_engine.Prelude.Tests.{if◌then◌else◌}
use aether_engine.Prelude.Lists.{take, All}

-- The sum of a measure over a list.
abbrev pub total : {A : Type 0} → (A → ℕ) → List A → ℕ
total w [] = 0
total w (x ∷ xs) = w x + total w xs

module _ {A : Type 0} (w : A → ℕ) where
  total-Permᴰ : {xs ys : List A} → Permᴰ xs ys → total w xs ≡ total w ys
  total-Permᴰ Permᴰ.nil = refl
  total-Permᴰ (Permᴰ.cons e p) = omega (arith, ap w e, total-Permᴰ p)
  total-Permᴰ (Permᴰ.swap e d) = omega (arith, ap w e, ap w d)
  total-Permᴰ (Permᴰ.trans p q) = total-Permᴰ p ∙ total-Permᴰ q

  pub total-Perm : {xs ys : List A} → Perm xs ys → total w xs ≡ total w ys
  total-Perm {xs} {ys} p = ∥∥₁_elim p (ℕ_set (total w xs) (total w ys)) total-Permᴰ

  pub total-take_le : (n : ℕ) (xs : List A) → total w (take n xs) ≤ total w xs
  total-take_le zero xs = omega arith
  total-take_le (suc n) [] = omega arith
  total-take_le (suc n) (x ∷ xs) = omega (arith, total-take_le n xs)

  pub total-map :
      {B : Type 0} (f : B → A) (ys : List B) → total w (map f ys) ≡ total (λ y. w (f y)) ys
  total-map f [] = refl
  total-map f (y ∷ ys) = omega (arith, total-map f ys)

module _ {A : Type 0} (p : A → Bool) where
  -- How many elements fail a test.
  abbrev pub failing : A → ℕ
  failing x = if p x then 0 else 1

  pub All-failing : (xs : List A) → All (λ x. p x ≡ true) xs → total failing xs ≡ 0
  All-failing [] a = refl
  All-failing (x ∷ xs) a = ground (arith, a.0, All-failing xs a.1)

  pub failing-All : (xs : List A) → total failing xs ≡ 0 → All (λ x. p x ≡ true) xs
  failing-All [] e = tt
  failing-All (x ∷ xs) e = (ground (arith, e), failing-All xs (omega (arith, e)))
