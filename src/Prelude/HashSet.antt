-- ===== src/Prelude/HashSet.antt =====
-- `std::collections::HashSet` as a list; the code asks only for membership.
use aether_engine.Prelude.Tests.{if◌then◌else◌}
use aether_engine.Prelude.Keys.{Key, ◌==◌}
use mathlib.Core.Path.{◌≡◌, refl, ap}
use mathlib.Core.Bool.{Bool, true, false, not, ◌&&◌, ◌||◌}
use mathlib.Core.List.{List, [], ◌∷◌}
use native.Mathlib.Omega.{arith}

module _ {A : Type 0} ⦃e : Key A⦄ where
  unfoldable pub contains : List A → A → Bool
  contains [] a = false
  contains (x ∷ xs) a = x == a || contains xs a

  unfoldable pub insert : List A → A → List A
  unfolding contains
  insert xs a = if contains xs a then xs else a ∷ xs

  unfoldable pub remove : List A → A → List A
  remove [] a = []
  remove (x ∷ xs) a = if x == a then remove xs a else x ∷ remove xs a

  -- `iter.into_iter().collect()` into a set.
  unfoldable pub collect : List A → List A
  unfolding insert
  collect [] = []
  collect (x ∷ xs) = insert (collect xs) x

  contains_cong : (xs : List A) (a b : A) → (a == b) ≡ true → contains xs a ≡ contains xs b
  contains_cong xs a b h = ap (contains xs) ((e.same_iff a b).0 h)

  pub contains-insert :
      (xs : List A) (a b : A) → contains (insert xs a) b ≡ (a == b || contains xs b)
  unfolding insert
  contains-insert xs a b = ground (arith, contains_cong xs a b)

  pub contains-remove :
      (xs : List A) (a b : A) → contains (remove xs a) b ≡ (not (a == b) && contains xs b)
  unfolding contains remove
  contains-remove [] a b = ground arith
  contains-remove (x ∷ xs) a b =
      ground (arith, contains-remove xs a b, e.same_iff x a, e.same_iff x b, e.same_iff a b)

  pub contains-collect : (xs : List A) (a : A) → contains (collect xs) a ≡ contains xs a
  unfolding contains collect
  contains-collect [] a = refl
  contains-collect (x ∷ xs) a =
      ground (arith, contains-collect xs a, contains-insert (collect xs) x a)

  -- Two lists that stand for one set.
  abbrev pub SameSet : List A → List A → Type 0
  SameSet xs ys = (a : A) → contains xs a ≡ contains ys a
