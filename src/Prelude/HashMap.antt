-- ===== src/Prelude/HashMap.antt =====
-- `std::collections::HashMap` as an association list whose order is the iteration order. The code
-- relies on no order, and the theorems hold at any.
use aether_engine.Prelude.Tests.{if◌then◌else◌, is_some, Bool-cases}
use aether_engine.Prelude.Lists.{length}
use aether_engine.Prelude.Keys.{Key, ◌==◌, beq→eq, beq_refl}
use Prim.Native.Nat.{ℕ, ◌+◌}
use mathlib.Core.Path.{◌≡◌, refl, ap, subst}
use mathlib.Core.Logic.{◌≢◌, inl, inr}
use mathlib.Core.Bool.{Bool, true}
use mathlib.Core.List.{List, [], ◌∷◌}
use mathlib.Core.Option.{Option, none, some}
use native.Mathlib.Omega.{arith}

abbrev pub HashMap : Type 0 → Type 0 → Type 0
HashMap K V = List (K × V)

module _ {K : Type 0} {V : Type 0} ⦃e : Key K⦄ where
  unfoldable pub get : HashMap K V → K → Option V
  get [] k = none
  get ((j, v) ∷ m) k = if j == k then some v else get m k

  abbrev pub contains_key : HashMap K V → K → Bool
  contains_key m k = is_some (get m k)

  -- A present key keeps its place.
  unfoldable pub insert : HashMap K V → K → V → HashMap K V
  insert [] k v = (k, v) ∷ []
  insert ((j, w) ∷ m) k v = if j == k then (j, v) ∷ m else (j, w) ∷ insert m k v

  unfoldable pub remove : HashMap K V → K → HashMap K V
  remove [] k = []
  remove ((j, w) ∷ m) k = if j == k then remove m k else (j, w) ∷ remove m k

  pub get-insert :
      (m : HashMap K V) (k j : K) (v : V)
      → get (insert m k v) j ≡ (if k == j then some v else get m j)
  unfolding get insert
  get-insert [] k j v = refl
  get-insert ((i, w) ∷ m) k j v =
      ground (arith, e.same_iff k j, e.same_iff i k, e.same_iff i j, get-insert m k j v)

  pub get-remove :
      (m : HashMap K V) (k j : K) → get (remove m k) j ≡ (if k == j then none else get m j)
  unfolding get remove
  get-remove [] k j = ground arith
  get-remove ((i, w) ∷ m) k j =
      ground (arith, e.same_iff k j, e.same_iff i k, e.same_iff i j, get-remove m k j)

  pub get_same : (m : HashMap K V) (j k : K) → (j == k) ≡ true → get m j ≡ get m k
  get_same m j k h = ap (get m) (beq→eq j k h)

  -- No two entries have one key.
  abbrev pub Distinct : HashMap K V → Type 0
  Distinct [] = Unit
  Distinct ((k, v) ∷ m) = (get m k ≡ none) × Distinct m

  pub insert-Distinct : (m : HashMap K V) (k : K) (v : V) → Distinct m → Distinct (insert m k v)
  unfolding insert
  insert-Distinct [] k v d = (unfold get in refl, tt)
  insert-Distinct ((j, w) ∷ m) k v d =
      ground (arith, insert-Distinct m k v d.1, get-insert m k j v, e.same_iff k j, e.same_iff j k)

  pub remove-Distinct : (m : HashMap K V) (k : K) → Distinct m → Distinct (remove m k)
  unfolding remove
  remove-Distinct [] k d = tt
  remove-Distinct ((j, w) ∷ m) k d =
      ground (arith, remove-Distinct m k d.1, get-remove m k j, e.same_iff k j, e.same_iff j k)

  pub length-insert :
      (m : HashMap K V) (k : K) (v : V)
      → length (insert m k v) ≡ (if is_some (get m k) then length m else length m + 1)
  unfolding get insert
  length-insert [] k v = omega arith
  length-insert ((j, w) ∷ m) k v = ground (arith, length-insert m k v)

  -- What holds of every entry.
  abbrev pub AllEntries : (K → V → Type 0) → HashMap K V → Type 0
  AllEntries P [] = Unit
  AllEntries P ((k, v) ∷ m) = P k v × AllEntries P m

  pub get-AllEntries :
      (P : K → V → Type 0) (m : HashMap K V) (k : K) (v : V)
      → AllEntries P m
      → get m k ≡ some v
      → P k v
  unfolding get
  get-AllEntries P [] k v a h = cc
  get-AllEntries P ((j, w) ∷ m) k v a h = elim (Bool-cases (j == k)) [
    | inl same ↦ ground (arith, beq→eq j k same)
    | inr other ↦ get-AllEntries P m k v a.1 (ground arith)
  ]

  pub insert-AllEntries :
      (P : K → V → Type 0) (m : HashMap K V) (k : K) (v : V)
      → AllEntries P m
      → P k v
      → AllEntries P (insert m k v)
  unfolding insert
  insert-AllEntries P [] k v a p = (p, tt)
  insert-AllEntries P ((j, w) ∷ m) k v a p =
      ground (arith, beq→eq j k, insert-AllEntries P m k v a.1 p)

  pub remove-AllEntries :
      (P : K → V → Type 0) (m : HashMap K V) (k : K) → AllEntries P m → AllEntries P (remove m k)
  unfolding remove
  remove-AllEntries P [] k a = tt
  remove-AllEntries P ((j, w) ∷ m) k a = ground (arith, remove-AllEntries P m k a.1)

  pub insert-insert : (m : HashMap K V) (k : K) (v w : V) → insert (insert m k v) k w ≡ insert m k w
  unfolding insert
  insert-insert [] k v w = ground (arith, e.same_iff k k)
  insert-insert ((j, u) ∷ m) k v w = ground (arith, insert-insert m k v w)

  pub get-insert_self : (m : HashMap K V) (k : K) (v : V) → get (insert m k v) k ≡ some v
  get-insert_self m k v = rw (get-insert m k k v, beq_refl k)

  pub get-insert_ne : (m : HashMap K V) (k j : K) (v : V) → k ≢ j → get (insert m k v) j ≡ get m j
  get-insert_ne m k j v h = ground (arith, get-insert m k j v, e.same_iff k j)

  -- A key that is not there leaves the map as it is.
  pub remove_absent : (m : HashMap K V) (k : K) → get m k ≡ none → remove m k ≡ m
  unfolding get remove
  remove_absent [] k h = refl
  remove_absent ((j, w) ∷ m) k h = ground (arith, remove_absent m k)

  pub length-remove :
      (m : HashMap K V) (k : K)
      → Distinct m
      → length (remove m k) + (if is_some (get m k) then 1 else 0) ≡ length m
  unfolding get remove
  length-remove [] k d = omega arith
  length-remove ((j, w) ∷ m) k d = elim (Bool-cases (j == k)) [
    | inl same ↦
        let gone : get m k ≡ none = subst (λ i. get m i ≡ none) (beq→eq j k same) d.0 in
        ground (arith, remove_absent m k gone)
    | inr other ↦ ground (arith, length-remove m k d.1)
  ]

-- The sum of a measure over the values of a map.
module _ {K : Type 0} {V : Type 0} (w : V → ℕ) where
  unfoldable pub weigh : HashMap K V → ℕ
  weigh [] = 0
  weigh ((k, v) ∷ m) = w v + weigh m

-- What the value of a key contributes.
abbrev pub weight : {V : Type 0} → (V → ℕ) → Option V → ℕ
weight w none = 0
weight w (some v) = w v

module _ {K : Type 0} {V : Type 0} ⦃e : Key K⦄ (w : V → ℕ) where
  pub weigh-insert :
      (m : HashMap K V) (k : K) (v : V)
      → weigh w (insert m k v) + weight w (get m k) ≡ weigh w m + w v
  unfolding weigh insert get
  weigh-insert [] k v = omega arith
  weigh-insert ((j, u) ∷ m) k v = ground (arith, weigh-insert m k v)

  pub weigh-remove :
      (m : HashMap K V) (k : K) → Distinct m → weigh w (remove m k) + weight w (get m k) ≡ weigh w m
  unfolding weigh remove get
  weigh-remove [] k d = omega arith
  weigh-remove ((j, u) ∷ m) k d =
      ground (arith, weigh-remove m k d.1, remove_absent m k, get_same m j k, d.0)

  -- Two maps that read the same have the same sums.
  pub weigh_agree :
      (m n : HashMap K V)
      → Distinct m
      → Distinct n
      → ((k : K) → get m k ≡ get n k)
      → weigh w m ≡ weigh w n
  unfolding weigh get
  weigh_agree [] [] d c e = refl
  weigh_agree [] ((k, v) ∷ n) d c e = ground (arith, e k, beq_refl k)
  weigh_agree ((k, v) ∷ m) n d c e =
      let rest =
        weigh_agree m (remove n k) d.1 (remove-Distinct n k c)
          (λ j. ground (arith, e j, get-remove n k j, d.0, get_same m k j)) in
      let here : get n k ≡ some v = ground (arith, e k, beq_refl k) in
      omega (arith, rest, weigh-remove n k c, ap (weight w) here)
