-- ===== src/Vectors/Columns.antt =====
-- A column of the slots that is computed from another.
use aether_engine.Prelude.{
  ℕ, zero, suc, ◌≡◌, refl, ap, List, [], ◌∷◌, ◌++◌, map, some, nat_eq, string_eq, list_eq, length,
  get_elem?, set, arith,
}

module _ {A : Type 0} {B : Type 0} (f : A → B) where
  pub map-set : (xs : List A) (i : ℕ) (x : A) → map f (set xs i x) ≡ set (map f xs) i (f x)
  map-set [] i x = refl
  map-set (y ∷ xs) zero x = refl
  map-set (y ∷ xs) (suc i) x = ap (λ l. f y ∷ l) (map-set xs i x)

  pub map-append_end : (xs : List A) (x : A) → map f (xs ++ x ∷ []) ≡ map f xs ++ f x ∷ []
  map-append_end [] x = refl
  map-append_end (y ∷ xs) x = ap (λ l. f y ∷ l) (map-append_end xs x)

  pub length-map : (xs : List A) → length (map f xs) ≡ length xs
  length-map [] = refl
  length-map (y ∷ xs) = ap suc (length-map xs)

  pub get_elem?-map :
      (xs : List A) (i : ℕ) (x : A) → get_elem? xs i ≡ some x → get_elem? (map f xs) i ≡ some (f x)
  get_elem?-map [] i x h = cc h
  get_elem?-map (y ∷ xs) zero x h = ground (arith, h)
  get_elem?-map (y ∷ xs) (suc i) x h = get_elem?-map xs i x h

  -- An element that the function takes to what was there.
  pub map-set_same :
      (xs : List A) (i : ℕ) (x : A)
      → get_elem? (map f xs) i ≡ some (f x)
      → map f (set xs i x) ≡ map f xs
  map-set_same [] i x h = refl
  map-set_same (y ∷ xs) zero x h = ground (arith, h)
  map-set_same (y ∷ xs) (suc i) x h = ap (λ l. f y ∷ l) (map-set_same xs i x h)
