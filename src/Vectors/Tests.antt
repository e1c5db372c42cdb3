-- ===== src/Vectors/Tests.antt =====
-- Runs of the vector index: a text is embedded as the row of its code points.
use aether_engine.Prelude.{
  ℕ, ◌+◌, ◌-◌, ◌*◌, ◌/◌, ◌≡◌, refl, true, false, inl, inr, List, [], ◌∷◌, map, some, All, In, ltb,
  leb, arith,
}
use aether_engine.Prelude.HashMap
use aether_engine.Prelude.HashSet
use aether_engine.Prelude.Sort.{sort, sort-perm}
use aether_engine.Index.Tests.{flight}
use aether_engine.Quant.{Floats, quantize}
use aether_engine.Index.Histories.{Change, inserted, removed, survivors}
use aether_engine.Vectors.{
  Space, VectorIndex, new, set_quantized, insert, remove, is_due, embeddable_text,
}
use aether_engine.Vectors.Search.{VectorHit, search}
use aether_engine.Vectors.Nearest.{IsShown, IsNearest}
use aether_engine.Vectors.Histories.{run, empty, search-IsShown, search-IsNearest}

abbrev pub naturals : Floats
naturals = record {
  Float = ℕ;
  zero_float = 0;
  is_positive = λ x. ltb 0 x;
  add = λ x y. x + y;
  mul = λ x y. x * y;
  abs = λ x. x;
  div_len = λ x n. x / n;
}

pub In-later :
    {A : Type 0} (x : A) (xs ys : List A) → All (λ y. In y xs) ys → All (λ y. In y (x ∷ xs)) ys
In-later x xs [] a = tt
In-later x xs (y ∷ ys) a = (inr a.0, In-later x xs ys a.1)

pub In-self : (xs : List ℕ) → All (λ x. In x xs) xs
In-self [] = tt
In-self (x ∷ xs) = (inl refl, In-later x xs xs (In-self xs))

pub at_distance :
    (ids xs : List ℕ)
    → All (λ x. In x ids) xs
    → All (λ (n : ℕ × ℕ). In n.0 ids) (map (λ x. (x, 0)) xs)
at_distance ids [] a = tt
at_distance ids (x ∷ xs) a = (a.0, at_distance ids xs a.1)

-- A graph that answers every point.
abbrev pub points : Space ℕ
points = record {
  floats = naturals;
  embed = λ text. text;
  widen = λ x. x;
  one_minus = λ x. 1 - x;
  exceeds = λ x y. ltb y x;
  Graph = List ℕ;
  empty_graph = [];
  insert_point = λ g v i. i ∷ g;
  neighbours = λ g v k ef. map (λ i. (i, 0)) g;
  ids = λ g. g;
  ids_empty = refl;
  ids_insert = λ g v i. refl;
  neighbours_inserted = λ g v k ef. at_distance g g (In-self g);
  sort_unstable = sort (λ (x y : ℕ × ℕ). leb x.0 y.0);
  sort_unstable_perm = λ xs. sort-perm (λ (x y : ℕ × ℕ). leb x.0 y.0) xs;
}

-- b2 is observed again with another callsign, and a1 is removed.
abbrev changes : List (Change ℕ)
changes =
    inserted (flight "a1" "U" "")
    ∷ inserted (flight "b2" "D" "")
    ∷ inserted (flight "b2" "E" "")
    ∷ removed "a1"
    ∷ []

search-IsShown_example :
    (idx : VectorIndex points) × (r : List (VectorHit points)) × (run points
        (empty points true)
        changes
      ≡ some idx)
    × (search points idx (1 ∷ []) 3 ≡ some r)
    × IsShown points (survivors changes) 3 r
search-IsShown_example = search-IsShown points true changes (1 ∷ []) 3

abbrev final : VectorIndex points
final = record {
  docs = flight "a1" "U" "" ∷ flight "b2" "E" "" ∷ [];
  texts = embeddable_text (flight "a1" "U" "") ∷ embeddable_text (flight "b2" "E" "") ∷ [];
  slot_vectors = embeddable_text (flight "a1" "U" "") ∷ embeddable_text (flight "b2" "E" "") ∷ [];
  quantized =
      quantize naturals (embeddable_text (flight "a1" "U" ""))
      ∷ quantize naturals (embeddable_text (flight "b2" "E" ""))
      ∷ [];
  quantized_mode = false;
  by_key = ("b2", 1) ∷ [];
  tombstoned = 0 ∷ [];
  vectors_total = 3;
  hnsw = 1 ∷ 1 ∷ 0 ∷ [];
}

reaches_final : run points (empty points false) changes ≡ some final
unfolding run insert remove new set_quantized HashMap.get HashMap.insert HashMap.remove
    HashSet.insert HashSet.contains embeddable_text is_due
reaches_final = refl

search-IsNearest_example :
    (r : List (VectorHit points)) × (search points final (1 ∷ []) 3 ≡ some r)
    × IsNearest points (survivors changes) (1 ∷ []) 3 r
search-IsNearest_example =
    search-IsNearest points false changes (1 ∷ []) 3 final reaches_final (inl (refl, omega arith))
