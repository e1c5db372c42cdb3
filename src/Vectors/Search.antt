-- ===== src/Vectors/Search.antt =====
-- crates/shard-node/src/vector.rs: the three searches. `none` is a panic.
use aether_engine.Prelude.{
  ℕ, ◌+◌, ◌*◌, ◌%◌, ◌^◌, Bool, true, false, ◌||◌, List, [], ◌∷◌, Option, none, some, if◌then◌else◌,
  nat_eq, ◌==◌, leb, length, get_elem?, take, is_empty,
}
use aether_engine.Prelude.HashSet.{contains}
use aether_engine.Prelude.Sort.{sort}
use aether_engine.Registry.State.{string_le}
use aether_engine.Filter.{FlightDocument}
use aether_engine.Quant.{QuantizedVector, quantize, hamming, oversample}
use aether_engine.Vectors.{Space, VectorIndex}

abbrev pub ef_search : ℕ
ef_search = 64

abbrev pub flat_search_threshold : ℕ
flat_search_threshold = 256

abbrev pub min : ℕ → ℕ → ℕ
min m n = if leb m n then m else n

abbrev pub max : ℕ → ℕ → ℕ
max m n = if leb m n then n else m

-- How many neighbours the graph is asked for.
unfoldable pub fetch : ℕ → ℕ → ℕ
fetch k total = max (min (min (k * 2 % 2 ^ 64) ((k + 32) % 2 ^ 64)) total) (min k total)

module _ {Real : Type 0} (space : Space Real) where
  open space use {floats, widen, one_minus, exceeds, neighbours, sort_unstable}
  open floats use {Float, zero_float, add, mul}

  -- `crates/common/src/embed.rs`, with the sum so far.
  unfoldable pub dot_from : Float → List Float → List Float → Float
  dot_from sum [] w = sum
  dot_from sum (x ∷ v) [] = sum
  dot_from sum (x ∷ v) (y ∷ w) = dot_from (add sum (mul x y)) v w

  abbrev pub dot : List Float → List Float → Float
  dot v w = dot_from zero_float v w

  pub record VectorHit : Type 0 where
    pub doc : FlightDocument Real
    pub score : Real

  -- The comparison of `sort_by` is not `Greater`.
  unfoldable pub hit_before : VectorHit → VectorHit → Bool
  hit_before x y =
      if exceeds x.score y.score
      then true
      else if exceeds y.score x.score
      then false
      else string_le x.doc.icao24 y.doc.icao24

  -- The slots from `i` on that are not tombstoned, with what is scanned there.
  unfoldable pub scan : {V : Type 0} → List ℕ → ℕ → List V → List (V × ℕ)
  scan tombstoned i [] = []
  scan tombstoned i (v ∷ vs) =
      let rest = scan tombstoned (i + 1) vs in if contains tombstoned i then rest else (v, i) ∷ rest

  -- The hits of some slots, with the vectors there.
  unfoldable pub score_slots :
      List (FlightDocument Real) → List Float → List (List Float × ℕ) → Option (List VectorHit)
  unfolding dot_from
  score_slots docs query [] = some []
  score_slots docs query ((vector, slot) ∷ slots) =
      let rest = score_slots docs query slots in
      elim (get_elem? docs slot) [
        | none ↦ none
        | some doc ↦ elim rest [
          | none ↦ none
          | some hits ↦ some (record { doc = doc; score = widen (dot query vector) } ∷ hits)
        ]
      ]

  unfoldable pub search_flat : VectorIndex space → List Float → ℕ → Option (List VectorHit)
  unfolding scan score_slots
  search_flat idx query k =
      elim (score_slots idx.docs query (scan idx.tombstoned 0 idx.slot_vectors)) [
        | none ↦ none
        | some hits ↦ some (take k (sort hit_before hits))
      ]

  -- Tier 1: the distances of the compressed forms, with the slots.
  unfoldable pub distances : QuantizedVector Float → List (QuantizedVector Float × ℕ) → List (ℕ × ℕ)
  distances q [] = []
  distances q ((d, slot) ∷ slots) = (hamming q d, slot) ∷ distances q slots

  -- The vectors of the slots that are left.
  unfoldable pub with_vectors : List (List Float) → List (ℕ × ℕ) → Option (List (List Float × ℕ))
  with_vectors vectors [] = some []
  with_vectors vectors ((distance, slot) ∷ slots) =
      let rest = with_vectors vectors slots in
      elim (get_elem? vectors slot) [
        | none ↦ none
        | some vector ↦ elim rest [ none ↦ none | some pairs ↦ some ((vector, slot) ∷ pairs) ]
      ]

  unfoldable pub search_quantized : VectorIndex space → List Float → ℕ → Option (List VectorHit)
  unfolding scan score_slots distances with_vectors
  search_quantized idx query k =
      let candidates = distances (quantize floats query) (scan idx.tombstoned 0 idx.quantized) in
      let keep = min (k * oversample % 2 ^ 64) (length candidates) in
      elim (with_vectors idx.slot_vectors (take keep (sort_unstable candidates))) [
        | none ↦ none
        | some pairs ↦ elim (score_slots idx.docs query pairs) [
          | none ↦ none
          | some hits ↦ some (take k (sort hit_before hits))
        ]
      ]

  -- The loop over the neighbours, which stops at `k` hits, of which there are `n` so far.
  unfoldable pub collect_best :
      VectorIndex space → ℕ → ℕ → List ℕ → List (ℕ × Float) → Option (List VectorHit)
  collect_best idx k n seen [] = some []
  collect_best idx k n seen ((id, distance) ∷ found) =
      elim (contains idx.tombstoned id || contains seen id) [
        | true ↦ collect_best idx k n seen found
        | false ↦ elim (get_elem? idx.docs id) [
          | none ↦ none
          | some doc ↦
              let hit : VectorHit = record { doc = doc; score = one_minus distance } in
              elim (n + 1 == k) [
                | true ↦ some (hit ∷ [])
                | false ↦ elim (collect_best idx k (n + 1) (id ∷ seen) found) [
                  | none ↦ none
                  | some hits ↦ some (hit ∷ hits)
                ]
              ]
        ]
      ]

  unfoldable pub search_hnsw : VectorIndex space → List Float → ℕ → Option (List VectorHit)
  unfolding collect_best fetch
  search_hnsw idx query k =
      let wanted = fetch k idx.vectors_total in
      collect_best idx k 0 [] (neighbours idx.hnsw query wanted (max ef_search wanted))

  unfoldable pub search : VectorIndex space → List Float → ℕ → Option (List VectorHit)
  unfolding search_flat search_quantized search_hnsw
  search idx query k =
      if k == 0 || is_empty idx.by_key
      then some []
      else if idx.quantized_mode
      then search_quantized idx query k
      else if leb (length idx.docs) flat_search_threshold
      then search_flat idx query k
      else search_hnsw idx query k
