-- ===== src/Vectors.antt =====
-- crates/shard-node/src/vector.rs: the vector index of a shard. `none` is a panic.
pub mod Slots
pub mod Columns
pub mod Survivors
pub mod Insertion
pub mod Removal
pub mod Search
pub mod Scans
pub mod Nearest
pub mod Neighbours
pub mod Histories
pub mod Tests
use aether_engine.Prelude.{
  ℕ, ◌+◌, ◌*◌, ◌%◌, ◌^◌, String, Bool, true, false, not, ◌&&◌, List, [], ◌∷◌, ◌++◌, Option, none,
  some, if◌then◌else◌, nat_eq, string_eq, list_eq, ◌==◌, ltb, leb, length, get_elem?, set, All, In,
  ◌≡◌,
}
use mathlib.Core.List.{Perm}
use aether_engine.Prelude.HashMap
use aether_engine.Prelude.HashMap.{HashMap}
use aether_engine.Prelude.HashSet
use aether_engine.Prelude.Text.{codes}
use aether_engine.Filter.{FlightDocument}
use aether_engine.Quant.{Floats, QuantizedVector, quantize}

-- What the index takes from elsewhere: the embedder, which is any `Embedder`; `hnsw_rs`, of which it
-- relies on this: a search returns only ids that were inserted; `sort_unstable_by_key` by the first
-- component, which promises a permutation; and `f64`.
pub record Space (Real : Type 0) : Type 1 where
  pub floats : Floats
  pub embed : List ℕ → List floats.Float
  pub widen : floats.Float → Real
  pub one_minus : floats.Float → Real
  pub exceeds : Real → Real → Bool
  pub Graph : Type 0
  pub empty_graph : Graph
  pub insert_point : Graph → List floats.Float → ℕ → Graph
  pub neighbours : Graph → List floats.Float → ℕ → ℕ → List (ℕ × floats.Float)
  pub ids : Graph → List ℕ
  pub ids_empty : ids empty_graph ≡ []
  pub ids_insert :
      (g : Graph) (v : List floats.Float) (i : ℕ) → ids (insert_point g v i) ≡ i ∷ ids g
  pub neighbours_inserted :
      (g : Graph) (v : List floats.Float) (k ef : ℕ)
      → All (λ n. In n.0 (ids g)) (neighbours g v k ef)
  pub sort_unstable : List (ℕ × ℕ) → List (ℕ × ℕ)
  pub sort_unstable_perm : (xs : List (ℕ × ℕ)) → Perm (sort_unstable xs) xs

abbrev pub rebuild_min_tombstones : ℕ
rebuild_min_tombstones = 16

-- A space, between the words of an embeddable text.
abbrev pub blank : ℕ
blank = 32

-- The loop over the connector's texts.
unfoldable pub push_texts : List ℕ → HashMap String String → List ℕ
push_texts text [] = text
push_texts text ((field, value) ∷ texts) = push_texts (text ++ blank ∷ codes value) texts

unfoldable pub embeddable_text : {Real : Type 0} → FlightDocument Real → List ℕ
unfolding push_texts
embeddable_text doc =
    push_texts
      (codes doc.callsign
        ++ blank ∷ codes doc.origin
        ++ blank ∷ codes doc.destination
        ++ blank ∷ codes doc.aircraft_type)
      doc.text

module _ {Real : Type 0} (space : Space Real) where
  open space use {floats, embed, Graph, empty_graph, insert_point}
  open floats use {Float}

  pub record VectorIndex : Type 0 where
    pub docs : List (FlightDocument Real)
    pub texts : List (List ℕ)
    pub slot_vectors : List (List Float)
    pub quantized : List (QuantizedVector Float)
    pub quantized_mode : Bool
    pub by_key : HashMap String ℕ
    pub tombstoned : List ℕ
    pub vectors_total : ℕ
    pub hnsw : Graph

  unfoldable pub new : VectorIndex
  new = record {
    docs = [];
    texts = [];
    slot_vectors = [];
    quantized = [];
    quantized_mode = false;
    by_key = [];
    tombstoned = [];
    vectors_total = 0;
    hnsw = empty_graph;
  }

  unfoldable pub len : VectorIndex → ℕ
  len idx = length idx.by_key

  -- A re-observed aircraft.
  unfoldable pub observe : VectorIndex → ℕ → FlightDocument Real → Option VectorIndex
  observe idx slot doc =
      let text = embeddable_text doc in
      let vector = embed text in
      let stored = record idx { docs = set idx.docs slot doc } in
      if ltb slot (length idx.docs)
      then elim (get_elem? idx.texts slot) [
        | none ↦ none
        | some old ↦
            if old == text
            then some stored
            else if ltb slot (length idx.quantized) && ltb slot (length idx.slot_vectors)
            then some (record stored {
              hnsw = insert_point idx.hnsw vector slot;
              vectors_total = idx.vectors_total + 1;
              quantized = set idx.quantized slot (quantize floats vector);
              slot_vectors = set idx.slot_vectors slot vector;
              texts = set idx.texts slot text;
            })
            else none
      ]
      else none

  -- An aircraft that the index does not know.
  unfoldable pub append : VectorIndex → FlightDocument Real → VectorIndex
  append idx doc =
      let text = embeddable_text doc in
      let slot = length idx.docs in
      let vector = embed text in
      record idx {
        hnsw = insert_point idx.hnsw vector slot;
        vectors_total = idx.vectors_total + 1;
        by_key = HashMap.insert idx.by_key doc.icao24 slot;
        quantized = idx.quantized ++ quantize floats vector ∷ [];
        slot_vectors = idx.slot_vectors ++ vector ∷ [];
        docs = idx.docs ++ doc ∷ [];
        texts = idx.texts ++ text ∷ [];
      }

  unfoldable pub insert : VectorIndex → FlightDocument Real → Option VectorIndex
  unfolding observe append
  insert idx doc = elim (HashMap.get idx.by_key doc.icao24) [
    | some slot ↦ observe idx slot doc
    | none ↦ some (append idx doc)
  ]

  -- The documents from slot `i` on whose slots are not tombstoned.
  unfoldable pub live_from : List ℕ → ℕ → List (FlightDocument Real) → List (FlightDocument Real)
  live_from tombstoned i [] = []
  live_from tombstoned i (doc ∷ docs) =
      let rest = live_from tombstoned (i + 1) docs in
      if HashSet.contains tombstoned i then rest else doc ∷ rest

  unfoldable pub insert_all : VectorIndex → List (FlightDocument Real) → Option VectorIndex
  insert_all idx [] = some idx
  insert_all idx (doc ∷ docs) = elim (insert idx doc) [
    | none ↦ none
    | some idx' ↦ insert_all idx' docs
  ]

  unfoldable pub rebuild : VectorIndex → Option VectorIndex
  unfolding live_from insert_all new
  rebuild idx =
      insert_all (record new { quantized_mode = idx.quantized_mode })
        (live_from idx.tombstoned 0 idx.docs)

  -- The test of the ratio is exact: a quarter of a number of documents is an `f64`.
  unfoldable pub is_due : ℕ → ℕ → Bool
  is_due tombstones live =
      leb rebuild_min_tombstones tombstones && leb (if live == 0 then 1 else live) (tombstones * 4)

  unfoldable pub remove : VectorIndex → String → Option (VectorIndex × Bool)
  unfolding is_due
  remove idx icao24 = elim (HashMap.get idx.by_key icao24) [
    | none ↦ some (idx, false)
    | some slot ↦
        let idx' = record idx {
          by_key = HashMap.remove idx.by_key icao24;
          tombstoned = HashSet.insert idx.tombstoned slot;
        } in
        elim (is_due (length idx'.tombstoned) (length idx'.by_key)) [
          | false ↦ some (idx', true)
          | true ↦ elim (rebuild idx') [ none ↦ none | some rebuilt ↦ some (rebuilt, true) ]
        ]
  ]

  unfoldable pub set_quantized : VectorIndex → Bool → VectorIndex
  set_quantized idx on = record idx { quantized_mode = on }
