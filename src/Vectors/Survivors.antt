-- ===== src/Vectors/Survivors.antt =====
-- The vector index against the map of the aircraft that were inserted last and not removed since.
use aether_engine.Prelude.{
  ℕ, ◌+◌, ◌<◌, ◌≤◌, ◌≡◌, refl, String, Bool, true, List, [], ◌∷◌, map, Option, some, if◌then◌else◌,
  nat_eq, string_eq, list_eq, ◌==◌, length, arith, All, subst,
}
use aether_engine.Prelude.HashMap
use aether_engine.Prelude.HashMap.{
  HashMap, get, get-insert, get-remove, get_same, Distinct, remove-Distinct, insert-Distinct,
  length-insert, length-remove, remove_absent, weigh, weight, weigh-insert, weigh-remove,
  weigh_agree,
}
use aether_engine.Prelude.HashSet.{contains}
use aether_engine.Filter.{FlightDocument}
use aether_engine.Quant.{quantize}
use aether_engine.Index.{slot}
use aether_engine.Index.Rows.{Rows, put-Rows}
use aether_engine.Index.Corpus.{weigh_slots}
use aether_engine.Vectors.{Space, VectorIndex, embeddable_text, new}
use aether_engine.Vectors.Slots.{shade}

module _ {Real : Type 0} (space : Space Real) where
  open space use {floats, embed, Graph, insert_point, ids, ids_empty, ids_insert}
  open floats use {Float}

  abbrev pub Doc : Type 0
  Doc = FlightDocument Real

  abbrev pub slots : VectorIndex space → List (Option Doc)
  slots idx = shade idx.tombstoned 0 idx.docs

  -- The index holds exactly the aircraft of the map, each with the vector of its text.
  pub record Holds (idx : VectorIndex space) (m : HashMap String Doc) : Type 0 where
    pub rows : Rows (λ d. d.icao24) (slots idx) idx.by_key m
    pub stocked : (w : Doc → ℕ) → weigh_slots w (slots idx) ≡ weigh w m
    pub once : Distinct m
    pub keys_once : Distinct idx.by_key
    pub counted : length idx.by_key ≡ length m
    pub worded : idx.texts ≡ map embeddable_text idx.docs
    pub embedded : idx.slot_vectors ≡ map embed idx.texts
    pub compressed : idx.quantized ≡ map (quantize floats) idx.slot_vectors
    pub buried : (i : ℕ) → contains idx.tombstoned i ≡ true → i < length idx.docs
    pub pointed : All (λ i. i < length idx.docs) (ids idx.hnsw)

  pub new-Holds : (on : Bool) → Holds (record (new space) { quantized_mode = on }) []
  unfolding new slot get contains
  new-Holds on = record {
    rows = record {
      reads = λ k. refl;
      keyed = λ i d h. cc h;
      lived = λ k i h. cc h;
      named = λ k d h. cc h;
    };
    stocked = λ w. unfold weigh weigh_slots in refl;
    once = tt;
    keys_once = tt;
    counted = refl;
    worded = refl;
    embedded = refl;
    compressed = refl;
    buried = λ i h. cc h;
    pointed = rw (ids_empty) tt;
  }

  pub weaken : (i n : ℕ) (is : List ℕ) → i ≤ n → All (λ j. j < i) is → All (λ j. j < n) is
  weaken i n [] h a = tt
  weaken i n (j ∷ is) h a = (omega (arith, h, a.0), weaken i n is h a.1)

  module _ (idx : VectorIndex space) (m : HashMap String Doc) (h : Holds idx m) (doc : Doc) where
    abbrev put : HashMap String Doc
    put = HashMap.insert m doc.icao24 doc

    -- The document in the slot of its aircraft, or in one that held none if it has none.
    pub put-Holds :
        (idx' : VectorIndex space) (id : ℕ)
        → slot (slots idx) id ≡ get m doc.icao24
        → ((j : ℕ) → slot (slots idx') j ≡ (if id == j then some doc else slot (slots idx) j))
        → ((k : String)
            → get idx'.by_key k ≡ (if doc.icao24 == k then some id else get idx.by_key k))
        → ((w : Doc → ℕ)
            → weigh_slots w (slots idx') + weight w (get m doc.icao24)
              ≡ weigh_slots w (slots idx) + w doc)
        → Distinct idx'.by_key
        → length idx'.by_key ≡ length put
        → (idx'.texts ≡ map embeddable_text idx'.docs)
          × (idx'.slot_vectors ≡ map embed idx'.texts)
          × (idx'.quantized ≡ map (quantize floats) idx'.slot_vectors)
        → idx'.tombstoned ≡ idx.tombstoned
        → length idx.docs ≤ length idx'.docs
        → All (λ i. i < length idx'.docs) (ids idx'.hnsw)
        → Holds idx' put
    put-Holds idx' id c s b stock keys_once counted aligned same grown pointed = record {
      rows = put-Rows h.rows (slots idx') idx'.by_key id doc s b c;
      stocked = λ w. omega (arith, h.stocked w, stock w, weigh-insert w m doc.icao24 doc);
      once = insert-Distinct m doc.icao24 doc h.once;
      keys_once = keys_once;
      counted = counted;
      worded = aligned.0;
      embedded = aligned.1;
      compressed = aligned.2;
      buried = λ i f. omega (arith, grown, h.buried i (subst (λ t. contains t i ≡ true) same f));
      pointed = pointed;
    }
