-- ===== src/Vectors/Insertion.antt =====
-- An insertion into the vector index: a document in the slot of its aircraft, or at the end.
use aether_engine.Prelude.{
  ℕ, ◌+◌, ◌<◌, ◌≡◌, refl, sym, ap, ◌∙◌, String, false, List, [], ◌∷◌, ◌++◌, map, none, some,
  if◌then◌else◌, nat_eq, string_eq, list_eq, ◌==◌, length, get_elem?, set, arith, Option-cases,
  Bool-cases, inl, inr, All, beq→eq, length-append, length-set,
}
use aether_engine.Prelude.HashMap
use aether_engine.Prelude.HashMap.{
  HashMap, get, get-insert, get-remove, get_same, Distinct, remove-Distinct, insert-Distinct,
  length-insert, length-remove, remove_absent, weigh, weight, weigh-insert, weigh-remove,
  weigh_agree,
}
use aether_engine.Prelude.HashSet.{contains}
use aether_engine.Quant.{QuantizedVector, quantize}
use aether_engine.Index.{slot}
use aether_engine.Index.Rows.{found, slot-set, slot-append, slot_past, slot-lt-length}
use aether_engine.Index.Corpus.{weigh_slots, weigh_slots-set, weigh_slots-append}
use aether_engine.Vectors.{Space, VectorIndex, embeddable_text, observe, append, insert}
use aether_engine.Vectors.Slots.{shade, slot-slots, length-shade, shade-set, shade-append}
use aether_engine.Vectors.Columns.{map-set, map-append_end, length-map, get_elem?-map, map-set_same}
use aether_engine.Vectors.Survivors.{Doc, slots, Holds, weaken, put-Holds}

module _ {Real : Type 0} (space : Space Real) where
  open space use {floats, embed, Graph, insert_point, ids, ids_empty, ids_insert}
  open floats use {Float}

  module _ (idx : VectorIndex space) (m : HashMap String (Doc space)) (h : Holds space idx m)
      (doc : Doc space) where
    abbrev put : HashMap String (Doc space)
    put = HashMap.insert m doc.icao24 doc

    module _ (id : ℕ) (p : get idx.by_key doc.icao24 ≡ some id) where
      within : id < length idx.docs
      within =
          let (old, at, own) = h.rows.lived doc.icao24 id p in
          omega (
            arith,
            slot-lt-length (slots space idx) id old at,
            length-shade idx.tombstoned 0 idx.docs,
          )

      there :
          (old : Doc space) × (get_elem? idx.docs id ≡ some old)
          × (contains idx.tombstoned id ≡ false)
      there =
          let (old, at, own) = h.rows.lived doc.icao24 id p in
          (
            old,
            ground (arith, at, slot-slots idx.tombstoned idx.docs id),
            ground (arith, at, slot-slots idx.tombstoned idx.docs id),
          )

      shape : shade idx.tombstoned 0 (set idx.docs id doc) ≡ set (slots space idx) id (some doc)
      shape =
          shade-set idx.tombstoned 0 idx.docs id doc
            (ap (contains idx.tombstoned) (omega arith) ∙ there.2)

      -- Whatever becomes of the vectors, as long as they stay those of the texts.
      stored-Holds :
          (texts : List (List ℕ)) (slot_vectors : List (List Float))
          (quantized : List (QuantizedVector Float)) (vectors_total : ℕ) (hnsw : Graph)
          → let idx' = record idx {
            docs = set idx.docs id doc;
            texts = texts;
            slot_vectors = slot_vectors;
            quantized = quantized;
            vectors_total = vectors_total;
            hnsw = hnsw;
          } in
            (texts ≡ map embeddable_text idx'.docs)
              × (slot_vectors ≡ map embed texts)
              × (quantized ≡ map (quantize floats) slot_vectors)
            → All (λ i. i < length idx.docs) (ids hnsw)
            → Holds space idx' put
      stored-Holds texts slot_vectors quantized vectors_total hnsw aligned pointed =
          let c = found h.rows doc.icao24 id p in
          let inside : id < length (slots space idx) =
            omega (arith, within, length-shade idx.tombstoned 0 idx.docs) in
          let known : get m doc.icao24 ≡ some there.0 =
            sym c ∙ ground (arith, slot-slots idx.tombstoned idx.docs id, there.1, there.2) in
          put-Holds space idx m h doc _ id c
            (λ j. ap (λ l. slot l j) shape ∙ slot-set (slots space idx) id j (some doc) inside)
            (λ k. ground (arith, get_same idx.by_key doc.icao24 k, p))
            (λ w. omega (
              arith,
              ap (weigh_slots w) shape,
              weigh_slots-set w (slots space idx) id (some doc) inside,
              ap (weight w) c,
            ))
            h.keys_once (h.counted ∙ ground (arith, length-insert m doc.icao24 doc, known)) aligned
            refl (omega (arith, length-set idx.docs id doc))
            (weaken space (length idx.docs) (length (set idx.docs id doc)) (ids hnsw)
              (omega (arith, length-set idx.docs id doc)) pointed)

      observe-Holds :
          (idx' : VectorIndex space) × (observe space idx id doc ≡ some idx') × Holds space idx' put
      unfolding observe
      observe-Holds =
          let text = embeddable_text doc in
          let old_text = embeddable_text there.0 in
          let words : get_elem? idx.texts id ≡ some old_text =
            ap (λ l. get_elem? l id) h.worded
            ∙ get_elem?-map embeddable_text idx.docs id there.0 there.1 in
          elim (Bool-cases (old_text == text)) [
            | inl same ↦
                let e = beq→eq old_text text same in
                (
                  record idx { docs = set idx.docs id doc },
                  ground (arith, within, words, same),
                  stored-Holds idx.texts idx.slot_vectors idx.quantized idx.vectors_total idx.hnsw
                      (
                        h.worded
                            ∙ sym (
                                map-set_same embeddable_text idx.docs id doc
                                  (ap (λ l. get_elem? l id) (sym h.worded) ∙ words ∙ ap some e)),
                        h.embedded,
                        h.compressed,
                      )
                      h.pointed,
                )
            | inr other ↦
                let lens1 = ap length h.worded ∙ length-map embeddable_text idx.docs in
                let lens2 = ap length h.embedded ∙ length-map embed idx.texts in
                let lens3 =
                  ap length h.compressed ∙ length-map (quantize floats) idx.slot_vectors in
                let vector = embed text in
                (
                  _,
                  ground (arith, within, words, other, lens1, lens2, lens3),
                  stored-Holds (set idx.texts id text) (set idx.slot_vectors id vector)
                      (set idx.quantized id (quantize floats vector)) (idx.vectors_total + 1)
                      (insert_point idx.hnsw vector id)
                      (
                        ap (λ l. set l id text) h.worded
                            ∙ sym (map-set embeddable_text idx.docs id doc),
                        ap (λ l. set l id vector) h.embedded
                            ∙ sym (map-set embed idx.texts id text),
                        ap (λ l. set l id (quantize floats vector)) h.compressed
                            ∙ sym (map-set (quantize floats) idx.slot_vectors id vector),
                      )
                      (rw (ids_insert idx.hnsw vector id) (within, h.pointed)),
                )
          ]

    append-Holds : get idx.by_key doc.icao24 ≡ none → Holds space (append space idx doc) put
    unfolding append
    append-Holds fresh =
        let text = embeddable_text doc in
        let vector = embed text in
        let id = length idx.docs in
        let end : length (slots space idx) ≡ id = length-shade idx.tombstoned 0 idx.docs in
        let free : contains idx.tombstoned id ≡ false =
          elim (Bool-cases (contains idx.tombstoned id)) [
            | inl f ↦ absurd (omega (arith, h.buried id f))
            | inr f ↦ f
          ] in
        let shape : shade idx.tombstoned 0 (idx.docs ++ doc ∷ [])
            ≡ slots space idx ++ some doc ∷ [] =
          shade-append idx.tombstoned 0 idx.docs doc
            (ap (contains idx.tombstoned) (omega arith) ∙ free) in
        let unseen : get m doc.icao24 ≡ none = ground (arith, h.rows.reads doc.icao24) in
        let grown = length-append idx.docs (doc ∷ []) in
        put-Holds space idx m h doc _ id
          (ap (slot (slots space idx)) (sym end) ∙ slot_past (slots space idx) ∙ sym unseen)
          (λ j.
            ap (λ l. slot l j) shape
            ∙ slot-append (slots space idx) j (some doc)
            ∙ ap (λ n. if n == j then some doc else slot (slots space idx) j) end)
          (λ k. get-insert idx.by_key doc.icao24 k id)
          (λ w. omega (
            arith,
            ap (weigh_slots w) shape,
            weigh_slots-append w (slots space idx) (some doc),
            ap (weight w) unseen,
          ))
          (insert-Distinct idx.by_key doc.icao24 id h.keys_once)
          (ground (
            arith,
            length-insert m doc.icao24 doc,
            length-insert idx.by_key doc.icao24 id,
            fresh,
            unseen,
            h.counted,
          ))
          (
            ap (λ l. l ++ text ∷ []) h.worded ∙ sym (map-append_end embeddable_text idx.docs doc),
            ap (λ l. l ++ vector ∷ []) h.embedded ∙ sym (map-append_end embed idx.texts text),
            ap (λ l. l ++ quantize floats vector ∷ []) h.compressed
                ∙ sym (map-append_end (quantize floats) idx.slot_vectors vector),
          )
          refl (omega (arith, grown))
          (rw (ids_insert idx.hnsw vector id) (
            omega (arith, grown),
            weaken space id _ (ids idx.hnsw) (omega (arith, grown)) h.pointed,
          ))

    pub insert-Holds :
        (idx' : VectorIndex space) × (insert space idx doc ≡ some idx') × Holds space idx' put
    unfolding insert
    insert-Holds = elim (Option-cases (get idx.by_key doc.icao24)) [
      | inr (id, p) ↦
          let (idx', e, holds) = observe-Holds id p in (idx', ground (arith, p, e), holds)
      | inl fresh ↦ (append space idx doc, ground (arith, fresh), append-Holds fresh)
    ]
