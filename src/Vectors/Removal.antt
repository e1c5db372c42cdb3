-- ===== src/Vectors/Removal.antt =====
-- Removals from the vector index: a slot is tombstoned, and a rebuild leaves the tombstones out.
use aether_engine.Prelude.{
  ℕ, ◌+◌, ◌≡◌, refl, sym, ap, ◌∙◌, String, List, [], ◌∷◌, none, some, is_some, nat_eq, string_eq,
  ◌==◌, length, set, arith, Option-cases, Bool-cases, inl, inr,
}
use aether_engine.Prelude.HashMap
use aether_engine.Prelude.HashMap.{
  HashMap, get, get-insert, get-remove, get_same, Distinct, remove-Distinct, insert-Distinct,
  length-remove, remove_absent, weigh, weight, weigh-remove, weigh_agree,
}
use aether_engine.Prelude.HashSet
use aether_engine.Prelude.HashSet.{contains, contains-insert}
use aether_engine.Index.{slot, flatten}
use aether_engine.Index.Gather.{collect, collect-flatten}
use aether_engine.Index.Rows.{clear-Rows, found, slot-set, slot-lt-length}
use aether_engine.Index.Corpus.{weigh_slots, weigh_slots-set}
use aether_engine.Vectors.{Space, VectorIndex, live_from, insert_all, rebuild, is_due, remove}
use aether_engine.Vectors.Slots.{shade, length-shade, shade-bury}
use aether_engine.Vectors.Survivors.{Doc, Holds, slots, new-Holds}
use aether_engine.Vectors.Insertion.{insert-Holds}

pub weigh_one : {V : Type 0} (m : HashMap String V) → weigh (λ v. 1) m ≡ length m
unfolding weigh
weigh_one [] = refl
weigh_one ((k, v) ∷ m) = omega (arith, weigh_one m)

module _ {Real : Type 0} (space : Space Real) where
  insert_all-Holds :
      (ds : List (Doc space)) (idx : VectorIndex space) (m : HashMap String (Doc space))
      → Holds space idx m
      → (idx' : VectorIndex space) × (insert_all space idx ds ≡ some idx')
        × Holds space idx' (collect (λ d. d.icao24) m ds)
  unfolding insert_all
  insert_all-Holds [] idx m h = (idx, refl, h)
  insert_all-Holds (d ∷ ds) idx m h =
      let (idx1, e1, h1) = insert-Holds space idx m h d in
      let (idx', e, h') = insert_all-Holds ds idx1 (HashMap.insert m d.icao24 d) h1 in
      (idx', ground (arith, e1, e), h')

  pub live_from-flatten :
      (tombs : List ℕ) (i : ℕ) (ds : List (Doc space))
      → live_from space tombs i ds ≡ flatten (shade tombs i ds)
  unfolding live_from flatten
  live_from-flatten tombs i [] = refl
  live_from-flatten tombs i (d ∷ ds) = ground (arith, live_from-flatten tombs (i + 1) ds)

  -- What holds of an index against a map holds against any that reads the same.
  agree-Holds :
      (idx : VectorIndex space) (n m : HashMap String (Doc space))
      → Holds space idx n
      → Distinct m
      → ((k : String) → get n k ≡ get m k)
      → Holds space idx m
  agree-Holds idx n m h d e = record {
    rows = record {
      reads = λ k. h.rows.reads k ∙ e k;
      keyed = h.rows.keyed;
      lived = h.rows.lived;
      named = λ k x at. h.rows.named k x (e k ∙ at);
    };
    stocked = λ w. h.stocked w ∙ weigh_agree w n m h.once d e;
    once = d;
    keys_once = h.keys_once;
    counted = omega (
      arith,
      h.counted,
      weigh_one n,
      weigh_one m,
      weigh_agree (λ (x : Doc space). 1) n m h.once d e,
    );
    worded = h.worded;
    embedded = h.embedded;
    compressed = h.compressed;
    buried = h.buried;
    pointed = h.pointed;
  }

  module _ (idx : VectorIndex space) (m : HashMap String (Doc space)) (h : Holds space idx m) where
    rebuild-Holds :
        (idx' : VectorIndex space) × (rebuild space idx ≡ some idx') × Holds space idx' m
    unfolding rebuild get
    rebuild-Holds =
        let live = live_from space idx.tombstoned 0 idx.docs in
        let (idx', e, h') = insert_all-Holds live _ [] (new-Holds space idx.quantized_mode) in
        (
          idx',
          e,
          agree-Holds idx' (collect (λ d. d.icao24) [] live) m h' h.once (λ k.
              ap (λ ds. get (collect (λ (d : Doc space). d.icao24) [] ds) k)
                (live_from-flatten idx.tombstoned 0 idx.docs)
              ∙ collect-flatten h.rows k),
        )

    module _ (icao24 : String) (id : ℕ) (p : get idx.by_key icao24 ≡ some id) where
      abbrev bury : VectorIndex space
      bury = record idx {
        by_key = HashMap.remove idx.by_key icao24;
        tombstoned = HashSet.insert idx.tombstoned id;
      }

      bury-Holds : Holds space bury (HashMap.remove m icao24)
      bury-Holds =
          let (d, at, own) = h.rows.lived icao24 id p in
          let inside = slot-lt-length (slots space idx) id d at in
          let c = found h.rows icao24 id p in
          let shape : slots space bury ≡ set (slots space idx) id none =
            shade-bury (HashSet.insert idx.tombstoned id) idx.tombstoned id
              (contains-insert idx.tombstoned id) 0 idx.docs id (omega arith) in
          record {
            rows =
                clear-Rows h.rows (slots space bury) (HashMap.remove idx.by_key icao24) id icao24
                  (λ j. ap (λ l. slot l j) shape ∙ slot-set (slots space idx) id j none inside)
                  (λ k. get-remove idx.by_key icao24 k) p;
            stocked = λ w. omega (
              arith,
              h.stocked w,
              ap (weigh_slots w) shape,
              weigh_slots-set w (slots space idx) id none inside,
              weigh-remove w m icao24 h.once,
              ap (weight w) c,
            );
            once = remove-Distinct m icao24 h.once;
            keys_once = remove-Distinct idx.by_key icao24 h.keys_once;
            counted = ground (
              arith,
              length-remove m icao24 h.once,
              length-remove idx.by_key icao24 h.keys_once,
              p,
              c,
              at,
              h.counted,
            );
            worded = h.worded;
            embedded = h.embedded;
            compressed = h.compressed;
            buried = λ i f. elim (Bool-cases (id == i)) [
              | inl same ↦ omega (
                arith,
                inside,
                length-shade idx.tombstoned 0 idx.docs,
                (nat_eq.same_iff id i).0 same,
              )
              | inr other ↦
                  h.buried i (ground (arith, contains-insert idx.tombstoned id i, f, other))
            ];
            pointed = h.pointed;
          }

  -- A removal does not panic; it tells whether the aircraft was there, and takes it out.
  pub remove-Holds :
      (idx : VectorIndex space) (m : HashMap String (Doc space))
      → Holds space idx m
      → (icao24 : String)
      → (idx' : VectorIndex space) × (remove space idx icao24 ≡ some (idx', is_some (get m icao24)))
        × Holds space idx' (HashMap.remove m icao24)
  unfolding remove
  remove-Holds idx m h icao24 = elim (Option-cases (get idx.by_key icao24)) [
    | inl absent ↦
        let unseen : get m icao24 ≡ none = ground (arith, h.rows.reads icao24) in
        (idx, ground (arith, absent, unseen), rw (remove_absent m icao24 unseen) h)
    | inr (id, p) ↦
        let (d, at, own) = h.rows.lived icao24 id p in
        let there : get m icao24 ≡ some d = sym (found h.rows icao24 id p) ∙ at in
        let holds = bury-Holds idx m h icao24 id p in
        let (idx', e, rebuilt) =
          rebuild-Holds (bury idx m h icao24 id p) (HashMap.remove m icao24) holds in
        elim (Bool-cases (
          is_due space (length (HashSet.insert idx.tombstoned id))
            (length (HashMap.remove idx.by_key icao24)))) [
              | inl due ↦ (idx', ground (arith, p, there, due, e), rebuilt)
              | inr kept ↦ (bury idx m h icao24 id p, ground (arith, p, there, kept), holds)
            ]
  ]
