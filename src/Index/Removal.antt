-- ===== src/Index/Removal.antt =====
-- A removal from the index, and the slot it leaves.
use aether_engine.Prelude.{
  ℕ, ◌+◌, ◌-◌, ◌%◌, ◌^◌, ◌≡◌, refl, sym, ap, ◌∙◌, String, ◌∷◌, none, some, is_some, nat_eq,
  string_eq, list_eq, length, set, arith, Option-cases, inl, inr, length-set, get_elem?-set_ne,
}
use aether_engine.Prelude.HashMap
use aether_engine.Prelude.HashMap.{
  HashMap, get, get-insert, get-remove, get_same, Distinct, remove-Distinct, insert-Distinct,
  length-insert, length-remove, remove_absent, weigh, weight, weigh-insert, weigh-remove,
}
use aether_engine.Filter.{FlightDocument}
use aether_engine.Index.{Analysis, InvertedIndex, doc_length, remove_postings, remove}
use aether_engine.Index.Postings.{list_of-remove_postings}
use aether_engine.Index.Rows.{slot-set, slot-lt-length, clear-Rows, found}
use aether_engine.Index.Corpus.{
  clear-Listed, clear-Sized, clear-Retired, weigh_slots-set, doc_length_lt,
}
use aether_engine.Index.Survivors.{Holds}

module _ (a : Analysis) where
  open a use {Real}

  -- A removal does not panic; it tells whether the aircraft was there, and takes it out.
  pub remove-Holds :
      (idx : InvertedIndex Real) (m : HashMap String (FlightDocument Real))
      → Holds a idx m
      → (icao24 : String)
      → (idx' : InvertedIndex Real) × (remove a idx icao24 ≡ some (idx', is_some (get m icao24)))
        × Holds a idx' (HashMap.remove m icao24)
        × (length idx'.docs ≡ length idx.docs)
  unfolding remove
  remove-Holds idx m h icao24 = elim (Option-cases (get idx.by_key icao24)) [
    | inl absent ↦
        let unseen : get m icao24 ≡ none = ground (arith, h.rows.reads icao24) in
        (idx, ground (arith, absent, unseen), rw (remove_absent m icao24 unseen) h, refl)
    | inr (id, p) ↦
        let (old, at, own) = h.rows.lived icao24 id p in
        let len_at = h.sized.lens id old at in
        let within = slot-lt-length idx.docs id old at in
        let docs' = set idx.docs id none in
        let doc_len' = set idx.doc_len id 0 in
        let ps' = remove_postings a idx.postings id old in
        let by_key' = HashMap.remove idx.by_key icao24 in
        let total' = (idx.total_len + (2 ^ 64 - doc_length a old)) % 2 ^ 64 in
        let c = found h.rows icao24 id p in
        let s = λ (j : ℕ). slot-set idx.docs id j none within in
        let shape = length-set idx.docs id none in
        (
          record {
            docs = docs';
            postings = ps';
            by_key = by_key';
            free = id ∷ idx.free;
            doc_len = doc_len';
            total_len = total';
          },
          ground (arith, p, at, len_at, c),
          record {
            rows =
                clear-Rows h.rows docs' by_key' id icao24 s (λ k. get-remove idx.by_key icao24 k) p;
            listed =
                clear-Listed a h.listed id icao24 c docs' ps' s
                  (list_of-remove_postings a idx.postings id old
                    (λ u. ground (arith, h.listed.listed u id, at)))
                  h.once;
            sized =
                clear-Sized a h.sized id icao24 docs' doc_len' total'
                  (length-set idx.doc_len id 0 ∙ h.sized.aligned ∙ sym shape) (omega arith) s
                  (λ j ne. get_elem?-set_ne idx.doc_len id j 0 ne) h.once
                  (omega (arith, ap (weight (doc_length a)) (sym c ∙ at), doc_length_lt a old));
            retired = clear-Retired h.retired docs' id old at s shape within;
            once = remove-Distinct m icao24 h.once;
            keys_once = remove-Distinct idx.by_key icao24 h.keys_once;
            counted = ground (
              arith,
              length-remove m icao24 h.once,
              length-remove idx.by_key icao24 h.keys_once,
              p,
              c,
              at,
              h.counted,
            );
            stocked = λ w. omega (
              arith,
              h.stocked w,
              weigh_slots-set w idx.docs id none within,
              weigh-remove w m icao24 h.once,
              ap (weight w) c,
            );
          },
          shape,
        )
  ]
