-- ===== src/Index/Insertion.antt =====
-- An insertion into the index, in a slot of its own, of the free list or at the end.
use aether_engine.Prelude.{
  ℕ, ◌+◌, ◌-◌, ◌%◌, ◌^◌, ◌<◌, ◌≤◌, ◌≡◌, ◌≢◌, refl, sym, ap, ◌∙◌, String, false, List, [], ◌∷◌, ◌++◌,
  Option, none, some, if◌then◌else◌, nat_eq, string_eq, list_eq, ◌==◌, length, get_elem?, set,
  arith, Option-cases, Bool-cases, inl, inr, length-append, length-set, get_elem?-set_self,
  get_elem?-set_ne, get_elem?-append_end, get_elem?-append_ne, subst, ◌⊎◌,
}
use native.Mathlib.Nat.{mod-eq_of_lt}
use aether_engine.Prelude.HashMap
use aether_engine.Prelude.HashMap.{
  HashMap, get, get-insert, get-remove, get_same, Distinct, remove-Distinct, insert-Distinct,
  length-insert, length-remove, remove_absent, weigh, weight, weigh-insert, weigh-remove,
}
use aether_engine.Prelude.HashSet.{contains}
use aether_engine.Filter.{FlightDocument}
use aether_engine.Tokens.{Term}
use aether_engine.Index.{
  Analysis, InvertedIndex, slot, list_of, term_freqs, doc_length, add_postings, remove_postings,
  replace, admit, insert,
}
use aether_engine.Index.Postings.{list_of-add_postings, list_of-remove_postings, entry}
use aether_engine.Index.Rows.{slot-set, slot-append, slot-lt-length, slot_past, put-Rows, found}
use aether_engine.Index.Corpus.{
  put-Listed, put-Sized, Retired, put-Retired, take-Retired, weigh_slots, weigh_slots-set,
  weigh_slots-append, doc_length_lt,
}
use aether_engine.Index.Survivors.{Holds}

list-cases : {A : Type 0} (xs : List A) → (xs ≡ []) ⊎ ((x : A) × (ys : List A) × (xs ≡ x ∷ ys))
list-cases [] = inl refl
list-cases (x ∷ xs) = inr (x, xs, refl)

module _ (a : Analysis) where
  open a use {Real}

  module _ (idx : InvertedIndex Real) (m : HashMap String (FlightDocument Real)) (h : Holds a idx m)
      (doc : FlightDocument Real) where
    replace-Holds :
        (id : ℕ)
        → get idx.by_key doc.icao24 ≡ some id
        → (idx' : InvertedIndex Real) × (replace a idx id doc ≡ some idx')
          × Holds a idx' (HashMap.insert m doc.icao24 doc)
          × (length idx'.docs ≡ length idx.docs)
    unfolding replace
    replace-Holds id p =
        let (old, at, own) = h.rows.lived doc.icao24 id p in
        let len_at = h.sized.lens id old at in
        let within = slot-lt-length idx.docs id old at in
        let docs' = set idx.docs id (some doc) in
        let ps = remove_postings a idx.postings id old in
        let ps' = add_postings a ps id doc in
        let total' = (idx.total_len + (2 ^ 64 - doc_length a old) + doc_length a doc) % 2 ^ 64 in
        let doc_len' = set idx.doc_len id (doc_length a doc) in
        let idx' = record idx {
          docs = docs';
          postings = ps';
          doc_len = doc_len';
          total_len = total';
        } in
        let m' = HashMap.insert m doc.icao24 doc in
        let c = found h.rows doc.icao24 id p in
        let s = λ (j : ℕ). slot-set idx.docs id j (some doc) within in
        (
          idx',
          ground (arith, at, len_at),
          record {
            rows =
                put-Rows h.rows docs' idx.by_key id doc s
                  (λ k. ground (arith, get_same idx.by_key doc.icao24 k)) c;
            listed = put-Listed a h.listed id doc.icao24 c docs' ps' doc s (λ t.
                list_of-add_postings a ps id doc t
                ∙ ap (λ l. l ++ entry id (get (term_freqs a doc) t))
                    (list_of-remove_postings a idx.postings id old
                      (λ u. ground (arith, h.listed.listed u id, at)) t));
            sized =
                put-Sized a h.sized id doc.icao24 docs' doc_len' total'
                  (length-set idx.doc_len id (doc_length a doc)
                    ∙ h.sized.aligned
                    ∙ sym (length-set idx.docs id (some doc)))
                  (omega arith) doc s
                  (λ j ne. get_elem?-set_ne idx.doc_len id j (doc_length a doc) ne)
                  (get_elem?-set_self idx.doc_len id (doc_length a doc)
                    (omega (arith, h.sized.aligned)))
                  (omega (arith, ap (weight (doc_length a)) (sym c ∙ at), doc_length_lt a old));
            retired = record {
              empty = λ i f. ground (
                arith,
                h.retired.empty i f,
                s i,
                at,
                length-set idx.docs id (some doc),
                ap (slot idx.docs) {x = id} {y = i},
              );
              all =
                  λ i b e. ground (arith, h.retired.all i, s i, length-set idx.docs id (some doc));
              no_repeat = h.retired.no_repeat;
            };
            once = insert-Distinct m doc.icao24 doc h.once;
            keys_once = h.keys_once;
            counted = ground (arith, length-insert m doc.icao24 doc, c, at, h.counted);
            stocked = λ w. omega (
              arith,
              h.stocked w,
              weigh_slots-set w idx.docs id (some doc) within,
              weigh-insert w m doc.icao24 doc,
              ap (weight w) c,
            );
          },
          length-set idx.docs id (some doc),
        )

    -- A new aircraft, once a slot that held none has its document.
    module _ (fresh : get idx.by_key doc.icao24 ≡ none) (id : ℕ)
        (docs' : List (Option (FlightDocument Real))) (doc_len' free' : List ℕ)
        (s : (j : ℕ) → slot docs' j ≡ (if id == j then some doc else slot idx.docs j))
        (vacant : slot idx.docs id ≡ none)
        (stock : (w : FlightDocument Real → ℕ)
          → weigh_slots w docs' ≡ weigh_slots w idx.docs + w doc)
        (same : length doc_len' ≡ length docs')
        (n : (j : ℕ) → id ≢ j → get_elem? doc_len' j ≡ get_elem? idx.doc_len j)
        (here : get_elem? doc_len' id ≡ some (doc_length a doc))
        (retired' : Retired docs' free') where
      unseen : get m doc.icao24 ≡ none
      unseen = ground (arith, h.rows.reads doc.icao24)

      unlisted : (t : Term) → get (list_of idx.postings t) id ≡ none
      unlisted t = ground (arith, h.listed.listed t id, vacant)

      admit-Holds :
          Holds a
            (admit a (record idx { docs = docs'; doc_len = doc_len'; free = free' }) id doc)
            (HashMap.insert m doc.icao24 doc)
      unfolding admit
      admit-Holds =
          let by_key' = HashMap.insert idx.by_key doc.icao24 id in
          let total' = (idx.total_len + doc_length a doc) % 2 ^ 64 in
          let c = vacant ∙ sym unseen in
          record {
            rows =
                put-Rows h.rows docs' by_key' id doc s (λ k. get-insert idx.by_key doc.icao24 k id)
                  c;
            listed =
                put-Listed a h.listed id doc.icao24 c docs' (add_postings a idx.postings id doc) doc
                  s
                  (λ t.
                    list_of-add_postings a idx.postings id doc t
                    ∙ ap (λ l. l ++ entry id (get (term_freqs a doc) t))
                        (sym (remove_absent (list_of idx.postings t) id (unlisted t))));
            sized =
                put-Sized a h.sized id doc.icao24 docs' doc_len' total' same (omega arith) doc s n
                  here (omega (arith, ap (weight (doc_length a)) unseen));
            retired = retired';
            once = insert-Distinct m doc.icao24 doc h.once;
            keys_once = insert-Distinct idx.by_key doc.icao24 id h.keys_once;
            counted = ground (
              arith,
              length-insert m doc.icao24 doc,
              length-insert idx.by_key doc.icao24 id,
              fresh,
              unseen,
              h.counted,
            );
            stocked = λ w. omega (
              arith,
              h.stocked w,
              stock w,
              weigh-insert w m doc.icao24 doc,
              ap (weight w) unseen,
            );
          }

    abbrev reused : ℕ → List ℕ → InvertedIndex Real
    reused id free =
        admit a
          (record idx {
            docs = set idx.docs id (some doc);
            doc_len = set idx.doc_len id (doc_length a doc);
            free = free;
          })
          id doc

    abbrev appended : InvertedIndex Real
    appended =
        admit a
          (record idx {
            docs = idx.docs ++ some doc ∷ [];
            doc_len = idx.doc_len ++ doc_length a doc ∷ [];
          })
          (length idx.docs) doc

    -- In a slot from the free list.
    reuse-Holds :
        (id : ℕ) (free : List ℕ)
        → get idx.by_key doc.icao24 ≡ none
        → idx.free ≡ id ∷ free
        → (id < length idx.docs) × Holds a (reused id free) (HashMap.insert m doc.icao24 doc)
    reuse-Holds id free fresh e =
        let r = subst (Retired idx.docs) e h.retired in
        let (vacant, within) =
          r.empty id (unfold contains in ground (arith, nat_eq.same_iff id id)) in
        let docs' = set idx.docs id (some doc) in
        let s = λ (j : ℕ). slot-set idx.docs id j (some doc) within in
        let shape = length-set idx.docs id (some doc) in
        (
          within,
          admit-Holds fresh id (set idx.docs id (some doc)) (set idx.doc_len id (doc_length a doc))
              free s vacant
              (λ w.
                omega
                  (arith, weigh_slots-set w idx.docs id (some doc) within, ap (weight w) vacant))
              (length-set idx.doc_len id (doc_length a doc)
                ∙ h.sized.aligned
                ∙ sym (length-set idx.docs id (some doc)))
              (λ j ne. get_elem?-set_ne idx.doc_len id j (doc_length a doc) ne)
              (get_elem?-set_self idx.doc_len id (doc_length a doc)
                (omega (arith, h.sized.aligned)))
              (take-Retired docs' id free doc r s shape),
        )

    -- In a slot at the end.
    append-Holds :
        get idx.by_key doc.icao24 ≡ none → Holds a appended (HashMap.insert m doc.icao24 doc)
    append-Holds fresh =
        let id = length idx.docs in
        let docs' = idx.docs ++ some doc ∷ [] in
        let s = λ (j : ℕ). slot-append idx.docs j (some doc) in
        let grown = length-append idx.docs (some doc ∷ []) in
        let lens = length-append idx.doc_len (doc_length a doc ∷ []) in
        let end =
          subst (λ k. get_elem? (idx.doc_len ++ doc_length a doc ∷ []) k ≡ some (doc_length a doc))
            h.sized.aligned (get_elem?-append_end idx.doc_len (doc_length a doc)) in
        let past : contains idx.free id ≡ false = elim (Bool-cases (contains idx.free id)) [
          | inl f ↦ absurd (omega (arith, (h.retired.empty id f).1))
          | inr f ↦ f
        ] in
        admit-Holds fresh id docs' (idx.doc_len ++ doc_length a doc ∷ []) idx.free s
          (slot_past idx.docs) (λ w. weigh_slots-append w idx.docs (some doc))
          (omega (arith, grown, lens, h.sized.aligned))
          (λ j ne.
            get_elem?-append_ne idx.doc_len j (doc_length a doc)
              (λ e. ne (sym h.sized.aligned ∙ e)))
          end
          (put-Retired h.retired docs' id doc s (omega (arith, grown))
            (λ i b ne. ground (arith, grown, nat_eq.same_iff id i)) past)

    -- An insertion does not panic; it puts the document under its aircraft, and takes at most one
    -- slot more.
    pub insert-Holds :
        length idx.docs < 2 ^ 32
        → (idx' : InvertedIndex Real) × (insert a idx doc ≡ some idx')
          × Holds a idx' (HashMap.insert m doc.icao24 doc)
          × (length idx'.docs ≤ length idx.docs + 1)
    unfolding insert admit
    insert-Holds small = elim (Option-cases (get idx.by_key doc.icao24)) [
      | inr (id, p) ↦
          let (idx', e, holds, same) = replace-Holds id p in
          (idx', ground (arith, p, e), holds, omega (arith, same))
      | inl fresh ↦ elim (list-cases idx.free) [
        | inr (id, free, e) ↦
            let (within, holds) = reuse-Holds id free fresh e in
            (
              reused id free,
              ground (arith, fresh, e, within, h.sized.aligned),
              holds,
              omega (arith, length-set idx.docs id (some doc)),
            )
        | inl e ↦ (
          appended,
          ground (
            arith,
            fresh,
            e,
            mod-eq_of_lt small,
            ap (λ i. add_postings a idx.postings i doc) (mod-eq_of_lt small),
            ap (HashMap.insert idx.by_key doc.icao24) (mod-eq_of_lt small),
          ),
          append-Holds fresh,
          omega (arith, length-append idx.docs (some doc ∷ [])),
        )
      ]
    ]
