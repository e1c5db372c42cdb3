-- ===== src/Vectors/Neighbours.antt =====
-- The search of the graph: what its loop over the neighbours shows.
use aether_engine.Prelude.{
  ℕ, ◌+◌, ◌<◌, ◌≤◌, ◌≡◌, refl, sym, ap, subst, String, ◌||◌, List, [], ◌∷◌, none, some, nat_eq,
  ◌==◌, length, get_elem?_total, set, All, In, arith, Bool-cases, inl, inr,
}
use aether_engine.Prelude.HashMap.{HashMap, weight}
use aether_engine.Prelude.HashSet
use aether_engine.Prelude.HashSet.{contains, contains-insert}
use aether_engine.Prelude.Totals.{total}
use aether_engine.Index.{slot}
use aether_engine.Index.Rows.{slot-lt-length}
use aether_engine.Index.Corpus.{weigh_slots, weigh_slots-set}
use aether_engine.Vectors.{Space, VectorIndex}
use aether_engine.Vectors.Slots.{shade, slot-slots, shade-bury}
use aether_engine.Vectors.Survivors.{Doc, Holds}
use aether_engine.Vectors.Search.{VectorHit, collect_best, search_hnsw, fetch, max, ef_search}
use aether_engine.Vectors.Nearest.{IsShown}

-- What all members of a list are, a member is.
In-All : {A : Type 0} (P : A → Type 0) (x : A) (xs : List A) → In x xs → All P xs → P x
In-All P x [] i a = absurd i
In-All P x (y ∷ ys) (inl e) a = subst P (sym e) a.0
In-All P x (y ∷ ys) (inr i) a = In-All P x ys i a.1

All-map :
    {A : Type 0} (P Q : A → Type 0) (f : (x : A) → P x → Q x) (xs : List A) → All P xs → All Q xs
All-map P Q f [] a = tt
All-map P Q f (x ∷ xs) a = (f x a.0, All-map P Q f xs a.1)

module _ {Real : Type 0} (space : Space Real) where
  open space use {floats, one_minus, ids, neighbours, neighbours_inserted}
  open floats use {Float}

  abbrev doc_weight : (Doc space → ℕ) → VectorHit space → ℕ
  doc_weight w hit = w hit.doc

  module _ (idx : VectorIndex space) (k : ℕ) where
    collect_best-shows :
        (n : ℕ) (seen hidden : List ℕ) (found : List (ℕ × Float))
        → n < k
        → ((i : ℕ) → contains hidden i ≡ (contains idx.tombstoned i || contains seen i))
        → All (λ (c : ℕ × Float). c.0 < length idx.docs) found
        → (r : List (VectorHit space)) × (collect_best space idx k n seen found ≡ some r)
          × ((w : Doc space → ℕ) → total (doc_weight w) r ≤ weigh_slots w (shade hidden 0 idx.docs))
          × (length r + n ≤ k)
    unfolding collect_best
    collect_best-shows n seen hidden [] room e a = ([], refl, λ w. omega arith, omega (arith, room))
    collect_best-shows n seen hidden ((id, distance) ∷ found) room e a =
        elim (Bool-cases (contains idx.tombstoned id || contains seen id)) [
          | inl skipped ↦
              let (r, eq, shown, few) = collect_best-shows n seen hidden found room e a.1 in
              (r, ground (arith, skipped, eq), shown, few)
          | inr clear ↦
              let (doc, at) = get_elem?_total idx.docs id a.0 in
              let hit : VectorHit space = record { doc = doc; score = one_minus distance } in
              let hidden' = HashSet.insert hidden id in
              let e' : (i : ℕ)
                  → contains hidden' i ≡ (contains idx.tombstoned i || contains (id ∷ seen) i) =
                λ i. unfold contains in ground (arith, contains-insert hidden id i, e i) in
              let here : slot (shade hidden 0 idx.docs) id ≡ some doc =
                ground (arith, slot-slots hidden idx.docs id, e id, clear, at) in
              let inside = slot-lt-length (shade hidden 0 idx.docs) id doc here in
              let shape : shade hidden' 0 idx.docs ≡ set (shade hidden 0 idx.docs) id none =
                shade-bury hidden' hidden id (contains-insert hidden id) 0 idx.docs id
                  (omega arith) in
              let freed =
                λ (w : Doc space → ℕ). weigh_slots-set w (shade hidden 0 idx.docs) id none inside in
              elim (Bool-cases (n + 1 == k)) [
                | inl full ↦ (
                  hit ∷ [],
                  ground (arith, clear, at, full),
                  λ w. omega (arith, freed w, ap (weight w) here),
                  omega (arith, (nat_eq.same_iff (n + 1) k).0 full),
                )
                | inr more ↦
                    let less : n + 1 < k = ground (arith, room, more, nat_eq.same_iff (n + 1) k) in
                    let (r, eq, shown, few) =
                      collect_best-shows (n + 1) (id ∷ seen) hidden' found less e' a.1 in
                    (
                      hit ∷ r,
                      ground (arith, clear, at, more, eq),
                      λ w.
                          omega
                            (arith, freed w, ap (weight w) here, shown w, ap (weigh_slots w) shape),
                      omega (arith, few),
                    )
              ]
        ]

    -- A search of the graph does not panic, and shows survivors only.
    pub hnsw-IsShown :
        (m : HashMap String (Doc space))
        → Holds space idx m
        → (query : List Float) → 0 < k
        → (r : List (VectorHit space)) × (search_hnsw space idx query k ≡ some r)
          × IsShown space m k r
    unfolding search_hnsw contains
    hnsw-IsShown m h query pos =
        let wanted = fetch k idx.vectors_total in
        let (r, e, shown, few) =
          collect_best-shows 0 [] idx.tombstoned
            (neighbours idx.hnsw query wanted (max ef_search wanted)) pos (λ i. ground arith)
            (All-map (λ (c : ℕ × Float). In c.0 (ids idx.hnsw))
              (λ (c : ℕ × Float). c.0 < length idx.docs)
              (λ c i. In-All (λ j. j < length idx.docs) c.0 (ids idx.hnsw) i h.pointed)
              (neighbours idx.hnsw query wanted (max ef_search wanted))
              (neighbours_inserted idx.hnsw query wanted (max ef_search wanted))) in
        (
          r,
          e,
          record { shown = λ w. omega (arith, shown w, h.stocked w); few = omega (arith, few) },
        )
