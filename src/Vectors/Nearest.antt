-- ===== src/Vectors/Nearest.antt =====
-- What the searches answer, against the map of the aircraft that the index holds.
use native.Mathlib.Nat.{mod-eq_of_lt}
use aether_engine.Prelude.{
  ℕ, ◌*◌, ◌%◌, ◌^◌, ◌<◌, ◌≤◌, ◌≡◌, refl, sym, ap, ◌∙◌, subst, String, Bool, true, List, [], ◌∷◌,
  map, some, nat_eq, string_eq, length, get_elem?, take, All, arith, Option-cases, inl, inr,
  length-take_le, take-All,
}
use aether_engine.Prelude.HashMap.{HashMap, weigh, weight}
use aether_engine.Prelude.Totals.{
  total, total-Perm, total-take_le, total-map, failing, All-failing, failing-All,
}
use aether_engine.Prelude.Sort.{sort, sort-perm, IsChain, take-IsChain}
use aether_engine.Outranking.{Outranks, sort-Outranks, take_all}
use aether_engine.Quant.{quantize, oversample}
use aether_engine.Vectors.{Space, VectorIndex, embeddable_text, live_from}
use aether_engine.Vectors.Slots.{total-flatten}
use aether_engine.Vectors.Survivors.{Doc, Holds, slots}
use aether_engine.Vectors.Removal.{live_from-flatten, weigh_one}
use aether_engine.Vectors.Search.{
  VectorHit, hit_before, scan, score_slots, search_flat, distances, search_quantized, min,
}
use aether_engine.Vectors.Scans.{
  vector_of, scored, is_live, From, scan-score, distances-is_live, slot_weight, total-distances,
  picked,
}

total_one : {A : Type 0} (xs : List A) → total (λ (x : A). 1) xs ≡ length xs
total_one [] = refl
total_one (x ∷ xs) = omega (arith, total_one xs)

map-map :
    {A : Type 0} {B : Type 0} {C : Type 0} (f : B → C) (g : A → B) (xs : List A)
    → map f (map g xs) ≡ map (λ x. f (g x)) xs
map-map f g [] = refl
map-map f g (x ∷ xs) = ap (λ l. f (g x) ∷ l) (map-map f g xs)

module _ {Real : Type 0} (space : Space Real) where
  open space use {
    floats, embed, sort_unstable, sort_unstable_perm, ids, neighbours, neighbours_inserted, exceeds,
  }
  open floats use {Float}

  -- No document is shown but the aircraft of the map, none of them twice, and no more than `k`.
  pub record IsShown (m : HashMap String (Doc space)) (k : ℕ) (r : List (VectorHit space))
      : Type 0 where
    pub shown : (w : Doc space → ℕ) → total (λ (hit : VectorHit space). w hit.doc) r ≤ weigh w m
    pub few : length r ≤ k

  -- The hits are the first `k` of all aircraft of the map, ranked by the scores of their texts.
  pub record IsNearest (m : HashMap String (Doc space)) (query : List Float) (k : ℕ)
      (r : List (VectorHit space)) : Type 0 where
    pub ranking : List (Doc space)
    pub all : (w : Doc space → ℕ) → total w ranking ≡ weigh w m
    pub first : r ≡ take k (sort (hit_before space) (map (scored space query) ranking))
    pub ordered :
        IsChain (Outranks (λ (hit : VectorHit space). hit.score) (λ hit. hit.doc.icao24) exceeds) r

  take-ordered :
      (k : ℕ) (hits : List (VectorHit space))
      → IsChain
          (Outranks (λ (hit : VectorHit space). hit.score) (λ hit. hit.doc.icao24) exceeds)
          (take k (sort (hit_before space) hits))
  take-ordered k hits = take-IsChain _ k (sort (hit_before space) hits) (
      sort-Outranks (λ hit. hit.score) (λ hit. hit.doc.icao24) exceeds (hit_before space)
        (λ x y. unfold hit_before in refl) hits)

  -- What a ranking of some documents shows.
  total-ranked :
      (query : List Float) (k : ℕ) (ds : List (Doc space)) (w : Doc space → ℕ)
      → total
          (λ (hit : VectorHit space). w hit.doc)
          (take k (sort (hit_before space) (map (scored space query) ds)))
        ≤ total w ds
  total-ranked query k ds w =
      let hits = map (scored space query) ds in
      let v = λ (hit : VectorHit space). w hit.doc in
      omega (
        arith,
        total-take_le v k (sort (hit_before space) hits),
        total-Perm v (sort-perm (hit_before space) hits),
        total-map v (scored space query) ds,
      )

  module _ (idx : VectorIndex space) (m : HashMap String (Doc space)) (h : Holds space idx m) where
    abbrev live : List (Doc space)
    live = live_from space idx.tombstoned 0 idx.docs

    total-live : (w : Doc space → ℕ) → total w live ≡ weigh w m
    total-live w =
        ap (total w) (live_from-flatten space idx.tombstoned 0 idx.docs)
        ∙ total-flatten w (slots space idx)
        ∙ h.stocked w

    whole : From space idx.docs idx.tombstoned 0 idx.docs
    whole j d at = ap (get_elem? idx.docs) (omega arith) ∙ at

    vectors : idx.slot_vectors ≡ map (vector_of space) idx.docs
    vectors = h.embedded ∙ ap (map embed) h.worded ∙ map-map embed embeddable_text idx.docs

    pub flat-IsNearest :
        (query : List Float) (k : ℕ)
        → (r : List (VectorHit space)) × (search_flat space idx query k ≡ some r)
          × IsNearest m query k r
    unfolding search_flat
    flat-IsNearest query k =
        let e =
          ap (λ vs. score_slots space idx.docs query (scan space idx.tombstoned 0 vs)) vectors
          ∙ scan-score space idx.docs idx.tombstoned query 0 idx.docs whole in
        (
          _,
          ground (arith, e),
          record {
            ranking = live;
            all = total-live;
            first = refl;
            ordered = take-ordered k (map (scored space query) live);
          },
        )

    module _ (query : List Float) (k : ℕ) where
      -- The candidates of the quantized search.
      abbrev found : List (ℕ × ℕ)
      found = distances space (quantize floats query) (scan space idx.tombstoned 0 idx.quantized)

      bits : idx.quantized ≡ map (λ d. quantize floats (vector_of space d)) idx.docs
      bits =
          h.compressed
          ∙ ap (map (quantize floats)) vectors
          ∙ map-map (quantize floats) (vector_of space) idx.docs

      abbrev keep : ℕ
      keep = min (k * oversample % 2 ^ 64) (length found)

      abbrev kept : List (ℕ × ℕ)
      kept = take keep (sort_unstable found)

      abbrev alive : ℕ × ℕ → Bool
      alive c = is_live space idx.docs idx.tombstoned c.1

      found_live : All (λ (c : ℕ × ℕ). alive c ≡ true) found
      found_live =
          subst
            (λ qs.
              All (λ (c : ℕ × ℕ). alive c ≡ true)
                (distances space (quantize floats query) (scan space idx.tombstoned 0 qs)))
            (sym bits)
            (distances-is_live space idx.docs idx.tombstoned (quantize floats query)
              (λ d. quantize floats (vector_of space d)) 0 idx.docs whole)

      kept_live : All (λ (c : ℕ × ℕ). alive c ≡ true) kept
      kept_live =
          take-All (λ (c : ℕ × ℕ). alive c ≡ true) keep (sort_unstable found)
            (failing-All alive (sort_unstable found) (
              total-Perm (failing alive) (sort_unstable_perm found)
              ∙ All-failing alive found found_live))

      total-found :
          (w : Doc space → ℕ)
          → total (slot_weight space idx.docs idx.tombstoned w) found ≡ weigh w m
      total-found w =
          ap
            (λ qs.
              total (slot_weight space idx.docs idx.tombstoned w)
                (distances space (quantize floats query) (scan space idx.tombstoned 0 qs)))
            bits
          ∙ total-distances space idx.docs idx.tombstoned w (quantize floats query)
              (λ d. quantize floats (vector_of space d)) 0 idx.docs whole
          ∙ total-live w

      -- The documents of the candidates that are kept, ranked by their exact scores.
      quantized_ranks :
          (ds : List (Doc space)) × (search_quantized space idx query k
            ≡ some (take k (sort (hit_before space) (map (scored space query) ds))))
          × ((w : Doc space → ℕ)
              → total w ds ≡ total (slot_weight space idx.docs idx.tombstoned w) kept)
      unfolding search_quantized
      quantized_ranks =
          let (ds, pairs, read, score, totals) =
            picked space idx.docs idx.tombstoned query idx.slot_vectors vectors kept kept_live in
          (ds, ground (arith, read, score), totals)

      total-kept_le :
          (w : Doc space → ℕ) → total (slot_weight space idx.docs idx.tombstoned w) kept ≤ weigh w m
      total-kept_le w =
          let v = slot_weight space idx.docs idx.tombstoned w in
          omega (
            arith,
            total-take_le v keep (sort_unstable found),
            total-Perm v (sort_unstable_perm found),
            total-found w,
          )

      pub quantized-IsShown :
          (r : List (VectorHit space)) × (search_quantized space idx query k ≡ some r)
          × IsShown m k r
      quantized-IsShown =
          let (ds, e, totals) = quantized_ranks in
          (
            _,
            e,
            record {
              shown = λ w. omega (arith, total-ranked query k ds w, totals w, total-kept_le w);
              few = length-take_le k (sort (hit_before space) (map (scored space query) ds));
            },
          )

      length-live :
          (xs : List (ℕ × ℕ))
          → All (λ (c : ℕ × ℕ). alive c ≡ true) xs
          → length xs ≡ total (slot_weight space idx.docs idx.tombstoned (λ (d : Doc space). 1)) xs
      length-live [] a = refl
      length-live (c ∷ xs) a = elim (Option-cases (get_elem? idx.docs c.1)) [
        | inl e ↦ absurd (ground (arith, a.0, e))
        | inr (d, e) ↦ omega (arith, length-live xs a.1, ap (weight (λ (x : Doc space). 1)) e)
      ]

      -- There is one candidate for each aircraft.
      length-found : length found ≡ length m
      length-found = length-live found found_live ∙ total-found (λ (d : Doc space). 1) ∙ weigh_one m

      -- Where the candidates that are kept are all of them.
      pub quantized-IsNearest :
          length m ≤ k * oversample
          → k * oversample < 2 ^ 64
          → (r : List (VectorHit space)) × (search_quantized space idx query k ≡ some r)
            × IsNearest m query k r
      quantized-IsNearest small fits =
          let (ds, e, totals) = quantized_ranks in
          let count = length-found in
          let shuffled : length (sort_unstable found) ≡ length found =
            sym (total_one (sort_unstable found))
            ∙ total-Perm (λ (c : ℕ × ℕ). 1) (sort_unstable_perm found)
            ∙ total_one found in
          let enough : keep ≡ length found = ground (arith, mod-eq_of_lt fits, count) in
          let all_kept : kept ≡ sort_unstable found =
            take_all keep (sort_unstable found) (omega (arith, enough, shuffled)) in
          (
            _,
            e,
            record {
              ranking = ds;
              all = λ w.
                  let v = slot_weight space idx.docs idx.tombstoned w in
                  totals w
                  ∙ ap (total v) all_kept
                  ∙ total-Perm v (sort_unstable_perm found)
                  ∙ total-found w;
              first = refl;
              ordered = take-ordered k _;
            },
          )

    pub flat-IsShown :
        (query : List Float) (k : ℕ)
        → (r : List (VectorHit space)) × (search_flat space idx query k ≡ some r) × IsShown m k r
    flat-IsShown query k =
        let (r, e, near) = flat-IsNearest query k in
        (
          r,
          e,
          record {
            shown = λ w. omega (
              arith,
              ap (total (λ (hit : VectorHit space). w hit.doc)) near.first,
              total-ranked query k near.ranking w,
              near.all w,
            );
            few =
                subst (λ hits. length hits ≤ k) (sym near.first)
                  (length-take_le k
                    (sort (hit_before space) (map (scored space query) near.ranking)));
          },
        )
