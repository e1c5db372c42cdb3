-- ===== src/Vectors/Scans.antt =====
-- What the scans of the slots find: the documents that are alive, each with the score of its text.
use aether_engine.Prelude.{
  ℕ, suc, ◌+◌, ◌≡◌, refl, ap, ◌∙◌, Bool, true, not, ◌&&◌, List, [], ◌∷◌, map, some, nat_eq,
  get_elem?, All, arith, Option-cases, inl, inr, is_some,
}
use aether_engine.Prelude.Totals.{total}
use aether_engine.Prelude.HashMap.{weight}
use aether_engine.Prelude.HashSet.{contains}
use aether_engine.Quant.{QuantizedVector}
use aether_engine.Vectors.{Space, embeddable_text, live_from}
use aether_engine.Vectors.Columns.{get_elem?-map}
use aether_engine.Vectors.Survivors.{Doc}
use aether_engine.Vectors.Search.{VectorHit, dot, scan, score_slots, distances, with_vectors}

module _ {Real : Type 0} (space : Space Real) where
  open space use {floats, embed, widen}
  open floats use {Float}

  -- The vector of a document, and its hit.
  abbrev pub vector_of : Doc space → List Float
  vector_of d = embed (embeddable_text d)

  abbrev pub scored : List Float → Doc space → VectorHit space
  scored query d = record { doc = d; score = widen (dot space query (vector_of d)) }

  module _ (docs : List (Doc space)) (tombs : List ℕ) where
    -- A slot with a document that is alive.
    abbrev pub is_live : ℕ → Bool
    is_live i = not (contains tombs i) && is_some (get_elem? docs i)

    -- The documents from slot `i` on.
    abbrev pub From : ℕ → List (Doc space) → Type 0
    From i ds = (j : ℕ) (d : Doc space) → get_elem? ds j ≡ some d → get_elem? docs (i + j) ≡ some d

    from_here :
        (i : ℕ) (d : Doc space) (ds : List (Doc space))
        → From i (d ∷ ds)
        → get_elem? docs i ≡ some d
    from_here i d ds f = ap (get_elem? docs) (omega arith) ∙ f 0 d refl

    from_next : (i : ℕ) (d : Doc space) (ds : List (Doc space)) → From i (d ∷ ds) → From (i + 1) ds
    from_next i d ds f j x h = ap (get_elem? docs) (omega arith) ∙ f (suc j) x h

    pub scan-score :
        (query : List Float) (i : ℕ) (ds : List (Doc space))
        → From i ds
        → score_slots space docs query (scan space tombs i (map vector_of ds))
          ≡ some (map (scored query) (live_from space tombs i ds))
    unfolding scan score_slots live_from
    scan-score query i [] f = refl
    scan-score query i (d ∷ ds) f =
        let rest = scan-score query (i + 1) ds (from_next i d ds f) in
        ground (arith, rest, from_here i d ds f)

    pub distances-is_live :
        (q : QuantizedVector Float) (g : Doc space → QuantizedVector Float) (i : ℕ)
        (ds : List (Doc space))
        → From i ds
        → All (λ c. is_live c.1 ≡ true) (distances space q (scan space tombs i (map g ds)))
    unfolding scan distances
    distances-is_live q g i [] f = tt
    distances-is_live q g i (d ∷ ds) f =
        let rest = distances-is_live q g (i + 1) ds (from_next i d ds f) in
        ground (arith, rest, from_here i d ds f)

    -- What a slot weighs by its document.
    abbrev pub slot_weight : (Doc space → ℕ) → ℕ × ℕ → ℕ
    slot_weight w c = weight w (get_elem? docs c.1)

    pub total-distances :
        (w : Doc space → ℕ) (q : QuantizedVector Float) (g : Doc space → QuantizedVector Float)
        (i : ℕ) (ds : List (Doc space))
        → From i ds
        → total (slot_weight w) (distances space q (scan space tombs i (map g ds)))
          ≡ total w (live_from space tombs i ds)
    unfolding scan distances live_from
    total-distances w q g i [] f = refl
    total-distances w q g i (d ∷ ds) f =
        let rest = total-distances w q g (i + 1) ds (from_next i d ds f) in
        ground (arith, rest, from_here i d ds f)

    -- Any choice of live slots is scored without a panic.
    pub picked :
        (query : List Float) (vectors : List (List Float))
        → vectors ≡ map vector_of docs
        → (xs : List (ℕ × ℕ)) → All (λ c. is_live c.1 ≡ true) xs
        → (ds : List (Doc space)) × (pairs : List (List Float × ℕ)) × (with_vectors space vectors xs
            ≡ some pairs)
          × (score_slots space docs query pairs ≡ some (map (scored query) ds))
          × ((w : Doc space → ℕ) → total w ds ≡ total (slot_weight w) xs)
    unfolding with_vectors score_slots
    picked query vectors e [] a = ([], [], refl, refl, λ w. refl)
    picked query vectors e ((n, i) ∷ xs) a = elim (Option-cases (get_elem? docs i)) [
      | inl none_at ↦ absurd (ground (arith, a.0, none_at))
      | inr (d, at) ↦
          let (ds, pairs, read, score, totals) = picked query vectors e xs a.1 in
          let vector : get_elem? vectors i ≡ some (vector_of d) =
            ap (λ l. get_elem? l i) e ∙ get_elem?-map vector_of docs i d at in
          (
            d ∷ ds,
            (vector_of d, i) ∷ pairs,
            ground (arith, vector, read),
            ground (arith, at, score),
            λ w. omega (arith, totals w, ap (weight w) at),
          )
    ]
