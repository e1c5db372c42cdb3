-- ===== src/Vectors/Histories.antt =====
-- The vector index after any history of insertions and removals, from empty on.
use aether_engine.Prelude.{
  ℕ, zero, suc, ◌*◌, ◌^◌, ◌<◌, ◌≤◌, ◌≡◌, refl, sym, ap, ◌∙◌, String, Bool, true, false, ◌⊎◌, inl,
  inr, List, [], ◌∷◌, Option, none, some, nat_eq, string_eq, subst, unwrap_or, length, leb,
  is_empty, take, arith, Bool-cases,
}
use aether_engine.Prelude.HashMap
use aether_engine.Prelude.HashMap.{HashMap, weigh}
use aether_engine.Prelude.Sort.{sort}
use aether_engine.Quant.{oversample}
use aether_engine.Index.Histories.{Change, inserted, removed, survivors, survivors_from}
use aether_engine.Vectors.{Space, VectorIndex, new, insert, remove, set_quantized}
use aether_engine.Vectors.Survivors.{Doc, Holds, new-Holds}
use aether_engine.Vectors.Insertion.{insert-Holds}
use aether_engine.Vectors.Removal.{remove-Holds}
use aether_engine.Vectors.Search.{VectorHit, search, flat_search_threshold}
use aether_engine.Vectors.Nearest.{
  IsShown, IsNearest, flat-IsShown, flat-IsNearest, quantized-IsShown, quantized-IsNearest,
}
use aether_engine.Vectors.Neighbours.{hnsw-IsShown}

take_none : {A : Type 0} (k : ℕ) → take {A = A} k [] ≡ []
take_none zero = refl
take_none (suc k) = refl

weigh_nothing : {V : Type 0} (w : V → ℕ) (m : HashMap String V) → length m ≡ 0 → weigh w m ≡ 0
unfolding weigh
weigh_nothing w [] e = refl
weigh_nothing w (x ∷ m) e = absurd (omega (arith, e))

module _ {Real : Type 0} (space : Space Real) where
  open space use {floats}
  open floats use {Float}

  unfoldable pub run : VectorIndex space → List (Change Real) → Option (VectorIndex space)
  run idx [] = some idx
  run idx (inserted doc ∷ changes) = elim (insert space idx doc) [
    | none ↦ none
    | some idx' ↦ run idx' changes
  ]
  run idx (removed icao24 ∷ changes) = elim (remove space idx icao24) [
    | none ↦ none
    | some (idx', there) ↦ run idx' changes
  ]

  run_from-Holds :
      (changes : List (Change Real)) (idx : VectorIndex space) (m : HashMap String (Doc space))
      → Holds space idx m
      → (idx' : VectorIndex space) × (run idx changes ≡ some idx')
        × Holds space idx' (survivors_from m changes)
  unfolding run
  run_from-Holds [] idx m h = (idx, refl, h)
  run_from-Holds (inserted doc ∷ changes) idx m h =
      let (idx1, e1, h1) = insert-Holds space idx m h doc in
      let (idx', e, h') = run_from-Holds changes idx1 (HashMap.insert m doc.icao24 doc) h1 in
      (idx', ground (arith, e1, e), h')
  run_from-Holds (removed icao24 ∷ changes) idx m h =
      let (idx1, e1, h1) = remove-Holds space idx m h icao24 in
      let (idx', e, h') = run_from-Holds changes idx1 (HashMap.remove m icao24) h1 in
      (idx', ground (arith, e1, e), h')

  -- An index in one of the two modes, before anything is inserted.
  abbrev pub empty : Bool → VectorIndex space
  empty on = set_quantized space (new space) on

  pub run_empty-Holds :
      (on : Bool) (changes : List (Change Real))
      → (idx : VectorIndex space) × (run (empty on) changes ≡ some idx)
        × Holds space idx (survivors changes)
  unfolding set_quantized
  run_empty-Holds on changes = run_from-Holds changes (empty on) [] (new-Holds space on)

  module _ (idx : VectorIndex space) (m : HashMap String (Doc space)) (h : Holds space idx m)
      (query : List Float) where
    nothing-IsShown : (k : ℕ) → IsShown space m k []
    nothing-IsShown k = record { shown = λ w. omega arith; few = omega arith }

    search_any-IsShown :
        (k : ℕ)
        → (r : List (VectorHit space)) × (search space idx query k ≡ some r) × IsShown space m k r
    unfolding search
    search_any-IsShown zero = ([], refl, nothing-IsShown zero)
    search_any-IsShown (suc k) =
        let (q, eq, shown_q) = quantized-IsShown space idx m h query (suc k) in
        let (f, ef, shown_f) = flat-IsShown space idx m h query (suc k) in
        let (g, eg, shown_g) = hnsw-IsShown space idx (suc k) m h query (omega arith) in
        elim (Bool-cases (is_empty idx.by_key)) [
          | inl nobody ↦ ([], ground (arith, nobody), nothing-IsShown (suc k))
          | inr some_one ↦ elim (Bool-cases idx.quantized_mode) [
            | inl on ↦ (q, ground (arith, some_one, on, eq), shown_q)
            | inr off ↦ elim (Bool-cases (leb (length idx.docs) flat_search_threshold)) [
              | inl small ↦ (f, ground (arith, some_one, off, small, ef), shown_f)
              | inr large ↦ (g, ground (arith, some_one, off, large, eg), shown_g)
            ]
          ]
        ]

    no_keys : (keys : HashMap String ℕ) → is_empty keys ≡ true → length keys ≡ 0
    no_keys [] e = refl
    no_keys (x ∷ keys) e = absurd (ground (arith, e))

    nothing-IsNearest : is_empty idx.by_key ≡ true → (k : ℕ) → IsNearest space m query k []
    unfolding sort
    nothing-IsNearest e k = record {
      ranking = [];
      all = λ w. sym (weigh_nothing w m (sym h.counted ∙ no_keys idx.by_key e));
      first = sym (take_none k);
      ordered = tt;
    }

    search_any-IsNearest :
        (k : ℕ)
        → ((idx.quantized_mode ≡ false) × (length idx.docs ≤ flat_search_threshold))
          ⊎ ((idx.quantized_mode ≡ true) × (length m ≤ k * oversample) × (k * oversample < 2 ^ 64))
        → (r : List (VectorHit space)) × (search space idx query k ≡ some r)
          × IsNearest space m query k r
    unfolding search
    search_any-IsNearest zero c =
        let (f, ef, near) = flat-IsNearest space idx m h query zero in
        ([], refl, record { ranking = near.ranking; all = near.all; first = refl; ordered = tt })
    search_any-IsNearest (suc k) c = elim (Bool-cases (is_empty idx.by_key)) [
      | inl nobody ↦ ([], ground (arith, nobody), nothing-IsNearest nobody (suc k))
      | inr some_one ↦ elim c [
        | inl (off, small) ↦
            let (f, ef, near) = flat-IsNearest space idx m h query (suc k) in
            (f, ground (arith, some_one, off, small, ef), near)
        | inr (on, few, fits) ↦
            let (q, eq, near) = quantized-IsNearest space idx m h query (suc k) few fits in
            (q, ground (arith, some_one, on, eq), near)
      ]
    ]

  module _ (on : Bool) (changes : List (Change Real)) (query : List Float) (k : ℕ) where
    -- After any history, in either mode, a search does not panic; it shows no document but those of
    -- the surviving aircraft, none of them twice, and at most k.
    pub search-IsShown :
        (idx : VectorIndex space) × (r : List (VectorHit space)) × (run (empty on) changes
          ≡ some idx)
        × (search space idx query k ≡ some r)
        × IsShown space (survivors changes) k r
    search-IsShown =
        let (idx, e, h) = run_empty-Holds on changes in
        let (r, e', shown) = search_any-IsShown idx (survivors changes) h query k in
        (idx, r, e, e', shown)

    -- A search of an index that scans its vectors, or of a quantized one with no more aircraft than
    -- candidates are kept, is exact: it gives the first k of all survivors, each with the score of the
    -- text that it has now, ranked: each scores more than the next, or not less and its name does not
    -- come after.
    pub search-IsNearest :
        (idx : VectorIndex space)
        → run (empty on) changes ≡ some idx
        → ((idx.quantized_mode ≡ false) × (length idx.docs ≤ flat_search_threshold))
          ⊎ ((idx.quantized_mode ≡ true)
              × (length (survivors changes) ≤ k * oversample)
              × (k * oversample < 2 ^ 64))
        → (r : List (VectorHit space)) × (search space idx query k ≡ some r)
          × IsNearest space (survivors changes) query k r
    search-IsNearest idx e c =
        let (idx', e', h') = run_empty-Holds on changes in
        let same : idx' ≡ idx = ap (λ o. unwrap_or o idx) (sym e' ∙ e) in
        search_any-IsNearest idx (survivors changes)
          (subst (λ i. Holds space i (survivors changes)) same h') query k c
