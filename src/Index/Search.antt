-- ===== src/Index/Search.antt =====
-- crates/shard-node/src/index.rs: `search`, ranked by BM25. `none` is a panic.
use aether_engine.Prelude.{
  ℕ, String, Bool, true, false, not, ◌&&◌, List, [], ◌∷◌, Option, none, some, if◌then◌else◌,
  unwrap_or, nat_eq, string_eq, list_eq, ◌==◌, ltb, length, get_elem?, take, is_empty,
}
use aether_engine.Prelude.HashMap
use aether_engine.Prelude.HashMap.{HashMap}
use aether_engine.Prelude.HashSet.{contains}
use aether_engine.Prelude.Sort.{sort}
use aether_engine.Registry.State.{string_le}
use aether_engine.Tokens.{Term, tokenize}
use aether_engine.Index.{Analysis, InvertedIndex, Posting, ScoredHit, SearchResults, slot}

module _ (a : Analysis) where
  open a use {Real, letters, of_nat, half, add, sub, mul, div, ln, max, exceeds, k1, b}

  unfoldable pub average_length : InvertedIndex Real → Real
  average_length idx =
      if is_empty idx.by_key
      then of_nat 1
      else max (div (of_nat idx.total_len) (of_nat (length idx.by_key))) (of_nat 1)

  -- The weight of a term that `df` of `n` documents have.
  unfoldable pub idf : ℕ → ℕ → Real
  idf n df =
      ln (add (of_nat 1) (div (add (sub (of_nat n) (of_nat df)) half) (add (of_nat df) half)))

  -- The saturating, length-normalized frequency.
  unfoldable pub norm : ℕ → ℕ → Real → Real
  norm term_freq dl avgdl =
      let tf = of_nat term_freq in
      div (mul tf (add k1 (of_nat 1)))
        (add tf (mul k1 (add (sub (of_nat 1) b) (div (mul b (of_nat dl)) avgdl))))

  -- `*scores.entry(id).or_insert(0.0) += x`.
  unfoldable pub bump : Option Real → Real → Real
  bump score x = add (unwrap_or score (of_nat 0)) x

  -- The loop over the postings of one term.
  unfoldable pub score_list :
      List ℕ → Real → Real → HashMap ℕ Real → List Posting → Option (HashMap ℕ Real)
  score_list doc_len weight avgdl scores [] = some scores
  score_list doc_len weight avgdl scores ((doc_id, term_freq) ∷ list) =
      elim (get_elem? doc_len doc_id) [
        | none ↦ none
        | some dl ↦
            score_list doc_len weight avgdl
              (HashMap.insert scores doc_id
                (bump (HashMap.get scores doc_id) (mul weight (norm term_freq dl avgdl))))
              list
      ]

  -- The loop over the query's terms.
  unfoldable pub score_terms :
      InvertedIndex Real → List Term → HashMap ℕ Real → List Term → Option (HashMap ℕ Real)
  score_terms idx seen scores [] = some scores
  score_terms idx seen scores (term ∷ terms) = elim (contains seen term) [
    | true ↦ score_terms idx seen scores terms
    | false ↦ elim (HashMap.get idx.postings term) [
      | none ↦ score_terms idx (term ∷ seen) scores terms
      | some list ↦
          elim (score_list idx.doc_len (idf (length idx.by_key) (length list)) (average_length idx)
            scores list) [
              | none ↦ none
              | some scores' ↦ score_terms idx (term ∷ seen) scores' terms
            ]
    ]
  ]

  unfoldable pub collect_hits : InvertedIndex Real → HashMap ℕ Real → Option (List (ScoredHit Real))
  collect_hits idx [] = some []
  collect_hits idx ((doc_id, score) ∷ scores) =
      let rest = collect_hits idx scores in
      elim (slot idx.docs doc_id) [
        | none ↦ none
        | some doc ↦ elim rest [
          | none ↦ none
          | some hits ↦ some (record { doc = doc; score = score } ∷ hits)
        ]
      ]

  -- The comparison of `sort_by` is not `Greater`.
  unfoldable pub hit_before : ScoredHit Real → ScoredHit Real → Bool
  hit_before x y =
      if exceeds x.score y.score
      then true
      else if exceeds y.score x.score
      then false
      else string_le x.doc.icao24 y.doc.icao24

  unfoldable pub cut : ℕ → List (ScoredHit Real) → List (ScoredHit Real)
  cut limit hits = if not (limit == 0) && ltb limit (length hits) then take limit hits else hits

  unfoldable pub search : InvertedIndex Real → String → ℕ → Option (SearchResults Real)
  unfolding score_terms collect_hits cut
  search idx query limit =
      let terms = tokenize letters query in
      if is_empty terms
      then some (record { total_matched = 0; hits = [] })
      else elim (score_terms idx [] [] terms) [
        | none ↦ none
        | some scores ↦ elim (collect_hits idx scores) [
          | none ↦ none
          | some hits ↦
              some
                (record { total_matched = length scores; hits = cut limit (sort hit_before hits) })
        ]
      ]
