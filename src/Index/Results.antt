-- ===== src/Index/Results.antt =====
-- What a search of the index answers after any history of insertions and removals.
use aether_engine.Prelude.{
  ℕ, suc, ◌+◌, ◌-◌, ◌<◌, ◌≡◌, refl, sym, ap, ◌∙◌, String, Bool, true, false, List, [], ◌∷◌, Option,
  none, some, if◌then◌else◌, is_some, nat_eq, string_eq, length, is_empty, ltb, arith, Option-cases,
  Bool-cases, inl, inr, All, any,
}
use aether_engine.Prelude.HashMap
use aether_engine.Prelude.HashMap.{
  HashMap, get, get-remove, Distinct, remove-Distinct, length-remove, weigh, weight,
}
use aether_engine.Prelude.Sort.{sort, sort-All, any-sort, IsChain}
use aether_engine.Outranking.{
  first, first_nil, cut-first, Outranks, IsOnce, sort-Outranks, sort-IsOnce,
}
use aether_engine.Filter.{FlightDocument}
use aether_engine.Tokens.{tokenize}
use aether_engine.Index.{Analysis, InvertedIndex, ScoredHit, SearchResults, slot}
use aether_engine.Index.Corpus.{weigh_slots}
use native.Mathlib.Nat.{zero-add}
use aether_engine.Index.Rows.{found}
use aether_engine.Index.Postings.{is_empty_nil}
use aether_engine.Index.Survivors.{Holds}
use aether_engine.Index.Search.{score_terms, hit_before, cut, search}
use aether_engine.Index.Ranked.{rate, rate_from, IsRated, names, score_terms_lem, collect_hits_lem}

empty_of_get : {V : Type 0} (m : HashMap ℕ V) → ((i : ℕ) → is_some (get m i) ≡ false) → length m ≡ 0
unfolding get
empty_of_get [] h = refl
empty_of_get ((j, v) ∷ m) h = ground (arith, h j, nat_eq.same_iff j j)

-- A map from slots has one entry for each slot whose document passes the test.
abbrev passes_at : {D : Type 0} → (D → Bool) → List (Option D) → ℕ → Bool
passes_at p docs i = elim (slot docs i) [ none ↦ false | some d ↦ p d ]

abbrev pub tally : {D : Type 0} → (D → Bool) → D → ℕ
tally p d = if p d then 1 else 0

length-eq-weigh_slots :
    {D V : Type 0} (p : D → Bool) (docs : List (Option D)) (base : ℕ) (m : HashMap ℕ V)
    → Distinct m
    → ((i : ℕ) → i < base → is_some (get m i) ≡ false)
    → ((j : ℕ) → is_some (get m (base + j)) ≡ passes_at p docs j)
    → length m ≡ weigh_slots (tally p) docs
unfolding weigh_slots slot
length-eq-weigh_slots p [] base m d low h = empty_of_get m (λ i. elim (Bool-cases (ltb i base)) [
  | inl less ↦ low i (ground arith)
  | inr more ↦
      let e : base + (i - base) ≡ i = ground arith in
      ap (λ k. is_some (get m k)) (sym e) ∙ h (i - base)
])
length-eq-weigh_slots p (x ∷ docs) base m d low h =
    let rest =
      length-eq-weigh_slots p docs (base + 1) (HashMap.remove m base) (remove-Distinct m base d)
        (λ i b. ground (arith, get-remove m base i, low i))
        (λ j.
          let e : base + 1 + j ≡ base + suc j = omega arith in
          ground (arith, get-remove m base (base + 1 + j), h (suc j), ap (get m) e)) in
    let e : base + 0 ≡ base = omega arith in
    ground (arith, rest, length-remove m base d, h 0, ap (get m) e)

module _ (a : Analysis) where
  open a use {Real, letters, exceeds}

  -- Does the document have a term of the query?
  abbrev pub matches : HashMap String (FlightDocument Real) → String → FlightDocument Real → Bool
  matches m query d = is_some (rate a m d query)

  -- What a search answers: a ranking of exactly the aircraft of the map that match, or the first of it,
  -- and the number of those that match.
  pub record Answers (m : HashMap String (FlightDocument Real)) (query : String) (limit : ℕ)
      (r : SearchResults Real) : Type 0 where
    pub ranking : List (ScoredHit Real)
    pub rated : All (IsRated a m query) ranking
    pub complete :
        (icao24 : String) (d : FlightDocument Real)
        → get m icao24 ≡ some d
        → matches m query d ≡ true
        → any (names a icao24) ranking ≡ true
    pub once : IsOnce (λ (hit : ScoredHit Real). hit.score) (λ hit. hit.doc.icao24) exceeds ranking
    pub ordered :
        IsChain
          (Outranks (λ (hit : ScoredHit Real). hit.score) (λ hit. hit.doc.icao24) exceeds)
          ranking
    pub shown : r.hits ≡ first limit ranking
    pub matched : r.total_matched ≡ weigh (tally (matches m query)) m

  weigh_none : {D : Type 0} (w : D → ℕ) (m : HashMap String D) → ((d : D) → w d ≡ 0) → weigh w m ≡ 0
  unfolding weigh
  weigh_none w [] z = refl
  weigh_none w ((k, d) ∷ m) z = omega (arith, z d, weigh_none w m z)

  module _ (idx : InvertedIndex Real) (m : HashMap String (FlightDocument Real))
      (h : Holds a idx m) where
    no_terms :
        (query : String)
        → is_empty (tokenize letters query) ≡ true
        → (d : FlightDocument Real) → matches m query d ≡ false
    unfolding rate rate_from
    no_terms query e d = ground (arith, is_empty_nil (tokenize letters query) e)

    -- The score of the document in a slot.
    abbrev rate_at : String → ℕ → Option Real
    rate_at query i = elim (slot idx.docs i) [ none ↦ none | some d ↦ rate a m d query ]

    rated_slots :
        (query : String)
        → (scores : HashMap ℕ Real) × (score_terms a idx [] [] (tokenize letters query)
            ≡ some scores)
          × ((i : ℕ) → get scores i ≡ rate_at query i)
          × Distinct scores
    unfolding rate get
    rated_slots query =
        let (scores, e, reads, once) =
          score_terms_lem a idx m h (tokenize letters query) [] [] tt in
        (scores, e, (λ i. ground (arith, reads i)), once)

    scored :
        (query : String) (scores : HashMap ℕ Real)
        → ((i : ℕ) → get scores i ≡ rate_at query i)
        → (i : ℕ) (s : Real) → get scores i ≡ some s
        → (d : FlightDocument Real) × (slot idx.docs i ≡ some d) × (rate a m d query ≡ some s)
    scored query scores reads i s p = elim (Option-cases (slot idx.docs i)) [
      | inl gone ↦ absurd (cc (reads i, gone, p))
      | inr (d, at) ↦ (d, at, ground (arith, reads i))
    ]

    -- The slot of an aircraft of the map.
    place_of :
        (icao24 : String) (d : FlightDocument Real)
        → get m icao24 ≡ some d
        → (i : ℕ) × (slot idx.docs i ≡ some d) × (d.icao24 ≡ icao24)
    place_of icao24 d e = elim (Option-cases (get idx.by_key icao24)) [
      | inl gone ↦ absurd (cc (h.rows.reads icao24, gone, e))
      | inr (i, p) ↦ (i, found h.rows icao24 i p ∙ e, h.rows.named icao24 d e)
    ]

    pub search-Answers :
        (query : String) (limit : ℕ)
        → (r : SearchResults Real) × (search a idx query limit ≡ some r) × Answers m query limit r
    unfolding search
    search-Answers query limit = elim (Bool-cases (is_empty (tokenize letters query))) [
      | inl none_asked ↦ (
        record { total_matched = 0; hits = [] },
        ground (arith, none_asked),
        record {
          ranking = [];
          rated = tt;
          once = tt;
          ordered = tt;
          shown = first_nil limit;
          complete = λ k d e f. absurd (cc (no_terms query none_asked d, f));
          matched = sym (
              weigh_none (tally (matches m query)) m
                (λ d. ground (arith, no_terms query none_asked d)));
        },
      )
      | inr asked ↦
          let (scores, e, reads, once) = rated_slots query in
          let (hits, e', all, found_all, found_back, unique) =
            collect_hits_lem a idx m h query scores (scored query scores reads) once in
          (
            record { total_matched = length scores; hits = cut a limit (sort (hit_before a) hits) },
            ground (arith, asked, e, e'),
            record {
              ranking = sort (hit_before a) hits;
              rated = sort-All (hit_before a) (IsRated a m query) hits all;
              complete = λ k d f g.
                  let (i, at, own) = place_of k d f in
                  let there = found_all i d (ground (arith, reads i, at, g)) at in
                  rw (← own) (any-sort (hit_before a) (names a d.icao24) hits ∙ there);
              once =
                  sort-IsOnce (λ hit. hit.score) (λ hit. hit.doc.icao24) exceeds (hit_before a) hits
                    unique;
              ordered =
                  sort-Outranks (λ hit. hit.score) (λ hit. hit.doc.icao24) exceeds (hit_before a)
                    (λ x y. unfold hit_before in refl) hits;
              shown = unfold cut in cut-first limit (sort (hit_before a) hits);
              matched =
                  length-eq-weigh_slots (matches m query) idx.docs 0 scores once
                    (λ i b. absurd (omega (arith, b)))
                    (λ j. ground (arith, reads j, zero-add j, ap (get scores) (zero-add j)))
                  ∙ h.stocked (tally (matches m query));
            },
          )
    ]
