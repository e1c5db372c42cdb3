-- ===== src/Hybrid/Ranks.antt =====
-- The fused ranking, read by aircraft: which hit stands for it and what its score is.
use aether_engine.Prelude.{
  ℕ, ◌+◌, ◌≡◌, refl, sym, ap, ◌∙◌, String, Bool, true, false, List, [], ◌∷◌, map, Option, none,
  some, if◌then◌else◌, nat_eq, string_eq, ◌==◌, arith, Bool-cases, Option-cases, inl, inr,
}
use aether_engine.Prelude.HashMap
use aether_engine.Prelude.HashMap.{HashMap, get, get-insert, get_same, Distinct, insert-Distinct}
use mathlib.Core.List.{Perm}
use aether_engine.Prelude.Sort.{sort, sort-perm, IsChain}
use aether_engine.Outranking.{first, cut-first, Outranks, sort-Outranks}
use aether_engine.Fanout.{SearchHit, icao24_of}
use aether_engine.Hybrid.{
  Fractions, Fused, contribution, fuse_hit, fuse_list, fuse_both, fused_before, rescored, rrf_fuse,
}

module _ (fractions : Fractions) where
  open fractions use {Score, reciprocal, add, exceeds}

  -- The place and the hit of an aircraft in a ranking.
  abbrev pub locate : ℕ → List (SearchHit Score) → String → Option (ℕ × SearchHit Score)
  locate i [] k = none
  locate i (hit ∷ hits) k = if icao24_of hit == k then some (i, hit) else locate (i + 1) hits k

  -- No aircraft stands twice in a ranking.
  abbrev pub IsRanking : List (SearchHit Score) → Type 0
  IsRanking [] = Unit
  IsRanking (hit ∷ hits) = (((i : ℕ) → locate i hits (icao24_of hit) ≡ none)) × IsRanking hits

  -- What a place in a ranking makes of an entry.
  abbrev pub joined :
      Bool
      → Option (Score × SearchHit Score)
      → Option (ℕ × SearchHit Score)
      → Option (Score × SearchHit Score)
  joined prefer entry none = entry
  joined prefer none (some (i, hit)) = some (reciprocal (60 + (i + 1)), hit)
  joined prefer (some (score, existing)) (some (i, hit)) =
      some (add score (reciprocal (60 + (i + 1))), if prefer then hit else existing)

  -- An entry under any key, joined with a place.
  abbrev put_at : Bool → Fused fractions → String → ℕ → SearchHit Score → Fused fractions
  put_at prefer fused key i hit = elim (get fused key) [
    | none ↦ HashMap.insert fused key (contribution fractions i, hit)
    | some (score, existing) ↦
        HashMap.insert fused key
          (add score (contribution fractions i), if prefer then hit else existing)
  ]

  get-put_at :
      (prefer : Bool) (fused : Fused fractions) (key : String) (i : ℕ) (hit : SearchHit Score)
      (k : String)
      → get (put_at prefer fused key i hit) k
        ≡ (if key == k then joined prefer (get fused k) (some (i, hit)) else get fused k)
  get-put_at prefer fused key i hit k = elim (Option-cases (get fused key)) [
    | inl e ↦
        ground
          (arith, e, get-insert fused key k (contribution fractions i, hit), get_same fused key k)
    | inr ((score, existing), e) ↦ ground (
      arith,
      e,
      get-insert fused key k
          (add score (contribution fractions i), if prefer then hit else existing),
      get_same fused key k,
    )
  ]

  -- One round: the aircraft of the hit takes its place, if it has a name, and comes no more.
  fuse-step :
      (prefer : Bool) (fused : Fused fractions) (key : String) (i : ℕ) (hit : SearchHit Score)
      (k : String) (later : Option (ℕ × SearchHit Score))
      → (k == "") ≡ false
      → ((key == k) ≡ true → later ≡ none)
      → joined prefer (get (if key == "" then fused else put_at prefer fused key i hit) k) later
        ≡ joined prefer (get fused k) (if key == k then some (i, hit) else later)
  fuse-step prefer fused key i hit k later n gone = elim (Bool-cases (key == k)) [
    | inl same ↦
        let filled : (key == "") ≡ false =
          ap (λ x. x == "") ((string_eq.same_iff key k).0 same) ∙ n in
        ground (arith, same, filled, gone same, get-put_at prefer fused key i hit k)
    | inr other ↦ ground (arith, other, get-put_at prefer fused key i hit k)
  ]

  get-fuse_list :
      (prefer : Bool) (hits : List (SearchHit Score)) (fused : Fused fractions) (i : ℕ) (k : String)
      → IsRanking hits
      → (k == "") ≡ false
      → get (fuse_list fractions prefer fused i hits) k
        ≡ joined prefer (get fused k) (locate i hits k)
  unfolding fuse_list fuse_hit
  get-fuse_list prefer [] fused i k u n = refl
  get-fuse_list prefer (hit ∷ hits) fused i k u n =
      let key = icao24_of hit in
      get-fuse_list prefer hits (if key == "" then fused else put_at prefer fused key i hit) (i + 1)
        k u.1 n
      ∙ fuse-step prefer fused key i hit k (locate (i + 1) hits k) n
          (λ same. ap (locate (i + 1) hits) (sym ((string_eq.same_iff key k).0 same)) ∙ u.0 (i + 1))

  put_at-Distinct :
      (prefer : Bool) (fused : Fused fractions) (key : String) (i : ℕ) (hit : SearchHit Score)
      → Distinct fused
      → Distinct (put_at prefer fused key i hit)
  put_at-Distinct prefer fused key i hit d = elim (Option-cases (get fused key)) [
    | inl e ↦ ground (arith, e, insert-Distinct fused key (contribution fractions i, hit) d)
    | inr ((score, existing), e) ↦ ground (
      arith,
      e,
      insert-Distinct fused key
          (add score (contribution fractions i), if prefer then hit else existing) d,
    )
  ]

  start-Distinct :
      (prefer : Bool) (fused : Fused fractions) (key : String) (i : ℕ) (hit : SearchHit Score)
      → Distinct fused
      → Distinct (if key == "" then fused else put_at prefer fused key i hit)
  start-Distinct prefer fused key i hit d =
      ground (arith, d, put_at-Distinct prefer fused key i hit d)

  -- Hits without a name leave no trace, and no aircraft gets a second entry.
  fuse_list-Distinct :
      (prefer : Bool) (hits : List (SearchHit Score)) (fused : Fused fractions) (i : ℕ)
      → Distinct fused
      → Distinct (fuse_list fractions prefer fused i hits)
        × (get (fuse_list fractions prefer fused i hits) "" ≡ get fused "")
  unfolding fuse_list fuse_hit
  fuse_list-Distinct prefer [] fused i d = (d, refl)
  fuse_list-Distinct prefer (hit ∷ hits) fused i d =
      let key = icao24_of hit in
      let start = if key == "" then fused else put_at prefer fused key i hit in
      let (distinct, unnamed) =
        fuse_list-Distinct prefer hits start (i + 1) (start-Distinct prefer fused key i hit d) in
      (distinct, unnamed ∙ start_unnamed prefer fused key i hit)
    where
      start_unnamed :
          (prefer : Bool) (fused : Fused fractions) (key : String) (i : ℕ) (hit : SearchHit Score)
          → get (if key == "" then fused else put_at prefer fused key i hit) "" ≡ get fused ""
      start_unnamed prefer fused key i hit = elim (Bool-cases (key == "")) [
        | inl blank ↦ ground (arith, blank)
        | inr named ↦ ground (arith, named, get-put_at prefer fused key i hit "")
      ]

  -- The fused list has one entry for each aircraft of the two rankings.
  pub record IsFused (keyword vector out : List (SearchHit Score)) (limit : ℕ) : Type 0 where
    pub fused : Fused fractions
    pub once : Distinct fused
    pub entries :
        (k : String)
        → (k == "") ≡ false
        → get fused k ≡ joined false (joined true none (locate 0 keyword k)) (locate 0 vector k)
    pub unnamed : get fused "" ≡ none
    pub ranking : List (SearchHit Score)
    pub members : Perm ranking (map (λ entry. record entry.1.1 { score = entry.1.0 }) fused)
    pub ordered : IsChain (Outranks (λ hit. hit.score) icao24_of exceeds) ranking
    pub shown : out ≡ first limit ranking

  -- Fusion of two rankings in which no aircraft stands twice: there is one entry for each named aircraft
  -- that either ranking has, and no other. Its score is 1 / (60 + rank) for the one ranking that has it,
  -- or the sum for both, and its hit is the keyword ranking's where that has one. The result is a ranking
  -- of all entries, or the first of it up to the limit if there is one, in which each scores more than
  -- the next, or not less and its name does not come after.
  pub rrf_fuse-IsFused :
      (keyword vector : List (SearchHit Score)) (limit : ℕ)
      → IsRanking keyword
      → IsRanking vector
      → IsFused keyword vector (rrf_fuse fractions keyword vector limit) limit
  unfolding rrf_fuse fuse_both get
  rrf_fuse-IsFused keyword vector limit u v =
      let keywords = fuse_list fractions true [] 0 keyword in
      let (once, blank) = fuse_list-Distinct true keyword [] 0 tt in
      let (twice, unnamed) = fuse_list-Distinct false vector keywords 0 once in
      let fused = fuse_both fractions keyword vector in
      let ranking = sort (fused_before fractions) (map (rescored fractions) fused) in
      record {
        fused = fused;
        once = twice;
        entries = λ k n.
            get-fuse_list false vector keywords 0 k v n
            ∙ ap (λ o. joined false o (locate 0 vector k)) (get-fuse_list true keyword [] 0 k u n);
        unnamed = unnamed ∙ blank;
        ranking = ranking;
        members = sort-perm (fused_before fractions) (map (rescored fractions) fused);
        ordered =
            sort-Outranks (λ hit. hit.score) icao24_of exceeds (fused_before fractions)
              (λ x y. unfold fused_before in refl) (map (rescored fractions) fused);
        shown = cut-first limit ranking;
      }
