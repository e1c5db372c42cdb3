-- ===== src/Fanout/Ranking.antt =====
-- The merged result: ranked by score, one hit to an aircraft, the freshest, cut at the limit.
use aether_engine.Prelude.{
  ℕ, zero, suc, ◌≤◌, ◌≡◌, ◌≢◌, ◌⊎◌, inl, inr, refl, sym, ap, subst, Bool, true, false, not, ◌&&◌,
  List, [], ◌∷◌, ◌++◌, arith, nat_eq, ◌==◌, ltb, In, All, Bool-cases, length, take, drop,
  length-take_le,
}
use mathlib.Core.List.{append-nil}
use aether_engine.Prelude.Sort.{place, sort, place-All, sort-All}
use aether_engine.Fanout.{
  Scores, SearchHit, Answers, icao24_of, ranks_before, dedup_by_aircraft, ranked, truncate_to,
  gather, merge_search_responses,
}
use aether_engine.Fanout.Dedup.{Unique, IsFreshest, IsDeduped, dedup_by_aircraft-IsDeduped}

module _ {A : Type 0} (le : A → A → Bool) where
  place-In : (g x : A) (ys : List A) → (g ≡ x) ⊎ In g ys → In g (place le x ys)
  unfolding place
  place-In g x [] i = i
  place-In g x (y ∷ ys) i = elim (Bool-cases (le x y)) [
    | inl e ↦ rw e i
    | inr e ↦ rw e (elim i [
      | inl new ↦ inr (place-In g x ys (inl new))
      | inr old ↦ elim old [ inl here ↦ inl here | inr later ↦ inr (place-In g x ys (inr later)) ]
    ])
  ]

  sort-In : (g : A) (xs : List A) → In g xs → In g (sort le xs)
  unfolding sort
  sort-In g [] i = i
  sort-In g (x ∷ xs) i =
      place-In g x (sort le xs)
        (elim i [ inl here ↦ inl here | inr later ↦ inr (sort-In g xs later) ])

take-All : {A : Type 0} (P : A → Type 0) (n : ℕ) (xs : List A) → All P xs → All P (take n xs)
take-All P zero xs a = tt
take-All P (suc n) [] a = tt
take-All P (suc n) (x ∷ xs) a = (a.0, take-All P n xs a.1)

take-drop : {A : Type 0} (n : ℕ) (xs : List A) → xs ≡ take n xs ++ drop n xs
take-drop zero xs = refl
take-drop (suc n) [] = refl
take-drop (suc n) (x ∷ xs) = ap (◌∷◌ x) (take-drop n xs)

module _ (scores : Scores) where
  open scores use {Score, exceeds}

  -- No later hit scores more than an earlier one.
  abbrev pub IsRanked : List (SearchHit Score) → Type 0
  IsRanked [] = Unit
  IsRanked (h ∷ hs) = All (λ g. exceeds g.score h.score ≡ false) hs × IsRanked hs

  not_above :
      (a b c : SearchHit Score)
      → exceeds b.score a.score ≡ false
      → exceeds c.score b.score ≡ false
      → exceeds c.score a.score ≡ false
  not_above a b c h k = elim (Bool-cases (exceeds c.score a.score)) [
    | inr e ↦ e
    | inl e ↦ elim (scores.exceeds_split c.score b.score a.score e) [
      | inl x ↦ absurd (ground arith)
      | inr x ↦ absurd (ground arith)
    ]
  ]

  not_above_all :
      (a b : SearchHit Score) (hs : List (SearchHit Score))
      → exceeds b.score a.score ≡ false
      → All (λ g. exceeds g.score b.score ≡ false) hs
      → All (λ g. exceeds g.score a.score ≡ false) hs
  not_above_all a b [] h k = tt
  not_above_all a b (g ∷ gs) h k = (not_above a b g h k.0, not_above_all a b gs h k.1)

  before :
      (a b : SearchHit Score) → ranks_before scores a b ≡ true → exceeds b.score a.score ≡ false
  unfolding ranks_before
  before a b h = elim (Bool-cases (exceeds b.score a.score)) [
    | inr e ↦ e
    | inl e ↦ absurd (
        ground (arith, scores.exceeds_trans b.score a.score b.score, scores.exceeds_irrefl b.score))
  ]

  after :
      (a b : SearchHit Score) → ranks_before scores a b ≡ false → exceeds a.score b.score ≡ false
  unfolding ranks_before
  after a b h = ground arith

  place-IsRanked :
      (x : SearchHit Score) (ys : List (SearchHit Score))
      → IsRanked ys
      → IsRanked (place (ranks_before scores) x ys)
  unfolding place
  place-IsRanked x [] r = (tt, tt)
  place-IsRanked x (y ∷ ys) r = elim (Bool-cases (ranks_before scores x y)) [
    | inl e ↦ rw e ((before x y e, not_above_all x y ys (before x y e) r.0), r)
    | inr e ↦ rw e (
      place-All (ranks_before scores) (λ g. exceeds g.score y.score ≡ false) x ys (after x y e) r.0,
      place-IsRanked x ys r.1,
    )
  ]

  sort-IsRanked : (hs : List (SearchHit Score)) → IsRanked (sort (ranks_before scores) hs)
  unfolding sort
  sort-IsRanked [] = tt
  sort-IsRanked (h ∷ hs) = place-IsRanked h (sort (ranks_before scores) hs) (sort-IsRanked hs)

  place-Unique :
      (x : SearchHit Score) (ys : List (SearchHit Score))
      → All (λ g. icao24_of x ≢ icao24_of g) ys
      → Unique scores ys
      → Unique scores (place (ranks_before scores) x ys)
  unfolding place
  place-Unique x [] a u = (tt, tt)
  place-Unique x (y ∷ ys) a u = elim (Bool-cases (ranks_before scores x y)) [
    | inl e ↦ rw e (a, u)
    | inr e ↦ rw e (
      place-All (ranks_before scores) (λ g. icao24_of y ≢ icao24_of g) x ys (λ n. a.0 (sym n)) u.0,
      place-Unique x ys a.1 u.1,
    )
  ]

  sort-Unique :
      (hs : List (SearchHit Score))
      → Unique scores hs
      → Unique scores (sort (ranks_before scores) hs)
  unfolding sort
  sort-Unique [] u = tt
  sort-Unique (h ∷ hs) u =
      place-Unique h (sort (ranks_before scores) hs)
        (sort-All (ranks_before scores) (λ g. icao24_of h ≢ icao24_of g) hs u.0)
        (sort-Unique hs u.1)

  take-IsRanked : (n : ℕ) (hs : List (SearchHit Score)) → IsRanked hs → IsRanked (take n hs)
  take-IsRanked zero hs r = tt
  take-IsRanked (suc n) [] r = tt
  take-IsRanked (suc n) (h ∷ hs) r =
      (take-All (λ g. exceeds g.score h.score ≡ false) n hs r.0, take-IsRanked n hs r.1)

  take-Unique : (n : ℕ) (hs : List (SearchHit Score)) → Unique scores hs → Unique scores (take n hs)
  take-Unique zero hs u = tt
  take-Unique (suc n) [] u = tt
  take-Unique (suc n) (h ∷ hs) u =
      (take-All (λ g. icao24_of h ≢ icao24_of g) n hs u.0, take-Unique n hs u.1)

  pub record IsMerged (came : List (SearchHit Score)) (limit : ℕ) (out : List (SearchHit Score))
      : Type 0 where
    pub is_ranked : IsRanked out
    pub unique : Unique scores out
    pub freshest : All (IsFreshest scores came) out
    pub bounded : limit ≢ 0 → length out ≤ limit
    pub cut : List (SearchHit Score)
    pub all_ranked : IsRanked (out ++ cut)
    pub complete :
        (g : SearchHit Score)
        → In g came
        → (h : SearchHit Score) × In h (out ++ cut) × (icao24_of h ≡ icao24_of g)

  pub ranked-IsMerged :
      (came : List (SearchHit Score)) (limit : ℕ)
      → IsMerged came limit (truncate_to limit (ranked scores came))
  unfolding truncate_to
  ranked-IsMerged came limit =
      elim (Bool-cases (not (limit == 0) && ltb limit (length (ranked scores came)))) [
        | inl long ↦
            rw (long, truncate_to)
              (record {
                is_ranked = take-IsRanked limit hs ranks;
                unique = take-Unique limit hs uniques;
                freshest = take-All (IsFreshest scores came) limit hs fresh;
                bounded = λ n. length-take_le limit hs;
                cut = drop limit hs;
                all_ranked = subst IsRanked (take-drop limit hs) ranks;
                complete = λ g i. found (take-drop limit hs) g i;
              })
        | inr short ↦
            rw (short, truncate_to)
              (record {
                is_ranked = ranks;
                unique = uniques;
                freshest = fresh;
                bounded = λ n. ground arith;
                cut = [];
                all_ranked = subst IsRanked (sym (append-nil hs)) ranks;
                complete = λ g i. found (sym (append-nil hs)) g i;
              })
      ]
    where
      hs : List (SearchHit Score)
      hs = ranked scores came

      d : IsDeduped scores came (dedup_by_aircraft scores came)
      d = dedup_by_aircraft-IsDeduped scores came

      ranks : IsRanked hs
      ranks = sort-IsRanked (dedup_by_aircraft scores came)

      uniques : Unique scores hs
      uniques = sort-Unique (dedup_by_aircraft scores came) d.unique

      fresh : All (IsFreshest scores came) hs
      fresh =
          sort-All (ranks_before scores) (IsFreshest scores came) (dedup_by_aircraft scores came)
            d.freshest

      found :
          {ys : List (SearchHit Score)}
          → hs ≡ ys
          → (g : SearchHit Score) → In g came
          → (h : SearchHit Score) × In h ys × (icao24_of h ≡ icao24_of g)
      found e g i =
          let (h, kept, same) = d.complete g i in
          (
            h,
            subst (In h) e (sort-In (ranks_before scores) h (dedup_by_aircraft scores came) kept),
            same,
          )

  -- The merged hits are ranked by score, number at most the limit if there is one, and hold one hit of
  -- an aircraft, which came in from a shard and which no other hit of that aircraft supersedes; behind
  -- what the limit cuts off, which ranks below, every aircraft that came in is there.
  pub merge_search_responses-IsMerged :
      (fanout : Answers Score) (limit shards_queried placement_version elapsed_ms : ℕ)
      → IsMerged
          (gather fanout.responses).0
          limit
          (merge_search_responses scores fanout limit shards_queried placement_version
            elapsed_ms).hits
  unfolding merge_search_responses
  merge_search_responses-IsMerged fanout limit shards_queried placement_version elapsed_ms =
      ranked-IsMerged (gather fanout.responses).0 limit
