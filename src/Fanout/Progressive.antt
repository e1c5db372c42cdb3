-- ===== src/Fanout/Progressive.antt =====
-- The progressive merge: what every update promises, and the accounts of the manifest.
use aether_engine.Prelude.{
  ℕ, suc, ◌+◌, ◌-◌, ◌^◌, ◌≤◌, ◌<◌, ◌≡◌, ◌≢◌, ◌⊎◌, inl, inr, refl, sym, ap, subst, String, List, [],
  ◌∷◌, ◌++◌, map, some, arith, nat_eq, string_eq, In, All, Option-cases, length,
}
use mathlib.Core.List.{append_assoc, append-nil}
use native.Mathlib.Nat.{mod-eq_of_lt}
use aether_engine.Prelude.HashMap.{HashMap, get, length-insert}
use aether_engine.Fanout.{
  Scores, SearchHit, SearchResponse, Answers, QueryManifest, icao24_of, keep, keep_all,
  dedup_by_aircraft, build_manifest, gather, merge_search_responses,
}
use aether_engine.Fanout.Running.{ProgressiveMerge, add, start}
use aether_engine.Fanout.Dedup.{Unique}
use aether_engine.Fanout.Ranking.{IsRanked, ranked-IsMerged}

In-append : {A : Type 0} (g : A) (xs ys : List A) → In g (xs ++ ys) → In g xs ⊎ In g ys
In-append g [] ys i = inr i
In-append g (x ∷ xs) ys (inl here) = inl (inl here)
In-append g (x ∷ xs) ys (inr later) = elim (In-append g xs ys later) [
  | inl a ↦ inl (inr a)
  | inr b ↦ inr b
]

In-append_left : {A : Type 0} (g : A) (xs ys : List A) → In g xs → In g (xs ++ ys)
In-append_left g [] ys i = absurd i
In-append_left g (x ∷ xs) ys (inl here) = inl here
In-append_left g (x ∷ xs) ys (inr later) = inr (In-append_left g xs ys later)

In-append_right : {A : Type 0} (g : A) (xs ys : List A) → In g ys → In g (xs ++ ys)
In-append_right g [] ys i = i
In-append_right g (x ∷ xs) ys i = inr (In-append_right g xs ys i)

All_at : {A : Type 0} (P : A → Type 0) (xs : List A) (g : A) → All P xs → In g xs → P g
All_at P [] g a i = absurd i
All_at P (x ∷ xs) g a (inl here) = subst P (sym here) a.0
All_at P (x ∷ xs) g a (inr later) = All_at P xs g a.1 later

module _ (scores : Scores) where
  open scores use {Score}

  unfoldable pub add_all :
      ProgressiveMerge scores → List (SearchResponse Score) → ProgressiveMerge scores
  unfolding add
  add_all m [] = m
  add_all m (r ∷ rs) = add_all (add scores m r) rs

  -- What holds of the running result when the given hits have come in.
  pub record IsRunning (came : List (SearchHit Score)) (m : ProgressiveMerge scores) : Type 0 where
    pub is_ranked : IsRanked scores m.hits
    pub unique : Unique scores m.hits
    pub bounded : m.limit ≢ 0 → length m.hits ≤ m.limit
    pub known : (h : SearchHit Score) → In h m.hits → In h came

  add-IsRunning :
      (came : List (SearchHit Score)) (m : ProgressiveMerge scores) (r : SearchResponse Score)
      → IsRunning came m
      → IsRunning (came ++ r.hits) (add scores m r)
  unfolding add
  add-IsRunning came m r s =
      let c = ranked-IsMerged scores (m.hits ++ r.hits) m.limit in
      record {
        is_ranked = c.is_ranked;
        unique = c.unique;
        bounded = c.bounded;
        known = λ h i. elim (In-append h m.hits r.hits (All_at _ _ h c.freshest i).0) [
          | inl old ↦ In-append_left h came r.hits (s.known h old)
          | inr new ↦ In-append_right h came r.hits new
        ];
      }

  add_all-IsRunning :
      (came : List (SearchHit Score)) (m : ProgressiveMerge scores)
      (rs : List (SearchResponse Score))
      → IsRunning came m
      → IsRunning (came ++ (gather rs).0) (add_all m rs)
  unfolding add_all gather
  add_all-IsRunning came m [] s = subst (λ hs. IsRunning hs m) (sym (append-nil came)) s
  add_all-IsRunning came m (r ∷ rs) s =
      subst (λ hs. IsRunning hs (add_all (add scores m r) rs))
        (append_assoc came r.hits (gather rs).0)
        (add_all-IsRunning (came ++ r.hits) (add scores m r) rs (add-IsRunning came m r s))

  -- Whatever shards have answered, and in whatever order, the running hits are ranked by score, hold one
  -- hit of an aircraft, number at most the limit if there is one, and all came in from those shards.
  pub progressive-IsRunning :
      (shards_queried limit placement_version : ℕ) (rs : List (SearchResponse Score))
      → IsRunning (gather rs).0 (add_all (start scores shards_queried limit placement_version) rs)
  unfolding start
  progressive-IsRunning shards_queried limit placement_version rs =
      add_all-IsRunning [] (start scores shards_queried limit placement_version) rs
        (record { is_ranked = tt; unique = tt; bounded = λ n. omega arith; known = λ h i. i })

  keep-length :
      (best : HashMap String (SearchHit Score)) (h : SearchHit Score)
      → length (keep scores best h) ≤ length best + 1
  unfolding keep
  keep-length best h = elim (Option-cases (get best (icao24_of h))) [
    | inl e ↦ rw (e, keep) (ground (arith, length-insert best (icao24_of h) h))
    | inr (o, e) ↦ rw (e, keep) (ground (arith, length-insert best (icao24_of h) h))
  ]

  keep_all-length :
      (best : HashMap String (SearchHit Score)) (hs : List (SearchHit Score))
      → length (keep_all scores best hs) ≤ length best + length hs
  unfolding keep_all
  keep_all-length best [] = omega arith
  keep_all-length best (h ∷ hs) =
      omega (arith, keep_all-length (keep scores best h) hs, keep-length best h)

  length-map : {A B : Type 0} (f : A → B) (xs : List A) → length (map f xs) ≡ length xs
  length-map f [] = refl
  length-map f (x ∷ xs) = ap suc (length-map f xs)

  dedup-length : (hs : List (SearchHit Score)) → length (dedup_by_aircraft scores hs) ≤ length hs
  unfolding dedup_by_aircraft
  dedup-length hs = omega (
    arith,
    length-map (λ (entry : String × SearchHit Score). entry.1) (keep_all scores [] hs),
    keep_all-length [] hs,
  )

  -- The manifest of a merged response accounts for every hit and names every omitted shard: where fewer
  -- than 2^32 hits come in, those that deduplication dropped and those that it kept are all of them.
  pub manifest_accounts :
      (fanout : Answers Score) (limit shards_queried placement_version elapsed_ms : ℕ)
      → length (gather fanout.responses).0 < 2 ^ 32
      → (q : QueryManifest) × ((merge_search_responses scores fanout limit shards_queried
            placement_version elapsed_ms).manifest
          ≡ some q)
        × (q.deduped + length (dedup_by_aircraft scores (gather fanout.responses).0)
            ≡ length (gather fanout.responses).0)
        × (q.omitted ≡ fanout.omitted)
        × (q.placement_version ≡ placement_version)
  unfolding merge_search_responses build_manifest
  manifest_accounts fanout limit shards_queried placement_version elapsed_ms h =
      let all_hits = (gather fanout.responses).0 in
      (
        _,
        refl,
        rw (mod-eq_of_lt (dropped all_hits h)) (omega (arith, dedup-length all_hits)),
        refl,
        refl,
      )
    where
      dropped :
          (hs : List (SearchHit Score))
          → length hs < 2 ^ 32
          → length hs - length (dedup_by_aircraft scores hs) < 2 ^ 32
      dropped hs k = omega arith
