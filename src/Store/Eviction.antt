-- ===== src/Store/Eviction.antt =====
-- Eviction takes out the aircraft of one virtual shard, and no others.
use aether_engine.Prelude.{
  ℕ, suc, ◌≡◌, refl, sym, ap, ◌∙◌, String, Bool, false, not, ◌&&◌, List, [], ◌∷◌, map, none, some,
  nat_eq, string_eq, ◌==◌, length, retain, any, arith, Bool-cases, Option-cases, inl, inr,
  if◌then◌else◌,
}
use aether_engine.Prelude.HashMap
use aether_engine.Prelude.HashMap.{HashMap, get, get-remove, weigh}
use aether_engine.Shard.{vshard_for}
use aether_engine.Index as Index
use aether_engine.Index.{Analysis, flatten}
use aether_engine.Index.Gather.{any-stored}
use aether_engine.Index.Histories.{length-retain-flatten}
use aether_engine.Index.Results.{tally}
use aether_engine.Vectors.{Space}
use aether_engine.Store.{Doc, ShardStore, documents, doomed, evict_vshard}
use aether_engine.Store.Agreement.{Agrees, strip, remove_all-Agrees, slots_used}

-- Whether an eviction of virtual shard `vshard` of `v` is about an aircraft.
abbrev pub leaves : ℕ → ℕ → String → Bool
leaves vshard v icao24 = not (v == 0) && (vshard_for icao24 v == vshard)

weigh_cong :
    {V : Type 0} (w u : V → ℕ) (m : HashMap String V)
    → ((x : V) → w x ≡ u x)
    → weigh w m ≡ weigh u m
unfolding weigh
weigh_cong w u [] e = refl
weigh_cong w u ((k, x) ∷ m) e = omega (arith, e x, weigh_cong w u m e)

weigh_nought : {V : Type 0} (w : V → ℕ) (m : HashMap String V) → ((x : V) → w x ≡ 0) → weigh w m ≡ 0
unfolding weigh
weigh_nought w [] e = refl
weigh_nought w ((k, x) ∷ m) e = omega (arith, e x, weigh_nought w m e)

module _ (a : Analysis) (space : Space a.Real) where
  get-strip :
      (m : HashMap String (Doc a space)) (names : List String) (k : String)
      → get (strip a space m names) k ≡ (if any (λ n. n == k) names then none else get m k)
  unfolding any
  get-strip m [] k = refl
  get-strip m (n ∷ names) k =
      ground (arith, get-strip (HashMap.remove m n) names k, get-remove m n k)

  module _ (p : String → Bool) where
    abbrev of_doc : Doc a space → Bool
    of_doc d = p d.icao24

    -- A name that passes is among those of the documents that pass if it is one of the documents'.
    any-names :
        (docs : List (Doc a space)) (k : String)
        → any (λ n. n == k) (map (λ (d : Doc a space). d.icao24) (retain of_doc docs))
          ≡ (p k && any (λ (d : Doc a space). d.icao24 == k) docs)
    unfolding any retain
    any-names [] k = ground arith
    any-names (d ∷ docs) k =
        ground (arith, any-names docs k, ap p {x = d.icao24} {y = k}, string_eq.same_iff d.icao24 k)

  length-names :
      (p : Doc a space → Bool) (docs : List (Doc a space))
      → length (map (λ (d : Doc a space). d.icao24) (retain p docs)) ≡ length (retain p docs)
  length-names p docs = names (retain p docs)
    where
      names :
          (ds : List (Doc a space)) → length (map (λ (d : Doc a space). d.icao24) ds) ≡ length ds
      names [] = refl
      names (d ∷ ds) = ap suc (names ds)

  module _ (s : ShardStore a space) (m : HashMap String (Doc a space)) (h : Agrees a space s m)
      (vshard v : ℕ) where
    abbrev names : List String
    names = doomed a space (documents a space s) vshard v

    stripped :
        (v == 0) ≡ false
        → (k : String)
        → get (strip a space m names) k ≡ (if leaves vshard v k then none else get m k)
    unfolding doomed documents Index.documents
    stripped nonzero k =
        let p = λ (n : String). vshard_for n v == vshard in
        let listed = any-names p (flatten s.keyword.docs) k in
        get-strip m names k ∙ elim (Option-cases (get m k)) [
          | inl gone ↦ ground (arith, gone)
          | inr (d, e) ↦ ground (arith, e, nonzero, listed, any-stored h.keyword.rows k d e)
        ]

    counted : (v == 0) ≡ false → length names ≡ weigh (tally (λ d. leaves vshard v d.icao24)) m
    unfolding doomed documents Index.documents
    counted nonzero =
        let p = λ (d : Doc a space). vshard_for d.icao24 v == vshard in
        length-names p (flatten s.keyword.docs)
        ∙ length-retain-flatten a p s.keyword.docs
        ∙ h.keyword.stocked (tally p)
        ∙ weigh_cong (tally p) (tally (λ d. leaves vshard v d.icao24)) m
            (λ d. ground (arith, nonzero))

    -- An eviction does not panic. It removes the aircraft that hash to the virtual shard and leaves all
    -- others as they were, in both indexes, and it answers how many it removed; with no virtual shards
    -- it does nothing.
    pub evict_vshard-Agrees :
        (s' : ShardStore a space) × (removed : ℕ) × (m' : HashMap String (Doc a space))
        × (evict_vshard a space s vshard v ≡ some (s', removed))
        × Agrees a space s' m'
        × ((k : String) → get m' k ≡ (if leaves vshard v k then none else get m k))
        × (removed ≡ weigh (tally (λ d. leaves vshard v d.icao24)) m)
        × (slots_used a space s' ≡ slots_used a space s)
    unfolding evict_vshard
    evict_vshard-Agrees = elim (Bool-cases (v == 0)) [
      | inl zero_at ↦ (
        s,
        0,
        m,
        ground (arith, zero_at),
        h,
        λ k. ground (arith, zero_at),
        sym (weigh_nought (tally (λ d. leaves vshard v d.icao24)) m (λ d. ground (arith, zero_at))),
        refl,
      )
      | inr nonzero ↦
          let (s', e, agrees, same) = remove_all-Agrees a space names s m h in
          (
            s',
            length names,
            strip a space m names,
            ground (arith, nonzero, e),
            agrees,
            stripped nonzero,
            counted nonzero,
            same,
          )
    ]
