-- ===== src/Fanout/Envelope.antt =====
-- The freshness envelope of a manifest.
use aether_engine.Prelude.{
  ℕ, ◌≤◌, ◌<◌, ◌≡◌, none, some, ltb, Option-cases, inl, inr, refl, sym, ap, subst, true, false,
  List, [], ◌∷◌, if◌then◌else◌, arith, nat_eq, leb, In, All, Bool-cases,
}
use aether_engine.Fanout.{
  SearchHit, OmittedShard, observed, max_or_zero, min_or_zero, build_manifest,
}

below_more : (m n : ℕ) (ts : List ℕ) → m ≤ n → All (λ t. t ≤ m) ts → All (λ t. t ≤ n) ts
below_more m n [] h a = tt
below_more m n (t ∷ ts) h a = (omega (arith, a.0), below_more m n ts h a.1)

above_less : (m n : ℕ) (ts : List ℕ) → n ≤ m → All (λ t. m ≤ t) ts → All (λ t. n ≤ t) ts
above_less m n [] h a = tt
above_less m n (t ∷ ts) h a = (omega (arith, a.0), above_less m n ts h a.1)

max_or_zero-All : (ts : List ℕ) → All (λ t. t ≤ max_or_zero ts) ts
unfolding max_or_zero
max_or_zero-All [] = tt
max_or_zero-All (t ∷ ts) =
    let m = max_or_zero ts in
    (ground arith, below_more m (if leb t m then m else t) ts (ground arith) (max_or_zero-All ts))

min_or_zero-All : (ts : List ℕ) → All (λ t. min_or_zero ts ≤ t) ts
unfolding min_or_zero
min_or_zero-All [] = tt
min_or_zero-All (t ∷ []) = (omega arith, tt)
min_or_zero-All (t ∷ u ∷ ts) =
    let m = min_or_zero (u ∷ ts) in
    (
      ground arith,
      above_less m (if leb t m then t else m) (u ∷ ts) (ground arith) (min_or_zero-All (u ∷ ts)),
    )

at : {a b : ℕ} (ts : List ℕ) → a ≡ b → In b ts → In a ts
at ts e i = subst (λ x. In x ts) (sym e) i

max_or_zero-In : (t : ℕ) (ts : List ℕ) → In (max_or_zero (t ∷ ts)) (t ∷ ts)
max_or_zero-In t [] = at (t ∷ []) alone (inl refl)
  where
    alone : max_or_zero (t ∷ []) ≡ t
    alone = unfold max_or_zero in ground arith
max_or_zero-In t (u ∷ ts) = elim (Bool-cases (leb t (max_or_zero (u ∷ ts)))) [
  | inl e ↦ at (t ∷ u ∷ ts) (more e) (inr (max_or_zero-In u ts))
  | inr e ↦ at (t ∷ u ∷ ts) (first e) (inl refl)
]
  where
    more : leb t (max_or_zero (u ∷ ts)) ≡ true → max_or_zero (t ∷ u ∷ ts) ≡ max_or_zero (u ∷ ts)
    more e = unfold max_or_zero in ap (λ b. if b then max_or_zero (u ∷ ts) else t) e

    first : leb t (max_or_zero (u ∷ ts)) ≡ false → max_or_zero (t ∷ u ∷ ts) ≡ t
    first e = unfold max_or_zero in ap (λ b. if b then max_or_zero (u ∷ ts) else t) e

min_or_zero-In : (t : ℕ) (ts : List ℕ) → In (min_or_zero (t ∷ ts)) (t ∷ ts)
min_or_zero-In t [] = unfold min_or_zero in inl refl
min_or_zero-In t (u ∷ ts) = elim (Bool-cases (leb t (min_or_zero (u ∷ ts)))) [
  | inl e ↦ at (t ∷ u ∷ ts) (first e) (inl refl)
  | inr e ↦ at (t ∷ u ∷ ts) (less e) (inr (min_or_zero-In u ts))
]
  where
    first : leb t (min_or_zero (u ∷ ts)) ≡ true → min_or_zero (t ∷ u ∷ ts) ≡ t
    first e = unfold min_or_zero in ap (λ b. if b then t else min_or_zero (u ∷ ts)) e

    less : leb t (min_or_zero (u ∷ ts)) ≡ false → min_or_zero (t ∷ u ∷ ts) ≡ min_or_zero (u ∷ ts)
    less e = unfold min_or_zero in ap (λ b. if b then t else min_or_zero (u ∷ ts)) e

-- The hit came with a positive observation time.
abbrev pub IsObserved : {Score : Type 0} → SearchHit Score → ℕ → Type 0
IsObserved hit t = (hit.provenance ≡ some t) × (0 < t)

-- Some hit came with the time.
abbrev pub IsTime : {Score : Type 0} → List (SearchHit Score) → ℕ → Type 0
IsTime {Score = Score} hits t = (hit : SearchHit Score) × In hit hits × IsObserved hit t

All-In : (P : ℕ → Type 0) (ts : List ℕ) (t : ℕ) → All P ts → In t ts → P t
All-In P [] t a i = elim i [ ]
All-In P (u ∷ ts) t a (inl e) = subst P (sym e) a.0
All-In P (u ∷ ts) t a (inr i) = All-In P ts t a.1 i

module _ {Score : Type 0} where
  observed_cons :
      (h : SearchHit Score) (hs : List (SearchHit Score)) (t : ℕ)
      → IsObserved h t
      → observed (h ∷ hs) ≡ t ∷ observed hs
  unfolding observed
  observed_cons h hs t (e, p) = ground (arith, e, p)

  observed_skipped :
      (h : SearchHit Score) (hs : List (SearchHit Score))
      → h.provenance ≡ none
      → observed (h ∷ hs) ≡ observed hs
  unfolding observed
  observed_skipped h hs e = ground (arith, e)

  observed_blank :
      (h : SearchHit Score) (hs : List (SearchHit Score)) (u : ℕ)
      → h.provenance ≡ some u
      → ltb 0 u ≡ false
      → observed (h ∷ hs) ≡ observed hs
  unfolding observed
  observed_blank h hs u e z = ground (arith, e, z)

  time-observed :
      (hits : List (SearchHit Score)) (hit : SearchHit Score) (t : ℕ)
      → In hit hits
      → IsObserved hit t
      → In t (observed hits)
  time-observed [] hit t i o = elim i [ ]
  time-observed (h ∷ hs) hit t (inl e) o =
      subst (In t) (sym (observed_cons h hs t (subst (λ x. IsObserved x t) e o))) (inl refl)
  time-observed (h ∷ hs) hit t (inr i) o =
      let later = time-observed hs hit t i o in
      elim (Option-cases h.provenance) [
        | inl e ↦ subst (In t) (sym (observed_skipped h hs e)) later
        | inr (u, e) ↦ elim (Bool-cases (ltb 0 u)) [
          | inl p ↦ subst (In t) (sym (observed_cons h hs u (e, ground arith))) (inr later)
          | inr z ↦ subst (In t) (sym (observed_blank h hs u e z)) later
        ]
      ]

  later-IsTime :
      (h : SearchHit Score) (hs : List (SearchHit Score)) (t : ℕ) → IsTime hs t → IsTime (h ∷ hs) t
  later-IsTime h hs t (hit, i, o) = (hit, inr i, o)

  observed-IsTime : (hits : List (SearchHit Score)) (t : ℕ) → In t (observed hits) → IsTime hits t
  unfolding observed
  observed-IsTime [] t i = elim i [ ]
  observed-IsTime (h ∷ hs) t i = elim (Option-cases h.provenance) [
    | inl e ↦ later-IsTime h hs t (observed-IsTime hs t (subst (In t) (observed_skipped h hs e) i))
    | inr (u, e) ↦ elim (Bool-cases (ltb 0 u)) [
      | inl p ↦ elim (subst (In t) (observed_cons h hs u (e, ground arith)) i) [
        | inl same ↦ (h, inl refl, subst (IsObserved h) (sym same) (e, ground arith))
        | inr old ↦ later-IsTime h hs t (observed-IsTime hs t old)
      ]
      | inr z ↦
          later-IsTime h hs t (observed-IsTime hs t (subst (In t) (observed_blank h hs u e z) i))
    ]
  ]

  -- The observation time of every returned hit that came with a positive one lies in the envelope of
  -- the manifest, and if there is such a hit, both ends of the envelope are times of such hits.
  pub build_manifest-envelope :
      (hits : List (SearchHit Score)) (queried answered : ℕ) (omitted : List OmittedShard)
      (deduped version elapsed_ms : ℕ) (hit : SearchHit Score) (t : ℕ)
      → In hit hits
      → IsObserved hit t
      → let q = build_manifest hits queried answered omitted deduped version elapsed_ms in
        (q.stalest_observed_at ≤ t)
        × (t ≤ q.freshest_observed_at)
        × IsTime hits q.stalest_observed_at
        × IsTime hits q.freshest_observed_at
  unfolding build_manifest
  build_manifest-envelope hits queried answered omitted deduped version elapsed_ms hit t i o =
      let there = time-observed hits hit t i o in
      let (high, low) = ends (observed hits) there in
      (
        All-In _ (observed hits) t (min_or_zero-All (observed hits)) there,
        All-In _ (observed hits) t (max_or_zero-All (observed hits)) there,
        observed-IsTime hits _ low,
        observed-IsTime hits _ high,
      )
    where
      ends : (ts : List ℕ) → In t ts → In (max_or_zero ts) ts × In (min_or_zero ts) ts
      ends [] i = elim i [ ]
      ends (u ∷ ts) i = (max_or_zero-In u ts, min_or_zero-In u ts)
