-- ===== src/Fanout/Dedup.antt =====
-- `dedup_by_aircraft`: one hit to an aircraft, the freshest of all that came in.
use aether_engine.Prelude.{
  ◌≡◌, ◌≢◌, ◌⊎◌, inl, inr, refl, sym, ap, ◌∙◌, subst, String, false, List, [], ◌∷◌, map, none, some,
  nat_eq, string_eq, ◌==◌, In, All, is_some, Option-cases, Bool-cases, beq_refl, beq→eq,
}
use aether_engine.Prelude.HashMap.{HashMap, get, Distinct}
use aether_engine.Fanout.{Scores, SearchHit, icao24_of, supersedes, keep_all, dedup_by_aircraft}
use aether_engine.Fanout.Best.{keep_all-Best, some_eq, apart_of, missing, false_is_not-true}

module _ (scores : Scores) where
  open scores use {Score}

  -- One hit to an aircraft.
  abbrev pub Unique : List (SearchHit Score) → Type 0
  Unique [] = Unit
  Unique (h ∷ hs) = All (λ g. icao24_of h ≢ icao24_of g) hs × Unique hs

  -- The hit is one of those that came in, and none of its aircraft supersedes it.
  abbrev pub IsFreshest : List (SearchHit Score) → SearchHit Score → Type 0
  IsFreshest hits h =
      In h hits
      × ((g : SearchHit Score)
          → In g hits
          → icao24_of g ≡ icao24_of h
          → supersedes scores g h ≡ false)

  abbrev values : HashMap String (SearchHit Score) → List (SearchHit Score)
  values = map (λ entry. entry.1)

  -- Each entry is filed under its aircraft.
  abbrev IsFiled : HashMap String (SearchHit Score) → Type 0
  IsFiled = All (λ entry. icao24_of entry.1 ≡ entry.0)

  entries_All :
      (P : SearchHit Score → Type 0) (m : HashMap String (SearchHit Score))
      → Distinct m
      → ((k : String) (h : SearchHit Score) → get m k ≡ some h → (icao24_of h ≡ k) × P h)
      → All P (values m) × IsFiled m
  unfolding get
  entries_All P [] d f = (tt, tt)
  entries_All P ((k, h) ∷ m) d f =
      let here = f k h (rw (beq_refl k) refl) in
      let rest = entries_All P m d.1 (λ j g e. f j g (rw (later j g e) e)) in
      ((here.1, rest.0), (here.0, rest.1))
    where
      later : (j : String) (g : SearchHit Score) → get m j ≡ some g → (k == j) ≡ false
      later j g e = elim (Bool-cases (k == j)) [
        | inr other ↦ other
        | inl same ↦ absurd (missing (sym (subst (λ i. get m i ≡ none) (beq→eq k j same) d.0) ∙ e))
      ]

  values_other :
      (m : HashMap String (SearchHit Score)) (k : String)
      → get m k ≡ none
      → IsFiled m
      → All (λ g. k ≢ icao24_of g) (values m)
  unfolding get
  values_other [] k e f = tt
  values_other ((j, g) ∷ m) k e f = elim (Bool-cases (j == k)) [
    | inl same ↦ absurd (missing (sym (rw same at e)))
    | inr other ↦
        ((λ n. apart_of j k other (sym f.0 ∙ sym n)), values_other m k (rw other at e) f.1)
  ]

  values-Unique :
      (m : HashMap String (SearchHit Score)) → Distinct m → IsFiled m → Unique (values m)
  values-Unique [] d f = tt
  values-Unique ((k, h) ∷ m) d f = (
    subst (λ i. All (λ g. i ≢ icao24_of g) (values m)) (sym f.0) (values_other m k d.0 f.1),
    values-Unique m d.1 f.1,
  )

  values-In :
      (m : HashMap String (SearchHit Score)) (k : String) (h : SearchHit Score)
      → get m k ≡ some h
      → In h (values m)
  unfolding get
  values-In [] k h e = absurd (missing e)
  values-In ((j, g) ∷ m) k h e = elim (Bool-cases (j == k)) [
    | inl same ↦ inl (some_eq (sym (rw same at e)))
    | inr other ↦ inr (values-In m k h (rw other at e))
  ]

  pub record IsDeduped (hits found : List (SearchHit Score)) : Type 0 where
    pub unique : Unique found
    pub freshest : All (IsFreshest hits) found
    pub complete :
        (g : SearchHit Score)
        → In g hits
        → (h : SearchHit Score) × In h found × (icao24_of h ≡ icao24_of g)

  -- Deduplication keeps one hit of each aircraft that came in, and of its hits one that no other
  -- supersedes.
  pub dedup_by_aircraft-IsDeduped :
      (hits : List (SearchHit Score)) → IsDeduped hits (dedup_by_aircraft scores hits)
  unfolding dedup_by_aircraft get
  dedup_by_aircraft-IsDeduped hits =
      let b =
        keep_all-Best scores (λ g. ⊥) [] hits
          (record {
            distinct = tt;
            sound = λ k h e. absurd (empty k h e);
            complete = λ g s. absurd s;
          }) in
      let best = keep_all scores [] hits in
      let (fresh, filed) = entries_All (IsFreshest hits) best b.distinct (λ k h e.
        let (key, seen, freshest) = b.sound k h e in
        (key, (came h seen, λ g i m. freshest g (inr i) (m ∙ key)))) in
      record {
        unique = values-Unique best b.distinct filed;
        freshest = fresh;
        complete = λ g i. elim (Option-cases (get best (icao24_of g))) [
          | inl e ↦ absurd (false_is_not-true (sym (ap is_some e) ∙ b.complete g (inr i)))
          | inr (h, e) ↦ (h, values-In best (icao24_of g) h e, (b.sound (icao24_of g) h e).0)
        ];
      }
    where
      empty : (k : String) (h : SearchHit Score) → ¬ (get {K = String} [] k ≡ some h)
      empty k h e = missing {a = h} e

      came : (h : SearchHit Score) → ⊥ ⊎ In h hits → In h hits
      came h (inl x) = absurd x
      came h (inr x) = x
