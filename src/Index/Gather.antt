-- ===== src/Index/Gather.antt =====
-- The documents of the slots, gathered into a map: it is the map that the slots stand for.
use aether_engine.Prelude.{
  ℕ, zero, suc, ◌≡◌, refl, sym, ◌∙◌, String, Bool, true, List, [], ◌∷◌, Option, none, some,
  if◌then◌else◌, string_eq, ◌==◌, arith, Option-cases, inl, inr, All, any,
}
use aether_engine.Prelude.HashMap
use aether_engine.Prelude.HashMap.{HashMap, get, get-insert, get_same, Distinct, insert-Distinct}
use aether_engine.Index.{slot, flatten}
use aether_engine.Index.Rows.{Rows, found}

module _ {D : Type 0} (P : D → Type 0) where
  flatten-All :
      (s : List (Option D)) → ((i : ℕ) (d : D) → slot s i ≡ some d → P d) → All P (flatten s)
  unfolding flatten slot
  flatten-All [] h = tt
  flatten-All (none ∷ s) h = flatten-All s (λ i d e. h (suc i) d e)
  flatten-All (some x ∷ s) h = (h zero x refl, flatten-All s (λ i d e. h (suc i) d e))

any-flatten :
    {D : Type 0} (p : D → Bool) (s : List (Option D)) (i : ℕ) (d : D)
    → slot s i ≡ some d
    → p d ≡ true
    → any p (flatten s) ≡ true
unfolding flatten slot any
any-flatten p [] i d h t = cc h
any-flatten p (none ∷ s) zero d h t = cc h
any-flatten p (none ∷ s) (suc i) d h t = any-flatten p s i d h t
any-flatten p (some x ∷ s) zero d h t = ground (arith, h, t)
any-flatten p (some x ∷ s) (suc i) d h t = ground (arith, any-flatten p s i d h t)

module _ {D : Type 0} (key : D → String) where
  -- The map of a list of documents.
  abbrev pub collect : HashMap String D → List D → HashMap String D
  collect m [] = m
  collect m (d ∷ ds) = collect (HashMap.insert m (key d) d) ds

  get-collect :
      (m m0 : HashMap String D) (ds : List D) (k : String)
      → All (λ d. get m (key d) ≡ some d) ds
      → get (collect m0 ds) k ≡ (if any (λ d. key d == k) ds then get m k else get m0 k)
  unfolding any
  get-collect m m0 [] k a = refl
  get-collect m m0 (d ∷ ds) k a = ground (
    arith,
    get-collect m (HashMap.insert m0 (key d) d) ds k a.1,
    get-insert m0 (key d) k d,
    get_same m (key d) k,
    a.0,
  )

module _ {D : Type 0} {key : D → String} {docs : List (Option D)} {by_key : HashMap String ℕ}
    {m : HashMap String D} (r : Rows key docs by_key m) where
  -- Every document is the one that the map has under its key.
  pub stored-All : All (λ d. get m (key d) ≡ some d) (flatten docs)
  stored-All =
      flatten-All (λ d. get m (key d) ≡ some d) docs
        (λ i d at. sym (found r (key d) i (r.keyed i d at)) ∙ at)

  -- A key of the map is that of a document.
  pub any-stored :
      (k : String) (d : D) → get m k ≡ some d → any (λ x. key x == k) (flatten docs) ≡ true
  any-stored k d e = elim (Option-cases (get by_key k)) [
    | inl none_at ↦ ground (arith, r.reads k, e, none_at)
    | inr (i, p) ↦
        any-flatten (λ x. key x == k) docs i d (found r k i p ∙ e)
          ((string_eq.same_iff (key d) k).1 (r.named k d e))
  ]

  pub collect-flatten : (k : String) → get (collect key [] (flatten docs)) k ≡ get m k
  unfolding get
  collect-flatten k =
      get-collect key m [] (flatten docs) k stored-All ∙ elim (Option-cases (get m k)) [
        | inl e ↦ ground (arith, e)
        | inr (d, e) ↦ ground (arith, any-stored k d e)
      ]
