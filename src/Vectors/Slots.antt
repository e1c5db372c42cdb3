-- ===== src/Vectors/Slots.antt =====
-- The slots of the vector index, with the tombstoned ones empty.
use aether_engine.Prelude.{
  ℕ, zero, suc, ◌+◌, ◌<◌, ◌≡◌, refl, ap, ◌∙◌, false, List, [], ◌∷◌, ◌++◌, Option, none, some,
  if◌then◌else◌, nat_eq, ◌==◌, length, get_elem?, set, arith, ◌||◌,
}
use aether_engine.Prelude.Totals.{total}
use aether_engine.Prelude.HashSet.{contains}
use aether_engine.Index.{slot, flatten}
use aether_engine.Index.Corpus.{weigh_slots}

abbrev pub shade : {D : Type 0} → List ℕ → ℕ → List D → List (Option D)
shade tombs i [] = []
shade tombs i (d ∷ ds) = (if contains tombs i then none else some d) ∷ shade tombs (i + 1) ds

module _ {D : Type 0} where
  slot-shade :
      (tombs : List ℕ) (i : ℕ) (ds : List D) (j : ℕ)
      → slot (shade tombs i ds) j ≡ (if contains tombs (i + j) then none else get_elem? ds j)
  unfolding slot
  slot-shade tombs i [] j = ground arith
  slot-shade tombs i (d ∷ ds) zero =
      ap (λ k. if contains tombs k then none else some d) (omega arith)
  slot-shade tombs i (d ∷ ds) (suc j) =
      slot-shade tombs (i + 1) ds j
      ∙ ap (λ k. if contains tombs k then none else get_elem? ds j) (omega arith)

  pub slot-slots :
      (tombs : List ℕ) (ds : List D) (j : ℕ)
      → slot (shade tombs 0 ds) j ≡ (if contains tombs j then none else get_elem? ds j)
  slot-slots tombs ds j =
      slot-shade tombs 0 ds j
      ∙ ap (λ k. if contains tombs k then none else get_elem? ds j) (omega arith)

  pub length-shade : (tombs : List ℕ) (i : ℕ) (ds : List D) → length (shade tombs i ds) ≡ length ds
  length-shade tombs i [] = refl
  length-shade tombs i (d ∷ ds) = ap suc (length-shade tombs (i + 1) ds)

  pub shade-set :
      (tombs : List ℕ) (i : ℕ) (ds : List D) (j : ℕ) (d : D)
      → contains tombs (i + j) ≡ false
      → shade tombs i (set ds j d) ≡ set (shade tombs i ds) j (some d)
  shade-set tombs i [] j d h = refl
  shade-set tombs i (x ∷ ds) zero d h =
      ap (λ b. (if b then none else some d) ∷ shade tombs (i + 1) ds)
        (ap (contains tombs) (omega arith) ∙ h)
  shade-set tombs i (x ∷ ds) (suc j) d h =
      ap (λ l. (if contains tombs i then none else some x) ∷ l)
        (shade-set tombs (i + 1) ds j d (ap (contains tombs) (omega arith) ∙ h))

  pub shade-append :
      (tombs : List ℕ) (i : ℕ) (ds : List D) (d : D)
      → contains tombs (i + length ds) ≡ false
      → shade tombs i (ds ++ d ∷ []) ≡ shade tombs i ds ++ some d ∷ []
  shade-append tombs i [] d h =
      ap (λ b. (if b then none else some d) ∷ []) (ap (contains tombs) (omega arith) ∙ h)
  shade-append tombs i (x ∷ ds) d h =
      ap (λ l. (if contains tombs i then none else some x) ∷ l)
        (shade-append tombs (i + 1) ds d (ap (contains tombs) (omega arith) ∙ h))

  module _ (after before : List ℕ) (id : ℕ)
      (e : (k : ℕ) → contains after k ≡ (id == k || contains before k)) where
    shade-past : (i : ℕ) (ds : List D) → id < i → shade after i ds ≡ shade before i ds
    shade-past i [] h = refl
    shade-past i (d ∷ ds) h =
        ground (arith, e i, nat_eq.same_iff id i, shade-past (i + 1) ds (omega (arith, h)))

    -- A slot that is tombstoned: the others are as they were.
    pub shade-bury :
        (i : ℕ) (ds : List D) (j : ℕ)
        → id ≡ i + j
        → shade after i ds ≡ set (shade before i ds) j none
    shade-bury i [] j h = refl
    shade-bury i (d ∷ ds) zero h =
        ground (arith, e i, nat_eq.same_iff id i, shade-past (i + 1) ds (omega (arith, h)))
    shade-bury i (d ∷ ds) (suc j) h =
        ground (arith, e i, nat_eq.same_iff id i, shade-bury (i + 1) ds j (omega (arith, h)))

  pub total-flatten : (w : D → ℕ) (s : List (Option D)) → total w (flatten s) ≡ weigh_slots w s
  unfolding flatten weigh_slots
  total-flatten w [] = refl
  total-flatten w (none ∷ s) = omega (arith, total-flatten w s)
  total-flatten w (some d ∷ s) = ap (λ n. w d + n) (total-flatten w s)
