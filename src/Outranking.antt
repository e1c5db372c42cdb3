-- ===== src/Outranking.antt =====
-- The order in which crates/shard-node/src/index.rs and crates/coordinator/src/hybrid.rs rank hits.
use aether_engine.Prelude.{
  ℕ, zero, suc, ◌≤◌, ◌≡◌, refl, ap, ◌∙◌, ◌⊎◌, inl, inr, String, Bool, true, false, not, ◌&&◌, List,
  [], ◌∷◌, if◌then◌else◌, nat_eq, string_eq, ◌==◌, ltb, length, take, any, arith, Bool-cases,
}
use aether_engine.Prelude.Sort.{place, sort, any-place, any-sort, IsChain, sort-IsChain}
use aether_engine.Registry.State.{string_le}

-- All of a ranking, or what comes first in it.
abbrev pub first : {A : Type 0} → ℕ → List A → List A
first limit ranking = if limit == 0 then ranking else take limit ranking

pub take_all : {A : Type 0} (n : ℕ) (xs : List A) → length xs ≤ n → take n xs ≡ xs
take_all zero [] h = refl
take_all zero (x ∷ xs) h = absurd (omega (arith, h))
take_all (suc n) [] h = refl
take_all (suc n) (x ∷ xs) h = ap (λ l. x ∷ l) (take_all n xs (omega (arith, h)))

pub first_nil : {A : Type 0} (limit : ℕ) → [] ≡ first {A = A} limit []
first_nil zero = refl
first_nil (suc n) = ground arith

pub cut-first :
    {A : Type 0} (limit : ℕ) (xs : List A)
    → (if not (limit == 0) && ltb limit (length xs) then take limit xs else xs) ≡ first limit xs
cut-first limit xs = elim (Bool-cases (ltb limit (length xs))) [
  | inl long ↦ ground (arith, long)
  | inr short ↦ ground (arith, short, take_all limit xs (ground (arith, short)))
]

module _ {Hit Score : Type 0} (score : Hit → Score) (name : Hit → String)
    (exceeds : Score → Score → Bool) where
  -- A higher score, or no lower one and a name that does not come after.
  abbrev pub Outranks : Hit → Hit → Type 0
  Outranks x y =
      (exceeds (score x) (score y) ≡ true)
      ⊎ ((exceeds (score y) (score x) ≡ false)
          × ((string_le (name x) (name y) ≡ true) ⊎ (string_le (name y) (name x) ≡ false)))

  -- No name stands twice.
  abbrev pub IsOnce : List Hit → Type 0
  IsOnce [] = Unit
  IsOnce (h ∷ hs) = (any (λ g. name g == name h) hs ≡ false) × IsOnce hs

  -- What a comparison does that reads first the scores and then the names.
  abbrev pub Compares : (Hit → Hit → Bool) → Type 0
  Compares le =
      (x y : Hit)
      → le x y ≡ (
          if exceeds (score x) (score y)
          then true
          else if exceeds (score y) (score x)
          then false
          else string_le (name x) (name y))

  module _ (le : Hit → Hit → Bool) where
    before : Compares le → (x y : Hit) → le x y ≡ true → Outranks x y
    before c x y h = elim (Bool-cases (exceeds (score x) (score y))) [
      | inl e ↦ inl e
      | inr e ↦ elim (Bool-cases (exceeds (score y) (score x))) [
        | inl f ↦ absurd (ground (arith, c x y, e, f))
        | inr f ↦ inr (f, inl (ground (arith, c x y, e, f)))
      ]
    ]

    after : Compares le → (x y : Hit) → le x y ≡ false → Outranks y x
    after c x y h = elim (Bool-cases (exceeds (score y) (score x))) [
      | inl e ↦ inl e
      | inr e ↦ elim (Bool-cases (exceeds (score x) (score y))) [
        | inl f ↦ absurd (ground (arith, c x y, e, f))
        | inr f ↦ inr (f, inr (ground (arith, c x y, e, f)))
      ]
    ]

    pub sort-Outranks : Compares le → (xs : List Hit) → IsChain Outranks (sort le xs)
    sort-Outranks c xs = sort-IsChain le Outranks (before c) (after c) xs

    place-IsOnce :
        (x : Hit) (ys : List Hit)
        → any (λ g. name g == name x) ys ≡ false
        → IsOnce ys
        → IsOnce (place le x ys)
    unfolding place any
    place-IsOnce x [] n u = (refl, tt)
    place-IsOnce x (y ∷ ys) n u = elim (Bool-cases (le x y)) [
      | inl e ↦ rw e (n, u)
      | inr e ↦ rw e (
        any-place le (λ g. name g == name y) x ys
            ∙ ground
                (arith, string_eq.same_iff (name x) (name y), string_eq.same_iff (name y) (name x)),
        place-IsOnce x ys (ground arith) u.1,
      )
    ]

    pub sort-IsOnce : (xs : List Hit) → IsOnce xs → IsOnce (sort le xs)
    unfolding sort
    sort-IsOnce [] u = tt
    sort-IsOnce (x ∷ xs) u =
        place-IsOnce x (sort le xs) (any-sort le (λ g. name g == name x) xs ∙ u.0)
          (sort-IsOnce xs u.1)
