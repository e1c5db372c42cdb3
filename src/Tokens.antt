-- ===== src/Tokens.antt =====
-- crates/shard-node/src/index.rs and crates/memory/src/lib.rs: `tokenize`, which both declare.
use aether_engine.Prelude.{
  ℕ, String, Bool, not, List, [], ◌∷◌, map, if◌then◌else◌, is_empty, retain,
}
use aether_engine.Prelude.Text.{codes}

-- The Unicode tables of the standard library, on code points.
pub record Letters : Type 0 where
  pub is_alphanumeric : ℕ → Bool
  pub is_whitespace : ℕ → Bool
  pub to_lowercase : List ℕ → List ℕ

abbrev pub Term : Type 0
Term = List ℕ

abbrev pub push_front : ℕ → List (List ℕ) → List (List ℕ)
push_front c [] = (c ∷ []) ∷ []
push_front c (piece ∷ pieces) = (c ∷ piece) ∷ pieces

-- `str::split` by a test on characters.
unfoldable pub split : (ℕ → Bool) → List ℕ → List (List ℕ)
split p [] = [] ∷ []
split p (c ∷ cs) = let rest = split p cs in if p c then [] ∷ rest else push_front c rest

unfoldable pub tokenize : Letters → String → List Term
unfolding split retain
tokenize letters text =
    map letters.to_lowercase
      (retain (λ s. not (is_empty s)) (split (λ c. not (letters.is_alphanumeric c)) (codes text)))
