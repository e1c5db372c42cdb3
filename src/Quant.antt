-- ===== src/Quant.antt =====
-- crates/shard-node/src/quant.rs: vectors compressed to the signs of their dimensions. A `u64` word is
-- the list of its 64 bits, the lowest first.
pub mod Words
pub mod Signs
pub mod Tests
use aether_engine.Prelude.{
  ℕ, zero, suc, ◌+◌, ◌/◌, ◌%◌, ◌^◌, Bool, true, false, not, List, [], ◌∷◌, Option, none, some,
  if◌then◌else◌, length, get_elem?, set, is_empty,
}

-- `f32`, with what the vectors of this crate are computed by.
pub record Floats : Type 1 where
  pub Float : Type 0
  pub zero_float : Float
  pub is_positive : Float → Bool
  pub add : Float → Float → Float
  pub mul : Float → Float → Float
  pub abs : Float → Float
  pub div_len : Float → ℕ → Float

-- How many candidates the scan of the bits hands on for each result.
abbrev pub oversample : ℕ
oversample = 4

abbrev pub Word : Type 0
Word = List Bool

pub record QuantizedVector (Float : Type 0) : Type 0 where
  pub bits : List Word
  pub correction : Float
  pub dims : ℕ

-- `vec![x; n]`.
abbrev pub repeat : {A : Type 0} → A → ℕ → List A
repeat x zero = []
repeat x (suc n) = x ∷ repeat x n

abbrev pub zero_word : Word
zero_word = repeat false 64

-- `len().div_ceil(64)`.
abbrev pub words_for : ℕ → ℕ
words_for n = (n + 63) / 64

-- `bits[q] |= 1 << r`.
unfoldable pub set_in : List Word → ℕ → ℕ → List Word
set_in bits q r = elim (get_elem? bits q) [ none ↦ bits | some word ↦ set bits q (set word r true) ]

abbrev pub set_bit : List Word → ℕ → List Word
set_bit bits i = set_in bits (i / 64) (i % 64)

abbrev pub xor : Bool → Bool → Bool
xor true b = not b
xor false b = b

-- The bits of the exclusive or of two words, counted.
unfoldable pub count_ones : Word → Word → ℕ
count_ones [] ys = 0
count_ones (x ∷ xs) [] = 0
count_ones (x ∷ xs) (y ∷ ys) = (if xor x y then 1 else 0) + count_ones xs ys

unfoldable pub count_words : List Word → List Word → ℕ
unfolding count_ones
count_words [] ys = 0
count_words (x ∷ xs) [] = 0
count_words (x ∷ xs) (y ∷ ys) = count_ones x y + count_words xs ys

unfoldable pub hamming : {Float : Type 0} → QuantizedVector Float → QuantizedVector Float → ℕ
unfolding count_words
hamming q other = count_words q.bits other.bits % 2 ^ 32

module _ (floats : Floats) where
  open floats use {Float, zero_float, is_positive, add, mul, abs, div_len}

  -- The loop of `quantize` over the dimensions from `i` on: what it does to the bits.
  unfoldable pub set_signs : List Word → ℕ → List Float → List Word
  set_signs bits i [] = bits
  set_signs bits i (x ∷ v) = set_signs (if is_positive x then set_bit bits i else bits) (i + 1) v

  -- What it does to the sum of magnitudes.
  unfoldable pub sum_abs : Float → List Float → Float
  sum_abs sum [] = sum
  sum_abs sum (x ∷ v) = sum_abs (add sum (abs x)) v

  unfoldable pub quantize : List Float → QuantizedVector Float
  unfolding set_signs sum_abs
  quantize v = record {
    bits = set_signs (repeat zero_word (words_for (length v))) 0 v;
    correction = div_len (sum_abs zero_float v) (if is_empty v then 1 else length v);
    dims = length v;
  }
