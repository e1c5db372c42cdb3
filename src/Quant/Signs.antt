-- ===== src/Quant/Signs.antt =====
-- The distance of two compressed vectors counts the dimensions in which their signs differ.
use aether_engine.Prelude.{
  ℕ, zero, suc, ◌+◌, ◌*◌, ◌-◌, ◌%◌, ◌^◌, ◌≤◌, ◌<◌, ◌≡◌, refl, sym, ap, ◌∙◌, Bool, true, false, List,
  [], ◌∷◌, ◌++◌, map, if◌then◌else◌, length, set, All, arith, length-append,
}
use mathlib.Core.List.{append_assoc}
use aether_engine.Quant.{
  Floats, Word, repeat, zero_word, words_for, set_bit, xor, count_ones, hamming, quantize,
  set_signs,
}
use aether_engine.Quant.Words.{
  row, IsWord, repeat-append, length-repeat, count_ones-append, count_ones_self, count_words-row,
  row-set_bit, length-set_bit,
}

module _ (floats : Floats) where
  open floats use {Float, is_positive}

  -- The loop on the row of bits.
  abbrev paint : List Bool → ℕ → List Float → List Bool
  paint bits i [] = bits
  paint bits i (x ∷ v) = paint (if is_positive x then set bits i true else bits) (i + 1) v

  one :
      (ws : List Word) (i : ℕ) (b : Bool)
      → All IsWord ws
      → i < 64 * length ws
      → let next = if b then set_bit ws i else ws in
        (row next ≡ (if b then set (row ws) i true else row ws))
        × All IsWord next
        × (length next ≡ length ws)
  one ws i false a h = (refl, a, refl)
  one ws i true a h = let (rows, words) = row-set_bit ws i a h in (rows, words, length-set_bit ws i)

  length-set_signs :
      (v : List Float) (ws : List Word) (i : ℕ) → length (set_signs floats ws i v) ≡ length ws
  unfolding set_signs
  length-set_signs [] ws i = refl
  length-set_signs (x ∷ v) ws i =
      length-set_signs v (if is_positive x then set_bit ws i else ws) (i + 1)
      ∙ grown (is_positive x)
    where
      grown : (b : Bool) → length (if b then set_bit ws i else ws) ≡ length ws
      grown true = length-set_bit ws i
      grown false = refl

  row-set_signs :
      (v : List Float) (ws : List Word) (i : ℕ)
      → All IsWord ws
      → i + length v ≤ 64 * length ws
      → (row (set_signs floats ws i v) ≡ paint (row ws) i v) × All IsWord (set_signs floats ws i v)
  unfolding set_signs
  row-set_signs [] ws i a h = (refl, a)
  row-set_signs (x ∷ v) ws i a h =
      let next = if is_positive x then set_bit ws i else ws in
      let (rows, words, same) = one ws i (is_positive x) a (omega (arith, h)) in
      let (rest, kept) = row-set_signs v next (i + 1) words (omega (arith, h, same)) in
      (rest ∙ ap (λ bits. paint bits (i + 1) v) rows, kept)

  write-append :
      (front zs : List Bool) (b : Bool)
      → (if b then set (front ++ false ∷ zs) (length front) true else front ++ false ∷ zs)
        ≡ (front ++ b ∷ []) ++ zs
  write-append [] zs true = refl
  write-append [] zs false = refl
  write-append (y ∷ front) zs true = ap (λ l. y ∷ l) (write-append front zs true)
  write-append (y ∷ front) zs false = ap (λ l. y ∷ l) (write-append front zs false)

  -- The signs written over zeros, behind what is there.
  paint_fresh :
      (v : List Float) (front : List Bool) (n : ℕ)
      → paint (front ++ repeat false (length v + n)) (length front) v
        ≡ front ++ (map is_positive v ++ repeat false n)
  paint_fresh [] front n = ap (λ k. front ++ repeat false k) (omega arith)
  paint_fresh (x ∷ v) front n =
      let b = is_positive x in
      let zs = repeat false (length v + n) in
      let e : suc (length v) + n ≡ suc (length v + n) = omega arith in
      ap (λ k. paint (front ++ repeat false k) (length front) (x ∷ v)) e
      ∙ ap (λ bits. paint bits (length front + 1) v) (write-append front zs b)
      ∙ ap (λ k. paint ((front ++ b ∷ []) ++ zs) k v) (sym (length-append front (b ∷ [])))
      ∙ paint_fresh v (front ++ b ∷ []) n
      ∙ append_assoc front (b ∷ []) (map is_positive v ++ repeat false n)

  row-repeat :
      (n : ℕ) → (row (repeat zero_word n) ≡ repeat false (64 * n)) × All IsWord (repeat zero_word n)
  row-repeat zero = (refl, tt)
  row-repeat (suc n) =
      let (rows, words) = row-repeat n in
      let e : 64 * suc n ≡ 64 + 64 * n = omega arith in
      (
        ap (λ l. zero_word ++ l) rows ∙ sym (ap (repeat false) e ∙ repeat-append false 64 (64 * n)),
        (unfold IsWord in refl, words),
      )

  -- The row of a compressed vector: its signs, and zeros up to the end of the last word.
  row-quantize :
      (v : List Float)
      → (row (quantize floats v).bits
          ≡ map is_positive v ++ repeat false (64 * words_for (length v) - length v))
        × All IsWord (quantize floats v).bits
  unfolding quantize
  row-quantize v =
      let n = words_for (length v) in
      let (zeros, words) = row-repeat n in
      let (rows, kept) =
        row-set_signs v (repeat zero_word n) 0 words (omega (arith, length-repeat zero_word n)) in
      let e : 64 * n ≡ length v + (64 * n - length v) = omega arith in
      (
        rows
            ∙ ap (λ bits. paint bits 0 v) (zeros ∙ ap (repeat false) e)
            ∙ paint_fresh v [] (64 * n - length v),
        kept,
      )

  -- The dimensions of two vectors whose signs differ.
  abbrev pub sign_differences : List Float → List Float → ℕ
  sign_differences [] w = 0
  sign_differences (x ∷ v) [] = 0
  sign_differences (x ∷ v) (y ∷ w) =
      (if xor (is_positive x) (is_positive y) then 1 else 0) + sign_differences v w

  count_ones-signs :
      (v w : List Float) → count_ones (map is_positive v) (map is_positive w) ≡ sign_differences v w
  unfolding count_ones
  count_ones-signs [] w = refl
  count_ones-signs (x ∷ v) [] = refl
  count_ones-signs (x ∷ v) (y ∷ w) = omega (arith, count_ones-signs v w)

  length-signs : (v : List Float) → length (map is_positive v) ≡ length v
  length-signs [] = refl
  length-signs (x ∷ v) = ap suc (length-signs v)

  -- The distance of two compressed vectors of one length is the number of dimensions in which their
  -- signs differ: no word, and no bit behind the last dimension, adds to it or hides one.
  pub hamming-quantize :
      (v w : List Float)
      → length v ≡ length w
      → hamming (quantize floats v) (quantize floats w) ≡ sign_differences v w % 2 ^ 32
  unfolding hamming
  hamming-quantize v w e =
      let pad = λ (n : ℕ). repeat false (64 * words_for n - n) in
      let (rows, words) = row-quantize v in
      let (rows', words') = row-quantize w in
      let n = words_for (length v) in
      let same : length (quantize floats v).bits ≡ length (quantize floats w).bits =
        unfold quantize in
        length-set_signs v (repeat zero_word n) 0
        ∙ ap (λ k. length (repeat zero_word (words_for k))) e
        ∙ sym (length-set_signs w (repeat zero_word (words_for (length w))) 0) in
      ap (λ k. k % 2 ^ 32)
        (count_words-row _ _ words words' same
          ∙ ap (λ l. count_ones l (row (quantize floats w).bits)) rows
          ∙ ap (count_ones (map is_positive v ++ pad (length v)))
              (rows' ∙ ap (λ k. map is_positive w ++ pad k) (sym e))
          ∙ count_ones-append (map is_positive v) (pad (length v)) (map is_positive w)
              (pad (length v)) (length-signs v ∙ e ∙ sym (length-signs w))
          ∙ omega (arith, count_ones_self (pad (length v)), count_ones-signs v w))
