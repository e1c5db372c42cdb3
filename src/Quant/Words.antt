-- ===== src/Quant/Words.antt =====
-- Words of 64 bits as one row of bits.
use aether_engine.Prelude.{
  ℕ, zero, suc, ◌+◌, ◌*◌, ◌-◌, ◌/◌, ◌%◌, ◌≤◌, ◌<◌, ◌≡◌, refl, sym, ap, ◌∙◌, Bool, true, false, List,
  [], ◌∷◌, ◌++◌, Option, none, some, length, get_elem?, set, All, arith, length-set, inl, inr, ◌⊎◌,
  subst,
}
use aether_engine.Quant.{Word, repeat, set_bit, set_in, count_ones, count_words}

-- The bits of all words, in one row.
abbrev pub row : List Word → List Bool
row [] = []
row (w ∷ ws) = w ++ row ws

unfoldable pub IsWord : Word → Type 0
IsWord w = length w ≡ 64

lt-or-ge : (i n : ℕ) → (i < n) ⊎ (n ≤ i)
lt-or-ge i n = omega arith

set-append_left :
    (xs ys : List Bool) (i : ℕ) (b : Bool) → i < length xs → set (xs ++ ys) i b ≡ set xs i b ++ ys
set-append_left [] ys i b h = elim h [ ]
set-append_left (x ∷ xs) ys zero b h = refl
set-append_left (x ∷ xs) ys (suc i) b h =
    ap (λ l. x ∷ l) (set-append_left xs ys i b (omega (arith, h)))

set-append_right :
    (xs ys : List Bool) (i : ℕ) (b : Bool) → set (xs ++ ys) (length xs + i) b ≡ xs ++ set ys i b
set-append_right [] ys i b = ap (λ n. set ys n b) (omega arith)
set-append_right (x ∷ xs) ys i b =
    let e : suc (length xs) + i ≡ suc (length xs + i) = omega arith in
    ap (λ n. set (x ∷ xs ++ ys) n b) e ∙ ap (λ l. x ∷ l) (set-append_right xs ys i b)

div_later : (i : ℕ) → (64 + i) / 64 ≡ suc (i / 64)
div_later i = omega arith

mod_later : (i : ℕ) → (64 + i) % 64 ≡ i % 64
mod_later i = omega arith

set_in-suc : (w : Word) (ws : List Word) (q r : ℕ) → set_in (w ∷ ws) (suc q) r ≡ w ∷ set_in ws q r
unfolding set_in
set_in-suc w ws q r = ground arith

set_bit_later : (w : Word) (ws : List Word) (i : ℕ) → set_bit (w ∷ ws) (64 + i) ≡ w ∷ set_bit ws i
set_bit_later w ws i =
    ap (λ q. set_in (w ∷ ws) q ((64 + i) % 64)) (div_later i)
    ∙ ap (set_in (w ∷ ws) (suc (i / 64))) (mod_later i)
    ∙ set_in-suc w ws (i / 64) (i % 64)

set_bit_here : (w : Word) (ws : List Word) (i : ℕ) → i < 64 → set_bit (w ∷ ws) i ≡ set w i true ∷ ws
unfolding set_in
set_bit_here w ws i h =
    let q : i / 64 ≡ 0 = omega (arith, h) in
    let r : i % 64 ≡ i = omega (arith, h) in
    ap (λ q. set_in (w ∷ ws) q (i % 64)) q ∙ ap (set_in (w ∷ ws) 0) r

pub length-set_bit : (ws : List Word) (i : ℕ) → length (set_bit ws i) ≡ length ws
unfolding set_in
length-set_bit ws i = changed (get_elem? ws (i / 64))
  where
    changed :
        (o : Option Word)
        → length (elim o as (λ (x : Option Word). List Word) [
          | none ↦ ws
          | some word ↦ set ws (i / 64) (set word (i % 64) true)
        ])
          ≡ length ws
    changed none = refl
    changed (some word) = length-set ws (i / 64) (set word (i % 64) true)

pub repeat-append : {A : Type 0} (x : A) (m n : ℕ) → repeat x (m + n) ≡ repeat x m ++ repeat x n
repeat-append x zero n = ap (repeat x) (omega arith)
repeat-append x (suc m) n =
    let e : suc m + n ≡ suc (m + n) = omega arith in
    ap (repeat x) e ∙ ap (λ l. x ∷ l) (repeat-append x m n)

pub length-repeat : {A : Type 0} (x : A) (n : ℕ) → length (repeat x n) ≡ n
length-repeat x zero = refl
length-repeat x (suc n) = ap suc (length-repeat x n)

-- Bits counted in two pieces.
pub count_ones-append :
    (xs ys us vs : List Bool)
    → length xs ≡ length us
    → count_ones (xs ++ ys) (us ++ vs) ≡ count_ones xs us + count_ones ys vs
unfolding count_ones
count_ones-append [] ys [] vs e = omega arith
count_ones-append [] ys (u ∷ us) vs e = absurd (omega (arith, e))
count_ones-append (x ∷ xs) ys [] vs e = absurd (omega (arith, e))
count_ones-append (x ∷ xs) ys (u ∷ us) vs e =
    omega (arith, count_ones-append xs ys us vs (omega (arith, e)))

pub count_ones_self : (xs : List Bool) → count_ones xs xs ≡ 0
unfolding count_ones
count_ones_self [] = refl
count_ones_self (true ∷ xs) = omega (arith, count_ones_self xs)
count_ones_self (false ∷ xs) = omega (arith, count_ones_self xs)

pub count_words-row :
    (ws us : List Word)
    → All IsWord ws
    → All IsWord us
    → length ws ≡ length us
    → count_words ws us ≡ count_ones (row ws) (row us)
unfolding count_words IsWord
count_words-row [] [] a b e = unfold count_ones in refl
count_words-row [] (u ∷ us) a b e = absurd (omega (arith, e))
count_words-row (w ∷ ws) [] a b e = absurd (omega (arith, e))
count_words-row (w ∷ ws) (u ∷ us) a b e = omega (
  arith,
  count_words-row ws us a.1 b.1 (omega (arith, e)),
  count_ones-append w (row ws) u (row us) (a.0 ∙ sym b.0),
)

pub row-set_bit :
    (ws : List Word) (i : ℕ)
    → All IsWord ws
    → i < 64 * length ws
    → (row (set_bit ws i) ≡ set (row ws) i true) × All IsWord (set_bit ws i)
unfolding IsWord
row-set_bit [] i a h = absurd (omega (arith, h))
row-set_bit (w ∷ ws) i a h = elim (lt-or-ge i 64) [
  | inl below ↦
      let e = set_bit_here w ws i below in
      (
        rw e (sym (set-append_left w (row ws) i true (omega (arith, below, a.0)))),
        rw e (length-set w i true ∙ a.0, a.1),
      )
  | inr above ↦
      let j = i - 64 in
      let same : 64 + j ≡ i = omega (arith, above) in
      let (rest, words) = row-set_bit ws j a.1 (omega (arith, h, above)) in
      subst
        (λ k.
          (row (set_bit (w ∷ ws) k) ≡ set (row (w ∷ ws)) k true) × All IsWord (set_bit (w ∷ ws) k))
        same
        (rw (set_bit_later w ws j) (
          ap (λ l. w ++ l) rest
              ∙ sym (
                  ap (λ n. set (w ++ row ws) (n + j) true) (sym a.0)
                  ∙ set-append_right w (row ws) j true),
          (a.0, words),
        ))
]
