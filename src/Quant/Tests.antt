-- ===== src/Quant/Tests.antt =====
-- Runs of the quantization, over numbers of which zero alone is not positive.
use aether_engine.Prelude.{ℕ, ◌+◌, ◌*◌, ◌/◌, ◌≡◌, refl, [], ◌∷◌, ltb, ◌%◌, ◌^◌}
use aether_engine.Quant.{Floats, quantize, hamming, set_in}
use aether_engine.Quant.Signs.{sign_differences, hamming-quantize}

abbrev naturals : Floats
naturals = record {
  Float = ℕ;
  zero_float = 0;
  is_positive = λ x. ltb 0 x;
  add = λ x y. x + y;
  mul = λ x y. x * y;
  abs = λ x. x;
  div_len = λ x n. x / n;
}

hamming-quantize_example :
    hamming (quantize naturals (1 ∷ 0 ∷ 2 ∷ [])) (quantize naturals (0 ∷ 0 ∷ 7 ∷ []))
    ≡ sign_differences naturals (1 ∷ 0 ∷ 2 ∷ []) (0 ∷ 0 ∷ 7 ∷ []) % 2 ^ 32
hamming-quantize_example = hamming-quantize naturals (1 ∷ 0 ∷ 2 ∷ []) (0 ∷ 0 ∷ 7 ∷ []) refl

one_sign : hamming (quantize naturals (1 ∷ 0 ∷ 2 ∷ [])) (quantize naturals (0 ∷ 0 ∷ 7 ∷ [])) ≡ 1
unfolding hamming quantize set_in
one_sign = refl
