-- ===== src/Avc/ZeroByte.antt =====
-- The test of src/AVC.cpp for a zero byte in a word.
use rtsp_h.Prelude.{ℕ, ◌+◌, ◌-◌, ◌/◌, ◌%◌, ◌^◌, ◌<◌, ◌≡◌, ◌≢◌, bit_and-both, arith, refl}
use rtsp_h.Avc.{zero_byte_mask, word}

-- A digit that all three factors have.
mask_digit :
    (s x : ℕ)
    → (x + 2 ^ 32 - 0x01010101) % 2 ^ 32 / 2 ^ s % 2 ≡ 1
    → (2 ^ 32 - 1 - x) / 2 ^ s % 2 ≡ 1
    → 0x80808080 / 2 ^ s % 2 ≡ 1
    → zero_byte_mask x / 2 ^ s % 2 ≡ 1
unfolding zero_byte_mask
mask_digit s x p q r = bit_and-both s _ 0x80808080 (bit_and-both s _ _ p q) r

module _ (b₀ b₁ b₂ b₃ : ℕ) (h₀ : b₀ < 256) (h₁ : b₁ < 256) (h₂ : b₂ < 256) (h₃ : b₃ < 256) where
  first_zero : b₀ ≡ 0 → zero_byte_mask (word b₀ b₁ b₂ b₃) ≢ 0
  unfolding word
  first_zero e = omega (arith, mask_digit 7 (word b₀ b₁ b₂ b₃) (omega arith) (omega arith) refl)

  second_zero : 0 < b₀ → b₁ ≡ 0 → zero_byte_mask (word b₀ b₁ b₂ b₃) ≢ 0
  unfolding word
  second_zero g e = omega (arith, mask_digit 15 (word b₀ b₁ b₂ b₃) (omega arith) (omega arith) refl)

  third_zero : 0 < b₀ → 0 < b₁ → b₂ ≡ 0 → zero_byte_mask (word b₀ b₁ b₂ b₃) ≢ 0
  unfolding word
  third_zero g k e =
      omega (arith, mask_digit 23 (word b₀ b₁ b₂ b₃) (omega arith) (omega arith) refl)

  fourth_zero : 0 < b₀ → 0 < b₁ → 0 < b₂ → b₃ ≡ 0 → zero_byte_mask (word b₀ b₁ b₂ b₃) ≢ 0
  unfolding word
  fourth_zero g k l e =
      omega (arith, mask_digit 31 (word b₀ b₁ b₂ b₃) (omega arith) (omega arith) refl)

  -- If the mask is 0, then no byte of the word is 0.
  pub zero_byte_mask-zero :
      zero_byte_mask (word b₀ b₁ b₂ b₃) ≡ 0 → (0 < b₀) × (0 < b₁) × (0 < b₂) × (0 < b₃)
  zero_byte_mask-zero z = ground (arith, first_zero, second_zero, third_zero, fourth_zero)
