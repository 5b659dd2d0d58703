-- ===== src/Utils.antt =====
-- src/Utils.cpp: the big-endian stores. A store gets the buffer and the offset `p`, and returns
-- the new buffer and the offset behind the bytes that it wrote.
pub mod Stores
use rtsp_h.Prelude.{ℕ, ◌+◌, ◌/◌, ◌%◌, ◌^◌, Option, some, [], ◌∷◌, ◌>>=◌, Bytes, write}

unfoldable pub load8 : Bytes → ℕ → ℕ → Option (Bytes × ℕ)
load8 m p x = do m' ← write m p (x ∷ []); some (m', p + 1)

unfoldable pub load16 : Bytes → ℕ → ℕ → Option (Bytes × ℕ)
load16 m p x = do (m₁, p₁) ← load8 m p (x / 2 ^ 8 % 2 ^ 8); load8 m₁ p₁ (x % 2 ^ 8)

unfoldable pub load32 : Bytes → ℕ → ℕ → Option (Bytes × ℕ)
load32 m p x = do (m₁, p₁) ← load16 m p (x / 2 ^ 16 % 2 ^ 16); load16 m₁ p₁ (x % 2 ^ 16)
