-- ===== src/Utils/Stores.antt =====
-- src/Utils.cpp: what the stores write, and a reader of network byte order.
use rtsp_h.Prelude.{
  ℕ, ◌+◌, ◌*◌, ◌/◌, ◌%◌, ◌^◌, ◌≤◌, ◌<◌, ◌≡◌, refl, ap, some, [], ◌∷◌, ◌++◌, Bytes, over, write-over,
  length, length-append, append_assoc, arith,
}
use rtsp_h.Utils.{load8, load16, load32}

-- Network byte order.
abbrev pub be16 : ℕ → Bytes
be16 x = (x / 2 ^ 8 % 2 ^ 8) ∷ (x % 2 ^ 8) ∷ []

abbrev pub be32 : ℕ → Bytes
be32 x = be16 (x / 2 ^ 16 % 2 ^ 16) ++ be16 (x % 2 ^ 16)

-- A store behind the bytes `w` that are already written.
pub load8-over :
    (w m : Bytes) (p x : ℕ)
    → length w ≡ p
    → p + 1 ≤ length m
    → load8 (over w m) p x ≡ some (over (w ++ x ∷ []) m, p + 1)
unfolding load8
load8-over w m p x e h = rw (← e) (rw (write-over w m (x ∷ []) (omega arith)) refl)

pub load16-over :
    (w m : Bytes) (p x : ℕ)
    → length w ≡ p
    → p + 2 ≤ length m
    → load16 (over w m) p x ≡ some (over (w ++ be16 x) m, p + 2)
unfolding load16
load16-over w m p x e h = rw (load8-over w m p (x / 2 ^ 8 % 2 ^ 8) e (omega arith)) (
    rw
      (load8-over (w ++ (x / 2 ^ 8 % 2 ^ 8) ∷ []) m (p + 1) (x % 2 ^ 8)
        (omega (arith, length-append w ((x / 2 ^ 8 % 2 ^ 8) ∷ []))) (omega arith))
      (rw (append_assoc w) (ap (λ q. some (over (w ++ be16 x) m, q)) (omega arith))))

pub load32-over :
    (w m : Bytes) (p x : ℕ)
    → length w ≡ p
    → p + 4 ≤ length m
    → load32 (over w m) p x ≡ some (over (w ++ be32 x) m, p + 4)
unfolding load32
load32-over w m p x e h = rw (load16-over w m p (x / 2 ^ 16 % 2 ^ 16) e (omega arith)) (
    rw
      (load16-over (w ++ be16 (x / 2 ^ 16 % 2 ^ 16)) m (p + 2) (x % 2 ^ 16)
        (omega (arith, length-append w (be16 (x / 2 ^ 16 % 2 ^ 16)))) (omega arith))
      (rw (append_assoc w) (ap (λ q. some (over (w ++ be32 x) m, q)) (omega arith))))

-- A reader of network byte order.
abbrev value_from : ℕ → Bytes → ℕ
value_from acc [] = acc
value_from acc (b ∷ bs) = value_from (acc * 256 + b) bs

abbrev pub value : Bytes → ℕ
value = value_from 0

pub value-be16 : (x : ℕ) → x < 2 ^ 16 → value (be16 x) ≡ x
value-be16 x h = omega arith

pub value-be32 : (x : ℕ) → x < 2 ^ 32 → value (be32 x) ≡ x
value-be32 x h = omega arith

-- `Load32` behind the bytes that are written leaves those, and writes four bytes behind them that a
-- reader of network byte order takes for the number.
pub load32-value :
    (w m : Bytes) (p x : ℕ)
    → length w ≡ p
    → p + 4 ≤ length m
    → x < 2 ^ 32
    → (b : Bytes) × (load32 (over w m) p x ≡ some (over (w ++ b) m, p + 4))
      × (length b ≡ 4)
      × (value b ≡ x)
load32-value w m p x e room small = (be32 x, load32-over w m p x e room, refl, value-be32 x small)
