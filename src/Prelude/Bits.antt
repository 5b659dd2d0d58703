-- ===== src/Prelude/Bits.antt =====
-- Facts about the bitwise operations at variables: the digit laws of `bit_and`, and the values of
-- the masks that the program uses over a byte.
use Prim.Native.Nat.{
  ℕ, zero, suc, ◌+◌, ◌*◌, ◌/◌, ◌%◌, ◌^◌, ◌≤◌, ◌<◌, min, bit_and, bit_or, digits, bit_and-bitwise,
}
use mathlib.Core.Path.{◌≡◌, refl, sym, ◌∙◌, ap}
use mathlib.Core.Bool.{Bool, true, false}
use mathlib.Core.Logic.{◌⊎◌, inl, inr}
use native.Mathlib.Omega.{arith}
use native.Mathlib.Nat.{div-div-eq-div-mul, pow-succ'}
use rtsp_h.Prelude.Tests.{◌==◌, if◌then◌else◌}

abbrev ands : ℕ → ℕ → ℕ → ℕ
ands n a b = digits (λ b. zero) min n a b

-- More rounds than the first number has digits change nothing.
ands_enough : (k n a b : ℕ) → n ≤ k → a ≤ n → ands n a b ≡ bit_and a b
ands_enough k zero zero b p q = sym (bit_and-bitwise 0 b)
ands_enough k zero (suc a) b p q = elim q [ ]
ands_enough k (suc n) zero b p q = sym (bit_and-bitwise 0 b)
ands_enough zero (suc n) (suc a) b p q = elim p [ ]
ands_enough (suc k) (suc n) (suc a) b p q = omega (
  arith,
  bit_and-bitwise (suc a) b,
  ands_enough k n (suc a / 2) (b / 2) (omega arith) (omega arith),
  ands_enough k a (suc a / 2) (b / 2) (omega arith) (omega arith),
)

bit_and-digits :
    (x mask : ℕ) → bit_and x mask ≡ min (x % 2) (mask % 2) + 2 * bit_and (x / 2) (mask / 2)
bit_and-digits zero mask = omega (arith, bit_and-bitwise 0 (mask / 2), bit_and-bitwise 0 mask)
bit_and-digits (suc x) mask =
    let rest = ands_enough x x (suc x / 2) (mask / 2) (omega arith) (omega arith) in
    omega (arith, rest, bit_and-bitwise (suc x) mask)

div-pow-suc : (s a : ℕ) → a / 2 ^ suc s ≡ a / 2 / 2 ^ s
div-pow-suc s a = rw pow-succ' (sym (div-div-eq-div-mul a 2 (2 ^ s)))

-- A digit that both numbers have is a digit of their `bit_and`.
pub bit_and-both : (s a b : ℕ) → a / 2 ^ s % 2 ≡ 1 → b / 2 ^ s % 2 ≡ 1 → bit_and a b / 2 ^ s % 2 ≡ 1
bit_and-both zero a b p q = omega (arith, bit_and-digits a b)
bit_and-both (suc s) a b p q = rw (div-pow-suc s (bit_and a b)) (
    let half : bit_and a b / 2 ≡ bit_and (a / 2) (b / 2) = omega (arith, bit_and-digits a b) in
    rw half (
      bit_and-both s (a / 2) (b / 2) (sym (ap (λ (t : ℕ). t % 2) (div-pow-suc s a)) ∙ p)
        (sym (ap (λ (t : ℕ). t % 2) (div-pow-suc s b)) ∙ q)))

bit_and_ones_step : (m x : ℕ) → bit_and x (2 * m + 1) ≡ bit_and (x / 2) m * 2 + x % 2
bit_and_ones_step m x =
    let half : (2 * m + 1) / 2 ≡ m = omega arith in
    rw (bit_and-digits x (2 * m + 1), half) (omega arith)

bit_and-zero_below : (n x : ℕ) → x ≤ n → bit_and x 0 ≡ 0
bit_and-zero_below zero zero h = bit_and-bitwise 0 0
bit_and-zero_below zero (suc x) h = elim h [ ]
bit_and-zero_below (suc n) zero h = bit_and-bitwise 0 0
bit_and-zero_below (suc n) (suc x) h =
    omega (arith, bit_and-digits (suc x) 0, bit_and-zero_below n (suc x / 2) (omega arith))

-- The last `k` binary digits.
abbrev low_digits : ℕ → ℕ → ℕ
low_digits zero x = 0
low_digits (suc k) x = low_digits k (x / 2) * 2 + x % 2

abbrev ones : ℕ → ℕ
ones zero = 0
ones (suc k) = 2 * ones k + 1

bit_and-ones : (k x : ℕ) → bit_and x (ones k) ≡ low_digits k x
bit_and-ones zero x = bit_and-zero_below x x (omega arith)
bit_and-ones (suc k) x = bit_and_ones_step (ones k) x ∙ rw (bit_and-ones k (x / 2)) refl

low_digits-% : (x : ℕ) → low_digits 8 x ≡ x % 256
low_digits-% x = omega arith

pub bit_and_0xff : (x : ℕ) → bit_and x 0xff ≡ x % 256
bit_and_0xff x = bit_and-ones 8 x ∙ low_digits-% x

pub bit_and_0xffff : (x : ℕ) → bit_and x 0xffff ≡ x % 65536
bit_and_0xffff x = bit_and-ones 16 x ∙ omega arith

pub bit_and_0x7f : (x : ℕ) → bit_and x 0x7f ≡ x % 128
bit_and_0x7f x = bit_and-ones 7 x ∙ omega arith

pub bit_and_0x3f : (x : ℕ) → bit_and x 0x3f ≡ x % 64
bit_and_0x3f x = bit_and-ones 6 x ∙ omega arith

-- Whether two functions have the same values in front of a bound.
unfoldable pub agree : (ℕ → ℕ) → (ℕ → ℕ) → ℕ → Bool
agree f g zero = true
agree f g (suc bound) = if f bound == g bound then agree f g bound else false

agree-at : (f g : ℕ → ℕ) (bound x : ℕ) → x < bound → agree f g bound ≡ true → f x ≡ g x
unfolding agree
agree-at f g zero x lt same = elim lt [ ]
agree-at f g (suc bound) x lt same =
    let step : (x ≡ bound) ⊎ (x < bound) = ground arith in
    let last : f bound ≡ g bound = ground arith in
    let others : agree f g bound ≡ true = ground arith in
    elim step [ inl here ↦ rw here last | inr before ↦ agree-at f g bound x before others ]

pub table : (bound : ℕ) (f g : ℕ → ℕ) → agree f g bound ≡ true → (x : ℕ) → x < bound → f x ≡ g x
table bound f g same x lt = agree-at f g bound x lt same

pub bit_or_0x80 : (x : ℕ) → x < 128 → bit_or x 0x80 ≡ x + 128
unfolding agree
bit_or_0x80 = table 128 (λ x. bit_or x 0x80) (λ x. x + 128) refl

pub bit_or_0x40 : (x : ℕ) → x < 256 → x / 64 % 2 ≡ 0 → bit_or x 0x40 ≡ x + 64
unfolding agree
bit_or_0x40 x h z =
    let at : x / 128 * 128 + x % 64 ≡ x = omega arith in
    let t =
      table 128 (λ y. bit_or (y / 64 * 128 + y % 64) 0x40) (λ y. y / 64 * 128 + y % 64 + 64) refl
        (x / 128 * 64 + x % 64) (omega arith) in
    let back : (x / 128 * 64 + x % 64) / 64 * 128 + (x / 128 * 64 + x % 64) % 64 ≡ x =
      omega arith in
    rw back at t

-- The high byte of a 16-bit length, as `(x & 0xff00) >> 8` takes it.
pub bit_and_0xff00 : (x : ℕ) → x < 2048 → bit_and x 0xff00 / 256 ≡ x / 256
unfolding agree
bit_and_0xff00 = table 2048 (λ x. bit_and x 0xff00 / 256) (λ x. x / 256) refl
