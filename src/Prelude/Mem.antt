-- ===== src/Prelude/Mem.antt =====
-- Byte buffers: a buffer is the list of its bytes, and a pointer into it is an offset.
use Prim.Native.Nat.{ℕ, zero, suc, ◌+◌, ◌≤◌, ◌<◌}
use Prim.Native.Nat.add
use mathlib.Core.Path.{◌≡◌, refl}
use mathlib.Core.List.{List, [], ◌∷◌, ◌++◌, append_assoc}
use mathlib.Core.Option.{Option, none, some}
use native.Mathlib.Omega.{arith}
use rtsp_h.Prelude.Tests.{leb, le→leb, if◌then◌else◌}
use rtsp_h.Prelude.Lists.{
  length, take, drop, get_or, length-append, take-append, drop-append_more, drop-drop, length-drop,
  drop-append, take-length, length-take,
}

abbrev pub Bytes : Type 0
Bytes = List ℕ

-- `memcpy(dst + at, src, n)` for the n bytes of `src`; `none` is a write past the end of `dst`.
unfoldable pub write : Bytes → ℕ → Bytes → Option Bytes
write dst at src =
    if leb (at + length src) (length dst)
    then some (take at dst ++ (src ++ drop (at + length src) dst))
    else none

-- The n bytes from `src + at`; `none` is a read past the end of `src`.
unfoldable pub read : Bytes → ℕ → ℕ → Option Bytes
read src at n = if leb (at + n) (length src) then some (take n (drop at src)) else none

-- A buffer whose first bytes are `front`, the rest being as in `m`.
abbrev pub over : Bytes → Bytes → Bytes
over front m = front ++ drop (length front) m

pub length-over : (w m : Bytes) → length w ≤ length m → length (over w m) ≡ length m
length-over w m h =
    omega (arith, length-append {0} w (drop (length w) m), length-drop {0} (length w) m)

-- Writing on where the front ends makes a longer front.
pub write-over :
    (w m src : Bytes)
    → length w + length src ≤ length m
    → write (over w m) (length w) src ≡ some (over (w ++ src) m)
unfolding write
write-over w m src h =
    rw (le→leb (length w + length src) (length (over w m)) (rw (length-over w m (omega arith)) h)) (
      rw
        (
          take-append w (drop (length w) m),
          drop-append_more (length src) w (drop (length w) m),
          drop-drop (length src) (length w) m,
          length-append w src,
          append_assoc w src,
        )
        refl)

-- The same at an offset that is known to be where the front ends.
pub write-over_at :
    (w m src : Bytes) (p : ℕ)
    → length w ≡ p
    → p + length src ≤ length m
    → write (over w m) p src ≡ some (over (w ++ src) m)
write-over_at w m src p e h = rw (← e) (write-over w m src (rw (← e) at h))

-- Reading the whole front gives it back.
pub read-over : (w m : Bytes) → length w ≤ length m → read (over w m) 0 (length w) ≡ some w
unfolding read
read-over w m h =
    rw (add.zero, le→leb (length w) (length (over w m)) (rw (length-over w m h) h))
      (rw (take-append w (drop (length w) m)) refl)

-- The bytes behind the first part of the front.
pub read-over_after :
    (a b m : Bytes)
    → length (a ++ b) ≤ length m
    → read (over (a ++ b) m) (length a) (length b) ≡ some b
unfolding read
read-over_after a b m h =
    rw
      (le→leb (length a + length b) (length (over (a ++ b) m))
        (rw (length-over (a ++ b) m h) (omega (arith, length-append a b))))
      (rw
        (append_assoc a b (drop (length (a ++ b)) m), drop-append a (b ++ drop (length (a ++ b)) m))
        (rw (take-append b (drop (length (a ++ b)) m)) refl))

-- What a read gives has the length that was asked for.
pub length-read : (m : Bytes) (p n : ℕ) {xs : Bytes} → read m p n ≡ some xs → length xs ≡ n
unfolding read
length-read m p n h = ground (arith, length-take n (drop p m), length-drop p m)

pub read-all : (m : Bytes) → read m 0 (length m) ≡ some m
unfolding read
read-all m = rw (add.zero, le→leb (length m) (length m) (omega arith)) (rw (take-length m) refl)

-- Every entry is a byte.
abbrev pub IsBytes : Bytes → Type 0
IsBytes [] = Unit
IsBytes (b ∷ bs) = (b < 256) × IsBytes bs

pub get_or-lt : (m : Bytes) (i : ℕ) → IsBytes m → get_or m i 0 < 256
get_or-lt [] i h = omega arith
get_or-lt (b ∷ m) zero h = h.0
get_or-lt (b ∷ m) (suc i) h = get_or-lt m i h.1
