-- ===== src/Avc.antt =====
-- src/AVC.cpp: the search for a start code 00 00 01. Pointers are offsets into `mem`, the memory
-- that holds the stream, and `addr` is the address of its first byte. A read outside `mem` is a
-- fault, `none`. Ends are moved as in the source, `p < end - 3` being written `p + 3 < end`.
pub mod ZeroByte
pub mod FirstCode
pub mod Loops
pub mod Search
use rtsp_h.Prelude.{
  ℕ, zero, suc, ◌+◌, ◌-◌, ◌*◌, ◌%◌, ◌^◌, bit_and, Bool, true, false, not, ◌&&◌, Option, none, some,
  ltb, ◌==◌, if◌then◌else◌, ◌>>=◌, Bytes, get_elem?,
}

-- How a loop ends: by `return p`, or by its condition at `p`.
pub data Exit : Type 0 where
  found : ℕ → Exit
  passed : ℕ → Exit

-- `p[0] == 0 && p[1] == 0 && p[2] == 1`, read from left to right.
unfoldable pub code_at : Bytes → ℕ → Option Bool
code_at mem p = do
  b₀ ← get_elem? mem p
  if not (b₀ == 0) then some false else do
    b₁ ← get_elem? mem (p + 1)
    if not (b₁ == 0) then some false else do b₂ ← get_elem? mem (p + 2); some (b₂ == 1)

-- `for (; test(p); p++) if (startcode at p) return p;`
unfoldable pub byte_loop : Bytes → (ℕ → Bool) → ℕ → ℕ → Option Exit
byte_loop mem test zero p = none
byte_loop mem test (suc k) p =
    let rest = byte_loop mem test k (p + 1) in
    if test p
    then (do hit ← code_at mem p; if hit then some (found p) else rest)
    else some (passed p)

-- `(x - 0x01010101) & (~x) & 0x80808080` on 32 bits
unfoldable pub zero_byte_mask : ℕ → ℕ
zero_byte_mask x =
    bit_and (bit_and ((x + 2 ^ 32 - 0x01010101) % 2 ^ 32) (2 ^ 32 - 1 - x)) 0x80808080

-- `*(const uint32_t*)p` on a little-endian machine
unfoldable pub word : ℕ → ℕ → ℕ → ℕ → ℕ
word b₀ b₁ b₂ b₃ = b₀ + b₁ * 2 ^ 8 + b₂ * 2 ^ 16 + b₃ * 2 ^ 24

-- `if (p[3] == 0) …`: the tests that look past the word.
unfoldable pub window_end : Bytes → ℕ → ℕ → ℕ → Option (Option ℕ)
window_end mem p b₂ b₃ = if not (b₃ == 0) then some none else do
  b₄ ← get_elem? mem (p + 4)
  if b₂ == 0 && b₄ == 1
      then some (some (p + 2))
      else if not (b₄ == 0)
      then some none
      else do b₅ ← get_elem? mem (p + 5); some (if b₅ == 1 then some (p + 3) else none)

-- The body of the loop over words: `some q` is `return q`.
unfoldable pub window : Bytes → ℕ → Option (Option ℕ)
window mem p = do
  b₀ ← get_elem? mem p
  b₁ ← get_elem? mem (p + 1)
  b₂ ← get_elem? mem (p + 2)
  b₃ ← get_elem? mem (p + 3)
  if zero_byte_mask (word b₀ b₁ b₂ b₃) == 0
      then some none
      else if b₁ == 0 && b₀ == 0 && b₂ == 1
      then some (some p)
      else if b₁ == 0 && b₂ == 0 && b₃ == 1
      then some (some (p + 1))
      else window_end mem p b₂ b₃

-- `for (end -= 3; p < end; p += 4)`, where `end` had been lowered by 3 before
unfoldable pub word_loop : Bytes → ℕ → ℕ → ℕ → Option Exit
word_loop mem end zero p = none
word_loop mem end (suc k) p =
    let rest = word_loop mem end k (p + 4) in
    if ltb (p + 6) end
    then (do hit ← window mem p; elim hit [ some q ↦ some (found q) | none ↦ rest ])
    else some (passed p)

-- The first two loops, each followed by the code behind it.
abbrev pub finish_at : ℕ → Exit → Option ℕ
finish_at end (found q) = some q
finish_at end (passed _) = some end

abbrev pub then_from : Exit → (ℕ → Option ℕ) → Option ℕ
then_from (found q) next = some q
then_from (passed p) next = next p

unfoldable pub find_startcode_internal : Bytes → ℕ → ℕ → ℕ → Option ℕ
find_startcode_internal mem addr p end = do
  let a = p + 4 - (addr + p) % 4
  head ← byte_loop mem (λ q. ltb q a && ltb (q + 3) end) (end + 1) p
  then_from head λ p₁. do
    words ← word_loop mem end (end + 1) p₁
    then_from words
        λ p₂. do tail ← byte_loop mem (λ q. ltb (q + 3) end) (end + 1) p₂; finish_at end tail

-- `ff_avc_find_startcode`: steps back over a zero in front of the code.
unfoldable pub find_startcode : Bytes → ℕ → ℕ → ℕ → Option ℕ
find_startcode mem addr p end = do
  out ← find_startcode_internal mem addr p end
  if ltb p out && ltb out end
      then (do b ← get_elem? mem (out - 1); some (if b == 0 then out - 1 else out))
      else some out
