-- ===== src/Sim/AnnexB.antt =====
-- The byte stream format of H.265, annex B, with start codes of four bytes: it is not part of the
-- program, and says what the file that src/SimStreamer.cpp reads should look like.
use Prim.Native.Nat.add
use rtsp_h.Prelude.{
  ℕ, zero, suc, ◌≤◌, ◌<◌, ◌≡◌, ◌≢◌, refl, Bool, true, false, not, ◌&&◌, List, [], ◌∷◌, ◌++◌, ◌==◌,
  Bytes, length, arith,
}
use rtsp_h.Avc.FirstCode.{at, IsCode}

abbrev pub annex_b : List Bytes → Bytes
annex_b [] = []
annex_b (u ∷ us) = 0 ∷ 0 ∷ 0 ∷ 1 ∷ (u ++ annex_b us)

-- No start code begins in the unit.
abbrev begins_code : Bytes → Bool
begins_code (a ∷ b ∷ c ∷ _) = a == 0 && (b == 0 && c == 1)
begins_code _ = false

abbrev pub no_code : Bytes → Bool
no_code [] = true
no_code (a ∷ xs) = not (begins_code (a ∷ xs)) && no_code xs

-- The last byte is not 0.
abbrev pub ends_nonzero : Bytes → Bool
ends_nonzero [] = true
ends_nonzero (a ∷ []) = not (a == 0)
ends_nonzero (a ∷ b ∷ xs) = ends_nonzero (b ∷ xs)

-- A unit that can stand in the stream: emulation of start codes is prevented in it, and it has a
-- byte at least.
pub record IsEscaped (u : Bytes) : Type 0 where
  pub none_inside : no_code u ≡ true
  pub no_zero_end : ends_nonzero u ≡ true
  pub nonempty : 0 < length u

first-not-IsCode :
    (a : ℕ) (u rest : Bytes)
    → no_code (a ∷ u) ≡ true
    → ends_nonzero (a ∷ u) ≡ true
    → ¬ IsCode ((a ∷ u) ++ rest) 0
first-not-IsCode a [] rest c z h = ground arith
first-not-IsCode a (b ∷ []) rest c z h = ground arith
first-not-IsCode a (b ∷ d ∷ u) rest c z h = ground arith

ends_nonzero-tail : (a : ℕ) (u : Bytes) → ends_nonzero (a ∷ u) ≡ true → ends_nonzero u ≡ true
ends_nonzero-tail a [] h = refl
ends_nonzero-tail a (b ∷ u) h = h

-- No start code begins in a unit, nor at the byte behind it if no third byte 1 follows.
pub unit-not-IsCode :
    (u rest : Bytes) (i : ℕ)
    → no_code u ≡ true
    → ends_nonzero u ≡ true
    → at rest 2 ≢ 1
    → i ≤ length u
    → ¬ IsCode (u ++ rest) i
unit-not-IsCode [] rest zero c z third le h = third h.2
unit-not-IsCode [] rest (suc i) c z third le h = elim le [ ]
unit-not-IsCode (a ∷ u) rest zero c z third le h = first-not-IsCode a u rest c z h
unit-not-IsCode (a ∷ u) rest (suc i) c z third le h =
    unit-not-IsCode u rest i (ground arith) (ends_nonzero-tail a u z) third (omega arith)
      (simp add.suc at h)
