-- ===== src/Avc/Search.antt =====
-- src/AVC.cpp as a whole: the search over bytes and words.
use rtsp_h.Prelude.{
  ℕ, ◌+◌, ◌-◌, ◌%◌, ◌≤◌, ◌<◌, ◌≡◌, refl, inl, inr, false, ◌&&◌, Option, some, ◌==◌, ltb, ltb→lt,
  ltb→le, Bool-cases, Bytes, IsBytes, length, get_elem?-get_or, if◌then◌else◌, arith,
}
use rtsp_h.Avc.{Exit, found, passed, finish_at, then_from, find_startcode_internal, find_startcode}
use rtsp_h.Avc.FirstCode.{at, IsCode, Clear, FirstCode}
use rtsp_h.Avc.Loops.{Told, byte_loop-Told, word_loop-Told}

module _ (mem : Bytes) (end : ℕ) (inside : end ≤ length mem) where
  -- A result of the search that started at `s`.
  abbrev Answers : ℕ → Option ℕ → Type 0
  Answers s o = (r : ℕ) × (o ≡ some r) × (FirstCode mem s end r)

  found-Answers :
      {s : ℕ} (q : ℕ)
      → IsCode mem q × Clear mem end s q × (s ≤ q) × (q + 3 < end)
      → Answers s (some q)
  found-Answers q (hit, c, lo, room) = (q, refl, record { clear = c; here = inl (hit, lo, room) })

  -- Behind the last loop nothing is left to search.
  tail-Answers :
      {s : ℕ} (o : Exit)
      → Told mem end s (λ q. ltb (q + 3) end ≡ false) o
      → Answers s (finish_at end o)
  tail-Answers (found q) t = found-Answers q t
  tail-Answers (passed q) (c, off, lo) = (
    end,
    refl,
    record {
      clear = λ k low hi room. c k low (omega (arith, ltb→le _ _ off)) room;
      here = inr refl;
    },
  )

  then_from-Answers :
      {s : ℕ} (o : Exit) (Stop : ℕ → Type 0) (next : ℕ → Option ℕ)
      → Told mem end s Stop o
      → ((q : ℕ) → s ≤ q → Clear mem end s q → Answers s (next q))
      → Answers s (then_from o next)
  then_from-Answers (found q) Stop next t go = found-Answers q t
  then_from-Answers (passed q) Stop next (c, off, lo) go = go q lo c

  -- For every alignment of the buffer, the search for a start code ends, reads nothing outside
  -- the memory, and its result is the first start code with a byte behind it, or the end.
  pub find_startcode_internal-FirstCode :
      (addr p : ℕ)
      → IsBytes mem
      → (r : ℕ) × (find_startcode_internal mem addr p end ≡ some r) × (FirstCode mem p end r)
  unfolding find_startcode_internal
  find_startcode_internal-FirstCode addr p bytes =
      let a = p + 4 - (addr + p) % 4 in
      let (o₁, e₁, t₁) =
        byte_loop-Told mem end inside (λ q. ltb q a && ltb (q + 3) end) (λ q h. ground arith)
          (end + 1) p p (omega arith) (omega arith) (omega arith)
          (λ k lo hi. absurd (omega arith)) in
      rw e₁ (
        then_from-Answers o₁ (λ q. (ltb q a && ltb (q + 3) end) ≡ false) _ t₁
          λ p₁ lo₁ c₁.
            let (o₂, e₂, t₂) =
              word_loop-Told mem end inside bytes (end + 1) p p₁ lo₁ (omega arith) (omega arith)
                c₁ in
            rw e₂ (
              then_from-Answers o₂ (λ q. end ≤ q + 6) _ t₂
                λ p₂ lo₂ c₂.
                  let (o₃, e₃, t₃) =
                    byte_loop-Told mem end inside (λ q. ltb (q + 3) end) (λ q h. ltb→lt _ _ h)
                      (end + 1) p p₂ lo₂ (omega arith) (omega arith) c₂ in
                  rw e₃ (tail-Answers o₃ t₃)))

  -- Where the pointer is set back: over one zero in front of a code that is not at `p` itself.
  abbrev pub step_back : ℕ → ℕ → ℕ
  step_back p r = if ltb p r && (ltb r end && at mem (r - 1) == 0) then r - 1 else r

  -- The search returns the first start code with a byte behind it, or the end, set back by one byte
  -- over a zero in front of a code that is not at the pointer itself.
  pub find_startcode-FirstCode :
      (addr p : ℕ)
      → IsBytes mem
      → (r : ℕ) × (find_startcode mem addr p end ≡ some (step_back p r)) × (FirstCode mem p end r)
  unfolding find_startcode
  find_startcode-FirstCode addr p bytes =
      let (r, e, f) = find_startcode_internal-FirstCode addr p bytes in
      (
        r,
        rw e (elim (Bool-cases (ltb p r && ltb r end)) [
          | inl on ↦ rw (on, get_elem?-get_or mem (r - 1) 0 (ground arith)) (ground arith)
          | inr off ↦ rw off (ground arith)
        ]),
        f,
      )
