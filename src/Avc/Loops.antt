-- ===== src/Avc/Loops.antt =====
-- The three loops of src/AVC.cpp, each on its own.
use rtsp_h.Prelude.{
  ℕ, zero, suc, ◌+◌, ◌≤◌, ◌<◌, ◌≡◌, refl, ◌⊎◌, inl, inr, Bool, true, false, not, if◌then◌else◌,
  ◌&&◌, Option, none, some, ◌==◌, ltb, ltb→lt, ltb→le, ==_iff, Bool-cases, Bytes, IsBytes,
  get_or-lt, length, get_elem?-get_or, arith,
}
use native.Mathlib.Nat.{add_assoc}
use native.Mathlib.Decide.{dec_lt}
use rtsp_h.Avc.{Exit, found, passed, byte_loop, window, window_end, word, zero_byte_mask, word_loop}
use rtsp_h.Avc.FirstCode.{at, IsCode, Clear, code_at-cases}
use rtsp_h.Avc.ZeroByte.{zero_byte_mask-zero}

-- What a loop that started at `s` tells of its way out.
abbrev pub Told : Bytes → ℕ → ℕ → (ℕ → Type 0) → Exit → Type 0
Told mem end s Stop (found q) = IsCode mem q × Clear mem end s q × (s ≤ q) × (q + 3 < end)
Told mem end s Stop (passed q) = Clear mem end s q × Stop q × (s ≤ q)

-- The tests of one round over a word, on its bytes; `z` says that the mask is 0.
abbrev pick : (p : ℕ) → Bool → (b₀ b₁ b₂ b₃ b₄ b₅ : ℕ) → Option ℕ
pick p z b₀ b₁ b₂ b₃ b₄ b₅ =
    if z
    then none
    else if b₁ == 0 && b₀ == 0 && b₂ == 1
    then some p
    else if b₁ == 0 && b₂ == 0 && b₃ == 1
    then some (p + 1)
    else if not (b₃ == 0)
    then none
    else if b₂ == 0 && b₄ == 1
    then some (p + 2)
    else if not (b₄ == 0)
    then none
    else if b₅ == 1
    then some (p + 3)
    else none

abbrev Three : ℕ → ℕ → ℕ → Type 0
Three a b c = (a ≡ 0) × (b ≡ 0) × (c ≡ 1)

-- What `pick` tells of the four codes that may begin in the word.
abbrev Picked : ℕ → Type 0 → Type 0 → Type 0 → Type 0 → Option ℕ → Type 0
Picked p A B C D none = (¬ A) × (¬ B) × (¬ C) × (¬ D)
Picked p A B C D (some q) =
    ((q ≡ p) × A)
    ⊎ ((q ≡ p + 1) × B × (¬ A))
    ⊎ ((q ≡ p + 2) × C × (¬ A) × (¬ B))
    ⊎ ((q ≡ p + 3) × D × (¬ A) × (¬ B) × (¬ C))

pick-Picked :
    (p : ℕ) (z : Bool) (b₀ b₁ b₂ b₃ b₄ b₅ : ℕ)
    → (z ≡ true → (0 < b₀) × (0 < b₁) × (0 < b₂) × (0 < b₃))
    → Picked p
        (Three b₀ b₁ b₂)
        (Three b₁ b₂ b₃)
        (Three b₂ b₃ b₄)
        (Three b₃ b₄ b₅)
        (pick p z b₀ b₁ b₂ b₃ b₄ b₅)
pick-Picked p z b₀ b₁ b₂ b₃ b₄ b₅ h = ground arith

module _ (mem : Bytes) (end : ℕ) (inside : end ≤ length mem) where
  Clear-step : (s p : ℕ) → Clear mem end s p → ¬ IsCode mem p → Clear mem end s (p + 1)
  Clear-step s p c n k lo hi room = ground (arith, c k lo)

  -- A loop over bytes whose test keeps it three bytes before the end.
  pub byte_loop-Told :
      (test : ℕ → Bool)
      → ((q : ℕ) → test q ≡ true → q + 3 < end)
      → (k s p : ℕ) → s ≤ p
      → 0 < k
      → end < p + k
      → Clear mem end s p
      → (o : Exit) × (byte_loop mem test k p ≡ some o) × (Told mem end s (λ q. test q ≡ false) o)
  unfolding byte_loop
  byte_loop-Told test stops zero s p lo pos fuel c = elim pos [ ]
  byte_loop-Told test stops (suc k) s p lo pos fuel c = elim (Bool-cases (test p)) [
    | inl on ↦ rw on (elim (code_at-cases mem p (omega (arith, stops p on))) [
      | inl (e, hit) ↦ (found p, rw e refl, (hit, c, lo, stops p on))
      | inr (e, miss) ↦ rw e (
          byte_loop-Told test stops k s (p + 1) (omega arith) (omega (arith, stops p on))
            (omega arith) (Clear-step s p c miss))
    ])
    | inr off ↦ (passed p, rw off refl, (c, off, lo))
  ]

  window-pick :
      (p : ℕ)
      → p + 6 < end
      → window mem p
        ≡ some (
            pick p
              (zero_byte_mask (word (at mem p) (at mem (p + 1)) (at mem (p + 2)) (at mem (p + 3)))
                == 0)
              (at mem p)
              (at mem (p + 1))
              (at mem (p + 2))
              (at mem (p + 3))
              (at mem (p + 4))
              (at mem (p + 5)))
  unfolding window window_end
  window-pick p room =
      rw
        (
          get_elem?-get_or mem p 0 (omega arith),
          get_elem?-get_or mem (p + 1) 0 (omega arith),
          get_elem?-get_or mem (p + 2) 0 (omega arith),
          get_elem?-get_or mem (p + 3) 0 (omega arith),
          get_elem?-get_or mem (p + 4) 0 (omega arith),
          get_elem?-get_or mem (p + 5) 0 (omega arith),
        )
        (ground arith)

  -- What one round over a word leaves.
  abbrev Window : ℕ → Option ℕ → Type 0
  Window p (some q) =
      IsCode mem q × (p ≤ q) × (q ≤ p + 3) × ((k : ℕ) → p ≤ k → k < q → ¬ IsCode mem k)
  Window p none = (k : ℕ) → p ≤ k → k < p + 4 → ¬ IsCode mem k

  Picked-Window :
      (p : ℕ) (o : Option ℕ)
      → Picked p (IsCode mem p) (IsCode mem (p + 1)) (IsCode mem (p + 2)) (IsCode mem (p + 3)) o
      → Window p o
  Picked-Window p none h = λ k lo hi. ground arith
  Picked-Window p (some q) h = ground arith

  window-Window :
      (p : ℕ) → IsBytes mem → p + 6 < end → (o : Option ℕ) × (window mem p ≡ some o) × (Window p o)
  window-Window p bytes room = (
    _,
    window-pick p room,
    Picked-Window p _ (
        simp add_assoc (
          pick-Picked p _ (at mem p) (at mem (p + 1)) (at mem (p + 2)) (at mem (p + 3))
            (at mem (p + 4)) (at mem (p + 5))
            λ z.
              zero_byte_mask-zero _ _ _ _ (get_or-lt mem p bytes) (get_or-lt mem (p + 1) bytes)
                (get_or-lt mem (p + 2) bytes) (get_or-lt mem (p + 3) bytes) ((==_iff _ _).0 z))),
  )

  Clear-Window : (s p : ℕ) → Clear mem end s p → Window p none → Clear mem end s (p + 4)
  Clear-Window s p c w k lo hi room = elim (dec_lt k p) [
    | yes before ↦ c k lo before room
    | no after ↦ w k (omega arith) hi
  ]

  Clear-found :
      (s p q : ℕ)
      → Clear mem end s p
      → ((k : ℕ) → p ≤ k → k < q → ¬ IsCode mem k)
      → Clear mem end s q
  Clear-found s p q c w k lo hi room = elim (dec_lt k p) [
    | yes before ↦ c k lo before room
    | no after ↦ w k (omega arith) hi
  ]

  pub word_loop-Told :
      IsBytes mem
      → (k s p : ℕ) → s ≤ p
      → 0 < k
      → end < p + k
      → Clear mem end s p
      → (o : Exit) × (word_loop mem end k p ≡ some o) × (Told mem end s (λ q. end ≤ q + 6) o)
  unfolding word_loop
  word_loop-Told bytes zero s p lo pos fuel c = elim pos [ ]
  word_loop-Told bytes (suc k) s p lo pos fuel c = elim (Bool-cases (ltb (p + 6) end)) [
    | inl on ↦
        let room : p + 6 < end = ltb→lt _ _ on in
        let (o, e, w) = window-Window p bytes room in
        rw (on, e)
          (elim o
              as (λ o.
                Window p o
                → (x : Exit) × ((elim o [
                  | some q ↦ some (found q)
                  | none ↦ word_loop mem end k (p + 4)
                ])
                    ≡ some x)
                  × (Told mem end s (λ q. end ≤ q + 6) x)) [
                    | none ↦ λ w.
                        word_loop-Told bytes k s (p + 4) (omega arith) (omega arith) (omega arith)
                          (Clear-Window s p c w)
                    | some q ↦ λ w.
                        (found q, refl, (w.0, Clear-found s p q c w.3, omega arith, omega arith))
                  ]
            w)
    | inr off ↦ (passed p, rw off refl, (c, ltb→le _ _ off, lo))
  ]
