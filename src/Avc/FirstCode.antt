-- ===== src/Avc/FirstCode.antt =====
-- What the search of src/AVC.cpp looks for, said of the bytes alone.
use rtsp_h.Prelude.{
  ℕ, ◌+◌, ◌≤◌, ◌<◌, ◌≡◌, ◌⊎◌, inl, inr, Bool-cases, ap, ◌∙◌, Bool, true, false, ◌&&◌, some, ◌==◌,
  Bytes, length, get_or, get_elem?-get_or, arith,
}
use rtsp_h.Avc.{code_at}

-- The byte at an offset.
abbrev pub at : Bytes → ℕ → ℕ
at mem i = get_or mem i 0

-- A start code stands at `p`.
abbrev pub IsCode : Bytes → ℕ → Type 0
IsCode mem p = (at mem p ≡ 0) × (at mem (p + 1) ≡ 0) × (at mem (p + 2) ≡ 1)

-- No start code from `p` up to `q` that leaves a byte behind it before `end`.
abbrev pub Clear : Bytes → ℕ → ℕ → ℕ → Type 0
Clear mem end p q = (k : ℕ) → p ≤ k → k < q → k + 3 < end → ¬ IsCode mem k

-- `r` is the first start code between `p` and `end` with a byte behind it, or `end` if none is.
pub record FirstCode (mem : Bytes) (p end r : ℕ) : Type 0 where
  pub clear : Clear mem end p r
  pub here : (IsCode mem r × (p ≤ r) × (r + 3 < end)) ⊎ (r ≡ end)

-- There is at most one such place, if `p` is not behind `end`.
pub FirstCode-unique :
    (mem : Bytes) (p end r s : ℕ) → p ≤ end → FirstCode mem p end r → FirstCode mem p end s → r ≡ s
FirstCode-unique mem p end r s h f g = ground (arith, f.clear s, g.clear r, f.here, g.here)

-- The byte test reads within `mem`, and decides whether a code is there.
pub code_at-some :
    (mem : Bytes) (p : ℕ)
    → p + 2 < length mem
    → code_at mem p ≡ some (at mem p == 0 && (at mem (p + 1) == 0 && at mem (p + 2) == 1))
unfolding code_at
code_at-some mem p h = ground (
  arith,
  get_elem?-get_or mem p 0 (omega arith),
  get_elem?-get_or mem (p + 1) 0 (omega arith),
  get_elem?-get_or mem (p + 2) 0 h,
)

abbrev code_test : Bytes → ℕ → Bool
code_test mem p = at mem p == 0 && (at mem (p + 1) == 0 && at mem (p + 2) == 1)

pub code_at-cases :
    (mem : Bytes) (p : ℕ)
    → p + 2 < length mem
    → (code_at mem p ≡ some true) × IsCode mem p ⊎ (code_at mem p ≡ some false) × (¬ IsCode mem p)
code_at-cases mem p h = elim (Bool-cases (code_test mem p)) [
  | inl on ↦ inl (code_at-some mem p h ∙ ap some on, ground arith)
  | inr off ↦ inr (code_at-some mem p h ∙ ap some off, ground arith)
]
