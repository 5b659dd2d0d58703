-- ===== src/Sim/Select.antt =====
-- src/SimStreamer.cpp, `SelectNextNal`, on a stream of the format of annex B.
use rtsp_h.Prelude.{
  ℕ, suc, ◌+◌, ◌-◌, ◌≤◌, ◌<◌, ◌≡◌, ◌≢◌, refl, ap, sym, ◌∙◌, ◌⊎◌, inl, inr, false, ◌&&◌, some, [],
  ◌∷◌, ◌++◌, ltb, ◌==◌, le→ltb, if◌then◌else◌, Bytes, IsBytes, length, length-append, length-drop,
  get_or-drop, get_or-append_right, get_elem?, get_elem?-get_or, drop, drop-drop, drop-append, take,
  take-append, arith,
}
use native.Mathlib.Nat.{add_assoc}
use rtsp_h.Avc.{find_startcode}
use rtsp_h.Avc.FirstCode.{at, IsCode, FirstCode, FirstCode-unique}
use rtsp_h.Avc.Search.{find_startcode-FirstCode, step_back}
use rtsp_h.Sim.{skip_startcode, select_next_nal}
use rtsp_h.Sim.AnnexB.{IsEscaped, unit-not-IsCode}

-- What may stand behind a unit: nothing, or a start code and a byte.
abbrev pub Follows : Bytes → Type 0
Follows rest = (rest ≡ []) ⊎ ((b : ℕ) × (t : Bytes) × (rest ≡ 0 ∷ 0 ∷ 0 ∷ 1 ∷ b ∷ t))

module _ (mem : Bytes) (addr : ℕ) (bytes : IsBytes mem) where
  -- The search, where its answer is known.
  find_startcode-at :
      (p end r q : ℕ)
      → end ≤ length mem
      → p ≤ end
      → FirstCode mem p end r
      → q ≡ (if ltb p r && (ltb r end && at mem (r - 1) == 0) then r - 1 else r)
      → find_startcode mem addr p end ≡ some q
  find_startcode-at p end r q inside h first e =
      let (s, found, f) = find_startcode-FirstCode mem end inside addr p bytes in
      let same : s ≡ r = FirstCode-unique mem p end s r h f first in
      found ∙ ap some (ap (step_back mem end inside p) same ∙ sym e)

  module _ (p : ℕ) (u rest : Bytes) (there : drop p mem ≡ 0 ∷ 0 ∷ 0 ∷ 1 ∷ (u ++ rest))
      (escaped : IsEscaped u) (follows : Follows rest) where
    pub size : length mem ≡ p + (4 + length u + length rest)
    size =
        omega (arith, length-drop p mem, ap (λ (xs : Bytes). length xs) there, length-append u rest)

    see : (i : ℕ) → at mem (p + i) ≡ at (0 ∷ 0 ∷ 0 ∷ 1 ∷ (u ++ rest)) i
    see i = sym (get_or-drop p i mem 0) ∙ ap (λ xs. at xs i) there

    pub behind : drop (p + 4) mem ≡ u ++ rest
    behind = sym (drop-drop 4 p mem) ∙ ap (drop 4) there

    see_behind : (i : ℕ) → at mem (p + 4 + i) ≡ at (u ++ rest) i
    see_behind i = sym (get_or-drop (p + 4) i mem 0) ∙ ap (λ xs. at xs i) behind

    -- At a start code of four bytes the search stays.
    pub find_startcode-here : find_startcode mem addr p (length mem) ≡ some p
    find_startcode-here =
        find_startcode-at p (length mem) (p + 1) p (omega arith) (omega (arith, size))
          (record {
            clear = λ k lo hi room code. ground (arith, see 2, code);
            here = inl (
              simp add_assoc (see 1, see 2, see 3),
              omega arith,
              omega (arith, size, escaped.nonempty, length-append u rest),
            );
          })
          (rw (ap (at mem) back ∙ see 0) (ground (arith, size)))
      where
        back : p + 1 - 1 ≡ p + 0
        back = omega arith

    third : at rest 2 ≢ 1
    third = elim follows [ inl e ↦ rw e (λ h. cc h) | inr (b, t, e) ↦ rw e (λ h. cc h) ]

    -- No start code between the first byte of the unit and what follows the unit.
    clear_unit : (k : ℕ) → p + 4 ≤ k → k < p + 4 + length u + 1 → ¬ IsCode mem k
    clear_unit k lo below code =
        let i : ℕ = k - (p + 4) in
        unit-not-IsCode u rest i escaped.none_inside escaped.no_zero_end third (omega arith) (
          sym (see_behind i) ∙ ap (at mem) (omega arith) ∙ code.0,
          sym (see_behind (i + 1)) ∙ ap (at mem) (omega arith) ∙ code.1,
          sym (see_behind (i + 2)) ∙ ap (at mem) (omega arith) ∙ code.2,
        )

    -- From the unit on, the search stops at the next start code, or at the end.
    pub find_startcode-next : find_startcode mem addr (p + 4) (length mem) ≡ some (p + 4 + length u)
    find_startcode-next = elim follows [
      | inl e ↦
          let whole : length mem ≡ p + 4 + length u =
            omega (arith, size, ap (λ (xs : Bytes). length xs) e) in
          find_startcode-at (p + 4) (length mem) (length mem) (p + 4 + length u) (omega arith)
            (omega arith)
            (record { clear = λ k lo hi room. clear_unit k lo (omega arith); here = inr refl })
            (ground arith)
      | inr (b, t, e) ↦
          let r : ℕ = p + 4 + length u + 1 in
          let more : r + 3 < length mem = omega (arith, size, ap (λ (xs : Bytes). length xs) e) in
          let see_rest = λ (i : ℕ).
            see_behind (length u + i) ∙ get_or-append_right u rest i 0 ∙ ap (λ xs. at xs i) e in
          find_startcode-at (p + 4) (length mem) r (p + 4 + length u) (omega arith) (omega arith)
            (record {
              clear = λ k lo hi room. clear_unit k lo hi;
              here = inl (
                (
                  ap (at mem) (omega arith) ∙ see_rest 1,
                  ap (at mem) (omega arith) ∙ see_rest 2,
                  ap (at mem) (omega arith) ∙ see_rest 3,
                ),
                omega arith,
                more,
              );
            })
            (rw (let z : at mem (r - 1) ≡ 0 = ap (at mem) (omega arith) ∙ see_rest 0 in z)
              (ground (arith, more, escaped.nonempty)))
    ]

    pub skip_startcode-here : skip_startcode mem (length mem + 1) p ≡ some (p + 4)
    unfolding skip_startcode
    skip_startcode-here =
        let fuel : length mem + 1 ≡ suc (suc (suc (suc (length mem - 3)))) = omega (arith, size) in
        let byte =
          λ (i : ℕ) (h : p + i < length mem). get_elem?-get_or mem (p + i) 0 h ∙ ap some (see i) in
        let b₀ : get_elem? mem p ≡ some 0 =
          ap (get_elem? mem) (omega arith) ∙ byte 0 (omega (arith, size)) in
        let b₁ = byte 1 (omega (arith, size)) in
        let b₂ = byte 2 (omega (arith, size)) in
        let b₃ = byte 3 (omega (arith, size)) in rw fuel (simp (add_assoc, b₀, b₁, b₂, b₃) refl)

    -- At a unit behind a start code of four bytes, with another start code or the end of the file
    -- behind it, the unit is selected, and the pointer and the size go on behind it.
    pub select_next_nal-unit :
        select_next_nal mem addr p (4 + length u + length rest)
        ≡ some (record {
          buf = p + 4 + length u;
          size = length rest;
          nal = some (p + 4);
          nal_len = length u;
        })
    unfolding select_next_nal
    select_next_nal-unit =
        let whole : p + (4 + length u + length rest) ≡ length mem = sym size in
        let some_left : (4 + length u + length rest == 0) ≡ false = ground arith in
        let forward : ltb (p + 4 + length u) (p + 4) ≡ false = le→ltb _ _ (omega arith) in
        let len : p + 4 + length u - (p + 4) ≡ length u = omega arith in
        let left : 4 + length u + length rest - length u - 4 ≡ length rest = omega arith in
        rw (some_left, whole, find_startcode-here)
          (rw skip_startcode-here (rw (find_startcode-next, forward, len, left) refl))

    -- The unit stands at the pointer that is selected.
    pub unit-there : take (length u) (drop (p + 4) mem) ≡ u
    unit-there = ap (take (length u)) behind ∙ take-append u rest

    pub rest-there : drop (p + 4 + length u) mem ≡ rest
    rest-there =
        sym (drop-drop (length u) (p + 4) mem) ∙ ap (drop (length u)) behind ∙ drop-append u rest
