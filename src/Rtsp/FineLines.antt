-- ===== src/Rtsp/FineLines.antt =====
-- src/CRtspSession.cpp, `ParseRtspRequest`: the steps over the lines of a fine text.
use rtsp_h.Prelude.{
  ℕ, suc, ◌+◌, ◌≤◌, ◌<◌, ◌≡◌, ◌⊎◌, refl, ap, sym, subst, inl, inr, true, false, not, ◌||◌, lt→ltb,
  none, some, [], ◌∷◌, ltb, ◌==◌, Bool-cases, Bytes, get_elem?, drop, length, ℤ, arith,
}
use rtsp_h.Rtsp.Text.{
  cr, lf, isdigit, isblank, is_zero, digits_value, parse_numeric_header, skip_leftovers, is_garbage,
  glue,
}
use rtsp_h.Rtsp.Parser.{at_crlf}
use rtsp_h.Rtsp.Fine.{
  run, starts_lf, fine, Within, fine-tail, fine-get, fine-run, atoi-some, count_digits-Within,
  skip_blanks-Within,
}

pub parse_numeric_header-Within :
    (t : Bytes) (z : ℤ) (n : ℕ)
    → Within n t
    → (parse_numeric_header t z ≡ some none)
      ⊎ ((rest : Bytes) × (v : ℕ) × (parse_numeric_header t z ≡ some (some (rest, v)))
          × (Within n rest))
unfolding parse_numeric_header
parse_numeric_header-Within t z n w =
    let (t₁, k, e₁, w₁) = skip_blanks-Within t z n w in
    let (c, more, e₂) = fine-get t₁ w₁.is_fine in
    let first : get_elem? t₁ 0 ≡ some c = ap (λ x. get_elem? x 0) e₂ in
    let (ds, rest, left, e₃, w₃, all, few) = count_digits-Within t₁ k n w₁ in
    let number = atoi-some ds all (omega (arith, fine-run t₁ w₁.is_fine)) in
    elim (Bool-cases (c == 0 || not (isdigit c) || is_zero k)) [
      | inl bad ↦ inl (rw (e₁, first, bad) refl)
      | inr good ↦ elim (Bool-cases (is_zero left)) [
        | inl long ↦ inl (rw (e₁, first, good, e₃, long) refl)
        | inr done ↦ inr (rest, digits_value 0 ds, rw (e₁, first, good, e₃, done, number) refl, w₃)
      ]
    ]

pub skip_leftovers-Within :
    (t : Bytes) (n : ℕ) → Within n t → (t' : Bytes) × (skip_leftovers t ≡ some t') × (Within n t')
unfolding skip_leftovers
skip_leftovers-Within [] n w = absurd (let h = w.is_fine in cc h)
skip_leftovers-Within (c ∷ t) n w = elim (Bool-cases (c == 0 || c == cr)) [
  | inl stop ↦ (c ∷ t, rw stop refl, w)
  | inr go ↦
      let tail : fine t ≡ true = fine-tail c t w.is_fine (ground arith) in
      let (d, more, e) = fine-get t tail in
      let second : get_elem? t 0 ≡ some d = ap (λ x. get_elem? x 0) e in
      let (t', e', w') =
        skip_leftovers-Within t n (record { is_fine = tail; short = omega (arith, w.short) }) in
      elim (Bool-cases (d == lf)) [
        | inl here ↦ (c ∷ t, rw (go, second, here) refl, w)
        | inr on ↦ (t', rw (go, second, on) e', w')
      ]
]

fine-cr : (c : ℕ) (t : Bytes) → fine (c ∷ t) ≡ true → (c == cr) ≡ true → starts_lf t ≡ true
fine-cr c t h line = ground arith

-- Behind what is no garbage the next line begins.
pub is_garbage-Within :
    (t : Bytes) (n : ℕ)
    → Within n t
    → (is_garbage t ≡ some true)
      ⊎ ((is_garbage t ≡ some false) × (fine (drop 2 t) ≡ true) × (length (drop 2 t) + 2 ≤ n))
unfolding is_garbage
is_garbage-Within [] n w = absurd (let h = w.is_fine in cc h)
is_garbage-Within (c ∷ t) n w = elim (Bool-cases (c == 0)) [
  | inl nul ↦ inl (rw nul refl)
  | inr char ↦
      let tail : fine t ≡ true = fine-tail c t w.is_fine (ground arith) in
      let (d, more, e) = fine-get t tail in
      let second : get_elem? t 0 ≡ some d = ap (λ x. get_elem? x 0) e in
      let size : length t ≡ suc (length more) = ap (λ (x : Bytes). length x) e in
      let behind : drop 1 t ≡ more = ap (drop 1) e in
      let next = λ (line : (d == lf) ≡ true).
        let f : fine more ≡ true =
          fine-tail d more (subst (λ x. fine x ≡ true) e tail) (ground arith) in
        subst (λ x. (fine x ≡ true) × (length x + 2 ≤ n)) (sym behind)
          (f, omega (arith, w.short)) in
      elim (Bool-cases (c == cr)) [
        | inl line ↦
            let behind_cr = subst (λ x. starts_lf x ≡ true) e (fine-cr c t w.is_fine line) in
            let rest = next behind_cr in inr (rw (char, line) refl, rest.0, rest.1)
        | inr other ↦ elim (Bool-cases (d == lf)) [
          | inl line ↦
              let rest = next line in inr (rw (char, other, second, line) refl, rest.0, rest.1)
          | inr no_line ↦ inl (rw (char, other, second, no_line) refl)
        ]
      ]
]

run-cons : (c : ℕ) (g t : Bytes) → run g ≤ run t → run (c ∷ g) ≤ run (c ∷ t)
run-cons c g t h = elim (Bool-cases (isdigit c)) [
  | inl digit ↦ rw digit (omega arith)
  | inr other ↦ rw other (omega arith)
]

fine-cons :
    (c : ℕ) (g t : Bytes)
    → fine (c ∷ t) ≡ true
    → (c == cr) ≡ false
    → fine g ≡ true
    → run g ≤ run t
    → fine (c ∷ g) ≡ true
fine-cons c g t h other f few =
    let bound : run (c ∷ g) < 10 = omega (arith, run-cons c g t few, fine-run (c ∷ t) h) in
    let low : ltb (run (c ∷ g)) 10 ≡ true = lt→ltb _ _ bound in
    elim (Bool-cases (c == 0)) [ inl nul ↦ rw nul refl | inr char ↦ rw (char, other, low, f) refl ]

-- Joined lines are fine again, and no longer than they were.
glue-fine :
    (t : Bytes)
    → fine t ≡ true
    → (g : Bytes) × (glue t ≡ some g) × (fine g ≡ true) × (length g ≤ length t) × (run g ≤ run t)
unfolding glue
glue-fine [] h = cc h
glue-fine (c ∷ []) h = elim (Bool-cases (c == 0)) [
  | inl nul ↦ (c ∷ [], rw nul refl, h, omega arith, omega arith)
  | inr char ↦ absurd (let tail : fine [] ≡ true = fine-tail c [] h (ground arith) in cc tail)
]
glue-fine (c ∷ d ∷ cs) h = elim (Bool-cases (c == 0)) [
  | inl nul ↦ (c ∷ d ∷ cs, rw nul refl, h, omega arith, omega arith)
  | inr char ↦
      let tail : fine (d ∷ cs) ≡ true = fine-tail c (d ∷ cs) h (ground arith) in
      elim (Bool-cases (c == cr)) [
        | inl line ↦
            let lf_there : (d == lf) ≡ true = fine-cr c (d ∷ cs) h line in
            let behind : fine cs ≡ true = fine-tail d cs tail (ground arith) in
            let (e, more, same) = fine-get cs behind in
            let next : get_elem? cs 0 ≡ some e = ap (λ x. get_elem? x 0) same in
            elim (Bool-cases (isblank e)) [
              | inl folded ↦
                  let (g, eg, fg, short, few) = glue-fine cs behind in
                  (
                    32 ∷ 32 ∷ g,
                    rw (char, line, lf_there, next, folded, eg) refl,
                    fg,
                    omega (arith, short),
                    omega arith,
                  )
              | inr ended ↦ (
                c ∷ d ∷ cs,
                rw (char, line, lf_there, next, ended) refl,
                h,
                omega arith,
                omega arith,
              )
            ]
        | inr other ↦
            let (g, eg, fg, short, few) = glue-fine (d ∷ cs) tail in
            (
              c ∷ g,
              rw (char, other, eg) refl,
              fine-cons c g (d ∷ cs) h other fg few,
              omega (arith, short),
              run-cons c g (d ∷ cs) few,
            )
      ]
]

pub glue-Within : (t : Bytes) (n : ℕ) → Within n t → (g : Bytes) × (glue t ≡ some g) × (Within n g)
glue-Within t n w =
    let (g, e, f, short, few) = glue-fine t w.is_fine in
    (g, e, record { is_fine = f; short = omega (arith, short, w.short) })

-- The end of a line is seen within the text.
pub at_crlf-fine :
    (c : ℕ) (t : Bytes)
    → fine (c ∷ t) ≡ true
    → (at_crlf (c ∷ t) ≡ some true) ⊎ ((at_crlf (c ∷ t) ≡ some false) × ((c == cr) ≡ false))
at_crlf-fine c [] h = elim (Bool-cases (c == cr)) [
  | inl line ↦ absurd (let z : starts_lf [] ≡ true = fine-cr c [] h line in cc z)
  | inr other ↦ inr (rw other refl, other)
]
at_crlf-fine c (d ∷ t) h = elim (Bool-cases (c == cr)) [
  | inl line ↦
      let lf_there : (d == lf) ≡ true = fine-cr c (d ∷ t) h line in inl (rw (line, lf_there) refl)
  | inr other ↦ inr (rw other refl, other)
]
