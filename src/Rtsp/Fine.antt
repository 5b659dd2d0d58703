-- ===== src/Rtsp/Fine.antt =====
-- src/CRtspSession.cpp, the loops over the request: texts on which none of them leaves the buffer.
use rtsp_h.Prelude.{
  ℕ, zero, suc, ◌+◌, ◌-◌, ◌*◌, ◌^◌, ◌≤◌, ◌<◌, ◌≡◌, ◌≢◌, ◌⊎◌, refl, ap, sym, ◌∙◌, inl, inr, Bool,
  true, false, not, ◌&&◌, ◌||◌, none, some, [], ◌∷◌, ltb, ◌==◌, if◌then◌else◌, Bool-cases, Bytes,
  drop, length, ℤ, decrement, lt→ltb, arith,
}
use rtsp_h.Rtsp.Text.{
  cr, lf, isdigit, isblank, strncmp, skip_while, digit_run, atoi, digits_value, is_positive,
  skip_blanks, count_digits, strpbrk,
}

-- How many digits a text begins with.
abbrev pub run : Bytes → ℕ
run [] = 0
run (c ∷ t) = let more = suc (run t) in if isdigit c then more else 0

abbrev pub starts_lf : Bytes → Bool
starts_lf [] = false
starts_lf (c ∷ t) = c == lf

-- The text ends with a '\0', an LF follows every CR in it, and it has no ten digits in a row.
abbrev pub fine : Bytes → Bool
fine [] = false
fine (c ∷ t) =
    let rest = (not (c == cr) || starts_lf t) && (ltb (run (c ∷ t)) 10 && fine t) in
    if c == 0 then true else rest

-- A fine text of at most this length.
pub record Within (n : ℕ) (t : Bytes) : Type 0 where
  pub is_fine : fine t ≡ true
  pub short : length t ≤ n

pub fine-tail : (c : ℕ) (t : Bytes) → fine (c ∷ t) ≡ true → c ≢ 0 → fine t ≡ true
fine-tail c t h some_char = ground arith

pub fine-lf :
    (t : Bytes) → fine (cr ∷ t) ≡ true → (rest : Bytes) × (t ≡ lf ∷ rest) × (fine rest ≡ true)
fine-lf [] h = cc h
fine-lf (c ∷ t) h = (t, ap (λ x. x ∷ t) (ground arith), fine-tail c t (ground arith) (ground arith))

pub fine-get : (t : Bytes) → fine t ≡ true → (c : ℕ) × (rest : Bytes) × (t ≡ c ∷ rest)
fine-get [] h = cc h
fine-get (c ∷ t) h = (c, t, refl)

-- A test that the '\0' does not pass stops within the text.
pub skip_while-Within :
    (test : ℕ → Bool) (t : Bytes) (n : ℕ)
    → test 0 ≡ false
    → Within n t
    → (t' : Bytes) × (skip_while test t ≡ some t') × (Within n t')
skip_while-Within test [] n stop w = absurd (let h = w.is_fine in cc h)
skip_while-Within test (c ∷ t) n stop w = elim (Bool-cases (test c)) [
  | inl on ↦
      let some_char : c ≢ 0 = λ z. let e = sym on ∙ ap test z ∙ stop in cc e in
      let (t', e, w') =
        skip_while-Within test t n stop (record {
          is_fine = fine-tail c t w.is_fine some_char;
          short = omega (arith, w.short);
        }) in
      (t', rw on e, w')
  | inr off ↦ (c ∷ t, rw off refl, w)
]

-- A prefix without '\0'.
abbrev pub no_nul : Bytes → Bool
no_nul [] = true
no_nul (p ∷ ps) = not (p == 0) && no_nul ps

pub strncmp-Within :
    (ps t : Bytes) (n : ℕ)
    → no_nul ps ≡ true
    → Within n t
    → ((strncmp ps t ≡ some true) × Within (n - length ps) (drop (length ps) t))
      ⊎ (strncmp ps t ≡ some false)
strncmp-Within [] t n all w =
    inl (refl, record { is_fine = w.is_fine; short = omega (arith, w.short) })
strncmp-Within (p ∷ ps) [] n all w = absurd (let h = w.is_fine in cc h)
strncmp-Within (p ∷ ps) (c ∷ t) n all w = elim (Bool-cases (p == c)) [
  | inl same ↦
      let some_char : c ≢ 0 = ground arith in
      let more =
        strncmp-Within ps t (n - 1) (ground arith) (record {
          is_fine = fine-tail c t w.is_fine some_char;
          short = omega (arith, w.short);
        }) in
      elim more [
        | inl (e, w') ↦
            inl (rw same e, record { is_fine = w'.is_fine; short = omega (arith, w'.short) })
        | inr e ↦ inr (rw same e)
      ]
  | inr other ↦ inr (rw other refl)
]

-- The rest of the line, or of the parameter.
pub strpbrk-Within :
    (t : Bytes) (n : ℕ)
    → Within n t
    → (strpbrk t ≡ some none) ⊎ ((t' : Bytes) × (strpbrk t ≡ some (some t')) × (Within n t'))
unfolding strpbrk
strpbrk-Within [] n w = absurd (let h = w.is_fine in cc h)
strpbrk-Within (c ∷ t) n w = elim (Bool-cases (c == 0)) [
  | inl nul ↦ inl (rw nul refl)
  | inr char ↦ elim (Bool-cases (c == b';' || c == cr)) [
    | inl here ↦ inr (c ∷ t, rw (char, here) refl, w)
    | inr further ↦
        rw (char, further)
          (strpbrk-Within t n (record {
            is_fine = fine-tail c t w.is_fine (ground arith);
            short = omega (arith, w.short);
          }))
  ]
]

-- Numbers of at most nine digits are ints.
abbrev pub AllDigits : Bytes → Type 0
AllDigits [] = Unit
AllDigits (d ∷ ds) = (isdigit d ≡ true) × AllDigits ds

abbrev pow10 : ℕ → ℕ → ℕ
pow10 k zero = k
pow10 k (suc n) = pow10 (10 * k) n

pow10-le : (n k : ℕ) → k ≤ pow10 k n
pow10-le zero k = omega arith
pow10-le (suc n) k = omega (arith, pow10-le n (10 * k))

pow10_mono : (n m k : ℕ) → n ≤ m → pow10 k n ≤ pow10 k m
pow10_mono zero m k h = pow10-le m k
pow10_mono (suc n) zero k h = elim h [ ]
pow10_mono (suc n) (suc m) k h = pow10_mono n m (10 * k) (omega arith)

digits_value-lt :
    (ds : Bytes) (acc k : ℕ) → AllDigits ds → acc < k → digits_value acc ds < pow10 k (length ds)
digits_value-lt [] acc k all h = h
digits_value-lt (d ∷ ds) acc k (at, all) h =
    digits_value-lt ds (10 * acc + (d - b'0')) (10 * k) all (ground arith)

pub atoi-some : (ds : Bytes) → AllDigits ds → length ds < 10 → atoi ds ≡ some (digits_value 0 ds)
atoi-some ds all few =
    let bound : digits_value 0 ds < 2 ^ 31 =
      omega (
        arith,
        digits_value-lt ds 0 1 all (omega arith),
        pow10_mono (length ds) 9 1 (omega arith),
      ) in
    rw (lt→ltb (digits_value 0 ds) (2 ^ 31) bound) refl

pub fine-run : (t : Bytes) → fine t ≡ true → run t < 10
fine-run [] h = omega arith
fine-run (c ∷ t) h = ground arith

pub digit_run-Within :
    (t : Bytes) (n : ℕ)
    → Within n t
    → (ds : Bytes) × (t' : Bytes) × (digit_run t ≡ some (ds, t'))
      × (AllDigits ds)
      × (length ds ≤ run t)
digit_run-Within [] n w = absurd (let h = w.is_fine in cc h)
digit_run-Within (c ∷ t) n w = elim (Bool-cases (isdigit c)) [
  | inl digit ↦
      let (ds, t', e, all, few) = digit_run-Within t n (record {
        is_fine = fine-tail c t w.is_fine (ground arith);
        short = omega (arith, w.short);
      }) in
      (c ∷ ds, t', rw (digit, e) refl, (digit, all), rw digit (omega arith))
  | inr other ↦ ([], c ∷ t, rw other refl, tt, omega arith)
]

pub count_digits-Within :
    (t : Bytes) (z : ℤ) (n : ℕ)
    → Within n t
    → (ds : Bytes) × (t' : Bytes) × (k : ℤ) × (count_digits t z ≡ some (ds, t', k))
      × (Within n t')
      × (AllDigits ds)
      × (length ds ≤ run t)
unfolding count_digits
count_digits-Within [] z n w = absurd (let h = w.is_fine in cc h)
count_digits-Within (c ∷ t) z n w = elim (Bool-cases (not (c == 0) && isdigit c && is_positive z)) [
  | inl on ↦
      let digit : isdigit c ≡ true = ground arith in
      let (ds, t', k, e, w', all, few) = count_digits-Within t (decrement z) n (record {
        is_fine = fine-tail c t w.is_fine (ground arith);
        short = omega (arith, w.short);
      }) in
      (c ∷ ds, t', k, rw (on, e) refl, w', (digit, all), rw digit (omega arith))
  | inr off ↦ ([], c ∷ t, z, rw off refl, w, tt, omega arith)
]

pub skip_blanks-Within :
    (t : Bytes) (z : ℤ) (n : ℕ)
    → Within n t
    → (t' : Bytes) × (k : ℤ) × (skip_blanks t z ≡ some (t', k)) × (Within n t')
unfolding skip_blanks
skip_blanks-Within [] z n w = absurd (let h = w.is_fine in cc h)
skip_blanks-Within (c ∷ t) z n w = elim (Bool-cases (not (c == 0) && is_positive z && isblank c)) [
  | inl on ↦
      let (t', k, e, w') = skip_blanks-Within t (decrement z) n (record {
        is_fine = fine-tail c t w.is_fine (ground arith);
        short = omega (arith, w.short);
      }) in
      (t', k, rw (on, e) refl, w')
  | inr off ↦ (c ∷ t, z, rw off refl, w)
]
