-- ===== src/Rtsp/Decimal.antt =====
-- src/CRtspSession.cpp: numbers as `snprintf` prints them, read back.
use rtsp_h.Prelude.{
  ℕ, zero, suc, ◌+◌, ◌-◌, ◌*◌, ◌/◌, ◌%◌, ◌^◌, ◌≤◌, ◌<◌, ◌≡◌, refl, ap, sym, ◌∙◌, true, false, [],
  ◌∷◌, ◌++◌, append_assoc, append-nil, ltb, Bool-cases, inl, inr, Bytes, length, length-append,
  take, arith,
}
use native.Mathlib.Numerals.{unary_clauses}
use rtsp_h.Rtsp.Text.{isdigit, digits_value}
use rtsp_h.Rtsp.Format.{decimal_loop, decimal}
use rtsp_h.Rtsp.Parts.{AllOf}

-- Digits that are read as `n`.
pub record Reads (n : ℕ) (ds : Bytes) : Type 0 where
  pub number : AllOf isdigit ds
  pub value : digits_value 0 ds ≡ n

digits_value-snoc :
    (acc : ℕ) (ds : Bytes) (d : ℕ)
    → digits_value acc (ds ++ d ∷ []) ≡ 10 * digits_value acc ds + (d - b'0')
digits_value-snoc acc [] d = refl
digits_value-snoc acc (x ∷ ds) d = digits_value-snoc (10 * acc + (x - b'0')) ds d

AllOf-snoc :
    (ds : Bytes) (d : ℕ) → AllOf isdigit ds → isdigit d ≡ true → AllOf isdigit (ds ++ d ∷ [])
AllOf-snoc [] d all at = (at, tt)
AllOf-snoc (x ∷ ds) d (first, all) at = (first, AllOf-snoc ds d all at)

smaller :
    (n l : ℕ) → n < 10 ^ suc l → ltb n 10 ≡ false → (m : ℕ) × (l ≡ suc m) × (n / 10 < 10 ^ suc m)
smaller n zero small more = absurd (ground arith)
smaller n (suc m) small more =
    let step : 10 ^ suc (suc m) ≡ 10 ^ suc m * 10 = simp unary_clauses refl in
    (m, refl, omega (arith, step))

-- The digits that the loop puts in front of `acc`.
decimal_loop-Reads :
    (k n l : ℕ) (acc : Bytes)
    → n < k
    → n < 10 ^ suc l
    → (ds : Bytes) × (decimal_loop k n acc ≡ ds ++ acc) × Reads n ds × (length ds ≤ suc l)
decimal_loop-Reads zero n l acc enough small = absurd (omega arith)
decimal_loop-Reads (suc k) n l acc enough small = elim (Bool-cases (ltb n 10)) [
  | inl one ↦ (
    (n + b'0') ∷ [],
    rw one refl,
    record { number = (ground arith, tt); value = ground arith },
    omega arith,
  )
  | inr more ↦
      let (m, fewer, room) = smaller n l small more in
      let x : ℕ = n % 10 + b'0' in
      let (ds, e, r, short) = decimal_loop-Reads k (n / 10) m (x ∷ acc) (ground arith) room in
      (
        ds ++ x ∷ [],
        rw more (e ∙ sym (append_assoc ds (x ∷ []) acc)),
        record {
          number = AllOf-snoc ds x r.number (ground arith);
          value = digits_value-snoc 0 ds x ∙ omega (arith, r.value);
        },
        omega (arith, length-append {0} ds (x ∷ []), fewer),
      )
]

-- A number below 2 ^ 31 is printed with at most ten digits that are read as the number.
pub decimal-Reads :
    (n : ℕ) → n < 2 ^ 31 → (ds : Bytes) × (decimal n ≡ ds) × Reads n ds × (length ds ≤ 10)
unfolding decimal
decimal-Reads n small =
    let (ds, e, r, short) = decimal_loop-Reads (suc n) n 9 [] (omega arith) (omega arith) in
    (ds, e ∙ append-nil ds, r, short)

-- What is cut off behind a text that fits.
pub take-long :
    (n : ℕ) (xs ys : Bytes) → length xs ≤ n → (zs : Bytes) × (take n (xs ++ ys) ≡ xs ++ zs)
take-long n [] ys fits = (take n ys, refl)
take-long zero (x ∷ xs) ys fits = absurd (omega arith)
take-long (suc n) (x ∷ xs) ys fits =
    let (zs, e) = take-long n xs ys (omega arith) in (zs, ap (λ (l : Bytes). x ∷ l) e)
