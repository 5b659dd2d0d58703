-- ===== src/Rtsp/Parts.antt =====
-- src/CRtspSession.cpp, `ParseRtspRequest`: the parts of the URL and the numbers of the headers, as
-- they are read from a text that is written out.
use rtsp_h.Prelude.{
  ℕ, zero, suc, ◌+◌, ◌-◌, ◌≤◌, ◌<◌, ◌≡◌, refl, Bool, true, false, not, ◌&&◌, ◌||◌, some, [], ◌∷◌,
  ◌++◌, Bytes, length, length-append, write, over, write-over_at, replicate, append_assoc,
  append-nil, arith, ◌^◌, lt→ltb, ◌==◌, pos, decrement, length-replicate,
}
use rtsp_h.Rtsp.Text.{
  isdigit, isblank, is_positive, is_zero, in_part, copied, copy_part, skip_command, skip_blanks,
  count_digits, parse_numeric_header, digits_value,
}

abbrev pub AllOf : (ℕ → Bool) → Bytes → Type 0
AllOf test [] = Unit
AllOf test (c ∷ cs) = (test c ≡ true) × AllOf test cs

-- A part that fits is copied up to the character that ends it.
pub copy_part-copied :
    (max : ℕ) (xs : Bytes) (w m : Bytes) (d c : ℕ) (t : Bytes)
    → AllOf in_part xs
    → in_part c ≡ false
    → length w ≡ d
    → length m ≡ max
    → d + length xs ≤ max
    → copy_part max (xs ++ c ∷ t) (over w m) d
      ≡ some (copied (over (w ++ xs) m) (d + length xs) (c ∷ t))
unfolding copy_part
copy_part-copied max [] w m d c t all stop e size fits =
    let same : d + 0 ≡ d = omega arith in rw (stop, same, append-nil w) refl
copy_part-copied max (x ∷ xs) w m d c t (at, all) stop e size fits =
    let room : (d == max) ≡ false = ground arith in
    let put = write-over_at w m (x ∷ []) d e (omega arith) in
    let same : d + 1 + length xs ≡ d + suc (length xs) = omega arith in
    let more =
      copy_part-copied max xs (w ++ x ∷ []) m (d + 1) c t all stop
        (omega (arith, length-append w (x ∷ []))) size (omega arith) in
    rw (at, room, put) (rw (append_assoc w (x ∷ []) xs, same) at more)

pub skip_command-blank :
    (verb : Bytes) (k : ℕ) (t : Bytes)
    → AllOf (λ c. not (isblank c)) verb
    → length verb < k
    → skip_command k (verb ++ 32 ∷ t) ≡ some (32 ∷ t)
unfolding skip_command
skip_command-blank [] zero t all lt = elim lt [ ]
skip_command-blank [] (suc k) t all lt = refl
skip_command-blank (v ∷ verb) zero t all lt = elim lt [ ]
skip_command-blank (v ∷ verb) (suc k) t (at, all) lt =
    let word : isblank v ≡ false = ground arith in
    rw word (skip_command-blank verb k t all (omega arith))

-- Digits that the count allows are all read.
pub count_digits-all :
    (ds : Bytes) (n c : ℕ) (t : Bytes)
    → AllOf isdigit ds
    → isdigit c ≡ false
    → length ds ≤ n
    → count_digits (ds ++ c ∷ t) (pos n) ≡ some (ds, c ∷ t, pos (n - length ds))
unfolding count_digits decrement
count_digits-all [] n c t all stop le =
    let off : (not (c == 0) && isdigit c && is_positive (pos n)) ≡ false = ground arith in
    let same : n - 0 ≡ n = omega arith in rw (off, same) refl
count_digits-all (x ∷ ds) zero c t all stop le = absurd (omega arith)
count_digits-all (x ∷ ds) (suc n) c t (at, all) stop le =
    let on : (not (x == 0) && isdigit x && true) ≡ true = ground arith in
    let same : suc n - suc (length ds) ≡ n - length ds = omega arith in
    rw (on, same, count_digits-all ds n c t all stop (omega arith)) refl

is_zero-pos : (n : ℕ) → 0 < n → is_zero (pos n) ≡ false
is_zero-pos zero lt = elim lt [ ]
is_zero-pos (suc n) lt = refl

-- A blank, digits and a CR, within the space that is left: the number, and the text from the CR on.
pub parse_numeric_header-digits :
    (d : ℕ) (ds : Bytes) (n : ℕ) (t : Bytes)
    → AllOf isdigit (d ∷ ds)
    → digits_value 0 (d ∷ ds) < 2 ^ 31
    → length (d ∷ ds) + 1 < n
    → parse_numeric_header (32 ∷ (d ∷ ds) ++ 13 ∷ t) (pos n)
      ≡ some (some (13 ∷ t, digits_value 0 (d ∷ ds)))
unfolding parse_numeric_header skip_blanks decrement
parse_numeric_header-digits d ds zero t all small room = absurd (omega arith)
parse_numeric_header-digits d ds (suc zero) t all small room = absurd (omega arith)
parse_numeric_header-digits d ds (suc (suc n)) t (at, all) small room =
    let stay : (not (d == 0) && is_positive (pos (suc n)) && isblank d) ≡ false = ground arith in
    let on : (d == 0 || not (isdigit d) || is_zero (pos (suc n))) ≡ false = ground arith in
    let counted = count_digits-all (d ∷ ds) (suc n) 13 t (at, all) refl (omega arith) in
    let left : is_zero (pos (suc n - length (d ∷ ds))) ≡ false = is_zero-pos _ (omega arith) in
    rw (stay, on, counted, left, lt→ltb _ _ small) refl

-- The array that a part is copied to, with the '\0' behind it.
unfoldable pub filled : ℕ → Bytes → Bytes
filled max part = over (part ++ 0 ∷ []) (replicate max 0)

pub copy_part-fresh :
    (max : ℕ) (part : Bytes) (c : ℕ) (t : Bytes)
    → AllOf in_part part
    → in_part c ≡ false
    → length part < max
    → (copy_part max (part ++ c ∷ t) (replicate max 0) 0
        ≡ some (copied (over part (replicate max 0)) (length part) (c ∷ t)))
      × (write (over part (replicate max 0)) (length part) (0 ∷ []) ≡ some (filled max part))
unfolding filled
copy_part-fresh max part c t all stop fits =
    let start : 0 + length part ≡ length part = omega arith in
    (
      rw start at (
          copy_part-copied max part [] (replicate max 0) 0 c t all stop refl
            (length-replicate {0} {A = ℕ} max 0) (omega arith)),
      write-over_at part (replicate max 0) (0 ∷ []) (length part) refl
          (omega (arith, length-replicate {0} {A = ℕ} max 0)),
    )
