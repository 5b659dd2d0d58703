-- ===== src/Rtsp/Format.antt =====
-- src/CRtspSession.cpp: the numbers and strings of the answers, as `snprintf` prints them.
use rtsp_h.Prelude.{
  ℕ, zero, suc, ◌+◌, ◌-◌, ◌/◌, ◌%◌, ◌^◌, Bool, true, false, not, ◌&&◌, ◌||◌, [], ◌∷◌, ltb, ◌==◌,
  if◌then◌else◌, Bytes, take, length,
}
use rtsp_h.Rtsp.Text.{isdigit}

-- The digits of `n` in front of `acc`; every number has fewer digits than `suc n`.
abbrev pub decimal_loop : ℕ → ℕ → Bytes → Bytes
decimal_loop zero n acc = acc
decimal_loop (suc k) n acc =
    let rest = decimal_loop k (n / 10) ((n % 10 + b'0') ∷ acc) in
    if ltb n 10 then (n + b'0') ∷ acc else rest

-- `%u`
unfoldable pub decimal : ℕ → Bytes
decimal n = decimal_loop (suc n) n []

-- `%i` of the 32 bits of an int.
unfoldable pub signed_decimal : ℕ → Bytes
signed_decimal n = if ltb n (2 ^ 31) then decimal n else b'-' ∷ decimal (2 ^ 32 - n)

-- `snprintf` into `size` bytes: what does not fit in front of the '\0' is left out.
abbrev pub snprintf : ℕ → Bytes → Bytes
snprintf size text = take (size - 1) text

-- The string in an array: its bytes up to the first '\0'.
abbrev pub c_str : Bytes → Bytes
c_str [] = []
c_str (c ∷ cs) = let rest = c_str cs in if c == 0 then [] else c ∷ rest

abbrev pub bytes_equal : Bytes → Bytes → Bool
bytes_equal [] [] = true
bytes_equal (x ∷ xs) (y ∷ ys) = x == y && bytes_equal xs ys
bytes_equal _ _ = false

abbrev pub is_prefix : Bytes → Bytes → Bool
is_prefix [] t = true
is_prefix (p ∷ ps) [] = false
is_prefix (p ∷ ps) (c ∷ cs) = p == c && is_prefix ps cs

-- `strstr(text, pattern) != NULL`
abbrev pub strstr : Bytes → Bytes → Bool
strstr [] p = is_prefix p []
strstr (c ∷ cs) p = is_prefix p (c ∷ cs) || strstr cs p

abbrev pub all_digits : Bytes → Bool
all_digits [] = true
all_digits (c ∷ cs) = isdigit c && all_digits cs

-- `is_number`
unfoldable pub is_number : Bytes → Bool
is_number s = not (length s == 0) && all_digits s
