-- ===== src/Rtsp/Text.antt =====
-- src/CRtspSession.cpp: the loops over the request. A pointer into the receive buffer is the list of
-- the bytes from it to the end of the buffer; `none` is a read past that end. The bytes behind the
-- pointer are never read again, so what is written there (a '\0' after a port) has no effect.
use Prim.Native.Char.{code}
use Prim.Native.String.{String}
use rtsp_h.Prelude.{
  ℕ, zero, suc, ◌+◌, ◌-◌, ◌*◌, ◌^◌, Bool, true, false, not, ◌&&◌, ◌||◌, Option, none, some, [], ◌∷◌,
  ltb, leb, ◌==◌, if◌then◌else◌, ◌>>=◌, Bytes, write, get_elem?, ℤ, pos, negsuc, decrement,
}

abbrev pub codes : String → Bytes
codes String.[] = []
codes (String.◌∷◌ c s) = code c ∷ codes s

abbrev pub cr : ℕ
cr = 13

abbrev pub lf : ℕ
lf = 10

abbrev pub isspace : ℕ → Bool
isspace c = c == 32 || leb 9 c && leb c 13

abbrev pub isdigit : ℕ → Bool
isdigit c = leb b'0' c && leb c b'9'

abbrev pub isblank : ℕ → Bool
isblank c = c == 32 || c == 9

-- `tolower` of an ASCII character.
abbrev pub tolower : ℕ → ℕ
tolower c = if leb b'A' c && leb c b'Z' then c + 32 else c

-- `0 == strncmp(prefix, text, strlen(prefix))`
abbrev pub strncmp : Bytes → Bytes → Option Bool
strncmp [] t = some true
strncmp (p ∷ ps) [] = none
strncmp (p ∷ ps) (c ∷ cs) = let rest = strncmp ps cs in if p == c then rest else some false

-- `0 == strncasecmp(prefix, text, strlen(prefix))`
abbrev pub strncasecmp : Bytes → Bytes → Option Bool
strncasecmp [] t = some true
strncasecmp (p ∷ ps) [] = none
strncasecmp (p ∷ ps) (c ∷ cs) =
    let rest = strncasecmp ps cs in if tolower p == tolower c then rest else some false

-- `while (test(*p)) ++p`
abbrev pub skip_while : (ℕ → Bool) → Bytes → Option Bytes
skip_while test [] = none
skip_while test (c ∷ cs) = let rest = skip_while test cs in if test c then rest else some (c ∷ cs)

-- `while (isdigit(*p)) ++p`, with the digits passed over.
abbrev pub digit_run : Bytes → Option (Bytes × Bytes)
digit_run [] = none
digit_run (c ∷ cs) =
    let rest = (do (ds, t) ← digit_run cs; some (c ∷ ds, t)) in
    if isdigit c then rest else some ([], c ∷ cs)

abbrev pub digits_value : ℕ → Bytes → ℕ
digits_value acc [] = acc
digits_value acc (d ∷ ds) = digits_value (10 * acc + (d - b'0')) ds

-- `atoi` of a string of digits; a value that an int does not hold is undefined.
abbrev pub atoi : Bytes → Option ℕ
atoi ds = let n = digits_value 0 ds in if ltb n (2 ^ 31) then some n else none

abbrev pub is_positive : ℤ → Bool
is_positive (pos (suc n)) = true
is_positive _ = false

abbrev pub is_zero : ℤ → Bool
is_zero (pos zero) = true
is_zero _ = false

-- `a - b` as an int.
abbrev pub subtract : ℕ → ℕ → ℤ
subtract a b = if leb b a then pos (a - b) else negsuc (b - a - 1)

-- `while (*buf && count > 0 && (*buf == ' ' || *buf == '\t'))`
unfoldable pub skip_blanks : Bytes → ℤ → Option (Bytes × ℤ)
skip_blanks [] n = none
skip_blanks (c ∷ cs) n =
    let rest = skip_blanks cs (decrement n) in
    if not (c == 0) && is_positive n && isblank c then rest else some (c ∷ cs, n)

-- `while (*buf && isdigit(*buf) && count > 0)`, with the digits passed over.
unfoldable pub count_digits : Bytes → ℤ → Option (Bytes × Bytes × ℤ)
count_digits [] n = none
count_digits (c ∷ cs) n =
    let rest = (do (ds, t, m) ← count_digits cs (decrement n); some (c ∷ ds, t, m)) in
    if not (c == 0) && isdigit c && is_positive n then rest else some ([], c ∷ cs, n)

-- `parse_numeric_header`: the rest of the line and the number, or `none` for NULL.
unfoldable pub parse_numeric_header : Bytes → ℤ → Option (Option (Bytes × ℕ))
parse_numeric_header buf max_length = do
  (t, count) ← skip_blanks buf max_length
  c ← get_elem? t 0
  if c == 0 || not (isdigit c) || is_zero count then some none else (do
    (ds, rest, left) ← count_digits t count
    if is_zero left then some none else (do v ← atoi ds; some (some (rest, v))))

-- What the copy of a part of the URL gives: the array is full, or it is copied up to an index.
pub data Copied : Type 0 where
  full : Bytes → Copied
  copied : Bytes → ℕ → Bytes → Copied

abbrev pub in_part : ℕ → Bool
in_part c = not (c == 0) && not (isspace c) && not (c == b'/')

-- `for (dst_pos = 0; *cur_pos && !isspace(*cur_pos) && *cur_pos != '/'; ++cur_pos, ++dst_pos)`
unfoldable pub copy_part : ℕ → Bytes → Bytes → ℕ → Option Copied
copy_part max [] dst dst_pos = none
copy_part max (c ∷ cs) dst dst_pos =
    if in_part c
    then if dst_pos == max
      then some (full dst)
      else (do dst' ← write dst dst_pos (c ∷ []); copy_part max cs dst' (dst_pos + 1))
    else some (copied dst dst_pos (c ∷ cs))

-- `while (dst_pos < 19 && *cur_pos != ' ' && *cur_pos != '\t')`
unfoldable pub skip_command : ℕ → Bytes → Option Bytes
skip_command zero t = some t
skip_command (suc k) [] = none
skip_command (suc k) (c ∷ cs) =
    let rest = skip_command k cs in if isblank c then some (c ∷ cs) else rest

-- `while (*cur_pos && *cur_pos != '\r' && cur_pos[1] != '\n')`
unfoldable pub skip_leftovers : Bytes → Option Bytes
skip_leftovers [] = none
skip_leftovers (c ∷ cs) =
    let rest = skip_leftovers cs in
    if c == 0 || c == cr
    then some (c ∷ cs)
    else (do d ← get_elem? cs 0; if d == lf then some (c ∷ cs) else rest)

-- `!*cur_pos || (*cur_pos != '\r' && cur_pos[1] != '\n')`
unfoldable pub is_garbage : Bytes → Option Bool
is_garbage t = do
  c ← get_elem? t 0
  if c == 0
      then some true
      else if c == cr
      then some false
      else (do d ← get_elem? t 1; some (not (d == lf)))

-- The loop that joins the continued lines of a header.
unfoldable pub glue : Bytes → Option Bytes
glue [] = none
glue (c ∷ []) = if c == 0 then some (c ∷ []) else none
glue (c ∷ d ∷ cs) =
    let joined = glue cs in
    let rest = glue (d ∷ cs) in
    if c == 0
    then some (c ∷ d ∷ cs)
    else if c == cr && d == lf
    then (do
      e ← get_elem? cs 0
      if isblank e then (do g ← joined; some (32 ∷ 32 ∷ g)) else some (c ∷ d ∷ cs))
    else (do g ← rest; some (c ∷ g))

-- `strpbrk(cur_pos, ";\r")`, with `none` for NULL.
unfoldable pub strpbrk : Bytes → Option (Option Bytes)
strpbrk [] = none
strpbrk (c ∷ cs) =
    let rest = strpbrk cs in
    if c == 0 then some none else if c == b';' || c == cr then some (some (c ∷ cs)) else rest
