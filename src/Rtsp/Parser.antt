-- ===== src/Rtsp/Parser.antt =====
-- src/CRtspSession.cpp, `ParseRtspRequest`.
use rtsp_h.Prelude.{
  ℕ, zero, suc, ◌+◌, ◌-◌, ◌%◌, ◌^◌, Bool, true, false, not, ◌&&◌, Option, none, some, [], ◌∷◌, ◌==◌,
  if◌then◌else◌, Bytes, write, get_elem?, drop, length,
}
use rtsp_h.Session.{Session, RtspCmd, new_command_init, rtsp_param_string_max, max_hostname_len}
use rtsp_h.Rtsp.Text.{
  codes, cr, lf, isspace, isdigit, isblank, strncmp, strncasecmp, skip_while, digit_run, atoi,
  subtract, parse_numeric_header, full, copied, copy_part, skip_command, skip_leftovers, is_garbage,
  glue, strpbrk,
}
use rtsp_h.Rtsp.Parsed.{Parsed, fault, refused, ok, ◌>>=◌, lift, require}

abbrev pub not_nul : ℕ → Bool
not_nul c = not (c == 0)

abbrev pub is_slash : ℕ → Bool
is_slash c = c == b'/'

-- The copy of one part into its array; `return false` where the array is full.
abbrev pub take_part : ℕ → Bytes → (Bytes → Session) → Bytes → Parsed (Bytes × ℕ × Bytes)
take_part max dst set t = do
  part ← lift (copy_part max t dst 0)
  elim part [ full dst' ↦ refused (set dst') | copied dst' n rest ↦ ok (dst', n, rest) ]

abbrev pub set_host : Session → Bytes → Session
set_host s x = record s { command_host_port = x }

abbrev pub set_presentation : Session → Bytes → Session
set_presentation s x = record s { command_presentation_part = x }

abbrev pub set_stream : Session → Bytes → Session
set_stream s x = record s { command_stream_part = x }

-- host:port and the slashes behind it.
unfoldable pub parse_host : Session → Bytes → Parsed (Session × Bytes)
parse_host s t = do
  (dst, n, t₁) ← take_part max_hostname_len s.command_host_port (set_host s) t
  c ← lift (get_elem? t₁ 0)
  _ ← require (set_host s dst) (is_slash c)
  dst' ← lift (write dst n (0 ∷ []))
  t₂ ← lift (skip_while is_slash t₁)
  ok (set_host s dst', t₂)

-- The presentation part and the slashes behind it.
unfoldable pub parse_presentation : Session → Bytes → Parsed (Session × Bytes)
parse_presentation s t = do
  (dst, n, t₁) ← take_part rtsp_param_string_max s.command_presentation_part (set_presentation s) t
  c ← lift (get_elem? t₁ 0)
  _ ← require (set_presentation s dst) (is_slash c)
  dst' ← lift (write dst n (0 ∷ []))
  t₂ ← lift (skip_while is_slash t₁)
  ok (set_presentation s dst', t₂)

-- The stream part, up to the blank in front of RTSP/x.x.
unfoldable pub parse_stream : Session → Bytes → Parsed (Session × Bytes)
parse_stream s t = do
  (dst, n, t₁) ← take_part rtsp_param_string_max s.command_stream_part (set_stream s) t
  dst' ← lift (write dst n (0 ∷ []))
  t₂ ← lift (skip_while is_slash t₁)
  c ← lift (get_elem? t₂ 0)
  _ ← require (set_stream s dst') (isblank c)
  ok (set_stream s dst', t₂)

-- RTSP/x.x
unfoldable pub parse_version : Session → Bytes → Parsed Bytes
parse_version s t = do
  t₁ ← lift (skip_while isspace t)
  found ← lift (strncmp (codes "RTSP/") t₁)
  _ ← require s found
  let t₂ = drop 5 t₁
  major ← lift (get_elem? t₂ 0)
  _ ← require s (isdigit major)
  dot ← lift (get_elem? t₂ 1)
  _ ← require s (dot == b'.')
  minor ← lift (get_elem? t₂ 2)
  _ ← require s (isdigit minor)
  ok (drop 3 t₂)

-- The request line.
unfoldable pub parse_request_line : Session → Bytes → Parsed (Session × Bytes)
parse_request_line s t = do
  t₁ ← lift (skip_command 19 t)
  t₂ ← lift (skip_while isspace t₁)
  found ← lift (strncasecmp (codes "rtsp://") t₂)
  _ ← require s found
  (s₁, t₃) ← parse_host s (drop 7 t₂)
  (s₂, t₄) ← parse_presentation s₁ t₃
  (s₃, t₅) ← parse_stream s₂ t₄
  t₆ ← parse_version s₃ t₅
  ok (s₃, t₆)

-- `client_port=`: the port and the one above it, as 16-bit numbers.
unfoldable pub parse_client_port : Session → Bytes → Parsed Session
parse_client_port s t = do
  (ds, _) ← lift (digit_run t)
  _ ← require s (not (length ds == 0))
  port ← lift (atoi ds)
  ok (record s { client_rtp_port = port % 2 ^ 16; client_rtcp_port = (port % 2 ^ 16 + 1) % 2 ^ 16 })

abbrev pub is_separator : ℕ → Bool
is_separator c = elim (c == b';') [ true ↦ true | false ↦ isblank c ]

abbrev pub at_crlf : Bytes → Option Bool
at_crlf [] = none
at_crlf (c ∷ []) = if c == cr then none else some false
at_crlf (c ∷ d ∷ cs) = some (c == cr && d == lf)

-- The loop over the parameters of the transport. A CR that no LF follows stops it from moving on.
unfoldable pub param_loop : ℕ → Session → Bytes → Parsed (Session × Bytes)
param_loop zero s t = fault
param_loop (suc k) s t = do
  t₁ ← lift (skip_while is_separator t)
  c ← lift (get_elem? t₁ 0)
  _ ← require s (not_nul c)
  done ← lift (at_crlf t₁)
  if done then ok (s, t₁) else (do
    next ← lift (strpbrk t₁)
    elim next [
      | none ↦ refused s
      | some t₂ ↦ (do
        port ← lift (strncmp (codes "client_port=") t₁)
        s' ← (if port then parse_client_port s (drop 12 t₁) else ok s)
        param_loop k s' t₂)
    ])

-- `Transport:`
unfoldable pub parse_transport : Session → Bytes → Parsed (Session × Bytes)
parse_transport s t = do
  t₁ ← lift (skip_while isspace t)
  found ← lift (strncmp (codes "RTP/AVP") t₁)
  _ ← require s found
  let t₂ = drop 7 t₁
  tcp ← lift (strncmp (codes "/TCP") t₂)
  let t₃ = if tcp then drop 4 t₂ else t₂
  param_loop (length t₃ + 1) (record s { tcp_transport = tcp; client_rtp_port = 0 }) t₃

abbrev pub is_setup : RtspCmd → Bool
is_setup RtspCmd.rtsp_setup = true
is_setup _ = false

-- `CSeq:` or `Content-Length:` behind the colon.
abbrev pub numeric : Session → (ℕ → Session) → Bytes → ℕ → ℕ → Parsed (Session × Bytes)
numeric s set t size offset = do
  number ← lift (parse_numeric_header t (subtract size offset))
  elim number [ none ↦ refused s | some (rest, v) ↦ ok (set v, rest) ]

-- One header, from its first byte on; `total` is the length of the buffer, `size` is aRequestSize.
unfoldable pub parse_header : ℕ → ℕ → Session → Bytes → Parsed (Session × Bytes)
parse_header total size s t = do
  cseq ← lift (strncmp (codes "CSeq:") t)
  if cseq
      then numeric s (λ v. record s { cseq = v }) (drop 5 t) size (total - length t + 5)
      else (do
        content ← lift (strncmp (codes "Content-Length:") t)
        if content
            then numeric s (λ v. record s { content_length = v }) (drop 15 t) size
                (total - length t + 15)
            else (do
              g ← lift (glue t)
              transport ←
                  lift (
                    if is_setup s.rtsp_cmd_type then strncmp (codes "Transport:") g else some false)
              (s', t₁) ← (if transport then parse_transport s (drop 10 g) else ok (s, g))
              t₂ ← lift (skip_while (λ c. not (c == 0) && not (c == cr)) t₁)
              ok (s', t₂)))

-- The loop over the headers, up to the '\0' behind a CRLF.
unfoldable pub header_loop : ℕ → ℕ → ℕ → Session → Bytes → Parsed Session
header_loop zero total size s t = fault
header_loop (suc k) total size s t = do
  t₁ ← lift (skip_leftovers t)
  garbage ← lift (is_garbage t₁)
  _ ← require s (not garbage)
  let t₂ = drop 2 t₁
  c ← lift (get_elem? t₂ 0)
  if c == 0
      then ok s
      else (do (s', t₃) ← parse_header total size s t₂; header_loop k total size s' t₃)

-- `ParseRtspRequest`
unfoldable pub parse_rtsp_request : Session → Bytes → ℕ → Parsed Session
parse_rtsp_request s request size = do
  (s₁, t) ← parse_request_line (new_command_init s) request
  header_loop (length request) (length request) size s₁ t
