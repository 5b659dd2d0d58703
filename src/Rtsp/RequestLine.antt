-- ===== src/Rtsp/RequestLine.antt =====
-- src/CRtspSession.cpp, `ParseRtspRequest`: the request line.
use rtsp_h.Prelude.{
  ℕ, ◌+◌, ◌<◌, ◌≡◌, refl, true, false, not, [], ◌∷◌, ◌++◌, Bytes, length, length-append, replicate,
  arith,
}
use rtsp_h.Session.{Session, new_command_init, rtsp_param_string_max, max_hostname_len}
use rtsp_h.Rtsp.Text.{codes, isblank, in_part}
use rtsp_h.Rtsp.Parsed.{ok}
use rtsp_h.Rtsp.Parts.{AllOf, skip_command-blank, filled, copy_part-fresh}
use rtsp_h.Rtsp.Parser.{
  is_slash, set_host, set_presentation, set_stream, parse_host, parse_presentation, parse_stream,
  parse_version, parse_request_line,
}

-- What a request line says.
pub record Url : Type 0 where
  pub verb : Bytes
  pub host : Bytes
  pub first : ℕ
  pub presentation : Bytes
  pub stream : Bytes

-- The parts have no blank, slash or '\0' in them and fit into their arrays.
pub record IsUrl (u : Url) : Type 0 where
  pub verb_word : AllOf (λ c. not (isblank c)) u.verb
  pub verb_fits : length u.verb < 19
  pub host_part : AllOf in_part u.host
  pub host_fits : length u.host < max_hostname_len
  pub presentation_part : AllOf in_part (u.first ∷ u.presentation)
  pub presentation_fits : length (u.first ∷ u.presentation) < rtsp_param_string_max
  pub stream_part : AllOf in_part u.stream
  pub stream_fits : length u.stream < rtsp_param_string_max

-- VERB rtsp://host/presentation/stream RTSP/1.0
unfoldable pub request_line : Url → Bytes → Bytes
request_line u t =
    u.verb
    ++ (32
        ∷ (codes "rtsp://"
            ++ (u.host
                ++ (b'/'
                    ∷ u.first
                    ∷ (u.presentation ++ (b'/' ∷ (u.stream ++ (32 ∷ (codes "RTSP/1.0" ++ t)))))))))

-- The session that the request line makes.
unfoldable pub with_url : Session → Url → Session
with_url s u = record s {
  command_host_port = filled max_hostname_len u.host;
  command_presentation_part = filled rtsp_param_string_max (u.first ∷ u.presentation);
  command_stream_part = filled rtsp_param_string_max u.stream;
  content_length = 0;
}

parse_host-slash :
    (s : Session) (host : Bytes) (c : ℕ) (t : Bytes)
    → s.command_host_port ≡ replicate max_hostname_len 0
    → AllOf in_part host
    → length host < max_hostname_len
    → in_part c ≡ true
    → parse_host s (host ++ b'/' ∷ c ∷ t) ≡ ok (set_host s (filled max_hostname_len host), c ∷ t)
unfolding parse_host
parse_host-slash s host c t fresh all fits next =
    let (taken, put) = copy_part-fresh max_hostname_len host b'/' (c ∷ t) all refl fits in
    let no_slash : is_slash c ≡ false = ground arith in rw (fresh, taken, put, no_slash) refl

parse_presentation-slash :
    (s : Session) (part : Bytes) (c : ℕ) (t : Bytes)
    → s.command_presentation_part ≡ replicate rtsp_param_string_max 0
    → AllOf in_part part
    → length part < rtsp_param_string_max
    → is_slash c ≡ false
    → parse_presentation s (part ++ b'/' ∷ c ∷ t)
      ≡ ok (set_presentation s (filled rtsp_param_string_max part), c ∷ t)
unfolding parse_presentation
parse_presentation-slash s part c t fresh all fits no_slash =
    let (taken, put) = copy_part-fresh rtsp_param_string_max part b'/' (c ∷ t) all refl fits in
    rw (fresh, taken, put, no_slash) refl

parse_stream-blank :
    (s : Session) (part : Bytes) (t : Bytes)
    → s.command_stream_part ≡ replicate rtsp_param_string_max 0
    → AllOf in_part part
    → length part < rtsp_param_string_max
    → parse_stream s (part ++ 32 ∷ t)
      ≡ ok (set_stream s (filled rtsp_param_string_max part), 32 ∷ t)
unfolding parse_stream
parse_stream-blank s part t fresh all fits =
    let (taken, put) = copy_part-fresh rtsp_param_string_max part 32 t all refl fits in
    rw (fresh, taken, put) refl

-- The first character of a stream part, or the blank behind an empty one, is no slash.
stream_start :
    (part : Bytes) (t : Bytes)
    → AllOf in_part part
    → (c : ℕ) × (rest : Bytes) × (part ++ 32 ∷ t ≡ c ∷ rest) × (is_slash c ≡ false)
stream_start [] t all = (32, t, refl, refl)
stream_start (c ∷ part) t (at, all) = (c, part ++ 32 ∷ t, refl, ground arith)

-- A request line is parsed to the parts that it was written from.
pub parse_request_line-request_line :
    (s : Session) (u : Url) (t : Bytes)
    → IsUrl u
    → parse_request_line (new_command_init s) (request_line u t) ≡ ok (with_url s u, t)
unfolding parse_request_line parse_version request_line with_url new_command_init
parse_request_line-request_line s u t v =
    let rest : Bytes = 32 ∷ (codes "RTSP/1.0" ++ t) in
    let (c, after, same, no_slash) =
      stream_start u.stream (codes "RTSP/1.0" ++ t) (v.stream_part) in
    let s₁ = set_host (new_command_init s) (filled max_hostname_len u.host) in
    let s₂ = set_presentation s₁ (filled rtsp_param_string_max (u.first ∷ u.presentation)) in
    let tail : Bytes = u.presentation ++ (b'/' ∷ (u.stream ++ rest)) in
    let words =
      skip_command-blank u.verb 19 (codes "rtsp://" ++ (u.host ++ (b'/' ∷ u.first ∷ tail)))
        (v.verb_word) (v.verb_fits) in
    let host =
      parse_host-slash (new_command_init s) u.host u.first tail refl (v.host_part) (v.host_fits)
        (v.presentation_part.0) in
    let pres : parse_presentation s₁ (u.first ∷ tail) ≡ ok (s₂, u.stream ++ rest) = rw same (
      parse_presentation-slash s₁ (u.first ∷ u.presentation) c after refl (v.presentation_part)
        (v.presentation_fits) no_slash) in
    let stream =
      parse_stream-blank s₂ u.stream (codes "RTSP/1.0" ++ t) refl (v.stream_part) (v.stream_fits) in
    rw (words, host, pres, stream) refl

-- How long the line is, with what stands behind it.
pub length-request_line :
    (u : Url) (t : Bytes)
    → length (request_line u t)
      ≡ length u.verb + length u.host + length u.presentation + length u.stream + 20 + length t
unfolding request_line
length-request_line u t =
    let t₁ : Bytes = 32 ∷ (codes "RTSP/1.0" ++ t) in
    let t₂ : Bytes = b'/' ∷ (u.stream ++ t₁) in
    let t₃ : Bytes = b'/' ∷ u.first ∷ (u.presentation ++ t₂) in
    omega (
      arith,
      length-append u.verb (32 ∷ (codes "rtsp://" ++ (u.host ++ t₃))),
      length-append u.host t₃,
      length-append u.presentation t₂,
      length-append u.stream t₁,
    )
