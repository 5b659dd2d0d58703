-- ===== src/Rtsp/RoundTrip.antt =====
-- src/CRtspSession.cpp, `ParseRtspRequest`: a request that is written out, parsed.
use rtsp_h.Prelude.{
  ℕ, suc, ◌+◌, ◌-◌, ◌^◌, ◌<◌, ◌≡◌, refl, ap, ◌∙◌, true, ◌∷◌, ◌++◌, Bytes, length, length-append,
  arith, Bool-cases, inl, inr, leb, le→leb,
}
use rtsp_h.Session.{Session}
use rtsp_h.Rtsp.Text.{codes, cr, lf, isdigit, skip_leftovers, is_garbage, glue, digits_value}
use rtsp_h.Rtsp.Parsed.{ok, ◌>>=◌}
use rtsp_h.Rtsp.Parts.{AllOf, parse_numeric_header-digits}
use rtsp_h.Rtsp.RequestLine.{
  Url, IsUrl, request_line, length-request_line, with_url, parse_request_line-request_line,
}
use rtsp_h.Rtsp.Parser.{is_setup, numeric, parse_header, header_loop, parse_rtsp_request}

-- The empty line, and what stands in the buffer behind it.
abbrev pub empty_line : Bytes → Bytes
empty_line junk = cr ∷ lf ∷ 0 ∷ junk

-- What stands behind `CSeq:`.
abbrev pub number : Bytes → Bytes → Bytes
number ds junk = 32 ∷ (ds ++ (cr ∷ lf ∷ empty_line junk))

-- The CSeq header with the CRLF in front of it.
abbrev pub cseq_header : Bytes → Bytes → Bytes
cseq_header ds junk = cr ∷ lf ∷ (codes "CSeq:" ++ number ds junk)

pub length-number : (ds junk : Bytes) → length (number ds junk) ≡ length ds + 6 + length junk
length-number ds junk = omega (arith, length-append ds (cr ∷ lf ∷ empty_line junk))

unfoldable pub request : Url → Bytes → Bytes → Bytes
request u ds junk = request_line u (cseq_header ds junk)

-- The bytes in front of the CSeq header.
unfoldable pub front : Url → ℕ
front u = length u.verb + length u.host + length u.presentation + length u.stream + 22

-- The empty line ends the headers.
pub header_loop-empty_line :
    (k total size : ℕ) (s : Session) (junk : Bytes)
    → header_loop (suc (suc k)) total size s (cr ∷ lf ∷ empty_line junk) ≡ ok s
unfolding header_loop parse_header skip_leftovers is_garbage glue
header_loop-empty_line k total size s junk = elim (Bool-cases (is_setup s.rtsp_cmd_type)) [
  | inl setup ↦ rw setup refl
  | inr other ↦ rw other refl
]

pub header_loop-cseq :
    (k total size : ℕ) (s : Session) (t : Bytes)
    → header_loop (suc k) total size s (cr ∷ lf ∷ (codes "CSeq:" ++ t)) ≡ (
        numeric s
          (λ v. record s { cseq = v })
          t
          size
          (total - suc (suc (suc (suc (suc (length t))))) + 5)
        >>= λ x. header_loop k total size x.0 x.1)
unfolding header_loop parse_header skip_leftovers is_garbage
header_loop-cseq k total size s t = refl

header_loop-request :
    (k total size : ℕ) (s : Session) (d : ℕ) (ds junk : Bytes)
    → AllOf isdigit (d ∷ ds)
    → digits_value 0 (d ∷ ds) < 2 ^ 31
    → total - (5 + length (number (d ∷ ds) junk)) + 5 + length (d ∷ ds) + 1 < size
    → header_loop (suc (suc (suc k))) total size s (cseq_header (d ∷ ds) junk)
      ≡ ok (record s { cseq = digits_value 0 (d ∷ ds) })
header_loop-request k total size s d ds junk all small room =
    let t = number (d ∷ ds) junk in
    let offset = total - suc (suc (suc (suc (suc (length t))))) + 5 in
    let within : leb offset size ≡ true = le→leb offset size (omega arith) in
    let read =
      parse_numeric_header-digits d ds (size - offset) (lf ∷ empty_line junk) all small
        (omega arith) in
    header_loop-cseq (suc (suc k)) total size s t
    ∙ rw (within, read) (header_loop-empty_line k total size _ junk)

-- A request that is a request line and the CSeq as its only header, with a URL whose parts fit and
-- a CSeq below 2 ^ 31, all of it in one read, is accepted, and the session then holds the parts of
-- its URL and its CSeq.
pub parse_rtsp_request-request :
    (s : Session) (u : Url) (d : ℕ) (ds junk : Bytes) (size : ℕ)
    → IsUrl u
    → AllOf isdigit (d ∷ ds)
    → digits_value 0 (d ∷ ds) < 2 ^ 31
    → size + 1 + length junk ≡ length (request u (d ∷ ds) junk)
    → parse_rtsp_request s (request u (d ∷ ds) junk) size
      ≡ ok (record (with_url s u) { cseq = digits_value 0 (d ∷ ds) })
unfolding parse_rtsp_request request
parse_rtsp_request-request s u d ds junk size v all small whole =
    let line = parse_request_line-request_line s u (cseq_header (d ∷ ds) junk) v in
    let total = length (request u (d ∷ ds) junk) in
    let long = length-request_line u (cseq_header (d ∷ ds) junk) in
    let rounds : total ≡ suc (suc (suc (total - 3))) = omega (arith, length-number (d ∷ ds) junk) in
    let loop =
      header_loop-request (total - 3) total size (with_url s u) d ds junk all small
        (omega (arith, length-number (d ∷ ds) junk)) in
    rw line (
      ap (λ (k : ℕ). header_loop k total size (with_url s u) (cseq_header (d ∷ ds) junk)) rounds
      ∙ loop)
