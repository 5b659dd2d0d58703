-- ===== src/Rtsp/Glued.antt =====
-- src/CRtspSession.cpp, `Handle_RtspRequest`: a request of which the parser is told a length that ends
-- in front of the number of CSeq.
use rtsp_h.Prelude.{
  ℕ, suc, ◌+◌, ◌-◌, ◌≤◌, ◌≡◌, refl, ap, ◌∙◌, false, none, some, ◌∷◌, ◌++◌, Bytes, length, arith, ℤ,
}
use rtsp_h.Session.{Session}
use rtsp_h.Transport.{System}
use rtsp_h.Rtsp.Text.{cr, lf, is_positive, subtract, skip_blanks, parse_numeric_header}
use rtsp_h.Rtsp.Parsed.{refused}
use rtsp_h.Rtsp.RequestLine.{
  Url, IsUrl, length-request_line, with_url, parse_request_line-request_line,
}
use rtsp_h.Rtsp.RoundTrip.{
  front, number, empty_line, cseq_header, length-number, request, header_loop-cseq,
}
use rtsp_h.Rtsp.Parser.{header_loop, parse_rtsp_request}
use rtsp_h.Rtsp.Handlers.{Rtsp, with_session, handle_rtsp_request}

subtract-not_positive : (a b : ℕ) → a ≤ b → is_positive (subtract a b) ≡ false
subtract-not_positive a b le = ground arith

parse_numeric_header-no_room :
    (n : ℤ) (t : Bytes) → is_positive n ≡ false → parse_numeric_header (32 ∷ t) n ≡ some none
unfolding parse_numeric_header skip_blanks
parse_numeric_header-no_room n t h = rw h refl

-- A request with such a length is refused.
pub parse_rtsp_request-glued :
    (s : Session) (u : Url) (d : ℕ) (ds junk : Bytes) (size : ℕ)
    → IsUrl u
    → size ≤ front u + 5
    → parse_rtsp_request s (request u (d ∷ ds) junk) size ≡ refused (with_url s u)
unfolding parse_rtsp_request request front
parse_rtsp_request-glued s u d ds junk size v short =
    let hdr = cseq_header (d ∷ ds) junk in
    let t = number (d ∷ ds) junk in
    let total = length (request u (d ∷ ds) junk) in
    let line = parse_request_line-request_line s u hdr v in
    let long = length-request_line u hdr in
    let rounds : total ≡ suc (total - 1) = omega (arith, length-number (d ∷ ds) junk) in
    let offset = total - suc (suc (suc (suc (suc (length t))))) + 5 in
    let none_left =
      subtract-not_positive size offset (omega (arith, length-number (d ∷ ds) junk)) in
    let number_refused =
      parse_numeric_header-no_room (subtract size offset) ((d ∷ ds) ++ (cr ∷ lf ∷ empty_line junk))
        none_left in
    rw line (
      ap (λ (k : ℕ). header_loop k total size (with_url s u) hdr) rounds
      ∙ (header_loop-cseq (total - 1) total size (with_url s u) t ∙ rw number_refused refl))

-- A request with such a length gets no answer: only the parts of its URL are stored, and its command
-- is reported all the same.
pub handle_rtsp_request-glued :
    (sys : System) (date : Bytes) (r : Rtsp) (u : Url) (d : ℕ) (ds junk : Bytes) (size : ℕ)
    → IsUrl u
    → size ≤ front u + 5
    → handle_rtsp_request sys date r (request u (d ∷ ds) junk) size
      ≡ some (with_session r (with_url (r.session) u), r.session.rtsp_cmd_type)
unfolding handle_rtsp_request with_url
handle_rtsp_request-glued sys date r u d ds junk size v short =
    rw (parse_rtsp_request-glued (r.session) u d ds junk size v short) refl
