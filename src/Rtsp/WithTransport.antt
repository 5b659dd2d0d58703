-- ===== src/Rtsp/WithTransport.antt =====
-- src/CRtspSession.cpp, `ParseRtspRequest`: a SETUP request with the CSeq and a transport, parsed.
use rtsp_h.Rtsp.OneRead.{AllOf-weaken, AllOf-append, AllOf-all_of}
use rtsp_h.Prelude.{
  ℕ, suc, ◌+◌, ◌-◌, ◌^◌, ◌<◌, ◌≡◌, refl, ap, ◌∙◌, Bool, true, false, some, not, ◌&&◌, [], ◌∷◌, ◌++◌,
  append_assoc, Bytes, length, length-append, arith, leb, le→leb, ◌==◌,
}
use rtsp_h.Session.{Session, new_command_init}
use rtsp_h.Rtsp.Text.{
  codes, cr, lf, isdigit, skip_leftovers, is_garbage, isblank, glue, digits_value,
}
use rtsp_h.Rtsp.Parsed.{ok, ◌>>=◌}
use rtsp_h.Rtsp.Parts.{AllOf, parse_numeric_header-digits}
use rtsp_h.Rtsp.RequestLine.{
  Url, IsUrl, length-request_line, with_url, parse_request_line-request_line,
}
use rtsp_h.Rtsp.RoundTrip.{
  empty_line, number, cseq_header, request, length-number, header_loop-empty_line, header_loop-cseq,
}
use rtsp_h.Rtsp.SetupTransport.{client_ports, with_port, parse_transport-client_ports}
use rtsp_h.Rtsp.Parser.{
  is_setup, numeric, parse_header, parse_transport, header_loop, parse_rtsp_request,
}

-- The line of the transport, with the CRLF in front of it.
abbrev pub transport_line : Bytes → Bytes → Bytes
transport_line ds ds' =
    cr ∷ lf ∷ (codes "Transport: RTP/AVP;unicast;client_port=" ++ (ds ++ (b'-' ∷ ds')))

-- The session with these ports, for UDP.
abbrev pub with_transport : Session → ℕ → Session
with_transport s port = with_port (record s { tcp_transport = false }) port

abbrev in_line : ℕ → Bool
in_line c = not (c == 0) && not (c == cr)

-- A line that is not continued stays as it is.
glue-line :
    (xs : Bytes) (e : ℕ) (t : Bytes)
    → AllOf in_line xs
    → isblank e ≡ false
    → glue (xs ++ (cr ∷ lf ∷ e ∷ t)) ≡ some (xs ++ (cr ∷ lf ∷ e ∷ t))
unfolding glue
glue-line [] e t all stop = rw stop refl
glue-line (x ∷ []) e t (at, all) stop =
    let nonzero : (x == 0) ≡ false = ground arith in
    let inside : (x == cr) ≡ false = ground arith in rw (nonzero, inside, stop) refl
glue-line (x ∷ y ∷ xs) e t (at, all) stop =
    let nonzero : (x == 0) ≡ false = ground arith in
    let inside : (x == cr) ≡ false = ground arith in
    let more = glue-line (y ∷ xs) e t all stop in rw (nonzero, inside, more) refl

header_loop-transport :
    (k total size : ℕ) (s s' : Session) (t t' : Bytes)
    → is_setup s.rtsp_cmd_type ≡ true
    → glue (codes "Transport:" ++ t) ≡ some (codes "Transport:" ++ t)
    → parse_transport s t ≡ ok (s', cr ∷ lf ∷ t')
    → header_loop (suc k) total size s (cr ∷ lf ∷ (codes "Transport:" ++ t))
      ≡ header_loop k total size s' (cr ∷ lf ∷ t')
unfolding header_loop parse_header skip_leftovers is_garbage
header_loop-transport k total size s s' t t' setup glued parsed =
    rw glued (rw setup (rw parsed refl))

digits-in_line : (ds : Bytes) → AllOf isdigit ds → AllOf in_line ds
digits-in_line ds h = AllOf-weaken isdigit in_line ds (λ c e. ground arith) h

-- What stands behind `Transport:`, up to the end of the buffer.
abbrev asked_for : Bytes → Bytes → Bytes → Bytes
asked_for ds ds' junk = codes " RTP/AVP;unicast;" ++ client_ports ds ds' (empty_line junk)

glue-asked_for :
    (ds ds' junk : Bytes)
    → AllOf isdigit ds
    → AllOf isdigit ds'
    → glue (codes "Transport:" ++ asked_for ds ds' junk)
      ≡ some (codes "Transport:" ++ asked_for ds ds' junk)
glue-asked_for ds ds' junk all all' =
    let words : Bytes = codes "Transport: RTP/AVP;unicast;client_port=" in
    let line : Bytes = words ++ (ds ++ (b'-' ∷ ds')) in
    let inside : AllOf in_line line =
      AllOf-append in_line words (ds ++ (b'-' ∷ ds')) (AllOf-all_of in_line words refl) (
        AllOf-append in_line ds (b'-' ∷ ds') (digits-in_line ds all)
          (refl, digits-in_line ds' all')) in
    let whole : line ++ (cr ∷ lf ∷ empty_line junk) ≡ codes "Transport:" ++ asked_for ds ds' junk =
      simp append_assoc refl in
    rw (← whole) (glue-line line cr (lf ∷ 0 ∷ junk) inside refl)

header_loop-setup :
    (k total size : ℕ) (s : Session) (d : ℕ) (ds : Bytes) (a : ℕ) (ps ps' junk : Bytes)
    → is_setup s.rtsp_cmd_type ≡ true
    → AllOf isdigit (d ∷ ds)
    → digits_value 0 (d ∷ ds) < 2 ^ 31
    → AllOf isdigit (a ∷ ps)
    → AllOf isdigit ps'
    → digits_value 0 (a ∷ ps) < 2 ^ 31
    → total
        - (5 + length (number ((d ∷ ds) ++ transport_line (a ∷ ps) ps') junk))
        + 5
        + length (d ∷ ds)
        + 1
      < size
    → header_loop
        (suc (suc (suc (suc k))))
        total
        size
        s
        (cseq_header ((d ∷ ds) ++ transport_line (a ∷ ps) ps') junk)
      ≡ ok (with_transport (record s { cseq = digits_value 0 (d ∷ ds) }) (digits_value 0 (a ∷ ps)))
header_loop-setup k total size s d ds a ps ps' junk setup all small ports ports' port_small room =
    let t = number ((d ∷ ds) ++ transport_line (a ∷ ps) ps') junk in
    let rest : Bytes = codes "Transport:" ++ asked_for (a ∷ ps) ps' junk in
    let offset = total - suc (suc (suc (suc (suc (length t))))) + 5 in
    let within : leb offset size ≡ true = le→leb offset size (omega arith) in
    let shape : t ≡ 32 ∷ (d ∷ (ds ++ (cr ∷ lf ∷ rest))) = simp append_assoc refl in
    let read =
      parse_numeric_header-digits d ds (size - offset) (lf ∷ rest) all small (omega arith) in
    let s₁ = record s { cseq = digits_value 0 (d ∷ ds) } in
    let s₂ = with_transport s₁ (digits_value 0 (a ∷ ps)) in
    let transport =
      header_loop-transport (suc (suc k)) total size s₁ s₂ (asked_for (a ∷ ps) ps' junk)
        (empty_line junk) setup (glue-asked_for (a ∷ ps) ps' junk ports ports')
        (parse_transport-client_ports s₁ a ps ps' (empty_line junk) ports ports' port_small) in
    header_loop-cseq (suc (suc (suc k))) total size s t
    ∙ ap
        (λ (x : Bytes). numeric s (λ v. record s { cseq = v }) x size offset >>= λ y.
          header_loop (suc (suc (suc k))) total size y.0 y.1)
        shape
    ∙ rw (within, read) (transport ∙ header_loop-empty_line k total size s₂ junk)

-- A SETUP request with two headers, the CSeq below 2 ^ 31 and, for UDP, a transport with two ports of
-- which the first is below 2 ^ 31, with a URL whose parts fit, all of it in one read, is accepted, and
-- the session then holds the parts of its URL, its CSeq, and the first port and the one above it.
pub parse_rtsp_request-setup :
    (s : Session) (u : Url) (d : ℕ) (ds : Bytes) (a : ℕ) (ps ps' junk : Bytes) (size : ℕ)
    → IsUrl u
    → is_setup s.rtsp_cmd_type ≡ true
    → AllOf isdigit (d ∷ ds)
    → digits_value 0 (d ∷ ds) < 2 ^ 31
    → AllOf isdigit (a ∷ ps)
    → AllOf isdigit ps'
    → digits_value 0 (a ∷ ps) < 2 ^ 31
    → size + 1 + length junk ≡ length (request u ((d ∷ ds) ++ transport_line (a ∷ ps) ps') junk)
    → parse_rtsp_request s (request u ((d ∷ ds) ++ transport_line (a ∷ ps) ps') junk) size
      ≡ ok (
          with_transport
            (record (with_url s u) { cseq = digits_value 0 (d ∷ ds) })
            (digits_value 0 (a ∷ ps)))
unfolding parse_rtsp_request request with_url new_command_init
parse_rtsp_request-setup s u d ds a ps ps' junk size v setup all small ports ports' port_small
      whole =
    let tail : Bytes = (d ∷ ds) ++ transport_line (a ∷ ps) ps' in
    let header = cseq_header tail junk in
    let line = parse_request_line-request_line s u header v in
    let total = length (request u tail junk) in
    let long = length-request_line u header in
    let behind : length tail ≡ length (d ∷ ds) + length (transport_line (a ∷ ps) ps') =
      length-append (d ∷ ds) (transport_line (a ∷ ps) ps') in
    let rounds : total ≡ suc (suc (suc (suc (total - 4)))) =
      omega (arith, length-number tail junk) in
    let loop =
      header_loop-setup (total - 4) total size (with_url s u) d ds a ps ps' junk setup all small
        ports ports' port_small (omega (arith, length-number tail junk, behind)) in
    rw line (ap (λ (k : ℕ). header_loop k total size (with_url s u) header) rounds ∙ loop)
