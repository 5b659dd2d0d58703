-- ===== src/Rtsp/Asked.antt =====
-- src/CRtspSession.cpp: a request of any method that comes in one read.
use rtsp_h.Rtsp.Parser.{parse_rtsp_request}
use rtsp_h.Rtsp.Parsed.{Parsed, ok}
use rtsp_h.Prelude.{
  ℕ, ◌+◌, ◌^◌, ◌≤◌, ◌<◌, ◌≡◌, refl, ap, ◌∙◌, Bool, true, false, not, some, [], ◌∷◌, ◌++◌,
  append_assoc, if◌then◌else◌, Bytes, length, length-append, drop, arith, ◌==◌, write, over,
  write-over_at, replicate,
}
use rtsp_h.Session.{Session, new_command_init}
use rtsp_h.Transport.{System}
use rtsp_h.Rtsp.Text.{codes, cr, lf, isdigit, isblank, digits_value}
use rtsp_h.Rtsp.Parts.{AllOf}
use rtsp_h.Rtsp.RequestLine.{Url, IsUrl, length-request_line, with_url}
use rtsp_h.Rtsp.RoundTrip.{request, parse_rtsp_request-request}
use rtsp_h.Rtsp.OneRead.{
  opening, closing, opening-request, Method, verb_of, command_of, asking, request_text, holding,
  find_method-asking, header_ended-asking, not_nul, digits_only,
}
use rtsp_h.Rtsp.Handlers.{Rtsp, with_session, answer, handle_rtsp_request}
use rtsp_h.Rtsp.Inbox.{
  Inbox, HdrState, after_command, clear_full, finish_request, store_chunk, receive_bytes,
  handle_read, handle_requests,
}

verb_word : (q : Method) → AllOf (λ c. not (isblank c)) (verb_of q)
verb_word Method.options = (refl, (refl, (refl, (refl, (refl, (refl, (refl, tt)))))))
verb_word Method.describe = (refl, (refl, (refl, (refl, (refl, (refl, (refl, (refl, tt))))))))
verb_word Method.setup = (refl, (refl, (refl, (refl, (refl, tt)))))
verb_word Method.play = (refl, (refl, (refl, (refl, tt))))
verb_word Method.teardown = (refl, (refl, (refl, (refl, (refl, (refl, (refl, (refl, tt))))))))

verb_fits : (q : Method) → length (verb_of q) < 19
verb_fits Method.options = omega arith
verb_fits Method.describe = omega arith
verb_fits Method.setup = omega arith
verb_fits Method.play = omega arith
verb_fits Method.teardown = omega arith

pub asking-IsUrl : (q : Method) (u : Url) → IsUrl u → IsUrl (asking q u)
asking-IsUrl q u v = record {
  verb_word = verb_word q;
  verb_fits = verb_fits q;
  host_part = v.host_part;
  host_fits = v.host_fits;
  presentation_part = v.presentation_part;
  presentation_fits = v.presentation_fits;
  stream_part = v.stream_part;
  stream_fits = v.stream_fits;
}

abbrev pub blank_buffer : Bytes
blank_buffer = replicate 500 0

-- What stands behind the text and its '\0'.
abbrev pub junk_behind : Bytes → Bytes
junk_behind text = drop (length (text ++ (0 ∷ []))) blank_buffer

pub request_text-request :
    (q : Method) (u : Url) (ds : Bytes)
    → over (request_text q u ds ++ (0 ∷ [])) blank_buffer
      ≡ request (asking q u) ds (junk_behind (request_text q u ds))
request_text-request q u ds =
    let junk = junk_behind (request_text q u ds) in
    append_assoc (request_text q u ds) (0 ∷ []) junk
    ∙ (append_assoc (opening (asking q u) ds) closing (0 ∷ junk)
        ∙ opening-request (asking q u) ds junk)

-- The session when the method is known.
abbrev pub with_command : Method → Session → Session
with_command q s = record (new_command_init s) { rtsp_cmd_type = command_of q }

clear_full-empty :
    (b : Inbox) → b.buf_pos ≡ 0 → clear_full b ≡ holding 0 HdrState.hdr_unknown blank_buffer
unfolding clear_full
clear_full-empty b empty =
    let none_there : (b.buf_pos == 0) ≡ true = ground arith in rw none_there refl

receive_bytes-asking :
    (sys : System) (date : Bytes) (r : Rtsp) (q : Method) (u : Url) (ds : Bytes)
    → IsUrl u
    → AllOf not_nul ds
    → length (request_text q u ds) ≤ 499
    → receive_bytes sys date (request_text q u ds) r (holding 0 HdrState.hdr_unknown blank_buffer)
      ≡ finish_request sys date
          (with_session r (with_command q (r.session)))
          (holding
            (length (request_text q u ds))
            HdrState.hdr_got_method
            (request (asking q u) ds (junk_behind (request_text q u ds))))
          (length (request_text q u ds))
unfolding receive_bytes store_chunk
receive_bytes-asking sys date r q u ds v digits fits =
    let text = request_text q u ds in
    let junk = junk_behind text in
    let n : ℕ = length text in
    let long : 6 ≤ n = omega (
      arith,
      length-append (opening (asking q u) ds) closing,
      length-request_line (asking q u) (cr ∷ lf ∷ (codes "CSeq:" ++ (32 ∷ ds))),
    ) in
    let first : write blank_buffer 0 text ≡ some (over text blank_buffer) =
      write-over_at [] blank_buffer text 0 refl (omega arith) in
    let second : write (over text blank_buffer) (0 + n) (0 ∷ [])
        ≡ some (request (asking q u) ds junk) =
      write-over_at text blank_buffer (0 ∷ []) (0 + n) (omega arith) (omega arith)
      ∙ ap some (request_text-request q u ds) in
    let start : 0 + n ≡ n = omega arith in
    let found = find_method-asking (r.session) n q u ds junk v digits long in
    rw (first, second, start, found, header_ended-asking q u ds junk) refl

-- The session that a request with this URL and this number leaves.
abbrev pub after_request : Method → Session → Url → Bytes → Session
after_request q s u ds = record (with_url (with_command q s) (asking q u)) {
  cseq = digits_value 0 ds;
}

-- The size that the parser is told is that of the text.
pub whole_size :
    (q : Method) (u : Url) (tail : Bytes)
    → length (request_text q u tail) + 1 + length (junk_behind (request_text q u tail))
      ≡ length (request (asking q u) tail (junk_behind (request_text q u tail)))
whole_size q u tail =
    let text = request_text q u tail in
    let junk = junk_behind text in
    let whole : text ++ (0 ∷ junk) ≡ request (asking q u) tail junk =
      append_assoc (opening (asking q u) tail) closing (0 ∷ junk)
      ∙ opening-request (asking q u) tail junk in
    omega (arith, length-append text (0 ∷ junk), ap (λ (m : Bytes). length m) whole)

-- What the parser does with the request in the buffer.
abbrev pub parsed_request : Session → Method → Url → Bytes → Parsed Session
parsed_request s q u tail =
    parse_rtsp_request (with_command q s)
      (request (asking q u) tail (junk_behind (request_text q u tail)))
      (length (request_text q u tail))

handle_rtsp_request-parsed :
    (sys : System) (date : Bytes) (r : Rtsp) (q : Method) (u : Url) (tail : Bytes) (s : Session)
    (r' : Rtsp)
    → parsed_request r.session q u tail ≡ ok s
    → answer sys date (with_session r s) ≡ some r'
    → handle_rtsp_request sys date
        (with_session r (with_command q (r.session)))
        (request (asking q u) tail (junk_behind (request_text q u tail)))
        (length (request_text q u tail))
      ≡ some (r', r'.session.rtsp_cmd_type)
unfolding handle_rtsp_request
handle_rtsp_request-parsed sys date r q u tail s r' parsed answered = rw parsed (rw answered refl)

-- A request that is accepted, of at most 499 bytes, with no '\0' in what stands behind `CSeq: ` and a
-- URL whose parts fit, that comes in one read to a session that has not stopped, with nothing in the
-- receive buffer before, is answered as the session that the parser leaves answers it.
pub handle_requests-parsed :
    (sys : System) (date : Bytes) (r : Rtsp) (b : Inbox) (q : Method) (u : Url) (tail : Bytes)
    (s : Session) (r' : Rtsp)
    → IsUrl u
    → AllOf not_nul tail
    → length (request_text q u tail) ≤ 499
    → r.session.stopped ≡ false
    → b.buf_pos ≡ 0
    → parsed_request r.session q u tail ≡ ok s
    → answer sys date (with_session r s) ≡ some r'
    → (b' : Inbox) × (handle_requests sys date (some (request_text q u tail)) r b
        ≡ some (true, with_session r' (after_command (r'.session.rtsp_cmd_type) (r'.session)), b'))
      × (b'.buf_pos ≡ 0)
unfolding handle_requests finish_request
handle_requests-parsed sys date r b q u tail s r' v words fits running empty parsed answered =
    let text = request_text q u tail in
    let bytes = receive_bytes-asking sys date r q u tail v words fits in
    let handled = handle_rtsp_request-parsed sys date r q u tail s r' parsed answered in
    let b' = holding 0 HdrState.hdr_unknown (request (asking q u) tail (junk_behind text)) in
    let nonempty : (length text == 0) ≡ false =
      ground (arith, length-append (opening (asking q u) tail) closing) in
    let guarded =
      ap
        (λ (x : Bool).
          if x then some (false, r, b) else handle_read sys date (some text) r (clear_full b))
        running in
    let cleared = ap (handle_read sys date (some text) r) (clear_full-empty b empty) in
    let read : handle_read sys date (some text) r (holding 0 HdrState.hdr_unknown blank_buffer)
        ≡ receive_bytes sys date text r (holding 0 HdrState.hdr_unknown blank_buffer) =
      rw nonempty refl in
    let finished : finish_request sys date (with_session r (with_command q (r.session)))
          (holding (length text) HdrState.hdr_got_method
            (request (asking q u) tail (junk_behind text)))
          (length text)
        ≡ some (true, with_session r' (after_command (r'.session.rtsp_cmd_type) (r'.session)), b') =
      rw handled refl in
    (b', guarded ∙ (cleared ∙ (read ∙ (bytes ∙ finished))), refl)

-- A request of at most 499 bytes, with a URL whose parts fit and a CSeq below 2 ^ 31, that comes in
-- one read to a session that has not stopped, with nothing in the receive buffer before, is answered
-- as the session that holds the parts of the URL and the CSeq answers its method.
pub handle_requests-asking :
    (sys : System) (date : Bytes) (r : Rtsp) (b : Inbox) (q : Method) (u : Url) (d : ℕ) (ds : Bytes)
    (r' : Rtsp)
    → IsUrl u
    → AllOf isdigit (d ∷ ds)
    → digits_value 0 (d ∷ ds) < 2 ^ 31
    → length (request_text q u (d ∷ ds)) ≤ 499
    → r.session.stopped ≡ false
    → b.buf_pos ≡ 0
    → answer sys date (with_session r (after_request q (r.session) u (d ∷ ds))) ≡ some r'
    → (b' : Inbox) × (handle_requests sys date (some (request_text q u (d ∷ ds))) r b
        ≡ some (true, with_session r' (after_command (r'.session.rtsp_cmd_type) (r'.session)), b'))
      × (b'.buf_pos ≡ 0)
handle_requests-asking sys date r b q u d ds r' v digits small fits running empty answered =
    handle_requests-parsed sys date r b q u (d ∷ ds) (after_request q (r.session) u (d ∷ ds)) r' v
      (digits_only (d ∷ ds) digits) fits running empty
      (parse_rtsp_request-request (with_command q (r.session)) (asking q u) d ds
        (junk_behind (request_text q u (d ∷ ds))) (length (request_text q u (d ∷ ds)))
        (asking-IsUrl q u v) digits small (whole_size q u (d ∷ ds)))
      answered
