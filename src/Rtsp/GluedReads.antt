-- ===== src/Rtsp/GluedReads.antt =====
-- src/CRtspSession.cpp, `handleRequests`: the second of two reads of one request, of which the parser is
-- handed the length alone.
use rtsp_h.Prelude.{
  ℕ, ◌+◌, ◌≤◌, ◌<◌, ◌≡◌, refl, ap, sym, ◌∙◌, Bool, true, false, ◌||◌, some, [], ◌∷◌, ◌++◌,
  if◌then◌else◌, Bytes, length, length-append, arith, ◌==◌, leb, write, over, write-over_at,
}
use rtsp_h.Transport.{System}
use rtsp_h.Rtsp.Text.{isdigit}
use rtsp_h.Rtsp.Parts.{AllOf}
use rtsp_h.Rtsp.RequestLine.{Url, IsUrl, with_url}
use rtsp_h.Rtsp.RoundTrip.{front, request}
use rtsp_h.Rtsp.OneRead.{Method, asking, request_text, holding, header_ended-asking}
use rtsp_h.Rtsp.Asked.{blank_buffer, junk_behind, asking-IsUrl, request_text-request}
use rtsp_h.Rtsp.Glued.{handle_rtsp_request-glued}
use rtsp_h.Rtsp.Handlers.{Rtsp, with_session}
use rtsp_h.Rtsp.Inbox.{
  Inbox, HdrState, after_command, clear_full, find_method, finish_request, store_chunk,
  receive_bytes, handle_read, handle_requests,
}

-- The buffer behind a first read that has told the method.
abbrev pub half_read : Bytes → Inbox
half_read first = holding (length first) HdrState.hdr_got_method (over first blank_buffer)

clear_full-half_read :
    (first : Bytes)
    → 0 < length first
    → length first < 499
    → clear_full (half_read first) ≡ half_read first
unfolding clear_full
clear_full-half_read first some_there room =
    let kept : (length first == 0 || leb 499 (length first)) ≡ false = ground arith in rw kept refl

-- The second part joins the first.
store_chunk-half_read :
    (first last text : Bytes)
    → first ++ last ≡ text
    → length text ≤ 499
    → store_chunk (half_read first) last ≡ some (over (text ++ 0 ∷ []) blank_buffer)
unfolding store_chunk
store_chunk-half_read first last text whole fits =
    let n : length first + length last ≡ length text =
      sym (length-append first last) ∙ ap (λ (l : Bytes). length l) whole in
    let put : write (over first blank_buffer) (length first) last ≡ some (over text blank_buffer) =
      write-over_at first blank_buffer last (length first) refl (omega (arith, n))
      ∙ ap (λ l. some (over l blank_buffer)) whole in
    let ended : write (over text blank_buffer) (length first + length last) (0 ∷ [])
        ≡ some (over (text ++ 0 ∷ []) blank_buffer) =
      write-over_at text blank_buffer (0 ∷ []) (length first + length last) (sym n)
        (omega (arith, n)) in
    rw put ended

-- A request of any method with the CSeq as its only header, of at most 499 bytes and with a URL whose
-- parts fit, that comes in two reads to a session that has not stopped: after a first part that told
-- the method, a second part that is no longer than what stands in front of the number of CSeq is put
-- behind the first, the request is whole in the buffer, the call returns true, and nothing is sent. The
-- session has the parts of the URL, and streams after PLAY and has stopped after TEARDOWN all the same;
-- the buffer is emptied.
pub handle_requests-glued :
    (sys : System) (date : Bytes) (r : Rtsp) (q : Method) (u : Url) (d : ℕ) (ds first last : Bytes)
    → IsUrl u
    → AllOf isdigit (d ∷ ds)
    → first ++ last ≡ request_text q u (d ∷ ds)
    → length (request_text q u (d ∷ ds)) ≤ 499
    → 0 < length first
    → 0 < length last
    → length last ≤ front (asking q u) + 5
    → r.session.stopped ≡ false
    → handle_requests sys date (some last) r (half_read first)
      ≡ some (
        true,
        with_session r (after_command r.session.rtsp_cmd_type (with_url r.session (asking q u))),
        holding 0 HdrState.hdr_unknown
            (request (asking q u) (d ∷ ds) (junk_behind (request_text q u (d ∷ ds)))),
      )
unfolding handle_requests receive_bytes find_method finish_request
handle_requests-glued sys date r q u d ds first last v digits whole fits some_first some_last short
      running =
    let text = request_text q u (d ∷ ds) in
    let junk = junk_behind text in
    let n : length first + length last ≡ length text =
      sym (length-append first last) ∙ ap (λ (l : Bytes). length l) whole in
    let kept = clear_full-half_read first some_first (omega (arith, n)) in
    let stored =
      store_chunk-half_read first last text whole fits
      ∙ ap some (request_text-request q u (d ∷ ds)) in
    let refused =
      handle_rtsp_request-glued sys date r (asking q u) d ds junk (length last) (asking-IsUrl q u v)
        short in
    let some_bytes : (length last == 0) ≡ false = ground arith in
    let s = with_url r.session (asking q u) in
    let b = half_read first in
    let guarded =
      ap
        (λ (x : Bool).
          if x then some (false, r, b) else handle_read sys date (some last) r (clear_full b))
        running in
    let cleared = ap (handle_read sys date (some last) r) kept in
    let read : handle_read sys date (some last) r b
        ≡ some (
          true,
          with_session r (after_command r.session.rtsp_cmd_type s),
          holding 0 HdrState.hdr_unknown (request (asking q u) (d ∷ ds) junk),
        ) =
      rw (some_bytes, stored, n, header_ended-asking q u (d ∷ ds) junk, refused) refl in
    guarded ∙ (cleared ∙ read)
