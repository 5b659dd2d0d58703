-- ===== src/Rtsp/Play.antt =====
-- src/CRtspSession.cpp: a PLAY request that comes in one read.
use rtsp_h.Prelude.{ℕ, ◌^◌, ◌≤◌, ◌<◌, ◌≡◌, refl, true, false, some, [], ◌∷◌, ◌++◌, Bytes, length}
use rtsp_h.Session.{new_command_init}
use rtsp_h.Streamer.{tcp_send}
use rtsp_h.Transport.{System}
use rtsp_h.Rtsp.Text.{isdigit, digits_value}
use rtsp_h.Rtsp.Parts.{AllOf}
use rtsp_h.Rtsp.RequestLine.{Url, IsUrl, with_url}
use rtsp_h.Rtsp.OneRead.{Method, request_text}
use rtsp_h.Rtsp.Asked.{after_request, handle_requests-asking}
use rtsp_h.Rtsp.Answers.{IsAnswer, play_answer-IsAnswer}
use rtsp_h.Rtsp.Handlers.{Rtsp, respond, with_session, play_answer, handle_play, answer}
use rtsp_h.Rtsp.Inbox.{Inbox, handle_requests}

-- A PLAY request whose only header is the CSeq, of at most 499 bytes, with a URL whose parts fit and a
-- CSeq below 2 ^ 31, that comes in one read to a session that has not stopped, with nothing in the
-- receive buffer before: the call returns true, one answer goes to the client, which begins with
-- `RTSP/1.0 200 OK` and a line with that CSeq in decimal digits, the session holds the parts of the
-- URL and the CSeq and streams from then on, and the buffer is empty again.
pub handle_requests-play :
    (sys : System) (date : Bytes) (r : Rtsp) (b : Inbox) (u : Url) (d : ℕ) (ds : Bytes)
    → IsUrl u
    → AllOf isdigit (d ∷ ds)
    → digits_value 0 (d ∷ ds) < 2 ^ 31
    → length (request_text Method.play u (d ∷ ds)) ≤ 499
    → r.session.stopped ≡ false
    → b.buf_pos ≡ 0
    → (r' : Rtsp) × (b' : Inbox) × (handle_requests sys date
          (some (request_text Method.play u (d ∷ ds)))
          r
          b
        ≡ some (true, r', b'))
      × (r'.session
          ≡ record (after_request Method.play (r.session) u (d ∷ ds)) { streaming = true })
      × (r'.sent
          ≡ r.sent
            ++ tcp_send r.session.rtsp_client
                (play_answer date (after_request Method.play (r.session) u (d ∷ ds)))
              ∷ [])
      × IsAnswer Method.play
          (digits_value 0 (d ∷ ds))
          (play_answer date (after_request Method.play (r.session) u (d ∷ ds)))
      × (r'.udp ≡ r.udp)
      × (b'.buf_pos ≡ 0)
unfolding answer handle_play respond with_url new_command_init
handle_requests-play sys date r b u d ds v digits small fits running empty =
    let q = handle_play date (with_session r (after_request Method.play (r.session) u (d ∷ ds))) in
    let (b', handled, cleared) =
      handle_requests-asking sys date r b Method.play u d ds q v digits small fits running empty
        refl in
    (
      with_session q (record (q.session) { streaming = true }),
      b',
      handled,
      refl,
      refl,
      play_answer-IsAnswer date (after_request Method.play (r.session) u (d ∷ ds)) small,
      refl,
      cleared,
    )
