-- ===== src/Tests/Requests.antt =====
-- Runs of the RTSP sessions.
use rtsp_h.Rtsp.GluedReads.{half_read, handle_requests-glued}
use rtsp_h.Rtsp.Answers.{IsAnswer}
use rtsp_h.Prelude.{
  ℕ, ◌≤◌, ◌≡◌, refl, Option, none, some, [], ◌∷◌, ◌++◌, Bytes, length, replicate, arith, ◌-◌,
  if◌then◌else◌, ◌==◌, Bool,
}
use rtsp_h.Session.{Session, new_session}
use rtsp_h.Transport.{release_udp_transport, udpsocketclose}
use rtsp_h.Rtsp.Text.{codes, cr}
use rtsp_h.Rtsp.Parsed.{fault, ok}
use rtsp_h.Rtsp.Parser.{param_loop, parse_rtsp_request}
use rtsp_h.Rtsp.Params.{param_loop-lone_cr}
use rtsp_h.Rtsp.RequestLine.{Url, IsUrl, request_line, with_url}
use rtsp_h.Rtsp.RoundTrip.{front, request, parse_rtsp_request-request}
use rtsp_h.Rtsp.Handlers.{Rtsp, play_answer, with_session}
use rtsp_h.Rtsp.Inbox.{Inbox, HdrState, handle_requests, clear_full, after_command}
use rtsp_h.Rtsp.Bounds.{IsInbox, Stores, handle_requests-Stores}
use rtsp_h.Clients.{
  Round, handle_all, serve_clients, after_session, close_session, with_clients, new_streamer,
}
use rtsp_h.Clients.Served.{AllRunning, handle_all-AllRunning}
use rtsp_h.Prelude.{true}
use rtsp_h.Streamer.{tcp_send}
use rtsp_h.Rtsp.OneRead.{Method, request_text, holding}
use rtsp_h.Rtsp.Asked.{after_request, junk_behind}
use rtsp_h.Rtsp.Play.{handle_requests-play}
use rtsp_h.Tests.Data.{system, idle, tcp_player, udp_player}

abbrev pub url : Url
url = record {
  verb = codes "OPTIONS";
  host = codes "10.0.0.7:554";
  first = b'l';
  presentation = codes "ive";
  stream = codes "1";
}

pub url-IsUrl : IsUrl url
url-IsUrl = record {
  verb_word = ground arith;
  verb_fits = omega arith;
  host_part = ground arith;
  host_fits = omega arith;
  presentation_part = ground arith;
  presentation_fits = omega arith;
  stream_part = ground arith;
  stream_fits = omega arith;
}

abbrev pub session : Session
session = new_session 5 9

abbrev pub rtsp : Rtsp
rtsp = record { session = session; udp = idle; sent = [] }

abbrev pub inbox : Inbox
inbox = record { buf_pos = 0; state = HdrState.hdr_unknown; recv_buf = replicate 500 0 }

inbox-IsInbox : IsInbox inbox
inbox-IsInbox = record { size = refl; inside = omega arith }

parse_rtsp_request-request_example :
    parse_rtsp_request session (request url (b'4' ∷ b'2' ∷ []) (0 ∷ [])) 57
    ≡ ok (record (with_url session url) { cseq = 42 })
unfolding request request_line
parse_rtsp_request-request_example =
    parse_rtsp_request-request session url b'4' (b'2' ∷ []) (0 ∷ []) 57 url-IsUrl (ground arith)
      (omega arith) refl

param_loop-lone_cr_example : param_loop 1000 session (cr ∷ b'x' ∷ 0 ∷ []) ≡ fault
param_loop-lone_cr_example = param_loop-lone_cr 1000 session b'x' (0 ∷ []) (λ e. cc e)

-- The URL of that request.
abbrev short_url : Url
short_url = record {
  verb = codes "OPTIONS";
  host = codes "10.0.0.7";
  first = b'l';
  presentation = codes "ive";
  stream = codes "1";
}

short_url-IsUrl : IsUrl short_url
short_url-IsUrl = record {
  verb_word = ground arith;
  verb_fits = omega arith;
  host_part = ground arith;
  host_fits = omega arith;
  presentation_part = ground arith;
  presentation_fits = omega arith;
  stream_part = ground arith;
  stream_fits = omega arith;
}

-- The first half of a request.
abbrev pub first_half : Bytes
first_half = codes "OPTIONS rtsp://10.0.0.7/live/1 RTSP/1.0\r\nCSeq: 4"

abbrev pub waiting : Inbox
waiting = record {
  buf_pos = length first_half;
  state = HdrState.hdr_got_method;
  recv_buf = first_half ++ replicate (500 - length first_half) 0;
}

handle_requests-Stores_example :
    Stores inbox
    × ((answered : Bool) (r' : Rtsp) (b' : Inbox)
        → handle_requests system [] (some first_half) rtsp inbox ≡ some (answered, r', b')
        → IsInbox b')
handle_requests-Stores_example =
    handle_requests-Stores system [] (some first_half) rtsp inbox inbox-IsInbox

-- The rest of it.
abbrev last_half : Bytes
last_half = codes "2\r\n\r\n"

handle_requests-glued_example :
    handle_requests system [] (some last_half) rtsp (half_read first_half)
    ≡ some (
      true,
      with_session rtsp (after_command session.rtsp_cmd_type (with_url session short_url)),
      holding 0 HdrState.hdr_unknown (
          request short_url
            (codes "42")
            (junk_behind (request_text Method.options short_url (codes "42")))),
    )
unfolding new_session front request_line
handle_requests-glued_example =
    handle_requests-glued system [] rtsp Method.options short_url b'4' (b'2' ∷ []) first_half
      last_half short_url-IsUrl (ground arith) refl (omega arith) (omega arith) (omega arith)
      (omega arith) refl

abbrev round : Round
round = record { udp = idle; sent = []; inbox = inbox }

-- The first client has closed its socket, the second says nothing.
abbrev reads : ℕ → ℕ → Option Bytes
reads socket n = if socket == 9 then some [] else none

abbrev served : Round
served = record {
  udp = with_clients (close_session idle tcp_player) (udp_player ∷ []);
  sent = [];
  inbox = inbox;
}

handle_all-AllRunning_example : AllRunning (udp_player ∷ [])
unfolding handle_all serve_clients handle_requests clear_full after_session close_session
    release_udp_transport udpsocketclose new_session new_streamer
handle_all-AllRunning_example = handle_all-AllRunning system [] reads round {w'' = served} refl

abbrev play_request : Bytes
play_request = request_text Method.play url (b'4' ∷ b'2' ∷ [])

play_request-fits : length play_request ≤ 499
unfolding request_line
play_request-fits = omega arith

handle_requests-play_example :
    (r' : Rtsp) × (b' : Inbox) × (handle_requests system [] (some play_request) rtsp inbox
      ≡ some (true, r', b'))
    × (r'.session
        ≡ record (after_request Method.play session url (b'4' ∷ b'2' ∷ [])) { streaming = true })
    × (r'.sent
        ≡ tcp_send 9 (play_answer [] (after_request Method.play session url (b'4' ∷ b'2' ∷ [])))
          ∷ [])
    × (IsAnswer Method.play 42
        (play_answer [] (after_request Method.play session url (b'4' ∷ b'2' ∷ []))))
    × (r'.udp ≡ idle)
    × (b'.buf_pos ≡ 0)
unfolding new_session
handle_requests-play_example =
    handle_requests-play system [] rtsp inbox url b'4' (b'2' ∷ []) url-IsUrl (ground arith)
      (omega arith) play_request-fits refl refl
