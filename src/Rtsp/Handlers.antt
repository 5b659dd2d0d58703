-- ===== src/Rtsp/Handlers.antt =====
-- src/CRtspSession.cpp: the answers to the requests. `date` is what `DateHeader` returns.
use rtsp_h.Prelude.{
  ℕ, zero, Bool, true, false, not, ◌&&◌, Option, none, some, List, [], ◌∷◌, ◌++◌, if◌then◌else◌,
  ◌>>=◌, Bytes, length, ℤ, pos, negsuc,
}
use rtsp_h.Session.{Session, RtspCmd}
use rtsp_h.Streamer.{Streamer, Sent, tcp_send}
use rtsp_h.Transport.{Udp, System, init_udp_transport, get_rtp_server_port, get_rtcp_server_port}
use rtsp_h.Rtsp.Text.{codes, atoi}
use rtsp_h.Rtsp.Format.{decimal, signed_decimal, snprintf, c_str, bytes_equal, strstr, is_number}
use rtsp_h.Rtsp.Parsed.{Parsed, fault, refused, ok}
use rtsp_h.Rtsp.Parser.{parse_rtsp_request}

-- A session, its streamer's sockets, and the log of what was sent.
pub record Rtsp : Type 0 where
  pub session : Session
  pub udp : Udp
  pub sent : List Sent

-- `socketsend(m_RtspClient, Response, strlen(Response))`
unfoldable pub respond : Rtsp → Bytes → Rtsp
respond r text = record r { sent = r.sent ++ tcp_send r.session.rtsp_client text ∷ [] }

abbrev pub with_session : Rtsp → Session → Rtsp
with_session r s = record r { session = s }

abbrev pub option_answer : Session → Bytes
option_answer s = snprintf 100 (
    codes "RTSP/1.0 200 OK\r\nCSeq: "
    ++ (decimal s.cseq ++ codes "\r\nPublic: DESCRIBE, SETUP, TEARDOWN, PLAY, PAUSE\r\n\r\n"))

-- `Handle_RtspOPTION`
unfoldable pub handle_option : Rtsp → Rtsp
handle_option r = respond r (option_answer r.session)

abbrev pub sdp : Bytes
sdp =
    codes
      "v=0\r\no=- 0 0 IN IP4 127.0.0.1\r\ni=H.265\r\nm=video 1234 RTP/AVP 96\r\na=rtpmap:96 H265/90000\r\na=framerate:10\r\nc=IN IP4 0.0.0.0\r\ns=Video Streaming\r\n"

-- Whether the URL of the request names the stream of the streamer.
unfoldable pub knows_stream : Streamer → Session → Bool
knows_stream str s =
    bytes_equal str.uri_presentation (c_str s.command_presentation_part)
    && (is_number (c_str s.command_stream_part)
        && strstr (c_str str.uri_stream) (c_str s.command_stream_part))

-- The number of the stream, or -1.
unfoldable pub find_stream : Streamer → Session → Option ℤ
find_stream str s =
    if knows_stream str s
    then (do n ← atoi (c_str s.command_stream_part); some (pos n))
    else some (negsuc 0)

abbrev pub is_known : ℤ → Bool
is_known (negsuc zero) = false
is_known _ = true

abbrev pub content_base : Session → Bytes
content_base s = snprintf 75 (
    codes "rtsp://"
    ++ (c_str s.command_host_port
        ++ (codes "/"
            ++ (c_str s.command_presentation_part ++ (codes "/" ++ c_str s.command_stream_part)))))

abbrev pub not_found : Bytes → Session → Bytes
not_found date s = snprintf 512 (
    codes "RTSP/1.0 404 Stream Not Found\r\nCSeq: "
    ++ (decimal s.cseq ++ (codes "\r\n" ++ (date ++ codes "\r\n"))))

abbrev pub description : Bytes → Session → Bytes
description date s = snprintf 512 (
    codes "RTSP/1.0 200 OK\r\nCSeq: "
    ++ (decimal s.cseq
        ++ (codes "\r\n"
            ++ (date
                ++ (codes "\r\nContent-Base: "
                    ++ (content_base s
                        ++ (codes "/\r\nContent-Type: application/sdp\r\nContent-Length: "
                            ++ (decimal (length (snprintf 256 sdp))
                                ++ (codes "\r\n\r\n" ++ snprintf 256 sdp)))))))))

-- `Handle_RtspDESCRIBE`
unfoldable pub handle_describe : Bytes → Rtsp → Option Rtsp
handle_describe date r = do
  id ← find_stream r.udp.str r.session
  let r' = with_session r (record (r.session) { stream_id = id })
  some (
      if is_known id
      then respond r' (description date r.session)
      else respond r' (not_found date r.session))

-- `InitTransport`
unfoldable pub init_transport : System → Rtsp → ℕ → ℕ → Rtsp
init_transport sys r rtp_port rtcp_port =
    let r' =
      with_session r
        (record (r.session) { rtp_client_port = rtp_port; rtcp_client_port = rtcp_port }) in
    if not r'.session.tcp_transport
    then record r' { udp = (init_udp_transport sys r'.udp).0 }
    else r'

abbrev pub transport_text : Rtsp → Bytes
transport_text r = snprintf 180 (
    if r.session.tcp_transport
    then codes "RTP/AVP/TCP;unicast;interleaved=0-1"
    else codes "RTP/AVP;unicast;destination=127.0.0.1;source=127.0.0.1;client_port="
      ++ (decimal r.session.client_rtp_port
          ++ (codes "-"
              ++ (decimal r.session.client_rtcp_port
                  ++ (codes ";server_port="
                      ++ (decimal (get_rtp_server_port r.udp.str)
                          ++ (codes "-" ++ decimal (get_rtcp_server_port r.udp.str))))))))

-- The answer, with the transport `r'` that was made ready.
abbrev pub setup_answer : Bytes → Session → Rtsp → Bytes
setup_answer date s r' = snprintf 300 (
    codes "RTSP/1.0 200 OK\r\nCSeq: "
    ++ (decimal s.cseq
        ++ (codes "\r\n"
            ++ (date
                ++ (codes "\r\nTransport: "
                    ++ (transport_text r'
                        ++ (codes "\r\nSession: "
                            ++ (signed_decimal s.rtsp_session_id ++ codes "\r\n\r\n"))))))))

-- `Handle_RtspSETUP`
unfoldable pub handle_setup : System → Bytes → Rtsp → Rtsp
handle_setup sys date r =
    let r' = init_transport sys r r.session.client_rtp_port r.session.client_rtcp_port in
    respond r' (setup_answer date r.session r')

unfoldable pub play_answer : Bytes → Session → Bytes
play_answer date s = snprintf 220 (
    codes "RTSP/1.0 200 OK\r\nCSeq: "
    ++ (decimal s.cseq
        ++ (codes "\r\n"
            ++ (date
                ++ (codes "\r\nRange: npt=0.000-\r\nSession: "
                    ++ (signed_decimal s.rtsp_session_id
                        ++ codes
                            "\r\nRTP-Info: url=rtsp://127.0.0.1:554/live/1/track1\r\n\r\n"))))))

-- `Handle_RtspPLAY`
unfoldable pub handle_play : Bytes → Rtsp → Rtsp
handle_play date r = respond r (play_answer date r.session)

-- The switch over the command.
abbrev pub answer_as : System → Bytes → Rtsp → RtspCmd → Option Rtsp
answer_as sys date r RtspCmd.rtsp_options = some (handle_option r)
answer_as sys date r RtspCmd.rtsp_describe = handle_describe date r
answer_as sys date r RtspCmd.rtsp_setup = some (handle_setup sys date r)
answer_as sys date r RtspCmd.rtsp_play = some (handle_play date r)
answer_as sys date r RtspCmd.rtsp_teardown = some r
answer_as sys date r RtspCmd.rtsp_unknown = some r

unfoldable pub answer : System → Bytes → Rtsp → Option Rtsp
answer sys date r = answer_as sys date r r.session.rtsp_cmd_type

-- The answer to a request that parses; one that does not gets none.
abbrev pub conclude : System → Bytes → Rtsp → Parsed Session → Option (Rtsp × RtspCmd)
conclude sys date r fault = none
conclude sys date r (refused s) = some (with_session r s, s.rtsp_cmd_type)
conclude sys date r (ok s) = do
  r' ← answer sys date (with_session r s)
  some (r', r'.session.rtsp_cmd_type)

-- `Handle_RtspRequest`
unfoldable pub handle_rtsp_request : System → Bytes → Rtsp → Bytes → ℕ → Option (Rtsp × RtspCmd)
handle_rtsp_request sys date r request size =
    conclude sys date r (parse_rtsp_request r.session request size)
