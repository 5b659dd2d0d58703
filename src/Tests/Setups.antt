-- ===== src/Tests/Setups.antt =====
-- A SETUP request that is parsed.
use rtsp_h.Prelude.{◌≡◌, refl, [], ◌∷◌, ◌++◌, arith}
use rtsp_h.Session.{Session, RtspCmd, new_session}
use rtsp_h.Rtsp.Text.{codes}
use rtsp_h.Rtsp.Parsed.{ok}
use rtsp_h.Rtsp.Parser.{parse_rtsp_request}
use rtsp_h.Rtsp.RequestLine.{request_line, with_url}
use rtsp_h.Rtsp.RoundTrip.{request}
use rtsp_h.Rtsp.WithTransport.{transport_line, with_transport, parse_rtsp_request-setup}
use rtsp_h.Tests.Requests.{url, url-IsUrl}

abbrev setting_up : Session
setting_up = record (new_session 7 9) { rtsp_cmd_type = RtspCmd.rtsp_setup }

parse_rtsp_request-setup_example :
    parse_rtsp_request setting_up
      (request url (codes "42" ++ transport_line (codes "7000") (codes "7001")) (0 ∷ []))
      107
    ≡ ok (with_transport (record (with_url setting_up url) { cseq = 42 }) 7000)
unfolding request request_line
parse_rtsp_request-setup_example =
    parse_rtsp_request-setup setting_up url b'4' (codes "2") b'7' (codes "000") (codes "7001")
      (0 ∷ []) 107 url-IsUrl refl (ground arith) (omega arith) (ground arith) (ground arith)
      (omega arith) refl
