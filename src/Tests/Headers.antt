-- ===== src/Tests/Headers.antt =====
-- A request with headers that the program does not know.
use rtsp_h.Prelude.{◌+◌, refl, [], ◌∷◌, ◌++◌, Bytes, length, arith}
use rtsp_h.Rtsp.HeaderLines.{header_loop-Returns}
use rtsp_h.Rtsp.Parser.{header_loop}
use rtsp_h.Rtsp.RequestLine.{request_line}
use rtsp_h.Rtsp.Returns.{Same, Same-refl, Returns}
use rtsp_h.Rtsp.Text.{codes}
use rtsp_h.Rtsp.Total.{Concludes, handle_rtsp_request-Concludes}
use rtsp_h.Rtsp.Handlers.{handle_rtsp_request}
use rtsp_h.Tests.Data.{system}
use rtsp_h.Tests.Requests.{url, url-IsUrl, session, rtsp}

abbrev headers : Bytes
headers = codes "\r\nUser-Agent: a\r\n b\r\nCSeq: 7\r\n\r\n" ++ (0 ∷ 0 ∷ [])

header_loop-Returns_example :
    Returns session (Same session) (header_loop (length headers + 1) 80 40 session headers)
header_loop-Returns_example =
    header_loop-Returns (length headers + 1) 80 40 session session headers (Same-refl session) refl
      (omega arith)

handle_rtsp_request-Concludes_example :
    Concludes system [] rtsp (handle_rtsp_request system [] rtsp (request_line url headers) 90)
handle_rtsp_request-Concludes_example =
    handle_rtsp_request-Concludes system [] rtsp url headers 90 url-IsUrl (omega arith) refl
