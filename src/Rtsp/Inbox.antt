-- ===== src/Rtsp/Inbox.antt =====
-- src/CRtspSession.cpp, `handleRequests`: the receive buffer that all sessions share, and one read.
use rtsp_h.Prelude.{
  ℕ, ◌+◌, ◌-◌, Bool, true, false, not, ◌&&◌, ◌||◌, Option, none, some, [], ◌∷◌, ◌++◌, ltb, leb,
  ◌==◌, if◌then◌else◌, ◌>>=◌, Bytes, write, get_elem?, drop, replicate, length,
}
use rtsp_h.Session.{Session, RtspCmd, rtsp_buffer_size, new_command_init}
use rtsp_h.Transport.{System}
use rtsp_h.Rtsp.Text.{codes, cr, lf, strncmp}
use rtsp_h.Rtsp.Format.{decimal, snprintf, c_str, strstr}
use rtsp_h.Rtsp.Handlers.{Rtsp, respond, with_session, handle_rtsp_request}

pub data HdrState : Type 0 where
  hdr_unknown hdr_got_method hdr_invalid : HdrState

-- `bufPos`, `state` and `RecvBuf`
pub record Inbox : Type 0 where
  pub buf_pos : ℕ
  pub state : HdrState
  pub recv_buf : Bytes

abbrev pub is_unknown : HdrState → Bool
is_unknown HdrState.hdr_unknown = true
is_unknown _ = false

abbrev pub is_invalid : HdrState → Bool
is_invalid HdrState.hdr_invalid = true
is_invalid _ = false

-- The start of the buffer, anew where it is empty or full.
unfoldable pub clear_full : Inbox → Inbox
clear_full b =
    if b.buf_pos == 0 || leb (rtsp_buffer_size - 1) b.buf_pos
    then record {
      buf_pos = 0;
      state = HdrState.hdr_unknown;
      recv_buf = replicate rtsp_buffer_size 0;
    }
    else b

-- How many bytes the read may give.
abbrev pub room : Inbox → ℕ
room b = rtsp_buffer_size - b.buf_pos - 1

-- The command at the start of the buffer.
unfoldable pub command_type : Bytes → Option RtspCmd
command_type s = do
  options ← strncmp (codes "OPTIONS ") s
  describe ← strncmp (codes "DESCRIBE ") s
  setup ← strncmp (codes "SETUP ") s
  play ← strncmp (codes "PLAY ") s
  teardown ← strncmp (codes "TEARDOWN ") s
  some (
      if options
      then RtspCmd.rtsp_options
      else if describe
      then RtspCmd.rtsp_describe
      else if setup
      then RtspCmd.rtsp_setup
      else if play
      then RtspCmd.rtsp_play
      else if teardown
      then RtspCmd.rtsp_teardown
      else RtspCmd.rtsp_unknown)

abbrev pub state_of : RtspCmd → HdrState
state_of RtspCmd.rtsp_unknown = HdrState.hdr_invalid
state_of _ = HdrState.hdr_got_method

-- `if (state == hdrStateUnknown && bufPos >= 6)`
unfoldable pub find_method : Session → Inbox → Option (Session × Inbox)
find_method s b =
    if is_unknown b.state && leb 6 b.buf_pos
    then if strstr (c_str b.recv_buf) (codes "\r\n")
      then (do
        first ← get_elem? b.recv_buf 0
        second ← get_elem? b.recv_buf 1
        cmd ← command_type (if first == cr && second == lf then drop 2 b.recv_buf else b.recv_buf)
        some (
          record (new_command_init s) { rtsp_cmd_type = cmd },
          record b { state = state_of cmd },
        ))
      else some (s, b)
    else some (s, b)

-- `strstr(bufPos > 4 ? RecvBuf + bufPos - 4 : RecvBuf, "\r\n\r\n") != NULL`
unfoldable pub header_ended : Inbox → Bool
header_ended b =
    strstr (c_str (if ltb 4 b.buf_pos then drop (b.buf_pos - 4) b.recv_buf else b.recv_buf))
      (codes "\r\n\r\n")

unfoldable pub bad_request : Session → Bytes
bad_request s =
    snprintf rtsp_buffer_size
      (codes "RTSP/1.0 400 Bad Request\r\nCSeq: " ++ (decimal s.cseq ++ codes "\r\n\r\n"))

-- What PLAY and TEARDOWN do to the session.
abbrev pub after_command : RtspCmd → Session → Session
after_command RtspCmd.rtsp_play s = record s { streaming = true }
after_command RtspCmd.rtsp_teardown s = record s { stopped = true }
after_command _ s = s

-- The end of a request: `bufPos` is 0, so the next call clears what the parser left in the buffer.
unfoldable pub finish_request : System → Bytes → Rtsp → Inbox → ℕ → Option (Bool × Rtsp × Inbox)
finish_request sys date r b res = do
  (r', cmd) ← handle_rtsp_request sys date r b.recv_buf res
  some (
    true,
    with_session r' (after_command cmd r'.session),
    record b { state = HdrState.hdr_unknown; buf_pos = 0 },
  )

-- What a read puts into the buffer, and the '\0' behind it; `none` is a write past its end.
unfoldable pub store_chunk : Inbox → Bytes → Option Bytes
store_chunk b chunk = do
  m₁ ← write b.recv_buf b.buf_pos chunk
  write m₁ (b.buf_pos + length chunk) (0 ∷ [])

-- `if (res > 0)`
unfoldable pub receive_bytes : System → Bytes → Bytes → Rtsp → Inbox → Option (Bool × Rtsp × Inbox)
receive_bytes sys date chunk r b = do
  m₂ ← store_chunk b chunk
  (s, b₁) ← find_method r.session (record b { buf_pos = b.buf_pos + length chunk; recv_buf = m₂ })
  let r₁ = with_session r s
  if is_unknown b₁.state
      then finish_request sys date r₁ b₁ (length chunk)
      else if not (header_ended b₁)
      then some (true, r₁, b₁)
      else if is_invalid b₁.state
      then (do
        m₃ ← write b₁.recv_buf 0 (bad_request s ++ 0 ∷ [])
        some (false, respond r₁ (bad_request s), record b₁ { buf_pos = 0; recv_buf = m₃ }))
      else finish_request sys date r₁ b₁ (length chunk)

-- What is done with a read. `received` is what `socketread` gives: `none` for a timeout, no bytes for
-- a socket that the client closed.
abbrev pub handle_read : System → Bytes → Option Bytes → Rtsp → Inbox → Option (Bool × Rtsp × Inbox)
handle_read sys date none r b = some (false, r, b)
handle_read sys date (some chunk) r b =
    if length chunk == 0
    then some (true, with_session r (record (r.session) { stopped = true }), b)
    else receive_bytes sys date chunk r b

-- `handleRequests`
unfoldable pub handle_requests :
    System → Bytes → Option Bytes → Rtsp → Inbox → Option (Bool × Rtsp × Inbox)
handle_requests sys date received r b =
    if r.session.stopped then some (false, r, b) else handle_read sys date received r (clear_full b)
