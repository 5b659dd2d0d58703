-- ===== src/Streamer.antt =====
-- src/CStreamer.h and src/CStreamer.cpp: the state of a streamer, and the sending of RTP packets.
-- The sessions stand in list order in `clients`. What is sent goes to the end of a log.
pub mod Frame
pub mod SendData
pub mod Fragment
pub mod Reassembly
pub mod Pending
pub mod Entries
pub mod Nal
pub mod Stream
pub mod Delivery
use rtsp_h.Prelude.{
  ℕ, zero, suc, ◌+◌, ◌-◌, ◌*◌, ◌/◌, ◌%◌, ◌^◌, bit_and, bit_or, Bool, true, false, not, ◌&&◌, Option,
  none, some, List, [], ◌∷◌, ◌++◌, ltb, leb, ◌==◌, if◌then◌else◌, ◌>>=◌, Bytes, write, read,
  get_elem?, ◌≡◌, refl, length, replicate, drop, ℤ, pos,
}
use rtsp_h.Utils.{load16, load32}
use rtsp_h.Mux.{rtp_payload_max, rtp_version, rtp_h264, RtpMuxContext}
use rtsp_h.Session.{Session}

pub record Streamer : Type 0 where
  pub rtp_socket : ℕ
  pub rtcp_socket : ℕ
  pub rtp_server_port : ℕ
  pub rtcp_server_port : ℕ
  pub sequence_number : ℕ
  pub timestamp : ℕ
  pub send_idx : ℕ
  pub clients : List Session
  pub prev_msec : ℕ
  pub udp_ref_count : ℤ
  pub width : ℕ
  pub height : ℕ
  pub debug : Bool
  pub uri_host : Bytes
  pub uri_presentation : Bytes
  pub uri_stream : Bytes

-- A send on a TCP socket, or a datagram: its socket, its bytes, and where it goes.
pub data Sent : Type 0 where
  tcp_send : ℕ → Bytes → Sent
  udp_send : ℕ → Bytes → ℕ → ℕ → Sent

-- The packet context and the log of what was sent.
pub record Wire : Type 0 where
  pub mux : RtpMuxContext
  pub sent : List Sent

abbrev pub with_mux : Wire → RtpMuxContext → Wire
with_mux w ctx = record w { mux = ctx }

-- `socketpeeraddr` of src/platglue-posix.h; `getpeername` is the system's answer.
unfoldable pub socketpeeraddr : (ℕ → Option (ℕ × ℕ)) → ℕ → ℕ × ℕ
socketpeeraddr getpeername s = elim (getpeername s) [
  | none ↦ (0, 0)
  | some (addr, port) ↦ (addr, port)
]

-- The zeros of `memset(ctx->cache, 0, RTP_PAYLOAD_MAX + 10)`.
pub zeros : Bytes
zeros = replicate (rtp_payload_max + 10) 0

pub length-zeros : length zeros ≡ 1410
unfolding zeros
length-zeros = refl

-- The 4 bytes of RTP over RTSP, the 12 bytes of the RTP header, and the payload.
unfoldable pub fill_cache : RtpMuxContext → Bytes → ℕ → ℕ → Option Bytes
fill_cache ctx buf len mark = do
  c₀ ← write ctx.cache 0 (b'$' ∷ [])
  c₁ ← write c₀ 1 (0 ∷ [])
  c₂ ← write c₁ 2 ((bit_and (len + 12) 0xff00 / 2 ^ 8) ∷ [])
  c₃ ← write c₂ 3 (bit_and (len + 12) 0xff ∷ [])
  c₄ ← write c₃ 4 (bit_and (rtp_version * 2 ^ 6) 0xff ∷ [])
  c₅ ← write c₄ 5 ((bit_or (bit_and rtp_h264 0x7f) (bit_and mark 1 * 2 ^ 7) % 2 ^ 8) ∷ [])
  (c₆, _) ← load16 c₅ 6 (ctx.seq % 2 ^ 16)
  (c₇, _) ← load32 c₆ 8 ctx.timestamp
  (c₈, _) ← load32 c₇ 12 ctx.ssrc
  payload ← read buf 0 len
  write c₈ 16 payload

-- The payload header in front of the first entry.
unfoldable pub open_packet : RtpMuxContext → ℕ → Option RtpMuxContext
open_packet ctx buffered_size =
    if buffered_size == 0
    then (do
      b₀ ← write ctx.buf 0 ((48 * 2) ∷ [])
      b₁ ← write b₀ 1 (1 ∷ [])
      some (record ctx { buf = b₁; buf_ptr = ctx.buf_ptr + 2 }))
    else some ctx

-- The payload header of a fragmentation unit, and its FU header with the S bit.
unfoldable pub start_headers : Bytes → ℕ → Option Bytes
start_headers buf nalu_type = do
  b₀ ← write buf 0 ((49 * 2) ∷ [])
  b₁ ← write b₀ 1 (1 ∷ [])
  b₂ ← write b₁ 2 (nalu_type ∷ [])
  head ← get_elem? b₂ 2
  write b₂ 2 (bit_or head (1 * 2 ^ 7) ∷ [])

-- The size, the header and the data of one NAL.
unfoldable pub add_entry : RtpMuxContext → Bytes → ℕ → Option RtpMuxContext
add_entry ctx nal size = do
  (b, p) ← load16 ctx.buf ctx.buf_ptr (size % 2 ^ 16)
  unit ← read nal 0 size
  b' ← write b (ctx.buf_ptr + 2) unit
  some (record ctx { buf = b'; buf_ptr = ctx.buf_ptr + 2 + size })

module _ (getpeername : ℕ → Option (ℕ × ℕ)) (str : Streamer) where
  -- The body of the loop over the sessions.
  unfoldable pub send_to : Bytes → ℕ → Session → Option (List Sent)
  send_to cache len session =
      if session.streaming && not session.stopped
      then if session.tcp_transport
        then (do
          frame ← read cache 0 (len + 12 + 4)
          some (tcp_send session.rtsp_client frame ∷ []))
        else (do
          frame ← read cache 4 (len + 12)
          let (otherip, _) = socketpeeraddr getpeername session.rtsp_client
          some (udp_send str.rtp_socket frame otherip session.rtp_client_port ∷ []))
      else some []

  unfoldable pub send_to_all : Bytes → ℕ → List Session → Option (List Sent)
  send_to_all cache len [] = some []
  send_to_all cache len (session ∷ rest) = do
    first ← send_to cache len session
    others ← send_to_all cache len rest
    some (first ++ others)

  -- `CStreamer::rtpSendData`
  unfoldable pub rtp_send_data : Wire → Bytes → ℕ → ℕ → Option Wire
  rtp_send_data w buf len mark = do
    cache ← fill_cache w.mux buf len mark
    out ← send_to_all cache len str.clients
    cleared ← write cache 0 zeros
    some (record {
      mux = record (w.mux) { cache = cleared; buf_ptr = 0; seq = bit_and (w.mux.seq + 1) 0xffff };
      sent = w.sent ++ out;
    })

  -- The buffered data goes out first if the NAL does not fit behind it; with the fill left over.
  unfoldable pub make_room : Wire → ℕ → Option (Wire × ℕ)
  make_room w size =
      let buffered_size = w.mux.buf_ptr in
      if not (buffered_size == 0) && ltb rtp_payload_max (buffered_size + 2 + size)
      then (do w' ← rtp_send_data w w.mux.buf buffered_size 0; some (w', 0))
      else some (w, buffered_size)

  unfoldable pub aggregate : Wire → Bytes → ℕ → ℕ → Option Wire
  aggregate w nal size last = do
    (w₁, buffered_size) ← make_room w size
    opened ← open_packet w₁.mux buffered_size
    added ← add_entry opened nal size
    let w₂ = with_mux w₁ added
    if last == 1 then rtp_send_data w₂ added.buf added.buf_ptr 0 else some w₂

  -- The body of `while (size + header_Size > RTP_PAYLOAD_MAX)`. `nal` is what stands at the pointer.
  unfoldable pub full_fragment : Wire → Bytes → Option Wire
  full_fragment w nal = do
    chunk ← read nal 0 (rtp_payload_max - 3)
    filled ← write w.mux.buf 3 chunk
    w' ← rtp_send_data (with_mux w (record (w.mux) { buf = filled })) filled rtp_payload_max 0
    head ← get_elem? w'.mux.buf 2
    started ← write w'.mux.buf 2 (bit_and head 0x7f ∷ [])
    some (with_mux w' (record (w'.mux) { buf = started }))

  -- What stands behind that loop.
  unfoldable pub final_fragment : Wire → Bytes → ℕ → Option Wire
  final_fragment w nal size = do
    head ← get_elem? w.mux.buf 2
    ended ← write w.mux.buf 2 (bit_or head 0x40 ∷ [])
    chunk ← read nal 0 size
    filled ← write ended 3 chunk
    rtp_send_data (with_mux w (record (w.mux) { buf = filled })) filled (size + 3) 0

  unfoldable pub fragment_loop : ℕ → Wire → Bytes → ℕ → Option Wire
  fragment_loop zero w nal size = none
  fragment_loop (suc k) w nal size =
      let next = λ (w' : Wire).
        fragment_loop k w' (drop (rtp_payload_max - 3) nal) (size - (rtp_payload_max - 3)) in
      if ltb rtp_payload_max (size + 3)
      then full_fragment w nal >>= next
      else final_fragment w nal size

  -- `if (ctx->buf_ptr > ctx->buf)`
  unfoldable pub send_pending : Wire → Option Wire
  send_pending w = if ltb 0 w.mux.buf_ptr then rtp_send_data w w.mux.buf w.mux.buf_ptr 0 else some w

  unfoldable pub fragment : Wire → Bytes → ℕ → Option Wire
  fragment w nal size = do
    w₁ ← send_pending w
    first ← get_elem? nal 0
    started ← start_headers w₁.mux.buf (bit_and (first / 2) 0x3f)
    fragment_loop (size + 1) (with_mux w₁ (record (w₁.mux) { buf = started })) (drop 2 nal)
        (size - 2)

  -- `CStreamer::rtpSendNALH265`
  unfoldable pub rtp_send_nal_h265 : Wire → Bytes → ℕ → ℕ → Option Wire
  rtp_send_nal_h265 w nal size last =
      if leb size rtp_payload_max
      then if not (w.mux.aggregation == 0) && leb (size + 4) rtp_payload_max
        then aggregate w nal size last
        else rtp_send_data w nal size 0
      else fragment w nal size

  -- `SimStreamer::StreamNal` of src/SimStreamer.cpp
  unfoldable pub stream_nal : Wire → Bytes → ℕ → Option Wire
  stream_nal w nal nal_len = rtp_send_nal_h265 w nal nal_len 0
