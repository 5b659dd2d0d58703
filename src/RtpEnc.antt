-- ===== src/RtpEnc.antt =====
-- src/RTPEnc.cpp: the senders of a whole H.264 or H.265 stream to one peer over UDP. The bytes at a
-- pointer are the rest of the memory from there; `gUdpContext` is the argument `udp`. A memory access
-- out of bounds, and a negative length that goes to `memcpy`, is a fault, `none`.
pub mod Post
pub mod Fragments
pub mod Rounds
pub mod Stap
pub mod Waiting
pub mod Nal
pub mod Gather
pub mod Avc
pub mod Hevc
pub mod Overflow
pub mod Loop
pub mod Delivery
use rtsp_h.Prelude.{
  ℕ, zero, suc, ◌+◌, ◌-◌, ◌*◌, ◌/◌, ◌%◌, ◌^◌, bit_and, bit_or, Bool, Option, none, some, List, [],
  ◌∷◌, ◌++◌, ltb, leb, ◌==◌, if◌then◌else◌, ◌>>=◌, Bytes, write, read, get_elem?, length, drop, ℤ,
  pos,
}
use rtsp_h.Utils.{load16, load32}
use rtsp_h.Avc.{find_startcode}
use rtsp_h.Mux.{rtp_payload_max, rtp_version, rtp_h264, RtpMuxContext}
use rtsp_h.Network.{UdpContext, Datagram, Net, udp_send}
use rtsp_h.Sim.{skip_startcode}
use rtsp_h.Streamer.{zeros, add_entry}

-- The packet context and the datagrams so far.
pub record Sender : Type 0 where
  pub mux : RtpMuxContext
  pub sent : List Datagram

abbrev pub put_mux : Sender → RtpMuxContext → Sender
put_mux w ctx = record w { mux = ctx }

-- The RTP header at the start of the cache, and the payload behind it.
unfoldable pub fill_datagram : RtpMuxContext → Bytes → ℕ → ℕ → Option Bytes
fill_datagram ctx buf len mark = do
  c₀ ← write ctx.cache 0 (bit_and (rtp_version * 2 ^ 6) 0xff ∷ [])
  c₁ ← write c₀ 1 ((bit_or (bit_and rtp_h264 0x7f) (bit_and mark 1 * 2 ^ 7) % 2 ^ 8) ∷ [])
  (c₂, _) ← load16 c₁ 2 (ctx.seq % 2 ^ 16)
  (c₃, _) ← load32 c₂ 4 ctx.timestamp
  (c₄, _) ← load32 c₃ 8 ctx.ssrc
  payload ← read buf 0 len
  write c₄ 12 payload

-- The NAL header of an aggregation packet takes over the greater NRI of `first`.
abbrev pub raise_nri : ℕ → ℕ → ℕ
raise_nri head first =
    if ltb (bit_and head 0x60) (bit_and first 0x60)
    then bit_or (bit_and head 0x9F) (bit_and first 0x60)
    else head

-- The header is begun or its NRI is raised, and its F bit is set if the unit has it.
unfoldable pub stap_header : RtpMuxContext → ℕ → ℕ → Option RtpMuxContext
stap_header ctx buffered_size first =
    if buffered_size == 0
    then (do
      b ← write ctx.buf ctx.buf_ptr ((bit_or 24 (bit_and first 0x60) % 2 ^ 8) ∷ [])
      head ← get_elem? b 0
      b' ← write b 0 (bit_or head (bit_and first 0x80) ∷ [])
      some (record ctx { buf = b'; buf_ptr = ctx.buf_ptr + 1 }))
    else (do
      head ← get_elem? ctx.buf 0
      b ← write ctx.buf 0 (raise_nri head first ∷ [])
      raised ← get_elem? b 0
      b' ← write b 0 (bit_or raised (bit_and first 0x80) ∷ [])
      some (record ctx { buf = b' }))

-- What `fragment_loop` begins with: the headers of the first fragment, of two bytes for H.264 and of
-- three for H.265, the last of them with the S bit.
unfoldable pub avc_headers : Bytes → ℕ → Option Bytes
avc_headers buf first = do
  b₀ ← write buf 0 (28 ∷ [])
  indicator ← get_elem? b₀ 0
  b₁ ← write b₀ 0 (bit_or indicator (bit_and first 0x60) ∷ [])
  b₂ ← write b₁ 1 (bit_and first 0x1F ∷ [])
  head ← get_elem? b₂ 1
  write b₂ 1 (bit_or head (1 * 2 ^ 7) ∷ [])

unfoldable pub hevc_headers : Bytes → ℕ → Option Bytes
hevc_headers buf nalu_type = do
  b₀ ← write buf 0 ((49 * 2) ∷ [])
  b₁ ← write b₀ 1 (1 ∷ [])
  b₂ ← write b₁ 2 (nalu_type ∷ [])
  head ← get_elem? b₂ 2
  write b₂ 2 (bit_or head (1 * 2 ^ 7) ∷ [])

module _ (net : Net) (udp : UdpContext) where
  -- `rtpSendData`: what `udpSend` returns is of no account.
  unfoldable pub send_data : Sender → Bytes → ℕ → ℕ → Option Sender
  send_data w buf len mark = do
    cache ← fill_datagram w.mux buf len mark
    (_, datagram) ← udp_send net udp cache (len + 12)
    cleared ← write cache 0 zeros
    some (record {
      mux = record (w.mux) { cache = cleared; buf_ptr = 0; seq = bit_and (w.mux.seq + 1) 0xffff };
      sent = w.sent ++ datagram ∷ [];
    })

  -- `if (buffered_size + … + size > RTP_PAYLOAD_MAX)`, with `extra` bytes besides: 2 for H.264, 4 for
  -- H.265. The fill that is left goes with it.
  unfoldable pub clear_space : ℕ → Sender → ℕ → Option (Sender × ℕ)
  clear_space extra w size =
      if ltb rtp_payload_max (w.mux.buf_ptr + extra + size)
      then (do w' ← send_data w w.mux.buf w.mux.buf_ptr 0; some (w', 0))
      else some (w, w.mux.buf_ptr)

  -- The branch for aggregation packets, which is the same for both codecs but for `extra`.
  unfoldable pub gather : ℕ → Sender → Bytes → ℕ → ℕ → Option Sender
  gather extra w nal size last = do
    first ← get_elem? nal 0
    (w₁, buffered_size) ← clear_space extra w size
    opened ← stap_header w₁.mux buffered_size first
    added ← add_entry opened nal size
    let w₂ = put_mux w₁ added
    if last == 1 then send_data w₂ added.buf added.buf_ptr 1 else some w₂

  -- The loop over the fragments and the last of them, with a header of `hs + 1` bytes; `nal` is what
  -- stands at the pointer.
  unfoldable pub whole_fragment : ℕ → Sender → Bytes → Option Sender
  whole_fragment hs w nal = do
    chunk ← read nal 0 (rtp_payload_max - (hs + 1))
    filled ← write w.mux.buf (hs + 1) chunk
    w' ← send_data (put_mux w (record (w.mux) { buf = filled })) filled rtp_payload_max 0
    head ← get_elem? w'.mux.buf hs
    started ← write w'.mux.buf hs (bit_and head 0x7f ∷ [])
    some (put_mux w' (record (w'.mux) { buf = started }))

  unfoldable pub end_fragment : ℕ → Sender → Bytes → ℕ → ℕ → Option Sender
  end_fragment hs w nal size last = do
    head ← get_elem? w.mux.buf hs
    ended ← write w.mux.buf hs (bit_or head 0x40 ∷ [])
    chunk ← read nal 0 size
    filled ← write ended (hs + 1) chunk
    send_data (put_mux w (record (w.mux) { buf = filled })) filled (size + (hs + 1)) last

  unfoldable pub fragments : ℕ → ℕ → Sender → Bytes → ℕ → ℕ → Option Sender
  fragments hs zero w nal size last = none
  fragments hs (suc k) w nal size last =
      let next = λ (w' : Sender).
        fragments hs k w' (drop (rtp_payload_max - (hs + 1)) nal)
          (size - (rtp_payload_max - (hs + 1))) last in
      if ltb rtp_payload_max (size + (hs + 1))
      then whole_fragment hs w nal >>= next
      else end_fragment hs w nal size last

  -- `if (ctx->buf_ptr > ctx->buf)`
  unfoldable pub send_waiting : Sender → Option Sender
  send_waiting w = if ltb 0 w.mux.buf_ptr then send_data w w.mux.buf w.mux.buf_ptr 0 else some w

  unfoldable pub fragment_avc : Sender → Bytes → ℕ → ℕ → Option Sender
  fragment_avc w nal size last = do
    w₁ ← send_waiting w
    first ← get_elem? nal 0
    started ← avc_headers w₁.mux.buf first
    fragments 1 (size + 1) (put_mux w₁ (record (w₁.mux) { buf = started })) (drop 1 nal) (size - 1)
        last

  unfoldable pub fragment_hevc : Sender → Bytes → ℕ → ℕ → Option Sender
  fragment_hevc w nal size last = do
    w₁ ← send_waiting w
    first ← get_elem? nal 0
    started ← hevc_headers w₁.mux.buf (bit_and (first / 2) 0x3f)
    fragments 2 (size + 1) (put_mux w₁ (record (w₁.mux) { buf = started })) (drop 2 nal) (size - 2)
        last

  -- `rtpSendNALH264AVC`
  unfoldable pub send_nal_h264 : Sender → Bytes → ℕ → ℕ → Option Sender
  send_nal_h264 w nal size last =
      if leb size rtp_payload_max
      then if w.mux.aggregation == 0 then send_data w nal size last else gather 2 w nal size last
      else fragment_avc w nal size last

  -- `rtpSendNALH265`
  unfoldable pub send_nal_h265 : Sender → Bytes → ℕ → ℕ → Option Sender
  send_nal_h265 w nal size last =
      if leb size rtp_payload_max
      then if w.mux.aggregation == 0 then send_data w nal size last else gather 4 w nal size last
      else fragment_hevc w nal size last

-- `ctx->timestamp += …`, a conversion from double that is undefined from 2 ^ 32 on and wraps here, as
-- one by way of 64 bits does.
abbrev pub advance_by : ℕ → Sender → Sender
advance_by step w = put_mux w (record (w.mux) { timestamp = (w.mux.timestamp + step) % 2 ^ 32 })

-- The loop over the units of a stream, with the sender of a unit and the step of the timestamp.
unfoldable pub stream_loop :
    (Sender → Bytes → ℕ → ℕ → Option Sender) → ℕ → Bytes → ℕ → ℕ → ℕ → ℕ → Sender → Option Sender
stream_loop send_nal step mem addr end zero r w = none
stream_loop send_nal step mem addr end (suc k) r w =
    let next = do
      r' ← skip_startcode mem (length mem + 1) r
      r₁ ← find_startcode mem addr r' end
      w' ←
          if ltb r₁ r'
          then none
          else send_nal w (drop r' mem) (r₁ - r') (if r₁ == end then 1 else 0)
      stream_loop send_nal step mem addr end k r₁ (advance_by step w')
    in if ltb r end then next else some w

-- `rtpSendH264AVC` and `rtpSendH265HEVC` for a context; another null pointer is `none`. A round of
-- the loop goes on by a byte at least. 90000.0 / 25 and 90000.0 / 30 are exact.
unfoldable pub send_h264 : Net → ℕ → Option UdpContext → Sender → Option Bytes → ℤ → Option Sender
send_h264 net addr (some udp) w (some mem) (pos (suc n)) = do
  r ← find_startcode mem addr 0 (suc n)
  stream_loop (send_nal_h264 net udp) 3600 mem addr (suc n) (suc n + 1) r w
send_h264 net addr _ w _ _ = some w

unfoldable pub send_h265 : Net → ℕ → Option UdpContext → Sender → Option Bytes → ℤ → Option Sender
send_h265 net addr (some udp) w (some mem) (pos (suc n)) = do
  r ← find_startcode mem addr 0 (suc n)
  stream_loop (send_nal_h265 net udp) 3000 mem addr (suc n) (suc n + 1) r w
send_h265 net addr _ w _ _ = some w
