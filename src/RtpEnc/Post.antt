-- ===== src/RtpEnc/Post.antt =====
-- src/RTPEnc.cpp, `rtpSendData`: what stands in the datagram, and what the context is afterwards.
use rtsp_h.Prelude.{
  ℕ, ◌+◌, ◌*◌, ◌%◌, ◌^◌, ◌≤◌, ◌<◌, ◌≡◌, refl, ap, sym, subst, ◌∙◌, some, List, [], ◌∷◌, ◌++◌,
  append_assoc, append-nil, Bytes, write, read, over, length-over, read-over, length-read,
  write-over_at, length, length-append, bit_and, bit_and_0xffff, arith,
}
use rtsp_h.Utils.Stores.{be16, be32, load16-over, load32-over}
use rtsp_h.Mux.{RtpMuxContext}
use rtsp_h.Network.{UdpContext, Datagram, Net, to_peer, udp_send}
use rtsp_h.Streamer.{zeros, length-zeros}
use rtsp_h.Streamer.Frame.{rtp_header, marker}
use rtsp_h.Streamer.SendData.{IsReady}
use rtsp_h.RtpEnc.{Sender, put_mux, fill_datagram, send_data}

-- A payload with the marker and the timestamp that it is sent with.
pub record Packet : Type 0 where
  pub mark : ℕ
  pub timestamp : ℕ
  pub payload : Bytes

-- Packets with consecutive sequence numbers, as datagrams to the peer.
abbrev pub datagrams : UdpContext → (seq ssrc : ℕ) → List Packet → List Datagram
datagrams udp seq ssrc [] = []
datagrams udp seq ssrc (p ∷ ps) =
    to_peer udp (rtp_header p.mark seq p.timestamp ssrc ++ p.payload)
    ∷ datagrams udp ((seq + 1) % 2 ^ 16) ssrc ps

pub datagrams-append :
    (udp : UdpContext) (seq ssrc : ℕ) (ps qs : List Packet)
    → seq < 2 ^ 16
    → datagrams udp seq ssrc (ps ++ qs)
      ≡ datagrams udp seq ssrc ps ++ datagrams udp ((seq + length ps) % 2 ^ 16) ssrc qs
datagrams-append udp seq ssrc [] qs h = ap (λ s. datagrams udp s ssrc qs) (omega arith)
datagrams-append udp seq ssrc (p ∷ ps) qs h =
    ap (λ r. to_peer udp (rtp_header p.mark seq p.timestamp ssrc ++ p.payload) ∷ r)
      (datagrams-append udp ((seq + 1) % 2 ^ 16) ssrc ps qs (omega arith)
        ∙ ap (λ s. datagrams udp ((seq + 1) % 2 ^ 16) ssrc ps ++ datagrams udp s ssrc qs)
            (omega arith))

-- The cache begins with the packet, and behind it stands what stood there before.
fill_datagram-over :
    (ctx : RtpMuxContext) (buf payload : Bytes) (len mark : ℕ)
    → length ctx.cache ≡ 1416
    → ctx.seq < 2 ^ 16
    → len ≤ 1400
    → mark < 2
    → read buf 0 len ≡ some payload
    → length payload ≡ len
    → fill_datagram ctx buf len mark
      ≡ some (over (rtp_header mark ctx.seq ctx.timestamp ctx.ssrc ++ payload) ctx.cache)
unfolding fill_datagram
fill_datagram-over ctx buf payload len mark full seq small m got size =
    let c = ctx.cache in
    let fits : ctx.seq % 2 ^ 16 ≡ ctx.seq = omega arith in
    let h₁ : Bytes = 128 ∷ (96 + mark * 128) ∷ [] in
    let h₂ = h₁ ++ be16 ctx.seq in
    let h₃ = h₂ ++ be32 ctx.timestamp in
    let h₄ = h₃ ++ be32 ctx.ssrc in
    rw (marker mark m, fits)
      (rw (write-over_at [] c (128 ∷ []) 0 refl (omega arith)) (
        rw (write-over_at (128 ∷ []) c ((96 + mark * 128) ∷ []) 1 refl (omega arith)) (
          rw
            (
              load16-over h₁ c 2 ctx.seq refl (omega arith),
              load32-over h₂ c 4 ctx.timestamp refl (omega arith),
              load32-over h₃ c 8 ctx.ssrc refl (omega arith),
              got,
            )
            (write-over_at h₄ c payload 12 refl (omega arith)))))

-- Every packet carries this timestamp.
abbrev pub Stamped : ℕ → List Packet → Type 0
Stamped ts [] = Unit
Stamped ts (p ∷ ps) = (p.timestamp ≡ ts) × Stamped ts ps

Stamped-append :
    (ts : ℕ) (ps qs : List Packet) → Stamped ts ps → Stamped ts qs → Stamped ts (ps ++ qs)
Stamped-append ts [] qs h k = k
Stamped-append ts (p ∷ ps) qs h k = (h.0, Stamped-append ts ps qs h.1 k)

module _ (udp : UdpContext) where
  -- `w'` is `w` after the packets `ps` went out, each with the timestamp of `w`.
  pub record Posts (w w' : Sender) (ps : List Packet) : Type 0 where
    pub sent : w'.sent ≡ w.sent ++ datagrams udp w.mux.seq w.mux.ssrc ps
    pub ready : IsReady w'.mux
    pub seq : w'.mux.seq ≡ (w.mux.seq + length ps) % 2 ^ 16
    pub timestamp : w'.mux.timestamp ≡ w.mux.timestamp
    pub ssrc : w'.mux.ssrc ≡ w.mux.ssrc
    pub aggregation : w'.mux.aggregation ≡ w.mux.aggregation
    pub stamped : Stamped w.mux.timestamp ps

  pub Posts-trans :
      {w w' w'' : Sender} (ps qs : List Packet)
      → w.mux.seq < 2 ^ 16
      → Posts w w' ps
      → Posts w' w'' qs
      → Posts w w'' (ps ++ qs)
  Posts-trans {w} ps qs h a b = record {
    sent =
        b.sent
        ∙ rw (a.sent, a.seq, a.ssrc, datagrams-append udp w.mux.seq w.mux.ssrc ps qs h)
            (append_assoc w.sent _ _);
    ready = b.ready;
    seq = omega (arith, a.seq, b.seq, length-append ps qs);
    timestamp = b.timestamp ∙ a.timestamp;
    ssrc = b.ssrc ∙ a.ssrc;
    aggregation = b.aggregation ∙ a.aggregation;
    stamped =
        Stamped-append w.mux.timestamp ps qs a.stamped
          (subst (λ t. Stamped t qs) a.timestamp b.stamped);
  }

  pub Posts-nil : {w : Sender} → IsReady w.mux → Posts w w []
  Posts-nil {w} ready = record {
    sent = sym (append-nil w.sent);
    ready = ready;
    seq = omega (arith, ready.seq_fits);
    timestamp = refl;
    ssrc = refl;
    aggregation = refl;
    stamped = tt;
  }

  -- The payload buffer is of no account to what was sent.
  pub Posts-from :
      {w w' : Sender} {ps : List Packet} (b : Bytes) (p : ℕ)
      → Posts (put_mux w (record (w.mux) { buf = b; buf_ptr = p })) w' ps
      → Posts w w' ps
  Posts-from b p s = record {
    sent = s.sent;
    ready = s.ready;
    seq = s.seq;
    timestamp = s.timestamp;
    ssrc = s.ssrc;
    aggregation = s.aggregation;
    stamped = s.stamped;
  }

  pub Posts-to :
      {w w' : Sender} {ps : List Packet} (b : Bytes) (p : ℕ)
      → length b ≡ 1400
      → Posts w w' ps
      → Posts w (put_mux w' (record (w'.mux) { buf = b; buf_ptr = p })) ps
  Posts-to b p size s = record {
    sent = s.sent;
    ready = record {
      cache_size = s.ready.cache_size;
      buf_size = size;
      seq_fits = s.ready.seq_fits;
    };
    seq = s.seq;
    timestamp = s.timestamp;
    ssrc = s.ssrc;
    aggregation = s.aggregation;
    stamped = s.stamped;
  }

  abbrev pub packet : Sender → ℕ → Bytes → Packet
  packet w mark payload = record { mark = mark; timestamp = w.mux.timestamp; payload = payload }

  -- A payload of at most 1400 bytes goes out as one datagram, whatever `sendto` answers.
  pub send_data-Posts :
      (net : Net) (w : Sender) (buf payload : Bytes) (len mark : ℕ)
      → IsReady w.mux
      → len ≤ 1400
      → mark < 2
      → read buf 0 len ≡ some payload
      → (w' : Sender) × (send_data net udp w buf len mark ≡ some w')
        × (Posts w w' (packet w mark payload ∷ []))
        × (w'.mux.buf ≡ w.mux.buf)
        × (w'.mux.buf_ptr ≡ 0)
  unfolding send_data udp_send
  send_data-Posts net w buf payload len mark ready small m got =
      let size : length payload ≡ len = length-read buf 0 len got in
      let frame : Bytes = rtp_header mark w.mux.seq w.mux.timestamp w.mux.ssrc ++ payload in
      let full : Bytes = over frame w.mux.cache in
      let kept : length full ≡ 1416 =
        length-over frame w.mux.cache (omega (arith, ready.cache_size)) ∙ ready.cache_size in
      let whole : read full 0 (len + 12) ≡ some frame =
        subst (λ k. read full 0 k ≡ some frame) (omega arith)
          (read-over frame w.mux.cache (omega (arith, ready.cache_size))) in
      let cleared : write full 0 zeros ≡ some (over zeros full) =
        write-over_at [] full zeros 0 refl (omega (arith, length-zeros, kept)) in
      let after : Sender = record {
        mux = record (w.mux) {
          cache = over zeros full;
          buf_ptr = 0;
          seq = bit_and (w.mux.seq + 1) 0xffff;
        };
        sent = w.sent ++ to_peer udp frame ∷ [];
      } in
      let next : after.mux.seq ≡ (w.mux.seq + 1) % 2 ^ 16 = bit_and_0xffff (w.mux.seq + 1) in
      (
        after,
        rw
            (fill_datagram-over w.mux buf payload len mark ready.cache_size ready.seq_fits small m
              got size)
            (rw whole (rw cleared refl)),
        record {
          sent = refl;
          ready = record {
            cache_size = length-over zeros full (omega (arith, length-zeros, kept)) ∙ kept;
            buf_size = ready.buf_size;
            seq_fits = omega (arith, next);
          };
          seq = next;
          timestamp = refl;
          ssrc = refl;
          aggregation = refl;
          stamped = (refl, tt);
        },
        refl,
        refl,
      )
