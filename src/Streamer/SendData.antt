-- ===== src/Streamer/SendData.antt =====
-- src/CStreamer.cpp, `rtpSendData`: to whom a packet goes, and what the context is afterwards.
use rtsp_h.Prelude.{
  ℕ, ◌+◌, ◌%◌, ◌^◌, ◌≤◌, ◌<◌, ◌≡◌, refl, ap, sym, subst, ◌∙◌, not, ◌&&◌, Option, some, List, [],
  ◌∷◌, ◌++◌, append_assoc, append-nil, if◌then◌else◌, Bytes, write, read, over, length-over,
  read-over, read-over_after, length-read, write-over_at, length, length-append, bit_and,
  bit_and_0xffff, arith,
}
use rtsp_h.Mux.{RtpMuxContext}
use rtsp_h.Session.{Session}
use rtsp_h.Streamer.{
  Streamer, Sent, tcp_send, udp_send, Wire, with_mux, socketpeeraddr, send_to, send_to_all,
  rtp_send_data, zeros, length-zeros,
}
use rtsp_h.Streamer.Frame.{rtp_header, interleaved, fill_cache-over}

-- The buffers have their sizes, and the sequence number has 16 bits.
pub record IsReady (ctx : RtpMuxContext) : Type 0 where
  pub cache_size : length ctx.cache ≡ 1416
  pub buf_size : length ctx.buf ≡ 1400
  pub seq_fits : ctx.seq < 2 ^ 16

-- A packet without the marker.
abbrev pub rtp_packet : (seq timestamp ssrc : ℕ) → Bytes → Bytes
rtp_packet seq timestamp ssrc payload = rtp_header 0 seq timestamp ssrc ++ payload

-- Payloads as consecutive packets.
abbrev pub packets : (seq timestamp ssrc : ℕ) → List Bytes → List Bytes
packets seq timestamp ssrc [] = []
packets seq timestamp ssrc (p ∷ ps) =
    rtp_packet seq timestamp ssrc p ∷ packets ((seq + 1) % 2 ^ 16) timestamp ssrc ps

pub packets-append :
    (seq timestamp ssrc : ℕ) (ps qs : List Bytes)
    → seq < 2 ^ 16
    → packets seq timestamp ssrc (ps ++ qs)
      ≡ packets seq timestamp ssrc ps ++ packets ((seq + length ps) % 2 ^ 16) timestamp ssrc qs
packets-append seq timestamp ssrc [] qs h = ap (λ s. packets s timestamp ssrc qs) (omega arith)
packets-append seq timestamp ssrc (p ∷ ps) qs h =
    ap (λ r. rtp_packet seq timestamp ssrc p ∷ r)
      (packets-append ((seq + 1) % 2 ^ 16) timestamp ssrc ps qs (omega arith)
        ∙ ap (λ s. packets ((seq + 1) % 2 ^ 16) timestamp ssrc ps ++ packets s timestamp ssrc qs)
            (omega arith))

module _ (getpeername : ℕ → Option (ℕ × ℕ)) (str : Streamer) where
  -- A playing session that is not stopped gets the packet: on its RTSP socket behind the
  -- interleaved header, or as a datagram to the address of its RTSP peer.
  abbrev pub deliver : Bytes → Session → List Sent
  deliver packet s =
      if s.streaming && not s.stopped
      then if s.tcp_transport
        then tcp_send s.rtsp_client (interleaved (length packet) ++ packet) ∷ []
        else udp_send str.rtp_socket packet (socketpeeraddr getpeername s.rtsp_client).0
            s.rtp_client_port
          ∷ []
      else []

  abbrev deliver_to : List Session → Bytes → List Sent
  deliver_to [] packet = []
  deliver_to (s ∷ rest) packet = deliver packet s ++ deliver_to rest packet

  -- One packet to every session, and packets one after the other.
  abbrev pub broadcast : List Bytes → List Sent
  broadcast [] = []
  broadcast (p ∷ ps) = deliver_to str.clients p ++ broadcast ps

  pub broadcast-append : (ps qs : List Bytes) → broadcast (ps ++ qs) ≡ broadcast ps ++ broadcast qs
  broadcast-append [] qs = refl
  broadcast-append (p ∷ ps) qs =
      rw (broadcast-append ps qs) (sym (append_assoc (deliver_to str.clients p) _ _))

  -- `w'` is `w` after the payloads `ps` went out.
  pub record Sends (w w' : Wire) (ps : List Bytes) : Type 0 where
    pub sent : w'.sent ≡ w.sent ++ broadcast (packets w.mux.seq w.mux.timestamp w.mux.ssrc ps)
    pub ready : IsReady w'.mux
    pub seq : w'.mux.seq ≡ (w.mux.seq + length ps) % 2 ^ 16
    pub timestamp : w'.mux.timestamp ≡ w.mux.timestamp
    pub ssrc : w'.mux.ssrc ≡ w.mux.ssrc
    pub aggregation : w'.mux.aggregation ≡ w.mux.aggregation

  pub Sends-trans :
      {w w' w'' : Wire} (ps qs : List Bytes)
      → w.mux.seq < 2 ^ 16
      → Sends w w' ps
      → Sends w' w'' qs
      → Sends w w'' (ps ++ qs)
  Sends-trans {w} ps qs h a b = record {
    sent =
        b.sent
        ∙ rw
            (
              a.sent,
              a.seq,
              a.timestamp,
              a.ssrc,
              packets-append w.mux.seq w.mux.timestamp w.mux.ssrc ps qs h,
            )
            (rw
              (broadcast-append (packets w.mux.seq w.mux.timestamp w.mux.ssrc ps)
                (packets ((w.mux.seq + length ps) % 2 ^ 16) w.mux.timestamp w.mux.ssrc qs))
              (append_assoc w.sent _ _));
    ready = b.ready;
    seq = omega (arith, a.seq, b.seq, length-append ps qs);
    timestamp = b.timestamp ∙ a.timestamp;
    ssrc = b.ssrc ∙ a.ssrc;
    aggregation = b.aggregation ∙ a.aggregation;
  }

  pub Sends-nil : {w : Wire} → IsReady w.mux → Sends w w []
  Sends-nil {w} ready = record {
    sent = sym (append-nil w.sent);
    ready = ready;
    seq = omega (arith, ready.seq_fits);
    timestamp = refl;
    ssrc = refl;
    aggregation = refl;
  }

  -- The payload buffer is of no account to what was sent.
  pub Sends-from :
      {w w' : Wire} {ps : List Bytes} (b : Bytes) (p : ℕ)
      → Sends (with_mux w (record (w.mux) { buf = b; buf_ptr = p })) w' ps
      → Sends w w' ps
  Sends-from b p s = record {
    sent = s.sent;
    ready = s.ready;
    seq = s.seq;
    timestamp = s.timestamp;
    ssrc = s.ssrc;
    aggregation = s.aggregation;
  }

  pub Sends-to :
      {w w' : Wire} {ps : List Bytes} (b : Bytes) (p : ℕ)
      → length b ≡ 1400
      → Sends w w' ps
      → Sends w (with_mux w' (record (w'.mux) { buf = b; buf_ptr = p })) ps
  Sends-to b p size s = record {
    sent = s.sent;
    ready = record {
      cache_size = s.ready.cache_size;
      buf_size = size;
      seq_fits = s.ready.seq_fits;
    };
    seq = s.seq;
    timestamp = s.timestamp;
    ssrc = s.ssrc;
    aggregation = s.aggregation;
  }

  module _ (packet cache : Bytes) (len : ℕ) (size : length packet ≡ len + 12)
      (room : len + 16 ≤ length cache) where
    abbrev filled : Bytes
    filled = over (interleaved (len + 12) ++ packet) cache

    send_to-deliver : (s : Session) → send_to getpeername str filled len s ≡ some (deliver packet s)
    unfolding send_to
    send_to-deliver s =
        let n : ℕ = len + 12 in
        let whole : read filled 0 (len + 12 + 4) ≡ some (interleaved (len + 12) ++ packet) =
          subst (λ k. read filled 0 k ≡ some (interleaved n ++ packet)) (omega arith)
            (read-over (interleaved n ++ packet) cache (omega arith)) in
        let front : read filled 4 (len + 12) ≡ some packet =
          subst (λ k. read filled 4 k ≡ some packet) size
            (read-over_after (interleaved n) packet cache (omega arith)) in
        rw (whole, front, size) (ground arith)

    pub send_to_all-deliver :
        (ss : List Session)
        → send_to_all getpeername str filled len ss ≡ some (deliver_to ss packet)
    unfolding send_to_all
    send_to_all-deliver [] = refl
    send_to_all-deliver (s ∷ ss) = rw (send_to-deliver s, send_to_all-deliver ss) refl

  -- A payload of at most 1400 bytes always goes out, as one packet, and the context is ready for
  -- the next one.
  pub rtp_send_data-Sends :
      (w : Wire) (buf payload : Bytes) (len : ℕ)
      → IsReady w.mux
      → len ≤ 1400
      → read buf 0 len ≡ some payload
      → (w' : Wire) × (rtp_send_data getpeername str w buf len 0 ≡ some w')
        × (Sends w w' (payload ∷ []))
        × (w'.mux.buf ≡ w.mux.buf)
        × (w'.mux.buf_ptr ≡ 0)
  unfolding rtp_send_data
  rtp_send_data-Sends w buf payload len ready small got =
      let size : length payload ≡ len = length-read buf 0 len got in
      let room : len + 16 ≤ length w.mux.cache = omega (arith, ready.cache_size) in
      let packet : Bytes = rtp_packet w.mux.seq w.mux.timestamp w.mux.ssrc payload in
      let full : Bytes = over (interleaved (len + 12) ++ packet) w.mux.cache in
      let kept : length full ≡ 1416 =
        length-over (interleaved (len + 12) ++ packet) w.mux.cache (omega arith)
        ∙ ready.cache_size in
      let cleared : write full 0 zeros ≡ some (over zeros full) =
        write-over_at [] full zeros 0 refl (omega (arith, length-zeros, kept)) in
      let after : Wire = record {
        mux = record (w.mux) {
          cache = over zeros full;
          buf_ptr = 0;
          seq = bit_and (w.mux.seq + 1) 0xffff;
        };
        sent = w.sent ++ deliver_to str.clients packet;
      } in
      let next : after.mux.seq ≡ (w.mux.seq + 1) % 2 ^ 16 = bit_and_0xffff (w.mux.seq + 1) in
      (
        after,
        rw
            (
              fill_cache-over w.mux buf payload len 0 ready.cache_size ready.seq_fits small
                  (omega arith) got size,
              send_to_all-deliver packet w.mux.cache len (omega arith) room str.clients,
              cleared,
            )
            refl,
        record {
          sent = ap (λ r. w.sent ++ r) (sym (append-nil (deliver_to str.clients packet)));
          ready = record {
            cache_size = length-over zeros full (omega (arith, length-zeros, kept)) ∙ kept;
            buf_size = ready.buf_size;
            seq_fits = omega (arith, next);
          };
          seq = next;
          timestamp = refl;
          ssrc = refl;
          aggregation = refl;
        },
        refl,
        refl,
      )
