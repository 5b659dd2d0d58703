-- ===== src/RtpEnc/Delivery.antt =====
-- src/RTPEnc.cpp, `rtpSendH264AVC` and `rtpSendH265HEVC`: a whole stream in the byte stream format.
use rtsp_h.Prelude.{
  ℕ, ◌+◌, ◌<◌, ◌≤◌, ◌≡◌, ◌≢◌, ◌⊎◌, refl, sym, subst, ◌∙◌, ap, some, List, [], ◌∷◌, ◌++◌, Bytes,
  IsBytes, length, length-append, pos, arith,
}
use rtsp_h.Network.{UdpContext, Net}
use rtsp_h.Receiver.{fresh, receive, receive_all}
use rtsp_h.Receiver.H264.{receive_h264, take_in, take_in-receive_all}
use rtsp_h.Sim.AnnexB.{annex_b, IsEscaped}
use rtsp_h.Sim.Select.{find_startcode-here}
use rtsp_h.Streamer.Delivery.{IsUnit}
use rtsp_h.Streamer.Reassembly.{AllFit}
use rtsp_h.Streamer.SendData.{IsReady}
use rtsp_h.RtpEnc.{Sender, send_nal_h264, send_nal_h265, send_h264, send_h265}
use rtsp_h.RtpEnc.Avc.{IsAvcUnit, send_nal_h264-Keeps}
use rtsp_h.RtpEnc.Hevc.{send_nal_h265-Keeps}
use rtsp_h.RtpEnc.Fragments.{payloads}
use rtsp_h.RtpEnc.Loop.{All, Timed, flat, Follows-annex_b, stream_loop-Streams}
use rtsp_h.RtpEnc.Nal.{Keeps}
use rtsp_h.RtpEnc.Post.{Packet, datagrams}
use rtsp_h.RtpEnc.Rounds.{Marks}
use rtsp_h.RtpEnc.Waiting.{stored, Holds, Holds-nil}

-- What H.264 can carry: with aggregation on, no unit of 1398 to 1400 bytes.
abbrev pub MayAvc : ℕ → Bytes → Type 0
MayAvc aggregation u = IsAvcUnit u × ((aggregation ≡ 0) ⊎ (length u ≤ 1397) ⊎ (1400 < length u))

abbrev MayHevc : ℕ → Bytes → Type 0
MayHevc aggregation u = (aggregation ≡ 0) × IsUnit u

All-MayHevc : (us : List Bytes) {a : ℕ} → a ≡ 0 → All IsUnit us → All (MayHevc a) us
All-MayHevc [] off h = tt
All-MayHevc (u ∷ us) off h = ((off, h.0), All-MayHevc us off h.1)

length-annex_b : (us : List Bytes) → length us ≤ length (annex_b us)
length-annex_b [] = omega arith
length-annex_b (u ∷ us) = omega (arith, length-annex_b us, length-append u (annex_b us))

module _ (net : Net) (udp : UdpContext) where
  call_hevc :
      (w : Sender) (held : List Bytes) (u more : Bytes) (last : ℕ)
      → IsReady w.mux
      → Holds w.mux held
      → (w.mux.aggregation ≡ 0 → held ≡ [])
      → MayHevc w.mux.aggregation u
      → last < 2
      → Keeps udp receive w held (u ∷ []) last (send_nal_h265 net udp w (u ++ more) (length u) last)
  call_hevc w held u more last ready h calm (off, unit) m =
      let none : held ≡ [] = calm off in
      let empty : w.mux.buf_ptr ≡ 0 = h.fill ∙ ap (λ l. length (stored l)) none in
      subst
        (λ l.
          Keeps udp receive w l (u ∷ []) last (send_nal_h265 net udp w (u ++ more) (length u) last))
        (sym none) (send_nal_h265-Keeps net udp w u more last ready empty off unit m)

  -- A stream of H.264 in the format of annex B with start codes of four bytes, with aggregation on or
  -- off and nothing waiting at first, none of whose units has 1398 to 1400 bytes if aggregation is on.
  -- The call returns; it sends datagrams to the peer with consecutive sequence numbers, of at most
  -- 1400 bytes of payload each, of which only the last one has the marker; there is a group of them
  -- for each unit, with one timestamp, 3600 above that of the group before; and a receiver by RFC
  -- 6184 gets exactly the units of the stream.
  pub send_h264-delivers :
      (addr : ℕ) (us : List Bytes) (w : Sender)
      → us ≢ []
      → IsBytes (annex_b us)
      → All IsEscaped us
      → All (MayAvc w.mux.aggregation) us
      → IsReady w.mux
      → w.mux.buf_ptr ≡ 0
      → (w' : Sender) × (groups : List (List Packet)) × (send_h264 net addr
            (some udp)
            w
            (some (annex_b us))
            (pos (length (annex_b us)))
          ≡ some w')
        × (w'.sent ≡ w.sent ++ datagrams udp w.mux.seq w.mux.ssrc (flat groups))
        × (AllFit (payloads (flat groups)))
        × (Marks 1 (flat groups))
        × (length groups ≡ length us)
        × (Timed 3600 w.mux.timestamp groups)
        × ((take_in receive_h264 fresh (payloads (flat groups))).units ≡ us)
  unfolding send_h264
  send_h264-delivers addr [] w some_unit bytes escaped may ready empty = absurd (some_unit refl)
  send_h264-delivers addr (u ∷ us) w some_unit bytes escaped may ready empty =
      let mem : Bytes = annex_b (u ∷ us) in
      let here =
        find_startcode-here mem addr bytes 0 u (annex_b us) refl escaped.0
          (Follows-annex_b us escaped.1) in
      let s =
        stream_loop-Streams udp receive_h264 (send_nal_h264 net udp) 3600 mem addr bytes MayAvc
          (λ v held x more last rd h off m lt.
            send_nal_h264-Keeps net udp v held x more last rd h m.0 lt off m.1)
          us (length mem + 1) 0 w [] u refl escaped may ready (Holds-nil w.mux ready.buf_size empty)
          (λ _. refl) (omega (arith, length-annex_b us, length-append u (annex_b us))) in
      (
        s.after,
        s.groups,
        rw here (s.returns),
        s.sent,
        s.fits,
        s.marks,
        s.count,
        s.timed,
        s.means fresh,
      )

  -- The same for a stream of H.265, of units of layer 0 and temporal id 1, with aggregation off: the
  -- timestamps are 3000 apart, and the receiver is one by RFC 7798.
  pub send_h265-delivers :
      (addr : ℕ) (us : List Bytes) (w : Sender)
      → us ≢ []
      → IsBytes (annex_b us)
      → All IsEscaped us
      → All IsUnit us
      → w.mux.aggregation ≡ 0
      → IsReady w.mux
      → w.mux.buf_ptr ≡ 0
      → (w' : Sender) × (groups : List (List Packet)) × (send_h265 net addr
            (some udp)
            w
            (some (annex_b us))
            (pos (length (annex_b us)))
          ≡ some w')
        × (w'.sent ≡ w.sent ++ datagrams udp w.mux.seq w.mux.ssrc (flat groups))
        × (AllFit (payloads (flat groups)))
        × (Marks 1 (flat groups))
        × (length groups ≡ length us)
        × (Timed 3000 w.mux.timestamp groups)
        × ((receive_all fresh (payloads (flat groups))).units ≡ us)
  unfolding send_h265
  send_h265-delivers addr [] w some_unit bytes escaped units off ready empty =
      absurd (some_unit refl)
  send_h265-delivers addr (u ∷ us) w some_unit bytes escaped units off ready empty =
      let mem : Bytes = annex_b (u ∷ us) in
      let here =
        find_startcode-here mem addr bytes 0 u (annex_b us) refl escaped.0
          (Follows-annex_b us escaped.1) in
      let s =
        stream_loop-Streams udp receive (send_nal_h265 net udp) 3000 mem addr bytes MayHevc
          call_hevc us (length mem + 1) 0 w [] u refl escaped (All-MayHevc (u ∷ us) off units) ready
          (Holds-nil w.mux ready.buf_size empty) (λ _. refl)
          (omega (arith, length-annex_b us, length-append u (annex_b us))) in
      (
        s.after,
        s.groups,
        rw here (s.returns),
        s.sent,
        s.fits,
        s.marks,
        s.count,
        s.timed,
        ap (λ q. q.units) (sym (take_in-receive_all fresh (payloads (flat s.groups))))
            ∙ s.means fresh,
      )
