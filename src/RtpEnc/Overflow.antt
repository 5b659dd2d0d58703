-- ===== src/RtpEnc/Overflow.antt =====
-- src/RTPEnc.cpp, aggregation packets: units that `RTP_PAYLOAD_MAX` lets through and that the buffer
-- has no room for.
use rtsp_h.Prelude.{
  ℕ, ◌+◌, ◌%◌, ◌^◌, ◌≤◌, ◌<◌, ◌≡◌, ◌≢◌, refl, ap, ◌∙◌, inl, inr, true, false, none, some, [], ◌∷◌,
  ◌++◌, ltb, le→leb, leb, ◌==◌, Bool-cases, Bytes, write, read, over, length-over, read-all, length,
  get_elem?, get_elem?-get_or, arith,
}
use rtsp_h.Avc.FirstCode.{at}
use rtsp_h.Utils.Stores.{be16, load16-over}
use rtsp_h.Mux.{RtpMuxContext}
use rtsp_h.Network.{UdpContext, Net}
use rtsp_h.Streamer.{add_entry}
use rtsp_h.Streamer.Entries.{with_buf}
use rtsp_h.Streamer.Fragment.{read_front}
use rtsp_h.Streamer.SendData.{IsReady}
use rtsp_h.RtpEnc.{Sender, clear_space, gather, send_nal_h264, send_nal_h265}
use rtsp_h.RtpEnc.Post.{send_data-Posts}
use rtsp_h.RtpEnc.Stap.{stap_head}
use rtsp_h.RtpEnc.Waiting.{Headed, Holds-nil, stap_header-Headed}

write-none : (m : Bytes) (p : ℕ) (src : Bytes) → length m < p + length src → write m p src ≡ none
unfolding write
write-none m p src h = ground arith

-- Behind the header of one byte and the two bytes of the size the unit does not fit.
add_entry-none :
    (ctx : RtpMuxContext) (u : Bytes)
    → Headed ctx [] u
    → 1398 ≤ length u
    → add_entry ctx u (length u) ≡ none
unfolding add_entry
add_entry-none ctx u h big =
    let front : Bytes = stap_head (u ∷ []) ∷ [] in
    let x : ℕ = length u % 2 ^ 16 in
    let first = load16-over front h.rest 1 x refl (omega (arith, h.size)) in
    let long : length (over (front ++ be16 x) h.rest) ≡ 1400 =
      length-over (front ++ be16 x) h.rest (omega (arith, h.size)) ∙ h.size in
    rw (h.begins, h.fill)
      (rw first (
        rw (read-all u)
          (rw (write-none (over (front ++ be16 x) h.rest) (1 + 2) u (omega (arith, long))) refl)))

module _ (net : Net) (udp : UdpContext) (u : Bytes) (big : 1398 ≤ length u)
    (small : length u ≤ 1400) (byte : at u 0 < 256) where
  -- The room is made if that can be.
  cleared :
      (extra : ℕ) (w : Sender)
      → IsReady w.mux
      → w.mux.buf_ptr ≡ 0
      → (w' : Sender) × (clear_space net udp extra w (length u) ≡ some (w', 0))
        × (IsReady w'.mux)
        × (w'.mux.buf_ptr ≡ 0)
  unfolding clear_space
  cleared extra w ready empty = elim (Bool-cases (ltb 1400 (w.mux.buf_ptr + extra + length u))) [
    | inl full ↦
        let (w', e, s, kept, ptr) =
          send_data-Posts udp net w w.mux.buf [] w.mux.buf_ptr 0 ready (omega arith) (omega arith)
            (ap (read w.mux.buf 0) empty ∙ read_front w.mux.buf 0 (omega arith)) in
        (w', rw full (rw e refl), s.ready, ptr)
    | inr fit ↦ (w, rw fit (ap (λ k. some (w, k)) empty), ready, empty)
  ]

  gather-none :
      (extra : ℕ) (w : Sender) (last : ℕ)
      → IsReady w.mux
      → w.mux.buf_ptr ≡ 0
      → gather net udp extra w u (length u) last ≡ none
  unfolding gather
  gather-none extra w last ready empty =
      let first : get_elem? u 0 ≡ some (at u 0) = get_elem?-get_or u 0 0 (omega arith) in
      let (w', c, rd, ptr) = cleared extra w ready empty in
      let (b, p, e, h) =
        stap_header-Headed w'.mux [] u rd.buf_size byte (Holds-nil w'.mux rd.buf_size ptr) in
      rw first (rw c (rw e (rw (add_entry-none (with_buf w'.mux b p) u h big) refl)))

  -- With aggregation on and nothing waiting, a unit of 1398 to 1400 bytes is written past the end of
  -- the payload buffer, whether it is sent as H.264 or as H.265.
  pub send_nal-overflow :
      (w : Sender) (last : ℕ)
      → IsReady w.mux
      → w.mux.buf_ptr ≡ 0
      → w.mux.aggregation ≢ 0
      → (send_nal_h264 net udp w u (length u) last ≡ none)
        × (send_nal_h265 net udp w u (length u) last ≡ none)
  unfolding send_nal_h264 send_nal_h265
  send_nal-overflow w last ready empty on =
      let fits : leb (length u) 1400 ≡ true = le→leb (length u) 1400 small in
      let used : (w.mux.aggregation == 0) ≡ false = ground arith in
      (
        rw (fits, used) (gather-none 2 w last ready empty),
        rw (fits, used) (gather-none 4 w last ready empty),
      )
