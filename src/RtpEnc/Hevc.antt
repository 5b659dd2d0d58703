-- ===== src/RtpEnc/Hevc.antt =====
-- src/RTPEnc.cpp, `rtpSendNALH265`: any call of it without aggregation, and what aggregation makes of
-- a unit.
use rtsp_h.Prelude.{
  ℕ, suc, ◌+◌, ◌-◌, ◌*◌, ◌/◌, ◌≤◌, ◌<◌, ◌≡◌, ◌≢◌, true, false, refl, ap, sym, subst, ◌∙◌, inl, inr,
  some, List, [], ◌∷◌, ◌++◌, leb, le→leb, le→ltb, leb→le, ◌==◌, Bool-cases, Bytes, get_elem?,
  get_elem?-get_or, length, length-append, take, take-length, take-append, bit_and, bit_and_0x3f,
  arith,
}
use rtsp_h.Avc.FirstCode.{at}
use rtsp_h.Network.{UdpContext, Net}
use rtsp_h.Receiver.{Receiver, receive}
use rtsp_h.Streamer.{start_headers}
use rtsp_h.Streamer.Delivery.{IsUnit, receive-unit}
use rtsp_h.Streamer.Entries.{with_buf}
use rtsp_h.Streamer.Fragment.{start_headers-cons}
use rtsp_h.Streamer.Reassembly.{receive_start, receive_middle, receive_end}
use rtsp_h.Streamer.Pending.{ap_entries}
use rtsp_h.Streamer.SendData.{IsReady}
use rtsp_h.RtpEnc.{
  Sender, put_mux, stap_header, hevc_headers, send_data, clear_space, gather, fragments,
  fragment_hevc, send_nal_h265,
}
use rtsp_h.RtpEnc.Post.{packet, Posts, Posts-nil, Posts-to, Posts-from}
use rtsp_h.RtpEnc.Fragments.{Heads}
use rtsp_h.RtpEnc.Rounds.{Reads}
use rtsp_h.RtpEnc.Stap.{stap, top_nri-lt, any_f-lt}
use rtsp_h.RtpEnc.Waiting.{stored, length-stored, Holds, join_entry-Holds}
use rtsp_h.RtpEnc.Nal.{Keeps, send_waiting-none, single-Keeps, fragments-Keeps}
use rtsp_h.RtpEnc.Gather.{send_joined-Posts}

Reads-hevc : (kind : ℕ) → kind < 48 → Reads receive (98 ∷ 1 ∷ []) ((kind * 2) ∷ 1 ∷ []) kind
Reads-hevc kind h = record {
  starts = λ r b. receive_start r kind b (omega arith);
  goes_on = λ r b. receive_middle r kind b (omega arith);
  ends = λ r b. receive_end r kind b (omega arith);
}

module _ (net : Net) (udp : UdpContext) where
  fragment_hevc-Keeps :
      (w : Sender) (kind : ℕ) (body more : Bytes) (last : ℕ)
      → IsReady w.mux
      → w.mux.buf_ptr ≡ 0
      → kind < 48
      → 1400 < length ((kind * 2) ∷ 1 ∷ body)
      → last < 2
      → Keeps udp receive w [] (((kind * 2) ∷ 1 ∷ body) ∷ []) last (
          fragment_hevc net udp w
            (((kind * 2) ∷ 1 ∷ body) ++ more)
            (length ((kind * 2) ∷ 1 ∷ body))
            last)
  unfolding fragment_hevc hevc_headers start_headers
  fragment_hevc-Keeps w kind body more last ready empty hk big m =
      let f = send_waiting-none udp receive net w ready empty in
      let (tail, room, e) =
        start_headers-cons f.after.mux.buf kind f.posts.ready.buf_size (omega arith) in
      let b : Bytes = 98 ∷ 1 ∷ (kind + 128) ∷ tail in
      let type : bit_and (kind * 2 / 2) 0x3f ≡ kind = bit_and_0x3f (kind * 2 / 2) ∙ omega arith in
      let heads : Heads net udp (98 ∷ 1 ∷ []) 2 refl (omega arith)
          (put_mux f.after (record (f.after.mux) { buf = b })) (kind + 128) =
        record {
          ready = record {
            cache_size = f.posts.ready.cache_size;
            buf_size = omega (arith, room);
            seq_fits = f.posts.ready.seq_fits;
          };
          rest = b;
          room = omega (arith, room);
          begins = refl;
        } in
      let k =
        fragments-Keeps udp receive net w [] _ (98 ∷ 1 ∷ []) ((kind * 2) ∷ 1 ∷ []) b (body ++ more)
          2 kind (length body) last refl (omega arith) (omega arith) f ready (Reads-hevc kind hk)
          heads m (omega arith) (omega (arith, length-append body more)) (omega (arith, room)) in
      let fuel : suc (suc (length body)) + 1 ≡ length body + (2 + 1) = omega arith in
      let left : suc (suc (length body)) - 2 ≡ length body = omega arith in
      rw (f.returns) (
        rw type (
          rw e (
            rw (fuel, left)
              (subst
                (λ c. Keeps udp receive w [] (((kind * 2) ∷ 1 ∷ c) ∷ []) last (
                  fragments net udp 2 (length body + (2 + 1))
                    (put_mux f.after (record (f.after.mux) { buf = b })) (body ++ more)
                    (length body) last))
                (take-append body more) k))))

  unit-Keeps :
      (w : Sender) (kind : ℕ) (body more : Bytes) (last : ℕ)
      → IsReady w.mux
      → w.mux.buf_ptr ≡ 0
      → w.mux.aggregation ≡ 0
      → kind < 48
      → last < 2
      → Keeps udp receive w [] (((kind * 2) ∷ 1 ∷ body) ∷ []) last (
          send_nal_h265 net udp w
            (((kind * 2) ∷ 1 ∷ body) ++ more)
            (length ((kind * 2) ∷ 1 ∷ body))
            last)
  unfolding send_nal_h265
  unit-Keeps w kind body more last ready empty off hk m =
      let unit : Bytes = (kind * 2) ∷ 1 ∷ body in
      let whole : take (length unit) (unit ++ more) ≡ unit = take-append unit more in
      elim (Bool-cases (leb (length unit) 1400)) [
        | inl small ↦
            rw (small, (let z : (w.mux.aggregation == 0) ≡ true = ground arith in z))
              (subst
                (λ v.
                  Keeps udp receive w [] (v ∷ []) last
                    (send_data net udp w (unit ++ more) (length unit) last))
                whole
                (single-Keeps udp receive net w (unit ++ more) (length unit) last ready
                  (leb→le _ _ small) (omega (arith, length-append unit more)) m
                  (subst
                    (λ v. (r : Receiver) → receive r v ≡ record r { units = r.units ++ v ∷ [] })
                    (sym whole) (λ r. receive-unit r kind body hk))))
        | inr large ↦
            rw large (fragment_hevc-Keeps w kind body more last ready empty hk (ground arith) m)
      ]

  -- A call for a unit without aggregation, with nothing waiting.
  pub send_nal_h265-Keeps :
      (w : Sender) (u more : Bytes) (last : ℕ)
      → IsReady w.mux
      → w.mux.buf_ptr ≡ 0
      → w.mux.aggregation ≡ 0
      → IsUnit u
      → last < 2
      → Keeps udp receive w [] (u ∷ []) last (send_nal_h265 net udp w (u ++ more) (length u) last)
  send_nal_h265-Keeps w u more last ready empty off k m =
      subst
        (λ v.
          Keeps udp receive w [] (v ∷ []) last
            (send_nal_h265 net udp w (v ++ more) (length v) last))
        (sym k.begins) (unit-Keeps w k.kind k.body more last ready empty off k.kind_lt m)

  receive-stap :
      (r : Receiver) (us : List Bytes)
      → receive r (stap us) ≡ record r { units = r.units ++ stap us ∷ [] }
  unfolding receive
  receive-stap r us = ground (arith, top_nri-lt us, any_f-lt us)

  -- With aggregation on, the last unit and those that wait, if all of them fit together, go out as
  -- one packet in the layout of H.264, which a receiver of H.265 by RFC 7798 takes for one unit.
  pub send_nal_h265-misread :
      (w : Sender) (held : List Bytes) (u : Bytes)
      → IsReady w.mux
      → Holds w.mux held
      → w.mux.aggregation ≢ 0
      → 0 < length u
      → at u 0 < 256
      → 5 + length (ap_entries held) + length u ≤ 1400
      → (w' : Sender) × (send_nal_h265 net udp w u (length u) 1 ≡ some w')
        × (Posts udp w w' (packet udp w 1 (stap (held ++ u ∷ [])) ∷ []))
        × ((r : Receiver)
            → (receive r (stap (held ++ u ∷ []))).units ≡ r.units ++ stap (held ++ u ∷ []) ∷ [])
  unfolding send_nal_h265 gather clear_space
  send_nal_h265-misread w held u ready h on some_byte byte fit =
      let all : take (length u) u ≡ u = take-length u in
      let first : get_elem? u 0 ≡ some (at u 0) = get_elem?-get_or u 0 0 some_byte in
      let (opened, b, p, e₁, e₂, h', n) =
        join_entry-Holds w.mux held u (length u) ready.buf_size (rw all byte) h (omega (arith, fit))
          (omega arith) in
      let w₂ : Sender = put_mux w (with_buf w.mux b p) in
      let s₂ = Posts-to udp b p n (Posts-nil udp {w = w} ready) in
      let (w', f, s, ptr, room) =
        send_joined-Posts net udp w₂ held u s₂.ready
          (subst (λ v. Holds (with_buf w.mux b p) (held ++ v ∷ [])) all h') in
      let used : (w.mux.aggregation == 0) ≡ false = ground arith in
      let room_left : w.mux.buf_ptr + 4 + length u ≤ 1400 =
        omega (arith, h.fill, length-stored held) in
      let header : stap_header w.mux w.mux.buf_ptr (at u 0) ≡ some opened =
        ap (λ k. stap_header w.mux k (at u 0)) h.fill
        ∙ ap (λ v. stap_header w.mux (length (stored held)) (at v 0)) (sym all)
        ∙ e₁ in
      (
        w',
        rw (le→leb (length u) 1400 (omega arith), used)
            (rw first
              (rw (le→ltb 1400 (w.mux.buf_ptr + 4 + length u) room_left) (rw header (rw e₂ f)))),
        Posts-from udp b p s,
        λ r. ap (λ q. q.units) (receive-stap r (held ++ u ∷ [])),
      )
