-- ===== src/RtpEnc/Gather.antt =====
-- src/RTPEnc.cpp, the branch for aggregation packets, as H.264 uses it.
use rtsp_h.Prelude.{
  ℕ, ◌+◌, ◌≤◌, ◌<◌, ◌≡◌, ◌≢◌, refl, ap, sym, subst, ◌∙◌, inl, inr, some, List, [], ◌∷◌, ◌++◌,
  append_assoc, append-nil, ◌==◌, lt→ltb, le→ltb, Bool-cases, Bytes, read, read-over, get_elem?,
  length, take, arith,
}
use native.Mathlib.Decide.{dec_lt}
use rtsp_h.Avc.FirstCode.{at}
use rtsp_h.Network.{UdpContext, Net}
use rtsp_h.Receiver.{Receiver}
use rtsp_h.Receiver.H264.{receive_h264, take_in, take_in-append}
use rtsp_h.Streamer.Entries.{with_buf}
use rtsp_h.Streamer.Pending.{ap_entries}
use rtsp_h.Streamer.Reassembly.{AllFit, AllFit-append}
use rtsp_h.Streamer.SendData.{IsReady}
use rtsp_h.RtpEnc.{Sender, put_mux, send_data, send_waiting, clear_space, gather}
use rtsp_h.RtpEnc.Post.{Packet, packet, Posts, Posts-nil, Posts-to, Posts-trans, send_data-Posts}
use rtsp_h.RtpEnc.Fragments.{payloads}
use rtsp_h.RtpEnc.Rounds.{AllUnmarked, Marks-append}
use rtsp_h.RtpEnc.Stap.{stap, receive_h264-stap}
use rtsp_h.RtpEnc.Waiting.{stored, Holds, Holds-nil, join_entry-Holds}
use rtsp_h.RtpEnc.Nal.{Keeps, Flushes, nothing-Flushes, payloads-append}

module _ (net : Net) (udp : UdpContext) where
  -- The buffer goes out as one aggregation packet.
  pub send_stored-Posts :
      (w : Sender) (u : Bytes) (us : List Bytes) (mark : ℕ)
      → IsReady w.mux
      → Holds w.mux (u ∷ us)
      → mark < 2
      → (w' : Sender) × (send_data net udp w w.mux.buf w.mux.buf_ptr mark ≡ some w')
        × (Posts udp w w' (packet udp w mark (stap (u ∷ us)) ∷ []))
        × (w'.mux.buf_ptr ≡ 0)
  send_stored-Posts w u us mark ready h m =
      let front : Bytes = stap (u ∷ us) in
      let got : read w.mux.buf 0 w.mux.buf_ptr ≡ some front =
        rw (h.begins, h.fill) (read-over front h.rest (omega (arith, h.room, h.size))) in
      let (w', e, s, kept, ptr) =
        send_data-Posts udp net w w.mux.buf front w.mux.buf_ptr mark ready
          (omega (arith, h.fill, h.room)) m got in
      (w', e, s, ptr)

  send_stored-Flushes :
      (w : Sender) (u : Bytes) (us : List Bytes)
      → IsReady w.mux
      → Holds w.mux (u ∷ us)
      → Flushes udp receive_h264 w (u ∷ us) (send_data net udp w w.mux.buf w.mux.buf_ptr 0)
  send_stored-Flushes w u us ready h =
      let (w', e, s, ptr) = send_stored-Posts w u us 0 ready h (omega arith) in
      record {
        after = w';
        packets = packet udp w 0 (stap (u ∷ us)) ∷ [];
        returns = e;
        posts = s;
        empty = ptr;
        fits = (h.room, tt);
        unmarked = (refl, tt);
        means = λ r. receive_h264-stap r (u ∷ us) (omega (arith, h.room));
      }

  pub send_waiting-Flushes :
      (w : Sender) (held : List Bytes)
      → IsReady w.mux
      → Holds w.mux held
      → Flushes udp receive_h264 w held (send_waiting net udp w)
  unfolding send_waiting
  send_waiting-Flushes w [] ready h =
      rw (le→ltb 0 w.mux.buf_ptr (omega (arith, h.fill)))
        (nothing-Flushes udp receive_h264 w ready h.fill)
  send_waiting-Flushes w (u ∷ us) ready h =
      rw (lt→ltb 0 w.mux.buf_ptr (omega (arith, h.fill))) (send_stored-Flushes w u us ready h)

  -- The same for units of which the last was added just now.
  pub send_joined-Posts :
      (w : Sender) (us : List Bytes) (u : Bytes)
      → IsReady w.mux
      → Holds w.mux (us ++ u ∷ [])
      → (w' : Sender) × (send_data net udp w w.mux.buf w.mux.buf_ptr 1 ≡ some w')
        × (Posts udp w w' (packet udp w 1 (stap (us ++ u ∷ [])) ∷ []))
        × (w'.mux.buf_ptr ≡ 0)
        × (length (stap (us ++ u ∷ [])) ≤ 1400)
  send_joined-Posts w [] u ready h =
      let (w', f, s, ptr) = send_stored-Posts w u [] 1 ready h (omega arith) in
      (w', f, s, ptr, h.room)
  send_joined-Posts w (v ∷ us) u ready h =
      let (w', f, s, ptr) = send_stored-Posts w v (us ++ u ∷ []) 1 ready h (omega arith) in
      (w', f, s, ptr, h.room)

  -- Room is made for a unit.
  record Clears (w : Sender) (held : List Bytes) (size : ℕ) : Type 0 where
    after : Sender
    waits : List Bytes
    packets : List Packet
    returns : clear_space net udp 2 w size ≡ some (after, length (stored waits))
    posts : Posts udp w after packets
    holds : Holds after.mux waits
    fits : AllFit (payloads packets)
    unmarked : AllUnmarked packets
    room : 3 + length (ap_entries waits) + size ≤ 1400
    means :
        (r : Receiver)
        → (take_in receive_h264 r (payloads packets)).units ++ waits ≡ r.units ++ held

  clear_space-keep :
      (w : Sender) (held : List Bytes) (size : ℕ)
      → IsReady w.mux
      → Holds w.mux held
      → length (stored held) + 2 + size ≤ 1400
      → 3 + length (ap_entries held) + size ≤ 1400
      → Clears w held size
  unfolding clear_space
  clear_space-keep w held size ready h fit room = record {
    after = w;
    waits = held;
    packets = [];
    returns = rw (h.fill) (rw (le→ltb 1400 (length (stored held) + 2 + size) fit) refl);
    posts = Posts-nil udp ready;
    holds = h;
    fits = tt;
    unmarked = tt;
    room = room;
    means = λ r. refl;
  }

  clear_space-Clears :
      (w : Sender) (held : List Bytes) (size : ℕ)
      → IsReady w.mux
      → Holds w.mux held
      → size ≤ 1397
      → Clears w held size
  unfolding clear_space
  clear_space-Clears w [] size ready h small =
      clear_space-keep w [] size ready h (omega arith) (omega arith)
  clear_space-Clears w (u ∷ us) size ready h small =
      elim (dec_lt 1400 (length (stored (u ∷ us)) + 2 + size)) [
        | yes full ↦
            let f = send_stored-Flushes w u us ready h in
            record {
              after = f.after;
              waits = [];
              packets = f.packets;
              returns =
                  rw (lt→ltb 1400 (w.mux.buf_ptr + 2 + size) (omega (arith, h.fill)))
                    (rw (f.returns) refl);
              posts = f.posts;
              holds = Holds-nil f.after.mux f.posts.ready.buf_size f.empty;
              fits = f.fits;
              unmarked = f.unmarked;
              room = omega arith;
              means = λ r. ap (λ q. q.units ++ []) (f.means r) ∙ append-nil _;
            }
        | no fit ↦ clear_space-keep w (u ∷ us) size ready h (omega arith) (omega arith)
      ]

  -- The unit is added, and goes out at once with the marker if it is the last one.
  pub gather-Keeps :
      (w : Sender) (held : List Bytes) (nal : Bytes) (size last : ℕ)
      → w.mux.aggregation ≢ 0
      → IsReady w.mux
      → Holds w.mux held
      → get_elem? nal 0 ≡ some (at (take size nal) 0)
      → at (take size nal) 0 < 256
      → size ≤ 1397
      → size ≤ length nal
      → Keeps udp receive_h264 w held (take size nal ∷ []) last (gather net udp 2 w nal size last)
  unfolding gather
  gather-Keeps w held nal size last on ready h first byte small enough =
      let c = clear_space-Clears w held size ready h small in
      let (opened, b, p, e₁, e, h', n) =
        join_entry-Holds c.after.mux c.waits nal size c.posts.ready.buf_size byte c.holds c.room
          enough in
      let w₂ : Sender = put_mux c.after (with_buf c.after.mux b p) in
      let s₂ = Posts-to udp b p n c.posts in
      let u : Bytes = take size nal in
      let order = λ (r : Receiver).
        sym (append_assoc (take_in receive_h264 r (payloads c.packets)).units c.waits (u ∷ []))
        ∙ ap (λ l. l ++ u ∷ []) (c.means r)
        ∙ append_assoc r.units held (u ∷ []) in
      elim (Bool-cases (last == 1)) [
        | inl now ↦
            let (w', f, s, ptr, fit) = send_joined-Posts w₂ c.waits u s₂.ready h' in
            let final = packet udp w₂ 1 (stap (c.waits ++ u ∷ [])) in
            record {
              after = w';
              packets = c.packets ++ final ∷ [];
              waits = [];
              returns = rw first (rw (c.returns) (rw e₁ (rw e (rw now f))));
              posts = Posts-trans udp c.packets (final ∷ []) ready.seq_fits s₂ s;
              holds = Holds-nil w'.mux s.ready.buf_size ptr;
              fits = subst AllFit (sym (payloads-append c.packets (final ∷ []))) (
                  AllFit-append (payloads c.packets) (stap (c.waits ++ u ∷ []) ∷ []) c.fits
                    (fit, tt));
              means = λ r.
                  append-nil _
                  ∙ ap (λ q. q.units)
                      (ap (take_in receive_h264 r) (payloads-append c.packets (final ∷ []))
                        ∙ take_in-append receive_h264 r (payloads c.packets)
                            (stap (c.waits ++ u ∷ []) ∷ [])
                        ∙ receive_h264-stap (take_in receive_h264 r (payloads c.packets))
                            (c.waits ++ u ∷ []) (omega (arith, fit)))
                  ∙ order r;
              unmarked = λ zero. absurd (ground arith);
              closes = λ one. (
                refl,
                Marks-append c.packets (final ∷ []) c.unmarked (record {
                  front = [];
                  final = final;
                  parts = refl;
                  unmarked = tt;
                  marked = refl;
                }),
              );
              calm = λ _. refl;
            }
        | inr later ↦ record {
          after = w₂;
          packets = c.packets;
          waits = c.waits ++ u ∷ [];
          returns = rw first (rw (c.returns) (rw e₁ (rw e (rw later refl))));
          posts = s₂;
          holds = h';
          fits = c.fits;
          means = order;
          unmarked = λ _. c.unmarked;
          closes = λ one. absurd (ground arith);
          calm = λ off. absurd (on off);
        }
      ]
