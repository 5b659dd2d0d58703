-- ===== src/RtpEnc/Nal.antt =====
-- src/RTPEnc.cpp, a NAL unit of either codec: as one packet, or as fragments behind what waits.
use rtsp_h.Prelude.{
  ℕ, ◌+◌, ◌≤◌, ◌<◌, ◌≡◌, refl, ap, sym, subst, ◌∙◌, le→ltb, Option, some, List, [], ◌∷◌, ◌++◌,
  append_assoc, append-nil, map-append, Bytes, length, length-take, take, arith,
}
use rtsp_h.Network.{UdpContext, Net}
use rtsp_h.Receiver.{Receiver}
use rtsp_h.Receiver.H264.{take_in, take_in-append}
use rtsp_h.Streamer.Fragment.{read_front}
use rtsp_h.Streamer.Reassembly.{AllFit, AllFit-append}
use rtsp_h.Streamer.SendData.{IsReady}
use rtsp_h.RtpEnc.{Sender, put_mux, send_data, send_waiting, fragments}
use rtsp_h.RtpEnc.Post.{Packet, packet, Posts, Posts-nil, Posts-to, Posts-trans, send_data-Posts}
use rtsp_h.RtpEnc.Fragments.{payloads, Heads}
use rtsp_h.RtpEnc.Rounds.{
  AllUnmarked, Marks, Marks-append, Marks-AllUnmarked, Reads, fragments-Rebuilds,
}
use rtsp_h.RtpEnc.Waiting.{Holds, Holds-nil}

pub payloads-append : (ps qs : List Packet) → payloads (ps ++ qs) ≡ payloads ps ++ payloads qs
payloads-append = map-append (λ p. p.payload)

module _ (udp : UdpContext) (get : Receiver → Bytes → Receiver) where
  -- A run that keeps the order of the units: what a receiver has got and what waits now are what it
  -- had, what waited before, and `new`. The marker is on the last packet of the last unit.
  pub record Keeps (w : Sender) (held new : List Bytes) (last : ℕ) (run : Option Sender)
      : Type 0 where
    pub after : Sender
    pub packets : List Packet
    pub waits : List Bytes
    pub returns : run ≡ some after
    pub posts : Posts udp w after packets
    pub holds : Holds after.mux waits
    pub fits : AllFit (payloads packets)
    pub means :
        (r : Receiver)
        → (take_in get r (payloads packets)).units ++ waits ≡ r.units ++ (held ++ new)
    pub unmarked : last ≡ 0 → AllUnmarked packets
    pub closes : last ≡ 1 → (waits ≡ []) × Marks 1 packets
    pub calm : w.mux.aggregation ≡ 0 → waits ≡ []

  -- A run after which the buffer is empty, and that brought the units `held` to a receiver.
  pub record Flushes (w : Sender) (held : List Bytes) (run : Option Sender) : Type 0 where
    pub after : Sender
    pub packets : List Packet
    pub returns : run ≡ some after
    pub posts : Posts udp w after packets
    pub empty : after.mux.buf_ptr ≡ 0
    pub fits : AllFit (payloads packets)
    pub unmarked : AllUnmarked packets
    pub means :
        (r : Receiver) → take_in get r (payloads packets) ≡ record r { units = r.units ++ held }

  pub nothing-Flushes : (w : Sender) → IsReady w.mux → w.mux.buf_ptr ≡ 0 → Flushes w [] (some w)
  nothing-Flushes w ready e = record {
    after = w;
    packets = [];
    returns = refl;
    posts = Posts-nil udp ready;
    empty = e;
    fits = tt;
    unmarked = tt;
    means = λ r. rw (append-nil r.units) refl;
  }

  module _ (net : Net) where
    pub send_waiting-none :
        (w : Sender) → IsReady w.mux → w.mux.buf_ptr ≡ 0 → Flushes w [] (send_waiting net udp w)
    unfolding send_waiting
    send_waiting-none w ready e =
        rw (le→ltb 0 w.mux.buf_ptr (omega (arith, e))) (nothing-Flushes w ready e)

    -- A unit that fits, with nothing waiting, goes out as it is.
    pub single-Keeps :
        (w : Sender) (nal : Bytes) (size last : ℕ)
        → IsReady w.mux
        → size ≤ 1400
        → size ≤ length nal
        → last < 2
        → ((r : Receiver)
            → get r (take size nal) ≡ record r { units = r.units ++ take size nal ∷ [] })
        → Keeps w [] (take size nal ∷ []) last (send_data net udp w nal size last)
    single-Keeps w nal size last ready small enough m plain =
        let (w', e, s, kept, ptr) =
          send_data-Posts udp net w nal (take size nal) size last ready small m
            (read_front nal size enough) in
        let only : Marks last (packet udp w last (take size nal) ∷ []) = record {
          front = [];
          final = packet udp w last (take size nal);
          parts = refl;
          unmarked = tt;
          marked = refl;
        } in
        record {
          after = w';
          packets = packet udp w last (take size nal) ∷ [];
          waits = [];
          returns = e;
          posts = s;
          holds = Holds-nil w'.mux s.ready.buf_size ptr;
          fits = (omega (arith, length-take size nal), tt);
          means = λ r. append-nil _ ∙ ap (λ q. q.units) (plain r);
          unmarked = Marks-AllUnmarked _ only;
          closes =
              λ one. (refl, subst (λ l. Marks l (packet udp w last (take size nal) ∷ [])) one only);
          calm = λ _. refl;
        }

    -- What waits goes out, and then the fragments, from the headers `b` on.
    pub fragments-Keeps :
        (w : Sender) (held : List Bytes) (run : Option Sender) (pre opening b nal : Bytes)
        (hs t size last : ℕ) (e : length pre ≡ hs) (short : hs ≤ 2) (low : t < 64)
        (f : Flushes w held run)
        → IsReady w.mux
        → Reads get pre opening t
        → Heads net udp pre hs e short
            (put_mux f.after (record (f.after.mux) { buf = b }))
            (t + 128)
        → last < 2
        → 1400 < size + (hs + 1)
        → size ≤ length nal
        → length b ≡ 1400
        → Keeps w held ((opening ++ take size nal) ∷ []) last (
            fragments net udp hs
              (size + (hs + 1))
              (put_mux f.after (record (f.after.mux) { buf = b }))
              nal
              size
              last)
    fragments-Keeps w held run pre opening b nal hs t size last e short low f ready reads heads m
          big enough full =
        let o =
          fragments-Rebuilds net udp get pre opening hs t e short low reads
            (put_mux f.after (record (f.after.mux) { buf = b })) nal size last heads m big enough in
        let s₁ = Posts-to udp b f.after.mux.buf_ptr full f.posts in
        let u : Bytes = opening ++ take size nal in
        let marks : Marks last (f.packets ++ o.packets) =
          Marks-append f.packets o.packets f.unmarked o.marks in
        record {
          after = o.after;
          packets = f.packets ++ o.packets;
          waits = [];
          returns = o.returns;
          posts = Posts-trans udp f.packets o.packets ready.seq_fits s₁ o.posts;
          holds = Holds-nil o.after.mux o.posts.ready.buf_size o.flushed;
          fits =
              subst AllFit (sym (payloads-append f.packets o.packets))
                (AllFit-append (payloads f.packets) (payloads o.packets) f.fits o.fits);
          means = λ r.
              append-nil _
              ∙ ap (λ q. q.units)
                  (ap (take_in get r) (payloads-append f.packets o.packets)
                    ∙ take_in-append get r (payloads f.packets) (payloads o.packets)
                    ∙ ap (λ q. take_in get q (payloads o.packets)) (f.means r)
                    ∙ o.means (record r { units = r.units ++ held }))
              ∙ append_assoc r.units held (u ∷ []);
          unmarked = Marks-AllUnmarked _ marks;
          closes = λ one. (refl, subst (λ l. Marks l (f.packets ++ o.packets)) one marks);
          calm = λ _. refl;
        }
