-- ===== src/Streamer/Pending.antt =====
-- src/CStreamer.cpp, aggregation packets: the NAL units that wait in the payload buffer.
use rtsp_h.Prelude.{
  ℕ, zero, suc, ◌+◌, ◌*◌, ◌/◌, ◌%◌, ◌^◌, ◌≤◌, ◌<◌, ◌≡◌, refl, ap, Option, some, List, [], ◌∷◌, ◌++◌,
  append_assoc, append-nil, lt→ltb, le→ltb, Bytes, read, over, read-over, length, length-append,
  take-append, drop-append, arith,
}
use rtsp_h.Utils.Stores.{be16}
use rtsp_h.Mux.{RtpMuxContext}
use rtsp_h.Receiver.{Receiver, receive, receive_ap, entries, receive_all}
use rtsp_h.Streamer.{Streamer, Wire, rtp_send_data, send_pending}
use rtsp_h.Streamer.Reassembly.{AllFit}
use rtsp_h.Streamer.SendData.{IsReady, Sends, Sends-nil, rtp_send_data-Sends}

-- The entries of an aggregation packet, and the packet.
abbrev pub ap_entries : List Bytes → Bytes
ap_entries [] = []
ap_entries (u ∷ us) = be16 (length u) ++ (u ++ ap_entries us)

abbrev pub ap_payload : List Bytes → Bytes
ap_payload us = 96 ∷ 1 ∷ ap_entries us

-- What stands in the buffer when these units wait.
abbrev pub stored : List Bytes → Bytes
stored [] = []
stored (u ∷ us) = ap_payload (u ∷ us)

pub ap_entries-append :
    (us : List Bytes) (u : Bytes)
    → ap_entries (us ++ u ∷ []) ≡ ap_entries us ++ (be16 (length u) ++ u)
ap_entries-append [] u = rw append-nil
ap_entries-append (v ∷ us) u = rw (ap_entries-append us u, append_assoc v (ap_entries us)) refl

pub stored-append :
    (us : List Bytes) (u : Bytes) → stored (us ++ u ∷ []) ≡ ap_payload us ++ (be16 (length u) ++ u)
stored-append [] u = rw append-nil
stored-append (v ∷ us) u = ap (λ e. 96 ∷ 1 ∷ e) (ap_entries-append (v ∷ us) u)

-- A receiver takes the packet apart.
pub entries-ap_entries :
    (k : ℕ) (us : List Bytes)
    → length (ap_entries us) ≤ k
    → k < 2 ^ 16
    → entries k (ap_entries us) ≡ us
unfolding entries
entries-ap_entries zero [] h small = refl
entries-ap_entries (suc k) [] h small = refl
entries-ap_entries zero (u ∷ us) h small = elim h [ ]
entries-ap_entries (suc k) (u ∷ us) h small =
    let size : length u / 2 ^ 8 % 2 ^ 8 * 256 + length u % 2 ^ 8 ≡ length u =
      omega (arith, length-append u (ap_entries us)) in
    rw (size, take-append u (ap_entries us), drop-append u (ap_entries us))
      (ap (λ l. u ∷ l)
        (entries-ap_entries k us (omega (arith, length-append u (ap_entries us))) (omega arith)))

pub receive-ap_payload :
    (r : Receiver) (us : List Bytes)
    → length (ap_payload us) ≤ 1400
    → receive r (ap_payload us) ≡ record r { units = r.units ++ us }
unfolding receive receive_ap
receive-ap_payload r us small =
    rw (entries-ap_entries (length (ap_entries us)) us (omega arith) (omega arith)) refl

-- The units `held` wait in the buffer.
pub record Holds (ctx : RtpMuxContext) (held : List Bytes) : Type 0 where
  pub rest : Bytes
  pub size : length rest ≡ 1400
  pub begins : ctx.buf ≡ over (stored held) rest
  pub fill : ctx.buf_ptr ≡ length (stored held)
  pub room : length (stored held) ≤ 1400

pub Holds-nil : (ctx : RtpMuxContext) → length ctx.buf ≡ 1400 → ctx.buf_ptr ≡ 0 → Holds ctx []
Holds-nil ctx n e = record { rest = ctx.buf; size = n; begins = refl; fill = e; room = omega arith }

module _ (getpeername : ℕ → Option (ℕ × ℕ)) (str : Streamer) where
  -- A run after which the buffer is empty, and that brought the units `held` to a receiver.
  pub record Flushes (w : Wire) (held : List Bytes) (run : Option Wire) : Type 0 where
    pub after : Wire
    pub payloads : List Bytes
    pub returns : run ≡ some after
    pub sends : Sends getpeername str w after payloads
    pub empty : after.mux.buf_ptr ≡ 0
    pub fits : AllFit payloads
    pub means : (r : Receiver) → receive_all r payloads ≡ record r { units = r.units ++ held }

  -- The buffer goes out as one aggregation packet.
  pub send_stored-Flushes :
      (w : Wire) (u : Bytes) (us : List Bytes)
      → IsReady w.mux
      → Holds w.mux (u ∷ us)
      → Flushes w (u ∷ us) (rtp_send_data getpeername str w w.mux.buf w.mux.buf_ptr 0)
  unfolding receive_all
  send_stored-Flushes w u us ready h =
      let front : Bytes = ap_payload (u ∷ us) in
      let got : read w.mux.buf 0 w.mux.buf_ptr ≡ some front =
        rw (h.begins, h.fill) (read-over front h.rest (omega (arith, h.room, h.size))) in
      let (w', e, s, kept, ptr) =
        rtp_send_data-Sends getpeername str w w.mux.buf front w.mux.buf_ptr ready
          (omega (arith, h.fill, h.room)) got in
      record {
        after = w';
        payloads = front ∷ [];
        returns = e;
        sends = s;
        empty = ptr;
        fits = (h.room, tt);
        means = λ r. receive-ap_payload r (u ∷ us) h.room;
      }

  pub nothing-Flushes : (w : Wire) → IsReady w.mux → w.mux.buf_ptr ≡ 0 → Flushes w [] (some w)
  unfolding receive_all
  nothing-Flushes w ready e = record {
    after = w;
    payloads = [];
    returns = refl;
    sends = Sends-nil getpeername str ready;
    empty = e;
    fits = tt;
    means = λ r. rw (append-nil r.units) refl;
  }

  pub send_pending-Flushes :
      (w : Wire) (held : List Bytes)
      → IsReady w.mux
      → Holds w.mux held
      → Flushes w held (send_pending getpeername str w)
  unfolding send_pending
  send_pending-Flushes w [] ready h =
      rw (le→ltb 0 w.mux.buf_ptr (omega (arith, h.fill))) (nothing-Flushes w ready h.fill)
  send_pending-Flushes w (u ∷ us) ready h =
      rw (lt→ltb 0 w.mux.buf_ptr (omega (arith, h.fill))) (send_stored-Flushes w u us ready h)
