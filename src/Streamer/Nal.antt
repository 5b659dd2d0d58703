-- ===== src/Streamer/Nal.antt =====
-- src/CStreamer.cpp, `rtpSendNALH265`: what a receiver gets from a single unit and from units that are
-- put together.
use rtsp_h.Prelude.{
  ℕ, ◌+◌, ◌≤◌, ◌<◌, ◌≡◌, ◌≢◌, refl, ap, sym, ◌∙◌, inl, inr, true, not, ◌&&◌, Option, some, List, [],
  ◌∷◌, ◌++◌, append_assoc, append-nil, ltb, ◌==◌, Bytes, length, length-take, take, arith,
  Bool-cases,
}
use native.Mathlib.Decide.{dec_lt}
use rtsp_h.Receiver.{Receiver, receive, receive_all, receive_all-append}
use rtsp_h.Streamer.{Streamer, Wire, with_mux, rtp_send_data, make_room, aggregate}
use rtsp_h.Streamer.Pending.{ap_payload, stored, Holds, Holds-nil, Flushes, send_stored-Flushes}
use rtsp_h.Streamer.Fragment.{read_front}
use rtsp_h.Streamer.Reassembly.{AllFit, AllFit-append}
use rtsp_h.Streamer.SendData.{IsReady, Sends, Sends-trans, Sends-to, Sends-nil, rtp_send_data-Sends}
use rtsp_h.Streamer.Entries.{with_buf, open_packet-Opened, add_entry-Holds}

module _ (getpeername : ℕ → Option (ℕ × ℕ)) (str : Streamer) where
  -- A run that keeps the order of the units: what a receiver has got and what waits now are what it
  -- had, what waited before, and `new`.
  pub record Keeps (w : Wire) (held new : List Bytes) (run : Option Wire) : Type 0 where
    pub after : Wire
    pub waits : List Bytes
    pub payloads : List Bytes
    pub returns : run ≡ some after
    pub sends : Sends getpeername str w after payloads
    pub holds : Holds after.mux waits
    pub fits : AllFit payloads
    pub means : (r : Receiver) → (receive_all r payloads).units ++ waits ≡ r.units ++ (held ++ new)
    pub calm : w.mux.aggregation ≡ 0 → waits ≡ []

  -- Room is made for a unit: the fill that is left is that of the units that still wait.
  record Makes (w : Wire) (held : List Bytes) (size : ℕ) : Type 0 where
    after : Wire
    waits : List Bytes
    payloads : List Bytes
    returns : make_room getpeername str w size ≡ some (after, length (stored waits))
    sends : Sends getpeername str w after payloads
    holds : Holds after.mux waits
    fits : AllFit payloads
    room : length (ap_payload waits) + 2 + size ≤ 1400
    means : (r : Receiver) → (receive_all r payloads).units ++ waits ≡ r.units ++ held

  make_room-keep :
      (w : Wire) (held : List Bytes) (size : ℕ)
      → IsReady w.mux
      → Holds w.mux held
      → length (ap_payload held) + 2 + size ≤ 1400
      → Makes w held size
  unfolding make_room receive_all
  make_room-keep w held size ready h room = record {
    after = w;
    waits = held;
    payloads = [];
    returns = rw h.fill (ground arith);
    sends = Sends-nil getpeername str ready;
    holds = h;
    fits = tt;
    room = room;
    means = λ r. refl;
  }

  make_room-send :
      (w : Wire) (u : Bytes) (us : List Bytes) (size : ℕ)
      → IsReady w.mux
      → Holds w.mux (u ∷ us)
      → 1400 < length (ap_payload (u ∷ us)) + 2 + size
      → size ≤ 1396
      → Makes w (u ∷ us) size
  unfolding make_room
  make_room-send w u us size ready h full small =
      let f = send_stored-Flushes getpeername str w u us ready h in
      let taken : (not (w.mux.buf_ptr == 0) && ltb 1400 (w.mux.buf_ptr + 2 + size)) ≡ true =
        rw h.fill (ground arith) in
      record {
        after = f.after;
        waits = [];
        payloads = f.payloads;
        returns = rw (taken, f.returns) refl;
        sends = f.sends;
        holds = Holds-nil f.after.mux f.sends.ready.buf_size f.empty;
        fits = f.fits;
        room = omega arith;
        means = λ r. ap (λ q. q.units ++ []) (f.means r) ∙ append-nil _;
      }

  make_room-Makes :
      (w : Wire) (held : List Bytes) (size : ℕ)
      → IsReady w.mux
      → Holds w.mux held
      → size ≤ 1396
      → Makes w held size
  make_room-Makes w [] size ready h small = make_room-keep w [] size ready h (omega arith)
  make_room-Makes w (u ∷ us) size ready h small =
      elim (dec_lt 1400 (length (ap_payload (u ∷ us)) + 2 + size)) [
        | yes full ↦ make_room-send w u us size ready h full small
        | no fit ↦ make_room-keep w (u ∷ us) size ready h (omega arith)
      ]

  send_concat-Flushes :
      (w : Wire) (us : List Bytes) (u : Bytes)
      → IsReady w.mux
      → Holds w.mux (us ++ u ∷ [])
      → Flushes getpeername str w
          (us ++ u ∷ [])
          (rtp_send_data getpeername str w w.mux.buf w.mux.buf_ptr 0)
  send_concat-Flushes w [] u ready h = send_stored-Flushes getpeername str w u [] ready h
  send_concat-Flushes w (v ∷ us) u ready h =
      send_stored-Flushes getpeername str w v (us ++ u ∷ []) ready h

  -- The unit is added, and goes out at once if it is the last one.
  pub aggregate-Keeps :
      (w : Wire) (held : List Bytes) (nal : Bytes) (size last : ℕ)
      → w.mux.aggregation ≢ 0
      → IsReady w.mux
      → Holds w.mux held
      → size ≤ 1396
      → size ≤ length nal
      → Keeps w held (take size nal ∷ []) (aggregate getpeername str w nal size last)
  unfolding aggregate
  aggregate-Keeps w held nal size last on ready h small enough =
      let m = make_room-Makes w held size ready h small in
      let (b₁, p₁, e₁, o) = open_packet-Opened m.after.mux m.waits m.sends.ready.buf_size m.holds in
      let (b, p, e, h', n) =
        add_entry-Holds (with_buf m.after.mux b₁ p₁) m.waits nal size o m.room enough in
      let w₂ : Wire = with_mux m.after (with_buf m.after.mux b p) in
      let s₂ = Sends-to getpeername str b p n m.sends in
      let u : Bytes = take size nal in
      let order = λ (r : Receiver).
        sym (append_assoc (receive_all r m.payloads).units m.waits (u ∷ []))
        ∙ ap (λ l. l ++ u ∷ []) (m.means r)
        ∙ append_assoc r.units held (u ∷ []) in
      elim (Bool-cases (last == 1)) [
        | inl now ↦
            let f = send_concat-Flushes w₂ m.waits u s₂.ready h' in
            record {
              after = f.after;
              waits = [];
              payloads = m.payloads ++ f.payloads;
              returns = rw (m.returns) (rw e₁ (rw e (rw now (f.returns))));
              sends = Sends-trans getpeername str m.payloads f.payloads ready.seq_fits s₂ f.sends;
              holds = Holds-nil f.after.mux f.sends.ready.buf_size f.empty;
              fits = AllFit-append m.payloads f.payloads m.fits f.fits;
              means = λ r.
                  append-nil _
                  ∙ ap (λ q. q.units)
                      (receive_all-append r m.payloads f.payloads
                        ∙ f.means (receive_all r m.payloads))
                  ∙ order r;
              calm = λ _. refl;
            }
        | inr later ↦ record {
          after = w₂;
          waits = m.waits ++ u ∷ [];
          payloads = m.payloads;
          returns = rw (m.returns) (rw e₁ (rw e (rw later refl)));
          sends = s₂;
          holds = h';
          fits = m.fits;
          means = order;
          calm = λ z. absurd (on z);
        }
      ]

  -- A unit that is small enough, sent on its own.
  pub single-Keeps :
      (w : Wire) (nal : Bytes) (size : ℕ)
      → IsReady w.mux
      → size ≤ 1400
      → size ≤ length nal
      → ((r : Receiver)
          → receive r (take size nal) ≡ record r { units = r.units ++ take size nal ∷ [] })
      → Keeps w [] (take size nal ∷ []) (rtp_send_data getpeername str w nal size 0)
  unfolding receive_all
  single-Keeps w nal size ready small enough plain =
      let u : Bytes = take size nal in
      let (w', e, s, kept, ptr) =
        rtp_send_data-Sends getpeername str w nal u size ready small (read_front nal size enough) in
      record {
        after = w';
        waits = [];
        payloads = u ∷ [];
        returns = e;
        sends = s;
        holds = Holds-nil w'.mux s.ready.buf_size ptr;
        fits = (omega (arith, length-take size nal), tt);
        means = λ r. append-nil _ ∙ ap (λ q. q.units) (plain r);
        calm = λ _. refl;
      }
