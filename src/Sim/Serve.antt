-- ===== src/Sim/Serve.antt =====
-- src/SimStreamer.cpp and the loop of `workerThread` in main/main.cpp: one pass over a file.
use rtsp_h.Prelude.{
  ℕ, suc, ◌+◌, ◌%◌, ◌^◌, ◌≡◌, ◌≢◌, refl, ap, sym, subst, ◌∙◌, inl, inr, Option, some, List, [], ◌∷◌,
  ◌++◌, append_assoc, append-nil, ◌==◌, if◌then◌else◌, Bytes, IsBytes, length, length-append, drop,
  drop-drop, arith,
}
use rtsp_h.Receiver.{Receiver, fresh, receive_all, receive_all-append}
use rtsp_h.Streamer.{Streamer, Wire, stream_nal, rtp_send_nal_h265}
use rtsp_h.Streamer.Delivery.{IsUnit, rtp_send_nal_h265-Keeps}
use rtsp_h.Streamer.Nal.{Keeps}
use rtsp_h.Streamer.Pending.{stored, Holds-nil}
use rtsp_h.Streamer.SendData.{IsReady, packets, broadcast, broadcast-append}
use rtsp_h.Sim.{Worker, serve_nal, serve_nals, advance_timestamp}
use rtsp_h.Sim.AnnexB.{annex_b, IsEscaped}
use rtsp_h.Sim.Select.{Follows, select_next_nal-unit, rest-there}

-- The units of a file that the program can send as they are.
abbrev pub AllFile : List Bytes → Type 0
AllFile [] = Unit
AllFile (u ∷ us) = IsUnit u × IsEscaped u × AllFile us

-- The payloads of one unit after the other; each has its own timestamp.
abbrev pub timed_packets : (seq timestamp ssrc : ℕ) → List (List Bytes) → List Bytes
timed_packets seq timestamp ssrc [] = []
timed_packets seq timestamp ssrc (ps ∷ rest) =
    packets seq timestamp ssrc ps
    ++ timed_packets ((seq + length ps) % 2 ^ 16) ((timestamp + 3000) % 2 ^ 32) ssrc rest

abbrev pub all_payloads : List (List Bytes) → List Bytes
all_payloads [] = []
all_payloads (ps ∷ rest) = ps ++ all_payloads rest

annex_b-Follows : (us : List Bytes) → AllFile us → Follows (annex_b us)
annex_b-Follows [] h = inl refl
annex_b-Follows ([] ∷ us) (unit, escaped, h) = absurd (omega (arith, escaped.nonempty))
annex_b-Follows ((b ∷ u) ∷ us) h = inr (b, u ++ annex_b us, refl)

module _ (getpeername : ℕ → Option (ℕ × ℕ)) (str : Streamer) (mem : Bytes) (addr : ℕ)
    (bytes : IsBytes mem) where
  -- Where the worker stands after the unit in front of `left`.
  abbrev stands : (p left : ℕ) → Wire → Worker
  stands p left w =
      if left == 0
      then record { stream_buf = 0; stream_len_temp = length mem; wire = w }
      else record { stream_buf = p; stream_len_temp = left; wire = w }

  -- One round sends one unit.
  serve_nal-unit :
      (p : ℕ) (u : Bytes) (us : List Bytes) (w : Wire)
      → drop p mem ≡ 0 ∷ 0 ∷ 0 ∷ 1 ∷ (u ++ annex_b us)
      → AllFile (u ∷ us)
      → IsReady w.mux
      → w.mux.buf_ptr ≡ 0
      → w.mux.aggregation ≡ 0
      → (k : Keeps getpeername str w []
          (u ∷ [])
          (rtp_send_nal_h265 getpeername str w (u ++ annex_b us) (length u) 0))
        × (serve_nal getpeername str mem addr (record {
          stream_buf = p;
          stream_len_temp = 4 + length u + length (annex_b us);
          wire = w;
        })
            ≡ some (stands (p + 4 + length u) (length (annex_b us)) (advance_timestamp k.after)))
  unfolding serve_nal stream_nal
  serve_nal-unit p u us w there (unit, escaped, all) ready empty off =
      let k =
        rtp_send_nal_h265-Keeps getpeername str w [] u (annex_b us) 0 ready
          (Holds-nil w.mux ready.buf_size empty) unit ((λ _. refl), inr (inr refl)) in
      let s =
        select_next_nal-unit mem addr bytes p u (annex_b us) there escaped
          (annex_b-Follows us all) in
      let at : drop (p + 4) mem ≡ u ++ annex_b us = sym (drop-drop 4 p mem) ∙ ap (drop 4) there in
      (k, rw s (rw at (rw (k.returns) (ground arith))))

  -- The rounds over the rest of the file: they end at its beginning, and every unit is delivered.
  record Pass (w : Wire) (us : List Bytes) (run : Option Worker) : Type 0 where
    after : Wire
    groups : List (List Bytes)
    returns : run ≡ some (record { stream_buf = 0; stream_len_temp = length mem; wire = after })
    ready : IsReady after.mux
    empty : after.mux.buf_ptr ≡ 0
    sent :
        after.sent
        ≡ w.sent
          ++ broadcast getpeername str (timed_packets w.mux.seq w.mux.timestamp w.mux.ssrc groups)
    means : (r : Receiver) → (receive_all r (all_payloads groups)).units ≡ r.units ++ us

  module _ {w : Wire} {u : Bytes} {run : Option Wire} (k : Keeps getpeername str w [] (u ∷ []) run)
      (off : w.mux.aggregation ≡ 0) where
    nothing_waits : k.after.mux.buf_ptr ≡ 0
    nothing_waits = k.holds.fill ∙ ap (λ l. length (stored l)) (k.calm off)

    got : (r : Receiver) → (receive_all r k.payloads).units ≡ r.units ++ u ∷ []
    got r =
        sym (append-nil _)
        ∙ ap (λ l. (receive_all r k.payloads).units ++ l) (sym (k.calm off))
        ∙ k.means r

  Pass-one :
      (w : Wire) (u : Bytes) (run : Option Wire) (k : Keeps getpeername str w [] (u ∷ []) run)
      → w.mux.aggregation ≡ 0
      → Pass w (u ∷ []) (some (stands 0 0 (advance_timestamp k.after)))
  Pass-one w u run k off = record {
    after = advance_timestamp k.after;
    groups = k.payloads ∷ [];
    returns = refl;
    ready = record {
      cache_size = k.sends.ready.cache_size;
      buf_size = k.sends.ready.buf_size;
      seq_fits = k.sends.ready.seq_fits;
    };
    empty = nothing_waits k off;
    sent =
        k.sends.sent
        ∙ ap (λ l. w.sent ++ broadcast getpeername str l)
            (sym (append-nil (packets w.mux.seq w.mux.timestamp w.mux.ssrc k.payloads)));
    means = λ r. ap (λ ps. (receive_all r ps).units) (append-nil k.payloads) ∙ got k off r;
  }

  Pass-cons :
      (w : Wire) (u : Bytes) (us : List Bytes) (run : Option Wire) (run' : Option Worker)
      (k : Keeps getpeername str w [] (u ∷ []) run)
      → w.mux.aggregation ≡ 0
      → Pass (advance_timestamp k.after) us run'
      → Pass w (u ∷ us) run'
  Pass-cons w u us run run' k off rest =
      let seq = w.mux.seq in
      let ts = w.mux.timestamp in
      let ssrc = w.mux.ssrc in
      record {
        after = rest.after;
        groups = k.payloads ∷ rest.groups;
        returns = rest.returns;
        ready = rest.ready;
        empty = rest.empty;
        sent =
            rest.sent
            ∙ rw (k.sends.sent, k.sends.seq, k.sends.timestamp, k.sends.ssrc)
                (append_assoc w.sent _ _
                  ∙ ap (λ l. w.sent ++ l)
                      (sym (
                        broadcast-append getpeername str (packets seq ts ssrc k.payloads) (
                          timed_packets ((seq + length k.payloads) % 2 ^ 16) ((ts + 3000) % 2 ^ 32)
                            ssrc rest.groups))));
        means = λ r.
            ap (λ q. q.units) (receive_all-append r k.payloads (all_payloads rest.groups))
            ∙ rest.means (receive_all r k.payloads)
            ∙ ap (λ l. l ++ us) (got k off r)
            ∙ append_assoc r.units (u ∷ []) us;
      }

  serve_nals-Pass :
      (us : List Bytes) (p : ℕ) (u : Bytes) (w : Wire)
      → drop p mem ≡ annex_b (u ∷ us)
      → AllFile (u ∷ us)
      → IsReady w.mux
      → w.mux.buf_ptr ≡ 0
      → w.mux.aggregation ≡ 0
      → Pass w (u ∷ us) (
          serve_nals getpeername str mem addr (suc (length us)) (record {
            stream_buf = p;
            stream_len_temp = 4 + length u + length (annex_b us);
            wire = w;
          }))
  unfolding serve_nals
  serve_nals-Pass [] p u w there all ready empty off =
      let (k, e) = serve_nal-unit p u [] w there all ready empty off in rw e (Pass-one w u _ k off)
  serve_nals-Pass (v ∷ us) p u w there (unit, escaped, all) ready empty off =
      let (k, e) = serve_nal-unit p u (v ∷ us) w there (unit, escaped, all) ready empty off in
      let size : length (annex_b (v ∷ us)) ≡ 4 + length v + length (annex_b us) =
        omega (arith, length-append v (annex_b us)) in
      let next =
        rest-there mem addr bytes p u (annex_b (v ∷ us)) there escaped
          (annex_b-Follows (v ∷ us) all) in
      let w₁ : Wire = advance_timestamp k.after in
      let at_unit = λ (n : ℕ).
        let here : Worker = record {
          stream_buf = p + 4 + length u;
          stream_len_temp = n;
          wire = w₁;
        } in
        here in
      let go_on : stands (p + 4 + length u) (length (annex_b (v ∷ us))) w₁
          ≡ at_unit (length (annex_b (v ∷ us))) =
        ground arith in
      let ready₁ : IsReady w₁.mux = record {
        cache_size = k.sends.ready.cache_size;
        buf_size = k.sends.ready.buf_size;
        seq_fits = k.sends.ready.seq_fits;
      } in
      let rest =
        serve_nals-Pass us (p + 4 + length u) v w₁ next all ready₁ (nothing_waits k off)
          (k.sends.aggregation ∙ off) in
      rw (e ∙ ap some go_on) (
        Pass-cons w u (v ∷ us) _ _ k off (
          subst
            (λ n.
              Pass w₁ (v ∷ us) (serve_nals getpeername str mem addr (suc (length us)) (at_unit n)))
            (sym size) rest))

-- One pass over a file of units in the format of annex B, with aggregation off. As many rounds as
-- there are units bring the worker back to the beginning of the file. What went out to the playing
-- sessions are packets with consecutive sequence numbers, each unit with its own timestamp, 3000
-- after the one before; and a receiver gets the units of the file.
pub serve_nals-delivers :
    (getpeername : ℕ → Option (ℕ × ℕ)) (str : Streamer) (addr : ℕ) (us : List Bytes) (w : Wire)
    → us ≢ []
    → IsBytes (annex_b us)
    → AllFile us
    → IsReady w.mux
    → w.mux.buf_ptr ≡ 0
    → w.mux.aggregation ≡ 0
    → (w' : Wire) × (groups : List (List Bytes)) × (serve_nals getpeername str
          (annex_b us)
          addr
          (length us)
          (record { stream_buf = 0; stream_len_temp = length (annex_b us); wire = w })
        ≡ some (record { stream_buf = 0; stream_len_temp = length (annex_b us); wire = w' }))
      × (w'.sent
          ≡ w.sent
            ++ broadcast getpeername str
                (timed_packets w.mux.seq w.mux.timestamp w.mux.ssrc groups))
      × ((receive_all fresh (all_payloads groups)).units ≡ us)
serve_nals-delivers getpeername str addr [] w some_unit bytes all ready empty off =
    absurd (some_unit refl)
serve_nals-delivers getpeername str addr (u ∷ us) w some_unit bytes all ready empty off =
    let mem : Bytes = annex_b (u ∷ us) in
    let size : length mem ≡ 4 + length u + length (annex_b us) =
      omega (arith, length-append u (annex_b us)) in
    let pass = serve_nals-Pass getpeername str mem addr bytes us 0 u w refl all ready empty off in
    (
      pass.after,
      pass.groups,
      ap
            (λ n.
              serve_nals getpeername str mem addr (suc (length us))
                (record { stream_buf = 0; stream_len_temp = n; wire = w }))
            size
          ∙ pass.returns,
      pass.sent,
      pass.means fresh,
    )
