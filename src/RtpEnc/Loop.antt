-- ===== src/RtpEnc/Loop.antt =====
-- src/RTPEnc.cpp, the loop over the units of a stream in the byte stream format.
use rtsp_h.Prelude.{
  ℕ, zero, suc, ◌+◌, ◌-◌, ◌%◌, ◌^◌, ◌≤◌, ◌<◌, ◌≡◌, refl, ap, sym, subst, ◌∙◌, inl, inr, true, false,
  Option, some, List, [], ◌∷◌, ◌++◌, append_assoc, append-nil, ltb, lt→ltb, le→ltb, ◌==◌,
  if◌then◌else◌, Bytes, IsBytes, length, drop, arith,
}
use rtsp_h.Network.{UdpContext}
use rtsp_h.Receiver.{Receiver}
use rtsp_h.Receiver.H264.{take_in, take_in-append}
use rtsp_h.Sim.AnnexB.{annex_b, IsEscaped}
use rtsp_h.Sim.Select.{Follows, size, behind, find_startcode-next, skip_startcode-here, rest-there}
use rtsp_h.Streamer.Reassembly.{AllFit, AllFit-append}
use rtsp_h.Streamer.SendData.{IsReady}
use rtsp_h.RtpEnc.{Sender, advance_by, stream_loop}
use rtsp_h.RtpEnc.Fragments.{payloads}
use rtsp_h.RtpEnc.Nal.{Keeps, payloads-append}
use rtsp_h.RtpEnc.Post.{Packet, datagrams, datagrams-append, Stamped}
use rtsp_h.RtpEnc.Rounds.{Marks, Marks-append}
use rtsp_h.RtpEnc.Waiting.{Holds}

-- Every unit of a list is one that the stream can carry.
abbrev pub All : (Bytes → Type 0) → List Bytes → Type 0
All P [] = Unit
All P (u ∷ us) = P u × All P us

-- The packets of one call after the other: the timestamps of a call are `step` above those of the
-- call before.
abbrev pub Timed : (step ts : ℕ) → List (List Packet) → Type 0
Timed step ts [] = Unit
Timed step ts (g ∷ gs) = Stamped ts g × Timed step ((ts + step) % 2 ^ 32) gs

abbrev pub flat : List (List Packet) → List Packet
flat [] = []
flat (g ∷ gs) = g ++ flat gs

pub Follows-annex_b : (us : List Bytes) → All IsEscaped us → Follows (annex_b us)
Follows-annex_b [] h = inl refl
Follows-annex_b ([] ∷ us) (escaped, h) = absurd (omega (arith, escaped.nonempty))
Follows-annex_b ((b ∷ u) ∷ us) h = inr (b, u ++ annex_b us, refl)

abbrev last_of : List Bytes → ℕ
last_of [] = 1
last_of (u ∷ us) = 0

last_of-lt : (us : List Bytes) → last_of us < 2
last_of-lt [] = omega arith
last_of-lt (u ∷ us) = omega arith

-- `r1 == end` behind a unit.
last_of-end :
    (us : List Bytes) (end r : ℕ)
    → end ≡ r + length (annex_b us)
    → (if r == end then 1 else 0) ≡ last_of us
last_of-end [] end r e = ground arith
last_of-end (u ∷ us) end r e = ground arith

module _ (udp : UdpContext) (get : Receiver → Bytes → Receiver)
    (send_nal : Sender → Bytes → ℕ → ℕ → Option Sender) (step : ℕ) (mem : Bytes) (addr : ℕ)
    (bytes : IsBytes mem) where
  -- A run of the loop that brings the units to a receiver.
  pub record Streams (w : Sender) (held us : List Bytes) (run : Option Sender) : Type 0 where
    pub after : Sender
    pub groups : List (List Packet)
    pub returns : run ≡ some after
    pub sent : after.sent ≡ w.sent ++ datagrams udp w.mux.seq w.mux.ssrc (flat groups)
    pub fits : AllFit (payloads (flat groups))
    pub marks : Marks 1 (flat groups)
    pub count : length groups ≡ length us
    pub timed : Timed step w.mux.timestamp groups
    pub means :
        (r : Receiver) → (take_in get r (payloads (flat groups))).units ≡ r.units ++ (held ++ us)

  -- What a call may be made for, with aggregation as it is.
  module _ (May : ℕ → Bytes → Type 0)
      (call : (w : Sender) (held : List Bytes) (u more : Bytes) (last : ℕ)
        → IsReady w.mux
        → Holds w.mux held
        → (w.mux.aggregation ≡ 0 → held ≡ [])
        → May w.mux.aggregation u
        → last < 2
        → Keeps udp get w held (u ∷ []) last (send_nal w (u ++ more) (length u) last)) where
    -- One round.
    round :
        (k p : ℕ) (w : Sender) (held us : List Bytes) (u : Bytes)
        (now : Keeps udp get w held
          (u ∷ [])
          (last_of us)
          (send_nal w (u ++ annex_b us) (length u) (last_of us)))
        → drop p mem ≡ annex_b (u ∷ us)
        → All IsEscaped (u ∷ us)
        → stream_loop send_nal step mem addr (length mem) (suc k) p w
          ≡ stream_loop send_nal step mem addr
              (length mem)
              k
              (p + 4 + length u)
              (advance_by step now.after)
    unfolding stream_loop
    round k p w held us u now there (escaped, all) =
        let follows = Follows-annex_b us all in
        let n = size mem addr bytes p u (annex_b us) there escaped follows in
        let start : ltb p (length mem) ≡ true = lt→ltb p (length mem) (omega (arith, n)) in
        let forward : ltb (p + 4 + length u) (p + 4) ≡ false = le→ltb _ _ (omega arith) in
        let len : p + 4 + length u - (p + 4) ≡ length u = omega arith in
        let at = behind mem addr bytes p u (annex_b us) there escaped follows in
        rw (start, skip_startcode-here mem addr bytes p u (annex_b us) there escaped follows)
          (rw (find_startcode-next mem addr bytes p u (annex_b us) there escaped follows) (
            rw (forward, len, at)
              (rw (last_of-end us (length mem) (p + 4 + length u) (omega (arith, n)))
                (rw (now.returns) refl))))

    -- Behind the last unit the loop ends.
    loop-end :
        (k r : ℕ) (w : Sender)
        → length mem ≤ r
        → stream_loop send_nal step mem addr (length mem) (suc k) r w ≡ some w
    unfolding stream_loop
    loop-end k r w h = rw (le→ltb r (length mem) h) refl

    round-last :
        (w : Sender) (held : List Bytes) (u : Bytes) (run run' : Option Sender)
        (k : Keeps udp get w held (u ∷ []) 1 run)
        → run' ≡ some (advance_by step k.after)
        → Streams w held (u ∷ []) run'
    round-last w held u run run' k e = record {
      after = advance_by step k.after;
      groups = k.packets ∷ [];
      returns = e;
      sent =
          k.posts.sent
          ∙ ap (λ l. w.sent ++ datagrams udp w.mux.seq w.mux.ssrc l) (sym (append-nil k.packets));
      fits = subst (λ l. AllFit (payloads l)) (sym (append-nil k.packets)) k.fits;
      marks = subst (Marks 1) (sym (append-nil k.packets)) (k.closes refl).1;
      count = refl;
      timed = (k.posts.stamped, tt);
      means = λ r.
          ap (λ l. (take_in get r (payloads l)).units) (append-nil k.packets)
          ∙ sym (append-nil _)
          ∙ ap (λ l. (take_in get r (payloads k.packets)).units ++ l) (sym (k.closes refl).0)
          ∙ k.means r;
    }

    round-next :
        (w : Sender) (held us : List Bytes) (u : Bytes) (run run' : Option Sender)
        (k : Keeps udp get w held (u ∷ []) 0 run)
        → w.mux.seq < 2 ^ 16
        → Streams (advance_by step k.after) k.waits us run'
        → Streams w held (u ∷ us) run'
    round-next w held us u run run' k small rest =
        let ps = k.packets in
        let qs = flat rest.groups in
        record {
          after = rest.after;
          groups = k.packets ∷ rest.groups;
          returns = rest.returns;
          sent =
              rest.sent
              ∙ rw
                  (
                    k.posts.sent,
                    k.posts.seq,
                    k.posts.ssrc,
                    datagrams-append udp w.mux.seq w.mux.ssrc ps qs small,
                  )
                  (append_assoc w.sent _ _);
          fits =
              subst AllFit (sym (payloads-append ps qs))
                (AllFit-append (payloads ps) (payloads qs) k.fits rest.fits);
          marks = Marks-append ps qs (k.unmarked refl) rest.marks;
          count = ap suc rest.count;
          timed = (
            k.posts.stamped,
            subst (λ t. Timed step ((t + step) % 2 ^ 32) rest.groups) k.posts.timestamp rest.timed,
          );
          means = λ r.
              ap (λ q. q.units)
                (ap (take_in get r) (payloads-append ps qs)
                  ∙ take_in-append get r (payloads ps) (payloads qs))
              ∙ rest.means (take_in get r (payloads ps))
              ∙ sym (append_assoc (take_in get r (payloads ps)).units k.waits us)
              ∙ ap (λ l. l ++ us) (k.means r)
              ∙ append_assoc r.units (held ++ u ∷ []) us
              ∙ ap (λ l. r.units ++ l) (append_assoc held (u ∷ []) us);
        }

    pub stream_loop-Streams :
        (us : List Bytes) (k p : ℕ) (w : Sender) (held : List Bytes) (u : Bytes)
        → drop p mem ≡ annex_b (u ∷ us)
        → All IsEscaped (u ∷ us)
        → All (May w.mux.aggregation) (u ∷ us)
        → IsReady w.mux
        → Holds w.mux held
        → (w.mux.aggregation ≡ 0 → held ≡ [])
        → length us + 1 < k
        → Streams w held (u ∷ us) (stream_loop send_nal step mem addr (length mem) k p w)
    stream_loop-Streams us zero p w held u there escaped may ready h off fuel = elim fuel [ ]
    stream_loop-Streams [] (suc zero) p w held u there escaped may ready h off fuel =
        absurd (omega arith)
    stream_loop-Streams [] (suc (suc k)) p w held u there escaped may ready h off fuel =
        let now = call w held u [] 1 ready h off may.0 (omega arith) in
        let n = size mem addr bytes p u [] there escaped.0 (inl refl) in
        round-last w held u _ _ now (
          round (suc k) p w held [] u now there escaped
          ∙ loop-end k (p + 4 + length u) (advance_by step now.after) (omega (arith, n)))
    stream_loop-Streams (v ∷ us) (suc k) p w held u there escaped may ready h off fuel =
        let now = call w held u (annex_b (v ∷ us)) 0 ready h off may.0 (omega arith) in
        let next =
          rest-there mem addr bytes p u (annex_b (v ∷ us)) there escaped.0
            (Follows-annex_b (v ∷ us) escaped.1) in
        let ready₁ : IsReady (advance_by step now.after).mux = record {
          cache_size = now.posts.ready.cache_size;
          buf_size = now.posts.ready.buf_size;
          seq_fits = now.posts.ready.seq_fits;
        } in
        let holds₁ : Holds (advance_by step now.after).mux now.waits = record {
          rest = now.holds.rest;
          size = now.holds.size;
          begins = now.holds.begins;
          fill = now.holds.fill;
          room = now.holds.room;
        } in
        let same = now.posts.aggregation in
        let rest =
          stream_loop-Streams us k (p + 4 + length u) (advance_by step now.after) now.waits v next
            escaped.1 (subst (λ a. All (May a) (v ∷ us)) (sym same) may.1) ready₁ holds₁
            (λ z. now.calm (sym same ∙ z)) (omega arith) in
        subst (Streams w held (u ∷ v ∷ us)) (sym (round k p w held (v ∷ us) u now there escaped))
          (round-next w held (v ∷ us) u _ _ now ready.seq_fits rest)
