-- ===== src/Streamer/Delivery.antt =====
-- src/CStreamer.cpp and src/SimStreamer.cpp: a call of `rtpSendNALH265` on any branch.
use rtsp_h.Prelude.{
  ◌^◌, ℕ, ◌+◌, ◌-◌, ◌*◌, ◌/◌, ◌%◌, ◌≤◌, ◌<◌, ◌≡◌, ◌≢◌, ap, sym, subst, ◌∙◌, ◌⊎◌, inl, inr, not,
  ◌&&◌, Option, some, List, [], ◌∷◌, ◌++◌, append-nil, leb, ◌==◌, leb→le, Bytes, length,
  length-append, take, take-append, arith, Bool-cases,
}
use rtsp_h.Receiver.{Receiver, receive, receive_all}
use rtsp_h.Streamer.{
  Streamer, Wire, aggregate, fragment, rtp_send_data, rtp_send_nal_h265, stream_nal,
}
use rtsp_h.Streamer.Nal.{Keeps, aggregate-Keeps, single-Keeps}
use rtsp_h.Streamer.Pending.{Holds}
use rtsp_h.Streamer.Reassembly.{AllFit}
use rtsp_h.Streamer.SendData.{IsReady, packets, broadcast}
use rtsp_h.Streamer.Stream.{fragment-Keeps}

-- A NAL unit of H.265 in layer 0 with temporal id 1, and of a type that is not kept for packets.
pub record IsUnit (u : Bytes) : Type 0 where
  pub kind : ℕ
  pub kind_lt : kind < 48
  pub body : Bytes
  pub begins : u ≡ (kind * 2) ∷ 1 ∷ body

pub receive-unit :
    (r : Receiver) (kind : ℕ) (body : Bytes)
    → kind < 48
    → receive r ((kind * 2) ∷ 1 ∷ body)
      ≡ record r { units = r.units ++ ((kind * 2) ∷ 1 ∷ body) ∷ [] }
unfolding receive
receive-unit r kind body h = ground arith

-- What may be sent next: nothing waits unless aggregation is on, and where something waits, a unit
-- is small enough to join it, or is fragmented.
abbrev pub MayFollow : ℕ → List Bytes → Bytes → Type 0
MayFollow aggregation held u =
    (aggregation ≡ 0 → held ≡ []) × ((length u ≤ 1396) ⊎ (1400 < length u) ⊎ (held ≡ []))

module _ (getpeername : ℕ → Option (ℕ × ℕ)) (str : Streamer) where
  -- The three branches, each for the whole unit. Behind it in memory stands `more`.
  small-Keeps :
      (w : Wire) (held : List Bytes) (u more : Bytes) (last : ℕ)
      → w.mux.aggregation ≢ 0
      → IsReady w.mux
      → Holds w.mux held
      → length u ≤ 1396
      → Keeps getpeername str w held
          (u ∷ [])
          (aggregate getpeername str w (u ++ more) (length u) last)
  small-Keeps w held u more last on ready h small =
      subst
        (λ v.
          Keeps getpeername str w held (v ∷ [])
            (aggregate getpeername str w (u ++ more) (length u) last))
        (take-append u more)
        (aggregate-Keeps getpeername str w held (u ++ more) (length u) last on ready h small
          (omega (arith, length-append u more)))

  alone-Keeps :
      (w : Wire) (u more : Bytes)
      → IsReady w.mux
      → IsUnit u
      → length u ≤ 1400
      → Keeps getpeername str w []
          (u ∷ [])
          (rtp_send_data getpeername str w (u ++ more) (length u) 0)
  alone-Keeps w u more ready unit small =
      let Plain =
        λ (v : Bytes). (r : Receiver) → receive r v ≡ record r { units = r.units ++ v ∷ [] } in
      let plain : Plain u =
        subst Plain (sym unit.begins) (λ r. receive-unit r unit.kind unit.body unit.kind_lt) in
      let all : take (length u) (u ++ more) ≡ u = take-append u more in
      subst
        (λ v.
          Keeps getpeername str w [] (v ∷ [])
            (rtp_send_data getpeername str w (u ++ more) (length u) 0))
        all
        (single-Keeps getpeername str w (u ++ more) (length u) ready small
          (omega (arith, length-append u more)) (subst Plain (sym all) plain))

  large-Keeps :
      (w : Wire) (held : List Bytes) (u more : Bytes)
      → IsReady w.mux
      → Holds w.mux held
      → IsUnit u
      → 1400 < length u
      → Keeps getpeername str w held (u ∷ []) (fragment getpeername str w (u ++ more) (length u))
  large-Keeps w held u more ready h unit big =
      let body = unit.body in
      let v : Bytes = (unit.kind * 2) ∷ 1 ∷ body in
      let run = λ (x : Bytes). fragment getpeername str w (x ++ more) (length x) in
      let type : unit.kind * 2 / 2 % 64 ≡ unit.kind = omega (arith, unit.kind_lt) in
      let n : length v - 2 ≡ length body = omega arith in
      let rest : take (length v - 2) (body ++ more) ≡ body =
        ap (λ k. take k (body ++ more)) n ∙ take-append body more in
      let whole =
        fragment-Keeps getpeername str w held (unit.kind * 2) 1 (body ++ more) (length v) ready h
          (subst (λ x. 1400 < length x) unit.begins big) (omega (arith, length-append body more)) in
      subst (λ x. Keeps getpeername str w held (x ∷ []) (run x)) (sym unit.begins)
        (subst (λ t. Keeps getpeername str w held (((t * 2) ∷ 1 ∷ body) ∷ []) (run v)) type
          (subst
            (λ b.
              Keeps getpeername str w held (((unit.kind * 2 / 2 % 64 * 2) ∷ 1 ∷ b) ∷ []) (run v))
            rest whole))

  -- One call: it returns, and the units reach a receiver or wait, in their order.
  pub rtp_send_nal_h265-Keeps :
      (w : Wire) (held : List Bytes) (u more : Bytes) (last : ℕ)
      → IsReady w.mux
      → Holds w.mux held
      → IsUnit u
      → MayFollow w.mux.aggregation held u
      → Keeps getpeername str w held
          (u ∷ [])
          (rtp_send_nal_h265 getpeername str w (u ++ more) (length u) last)
  unfolding rtp_send_nal_h265
  rtp_send_nal_h265-Keeps w held u more last ready h unit (off, size) =
      elim (Bool-cases (leb (length u) 1400)) [
        | inl small ↦ elim (Bool-cases (not (w.mux.aggregation == 0) && leb (length u + 4) 1400)) [
          | inl join ↦
              rw (small, join)
                (small-Keeps w held u more last (ground arith) ready h (ground arith))
          | inr alone ↦
              rw (small, alone)
                (let empty : held ≡ [] = ground arith in
                  subst
                    (λ l.
                      Keeps getpeername str w l (u ∷ [])
                        (rtp_send_data getpeername str w (u ++ more) (length u) 0))
                    (sym empty) (alone-Keeps w u more ready unit (leb→le _ _ small)))
        ]
        | inr large ↦ rw large (large-Keeps w held u more ready h unit (ground arith))
      ]

  -- A call for a unit of layer 0 with temporal id 1, of a type below 48, on any branch, with the units
  -- `held` waiting in the buffer. Units wait only with aggregation on, and if some do, this one has at
  -- most 1396 bytes or more than 1400. The call returns; what it sends are packets with consecutive
  -- sequence numbers, the timestamp of the context and no marker, of at most 1400 bytes of payload
  -- each, to every playing session; a receiver that gets them, whatever it had got, has got the units
  -- that waited and this one, in order, but for those that still wait, which the buffer holds and
  -- which are none unless aggregation is on; and the context is ready for the next call.
  pub stream_nal-delivers :
      (w : Wire) (held : List Bytes) (u : Bytes)
      → IsReady w.mux
      → Holds w.mux held
      → IsUnit u
      → MayFollow w.mux.aggregation held u
      → (w' : Wire) × (payloads : List Bytes) × (waits : List Bytes) × (stream_nal getpeername str w
            u
            (length u)
          ≡ some w')
        × (w'.sent
            ≡ w.sent
              ++ broadcast getpeername str (packets w.mux.seq w.mux.timestamp w.mux.ssrc payloads))
        × (AllFit payloads)
        × ((r : Receiver) → (receive_all r payloads).units ++ waits ≡ r.units ++ (held ++ u ∷ []))
        × (Holds w'.mux waits)
        × (w.mux.aggregation ≡ 0 → waits ≡ [])
        × (IsReady w'.mux)
        × (w'.mux.seq ≡ (w.mux.seq + length payloads) % 2 ^ 16)
  unfolding stream_nal
  stream_nal-delivers w held u ready h unit follows =
      let k : Keeps getpeername str w held (u ∷ [])
          (rtp_send_nal_h265 getpeername str w u (length u) 0) =
        rw append-nil at (rtp_send_nal_h265-Keeps w held u [] 0 ready h unit follows) in
      (
        k.after, k.payloads, k.waits, k.returns, k.sends.sent, k.fits, k.means, k.holds, k.calm,
        k.sends.ready, k.sends.seq,
      )
