-- ===== src/RtpEnc/Avc.antt =====
-- src/RTPEnc.cpp, `rtpSendNALH264AVC`: any call of it.
use rtsp_h.Prelude.{
  ℕ, suc, ◌+◌, ◌-◌, ◌*◌, ◌/◌, ◌%◌, ◌≤◌, ◌<◌, ◌≡◌, ◌≢◌, ◌⊎◌, refl, sym, subst, ◌∙◌, inl, inr, some,
  List, [], ◌∷◌, ◌++◌, leb, leb→le, ◌==◌, Bool-cases, Bytes, write-over_at, over, length-over,
  length, length-append, take, take-append, drop, bit_and, bit_or, bit_or_0x80, agree, table, arith,
}
use rtsp_h.Network.{UdpContext, Net}
use rtsp_h.Receiver.{Receiver}
use rtsp_h.Receiver.H264.{receive_h264, receive_fu_a}
use rtsp_h.Streamer.Fragment.{put_zeroth, put_first}
use rtsp_h.Streamer.SendData.{IsReady}
use rtsp_h.RtpEnc.{
  Sender, put_mux, avc_headers, send_data, gather, fragments, fragment_avc, send_nal_h264,
}
use rtsp_h.RtpEnc.Fragments.{Heads}
use rtsp_h.RtpEnc.Rounds.{Reads}
use rtsp_h.RtpEnc.Waiting.{Holds}
use rtsp_h.RtpEnc.Nal.{Keeps, single-Keeps, fragments-Keeps}
use rtsp_h.RtpEnc.Gather.{send_waiting-Flushes, gather-Keeps}

-- A NAL unit of H.264: the F bit is 0, and the type is one of a single unit.
pub record IsAvcUnit (u : Bytes) : Type 0 where
  pub nri : ℕ
  pub kind : ℕ
  pub nri_lt : nri < 4
  pub kind_lt : kind < 24
  pub body : Bytes
  pub begins : u ≡ (nri * 32 + kind) ∷ body

-- How the receiver takes fragments of such a unit.
Reads-avc :
    (nri kind : ℕ)
    → nri < 4
    → kind < 24
    → Reads receive_h264 ((nri * 32 + 28) ∷ []) ((nri * 32 + kind) ∷ []) kind
unfolding receive_h264 receive_fu_a
Reads-avc nri kind hn hk = record {
  starts = λ r b. ground arith;
  goes_on = λ r b. ground arith;
  ends = λ r b. ground arith;
}

receive_h264-unit :
    (r : Receiver) (nri kind : ℕ) (body : Bytes)
    → nri < 4
    → kind < 24
    → receive_h264 r ((nri * 32 + kind) ∷ body)
      ≡ record r { units = r.units ++ ((nri * 32 + kind) ∷ body) ∷ [] }
unfolding receive_h264
receive_h264-unit r nri kind body hn hk = ground arith

-- The headers of the first fragment.
indicator : (x : ℕ) → x < 256 → bit_or 28 (bit_and x 0x60) ≡ x / 32 % 4 * 32 + 28
unfolding agree
indicator = table 256 (λ x. bit_or 28 (bit_and x 0x60)) (λ x. x / 32 % 4 * 32 + 28) refl

type_bits : (x : ℕ) → x < 256 → bit_and x 0x1F ≡ x % 32
unfolding agree
type_bits = table 256 (λ x. bit_and x 0x1F) (λ x. x % 32) refl

avc_headers-over :
    (b : Bytes) (x : ℕ)
    → length b ≡ 1400
    → x < 256
    → avc_headers b x ≡ some (over ((x / 32 % 4 * 32 + 28) ∷ (x % 32 + 128) ∷ []) b)
unfolding avc_headers
avc_headers-over b x n h =
    let i : ℕ = x / 32 % 4 * 32 + 28 in
    let t : ℕ = x % 32 in
    let mask : bit_or t 128 ≡ t + 128 = bit_or_0x80 t (omega arith) in
    rw (write-over_at [] b (28 ∷ []) 0 refl (omega arith)) (
      rw (indicator x h) (
        rw (put_zeroth 28 i (drop 1 b)) (
          rw (type_bits x h) (
            rw (write-over_at (i ∷ []) b (t ∷ []) 1 refl (omega arith))
              (rw mask (put_first i t (t + 128) (drop 2 b)))))))

module _ (net : Net) (udp : UdpContext) where
  fragment_avc-Keeps :
      (w : Sender) (held : List Bytes) (nri kind : ℕ) (body more : Bytes) (last : ℕ)
      → IsReady w.mux
      → Holds w.mux held
      → nri < 4
      → kind < 24
      → 1400 < length ((nri * 32 + kind) ∷ body)
      → last < 2
      → Keeps udp receive_h264 w held (((nri * 32 + kind) ∷ body) ∷ []) last (
          fragment_avc net udp w
            (((nri * 32 + kind) ∷ body) ++ more)
            (length ((nri * 32 + kind) ∷ body))
            last)
  unfolding fragment_avc
  fragment_avc-Keeps w held nri kind body more last ready h hn hk big m =
      let f = send_waiting-Flushes net udp w held ready h in
      let x : ℕ = nri * 32 + kind in
      let b : Bytes = over ((nri * 32 + 28) ∷ (kind + 128) ∷ []) f.after.mux.buf in
      let n : x / 32 % 4 ≡ nri = omega arith in
      let t : x % 32 ≡ kind = omega arith in
      let full : length b ≡ 1400 =
        length-over ((nri * 32 + 28) ∷ (kind + 128) ∷ []) f.after.mux.buf
          (omega (arith, f.posts.ready.buf_size))
        ∙ f.posts.ready.buf_size in
      let e : avc_headers f.after.mux.buf x ≡ some b =
        rw (n, t) at (avc_headers-over f.after.mux.buf x f.posts.ready.buf_size (omega arith)) in
      let heads : Heads net udp ((nri * 32 + 28) ∷ []) 1 refl (omega arith)
          (put_mux f.after (record (f.after.mux) { buf = b })) (kind + 128) =
        record {
          ready = record {
            cache_size = f.posts.ready.cache_size;
            buf_size = full;
            seq_fits = f.posts.ready.seq_fits;
          };
          rest = f.after.mux.buf;
          room = f.posts.ready.buf_size;
          begins = refl;
        } in
      let k =
        fragments-Keeps udp receive_h264 net w held _ ((nri * 32 + 28) ∷ []) (x ∷ []) b
          (body ++ more) 1 kind (length body) last refl (omega arith) (omega arith) f ready
          (Reads-avc nri kind hn hk) heads m (omega arith) (omega (arith, length-append body more))
          full in
      let fuel : suc (length body) + 1 ≡ length body + (1 + 1) = omega arith in
      let left : suc (length body) - 1 ≡ length body = omega arith in
      rw (f.returns) (
        rw e (
          rw (fuel, left)
            (subst
              (λ c. Keeps udp receive_h264 w held ((x ∷ c) ∷ []) last (
                fragments net udp 1 (length body + (1 + 1))
                  (put_mux f.after (record (f.after.mux) { buf = b })) (body ++ more) (length body)
                  last))
              (take-append body more) k)))

  module _ (w : Sender) (held : List Bytes) (nri kind : ℕ) (body more : Bytes) (last : ℕ)
      (ready : IsReady w.mux) (h : Holds w.mux held) (hn : nri < 4) (hk : kind < 24)
      (m : last < 2) where
    abbrev unit : Bytes
    unit = (nri * 32 + kind) ∷ body

    abbrev whole : take (length unit) (unit ++ more) ≡ unit
    whole = take-append unit more

    alone-Keeps :
        length unit ≤ 1400
        → Keeps udp receive_h264 w []
            (unit ∷ [])
            last
            (send_data net udp w (unit ++ more) (length unit) last)
    alone-Keeps small =
        subst
          (λ v.
            Keeps udp receive_h264 w [] (v ∷ []) last
              (send_data net udp w (unit ++ more) (length unit) last))
          whole
          (single-Keeps udp receive_h264 net w (unit ++ more) (length unit) last ready small
            (omega (arith, length-append unit more)) m
            (subst (λ v. (r : Receiver) → receive_h264 r v ≡ record r { units = r.units ++ v ∷ [] })
              (sym whole) (λ r. receive_h264-unit r nri kind body hn hk)))

    joined-Keeps :
        w.mux.aggregation ≢ 0
        → length unit ≤ 1397
        → Keeps udp receive_h264 w held
            (unit ∷ [])
            last
            (gather net udp 2 w (unit ++ more) (length unit) last)
    joined-Keeps on small =
        subst
          (λ v.
            Keeps udp receive_h264 w held (v ∷ []) last
              (gather net udp 2 w (unit ++ more) (length unit) last))
          whole
          (gather-Keeps net udp w held (unit ++ more) (length unit) last on ready h refl
            (omega arith) small (omega (arith, length-append unit more)))

    unit-Keeps :
        (w.mux.aggregation ≡ 0 → held ≡ [])
        → ((w.mux.aggregation ≡ 0) ⊎ (length unit ≤ 1397) ⊎ (1400 < length unit))
        → Keeps udp receive_h264 w held
            (unit ∷ [])
            last
            (send_nal_h264 net udp w (unit ++ more) (length unit) last)
    unfolding send_nal_h264
    unit-Keeps off size = elim (Bool-cases (leb (length unit) 1400)) [
      | inl small ↦ elim (Bool-cases (w.mux.aggregation == 0)) [
        | inl zero_ ↦
            rw (small, zero_)
              (subst
                (λ l.
                  Keeps udp receive_h264 w l (unit ∷ []) last
                    (send_data net udp w (unit ++ more) (length unit) last))
                (sym (off (ground arith))) (alone-Keeps (leb→le _ _ small)))
        | inr on ↦ rw (small, on) (joined-Keeps (ground arith) (ground arith))
      ]
      | inr large ↦
          rw large
            (fragment_avc-Keeps w held nri kind body more last ready h hn hk (ground arith) m)
    ]

  -- A call for a unit, behind which stands `more`: with aggregation on, it must not be one of 1398
  -- to 1400 bytes; with aggregation off, nothing may wait.
  pub send_nal_h264-Keeps :
      (w : Sender) (held : List Bytes) (u more : Bytes) (last : ℕ)
      → IsReady w.mux
      → Holds w.mux held
      → IsAvcUnit u
      → last < 2
      → (w.mux.aggregation ≡ 0 → held ≡ [])
      → ((w.mux.aggregation ≡ 0) ⊎ (length u ≤ 1397) ⊎ (1400 < length u))
      → Keeps udp receive_h264 w held
          (u ∷ [])
          last
          (send_nal_h264 net udp w (u ++ more) (length u) last)
  send_nal_h264-Keeps w held u more last ready h k m off size =
      subst
        (λ v.
          Keeps udp receive_h264 w held (v ∷ []) last
            (send_nal_h264 net udp w (v ++ more) (length v) last))
        (sym k.begins)
        (unit-Keeps w held k.nri k.kind k.body more last ready h k.nri_lt k.kind_lt m off (
          subst (λ v. (w.mux.aggregation ≡ 0) ⊎ (length v ≤ 1397) ⊎ (1400 < length v)) k.begins
            size))
