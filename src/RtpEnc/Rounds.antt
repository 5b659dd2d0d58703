-- ===== src/RtpEnc/Rounds.antt =====
-- src/RTPEnc.cpp, the loop over the fragments: what a receiver makes of them.
use rtsp_h.Prelude.{
  ℕ, zero, suc, ◌+◌, ◌-◌, ◌%◌, ◌≤◌, ◌<◌, ◌≡◌, refl, ap, sym, subst, ◌∙◌, inl, inr, Option, some,
  List, [], ◌∷◌, ◌++◌, append_assoc, ltb, ltb→lt, ltb→le, lt→ltb, Bool-cases, Bytes, length,
  length-take, length-drop, take, drop, arith,
}
use rtsp_h.Network.{UdpContext, Net}
use rtsp_h.Receiver.{Receiver}
use rtsp_h.Receiver.H264.{take_in}
use rtsp_h.Streamer.Reassembly.{AllFit, take-take-drop}
use rtsp_h.RtpEnc.{Sender, fragments}
use rtsp_h.RtpEnc.Post.{Packet, packet, Posts, Posts-trans}
use rtsp_h.RtpEnc.Fragments.{payloads, Heads, length-body, whole_fragment-Posts, end_fragment-Posts}

abbrev pub AllUnmarked : List Packet → Type 0
AllUnmarked [] = Unit
AllUnmarked (p ∷ ps) = (p.mark ≡ 0) × AllUnmarked ps

pub AllUnmarked-append :
    (ps qs : List Packet) → AllUnmarked ps → AllUnmarked qs → AllUnmarked (ps ++ qs)
AllUnmarked-append [] qs h k = k
AllUnmarked-append (p ∷ ps) qs h k = (h.0, AllUnmarked-append ps qs h.1 k)

-- The last packet has this marker, and the others have none.
pub record Marks (last : ℕ) (ps : List Packet) : Type 0 where
  pub front : List Packet
  pub final : Packet
  pub parts : ps ≡ front ++ final ∷ []
  pub unmarked : AllUnmarked front
  pub marked : final.mark ≡ last

pub Marks-append :
    {last : ℕ} (ps qs : List Packet) → AllUnmarked ps → Marks last qs → Marks last (ps ++ qs)
Marks-append ps qs h k = record {
  front = ps ++ k.front;
  final = k.final;
  parts = ap (λ l. ps ++ l) k.parts ∙ sym (append_assoc ps k.front (k.final ∷ []));
  unmarked = AllUnmarked-append ps k.front h k.unmarked;
  marked = k.marked;
}

pub Marks-AllUnmarked : {last : ℕ} (ps : List Packet) → Marks last ps → last ≡ 0 → AllUnmarked ps
Marks-AllUnmarked ps k none =
    subst AllUnmarked (sym k.parts)
      (AllUnmarked-append k.front (k.final ∷ []) k.unmarked (k.marked ∙ none, tt))

-- How a receiver takes fragments of a type: the header of the unit is `opening`.
pub record Reads (get : Receiver → Bytes → Receiver) (pre opening : Bytes) (t : ℕ) : Type 0 where
  pub starts :
      (r : Receiver) (b : Bytes)
      → get r (pre ++ (t + 128) ∷ b) ≡ record r { pending = opening ++ b }
  pub goes_on :
      (r : Receiver) (b : Bytes) → get r (pre ++ t ∷ b) ≡ record r { pending = r.pending ++ b }
  pub ends :
      (r : Receiver) (b : Bytes)
      → get r (pre ++ (t + 64) ∷ b)
        ≡ record { pending = []; units = r.units ++ (r.pending ++ b) ∷ [] }

module _ (net : Net) (udp : UdpContext) (get : Receiver → Bytes → Receiver) where
  -- A run that returns, the packets that it sent, and what they mean.
  pub record Outcome (w : Sender) (last : ℕ) (Means : List Bytes → Type 0) (run : Option Sender)
      : Type 0 where
    pub after : Sender
    pub packets : List Packet
    pub returns : run ≡ some after
    pub posts : Posts udp w after packets
    pub flushed : after.mux.buf_ptr ≡ 0
    pub fits : AllFit (payloads packets)
    pub marks : Marks last packets
    pub means : Means (payloads packets)

  -- The data of the payloads goes behind what is pending.
  abbrev Continues : Bytes → List Bytes → Type 0
  Continues part ps =
      (r : Receiver)
      → take_in get r ps ≡ record { pending = []; units = r.units ++ (r.pending ++ part) ∷ [] }

  -- The payloads are one unit.
  abbrev pub Rebuilds : Bytes → List Bytes → Type 0
  Rebuilds u ps =
      (r : Receiver) → take_in get r ps ≡ record { pending = []; units = r.units ++ u ∷ [] }

  module _ (pre opening : Bytes) (hs t : ℕ) (e : length pre ≡ hs) (short : hs ≤ 2) (low : t < 64)
      (reads : Reads get pre opening t) where
    fragments-Outcome :
        (k : ℕ) (w : Sender) (nal : Bytes) (size last : ℕ)
        → Heads net udp pre hs e short w t
        → last < 2
        → size < k
        → size ≤ length nal
        → Outcome w last (Continues (take size nal)) (fragments net udp hs k w nal size last)
    unfolding fragments
    fragments-Outcome zero w nal size last h m fuel enough = elim fuel [ ]
    fragments-Outcome (suc k) w nal size last h m fuel enough =
        let n : ℕ = 1400 - (hs + 1) in
        elim (Bool-cases (ltb 1400 (size + (hs + 1)))) [
          | inl more ↦
              let big : n < size = omega (arith, ltb→lt _ _ more) in
              let (w₁, go, s, h₁) =
                whole_fragment-Posts net udp pre hs e short w nal t h (omega arith) in
              let same : t % 128 ≡ t = omega arith in
              let o =
                fragments-Outcome k w₁ (drop n nal) (size - n) last
                  (subst (λ x. Heads net udp pre hs e short w₁ x) same h₁) m (omega arith)
                  (omega (arith, length-drop n nal)) in
              let first = packet udp w 0 (pre ++ t ∷ take n nal) in
              record {
                after = o.after;
                packets = first ∷ o.packets;
                returns = rw (more, go) o.returns;
                posts = Posts-trans udp (first ∷ []) o.packets h.ready.seq_fits s o.posts;
                flushed = o.flushed;
                fits = (
                  omega
                      (arith, length-body net udp pre hs e short t (take n nal), length-take n nal),
                  o.fits,
                );
                marks = Marks-append (first ∷ []) o.packets (refl, tt) o.marks;
                means = λ r.
                    ap (λ q. take_in get q (payloads o.packets)) (reads.goes_on r (take n nal))
                    ∙ o.means (record r { pending = r.pending ++ take n nal })
                    ∙ rw
                        (
                          append_assoc r.pending (take n nal) (take (size - n) (drop n nal)),
                          take-take-drop n size nal (omega arith),
                        )
                        refl;
              }
          | inr done ↦
              let small : size + (hs + 1) ≤ 1400 = ltb→le _ _ done in
              let (w₁, go, s, ptr) =
                end_fragment-Posts net udp pre hs e short w nal size t last h low m small enough in
              let only = packet udp w last (pre ++ (t + 64) ∷ take size nal) in
              record {
                after = w₁;
                packets = only ∷ [];
                returns = rw done go;
                posts = s;
                flushed = ptr;
                fits = (
                  omega (
                    arith,
                    length-body net udp pre hs e short (t + 64) (take size nal),
                    length-take size nal,
                  ),
                  tt,
                );
                marks = record {
                  front = [];
                  final = only;
                  parts = refl;
                  unmarked = tt;
                  marked = refl;
                };
                means = λ r. reads.ends r (take size nal);
              }
        ]

    -- From the S bit on, where more than one fragment is needed.
    pub fragments-Rebuilds :
        (w : Sender) (nal : Bytes) (size last : ℕ)
        → Heads net udp pre hs e short w (t + 128)
        → last < 2
        → 1400 < size + (hs + 1)
        → size ≤ length nal
        → Outcome w last
            (Rebuilds (opening ++ take size nal))
            (fragments net udp hs (size + (hs + 1)) w nal size last)
    unfolding fragments
    fragments-Rebuilds w nal size last h m big enough =
        let n : ℕ = 1400 - (hs + 1) in
        let (w₁, go, s, h₁) =
          whole_fragment-Posts net udp pre hs e short w nal (t + 128) h (omega arith) in
        let same : (t + 128) % 128 ≡ t = omega arith in
        let o =
          fragments-Outcome (size + hs) w₁ (drop n nal) (size - n) last
            (subst (λ x. Heads net udp pre hs e short w₁ x) same h₁) m (omega arith)
            (omega (arith, length-drop n nal)) in
        let first = packet udp w 0 (pre ++ (t + 128) ∷ take n nal) in
        let fuel : size + (hs + 1) ≡ suc (size + hs) = omega arith in
        record {
          after = o.after;
          packets = first ∷ o.packets;
          returns = rw fuel (rw (lt→ltb 1400 (size + (hs + 1)) big, go) o.returns);
          posts = Posts-trans udp (first ∷ []) o.packets h.ready.seq_fits s o.posts;
          flushed = o.flushed;
          fits = (
            omega (
              arith,
              length-body net udp pre hs e short (t + 128) (take n nal),
              length-take n nal,
            ),
            o.fits,
          );
          marks = Marks-append (first ∷ []) o.packets (refl, tt) o.marks;
          means = λ r.
              ap (λ q. take_in get q (payloads o.packets)) (reads.starts r (take n nal))
              ∙ o.means (record r { pending = opening ++ take n nal })
              ∙ rw
                  (
                    append_assoc opening (take n nal) (take (size - n) (drop n nal)),
                    take-take-drop n size nal (omega arith),
                  )
                  refl;
        }
