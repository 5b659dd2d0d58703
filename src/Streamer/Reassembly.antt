-- ===== src/Streamer/Reassembly.antt =====
-- src/CStreamer.cpp, fragmentation units: what a receiver makes of the fragments.
use rtsp_h.Prelude.{
  ℕ, zero, suc, ◌+◌, ◌-◌, ◌*◌, ◌%◌, ◌≤◌, ◌<◌, ◌≡◌, refl, ap, subst, ◌∙◌, inl, inr, Option, some,
  List, [], ◌∷◌, ◌++◌, append_assoc, ltb, ltb→lt, ltb→le, Bytes, length, length-take, length-drop,
  take, take-nil, drop, arith, Bool-cases,
}
use rtsp_h.Receiver.{Receiver, receive, receive_fu, receive_all}
use rtsp_h.Streamer.{Streamer, Wire, fragment_loop}
use rtsp_h.Streamer.SendData.{Sends, Sends-trans}
use rtsp_h.Streamer.Fragment.{Heads, full_fragment-Sends, final_fragment-Sends}

module _ (r : Receiver) (t : ℕ) (body : Bytes) (small : t < 64) where
  pub receive_start :
      receive r (98 ∷ 1 ∷ (t + 128) ∷ body) ≡ record r { pending = (t * 2) ∷ 1 ∷ body }
  unfolding receive receive_fu
  receive_start = ground arith

  pub receive_middle : receive r (98 ∷ 1 ∷ t ∷ body) ≡ record r { pending = r.pending ++ body }
  unfolding receive receive_fu
  receive_middle = ground arith

  pub receive_end :
      receive r (98 ∷ 1 ∷ (t + 64) ∷ body)
      ≡ record { pending = []; units = r.units ++ (r.pending ++ body) ∷ [] }
  unfolding receive receive_fu
  receive_end = ground arith

-- No payload is larger than `RTP_PAYLOAD_MAX`.
abbrev pub AllFit : List Bytes → Type 0
AllFit [] = Unit
AllFit (p ∷ ps) = (length p ≤ 1400) × AllFit ps

pub AllFit-append : (ps qs : List Bytes) → AllFit ps → AllFit qs → AllFit (ps ++ qs)
AllFit-append [] qs h k = k
AllFit-append (p ∷ ps) qs h k = (h.0, AllFit-append ps qs h.1 k)

pub take-take-drop :
    (m n : ℕ) (xs : Bytes) → m ≤ n → take m xs ++ take (n - m) (drop m xs) ≡ take n xs
take-take-drop zero n xs h = ap (λ k. take k xs) (omega arith)
take-take-drop (suc m) zero xs h = elim h [ ]
take-take-drop (suc m) (suc n) [] h = rw (take-nil (suc n - suc m))
take-take-drop (suc m) (suc n) (x ∷ xs) h =
    let less : suc n - suc m ≡ n - m = omega arith in
    rw less (rw (take-take-drop m n xs (omega arith)))

-- The fragments that follow the first one: their data goes behind what is pending.
abbrev pub Continues : Bytes → List Bytes → Type 0
Continues part ps =
    (r : Receiver)
    → receive_all r ps ≡ record { pending = []; units = r.units ++ (r.pending ++ part) ∷ [] }

Continues-cons :
    (t size : ℕ) (nal : Bytes) (ps : List Bytes)
    → t < 64
    → 1397 ≤ size
    → Continues (take (size - 1397) (drop 1397 nal)) ps
    → Continues (take size nal) ((98 ∷ 1 ∷ t ∷ take 1397 nal) ∷ ps)
unfolding receive_all
Continues-cons t size nal ps low big ih r = rw (receive_middle r t (take 1397 nal) low) (
    ih (record r { pending = r.pending ++ take 1397 nal })
    ∙ rw
        (
          append_assoc r.pending (take 1397 nal) (take (size - 1397) (drop 1397 nal)),
          take-take-drop 1397 size nal big,
        )
        refl)

pub Continues-start :
    (t : ℕ) (part first : Bytes) (ps : List Bytes)
    → t < 64
    → Continues part ps
    → (r : Receiver)
    → receive_all r ((98 ∷ 1 ∷ (t + 128) ∷ first) ∷ ps)
      ≡ record { pending = []; units = r.units ++ ((t * 2) ∷ 1 ∷ (first ++ part)) ∷ [] }
unfolding receive_all
Continues-start t part first ps low ih r =
    rw (receive_start r t first low) (ih (record r { pending = (t * 2) ∷ 1 ∷ first }))

pub Continues-end :
    (t : ℕ) (part : Bytes) → t < 64 → Continues part ((98 ∷ 1 ∷ (t + 64) ∷ part) ∷ [])
unfolding receive_all
Continues-end t part low r = receive_end r t part low

pub fragment-le :
    (n size head : ℕ) (nal : Bytes) → size ≤ n → length (98 ∷ 1 ∷ head ∷ take size nal) ≤ n + 3
fragment-le n size head nal h = omega (arith, length-take size nal)

module _ (getpeername : ℕ → Option (ℕ × ℕ)) (str : Streamer) where
  -- A run that returns, the payloads that it sent, and what they mean.
  pub record Outcome (w : Wire) (Means : List Bytes → Type 0) (run : Option Wire) : Type 0 where
    pub after : Wire
    pub payloads : List Bytes
    pub returns : run ≡ some after
    pub sends : Sends getpeername str w after payloads
    pub flushed : after.mux.buf_ptr ≡ 0
    pub fits : AllFit payloads
    pub means : Means payloads

  pub fragment_loop-Outcome :
      (k : ℕ) (w : Wire) (nal : Bytes) (size t : ℕ)
      → Heads getpeername str w t
      → t < 64
      → size < k
      → size ≤ length nal
      → Outcome w (Continues (take size nal)) (fragment_loop getpeername str k w nal size)
  unfolding fragment_loop
  fragment_loop-Outcome zero w nal size t h low fuel enough = elim fuel [ ]
  fragment_loop-Outcome (suc k) w nal size t h low fuel enough =
      elim (Bool-cases (ltb 1400 (size + 3))) [
        | inl more ↦
            let big : 1397 < size = omega (arith, ltb→lt _ _ more) in
            let (w₁, e, s, h₁) = full_fragment-Sends getpeername str w nal t h (omega arith) in
            let same : t % 128 ≡ t = omega arith in
            let o =
              fragment_loop-Outcome k w₁ (drop 1397 nal) (size - 1397) t
                (subst (λ x. Heads getpeername str w₁ x) same h₁) low (omega arith)
                (omega (arith, length-drop 1397 nal)) in
            record {
              after = o.after;
              payloads = (98 ∷ 1 ∷ t ∷ take 1397 nal) ∷ o.payloads;
              returns = rw (more, e) o.returns;
              sends =
                  Sends-trans getpeername str ((98 ∷ 1 ∷ t ∷ take 1397 nal) ∷ []) o.payloads
                    h.ready.seq_fits s o.sends;
              flushed = o.flushed;
              fits = (fragment-le 1397 1397 t nal (omega arith), o.fits);
              means = Continues-cons t size nal o.payloads low (omega arith) o.means;
            }
        | inr last ↦
            let small : size ≤ 1397 = omega (arith, ltb→le _ _ last) in
            let (w₁, e, s, ptr) =
              final_fragment-Sends getpeername str w nal size t h low small enough in
            record {
              after = w₁;
              payloads = (98 ∷ 1 ∷ (t + 64) ∷ take size nal) ∷ [];
              returns = rw last e;
              sends = s;
              flushed = ptr;
              fits = (fragment-le 1397 size (t + 64) nal small, tt);
              means = Continues-end t (take size nal) low;
            }
      ]
