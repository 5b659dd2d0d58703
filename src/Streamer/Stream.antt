-- ===== src/Streamer/Stream.antt =====
-- src/CStreamer.cpp: the fragmentation branch as a whole, any call of `rtpSendNALH265`, and a
-- sequence of calls.
use rtsp_h.Prelude.{
  ℕ, suc, ◌+◌, ◌-◌, ◌*◌, ◌/◌, ◌%◌, ◌≤◌, ◌<◌, ◌≡◌, refl, ap, subst, ◌∙◌, Option, List, [], ◌∷◌, ◌++◌,
  append_assoc, append-nil, lt→ltb, Bytes, length, length-drop, take, drop, bit_and, bit_and_0x3f,
  arith,
}
use rtsp_h.Receiver.{Receiver, receive_all, receive_all-append}
use rtsp_h.Streamer.{Streamer, Wire, with_mux, fragment_loop, fragment}
use rtsp_h.Streamer.Fragment.{Heads, full_fragment-Sends, start_headers-cons}
use rtsp_h.Streamer.Nal.{Keeps}
use rtsp_h.Streamer.Pending.{Holds, Holds-nil, send_pending-Flushes}
use rtsp_h.Streamer.Reassembly.{
  AllFit-append, Outcome, Continues-start, fragment_loop-Outcome, fragment-le, take-take-drop,
}
use rtsp_h.Streamer.SendData.{IsReady, Sends-trans, Sends-to}

-- The NAL unit that the fragments of `h₀ ∷ h₁ ∷ body` stand for: its type, layer 0, temporal id 1.
abbrev pub plain_header : ℕ → Bytes → Bytes
plain_header h₀ body = (h₀ / 2 % 64 * 2) ∷ 1 ∷ body

module _ (getpeername : ℕ → Option (ℕ × ℕ)) (str : Streamer) where
  abbrev Rebuilds : Bytes → List Bytes → Type 0
  Rebuilds u ps =
      (r : Receiver) → receive_all r ps ≡ record { pending = []; units = r.units ++ u ∷ [] }

  -- The loop from the S bit on: the NAL has more than one fragment.
  first_loop-Outcome :
      (w : Wire) (body : Bytes) (size t : ℕ)
      → Heads getpeername str w (t + 128)
      → t < 64
      → 1398 < size
      → size ≤ length body
      → Outcome getpeername str w
          (Rebuilds ((t * 2) ∷ 1 ∷ take size body))
          (fragment_loop getpeername str (size + 3) w body size)
  unfolding fragment_loop
  first_loop-Outcome w body size t h low big enough =
      let (w₁, e, s, h₁) = full_fragment-Sends getpeername str w body (t + 128) h (omega arith) in
      let same : (t + 128) % 128 ≡ t = omega arith in
      let o =
        fragment_loop-Outcome getpeername str (size + 2) w₁ (drop 1397 body) (size - 1397) t
          (subst (λ x. Heads getpeername str w₁ x) same h₁) low (omega arith)
          (omega (arith, length-drop 1397 body)) in
      let all : take 1397 body ++ take (size - 1397) (drop 1397 body) ≡ take size body =
        take-take-drop 1397 size body (omega arith) in
      let fuel : size + 3 ≡ suc (size + 2) = omega arith in
      record {
        after = o.after;
        payloads = (98 ∷ 1 ∷ (t + 128) ∷ take 1397 body) ∷ o.payloads;
        returns = rw fuel (rw (lt→ltb 1400 (size + 3) (omega arith), e) o.returns);
        sends =
            Sends-trans getpeername str ((98 ∷ 1 ∷ (t + 128) ∷ take 1397 body) ∷ []) o.payloads
              h.ready.seq_fits s o.sends;
        flushed = o.flushed;
        fits = (fragment-le 1397 1397 (t + 128) body (omega arith), o.fits);
        means = λ r.
            Continues-start t (take (size - 1397) (drop 1397 body)) (take 1397 body) o.payloads low
              o.means r
            ∙ ap (λ b. record { pending = []; units = r.units ++ ((t * 2) ∷ 1 ∷ b) ∷ [] }) all;
      }

  -- A NAL unit of more than 1400 bytes: first what waits goes out, then the fragments.
  pub fragment-Keeps :
      (w : Wire) (held : List Bytes) (h₀ h₁ : ℕ) (body : Bytes) (size : ℕ)
      → IsReady w.mux
      → Holds w.mux held
      → 1400 < size
      → size ≤ length (h₀ ∷ h₁ ∷ body)
      → Keeps getpeername str w held
          (plain_header h₀ (take (size - 2) body) ∷ [])
          (fragment getpeername str w (h₀ ∷ h₁ ∷ body) size)
  unfolding fragment
  fragment-Keeps w held h₀ h₁ body size ready h big enough =
      let f = send_pending-Flushes getpeername str w held ready h in
      let t : ℕ = h₀ / 2 % 64 in
      let (tail, room, e) =
        start_headers-cons f.after.mux.buf t f.sends.ready.buf_size (omega arith) in
      let b : Bytes = 98 ∷ 1 ∷ (t + 128) ∷ tail in
      let w₁ : Wire = with_mux f.after (record (f.after.mux) { buf = b }) in
      let s₁ = Sends-to getpeername str b f.after.mux.buf_ptr (omega arith) f.sends in
      let heads : Heads getpeername str w₁ (t + 128) = record {
        ready = s₁.ready;
        tail = tail;
        room = room;
        begins = refl;
      } in
      let o =
        first_loop-Outcome w₁ body (size - 2) t heads (omega arith) (omega arith) (omega arith) in
      let type : bit_and (h₀ / 2) 0x3f ≡ t = bit_and_0x3f (h₀ / 2) in
      let fuel : size + 1 ≡ size - 2 + 3 = omega arith in
      record {
        after = o.after;
        waits = [];
        payloads = f.payloads ++ o.payloads;
        returns = rw (f.returns) (rw type (rw e (rw fuel o.returns)));
        sends = Sends-trans getpeername str f.payloads o.payloads ready.seq_fits s₁ o.sends;
        holds = Holds-nil o.after.mux o.sends.ready.buf_size o.flushed;
        fits = AllFit-append f.payloads o.payloads f.fits o.fits;
        means = λ r.
            append-nil _
            ∙ ap (λ q. q.units)
                (receive_all-append r f.payloads o.payloads
                  ∙ ap (λ q. receive_all q o.payloads) (f.means r)
                  ∙ o.means (record r { units = r.units ++ held }))
            ∙ append_assoc r.units held _;
        calm = λ _. refl;
      }
