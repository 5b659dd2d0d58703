-- ===== src/RtpEnc/Fragments.antt =====
-- src/RTPEnc.cpp, fragmentation units of both codecs: `pre` is the header in front of the FU header.
use rtsp_h.Prelude.{
  ℕ, ◌+◌, ◌-◌, ◌%◌, ◌≤◌, ◌<◌, ◌≡◌, refl, ap, sym, subst, ◌∙◌, some, List, [], ◌∷◌, ◌++◌, map,
  append_assoc, Bytes, write, read, get_elem?, over, length-over, read-over, write-over,
  write-over_at, length, length-append, length-take, take, drop, drop-append, bit_and, bit_and_0x7f,
  bit_or, bit_or_0x40, arith,
}
use rtsp_h.Network.{UdpContext, Net}
use rtsp_h.Streamer.Fragment.{read_front}
use rtsp_h.Streamer.SendData.{IsReady}
use rtsp_h.RtpEnc.{Sender, put_mux, send_data, whole_fragment, end_fragment}
use rtsp_h.RtpEnc.Post.{Packet, packet, Posts, Posts-from, Posts-to, send_data-Posts}

abbrev pub payloads : List Packet → List Bytes
payloads = map (λ p. p.payload)

-- A buffer that begins with `front`, of which the last byte is read and changed.
get_elem?-last :
    (pre : Bytes) (b : ℕ) (tail : Bytes) → get_elem? ((pre ++ b ∷ []) ++ tail) (length pre) ≡ some b
get_elem?-last [] b tail = refl
get_elem?-last (a ∷ pre) b tail = get_elem?-last pre b tail

over-over : (a b m : Bytes) → over a (over (a ++ b) m) ≡ over (a ++ b) m
over-over a b m =
    rw (append_assoc a b (drop (length (a ++ b)) m))
      (rw (drop-append a (b ++ drop (length (a ++ b)) m)) refl)

write-last :
    (pre : Bytes) (b x : ℕ) (m : Bytes)
    → length pre + 1 ≤ length m
    → write (over (pre ++ b ∷ []) m) (length pre) (x ∷ [])
      ≡ some (over (pre ++ x ∷ []) (over (pre ++ b ∷ []) m))
write-last pre b x m h =
    let size : length (over (pre ++ b ∷ []) m) ≡ length m =
      length-over (pre ++ b ∷ []) m (omega (arith, length-append pre (b ∷ []))) in
    ap (λ o. write o (length pre) (x ∷ [])) (sym (over-over pre (b ∷ []) m))
    ∙ write-over pre (over (pre ++ b ∷ []) m) (x ∷ []) (omega (arith, size))

module _ (net : Net) (udp : UdpContext) (pre : Bytes) (hs : ℕ) (e : length pre ≡ hs)
    (short : hs ≤ 2) where
  -- The context is ready, and its buffer begins with `pre` and this FU header.
  pub record Heads (w : Sender) (head : ℕ) : Type 0 where
    pub ready : IsReady w.mux
    pub rest : Bytes
    pub room : length rest ≡ 1400
    pub begins : w.mux.buf ≡ over (pre ++ head ∷ []) rest

  abbrev pub body : ℕ → Bytes → Bytes
  body head chunk = pre ++ head ∷ chunk

  pub length-body : (head : ℕ) (chunk : Bytes) → length (body head chunk) ≡ hs + 1 + length chunk
  length-body head chunk = omega (arith, e, length-append pre (head ∷ chunk))

  -- The FU header is read, and written anew.
  head_at : {w : Sender} {head : ℕ} → Heads w head → get_elem? w.mux.buf hs ≡ some head
  head_at {w} {head} h =
      ap (get_elem? w.mux.buf) (sym e)
      ∙ rw (h.begins) (get_elem?-last pre head (drop (length (pre ++ head ∷ [])) h.rest))

  put_head :
      {w : Sender} {head : ℕ} (x : ℕ)
      → Heads w head
      → write w.mux.buf hs (x ∷ []) ≡ some (over (pre ++ x ∷ []) w.mux.buf)
  put_head {w} {head} x h =
      ap (λ k. write w.mux.buf k (x ∷ [])) (sym e)
      ∙ rw (h.begins) (write-last pre head x h.rest (omega (arith, h.room, e)))

  -- A packet with this FU header and this part of the unit.
  send_body :
      (w : Sender) (head size mark : ℕ) (rest chunk : Bytes)
      → IsReady w.mux
      → length rest ≡ 1400
      → length chunk ≡ size
      → size + (hs + 1) ≤ 1400
      → mark < 2
      → (w' : Sender) × (b : Bytes) × (write (over (pre ++ head ∷ []) rest) (hs + 1) chunk ≡ some b)
        × (send_data net udp (put_mux w (record (w.mux) { buf = b })) b (size + (hs + 1)) mark
            ≡ some w')
        × (Posts udp w w' (packet udp w mark (body head chunk) ∷ []))
        × (w'.mux.buf ≡ over (pre ++ head ∷ []) b)
        × (length b ≡ 1400)
        × (w'.mux.buf_ptr ≡ 0)
  send_body w head size mark rest chunk ready room n fits m =
      let front : Bytes = (pre ++ head ∷ []) ++ chunk in
      let same : front ≡ body head chunk = append_assoc pre (head ∷ []) chunk in
      let long : length front ≡ size + (hs + 1) =
        omega (arith, ap (λ (xs : Bytes). length xs) same, length-body head chunk, n) in
      let b : Bytes = over front rest in
      let full : length b ≡ 1400 = length-over front rest (omega arith) ∙ room in
      let wrote =
        write-over_at (pre ++ head ∷ []) rest chunk (hs + 1)
          (omega (arith, e, length-append pre (head ∷ []))) (omega arith) in
      let got : read b 0 (size + (hs + 1)) ≡ some front =
        subst (λ k. read b 0 k ≡ some front) long (read-over front rest (omega arith)) in
      let ready₁ : IsReady (record (w.mux) { buf = b }) = record {
        cache_size = ready.cache_size;
        buf_size = full;
        seq_fits = ready.seq_fits;
      } in
      let (w', sent, s, kept, ptr) =
        send_data-Posts udp net (put_mux w (record (w.mux) { buf = b })) b (body head chunk)
          (size + (hs + 1)) mark ready₁ fits m (got ∙ ap some same) in
      (
        w',
        b,
        wrote,
        sent,
        Posts-from udp b w.mux.buf_ptr s,
        kept ∙ sym (over-over (pre ++ head ∷ []) chunk rest),
        full,
        ptr,
      )

  -- A full fragment goes out, and the S bit is cleared.
  pub whole_fragment-Posts :
      (w : Sender) (nal : Bytes) (head : ℕ)
      → Heads w head
      → 1400 - (hs + 1) ≤ length nal
      → (w' : Sender) × (whole_fragment net udp hs w nal ≡ some w')
        × (Posts udp w w' (packet udp w 0 (body head (take (1400 - (hs + 1)) nal)) ∷ []))
        × (Heads w' (head % 128))
  unfolding whole_fragment
  whole_fragment-Posts w nal head h enough =
      let n : ℕ = 1400 - (hs + 1) in
      let chunk : Bytes = take n nal in
      let (w₂, b, wrote, sent, s, kept, full, ptr) =
        send_body w head n 0 h.rest chunk h.ready h.room (omega (arith, length-take n nal))
          (omega arith) (omega arith) in
      let h₂ : Heads w₂ head = record { ready = s.ready; rest = b; room = full; begins = kept } in
      let mask : bit_and head 0x7f ≡ head % 128 = bit_and_0x7f head in
      let size : n + (hs + 1) ≡ 1400 = omega arith in
      let after : Bytes = over (pre ++ (head % 128) ∷ []) w₂.mux.buf in
      let s' =
        Posts-to udp after w₂.mux.buf_ptr
          (length-over (pre ++ (head % 128) ∷ []) w₂.mux.buf
              (omega (arith, e, length-append pre ((head % 128) ∷ []), s.ready.buf_size))
            ∙ s.ready.buf_size)
          s in
      (
        put_mux w₂ (record (w₂.mux) { buf = after }),
        rw (read_front nal n enough, h.begins)
            (rw wrote
              (rw (rw size at sent) (rw (head_at h₂, mask) (rw (put_head (head % 128) h₂) refl)))),
        s',
        record { ready = s'.ready; rest = w₂.mux.buf; room = s.ready.buf_size; begins = refl },
      )

  -- The last fragment has the E bit, and the marker of the unit.
  pub end_fragment-Posts :
      (w : Sender) (nal : Bytes) (size head last : ℕ)
      → Heads w head
      → head < 64
      → last < 2
      → size + (hs + 1) ≤ 1400
      → size ≤ length nal
      → (w' : Sender) × (end_fragment net udp hs w nal size last ≡ some w')
        × (Posts udp w w' (packet udp w last (body (head + 64) (take size nal)) ∷ []))
        × (w'.mux.buf_ptr ≡ 0)
  unfolding end_fragment
  end_fragment-Posts w nal size head last h low m fits enough =
      let chunk : Bytes = take size nal in
      let (w₂, b, wrote, sent, s, kept, full, ptr) =
        send_body w (head + 64) size last w.mux.buf chunk h.ready h.ready.buf_size
          (omega (arith, length-take size nal)) fits m in
      let mask : bit_or head 0x40 ≡ head + 64 = bit_or_0x40 head (omega arith) (omega arith) in
      (
        w₂,
        rw (head_at h, mask)
            (rw (put_head (head + 64) h) (rw (read_front nal size enough) (rw wrote sent))),
        s,
        ptr,
      )
