-- ===== src/Streamer/Fragment.antt =====
-- src/CStreamer.cpp, the branch of `rtpSendNALH265` for fragmentation units.
use Prim.Native.Nat.add
use rtsp_h.Prelude.{
  ℕ, suc, ◌+◌, ◌%◌, ◌≤◌, ◌<◌, ◌≡◌, refl, ap, ◌∙◌, Option, some, [], ◌∷◌, le→leb, Bytes, write, read,
  over, length-over, length, length-take, take, drop, bit_and_0x7f, bit_or_0x40, bit_or_0x80,
  bit_and, bit_or, arith, take-append,
}
use rtsp_h.Streamer.{
  start_headers, Streamer, Wire, with_mux, rtp_send_data, full_fragment, final_fragment,
}
use rtsp_h.Streamer.SendData.{IsReady, Sends, Sends-from, Sends-to, rtp_send_data-Sends}

-- A buffer by its first three bytes.
pub put_second :
    (a b c x : ℕ) (tail : Bytes) → write (a ∷ b ∷ c ∷ tail) 2 (x ∷ []) ≡ some (a ∷ b ∷ x ∷ tail)
unfolding write
put_second a b c x tail = rw (le→leb 3 (suc (suc (suc (length tail)))) (omega arith)) refl

pub put_zeroth : (a x : ℕ) (tail : Bytes) → write (a ∷ tail) 0 (x ∷ []) ≡ some (x ∷ tail)
unfolding write
put_zeroth a x tail = rw (le→leb 1 (suc (length tail)) (omega arith)) refl

pub put_first : (a b x : ℕ) (tail : Bytes) → write (a ∷ b ∷ tail) 1 (x ∷ []) ≡ some (a ∷ x ∷ tail)
unfolding write
put_first a b x tail = rw (le→leb 2 (suc (suc (length tail))) (omega arith)) refl

-- The headers of the first fragment, whatever stood in the buffer.
pub start_headers-cons :
    (b : Bytes) (t : ℕ)
    → length b ≡ 1400
    → t < 64
    → (tail : Bytes) × (length tail ≡ 1397) × (start_headers b t ≡ some (98 ∷ 1 ∷ (t + 128) ∷ tail))
unfolding start_headers
start_headers-cons [] t n h = absurd (omega arith)
start_headers-cons (_ ∷ []) t n h = absurd (omega arith)
start_headers-cons (_ ∷ _ ∷ []) t n h = absurd (omega arith)
start_headers-cons (x ∷ y ∷ z ∷ tail) t n h =
    let mask : bit_or t 128 ≡ t + 128 = bit_or_0x80 t (omega arith) in
    (
      tail,
      omega arith,
      rw (put_zeroth x 98 (y ∷ z ∷ tail), put_first 98 y 1 (z ∷ tail), put_second 98 1 z t tail)
          (rw mask (put_second 98 1 t (t + 128) tail)),
    )

put_body :
    (a b c : ℕ) (tail chunk : Bytes)
    → length chunk ≤ length tail
    → write (a ∷ b ∷ c ∷ tail) 3 chunk ≡ some (a ∷ b ∷ c ∷ over chunk tail)
unfolding write
put_body a b c tail chunk h =
    let three : 3 + length chunk ≡ suc (suc (suc (length chunk))) = omega arith in
    rw
      (three, le→leb (suc (suc (suc (length chunk)))) (suc (suc (suc (length tail)))) (omega arith))
      refl

read_body :
    (a b c : ℕ) (tail chunk : Bytes) (n : ℕ)
    → length chunk ≡ n
    → length chunk ≤ length tail
    → read (a ∷ b ∷ c ∷ over chunk tail) 0 (n + 3) ≡ some (a ∷ b ∷ c ∷ chunk)
unfolding read
read_body a b c tail chunk n e h =
    let three : n + 3 ≡ suc (suc (suc (length chunk))) = omega arith in
    let all : length (a ∷ b ∷ c ∷ over chunk tail) ≡ suc (suc (suc (length tail))) =
      ap (λ k. suc (suc (suc k))) (length-over chunk tail h) in
    rw
      (
        three,
        add.zero,
        le→leb (suc (suc (suc (length chunk)))) (length (a ∷ b ∷ c ∷ over chunk tail))
            (omega (arith, all)),
      )
      (rw (take-append chunk (drop (length chunk) tail)) refl)

pub read_front : (m : Bytes) (n : ℕ) → n ≤ length m → read m 0 n ≡ some (take n m)
unfolding read
read_front m n h = rw (add.zero, le→leb n (length m) h) refl

module _ (getpeername : ℕ → Option (ℕ × ℕ)) (str : Streamer) where
  -- The context is ready, and its buffer begins with the payload header and this FU header.
  pub record Heads (w : Wire) (head : ℕ) : Type 0 where
    pub ready : IsReady w.mux
    pub tail : Bytes
    pub room : length tail ≡ 1397
    pub begins : w.mux.buf ≡ 98 ∷ 1 ∷ head ∷ tail

  -- A packet with this FU header and this part of the NAL unit.
  send_body :
      (w : Wire) (head size : ℕ) (tail chunk : Bytes)
      → IsReady w.mux
      → length tail ≡ 1397
      → length chunk ≡ size
      → size ≤ 1397
      → (w' : Wire) × (rtp_send_data getpeername str
            (with_mux w (record (w.mux) { buf = 98 ∷ 1 ∷ head ∷ over chunk tail }))
            (98 ∷ 1 ∷ head ∷ over chunk tail)
            (size + 3)
            0
          ≡ some w')
        × (Sends getpeername str w w' ((98 ∷ 1 ∷ head ∷ chunk) ∷ []))
        × (w'.mux.buf ≡ 98 ∷ 1 ∷ head ∷ over chunk tail)
        × (w'.mux.buf_ptr ≡ 0)
  send_body w head size tail chunk ready room n small =
      let buf : Bytes = 98 ∷ 1 ∷ head ∷ over chunk tail in
      let full = length-over chunk tail (omega arith) in
      let ready₁ : IsReady (record (w.mux) { buf = buf }) = record {
        cache_size = ready.cache_size;
        buf_size = omega (arith, full);
        seq_fits = ready.seq_fits;
      } in
      let (w', e, s, kept, ptr) =
        rtp_send_data-Sends getpeername str (with_mux w (record (w.mux) { buf = buf })) buf
          (98 ∷ 1 ∷ head ∷ chunk) (size + 3) ready₁ (omega arith)
          (read_body 98 1 head tail chunk size n (omega arith)) in
      (w', e, Sends-from getpeername str buf w.mux.buf_ptr s, kept, ptr)

  -- A full fragment goes out, and the S bit is cleared.
  pub full_fragment-Sends :
      (w : Wire) (nal : Bytes) (head : ℕ)
      → Heads w head
      → 1397 ≤ length nal
      → (w' : Wire) × (full_fragment getpeername str w nal ≡ some w')
        × (Sends getpeername str w w' ((98 ∷ 1 ∷ head ∷ take 1397 nal) ∷ []))
        × (Heads w' (head % 128))
  unfolding full_fragment
  full_fragment-Sends w nal head h enough =
      let chunk : Bytes = take 1397 nal in
      let n : length chunk ≡ 1397 = omega (arith, length-take 1397 nal) in
      let t : Bytes = over chunk h.tail in
      let room : length t ≡ 1397 = length-over chunk h.tail (omega (arith, n, h.room)) ∙ h.room in
      let (w₂, e, s, kept, ptr) =
        send_body w head 1397 h.tail chunk h.ready h.room n (omega arith) in
      let mask : bit_and head 0x7f ≡ head % 128 = bit_and_0x7f head in
      let b : Bytes = 98 ∷ 1 ∷ (head % 128) ∷ t in
      let s' = Sends-to getpeername str b w₂.mux.buf_ptr (omega (arith, room)) s in
      (
        with_mux w₂ (record (w₂.mux) { buf = b }),
        rw (read_front nal 1397 (omega arith), h.begins)
            (rw (put_body 98 1 head h.tail chunk (omega (arith, n, h.room)), e)
              (rw kept (rw (mask, put_second 98 1 head (head % 128) t) refl))),
        s',
        record { ready = s'.ready; tail = t; room = room; begins = refl },
      )

  -- The last fragment has the E bit.
  pub final_fragment-Sends :
      (w : Wire) (nal : Bytes) (size head : ℕ)
      → Heads w head
      → head < 64
      → size ≤ 1397
      → size ≤ length nal
      → (w' : Wire) × (final_fragment getpeername str w nal size ≡ some w')
        × (Sends getpeername str w w' ((98 ∷ 1 ∷ (head + 64) ∷ take size nal) ∷ []))
        × (w'.mux.buf_ptr ≡ 0)
  unfolding final_fragment
  final_fragment-Sends w nal size head h low small enough =
      let chunk : Bytes = take size nal in
      let n : length chunk ≡ size = omega (arith, length-take size nal) in
      let (w₂, e, s, kept, ptr) =
        send_body w (head + 64) size h.tail chunk h.ready h.room n small in
      let mask : bit_or head 0x40 ≡ head + 64 = bit_or_0x40 head (omega arith) (omega arith) in
      (
        w₂,
        rw (h.begins) (
            rw (mask, put_second 98 1 head (head + 64) h.tail, read_front nal size enough)
              (rw (put_body 98 1 (head + 64) h.tail chunk (omega (arith, n, h.room)), e) refl)),
        s,
        ptr,
      )
