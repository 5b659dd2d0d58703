-- ===== src/Streamer/Entries.antt =====
-- src/CStreamer.cpp, aggregation packets: the payload header, and one entry behind those that wait.
use rtsp_h.Prelude.{
  ℕ, ◌+◌, ◌%◌, ◌^◌, ◌≤◌, ◌<◌, ◌≡◌, refl, ap, sym, ◌∙◌, some, List, [], ◌∷◌, ◌++◌, append_assoc,
  Bytes, write-over_at, over, length-over, length, length-append, length-take, take, arith,
}
use rtsp_h.Utils.Stores.{be16, load16-over}
use rtsp_h.Mux.{RtpMuxContext}
use rtsp_h.Streamer.{open_packet, add_entry}
use rtsp_h.Streamer.Pending.{ap_payload, stored, stored-append, Holds}
use rtsp_h.Streamer.Fragment.{read_front}

-- The payload header stands in front of the units that wait, whether there are any or not.
pub record Opened (ctx : RtpMuxContext) (held : List Bytes) : Type 0 where
  pub rest : Bytes
  pub size : length rest ≡ 1400
  pub begins : ctx.buf ≡ over (ap_payload held) rest
  pub fill : ctx.buf_ptr ≡ length (ap_payload held)

abbrev pub with_buf : RtpMuxContext → Bytes → ℕ → RtpMuxContext
with_buf ctx b p = record ctx { buf = b; buf_ptr = p }

pub open_packet-Opened :
    (ctx : RtpMuxContext) (held : List Bytes)
    → length ctx.buf ≡ 1400
    → Holds ctx held
    → (b : Bytes) × (p : ℕ) × (open_packet ctx (length (stored held)) ≡ some (with_buf ctx b p))
      × (Opened (with_buf ctx b p) held)
unfolding open_packet
open_packet-Opened ctx [] n h =
    let first = write-over_at [] ctx.buf (96 ∷ []) 0 refl (omega arith) in
    let second = write-over_at (96 ∷ []) ctx.buf (1 ∷ []) 1 refl (omega arith) in
    (
      over (96 ∷ 1 ∷ []) ctx.buf,
      2,
      rw (first, second, h.fill) refl,
      record { rest = ctx.buf; size = n; begins = refl; fill = refl },
    )
open_packet-Opened ctx (u ∷ us) n h = (
  ctx.buf,
  ctx.buf_ptr,
  ground arith,
  record { rest = h.rest; size = h.size; begins = h.begins; fill = h.fill },
)

-- The size and the unit go behind what is written.
pub add_entry-over :
    (ctx : RtpMuxContext) (front rest nal : Bytes) (size : ℕ)
    → ctx.buf ≡ over front rest
    → ctx.buf_ptr ≡ length front
    → length front + 2 + size ≤ length rest
    → size ≤ length nal
    → size < 2 ^ 16
    → add_entry ctx nal size
      ≡ some (
          with_buf ctx
            (over (front ++ (be16 (length (take size nal)) ++ take size nal)) rest)
            (ctx.buf_ptr + 2 + size))
unfolding add_entry
add_entry-over ctx front rest nal size begins fill room enough small =
    let u : Bytes = take size nal in
    let n : length u ≡ size = omega (arith, length-take size nal) in
    let fits : size % 2 ^ 16 ≡ length u = omega arith in
    let first = load16-over front rest (length front) (length u) refl (omega arith) in
    let second =
      write-over_at (front ++ be16 (length u)) rest u (length front + 2)
        (omega (arith, length-append front (be16 (length u)))) (omega arith) in
    rw (fits, begins, fill)
      (rw first (
        rw (read_front nal size enough) (
          rw second (
            ap (λ f. some (with_buf ctx (over f rest) (length front + 2 + size)))
              (append_assoc front (be16 (length u)) u)))))

pub add_entry-Holds :
    (ctx : RtpMuxContext) (held : List Bytes) (nal : Bytes) (size : ℕ)
    → Opened ctx held
    → length (ap_payload held) + 2 + size ≤ 1400
    → size ≤ length nal
    → (b : Bytes) × (p : ℕ) × (add_entry ctx nal size ≡ some (with_buf ctx b p))
      × (Holds (with_buf ctx b p) (held ++ take size nal ∷ []))
      × (length b ≡ 1400)
add_entry-Holds ctx held nal size o room enough =
    let u : Bytes = take size nal in
    let n : length u ≡ size = omega (arith, length-take size nal) in
    let w : Bytes = ap_payload held in
    let front : Bytes = w ++ (be16 (length u) ++ u) in
    let all : front ≡ stored (held ++ u ∷ []) = sym (stored-append held u) in
    let len : length front ≡ length w + 2 + size =
      omega (arith, length-append w (be16 (length u) ++ u)) in
    (
      over front o.rest,
      ctx.buf_ptr + 2 + size,
      add_entry-over ctx w o.rest nal size o.begins o.fill (omega (arith, o.size)) enough
          (omega arith),
      record {
        rest = o.rest;
        size = o.size;
        begins = ap (λ f. over f o.rest) all;
        fill = omega (arith, len, o.fill) ∙ ap (λ (xs : Bytes). length xs) all;
        room = rw (← all) (omega (arith, len));
      },
      length-over front o.rest (omega (arith, len, o.size)) ∙ o.size,
    )
