-- ===== src/RtpEnc/Waiting.antt =====
-- src/RTPEnc.cpp, aggregation packets: the units that wait in the payload buffer.
use rtsp_h.Prelude.{
  ℕ, ◌+◌, ◌%◌, ◌^◌, ◌≤◌, ◌<◌, ◌≡◌, refl, ap, sym, ◌∙◌, some, List, [], ◌∷◌, ◌++◌, ◌==◌, false,
  Bytes, write-over_at, over, length-over, length, length-append, length-take, take, bit_and,
  bit_or, arith,
}
use rtsp_h.Avc.FirstCode.{at}
use rtsp_h.Mux.{RtpMuxContext}
use rtsp_h.Utils.Stores.{be16}
use rtsp_h.Streamer.{add_entry}
use rtsp_h.Streamer.Entries.{with_buf, add_entry-over}
use rtsp_h.Streamer.Fragment.{put_zeroth}
use rtsp_h.Streamer.Pending.{ap_entries}
use rtsp_h.RtpEnc.{stap_header, raise_nri}
use rtsp_h.RtpEnc.Stap.{stap, stap_head, stap-append, first_head, next_head}

-- What stands in the buffer when these units wait.
abbrev pub stored : List Bytes → Bytes
stored [] = []
stored (u ∷ us) = stap (u ∷ us)

pub length-stored : (us : List Bytes) → length (stored us) ≤ 1 + length (ap_entries us)
length-stored [] = omega arith
length-stored (u ∷ us) = omega arith

stored-append : (us : List Bytes) (u : Bytes) → stored (us ++ u ∷ []) ≡ stap (us ++ u ∷ [])
stored-append [] u = refl
stored-append (v ∷ us) u = refl

pub record Holds (ctx : RtpMuxContext) (held : List Bytes) : Type 0 where
  pub rest : Bytes
  pub size : length rest ≡ 1400
  pub begins : ctx.buf ≡ over (stored held) rest
  pub fill : ctx.buf_ptr ≡ length (stored held)
  pub room : length (stored held) ≤ 1400

pub Holds-nil : (ctx : RtpMuxContext) → length ctx.buf ≡ 1400 → ctx.buf_ptr ≡ 0 → Holds ctx []
Holds-nil ctx n e = record { rest = ctx.buf; size = n; begins = refl; fill = e; room = omega arith }

-- The header of the packet is already that with the new unit `u`, which is still to come.
pub record Headed (ctx : RtpMuxContext) (held : List Bytes) (u : Bytes) : Type 0 where
  pub rest : Bytes
  pub size : length rest ≡ 1400
  pub begins : ctx.buf ≡ over (stap_head (held ++ u ∷ []) ∷ ap_entries held) rest
  pub fill : ctx.buf_ptr ≡ length (stap_head (held ++ u ∷ []) ∷ ap_entries held)

pub stap_header-Headed :
    (ctx : RtpMuxContext) (held : List Bytes) (u : Bytes)
    → length ctx.buf ≡ 1400
    → at u 0 < 256
    → Holds ctx held
    → (b : Bytes) × (p : ℕ) × (stap_header ctx (length (stored held)) (at u 0)
        ≡ some (with_buf ctx b p))
      × (Headed (with_buf ctx b p) held u)
unfolding stap_header
stap_header-Headed ctx [] u n byte h =
    let first : ℕ = bit_or 24 (bit_and (at u 0) 0x60) % 2 ^ 8 in
    let wrote = write-over_at [] ctx.buf (first ∷ []) 0 refl (omega arith) in
    let last : bit_or first (bit_and (at u 0) 0x80) ≡ stap_head (u ∷ []) = first_head u byte in
    let tail : Bytes = over (first ∷ []) ctx.buf in
    (
      over (stap_head (u ∷ []) ∷ []) ctx.buf,
      1,
      rw (h.fill) (rw wrote (rw (put_zeroth first _ _) (rw last refl))),
      record { rest = ctx.buf; size = n; begins = refl; fill = refl },
    )
stap_header-Headed ctx (v ∷ us) u n byte h =
    let held : List Bytes = v ∷ us in
    let raised : ℕ = raise_nri (stap_head held) (at u 0) in
    let some_there : (length (stored held) == 0) ≡ false = ground arith in
    let last : bit_or raised (bit_and (at u 0) 0x80) ≡ stap_head (held ++ u ∷ []) =
      next_head held u byte in
    (
      over (stap_head (held ++ u ∷ []) ∷ ap_entries held) h.rest,
      ctx.buf_ptr,
      rw (some_there, h.begins)
          (rw (put_zeroth (stap_head held) raised _) (rw (put_zeroth raised _ _) (rw last refl))),
      record { rest = h.rest; size = h.size; begins = refl; fill = h.fill },
    )

-- The header and the entry of one unit.
pub join_entry-Holds :
    (ctx : RtpMuxContext) (held : List Bytes) (nal : Bytes) (size : ℕ)
    → length ctx.buf ≡ 1400
    → at (take size nal) 0 < 256
    → Holds ctx held
    → 3 + length (ap_entries held) + size ≤ 1400
    → size ≤ length nal
    → (opened : RtpMuxContext) × (b : Bytes) × (p : ℕ) × (stap_header ctx
          (length (stored held))
          (at (take size nal) 0)
        ≡ some opened)
      × (add_entry opened nal size ≡ some (with_buf ctx b p))
      × (Holds (with_buf ctx b p) (held ++ take size nal ∷ []))
      × (length b ≡ 1400)
join_entry-Holds ctx held nal size n byte h room enough =
    let u : Bytes = take size nal in
    let m : length u ≡ size = omega (arith, length-take size nal) in
    let (b₁, p₁, e₁, o) = stap_header-Headed ctx held u n byte h in
    let w : Bytes = stap_head (held ++ u ∷ []) ∷ ap_entries held in
    let front : Bytes = w ++ (be16 (length u) ++ u) in
    let all : front ≡ stored (held ++ u ∷ []) = sym (stored-append held u ∙ stap-append held u) in
    let len : length front ≡ length w + 2 + size =
      omega (arith, length-append w (be16 (length u) ++ u)) in
    (
      with_buf ctx b₁ p₁,
      over front o.rest,
      p₁ + 2 + size,
      e₁,
      add_entry-over (with_buf ctx b₁ p₁) w o.rest nal size o.begins o.fill (omega (arith, o.size))
          enough (omega arith),
      record {
        rest = o.rest;
        size = o.size;
        begins = ap (λ f. over f o.rest) all;
        fill = omega (arith, len, o.fill) ∙ ap (λ (xs : Bytes). length xs) all;
        room = rw (← all) (omega (arith, len));
      },
      length-over front o.rest (omega (arith, len, o.size)) ∙ o.size,
    )
