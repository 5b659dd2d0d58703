-- ===== src/Streamer/Frame.antt =====
-- src/CStreamer.cpp, `rtpSendData`: what stands in the cache when a packet goes out.
use rtsp_h.Prelude.{
  ℕ, zero, suc, ◌+◌, ◌*◌, ◌/◌, ◌%◌, ◌^◌, ◌≤◌, ◌<◌, ◌≡◌, refl, some, [], ◌∷◌, ◌++◌, Bytes, read,
  over, write-over_at, length, bit_and, bit_or, bit_and_0xff, bit_and_0xff00, arith,
}
use rtsp_h.Utils.Stores.{be16, be32, load16-over, load32-over}
use rtsp_h.Mux.{RtpMuxContext}
use rtsp_h.Streamer.{fill_cache}

-- The RTP packet of RFC 3550, section 5.1: version 2, no padding, extension or sources, payload
-- type 96.
abbrev pub rtp_header : (mark seq timestamp ssrc : ℕ) → Bytes
rtp_header mark seq timestamp ssrc =
    128 ∷ (96 + mark * 128) ∷ (be16 seq ++ (be32 timestamp ++ be32 ssrc))

-- The frame of RFC 2326, section 10.12, on channel 0.
abbrev pub interleaved : ℕ → Bytes
interleaved n = b'$' ∷ 0 ∷ (n / 256) ∷ (n % 256) ∷ []

pub marker :
    (mark : ℕ)
    → mark < 2
    → bit_or (bit_and 96 0x7f) (bit_and mark 1 * 2 ^ 7) % 2 ^ 8 ≡ 96 + mark * 128
marker zero h = refl
marker (suc zero) h = refl
marker (suc (suc m)) h = absurd (omega arith)

-- The cache holds the interleaved frame of the packet, and behind it what stood there before.
pub fill_cache-over :
    (ctx : RtpMuxContext) (buf payload : Bytes) (len mark : ℕ)
    → length ctx.cache ≡ 1416
    → ctx.seq < 2 ^ 16
    → len ≤ 1400
    → mark < 2
    → read buf 0 len ≡ some payload
    → length payload ≡ len
    → fill_cache ctx buf len mark
      ≡ some (
          over
            (interleaved (len + 12) ++ (rtp_header mark ctx.seq ctx.timestamp ctx.ssrc ++ payload))
            ctx.cache)
unfolding fill_cache
fill_cache-over ctx buf payload len mark full seq small m got size =
    let c = ctx.cache in
    let n = len + 12 in
    let hi : bit_and n 0xff00 / 2 ^ 8 ≡ n / 256 = bit_and_0xff00 n (omega arith) in
    let lo : bit_and n 0xff ≡ n % 256 = bit_and_0xff n in
    let fits : ctx.seq % 2 ^ 16 ≡ ctx.seq = omega arith in
    let h₁ = interleaved n ++ (128 ∷ (96 + mark * 128) ∷ []) in
    let h₂ = h₁ ++ be16 ctx.seq in
    let h₃ = h₂ ++ be32 ctx.timestamp in
    let h₄ = h₃ ++ be32 ctx.ssrc in
    rw (hi, lo, marker mark m, fits)
      (rw (write-over_at [] c (b'$' ∷ []) 0 refl (omega arith)) (
        rw (write-over_at (b'$' ∷ []) c (0 ∷ []) 1 refl (omega arith)) (
          rw (write-over_at (b'$' ∷ 0 ∷ []) c ((n / 256) ∷ []) 2 refl (omega arith)) (
            rw (write-over_at (b'$' ∷ 0 ∷ (n / 256) ∷ []) c ((n % 256) ∷ []) 3 refl (omega arith)) (
              rw (write-over_at (interleaved n) c (128 ∷ []) 4 refl (omega arith)) (
                rw
                  (write-over_at (interleaved n ++ 128 ∷ []) c ((96 + mark * 128) ∷ []) 5 refl
                    (omega arith))
                  (rw
                    (
                      load16-over h₁ c 6 ctx.seq refl (omega arith),
                      load32-over h₂ c 8 ctx.timestamp refl (omega arith),
                      load32-over h₃ c 12 ctx.ssrc refl (omega arith),
                      got,
                    )
                    (write-over_at h₄ c payload 16 refl (omega arith)))))))))
