-- ===== src/RtpEnc/Stap.antt =====
-- src/RTPEnc.cpp, aggregation packets: the layout of RFC 6184, section 5.7.1, and the NAL header in
-- front of the units.
use rtsp_h.Prelude.{
  ℕ, ◌+◌, ◌*◌, ◌/◌, ◌%◌, ◌^◌, ◌<◌, ◌≡◌, refl, ap, ◌∙◌, max, List, [], ◌∷◌, ◌++◌, Bytes, length,
  bit_and, bit_or, agree, table, arith,
}
use rtsp_h.Avc.FirstCode.{at}
use rtsp_h.Utils.Stores.{be16}
use rtsp_h.Receiver.{Receiver}
use rtsp_h.Receiver.H264.{receive_h264}
use rtsp_h.RtpEnc.{raise_nri}
use rtsp_h.Streamer.Pending.{ap_entries, ap_entries-append, entries-ap_entries}

-- The greatest NRI of the units, and whether one of them has the F bit.
abbrev pub top_nri : List Bytes → ℕ
top_nri [] = 0
top_nri (u ∷ us) = max (at u 0 / 32 % 4) (top_nri us)

abbrev pub any_f : List Bytes → ℕ
any_f [] = 0
any_f (u ∷ us) = max (at u 0 / 128 % 2) (any_f us)

abbrev pub stap_head : List Bytes → ℕ
stap_head us = any_f us * 128 + top_nri us * 32 + 24

abbrev pub stap : List Bytes → Bytes
stap us = stap_head us ∷ ap_entries us

pub top_nri-lt : (us : List Bytes) → top_nri us < 4
top_nri-lt [] = omega arith
top_nri-lt (u ∷ us) = omega (arith, top_nri-lt us)

pub any_f-lt : (us : List Bytes) → any_f us < 2
any_f-lt [] = omega arith
any_f-lt (u ∷ us) = omega (arith, any_f-lt us)

-- One more unit at the end.
top_nri-append :
    (us : List Bytes) (u : Bytes) → top_nri (us ++ u ∷ []) ≡ max (top_nri us) (at u 0 / 32 % 4)
top_nri-append [] u = omega arith
top_nri-append (v ∷ us) u = omega (arith, top_nri-append us u)

any_f-append :
    (us : List Bytes) (u : Bytes) → any_f (us ++ u ∷ []) ≡ max (any_f us) (at u 0 / 128 % 2)
any_f-append [] u = omega arith
any_f-append (v ∷ us) u = omega (arith, any_f-append us u)

-- The bits that the program sets: for the first unit, and for one more.
abbrev first_bits : ℕ → ℕ
first_bits h = bit_or (bit_or 24 (bit_and h 0x60) % 2 ^ 8) (bit_and h 0x80)

pub first_head : (u : Bytes) → at u 0 < 256 → first_bits (at u 0) ≡ stap_head (u ∷ [])
unfolding agree
first_head u h =
    table 256 first_bits (λ x. x / 128 % 2 * 128 + x / 32 % 4 * 32 + 24) refl (at u 0) h
    ∙ omega arith

abbrev next_bits : ℕ → ℕ → ℕ
next_bits head h = bit_or (raise_nri head h) (bit_and h 0x80)

next_bits-table :
    (f n h : ℕ)
    → f < 2
    → n < 4
    → h < 256
    → next_bits (f * 128 + n * 32 + 24) h ≡ max f (h / 128 % 2) * 128 + max n (h / 32 % 4) * 32 + 24
unfolding agree
next_bits-table f n h hf hn hh =
    let y : ℕ = f * 1024 + n * 256 + h in
    let f' : y / 1024 ≡ f = omega arith in
    let n' : y / 256 % 4 ≡ n = omega arith in
    let h' : y % 256 ≡ h = omega arith in
    rw (f', n', h') at
      (table 2048 (λ y. next_bits (y / 1024 * 128 + y / 256 % 4 * 32 + 24) (y % 256))
        (λ y.
          max (y / 1024) (y % 256 / 128 % 2) * 128 + max (y / 256 % 4) (y % 256 / 32 % 4) * 32 + 24)
        refl y (omega arith))

pub next_head :
    (us : List Bytes) (u : Bytes)
    → at u 0 < 256
    → next_bits (stap_head us) (at u 0) ≡ stap_head (us ++ u ∷ [])
next_head us u h =
    next_bits-table (any_f us) (top_nri us) (at u 0) (any_f-lt us) (top_nri-lt us) h
    ∙ omega (arith, any_f-append us u, top_nri-append us u)

-- A packet with one more unit.
pub stap-append :
    (us : List Bytes) (u : Bytes)
    → stap (us ++ u ∷ []) ≡ (stap_head (us ++ u ∷ []) ∷ ap_entries us) ++ (be16 (length u) ++ u)
stap-append us u = ap (λ e. stap_head (us ++ u ∷ []) ∷ e) (ap_entries-append us u)

-- A receiver takes the packet apart.
pub receive_h264-stap :
    (r : Receiver) (us : List Bytes)
    → length (stap us) < 2 ^ 16
    → receive_h264 r (stap us) ≡ record r { units = r.units ++ us }
unfolding receive_h264
receive_h264-stap r us small =
    let not_28 : stap_head us % 32 ≡ 24 = omega arith in
    rw not_28 (rw (entries-ap_entries (length (ap_entries us)) us (omega arith) (omega arith)) refl)
