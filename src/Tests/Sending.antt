-- ===== src/Tests/Sending.antt =====
-- Runs of the search for units and of the sending.
use rtsp_h.Prelude.{
  ℕ, ◌+◌, ◌%◌, ◌^◌, ◌<◌, ◌≡◌, refl, inl, inr, some, List, [], ◌∷◌, ◌++◌, Bytes, IsBytes, length,
  replicate, read, over, arith,
}
use rtsp_h.Utils.{load32}
use rtsp_h.Utils.Stores.{value, load32-value}
use rtsp_h.Avc.{find_startcode_internal, find_startcode, zero_byte_mask, word}
use rtsp_h.Avc.FirstCode.{FirstCode}
use rtsp_h.Avc.Search.{find_startcode_internal-FirstCode, find_startcode-FirstCode, step_back}
use rtsp_h.Avc.ZeroByte.{zero_byte_mask-zero}
use rtsp_h.Receiver.{Receiver, receive_all}
use rtsp_h.Streamer.{Wire, rtp_send_data, stream_nal}
use rtsp_h.Streamer.Delivery.{stream_nal-delivers}
use rtsp_h.Streamer.Pending.{Holds, stored}
use rtsp_h.Streamer.Reassembly.{AllFit}
use rtsp_h.Streamer.SendData.{IsReady, Sends, broadcast, packets, rtp_send_data-Sends}
use rtsp_h.Sim.{select_next_nal}
use rtsp_h.Sim.AnnexB.{annex_b}
use rtsp_h.Sim.Select.{select_next_nal-unit}
use rtsp_h.Tests.Data.{
  peers, streamer, context, wire, context-IsReady, small_unit, small_unit-IsEscaped, large_unit,
  large_unit-IsUnit, tiny_unit,
}

abbrev two_units : List Bytes
two_units = small_unit ∷ tiny_unit ∷ []

abbrev file : Bytes
file = annex_b two_units

file-IsBytes : IsBytes file
file-IsBytes = ground arith

-- A unit waits in the buffer.
abbrev waiting_wire : Wire
waiting_wire = record (wire 1) {
  mux = record (context 1) {
    buf = over (stored (small_unit ∷ [])) (replicate 1400 0);
    buf_ptr = length (stored (small_unit ∷ []));
  };
}

small_unit-Holds : Holds waiting_wire.mux (small_unit ∷ [])
small_unit-Holds = record {
  rest = replicate 1400 0;
  size = refl;
  begins = refl;
  fill = refl;
  room = omega arith;
}

stream_nal-delivers_example :
    (w' : Wire) × (payloads : List Bytes) × (waits : List Bytes) × (stream_nal peers streamer
        waiting_wire large_unit 1502
      ≡ some w')
    × (w'.sent ≡ [] ++ broadcast peers streamer (packets 65535 3000 0x12345678 payloads))
    × (AllFit payloads)
    × ((r : Receiver)
        → (receive_all r payloads).units ++ waits ≡ r.units ++ (small_unit ∷ large_unit ∷ []))
    × (Holds w'.mux waits)
    × (◌≡◌ {A = ℕ} 1 0 → waits ≡ [])
    × (IsReady w'.mux)
    × (w'.mux.seq ≡ (65535 + length payloads) % 2 ^ 16)
stream_nal-delivers_example =
    stream_nal-delivers peers streamer waiting_wire (small_unit ∷ []) large_unit
      (record { cache_size = refl; buf_size = refl; seq_fits = omega arith }) small_unit-Holds
      large_unit-IsUnit (λ e. ground arith, inr (inl (omega arith)))

find_startcode_internal-FirstCode_example :
    (r : ℕ) × (find_startcode_internal file 2 4 (length file) ≡ some r)
    × (FirstCode file 4 (length file) r)
find_startcode_internal-FirstCode_example =
    find_startcode_internal-FirstCode file (length file) (omega arith) 2 4 file-IsBytes

find_startcode-FirstCode_example :
    (r : ℕ) × (find_startcode file 2 4 (length file)
      ≡ some (step_back file (length file) (omega arith) 4 r))
    × (FirstCode file 4 (length file) r)
find_startcode-FirstCode_example =
    find_startcode-FirstCode file (length file) (omega arith) 2 4 file-IsBytes

zero_byte_mask-zero_example : (0 < 1) × (0 < 2) × (0 < 127) × (0 < 3)
unfolding zero_byte_mask word
zero_byte_mask-zero_example =
    zero_byte_mask-zero 1 2 127 3 (omega arith) (omega arith) (omega arith) (omega arith) refl

load32-value_example :
    (b : Bytes) × (load32 (over (7 ∷ []) (replicate 6 0)) 1 305419896
      ≡ some (over (7 ∷ b) (replicate 6 0), 1 + 4))
    × (length b ≡ 4)
    × (value b ≡ 305419896)
load32-value_example =
    load32-value (7 ∷ []) (replicate 6 0) 1 305419896 refl (omega arith) (omega arith)

rtp_send_data-Sends_example :
    (w' : Wire) × (rtp_send_data peers streamer (wire 0) small_unit 7 0 ≡ some w')
    × (Sends peers streamer (wire 0) w' (small_unit ∷ []))
    × (w'.mux.buf ≡ replicate 1400 0)
    × (w'.mux.buf_ptr ≡ 0)
unfolding read
rtp_send_data-Sends_example =
    rtp_send_data-Sends peers streamer (wire 0) small_unit small_unit 7 (context-IsReady 0)
      (omega arith) refl

select_next_nal-unit_example :
    select_next_nal file 0 0 (4 + length small_unit + length (annex_b (tiny_unit ∷ [])))
    ≡ some (record {
      buf = 0 + 4 + length small_unit;
      size = length (annex_b (tiny_unit ∷ []));
      nal = some (0 + 4);
      nal_len = length small_unit;
    })
select_next_nal-unit_example =
    select_next_nal-unit file 0 file-IsBytes 0 small_unit (annex_b (tiny_unit ∷ [])) refl
      small_unit-IsEscaped (inr (38, 1 ∷ 9 ∷ [], refl))
