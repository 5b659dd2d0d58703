-- ===== src/Mux.antt =====
-- src/RTPEnc.h: the RTP packet context, and `initRTPMuxContext` of src/RTPEnc.cpp. `buf_ptr` is
-- kept as the offset `buf_ptr - buf`.
use rtsp_h.Prelude.{ℕ, Bytes}

abbrev pub rtp_payload_max : ℕ
rtp_payload_max = 1400

abbrev pub rtp_version : ℕ
rtp_version = 2

abbrev pub rtp_h264 : ℕ
rtp_h264 = 96

pub record RtpMuxContext : Type 0 where
  pub cache : Bytes
  pub buf : Bytes
  pub buf_ptr : ℕ
  pub aggregation : ℕ
  pub payload_type : ℕ
  pub ssrc : ℕ
  pub seq : ℕ
  pub timestamp : ℕ

unfoldable pub init_rtp_mux_context : RtpMuxContext → RtpMuxContext
init_rtp_mux_context ctx = record ctx {
  seq = 0;
  timestamp = 0;
  ssrc = 0x12345678;
  aggregation = 0;
  buf_ptr = 0;
  payload_type = 1;
}
