-- ===== src/Session.antt =====
-- src/CRtspSession.h: the commands and the state of one RTSP session. A session's streamer and its
-- links in the list of clients are left to the streamer, which holds the sessions in list order.
use rtsp_h.Prelude.{ℕ, Bool, false, Bytes, ℤ, negsuc, ◌+◌, ◌^◌, ltb, if◌then◌else◌, replicate}

pub data RtspCmd : Type 0 where
  rtsp_options rtsp_describe rtsp_setup rtsp_play rtsp_teardown rtsp_unknown : RtspCmd

abbrev pub rtsp_buffer_size : ℕ
rtsp_buffer_size = 500

abbrev pub rtsp_param_string_max : ℕ
rtsp_param_string_max = 50

abbrev pub max_hostname_len : ℕ
max_hostname_len = 56

pub record Session : Type 0 where
  pub streaming : Bool
  pub stopped : Bool
  pub debug : Bool
  pub rtsp_session_id : ℕ
  pub client : ℕ
  pub rtsp_client : ℕ
  pub stream_id : ℤ
  pub client_rtp_port : ℕ
  pub client_rtcp_port : ℕ
  pub tcp_transport : Bool
  pub rtsp_cmd_type : RtspCmd
  pub command_presentation_part : Bytes
  pub command_stream_part : Bytes
  pub command_host_port : Bytes
  pub cseq : ℕ
  pub content_length : ℕ
  pub rtp_client_port : ℕ
  pub rtcp_client_port : ℕ

-- `newCommandInit`
unfoldable pub new_command_init : Session → Session
new_command_init s = record s {
  command_presentation_part = replicate rtsp_param_string_max 0;
  command_stream_part = replicate rtsp_param_string_max 0;
  command_host_port = replicate max_hostname_len 0;
  content_length = 0;
}

-- The constructor; `random` is what `rand()` returned, and `id | 0x80000000` sets its top bit.
unfoldable pub new_session : ℕ → ℕ → Session
new_session random socket = record {
  streaming = false;
  stopped = false;
  debug = false;
  rtsp_session_id = if ltb random (2 ^ 31) then random + 2 ^ 31 else random;
  client = socket;
  rtsp_client = socket;
  stream_id = negsuc 0;
  client_rtp_port = 0;
  client_rtcp_port = 0;
  tcp_transport = false;
  rtsp_cmd_type = RtspCmd.rtsp_unknown;
  command_presentation_part = replicate rtsp_param_string_max 0;
  command_stream_part = replicate rtsp_param_string_max 0;
  command_host_port = replicate max_hostname_len 0;
  cseq = 0;
  content_length = 0;
  rtp_client_port = 0;
  rtcp_client_port = 0;
}
