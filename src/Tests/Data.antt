-- ===== src/Tests/Data.antt =====
-- The streamer, the context and the units of the tests.
use rtsp_h.Prelude.{ℕ, ◌+◌, refl, true, not, ◌==◌, Option, some, [], ◌∷◌, Bytes, replicate, arith}
use rtsp_h.Mux.{RtpMuxContext}
use rtsp_h.Session.{Session, new_session}
use rtsp_h.Streamer.{Streamer, Wire}
use rtsp_h.Streamer.Delivery.{IsUnit}
use rtsp_h.Streamer.SendData.{IsReady}
use rtsp_h.Sim.AnnexB.{IsEscaped}
use rtsp_h.Transport.{Udp, System}
use rtsp_h.Clients.{new_streamer}

abbrev pub peers : ℕ → Option (ℕ × ℕ)
peers s = some (16777343, 40000 + s)

abbrev pub tcp_player : Session
tcp_player = record (new_session 5 9) { streaming = true; tcp_transport = true }

abbrev pub udp_player : Session
udp_player = record (new_session 6 10) { streaming = true; rtp_client_port = 7000 }

abbrev pub streamer : Streamer
streamer = record (new_streamer 800 480) { clients = tcp_player ∷ udp_player ∷ [] }

-- With aggregation or without.
abbrev pub context : ℕ → RtpMuxContext
context aggregation = record {
  cache = replicate 1416 0;
  buf = replicate 1400 0;
  buf_ptr = 0;
  aggregation = aggregation;
  payload_type = 1;
  ssrc = 0x12345678;
  seq = 65535;
  timestamp = 3000;
}

abbrev pub wire : ℕ → Wire
wire aggregation = record { mux = context aggregation; sent = [] }

pub context-IsReady : (aggregation : ℕ) → IsReady (context aggregation)
context-IsReady aggregation = record { cache_size = refl; buf_size = refl; seq_fits = omega arith }

-- A parameter set, and a slice that needs two fragments.
abbrev pub small_unit : Bytes
small_unit = 64 ∷ 1 ∷ 12 ∷ 0 ∷ 0 ∷ 3 ∷ 1 ∷ []

abbrev pub large_unit : Bytes
large_unit = 38 ∷ 1 ∷ (replicate 1500 7)

pub small_unit-IsUnit : IsUnit small_unit
small_unit-IsUnit = record {
  kind = 32;
  kind_lt = omega arith;
  body = 12 ∷ 0 ∷ 0 ∷ 3 ∷ 1 ∷ [];
  begins = refl;
}

pub large_unit-IsUnit : IsUnit large_unit
large_unit-IsUnit = record {
  kind = 19;
  kind_lt = omega arith;
  body = replicate 1500 7;
  begins = refl;
}

pub small_unit-IsEscaped : IsEscaped small_unit
small_unit-IsEscaped = record { none_inside = refl; no_zero_end = refl; nonempty = omega arith }

abbrev pub tiny_unit : Bytes
tiny_unit = 38 ∷ 1 ∷ 9 ∷ []

pub tiny_unit-IsUnit : IsUnit tiny_unit
tiny_unit-IsUnit = record { kind = 19; kind_lt = omega arith; body = 9 ∷ []; begins = refl }

pub tiny_unit-IsEscaped : IsEscaped tiny_unit
tiny_unit-IsEscaped = record { none_inside = refl; no_zero_end = refl; nonempty = omega arith }

-- Every port from 6972 on can be had.
abbrev pub system : System
system = record { binds = λ p. not (p == 6970); descriptor = λ p. p + 3 }

abbrev pub idle : Udp
idle = record { str = streamer; closed = [] }
