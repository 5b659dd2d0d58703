-- ===== src/Tests/Datagrams.antt =====
-- Runs of the plain senders and of the opening of their socket.
use rtsp_h.Prelude.{
  ℕ, ◌≡◌, Bool, true, ltb, ◌&&◌, refl, inl, inr, none, some, List, [], ◌∷◌, ◌++◌, Bytes, IsBytes,
  length, replicate, pos, arith,
}
use rtsp_h.Network.{UdpContext, Net, udp_init, check_udp, open_udp}
use rtsp_h.Network.Opened.{Opens, udp_init-Opens}
use rtsp_h.Receiver.{Receiver, fresh, receive, receive_all}
use rtsp_h.Receiver.H264.{receive_h264, take_in}
use rtsp_h.Sim.AnnexB.{annex_b, IsEscaped}
use rtsp_h.Streamer.Reassembly.{AllFit}
use rtsp_h.Streamer.Entries.{with_buf}
use rtsp_h.RtpEnc.{Sender, stap_header, send_nal_h264, send_nal_h265, send_h264, send_h265}
use rtsp_h.RtpEnc.Delivery.{MayAvc, send_h264-delivers, send_h265-delivers}
use rtsp_h.RtpEnc.Fragments.{payloads}
use rtsp_h.RtpEnc.Hevc.{send_nal_h265-misread}
use rtsp_h.RtpEnc.Loop.{Timed, flat}
use rtsp_h.RtpEnc.Overflow.{send_nal-overflow}
use rtsp_h.RtpEnc.Post.{Packet, packet, datagrams, Posts}
use rtsp_h.RtpEnc.Rounds.{Marks}
use rtsp_h.RtpEnc.Stap.{stap}
use rtsp_h.RtpEnc.Waiting.{Holds-nil, Headed, stap_header-Headed}
use rtsp_h.Tests.Data.{
  context, context-IsReady, small_unit, small_unit-IsUnit, small_unit-IsEscaped, tiny_unit,
  tiny_unit-IsUnit, tiny_unit-IsEscaped,
}

abbrev net : Net
net = record {
  socket = pos 3;
  inet_aton = λ _. some 16777343;
  sendto = λ d. pos (length d.payload);
}

abbrev peer : UdpContext
peer = record {
  dst_ip = some (b'1' ∷ []);
  dst_port = pos 9832;
  sin_addr = 0;
  sin_port = 0;
  socket = pos 0;
}

abbrev sender : ℕ → Sender
sender aggregation = record { mux = context aggregation; sent = [] }

udp_init-Opens_example : Opens net peer
unfolding udp_init check_udp open_udp
udp_init-Opens_example = udp_init-Opens net peer refl

-- A parameter set, a slice that needs two fragments, and a small slice.
abbrev set_unit : Bytes
set_unit = 103 ∷ 66 ∷ 1 ∷ []

abbrev slice_unit : Bytes
slice_unit = 101 ∷ (replicate 1500 7)

abbrev last_unit : Bytes
last_unit = 65 ∷ 9 ∷ []

abbrev avc_units : List Bytes
avc_units = set_unit ∷ slice_unit ∷ last_unit ∷ []

set_unit-MayAvc : MayAvc 1 set_unit
set_unit-MayAvc = (
  record {
    nri = 3;
    kind = 7;
    nri_lt = omega arith;
    kind_lt = omega arith;
    body = 66 ∷ 1 ∷ [];
    begins = refl;
  },
  inr (inl (omega arith)),
)

slice_unit-MayAvc : MayAvc 1 slice_unit
slice_unit-MayAvc = (
  record {
    nri = 3;
    kind = 5;
    nri_lt = omega arith;
    kind_lt = omega arith;
    body = replicate 1500 7;
    begins = refl;
  },
  inr (inr (omega arith)),
)

last_unit-MayAvc : MayAvc 1 last_unit
last_unit-MayAvc = (
  record {
    nri = 2;
    kind = 1;
    nri_lt = omega arith;
    kind_lt = omega arith;
    body = 9 ∷ [];
    begins = refl;
  },
  inr (inl (omega arith)),
)

abbrev all_bytes : Bytes → Bool
all_bytes [] = true
all_bytes (b ∷ bs) = ltb b 256 && all_bytes bs

all_bytes-IsBytes : (m : Bytes) → all_bytes m ≡ true → IsBytes m
all_bytes-IsBytes [] h = tt
all_bytes-IsBytes (b ∷ bs) h = (ground arith, all_bytes-IsBytes bs (ground arith))

avc-IsBytes : IsBytes (annex_b avc_units)
avc-IsBytes = all_bytes-IsBytes (annex_b avc_units) refl

slice_unit-IsEscaped : IsEscaped slice_unit
slice_unit-IsEscaped = record { none_inside = refl; no_zero_end = refl; nonempty = omega arith }

set_unit-IsEscaped : IsEscaped set_unit
set_unit-IsEscaped = record { none_inside = refl; no_zero_end = refl; nonempty = omega arith }

last_unit-IsEscaped : IsEscaped last_unit
last_unit-IsEscaped = record { none_inside = refl; no_zero_end = refl; nonempty = omega arith }

send_h264-delivers_example :
    (w' : Sender) × (groups : List (List Packet)) × (send_h264 net 0
        (some peer)
        (sender 1)
        (some (annex_b avc_units))
        (pos (length (annex_b avc_units)))
      ≡ some w')
    × (w'.sent ≡ [] ++ datagrams peer 65535 0x12345678 (flat groups))
    × (AllFit (payloads (flat groups)))
    × (Marks 1 (flat groups))
    × (length groups ≡ 3)
    × (Timed 3600 3000 groups)
    × ((take_in receive_h264 fresh (payloads (flat groups))).units ≡ avc_units)
send_h264-delivers_example =
    send_h264-delivers net peer 0 avc_units (sender 1) (λ h. cc h) avc-IsBytes
      (set_unit-IsEscaped, (slice_unit-IsEscaped, (last_unit-IsEscaped, tt)))
      (set_unit-MayAvc, (slice_unit-MayAvc, (last_unit-MayAvc, tt))) (context-IsReady 1) refl

abbrev hevc_units : List Bytes
hevc_units = small_unit ∷ tiny_unit ∷ []

hevc-IsBytes : IsBytes (annex_b hevc_units)
hevc-IsBytes = ground arith

send_h265-delivers_example :
    (w' : Sender) × (groups : List (List Packet)) × (send_h265 net 0
        (some peer)
        (sender 0)
        (some (annex_b hevc_units))
        (pos (length (annex_b hevc_units)))
      ≡ some w')
    × (w'.sent ≡ [] ++ datagrams peer 65535 0x12345678 (flat groups))
    × (AllFit (payloads (flat groups)))
    × (Marks 1 (flat groups))
    × (length groups ≡ 2)
    × (Timed 3000 3000 groups)
    × ((receive_all fresh (payloads (flat groups))).units ≡ hevc_units)
send_h265-delivers_example =
    send_h265-delivers net peer 0 hevc_units (sender 0) (λ h. cc h) hevc-IsBytes
      (small_unit-IsEscaped, (tiny_unit-IsEscaped, tt)) (small_unit-IsUnit, (tiny_unit-IsUnit, tt))
      refl (context-IsReady 0) refl

send_nal_h265-misread_example :
    (w' : Sender) × (send_nal_h265 net peer (sender 1) tiny_unit 3 1 ≡ some w')
    × (Posts peer (sender 1) w' (packet peer (sender 1) 1 (stap (tiny_unit ∷ [])) ∷ []))
    × ((r : Receiver)
        → (receive r (stap (tiny_unit ∷ []))).units ≡ r.units ++ stap (tiny_unit ∷ []) ∷ [])
send_nal_h265-misread_example =
    send_nal_h265-misread net peer (sender 1) [] tiny_unit (context-IsReady 1)
      (Holds-nil (context 1) refl refl) (λ h. absurd (omega arith)) (omega arith) (omega arith)
      (omega arith)

abbrev tight_unit : Bytes
tight_unit = 65 ∷ (replicate 1397 7)

send_nal-overflow_example :
    (send_nal_h264 net peer (sender 1) tight_unit 1398 1 ≡ none)
    × (send_nal_h265 net peer (sender 1) tight_unit 1398 1 ≡ none)
send_nal-overflow_example =
    send_nal-overflow net peer tight_unit (omega arith) (omega arith) (omega arith) (sender 1) 1
      (context-IsReady 1) refl (λ h. absurd (omega arith))

stap_header-Headed_example :
    (b : Bytes) × (p : ℕ) × (stap_header (context 1) 0 103 ≡ some (with_buf (context 1) b p))
    × (Headed (with_buf (context 1) b p) [] set_unit)
stap_header-Headed_example =
    stap_header-Headed (context 1) [] set_unit refl (omega arith) (Holds-nil (context 1) refl refl)
