-- ===== src/Transport.antt =====
-- src/CStreamer.cpp, `InitUdpTransport` and `ReleaseUdpTransport`: the pair of UDP sockets that the
-- sessions share, with the socket calls of src/platglue-posix.h.
pub mod Ports
pub mod Count
use rtsp_h.Prelude.{
  ℕ, zero, suc, ◌+◌, Bool, true, false, not, List, [], ◌∷◌, ◌++◌, ltb, ◌==◌, if◌then◌else◌, ℤ, pos,
  negsuc, increment, decrement, ◌≡◌, refl,
}
use rtsp_h.Streamer.{Streamer}

-- A streamer, and the descriptors closed so far, in order.
pub record Udp : Type 0 where
  pub str : Streamer
  pub closed : List ℕ

-- The system: whether `bind` succeeds on a port, and the descriptor that `socket` gave for it.
pub record System : Type 0 where
  pub binds : ℕ → Bool
  pub descriptor : ℕ → ℕ

-- `udpsocketclose`
unfoldable pub udpsocketclose : Udp → ℕ → Udp
udpsocketclose u s = record u { closed = u.closed ++ s ∷ [] }

-- `udpsocketcreate`: the socket, or 0 where `bind` fails, and then the socket is closed.
unfoldable pub udpsocketcreate : System → Udp → ℕ → Udp × ℕ
udpsocketcreate sys u port =
    if sys.binds port then (u, sys.descriptor port) else (udpsocketclose u (sys.descriptor port), 0)

-- `GetRtpServerPort` and `GetRtcpServerPort`
unfoldable pub get_rtp_server_port : Streamer → ℕ
get_rtp_server_port str = str.rtp_server_port

unfoldable pub get_rtcp_server_port : Streamer → ℕ
get_rtcp_server_port str = str.rtcp_server_port

abbrev pub set_rtp_socket : Udp → ℕ → Udp
set_rtp_socket u s = record u { str = record (u.str) { rtp_socket = s } }

abbrev pub set_rtcp_socket : Udp → ℕ → Udp
set_rtcp_socket u s = record u { str = record (u.str) { rtcp_socket = s } }

abbrev pub set_ports : Udp → ℕ → ℕ → Udp
set_ports u p q = record u { str = record (u.str) { rtp_server_port = p; rtcp_server_port = q } }

-- The body of the loop over the ports; `true` is `break`.
unfoldable pub try_port : System → Udp → ℕ → Udp × Bool
try_port sys u p =
    let (u₁, s) = udpsocketcreate sys u p in
    let u₂ = set_rtp_socket u₁ s in
    if s == 0
    then (u₂, false)
    else let (u₃, t) = udpsocketcreate sys u₂ (p + 1) in
      let u₄ = set_rtcp_socket u₃ t in
      if t == 0
      then (udpsocketclose (udpsocketclose u₄ u₄.str.rtp_socket) u₄.str.rtcp_socket, false)
      else (set_ports u₄ p (p + 1), true)

-- `for (u_short P = 6970; P < 0xFFFE; P += 2)`
unfoldable pub port_loop : System → ℕ → Udp → ℕ → Udp
port_loop sys zero u p = u
port_loop sys (suc k) u p =
    let (u', done) = try_port sys u p in
    let rest = port_loop sys k u' (p + 2) in if ltb p 0xfffe then (if done then u' else rest) else u

abbrev pub with_count : Udp → ℤ → Udp
with_count u n = record u { str = record (u.str) { udp_ref_count = n } }

abbrev pub is_zero : ℤ → Bool
is_zero (pos zero) = true
is_zero _ = false

-- The loop has at most 29282 rounds. The result is always `true`.
unfoldable pub init_udp_transport : System → Udp → Udp × Bool
init_udp_transport sys u =
    if not (is_zero u.str.udp_ref_count)
    then (with_count u (increment u.str.udp_ref_count), true)
    else let u' = port_loop sys 29283 u 6970 in
      (with_count u' (increment u'.str.udp_ref_count), true)

unfoldable pub release_udp_transport : Udp → Udp
release_udp_transport u =
    let u₁ = with_count u (decrement u.str.udp_ref_count) in
    if is_zero u₁.str.udp_ref_count
    then (let u₂ = set_ports u₁ 0 0 in
        let u₃ = udpsocketclose (udpsocketclose u₂ u₂.str.rtp_socket) u₂.str.rtcp_socket in
        set_rtcp_socket (set_rtp_socket u₃ 0) 0)
    else u₁
