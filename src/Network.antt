-- ===== src/Network.antt =====
-- src/Network.h and src/Network.cpp: a UDP socket and its peer. The answers of `socket`, `inet_aton`
-- and `sendto` are parameters. `sin_family` is always `AF_INET` and is left out.
pub mod Opened
use rtsp_h.Prelude.{
  ℕ, ◌-◌, ◌%◌, ◌^◌, Bool, true, false, Option, none, some, List, [], ◌∷◌, ◌==◌, if◌then◌else◌,
  ◌>>=◌, Bytes, read, ℤ, pos, negsuc,
}

-- The port is in host order, an `int`.
pub record UdpContext : Type 0 where
  pub dst_ip : Option Bytes
  pub dst_port : ℤ
  pub sin_addr : ℕ
  pub sin_port : ℕ
  pub socket : ℤ

-- What is handed to `sendto`.
pub record Datagram : Type 0 where
  pub socket : ℤ
  pub payload : Bytes
  pub addr : ℕ
  pub port : ℕ

pub record Net : Type 0 where
  pub socket : ℤ
  pub inet_aton : Bytes → Option ℕ
  pub sendto : Datagram → ℤ

abbrev pub to_peer : UdpContext → Bytes → Datagram
to_peer udp bytes = record {
  socket = udp.socket;
  payload = bytes;
  addr = udp.sin_addr;
  port = udp.sin_port;
}

abbrev pub is_negative : ℤ → Bool
is_negative (pos _) = false
is_negative (negsuc _) = true

abbrev pub is_count : ℤ → ℕ → Bool
is_count (pos m) n = m == n
is_count (negsuc _) n = false

-- `inet_aton` leaves the address as it is where it fails.
abbrev pub address : Option ℕ → ℕ → ℕ
address none old = old
address (some a) old = a

-- The argument of `htons`, which has 16 bits.
abbrev pub low_16 : ℤ → ℕ
low_16 (pos n) = n % 2 ^ 16
low_16 (negsuc n) = 2 ^ 16 - 1 - n % 2 ^ 16

abbrev pub is_zero_port : ℤ → Bool
is_zero_port (pos n) = n == 0
is_zero_port (negsuc _) = false

abbrev pub with_address : Net → UdpContext → Bytes → UdpContext
with_address net udp ip = record udp {
  socket = net.socket;
  sin_port = low_16 udp.dst_port;
  sin_addr = address (net.inet_aton ip) udp.sin_addr;
}

-- `udpInit` from the call of `socket` on: the context, the result, and what was sent. The test
-- sends the NUL of an empty text.
unfoldable pub open_udp : Net → UdpContext → Bytes → Option UdpContext × (ℤ × List Datagram)
open_udp net udp ip =
    let udp₁ = with_address net udp ip in
    let probe = to_peer udp₁ (0 ∷ []) in
    if is_negative net.socket
    then (some (record udp { socket = net.socket }), (negsuc 0, []))
    else (some udp₁, (if is_count (net.sendto probe) 1 then pos 0 else negsuc 0, probe ∷ []))

unfoldable pub check_udp : Net → UdpContext → Option Bytes → Option UdpContext × (ℤ × List Datagram)
check_udp net udp none = (some udp, (negsuc 0, []))
check_udp net udp (some ip) =
    if is_zero_port udp.dst_port then (some udp, (negsuc 0, [])) else open_udp net udp ip

-- `udpInit`; `none` is a null pointer.
unfoldable pub udp_init : Net → Option UdpContext → Option UdpContext × (ℤ × List Datagram)
udp_init net none = (none, (negsuc 0, []))
udp_init net (some udp) = check_udp net udp udp.dst_ip

-- `udpSend`: its result, and the datagram.
unfoldable pub udp_send : Net → UdpContext → Bytes → ℕ → Option (ℤ × Datagram)
udp_send net udp bytes len = do
  frame ← read bytes 0 len
  let d = to_peer udp frame
  some ((if is_count (net.sendto d) len then pos len else negsuc 0), d)
