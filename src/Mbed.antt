-- ===== src/Mbed.antt =====
-- src/platglue-mbed.h: the UDP sockets of the layer for mbed. What its library answers is an argument.
pub mod Bound
use rtsp_h.Prelude.{ℕ, Bool, true, false, not, ◌&&◌, Option, none, some, if◌then◌else◌}

-- Whether `open` succeeds, and whether `bind` does on a port, for a socket that is open or not.
pub record UdpLibrary : Type 0 where
  pub opens : Bool
  pub binds : Bool → ℕ → Bool

-- A `UDPSocket`
pub record UdpSocket : Type 0 where
  pub opened : Bool
  pub port : Option ℕ

abbrev new_socket : UdpSocket
new_socket = record { opened = false; port = none }

-- `s->open(...)` and `s->bind(portNum)`, with whether each succeeds.
unfoldable pub open_socket : UdpLibrary → UdpSocket → UdpSocket × Bool
open_socket lib s = if lib.opens then (record s { opened = true }, true) else (s, false)

unfoldable pub bind_socket : UdpLibrary → ℕ → UdpSocket → UdpSocket × Bool
bind_socket lib port_num s =
    if lib.binds s.opened port_num then (record s { port = some port_num }, true) else (s, false)

-- `udpsocketcreate`: `&&` calls `bind` only where `open` has failed.
unfoldable pub mbed_udpsocketcreate : UdpLibrary → ℕ → Option UdpSocket
mbed_udpsocketcreate lib port_num =
    let (s₁, opened) = open_socket lib new_socket in
    if opened
    then some s₁
    else let (s₂, bound) = bind_socket lib port_num s₁ in if bound then some s₂ else none
