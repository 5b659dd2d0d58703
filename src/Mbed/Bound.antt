-- ===== src/Mbed/Bound.antt =====
-- src/platglue-mbed.h, `udpsocketcreate`: a socket that is open is never bound.
use rtsp_h.Prelude.{ℕ, ◌≡◌, refl, true, false, none, some, Bool-cases, inl, inr, arith}
use rtsp_h.Mbed.{UdpLibrary, UdpSocket, open_socket, bind_socket, mbed_udpsocketcreate}

abbrev only_open : UdpSocket
only_open = record { opened = true; port = none }

-- Where a socket that is not open cannot be bound, `udpsocketcreate` gives no socket that is bound to
-- a port, and it gives one as soon as it can be opened, whether the port is free or not.
pub mbed_udpsocketcreate-unbound :
    (lib : UdpLibrary) (port_num : ℕ)
    → lib.binds false port_num ≡ false
    → ((s : UdpSocket) → mbed_udpsocketcreate lib port_num ≡ some s → s.port ≡ none)
      × (lib.opens ≡ true → (s : UdpSocket) × (mbed_udpsocketcreate lib port_num ≡ some s))
unfolding mbed_udpsocketcreate open_socket bind_socket
mbed_udpsocketcreate-unbound lib port_num closed = elim (Bool-cases lib.opens) [
  | inl opens ↦ (λ s h. ground arith, λ _. (only_open, rw opens refl))
  | inr shut ↦ (λ s h. ground arith, λ e. ground arith)
]
