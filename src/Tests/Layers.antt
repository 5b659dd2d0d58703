-- ===== src/Tests/Layers.antt =====
-- Runs on the layers for other platforms.
use rtsp_h.Prelude.{ℕ, ◌≡◌, refl, true, false, some, none, [], ◌∷◌, ◌%◌, ◌==◌, Bool}
use rtsp_h.Esp32.{Heap}
use rtsp_h.Mbed.{UdpLibrary, UdpSocket, mbed_udpsocketcreate}
use rtsp_h.Mbed.Bound.{mbed_udpsocketcreate-unbound}

-- One socket is there; even ports are free.
abbrev heap : Heap
heap = record { made = 4; live = (2, 6970) ∷ [] }

abbrev even_ports : ℕ → Bool
even_ports port = port % 2 == 0

-- The library opens sockets, and binds no socket.
abbrev all_taken : UdpLibrary
all_taken = record { opens = true; binds = λ opened port. false }

mbed_udpsocketcreate-unbound_example :
    ((s : UdpSocket) → mbed_udpsocketcreate all_taken 6970 ≡ some s → s.port ≡ none)
    × (true ≡ true → (s : UdpSocket) × (mbed_udpsocketcreate all_taken 6970 ≡ some s))
mbed_udpsocketcreate-unbound_example = mbed_udpsocketcreate-unbound all_taken 6970 refl
