-- ===== src/Tests/Sockets.antt =====
-- Runs of the UDP transport.
use rtsp_h.Prelude.{ℕ, ◌+◌, ◌*◌, ◌<◌, ◌≡◌, refl, ◌⊎◌, true, false, [], ◌∷◌, pos}
use rtsp_h.Transport.{init_udp_transport, release_udp_transport}
use rtsp_h.Transport.Ports.{usable, init_udp_transport-ports}
use rtsp_h.Transport.Count.{
  init, release, run_calls, Shared, run_calls-Shared, init-release_unmatched,
}
use rtsp_h.Clients.{new_streamer}
use rtsp_h.Tests.Data.{system, idle}

idle-Shared : Shared idle 0
unfolding new_streamer
idle-Shared = record { count = refl; idle = λ _. (refl, refl, refl, refl) }

init_udp_transport-ports_example :
    ((init_udp_transport system idle).0.str.udp_ref_count ≡ pos 1)
    × ((init_udp_transport system idle).1 ≡ true)
    × (((j : ℕ) × (6970 + 2 * j < 0xfffe)
          × (usable system (6970 + 2 * j) ≡ true)
          × ((i : ℕ) → i < j → usable system (6970 + 2 * i) ≡ false)
          × ((init_udp_transport system idle).0.str.rtp_server_port ≡ 6970 + 2 * j)
          × ((init_udp_transport system idle).0.str.rtcp_server_port ≡ 6970 + 2 * j + 1)
          × ((init_udp_transport system idle).0.str.rtp_socket ≡ system.descriptor (6970 + 2 * j))
          × ((init_udp_transport system idle).0.str.rtcp_socket
              ≡ system.descriptor (6970 + 2 * j + 1)))
        ⊎ (((i : ℕ) → 6970 + 2 * i < 0xfffe → usable system (6970 + 2 * i) ≡ false)
            × ((init_udp_transport system idle).0.str.rtp_server_port ≡ 0)
            × ((init_udp_transport system idle).0.str.rtcp_server_port ≡ 0)))
unfolding new_streamer
init_udp_transport-ports_example = init_udp_transport-ports system idle refl

run_calls-Shared_example : Shared (run_calls system (init ∷ init ∷ release ∷ release ∷ []) idle) 0
run_calls-Shared_example =
    run_calls-Shared system (init ∷ init ∷ release ∷ release ∷ []) idle 0 0 idle-Shared refl

init-release_unmatched_example :
    ((init_udp_transport system (release_udp_transport idle)).1 ≡ true)
    × ((init_udp_transport system (release_udp_transport idle)).0.closed ≡ [])
    × (Shared (init_udp_transport system (release_udp_transport idle)).0 0)
init-release_unmatched_example = init-release_unmatched system idle idle-Shared
