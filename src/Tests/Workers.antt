-- ===== src/Tests/Workers.antt =====
-- Runs of the worker's loop.
use rtsp_h.Prelude.{◌≡◌, ◌≢◌, refl, some, List, [], ◌∷◌, ◌++◌, Bytes, IsBytes, replicate, arith}
use rtsp_h.Session.{new_session}
use rtsp_h.Streamer.{Wire}
use rtsp_h.Streamer.SendData.{broadcast}
use rtsp_h.Receiver.{fresh, receive_all}
use rtsp_h.Sim.AnnexB.{annex_b}
use rtsp_h.Sim.Serve.{timed_packets, all_payloads}
use rtsp_h.Rtsp.Inbox.{Inbox, HdrState}
use rtsp_h.Clients.Served.{AllRunning}
use rtsp_h.Server.{Server, worker_loop}
use rtsp_h.Server.Silent.{silent}
use rtsp_h.Server.Closed.{closed, worker_loop-closed}
use rtsp_h.Server.Delivery.{beginning, worker_loop-delivers}
use rtsp_h.Tests.Data.{
  peers, streamer, wire, context-IsReady, small_unit, small_unit-IsUnit, small_unit-IsEscaped,
  tiny_unit, tiny_unit-IsUnit, tiny_unit-IsEscaped, system, idle, tcp_player, udp_player,
}

abbrev pub units : List Bytes
units = small_unit ∷ tiny_unit ∷ []

pub some_units : units ≢ []
some_units e = cc

pub units-IsBytes : IsBytes (annex_b units)
units-IsBytes = ground arith

abbrev pub inbox : Inbox
inbox = record { buf_pos = 0; state = HdrState.hdr_unknown; recv_buf = replicate 500 0 }

players-AllRunning : AllRunning (tcp_player ∷ udp_player ∷ [])
unfolding new_session
players-AllRunning = (refl, (refl, tt))

some_players : tcp_player ∷ udp_player ∷ [] ≢ []
some_players e = cc

worker_loop-delivers_example :
    (b' : Inbox) × (w' : Wire) × (groups : List (List Bytes)) × (worker_loop system [] peers
        (annex_b units)
        0
        (replicate 2 silent)
        (beginning idle inbox (annex_b units) (wire 0))
      ≡ some (beginning idle b' (annex_b units) w'))
    × (w'.sent ≡ [] ++ broadcast peers streamer (timed_packets 65535 3000 0x12345678 groups))
    × ((receive_all fresh (all_payloads groups)).units ≡ units)
worker_loop-delivers_example =
    worker_loop-delivers system [] peers 0 units idle inbox (wire 0) players-AllRunning some_players
      some_units units-IsBytes
      (small_unit-IsUnit, small_unit-IsEscaped, (tiny_unit-IsUnit, tiny_unit-IsEscaped, tt))
      (context-IsReady 0) refl refl

worker_loop-closed_example :
    (v' : Server) × (worker_loop system [] peers
        (annex_b units)
        0
        (closed ∷ silent ∷ [])
        (beginning idle inbox (annex_b units) (wire 0))
      ≡ some v')
    × (v'.udp.str.clients ≡ [])
    × (v'.worker ≡ (beginning idle inbox (annex_b units) (wire 0)).worker)
worker_loop-closed_example =
    worker_loop-closed system [] peers (annex_b units) 0 (silent ∷ [])
      (beginning idle inbox (annex_b units) (wire 0)) players-AllRunning
