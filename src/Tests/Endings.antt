-- ===== src/Tests/Endings.antt =====
-- Runs in which the client ends its session.
use rtsp_h.Prelude.{ℕ, ◌≡◌, refl, some, List, [], ◌∷◌, ◌++◌, map, Bytes, length}
use rtsp_h.Session.{new_session}
use rtsp_h.Streamer.{tcp_send}
use rtsp_h.Transport.{Udp}
use rtsp_h.Rtsp.OneRead.{Method}
use rtsp_h.Rtsp.Requests.{Request}
use rtsp_h.Rtsp.Answers.{Replies}
use rtsp_h.Sim.AnnexB.{annex_b}
use rtsp_h.Sim.{Worker}
use rtsp_h.Server.{Server, worker_loop}
use rtsp_h.Server.Silent.{silent}
use rtsp_h.Server.Asked.{asks, serving, having_sent}
use rtsp_h.Server.Ended.{worker_loop-Ended}
use rtsp_h.Program.{finished, main}
use rtsp_h.Program.Plays.{waits}
use rtsp_h.Program.Ends.{leaver, main-ends}
use rtsp_h.Tests.Data.{peers, system, idle, wire}
use rtsp_h.Tests.Conversations.{
  asked, fits-options, fits-describe, fits-setup, fits-play, fits-teardown,
}
use rtsp_h.Tests.Workers.{units, inbox}
use rtsp_h.Tests.Programs.{disk, disk-OnDisk, net, earlier, four, newcomer}

abbrev start : Worker
start = record { stream_buf = 0; stream_len_temp = length (annex_b units); wire = wire 0 }

abbrev goodbye : Request
goodbye = asked Method.teardown b'5'

worker_loop-Ended_example :
    (v' : Server) × (closed : List ℕ) × (texts : List Bytes) × (worker_loop system [] peers
        (annex_b units)
        0
        (map asks four ++ asks goodbye ∷ silent ∷ [])
        (serving idle newcomer inbox start)
      ≡ some v')
    × (v'.udp.str.clients ≡ [])
    × (v'.udp.closed ≡ closed ++ newcomer.rtsp_client ∷ [])
    × (v'.worker ≡ having_sent start ([] ++ map (tcp_send newcomer.rtsp_client) texts))
    × Replies four texts
unfolding new_session
worker_loop-Ended_example =
    worker_loop-Ended system [] peers (annex_b units) 0 four goodbye idle newcomer inbox start
      (silent ∷ []) (fits-options, (fits-describe, (fits-setup, (fits-play, tt))))
      (refl, (refl, (refl, (refl, tt)))) fits-teardown refl refl refl

main-ends_example :
    (u : Udp) × (closed : List ℕ) × (main system [] peers 0 7 disk net
        (earlier ++ leaver 6 four goodbye (waits ∷ []) ∷ [])
      ≡ some (finished (4 ∷ 5 ∷ []) u))
    × (u.closed ≡ closed ++ 6 ∷ 3 ∷ [])
main-ends_example =
    main-ends system [] peers 0 7 disk net (annex_b units) earlier [] 6 four goodbye (waits ∷ [])
      disk-OnDisk (record { option_set = refl; bound = refl; listens = refl }) (refl, (refl, tt))
      (fits-options, (fits-describe, (fits-setup, (fits-play, tt))))
      (refl, (refl, (refl, (refl, tt)))) fits-teardown refl
