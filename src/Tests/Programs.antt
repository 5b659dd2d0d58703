-- ===== src/Tests/Programs.antt =====
-- Runs of the whole program: the file, the clients and their processes.
use rtsp_h.Prelude.{
  ℕ, ◌+◌, ◌≡◌, ◌⊎◌, refl, true, false, some, List, [], ◌∷◌, ◌++◌, map, Bytes, length, replicate,
  take, pos, arith,
}
use rtsp_h.Session.{Session, RtspCmd, new_session, new_command_init}
use rtsp_h.Streamer.{Wire}
use rtsp_h.Receiver.{fresh, receive_all}
use rtsp_h.Sim.AnnexB.{annex_b}
use rtsp_h.Sim.Serve.{timed_packets, all_payloads}
use rtsp_h.Transport.{Udp}
use rtsp_h.Rtsp.OneRead.{Method}
use rtsp_h.Rtsp.Inbox.{Inbox}
use rtsp_h.Rtsp.Requests.{Request, route}
use rtsp_h.Rtsp.Answers.{Replies}
use rtsp_h.Clients.{with_clients}
use rtsp_h.Server.{worker_loop}
use rtsp_h.Server.Delivery.{beginning}
use rtsp_h.Server.Silent.{silent}
use rtsp_h.Server.Asked.{asks}
use rtsp_h.Server.Player.{client_log, worker_loop-plays}
use rtsp_h.Posix.{Recv, received}
use rtsp_h.Files.{FileSystem, ReadFile, read_file}
use rtsp_h.Files.Whole.{Whole, Failed, read_file-Whole}
use rtsp_h.Program.{file_name, Connection, working, Listening, main}
use rtsp_h.Program.Plays.{player, OnDisk, main-plays}
use rtsp_h.Tests.Data.{
  peers, small_unit-IsUnit, small_unit-IsEscaped, tiny_unit-IsUnit, tiny_unit-IsEscaped, system,
  context-IsReady, idle, wire, udp_player,
}
use rtsp_h.Tests.Conversations.{
  asked, fits-options, fits-describe, fits-setup, fits-play, asked_setup,
}
use rtsp_h.Tests.Requests.{first_half}
use rtsp_h.Tests.Workers.{units, some_units, units-IsBytes, inbox}

abbrev pub disk : FileSystem
disk = record {
  opens = λ name. true;
  st_size = λ name. length (annex_b units);
  allocates = λ n. true;
  freads = λ name n. annex_b units;
}

pub disk-OnDisk : OnDisk disk (annex_b units)
disk-OnDisk = record {
  can = record { fits = omega arith; memory = refl };
  opens = refl;
  reads = refl;
  size = refl;
  small = omega arith;
}

-- `stat` tells one byte more than there is.
abbrev shrunk : FileSystem
shrunk = record disk { st_size = λ name. length (annex_b units) + 1 }

read_file-Whole_example :
    (out : ReadFile) × (read_file shrunk file_name [] (pos 0) ≡ some out)
    × (Whole shrunk file_name out ⊎ Failed shrunk file_name [] (pos 0) out)
read_file-Whole_example =
    read_file-Whole shrunk file_name [] (pos 0) (record { fits = omega arith; memory = refl })

abbrev pub net : Listening
net = record { master = 3; option_set = true; bound = true; listens = true }

abbrev pub earlier : List Connection
earlier =
    record { socket = 4; in_child = false; recvs = [] }
    ∷ record { socket = 5; in_child = false; recvs = [] }
    ∷ []

-- Four requests, without TEARDOWN.
abbrev pub four : List Request
four =
    asked Method.options b'1'
    ∷ asked Method.describe b'2'
    ∷ asked_setup
    ∷ asked Method.play b'4'
    ∷ []

main-plays_example :
    (u' : Udp) × (s' : Session) × (b' : Inbox) × (w' : Wire) × (texts : List Bytes) × (groups : List
      (List Bytes))
    × (main system [] peers 0 7 disk net (earlier ++ player 6 four 2 ∷ [])
        ≡ some (working (4 ∷ 5 ∷ []) (beginning (with_clients u' (s' ∷ [])) b' (annex_b units) w')))
    × (s'.streaming ≡ true)
    × (s'.rtsp_client ≡ 6)
    × (route s' ≡ (false, 7000))
    × Replies four texts
    × (w'.sent ≡ client_log peers u' s' [] texts (timed_packets 0 0 0x12345678 groups))
    × ((receive_all fresh (all_payloads groups)).units ≡ units)
main-plays_example =
    main-plays system [] peers 0 7 disk net units earlier [] 6 four disk-OnDisk
      (record { option_set = refl; bound = refl; listens = refl }) (refl, (refl, tt))
      (fits-options, (fits-describe, (fits-setup, (fits-play, tt))))
      (refl, (refl, (refl, (refl, tt)))) refl some_units units-IsBytes
      (small_unit-IsUnit, small_unit-IsEscaped, (tiny_unit-IsUnit, tiny_unit-IsEscaped, tt))

-- The client sends the first half of a request.
abbrev first_part : ℕ → ℕ → Recv
first_part sock n = received (take n first_half)

abbrev pub one_client : Udp
one_client = with_clients idle (udp_player ∷ [])

-- The method is known.
abbrev pub asking_client : Udp
asking_client =
    with_clients idle
      (record (new_command_init udp_player) { rtsp_cmd_type = RtspCmd.rtsp_options } ∷ [])

abbrev pub newcomer : Session
newcomer = new_session 7 6

worker_loop-plays_example :
    (u' : Udp) × (s' : Session) × (b' : Inbox) × (w' : Wire) × (texts : List Bytes) × (groups : List
      (List Bytes))
    × (worker_loop system [] peers
          (annex_b units)
          0
          (map asks four ++ replicate 2 silent)
          (beginning (with_clients idle (newcomer ∷ [])) inbox (annex_b units) (wire 0))
        ≡ some (beginning (with_clients u' (s' ∷ [])) b' (annex_b units) w'))
    × (s'.streaming ≡ true)
    × (s'.rtsp_client ≡ newcomer.rtsp_client)
    × (route s' ≡ (false, 7000))
    × Replies four texts
    × (w'.sent ≡ client_log peers u' s' [] texts (timed_packets 65535 3000 0x12345678 groups))
    × ((receive_all fresh (all_payloads groups)).units ≡ units)
unfolding new_session
worker_loop-plays_example =
    worker_loop-plays system [] peers 0 units four idle newcomer inbox (wire 0)
      (fits-options, (fits-describe, (fits-setup, (fits-play, tt))))
      (refl, (refl, (refl, (refl, tt)))) refl refl refl some_units units-IsBytes
      (small_unit-IsUnit, small_unit-IsEscaped, (tiny_unit-IsUnit, tiny_unit-IsEscaped, tt))
      (context-IsReady 0) refl refl
