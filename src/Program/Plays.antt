-- ===== src/Program/Plays.antt =====
-- main/main.cpp: a client of the program that asks for the stream and then gets the file.
use rtsp_h.Prelude.{
  ℕ, zero, suc, ◌≡◌, ◌≢◌, refl, ap, sym, ◌∙◌, true, false, Option, some, List, [], ◌∷◌, ◌++◌, map,
  Bytes, IsBytes, length, replicate, ltb, lt→ltb, ◌<◌, ◌^◌, ℤ, pos, arith, none,
}
use rtsp_h.Mux.{init_rtp_mux_context}
use rtsp_h.Session.{Session, new_session}
use rtsp_h.Streamer.{Wire}
use rtsp_h.Streamer.SendData.{IsReady}
use rtsp_h.Receiver.{fresh, receive_all}
use rtsp_h.Sim.AnnexB.{annex_b}
use rtsp_h.Sim.Serve.{AllFile, timed_packets, all_payloads}
use rtsp_h.Transport.{Udp, System}
use rtsp_h.Rtsp.Inbox.{Inbox}
use rtsp_h.Rtsp.Requests.{Request, text_of, route, Knows, last_port}
use rtsp_h.Rtsp.Answers.{Replies}
use rtsp_h.Rtsp.Conversation.{AllRequests, any_play}
use rtsp_h.Clients.{with_clients, new_streamer, add_session, any_sessions}
use rtsp_h.Server.Silent.{silent}
use rtsp_h.Server.Delivery.{beginning}
use rtsp_h.Server.Asked.{asks, NoTeardown}
use rtsp_h.Server.Player.{client_log, worker_loop-plays}
use rtsp_h.Posix.{Recv, received, failed, socketread, eagain}
use rtsp_h.Files.{FileSystem, ReadFile, to_int}
use rtsp_h.Files.Whole.{CanRead, read_file-whole}
use rtsp_h.Program.{
  sim_streamer, file_name, zero_context, first_inbox, worker_start, Connection, working, Listening,
  finish_worker, main, accept_loop,
}
use rtsp_h.Program.Accepts.{AllForked, sockets, accept_loop-client}

-- The socket gives a request, or nothing until the timeout.
abbrev pub gives : Request → ℕ → ℕ → Recv
gives x sock n = received (text_of x)

abbrev pub waits : ℕ → ℕ → Recv
waits sock n = failed eagain

-- A client that asks, one request a round, and is then silent for some rounds.
abbrev pub player : ℕ → List Request → ℕ → Connection
player s xs n = record { socket = s; in_child = true; recvs = map gives xs ++ replicate n waits }

reads-replicate : (n : ℕ) → map socketread (replicate n waits) ≡ replicate n silent
reads-replicate zero = refl
reads-replicate (suc n) = ap (λ l. silent ∷ l) (reads-replicate n)

pub reads-asks :
    (xs : List Request) (more : List (ℕ → ℕ → Recv))
    → map socketread (map gives xs ++ more) ≡ map asks xs ++ map socketread more
reads-asks [] more = refl
reads-asks (x ∷ xs) more = ap (λ l. asks x ∷ l) (reads-asks xs more)

zero_context-IsReady : IsReady (init_rtp_mux_context zero_context)
unfolding init_rtp_mux_context
zero_context-IsReady = record { cache_size = refl; buf_size = refl; seq_fits = omega arith }

-- The file is there and can be read, has these bytes, and is of a size that an `int` holds.
pub record OnDisk (fs : FileSystem) (mem : Bytes) : Type 0 where
  pub can : CanRead fs file_name
  pub opens : fs.opens file_name ≡ true
  pub reads : fs.freads file_name (fs.st_size file_name) ≡ mem
  pub size : fs.st_size file_name ≡ length (mem)
  pub small : length (mem) < 2 ^ 31

pub record CanListen (net : Listening) : Type 0 where
  pub option_set : net.option_set ≡ true
  pub bound : net.bound ≡ true
  pub listens : net.listens ≡ true

-- A streamer without sessions, and the session of a client when it comes.
abbrev pub no_clients : Udp
no_clients = record { str = sim_streamer; closed = [] }

abbrev pub first_session : ℕ → ℕ → Session
first_session random s = record (new_session random s) { debug = false }

abbrev pub first_wire : Wire
first_wire = record { mux = init_rtp_mux_context zero_context; sent = [] }

pub worker_start-beginning :
    (mem : Bytes) (random s : ℕ)
    → worker_start (init_rtp_mux_context zero_context) mem random s
      ≡ beginning (with_clients no_clients (first_session random s ∷ [])) first_inbox mem first_wire
unfolding worker_start add_session sim_streamer new_streamer
worker_start-beginning mem random s = refl

abbrev file_of : Bytes → ℤ → ReadFile
file_of l len = record { res = pos 0; stream = l; len = len; left_open = false }

module _ (sys : System) (date : Bytes) (getpeername : ℕ → Option (ℕ × ℕ)) (addr random : ℕ)
    (fs : FileSystem) (net : Listening) where
  pub main-accepts :
      (mem : Bytes) (connections : List Connection)
      → OnDisk fs mem
      → CanListen net
      → main sys date getpeername addr random fs net connections
        ≡ accept_loop sys date getpeername addr random fs net
            (init_rtp_mux_context zero_context)
            mem
            connections
            []
  unfolding main
  main-accepts mem connections disk can =
      let all : length (fs.freads file_name (fs.st_size file_name)) ≡ fs.st_size file_name =
        ap (λ (l : Bytes). length l) disk.reads ∙ sym disk.size in
      let file =
        read_file-whole fs file_name [] (pos 0) disk.can disk.opens all
        ∙ ap (λ l. some (file_of l (to_int (fs.st_size file_name)))) disk.reads in
      let small : ltb (length mem) (2 ^ 31) ≡ true = lt→ltb _ _ disk.small in
      rw (file, can.option_set, can.bound, can.listens, small) refl

  -- The whole program: the file is in the format of annex B with start codes of four bytes, of at
  -- least one unit, the units being escaped, of a type below 48, of layer 0 and with temporal id 1;
  -- it can be read and has less than 2 ^ 31 bytes; and the sockets can be had. A client, after any
  -- others that `fork` made a process for, asks in its first rounds, one request a round, PLAY
  -- among them and no TEARDOWN, each with the CSeq as its only header, or SETUP also with the ports
  -- for UDP in a header behind it, with a URL whose parts fit, the last of them below 2 ^ 31 read
  -- as digits, with a CSeq and a first port below 2 ^ 31, and of at most 499 bytes; and is then
  -- silent for as many rounds as the file has units. Then its process serves on, with the session
  -- playing, at the beginning of the file again, and with the sockets of the clients before still
  -- open. What it sent are the answers to the requests, one to each, in order, which begin with the
  -- status line, `200 OK` or for DESCRIBE also `404 Stream Not Found`, and a line with the CSeq of
  -- the request in decimal digits; and after them the packets of the file, from sequence number 0
  -- on, by the transport of the session as it is then, which, if the last SETUP named ports, is UDP
  -- to the first of them on 16 bits, from which a receiver by RFC 7798 gets exactly the units.
  pub main-plays :
      (us : List Bytes) (cs rest : List Connection) (s : ℕ) (xs : List Request)
      → OnDisk fs (annex_b us)
      → CanListen net
      → AllForked cs
      → AllRequests xs
      → NoTeardown xs
      → any_play xs ≡ true
      → us ≢ []
      → IsBytes (annex_b us)
      → AllFile us
      → (u' : Udp) × (s' : Session) × (b' : Inbox) × (w' : Wire) × (texts : List Bytes)
        × (groups : List (List Bytes)) × (main sys date getpeername addr random fs net
              (cs ++ player s xs (length us) ∷ rest)
            ≡ some
                (working (sockets cs) (beginning (with_clients u' (s' ∷ [])) b' (annex_b us) w')))
        × (s'.streaming ≡ true)
        × (s'.rtsp_client ≡ s)
        × Knows (last_port xs none) (route s')
        × Replies xs texts
        × (w'.sent ≡ client_log getpeername u' s' [] texts (timed_packets 0 0 0x12345678 groups))
        × ((receive_all fresh (all_payloads groups)).units ≡ us)
  unfolding finish_worker any_sessions new_session init_rtp_mux_context
  main-plays us cs rest s xs disk can forked asked stays plays some_unit bytes file =
      let mux = init_rtp_mux_context zero_context in
      let (u', s', b', w', texts, groups, loop, playing, client, port, replies, sent, got) =
        worker_loop-plays sys date getpeername addr us xs no_clients (first_session random s)
          first_inbox first_wire asked stays plays refl refl some_unit bytes file
          zero_context-IsReady refl refl in
      let start = worker_start-beginning (annex_b us) random s in
      let process =
        (accept_loop-client sys date getpeername addr random fs net mux (annex_b us) cs rest
          (player s xs (length us)) [] forked refl) in
      (
        u',
        s',
        b',
        w',
        texts,
        groups,
        main-accepts (annex_b us) (cs ++ player s xs (length us) ∷ rest) disk can
            ∙ process
            ∙ rw
                ((
                  reads-asks xs (replicate (length us) waits),
                  reads-replicate (length us),
                  start,
                  loop,
                ))
                refl,
        playing,
        client,
        port,
        replies,
        sent,
        got,
      )
