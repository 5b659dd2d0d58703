-- ===== src/Program/Ends.antt =====
-- main/main.cpp: the process of a client that ends its session.
use rtsp_h.Prelude.{
  ℕ, ◌≡◌, refl, ap, ◌∙◌, true, not, some, List, [], ◌∷◌, ◌++◌, map, append_assoc, if◌then◌else◌,
  Bytes, Option, length,
}
use rtsp_h.Mux.{init_rtp_mux_context}
use rtsp_h.Session.{new_session}
use rtsp_h.Transport.{Udp, System, udpsocketclose}
use rtsp_h.Rtsp.Requests.{Request, IsRequest}
use rtsp_h.Rtsp.Answers.{is_teardown}
use rtsp_h.Rtsp.Conversation.{AllRequests}
use rtsp_h.Clients.{is_empty, any_sessions, close_all, destroy}
use rtsp_h.Sim.{Worker}
use rtsp_h.Server.{Server}
use rtsp_h.Server.Asked.{NoTeardown}
use rtsp_h.Server.Ended.{worker_loop-Ended}
use rtsp_h.Posix.{Recv, socketread}
use rtsp_h.Files.{FileSystem}
use rtsp_h.Program.{
  zero_context, first_inbox, Connection, finished, working, Listening, finish_worker, main,
}
use rtsp_h.Program.Accepts.{AllForked, sockets, accept_loop-client}
use rtsp_h.Program.Plays.{
  gives, reads-asks, OnDisk, CanListen, no_clients, first_session, first_wire,
  worker_start-beginning, main-accepts,
}

-- A client that asks, one request a round, and then says `y`; `more` could be read afterwards.
abbrev pub leaver : ℕ → List Request → Request → List (ℕ → ℕ → Recv) → Connection
leaver s xs y more = record { socket = s; in_child = true; recvs = map gives xs ++ gives y ∷ more }

finish_worker-nobody :
    (master : ℕ) (opened : List ℕ) (v : Server)
    → v.udp.str.clients ≡ []
    → (u : Udp) × (finish_worker master opened v ≡ finished opened u)
      × (u.closed ≡ v.udp.closed ++ master ∷ [])
unfolding finish_worker any_sessions destroy udpsocketclose
finish_worker-nobody master opened v nobody =
    let u = udpsocketclose (destroy v.udp) master in
    (
      u,
      ap (λ cs. if not (is_empty cs) then working opened v else finished opened u) nobody,
      ap (λ cs. (close_all v.udp cs).closed ++ master ∷ []) nobody,
    )

module _ (sys : System) (date : Bytes) (getpeername : ℕ → Option (ℕ × ℕ)) (addr random : ℕ)
    (fs : FileSystem) (net : Listening) where
  -- When the file, whatever is in it, can be read and has less than 2 ^ 31 bytes, and the sockets
  -- can be had: the process of a client that asks, one request a round, each with the CSeq as its
  -- only header, or SETUP also with the ports for UDP in a header behind it, with a URL whose parts
  -- fit, the last of them below 2 ^ 31 read as digits, with a CSeq and a first port below 2 ^ 31,
  -- and of at most 499 bytes, the last of them and no other being TEARDOWN, after any other clients
  -- that `fork` made a process for, returns from `main`, whatever else could be read. The last
  -- descriptors that it closes are those of the client and of the listening socket; it has those of
  -- the clients before open until it ends.
  pub main-ends :
      (mem : Bytes) (cs rest : List Connection) (s : ℕ) (xs : List Request) (y : Request)
      (more : List (ℕ → ℕ → Recv))
      → OnDisk fs mem
      → CanListen net
      → AllForked cs
      → AllRequests xs
      → NoTeardown xs
      → IsRequest y
      → is_teardown y.method ≡ true
      → (u : Udp) × (closed : List ℕ) × (main sys date getpeername addr random fs net
            (cs ++ leaver s xs y more ∷ rest)
          ≡ some (finished (sockets cs) u))
        × (u.closed ≡ closed ++ s ∷ net.master ∷ [])
  unfolding new_session
  main-ends mem cs rest s xs y more disk can forked asked stays is ends =
      let mux = init_rtp_mux_context zero_context in
      let k : Worker = record { stream_buf = 0; stream_len_temp = length mem; wire = first_wire } in
      let (v', closed, texts, loop, nobody, last, sent, replies) =
        worker_loop-Ended sys date getpeername mem addr xs y no_clients (first_session random s)
          first_inbox k (map socketread more) asked stays is ends refl refl in
      let (u, done, then_closed) = finish_worker-nobody net.master (sockets cs) v' nobody in
      let process =
        (accept_loop-client sys date getpeername addr random fs net mux mem cs rest
          (leaver s xs y more) [] forked refl) in
      (
        u,
        closed,
        main-accepts sys date getpeername addr random fs net mem (cs ++ leaver s xs y more ∷ rest)
              disk can
            ∙ process
            ∙ rw (reads-asks xs (gives y ∷ more), worker_start-beginning mem random s, loop, done)
                refl,
        then_closed
            ∙ ap (λ l. l ++ net.master ∷ []) last
            ∙ append_assoc closed (s ∷ []) (net.master ∷ []),
      )
