-- ===== src/Server/Ended.antt =====
-- main/main.cpp, `workerThread`: a client that ends its session by TEARDOWN.
use rtsp_h.Prelude.{
  ℕ, ◌≡◌, refl, ap, sym, ◌∙◌, true, false, Option, some, List, [], ◌∷◌, ◌++◌, map, append-nil,
  Bytes, arith,
}
use rtsp_h.Session.{Session}
use rtsp_h.Streamer.{tcp_send}
use rtsp_h.Transport.{Udp, System, release_udp_transport, udpsocketclose}
use rtsp_h.Rtsp.Inbox.{Inbox}
use rtsp_h.Rtsp.Requests.{Request, IsRequest}
use rtsp_h.Rtsp.Answers.{is_teardown, Replies, none_asked, silent, answered}
use rtsp_h.Rtsp.Conversation.{AllRequests, Turn, turn}
use rtsp_h.Clients.{with_clients, close_session, any_sessions}
use rtsp_h.Sim.{Worker}
use rtsp_h.Server.{Server, worker_round, worker_loop}
use rtsp_h.Server.Closed.{worker_loop-done}
use rtsp_h.Server.Asked.{
  asks, NoTeardown, serving, having_sent, at_work, handle_all-Turn, worker_loop-Talked,
}

no_answers :
    (y : Request) (ts : List Bytes) → is_teardown y.method ≡ true → Replies (y ∷ []) ts → ts ≡ []
no_answers y ts ends (silent e none_asked) = refl
no_answers y ts ends (answered e is r) = ground arith

-- The process when its one session has ended.
abbrev pub left_alone : Udp → Session → Inbox → Worker → Server
left_alone u s b k = record { udp = with_clients (close_session u s) []; inbox = b; worker = k }

close_session-closed :
    (u : Udp) (s : Session) (c : ℕ)
    → s.rtsp_client ≡ c
    → (close_session u s).closed ≡ (release_udp_transport u).closed ++ c ∷ []
unfolding close_session udpsocketclose
close_session-closed u s c e = ap (λ (d : ℕ). (release_udp_transport u).closed ++ d ∷ []) e

module _ (sys : System) (date : Bytes) (getpeername : ℕ → Option (ℕ × ℕ)) (mem : Bytes)
    (addr : ℕ) where
  worker_loop-ends :
      (u : Udp) (s : Session) (b : Inbox) (k : Worker) (y : Request)
      (reads : List (ℕ → ℕ → Option Bytes)) (t : Turn sys date (at_work sys date u s k) b y)
      → is_teardown y.method ≡ true
      → worker_loop sys date getpeername mem addr (asks y ∷ reads) (serving u s b k)
        ≡ some (left_alone t.after.udp t.after.session t.inbox (having_sent k t.after.sent))
  unfolding worker_loop worker_round any_sessions
  worker_loop-ends u s b k y reads t ends =
      let last = left_alone t.after.udp t.after.session t.inbox (having_sent k t.after.sent) in
      rw (handle_all-Turn sys date u s b k y t true ends)
        (worker_loop-done sys date getpeername mem addr reads last refl)

  -- A process with one session that has not stopped and nothing in the receive buffer: when the
  -- client asks, one request a round, each with the CSeq as its only header, or SETUP also with the
  -- ports for UDP in a header behind it, with a URL whose parts fit, the last of them below 2 ^ 31
  -- read as digits, with a CSeq and a first port below 2 ^ 31, and of at most 499 bytes, and the
  -- last of them and no other is TEARDOWN, the loop ends, whatever could be read afterwards. No
  -- session is left, the last descriptor that was closed is that of the client, what was sent are
  -- the answers to the requests before TEARDOWN, one to each, in order, which begin with the status
  -- line, `200 OK` or for DESCRIBE also `404 Stream Not Found`, and a line with the CSeq of the
  -- request in decimal digits, and nothing else, and the position in the file stays.
  pub worker_loop-Ended :
      (xs : List Request) (y : Request) (u : Udp) (s : Session) (b : Inbox) (k : Worker)
      (reads : List (ℕ → ℕ → Option Bytes))
      → AllRequests xs
      → NoTeardown xs
      → IsRequest y
      → is_teardown y.method ≡ true
      → s.stopped ≡ false
      → b.buf_pos ≡ 0
      → (v' : Server) × (closed : List ℕ) × (texts : List Bytes) × (worker_loop sys date getpeername
            mem addr
            (map asks xs ++ asks y ∷ reads)
            (serving u s b k)
          ≡ some v')
        × (v'.udp.str.clients ≡ [])
        × (v'.udp.closed ≡ closed ++ s.rtsp_client ∷ [])
        × (v'.worker ≡ having_sent k (k.wire.sent ++ map (tcp_send s.rtsp_client) texts))
        × Replies xs texts
  worker_loop-Ended xs y u s b k reads asked stays is ends running empty =
      let c =
        worker_loop-Talked sys date getpeername mem addr xs u s b k (asks y ∷ reads) asked stays
          running empty in
      let k' = having_sent k (k.wire.sent ++ map (tcp_send s.rtsp_client) c.texts) in
      let t = turn sys date (at_work sys date c.udp c.session k') c.inbox y is c.running c.empty in
      let silent_end : t.texts ≡ [] =
        sym (append-nil t.texts) ∙ no_answers y (t.texts ++ []) ends (t.replies [] [] none_asked) in
      let out : t.after.sent ≡ k'.wire.sent =
        t.sent
        ∙ ap (λ l. k'.wire.sent ++ map (tcp_send c.session.rtsp_client) l) silent_end
        ∙ append-nil k'.wire.sent in
      (
        left_alone t.after.udp t.after.session t.inbox (having_sent k' t.after.sent),
        (release_udp_transport t.after.udp).closed,
        c.texts,
        c.loops ∙ worker_loop-ends c.udp c.session c.inbox k' y reads t ends,
        refl,
        close_session-closed t.after.udp t.after.session s.rtsp_client (t.client ∙ c.client),
        ap (having_sent k) out,
        c.replies,
      )
