-- ===== src/Server/Player.antt =====
-- main/main.cpp, `workerThread`: a client that asks for the stream and then gets the file.
use rtsp_h.Prelude.{
  ℕ, ◌≡◌, ◌≢◌, refl, ap, sym, ◌∙◌, ◌||◌, true, false, Option, some, List, [], ◌∷◌, ◌++◌, map,
  if◌then◌else◌, Bytes, IsBytes, length, replicate, arith, none,
}
use rtsp_h.Session.{Session}
use rtsp_h.Streamer.{Sent, tcp_send, udp_send, Wire, socketpeeraddr}
use rtsp_h.Streamer.Frame.{interleaved}
use rtsp_h.Streamer.SendData.{IsReady, deliver, broadcast}
use rtsp_h.Receiver.{fresh, receive_all}
use rtsp_h.Sim.AnnexB.{annex_b}
use rtsp_h.Sim.{Worker}
use rtsp_h.Sim.Serve.{AllFile, timed_packets, all_payloads}
use rtsp_h.Transport.{Udp, System}
use rtsp_h.Rtsp.Inbox.{Inbox}
use rtsp_h.Rtsp.Requests.{Request, route, Knows, last_port}
use rtsp_h.Rtsp.Answers.{Replies}
use rtsp_h.Rtsp.Conversation.{AllRequests, any_play}
use rtsp_h.Clients.{with_clients}
use rtsp_h.Server.{worker_loop}
use rtsp_h.Server.Silent.{silent}
use rtsp_h.Server.Delivery.{beginning, worker_loop-delivers}
use rtsp_h.Server.Asked.{asks, NoTeardown, having_sent, worker_loop-Talked}

-- One packet to a client: on the RTSP socket, or as a datagram.
abbrev pub to_client : (ℕ → Option (ℕ × ℕ)) → Udp → Session → Bytes → Sent
to_client getpeername u s packet =
    if s.tcp_transport
    then tcp_send s.rtsp_client (interleaved (length packet) ++ packet)
    else udp_send u.str.rtp_socket packet (socketpeeraddr getpeername s.rtsp_client).0
        s.rtp_client_port

module _ (getpeername : ℕ → Option (ℕ × ℕ)) (u : Udp) (s : Session) where
  deliver-client :
      (packet : Bytes)
      → s.streaming ≡ true
      → s.stopped ≡ false
      → deliver getpeername u.str packet s ≡ to_client getpeername u s packet ∷ []
  deliver-client packet plays running = ground arith

  broadcast-client :
      (ps : List Bytes)
      → s.streaming ≡ true
      → s.stopped ≡ false
      → broadcast getpeername (with_clients u (s ∷ [])).str ps ≡ map (to_client getpeername u s) ps
  broadcast-client [] plays running = refl
  broadcast-client (p ∷ ps) plays running =
      rw (deliver-client p plays running, broadcast-client ps plays running) refl

-- The log of a process with one session that plays.
abbrev pub client_log :
    (ℕ → Option (ℕ × ℕ)) → Udp → Session → List Sent → List Bytes → List Bytes → List Sent
client_log getpeername u s out texts packets =
    (out ++ map (tcp_send s.rtsp_client) texts) ++ map (to_client getpeername u s) packets

-- For a file in the format of annex B with start codes of four bytes, of at least one unit, the
-- units being escaped, of a type below 48, of layer 0 and with temporal id 1, with aggregation off,
-- and a process at the beginning of the file with one session that has not stopped and nothing in
-- the receive buffer: when the client first asks, one request a round, PLAY among them and no
-- TEARDOWN, each with the CSeq as its only header, or SETUP also with the ports for UDP in a header
-- behind it, with a URL whose parts fit, the last of them below 2 ^ 31 read as digits, with a CSeq
-- and a first port below 2 ^ 31, and of at most 499 bytes, and is then silent for as many rounds as
-- there are units, then the loop returns, with the process at the beginning of the file again and
-- the session playing. What was sent are the answers, one to each request, in order, which begin
-- with the status line, `200 OK` or for DESCRIBE also `404 Stream Not Found`, and a line with the
-- CSeq of the request in decimal digits; and after them the packets of the file, all of them to
-- this client and none to another, by the transport of the session as it is then, which, if the
-- last SETUP named ports, is UDP to the first of them on 16 bits; and a receiver by RFC 7798 gets
-- exactly the units.
pub worker_loop-plays :
    (sys : System) (date : Bytes) (getpeername : ℕ → Option (ℕ × ℕ)) (addr : ℕ) (us : List Bytes)
    (xs : List Request) (u : Udp) (s : Session) (b : Inbox) (w : Wire)
    → AllRequests xs
    → NoTeardown xs
    → any_play xs ≡ true
    → s.stopped ≡ false
    → b.buf_pos ≡ 0
    → us ≢ []
    → IsBytes (annex_b us)
    → AllFile us
    → IsReady w.mux
    → w.mux.buf_ptr ≡ 0
    → w.mux.aggregation ≡ 0
    → (u' : Udp) × (s' : Session) × (b' : Inbox) × (w' : Wire) × (texts : List Bytes)
      × (groups : List (List Bytes)) × (worker_loop sys date getpeername
            (annex_b us)
            addr
            (map asks xs ++ replicate (length us) silent)
            (beginning (with_clients u (s ∷ [])) b (annex_b us) w)
          ≡ some (beginning (with_clients u' (s' ∷ [])) b' (annex_b us) w'))
      × (s'.streaming ≡ true)
      × (s'.rtsp_client ≡ s.rtsp_client)
      × Knows (last_port xs none) (route s')
      × Replies xs texts
      × (w'.sent
          ≡ client_log getpeername u' s' w.sent texts
              (timed_packets w.mux.seq w.mux.timestamp w.mux.ssrc groups))
      × ((receive_all fresh (all_payloads groups)).units ≡ us)
worker_loop-plays sys date getpeername addr us xs u s b w asked stays plays running empty some_unit
      bytes file ready nothing off =
    let mem = annex_b us in
    let k : Worker = record { stream_buf = 0; stream_len_temp = length mem; wire = w } in
    let t =
      worker_loop-Talked sys date getpeername mem addr xs u s b k (replicate (length us) silent)
        asked stays running empty in
    let playing : t.session.streaming ≡ true = t.streaming ∙ ap (λ y. y || s.streaming) plays in
    let told : Wire = (having_sent k (w.sent ++ map (tcp_send s.rtsp_client) t.texts)).wire in
    let (b', w', groups, loop, sent, got) =
      worker_loop-delivers sys date getpeername addr us (with_clients t.udp (t.session ∷ []))
        t.inbox told (t.running, tt) (λ e. cc) some_unit bytes file ready nothing off in
    let ps = timed_packets w.mux.seq w.mux.timestamp w.mux.ssrc groups in
    (
      t.udp,
      t.session,
      b',
      w',
      t.texts,
      groups,
      t.loops ∙ loop,
      playing,
      t.client,
      t.knows none tt,
      t.replies,
      sent
          ∙ ap (λ l. (w.sent ++ map (tcp_send s.rtsp_client) t.texts) ++ l)
              (broadcast-client getpeername t.udp t.session ps playing t.running)
          ∙ ap
              (λ c.
                (w.sent ++ map (tcp_send c) t.texts)
                ++ map (to_client getpeername t.udp t.session) ps)
              (sym t.client),
      got,
    )
