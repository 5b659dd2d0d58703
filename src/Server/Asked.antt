-- ===== src/Server/Asked.antt =====
-- main/main.cpp, `workerThread`: rounds in which the one client of the process asks for something.
use rtsp_h.Prelude.{
  ℕ, ◌≡◌, refl, ap, sym, ◌∙◌, Bool, true, false, ◌||◌, Option, some, List, [], ◌∷◌, ◌++◌, map,
  append_assoc, append-nil, map-append, if◌then◌else◌, Bytes,
}
use rtsp_h.Session.{Session}
use rtsp_h.Streamer.{Sent, tcp_send}
use rtsp_h.Transport.{Udp, System}
use rtsp_h.Rtsp.Handlers.{Rtsp}
use rtsp_h.Rtsp.Inbox.{Inbox}
use rtsp_h.Rtsp.Requests.{Request, text_of, route, Knows, last_port, port_after}
use rtsp_h.Rtsp.Answers.{is_teardown, is_play, Replies, none_asked}
use rtsp_h.Rtsp.Conversation.{AllRequests, any_play, or_swap, Turn, turn}
use rtsp_h.Clients.{
  Round, with_clients, close_session, after_session, serve_clients, handle_all, any_sessions,
}
use rtsp_h.Sim.{Worker}
use rtsp_h.Server.{Server, requests, worker_round, worker_loop}

-- The read that gives a request.
abbrev pub asks : Request → ℕ → ℕ → Option Bytes
asks x socket n = some (text_of x)

abbrev pub NoTeardown : List Request → Type 0
NoTeardown [] = Unit
NoTeardown (x ∷ xs) = (is_teardown x.method ≡ false) × NoTeardown xs

-- A process with one session.
abbrev pub serving : Udp → Session → Inbox → Worker → Server
serving u s b k = record { udp = with_clients u (s ∷ []); inbox = b; worker = k }

abbrev pub having_sent : Worker → List Sent → Worker
having_sent k out = record k { wire = record (k.wire) { sent = out } }

module _ (sys : System) (date : Bytes) where
  -- The session with what it works on in a round.
  abbrev pub at_work : Udp → Session → Worker → Rtsp
  at_work u s k = record { session = s; udp = with_clients u (s ∷ []); sent = k.wire.sent }

  -- What a session leaves to the next round, with whether it stopped.
  abbrev pub left_by : Rtsp → Inbox → Bool → Round
  left_by r b stopped = record {
    udp =
        with_clients (if stopped then close_session r.udp r.session else r.udp)
          (if stopped then [] else r.session ∷ []);
    sent = r.sent;
    inbox = b;
  }

  pub handle_all-Turn :
      (u : Udp) (s : Session) (b : Inbox) (k : Worker) (x : Request)
      (t : Turn sys date (at_work u s k) b x) (stopped : Bool)
      → is_teardown x.method ≡ stopped
      → handle_all sys date (asks x) (requests (serving u s b k))
        ≡ some (true, left_by t.after t.inbox stopped)
  unfolding handle_all serve_clients after_session
  handle_all-Turn u s b k x t stopped is =
      rw (t.returns) (ap (λ c. some (true, left_by t.after t.inbox c)) (t.stopped ∙ is))

  module _ (getpeername : ℕ → Option (ℕ × ℕ)) (mem : Bytes) (addr : ℕ) where
    worker_round-asks :
        (u : Udp) (s : Session) (b : Inbox) (k : Worker) (x : Request)
        (t : Turn sys date (at_work u s k) b x)
        → is_teardown x.method ≡ false
        → worker_round sys date getpeername mem addr (asks x) (serving u s b k)
          ≡ some (serving t.after.udp t.after.session t.inbox (having_sent k t.after.sent))
    unfolding worker_round
    worker_round-asks u s b k x t stays = rw (handle_all-Turn u s b k x t false stays) refl

    -- The process after rounds with requests.
    pub record Talked (xs : List Request) (u : Udp) (s : Session) (b : Inbox) (k : Worker)
        (reads : List (ℕ → ℕ → Option Bytes)) : Type 0 where
      pub udp : Udp
      pub session : Session
      pub inbox : Inbox
      pub texts : List Bytes
      pub loops :
          worker_loop sys date getpeername mem addr (map asks xs ++ reads) (serving u s b k)
          ≡ worker_loop sys date getpeername mem addr reads (
              serving udp session inbox
                (having_sent k (k.wire.sent ++ map (tcp_send s.rtsp_client) texts)))
      pub empty : inbox.buf_pos ≡ 0
      pub client : session.rtsp_client ≡ s.rtsp_client
      pub streaming : session.streaming ≡ (any_play xs || s.streaming)
      pub running : session.stopped ≡ false
      pub knows : (o : Option ℕ) → Knows o (route s) → Knows (last_port xs o) (route session)
      pub replies : Replies xs texts

    first_round :
        (u : Udp) (s : Session) (b : Inbox) (k : Worker) (x : Request) (xs : List Request)
        (reads : List (ℕ → ℕ → Option Bytes)) (t : Turn sys date (at_work u s k) b x)
        → is_teardown x.method ≡ false
        → Talked xs t.after.udp t.after.session t.inbox (having_sent k t.after.sent) reads
        → Talked (x ∷ xs) u s b k reads
    unfolding worker_loop any_sessions
    first_round u s b k x xs reads t stays c =
        let told = map (tcp_send s.rtsp_client) in
        let out : t.after.sent ++ map (tcp_send t.after.session.rtsp_client) c.texts
            ≡ k.wire.sent ++ told (t.texts ++ c.texts) =
          ap (λ l. t.after.sent ++ map (tcp_send l) c.texts) t.client
          ∙ ap (λ l. l ++ told c.texts) t.sent
          ∙ append_assoc k.wire.sent (told t.texts) (told c.texts)
          ∙ ap (λ l. k.wire.sent ++ l)
              (sym (map-append (tcp_send s.rtsp_client) t.texts c.texts)) in
        record {
          udp = c.udp;
          session = c.session;
          inbox = c.inbox;
          texts = t.texts ++ c.texts;
          loops = rw (worker_round-asks u s b k x t stays) (
              c.loops
              ∙ ap
                  (λ l.
                    worker_loop sys date getpeername mem addr reads
                      (serving c.udp c.session c.inbox (having_sent k l)))
                  out);
          empty = c.empty;
          client = c.client ∙ t.client;
          streaming =
              c.streaming
              ∙ ap (λ y. any_play xs || y) t.streaming
              ∙ or_swap (is_play x.method) (any_play xs) s.streaming;
          running = c.running;
          knows = λ o k. c.knows (port_after x.method x.ports o) (t.knows o k);
          replies = t.replies xs c.texts c.replies;
        }

    -- While the one client of the process asks in each round, and does not ask to end, the rounds
    -- answer it and the position in the file and the packet context stay.
    pub worker_loop-Talked :
        (xs : List Request) (u : Udp) (s : Session) (b : Inbox) (k : Worker)
        (reads : List (ℕ → ℕ → Option Bytes))
        → AllRequests xs
        → NoTeardown xs
        → s.stopped ≡ false
        → b.buf_pos ≡ 0
        → Talked xs u s b k reads
    worker_loop-Talked [] u s b k reads v stays running empty = record {
      udp = u;
      session = s;
      inbox = b;
      texts = [];
      loops =
          ap
            (λ l. worker_loop sys date getpeername mem addr reads (serving u s b (having_sent k l)))
            (sym (append-nil k.wire.sent));
      empty = empty;
      client = refl;
      streaming = refl;
      running = running;
      knows = λ o k. k;
      replies = none_asked;
    }
    worker_loop-Talked (x ∷ xs) u s b k reads v stays running empty =
        let t = turn sys date (at_work u s k) b x v.0 running empty in
        first_round u s b k x xs reads t stays.0 (
          worker_loop-Talked xs t.after.udp t.after.session t.inbox (having_sent k t.after.sent)
            reads v.1 stays.1 (t.stopped ∙ stays.0) t.empty)
