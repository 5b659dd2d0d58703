-- ===== src/Server/Silent.antt =====
-- main/main.cpp, `workerThread`: rounds in which no client says anything.
use rtsp_h.Prelude.{
  ℕ, zero, suc, ◌≡◌, ◌≢◌, refl, ap, Bool, true, false, not, Option, none, some, List, [], ◌∷◌,
  if◌then◌else◌, Bytes, replicate, bind-eq-some,
}
use rtsp_h.Session.{Session}
use rtsp_h.Transport.{System}
use rtsp_h.Rtsp.Handlers.{Rtsp}
use rtsp_h.Rtsp.Inbox.{Inbox, clear_full, handle_requests}
use rtsp_h.Clients.{
  Round, close_session, after_session, serve_clients, handle_all, is_empty, any_sessions,
}
use rtsp_h.Clients.Served.{AllRunning}
use rtsp_h.Sim.{Worker, serve_nal, serve_nals}
use rtsp_h.Server.{Server, requests, worker_round, worker_loop}

-- No client sends anything.
abbrev pub silent : ℕ → ℕ → Option Bytes
silent socket n = none

abbrev with_inbox : Round → Inbox → Round
with_inbox w b = record w { inbox = b }

not_nil : (ss : List Session) → ss ≢ [] → is_empty ss ≡ false
not_nil [] h = absurd (h refl)
not_nil (s ∷ ss) h = refl

after_session-running :
    (r : Rtsp) (b : Inbox)
    → r.session.stopped ≡ false
    → after_session r b ≡ record { udp = r.udp; sent = r.sent; inbox = b }
unfolding after_session
after_session-running r b running =
    ap
      (λ (stopped : Bool).
        let w : Round = record {
          udp = if stopped then close_session r.udp r.session else r.udp;
          sent = r.sent;
          inbox = b;
        } in
        w)
      running

module _ (sys : System) (date : Bytes) where
  handle_requests-silent :
      (r : Rtsp) (b : Inbox)
      → r.session.stopped ≡ false
      → handle_requests sys date none r b ≡ some (false, r, clear_full b)
  unfolding handle_requests
  handle_requests-silent r b running =
      ap (λ (stopped : Bool). if stopped then some (false, r, b) else some (false, r, clear_full b))
        running

  serve_clients-silent :
      (ss : List Session) (w : Round)
      → AllRunning ss
      → (b : Inbox) × (serve_clients sys date silent ss w ≡ some (is_empty ss, ss, with_inbox w b))
  unfolding serve_clients
  serve_clients-silent [] w all = (w.inbox, refl)
  serve_clients-silent (s ∷ ss) w (running, all) =
      let r : Rtsp = record { session = s; udp = w.udp; sent = w.sent } in
      let first = handle_requests-silent r w.inbox running in
      let after = after_session-running r (clear_full w.inbox) running in
      let (b, others) = serve_clients-silent ss (with_inbox w (clear_full w.inbox)) all in
      (
        b,
        rw (first, after, others)
            (ap (λ (stopped : Bool). some (false, (if stopped then ss else s ∷ ss), with_inbox w b))
              running),
      )

  handle_all-silent :
      (w : Round)
      → AllRunning w.udp.str.clients
      → w.udp.str.clients ≢ []
      → (b : Inbox) × (handle_all sys date silent w ≡ some (false, with_inbox w b))
  unfolding handle_all
  handle_all-silent w all some_client =
      let (b, served) = serve_clients-silent w.udp.str.clients w all in
      let client : is_empty w.udp.str.clients ≡ false = not_nil w.udp.str.clients some_client in
      (b, rw served (ap (λ (x : Bool). some (x, with_inbox w b)) client))

same : {a b : Worker} → some a ≡ some b → a ≡ b
same h = cc

module _ (sys : System) (date : Bytes) (getpeername : ℕ → Option (ℕ × ℕ)) (mem : Bytes)
    (addr : ℕ) where
  -- What the server is with another receive buffer and further on in the file.
  abbrev moved : Server → Inbox → Worker → Server
  moved v b worker = record v { inbox = b; worker = worker }

  worker_round-silent :
      (v : Server) (worker : Worker)
      → AllRunning v.udp.str.clients
      → v.udp.str.clients ≢ []
      → serve_nal getpeername v.udp.str mem addr v.worker ≡ some worker
      → (b : Inbox) × (worker_round sys date getpeername mem addr silent v
          ≡ some (moved v b worker))
  unfolding worker_round
  worker_round-silent v worker all some_client served =
      let (b, handled) = handle_all-silent sys date (requests v) all some_client in
      (b, rw handled (rw served refl))

  -- While no client says anything, the rounds of the loop are those that send the file, as long as
  -- those succeed: the sessions stay as they are, and the position in the file and the log are theirs.
  pub worker_loop-silent :
      (n : ℕ) (v : Server) (worker : Worker)
      → AllRunning v.udp.str.clients
      → v.udp.str.clients ≢ []
      → serve_nals getpeername v.udp.str mem addr n v.worker ≡ some worker
      → (b : Inbox) × (worker_loop sys date getpeername mem addr (replicate n silent) v
          ≡ some (record { udp = v.udp; inbox = b; worker = worker }))
  unfolding worker_loop serve_nals any_sessions
  worker_loop-silent zero v worker all some_client served =
      (v.inbox, ap (λ (k : Worker). some (moved v v.inbox k)) (same served))
  worker_loop-silent (suc n) v worker all some_client served =
      let client : not (is_empty v.udp.str.clients) ≡ true =
        ap not (not_nil v.udp.str.clients some_client) in
      let (next, one, more) =
        bind-eq-some (serve_nal getpeername v.udp.str mem addr v.worker) _ served in
      let (b, round) = worker_round-silent v next all some_client one in
      let (b', rest) = worker_loop-silent n (moved v b next) worker all some_client more in
      (b', rw client (rw round rest))
