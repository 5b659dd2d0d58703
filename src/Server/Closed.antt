-- ===== src/Server/Closed.antt =====
-- main/main.cpp, `workerThread`: how the loop ends when the clients close their sockets.
use rtsp_h.Prelude.{
  ℕ, ◌≡◌, refl, ap, Bool, true, false, Option, some, List, [], ◌∷◌, if◌then◌else◌, Bytes,
  Bool-cases, inl, inr,
}
use rtsp_h.Session.{Session}
use rtsp_h.Transport.{System}
use rtsp_h.Rtsp.Handlers.{Rtsp, with_session}
use rtsp_h.Rtsp.Inbox.{Inbox, clear_full, handle_read, handle_requests}
use rtsp_h.Clients.{
  Round, with_clients, after_session, serve_clients, handle_all, is_empty, any_sessions,
}
use rtsp_h.Clients.Served.{AllRunning}
use rtsp_h.Streamer.{Sent}
use rtsp_h.Server.{Server, with_sent, requests, worker_round, worker_loop}

-- Every client has closed its socket.
abbrev pub closed : ℕ → ℕ → Option Bytes
closed socket n = some []

module _ (sys : System) (date : Bytes) where
  handle_requests-closed :
      (r : Rtsp) (b : Inbox)
      → r.session.stopped ≡ false
      → handle_requests sys date (some []) r b
        ≡ some (true, with_session r (record (r.session) { stopped = true }), clear_full b)
  unfolding handle_requests
  handle_requests-closed r b running =
      ap
        (λ (stopped : Bool).
          if stopped then some (false, r, b) else handle_read sys date (some []) r (clear_full b))
        running

  serve_clients-closed :
      (ss : List Session) (w : Round)
      → AllRunning ss
      → (w' : Round) × (serve_clients sys date closed ss w ≡ some (true, [], w'))
        × (w'.sent ≡ w.sent)
  unfolding serve_clients after_session
  serve_clients-closed [] w all = (w, refl, refl)
  serve_clients-closed (s ∷ ss) w (running, all) =
      let r : Rtsp = record { session = s; udp = w.udp; sent = w.sent } in
      let first = handle_requests-closed r w.inbox running in
      let after =
        after_session (with_session r (record s { stopped = true })) (clear_full w.inbox) in
      let (w', others, kept) = serve_clients-closed ss after all in
      (w', rw (first, others) refl, kept)

  handle_all-closed :
      (w : Round)
      → AllRunning w.udp.str.clients
      → (w' : Round) × (handle_all sys date closed w ≡ some (true, w'))
        × (w'.udp.str.clients ≡ [])
        × (w'.sent ≡ w.sent)
  unfolding handle_all
  handle_all-closed w all =
      let (w', served, kept) = serve_clients-closed w.udp.str.clients w all in
      (record w' { udp = with_clients w'.udp [] }, rw served refl, refl, kept)

empty-nil : (ss : List Session) → is_empty ss ≡ true → ss ≡ []
empty-nil [] h = refl
empty-nil (s ∷ ss) h = cc

module _ (sys : System) (date : Bytes) (getpeername : ℕ → Option (ℕ × ℕ)) (mem : Bytes)
    (addr : ℕ) where
  -- With no session left the loop ends at once.
  pub worker_loop-done :
      (reads : List (ℕ → ℕ → Option Bytes)) (v : Server)
      → is_empty v.udp.str.clients ≡ true
      → worker_loop sys date getpeername mem addr reads v ≡ some v
  unfolding worker_loop any_sessions
  worker_loop-done [] v nobody = refl
  worker_loop-done (socketread ∷ reads) v nobody = rw nobody refl

  worker_round-closed :
      (v : Server)
      → AllRunning v.udp.str.clients
      → (v' : Server) × (worker_round sys date getpeername mem addr closed v ≡ some v')
        × (v'.udp.str.clients ≡ [])
        × (v'.worker ≡ v.worker)
  unfolding worker_round
  worker_round-closed v all =
      let (w, handled, nobody, kept) = handle_all-closed sys date (requests v) all in
      (
        with_sent v w,
        rw handled refl,
        nobody,
        ap (λ (out : List Sent). record (v.worker) { wire = record (v.worker.wire) { sent = out } })
            kept,
      )

-- When the clients, none of which has stopped before, close their sockets, the round returns, no
-- session is left, nothing is sent and the position in the file stays, and the loop ends, whatever
-- could be read afterwards.
pub worker_loop-closed :
    (sys : System) (date : Bytes) (getpeername : ℕ → Option (ℕ × ℕ)) (mem : Bytes) (addr : ℕ)
    (reads : List (ℕ → ℕ → Option Bytes)) (v : Server)
    → AllRunning v.udp.str.clients
    → (v' : Server) × (worker_loop sys date getpeername mem addr (closed ∷ reads) v ≡ some v')
      × (v'.udp.str.clients ≡ [])
      × (v'.worker ≡ v.worker)
unfolding worker_loop worker_round any_sessions
worker_loop-closed sys date getpeername mem addr reads v all =
    elim (Bool-cases (is_empty v.udp.str.clients)) [
      | inl nobody ↦ (v, rw nobody refl, empty-nil _ nobody, refl)
      | inr somebody ↦
          let (v', round, left, kept) = worker_round-closed sys date getpeername mem addr v all in
          let done = worker_loop-done sys date getpeername mem addr reads v' (ap is_empty left) in
          (v', rw (somebody, round, done) refl, left, kept)
    ]
