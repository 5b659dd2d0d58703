-- ===== src/Server/Within.antt =====
-- main/main.cpp, `workerThread`, and src/CRtspSession.cpp: what rounds that return leave of the receive
-- buffer.
use rtsp_h.Prelude.{
  ℕ, ◌≡◌, Bool, true, false, Option, some, List, [], ◌∷◌, if◌then◌else◌, ◌>>=◌, Bool-cases, inl,
  inr, Bytes, arith, bind-eq-some,
}
use rtsp_h.Session.{Session}
use rtsp_h.Transport.{System}
use rtsp_h.Rtsp.Handlers.{Rtsp}
use rtsp_h.Rtsp.Inbox.{clear_full, room, handle_requests}
use rtsp_h.Rtsp.Bounds.{IsInbox, handle_requests-IsInbox}
use rtsp_h.Clients.{Round, after_session, serve_clients, handle_all, any_sessions}
use rtsp_h.Sim.{serve_nal}
use rtsp_h.Server.{Server, requests, with_sent, worker_round, worker_loop}

module _ (sys : System) (date : Bytes) where
  serve_clients-IsInbox :
      (read : ℕ → ℕ → Option Bytes) (ss : List Session) (w : Round) {answered : Bool}
      {left : List Session} {w' : Round}
      → IsInbox w.inbox
      → serve_clients sys date read ss w ≡ some (answered, left, w')
      → IsInbox w'.inbox
  unfolding serve_clients after_session
  serve_clients-IsInbox read [] w {w' = w'} v h = let same : w' ≡ w = ground arith in rw same v
  serve_clients-IsInbox read (s ∷ ss) w {w' = w'} v h =
      let n = room (clear_full w.inbox) in
      let start : Rtsp = record { session = s; udp = w.udp; sent = w.sent } in
      let ((answered, r, b), e, h₁) =
        bind-eq-some (handle_requests sys date (read s.rtsp_client n) start w.inbox) _ h in
      let ((more, others, w₁), e₂, h₂) =
        bind-eq-some (serve_clients sys date read ss (after_session r b)) _ h₁ in
      let inside = handle_requests-IsInbox sys date (read s.rtsp_client n) start w.inbox v e in
      let kept = serve_clients-IsInbox read ss (after_session r b) inside e₂ in
      let same : w' ≡ w₁ = ground arith in rw same kept

  handle_all-IsInbox :
      (read : ℕ → ℕ → Option Bytes) (w : Round) {answered : Bool} {w'' : Round}
      → IsInbox w.inbox
      → handle_all sys date read w ≡ some (answered, w'')
      → IsInbox w''.inbox
  unfolding handle_all
  handle_all-IsInbox read w {w'' = w''} v h =
      let ((answered, left, w'), e, h₁) =
        bind-eq-some (serve_clients sys date read w.udp.str.clients w) _ h in
      let kept = serve_clients-IsInbox read w.udp.str.clients w v e in
      let same : w''.inbox ≡ w'.inbox = ground arith in rw same kept

  module _ (getpeername : ℕ → Option (ℕ × ℕ)) (mem : Bytes) (addr : ℕ) where
    then_unit-IsInbox :
        (v : Server) (answered : Bool) {v' : Server}
        → IsInbox v.inbox
        → (if answered then some v else do
          worker' ← serve_nal getpeername v.udp.str mem addr v.worker
          some (record v { worker = worker' }))
          ≡ some v'
        → IsInbox v'.inbox
    then_unit-IsInbox v true {v' = v'} k h = let same : v' ≡ v = ground arith in rw same k
    then_unit-IsInbox v false {v' = v'} k h =
        let (worker', e, h₁) =
          bind-eq-some (serve_nal getpeername v.udp.str mem addr v.worker) _ h in
        let same : v'.inbox ≡ v.inbox = ground arith in rw same k

    worker_round-IsInbox :
        (read : ℕ → ℕ → Option Bytes) (v : Server) {v' : Server}
        → IsInbox v.inbox
        → worker_round sys date getpeername mem addr read v ≡ some v'
        → IsInbox v'.inbox
    unfolding worker_round
    worker_round-IsInbox read v k h =
        let ((answered, w), e, h₁) = bind-eq-some (handle_all sys date read (requests v)) _ h in
        then_unit-IsInbox (with_sent v w) answered (handle_all-IsInbox read (requests v) k e) h₁

    pub worker_loop-Within :
        (reads : List (ℕ → ℕ → Option Bytes)) (v : Server) {v' : Server}
        → IsInbox v.inbox
        → worker_loop sys date getpeername mem addr reads v ≡ some v'
        → IsInbox v'.inbox
    unfolding worker_loop
    worker_loop-Within [] v {v' = v'} k h = let same : v' ≡ v = ground arith in rw same k
    worker_loop-Within (read ∷ reads) v {v' = v'} k h = elim (Bool-cases (any_sessions v.udp.str)) [
      | inl some_left ↦
          let (v₁, e, rest) =
            bind-eq-some (worker_round sys date getpeername mem addr read v) _
              (rw some_left at h) in
          worker_loop-Within reads v₁ (worker_round-IsInbox read v k e) rest
      | inr nobody ↦ let same : v' ≡ v = ground arith in rw same k
    ]
