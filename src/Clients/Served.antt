-- ===== src/Clients/Served.antt =====
-- src/CStreamer.cpp, `handleRequests`: what the list of sessions is after one round.
use rtsp_h.Prelude.{
  ℕ, ◌≡◌, refl, Bool, true, false, Option, some, List, [], ◌∷◌, if◌then◌else◌, Bytes, arith,
  bind-eq-some,
}
use rtsp_h.Session.{Session}
use rtsp_h.Transport.{System}
use rtsp_h.Rtsp.Handlers.{Rtsp}
use rtsp_h.Rtsp.Inbox.{clear_full, room, handle_requests}
use rtsp_h.Clients.{Round, after_session, serve_clients, handle_all}

-- No session of the list has stopped.
abbrev pub AllRunning : List Session → Type 0
AllRunning [] = Unit
AllRunning (s ∷ ss) = (s.stopped ≡ false) × AllRunning ss

AllRunning-if :
    (s : Session) (left : List Session) (b : Bool)
    → s.stopped ≡ b
    → AllRunning left
    → AllRunning (if b then left else s ∷ left)
AllRunning-if s left true e h = h
AllRunning-if s left false e h = (e, h)

module _ (sys : System) (date : Bytes) (socketread : ℕ → ℕ → Option Bytes) where
  serve_clients-AllRunning :
      (ss : List Session) (w : Round) {answered : Bool} {left : List Session} {w' : Round}
      → serve_clients sys date socketread ss w ≡ some (answered, left, w')
      → AllRunning left
  unfolding serve_clients
  serve_clients-AllRunning [] w h = ground arith
  serve_clients-AllRunning (s ∷ ss) w {left = left} h =
      let received = socketread s.rtsp_client (room (clear_full w.inbox)) in
      let start : Rtsp = record { session = s; udp = w.udp; sent = w.sent } in
      let ((answered, r, b), e, h₁) =
        bind-eq-some (handle_requests sys date received start w.inbox) _ h in
      let ((more, others, w₁), e₂, h₂) =
        bind-eq-some (serve_clients sys date socketread ss (after_session r b)) _ h₁ in
      let kept =
        AllRunning-if (r.session) others _ refl
          (serve_clients-AllRunning ss (after_session r b) e₂) in
      let same : left ≡ (if r.session.stopped then others else r.session ∷ others) = ground arith in
      rw same kept

  -- After a round over the sessions that returns, none of the streamer's sessions has stopped.
  pub handle_all-AllRunning :
      (w : Round) {answered : Bool} {w'' : Round}
      → handle_all sys date socketread w ≡ some (answered, w'')
      → AllRunning w''.udp.str.clients
  unfolding handle_all
  handle_all-AllRunning w {w'' = w''} h =
      let ((answered, left, w'), e, h₁) =
        bind-eq-some (serve_clients sys date socketread w.udp.str.clients w) _ h in
      let kept = serve_clients-AllRunning w.udp.str.clients w e in
      let same : w''.udp.str.clients ≡ left = ground arith in rw same kept
