-- ===== src/Server.antt =====
-- main/main.cpp, `workerThread`: the rounds of a process, each of which handles requests or sends a
-- unit of the file. What a round reads from a socket is an argument of the round.
pub mod Silent
pub mod Delivery
pub mod Closed
pub mod Asked
pub mod Player
pub mod Ended
pub mod Within
use rtsp_h.Prelude.{ℕ, Bool, Option, some, List, [], ◌∷◌, if◌then◌else◌, ◌>>=◌, Bytes}
use rtsp_h.Transport.{Udp, System}
use rtsp_h.Rtsp.Inbox.{Inbox}
use rtsp_h.Clients.{Round, any_sessions, handle_all}
use rtsp_h.Sim.{Worker, serve_nal}

-- The streamer, the receive buffer and the position in the file; `worker.wire` holds the one log.
pub record Server : Type 0 where
  pub udp : Udp
  pub inbox : Inbox
  pub worker : Worker

abbrev pub with_sent : Server → Round → Server
with_sent v w = record v {
  udp = w.udp;
  inbox = w.inbox;
  worker = record (v.worker) { wire = record (v.worker.wire) { sent = w.sent } };
}

abbrev pub requests : Server → Round
requests v = record { udp = v.udp; sent = v.worker.wire.sent; inbox = v.inbox }

module _ (sys : System) (date : Bytes) (getpeername : ℕ → Option (ℕ × ℕ)) (mem : Bytes)
    (addr : ℕ) where
  -- The body of the loop.
  unfoldable pub worker_round : (ℕ → ℕ → Option Bytes) → Server → Option Server
  worker_round socketread v = do
    (answered, w) ← handle_all sys date socketread (requests v)
    let v₁ = with_sent v w
    if answered then some v₁ else do
      worker' ← serve_nal getpeername v₁.udp.str mem addr v₁.worker
      some (record v₁ { worker = worker' })

  -- `while (streamer.anySessions())`, for as many rounds as there are reads.
  unfoldable pub worker_loop : List (ℕ → ℕ → Option Bytes) → Server → Option Server
  worker_loop [] v = some v
  worker_loop (socketread ∷ rest) v =
      if any_sessions v.udp.str
      then (do v' ← worker_round socketread v; worker_loop rest v')
      else some v
