-- ===== src/Server/Delivery.antt =====
-- main/main.cpp, `workerThread`: one pass over the file for clients that say nothing.
use rtsp_h.Prelude.{ℕ, ◌≡◌, ◌≢◌, Option, some, List, [], ◌++◌, Bytes, IsBytes, length, replicate}
use rtsp_h.Streamer.{Wire}
use rtsp_h.Streamer.SendData.{IsReady, broadcast}
use rtsp_h.Receiver.{fresh, receive_all}
use rtsp_h.Sim.AnnexB.{annex_b}
use rtsp_h.Sim.Serve.{AllFile, timed_packets, all_payloads, serve_nals-delivers}
use rtsp_h.Transport.{Udp, System}
use rtsp_h.Rtsp.Inbox.{Inbox}
use rtsp_h.Clients.Served.{AllRunning}
use rtsp_h.Server.{Server, worker_loop}
use rtsp_h.Server.Silent.{silent, worker_loop-silent}

-- The server at the beginning of the file.
abbrev pub beginning : Udp → Inbox → Bytes → Wire → Server
beginning u b mem w = record {
  udp = u;
  inbox = b;
  worker = record { stream_buf = 0; stream_len_temp = length mem; wire = w };
}

-- For a file in the format of annex B with start codes of four bytes, of at least one unit, the
-- units being escaped, of a type below 48, of layer 0 and with temporal id 1, with aggregation off,
-- nothing buffered and clients that are there, have not stopped and say nothing: as many rounds of
-- the loop as there are units bring the server back to the beginning of the file. What went out to
-- the playing sessions are packets with consecutive sequence numbers, each unit with its own
-- timestamp, 3000 after the one before; and a receiver by RFC 7798 gets exactly the units.
pub worker_loop-delivers :
    (sys : System) (date : Bytes) (getpeername : ℕ → Option (ℕ × ℕ)) (addr : ℕ) (us : List Bytes)
    (u : Udp) (b : Inbox) (w : Wire)
    → AllRunning u.str.clients
    → u.str.clients ≢ []
    → us ≢ []
    → IsBytes (annex_b us)
    → AllFile us
    → IsReady w.mux
    → w.mux.buf_ptr ≡ 0
    → w.mux.aggregation ≡ 0
    → (b' : Inbox) × (w' : Wire) × (groups : List (List Bytes)) × (worker_loop sys date getpeername
          (annex_b us)
          addr
          (replicate (length us) silent)
          (beginning u b (annex_b us) w)
        ≡ some (beginning u b' (annex_b us) w'))
      × (w'.sent
          ≡ w.sent
            ++ broadcast getpeername u.str
                (timed_packets w.mux.seq w.mux.timestamp w.mux.ssrc groups))
      × ((receive_all fresh (all_payloads groups)).units ≡ us)
worker_loop-delivers sys date getpeername addr us u b w all some_client some_unit bytes file ready
      empty off =
    let (w', groups, served, sent, got) =
      serve_nals-delivers getpeername u.str addr us w some_unit bytes file ready empty off in
    let (b', loop) =
      worker_loop-silent sys date getpeername (annex_b us) addr (length us)
        (beginning u b (annex_b us) w) _ all some_client served in
    (b', w', groups, loop, sent, got)
