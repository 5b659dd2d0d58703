-- ===== src/Program.antt =====
-- main/main.cpp, `main` and the start of `workerThread`: the file is read, and every client gets a
-- process of its own. What the system gives is an argument.
pub mod Accepts
pub mod Plays
pub mod Ends
use rtsp_h.Prelude.{
  ℕ, Bool, not, ◌||◌, Option, some, List, [], ◌∷◌, ◌++◌, map, if◌then◌else◌, ◌>>=◌, Bytes, length,
  replicate, ltb, ◌^◌, ◌==◌, ℤ, pos, negsuc, none,
}
use rtsp_h.Mux.{RtpMuxContext, init_rtp_mux_context}
use rtsp_h.Session.{rtsp_buffer_size}
use rtsp_h.Streamer.{Streamer}
use rtsp_h.Transport.{Udp, System, udpsocketclose, is_zero}
use rtsp_h.Rtsp.Text.{codes}
use rtsp_h.Rtsp.Inbox.{Inbox, HdrState}
use rtsp_h.Clients.{new_streamer, add_session, any_sessions, destroy}
use rtsp_h.Server.{Server, worker_loop}
use rtsp_h.Posix.{Recv, socketread}
use rtsp_h.Files.{FileSystem, ReadFile, read_file}

-- The constructor of `SimStreamer`
unfoldable pub sim_streamer : Streamer
sim_streamer = new_streamer 800 480

abbrev pub file_name : Bytes
file_name = codes "../sample_1280x720.hevc"

-- The context, a global variable, before `main`.
abbrev pub zero_context : RtpMuxContext
zero_context = record {
  cache = replicate 1416 0;
  buf = replicate 1400 0;
  buf_ptr = 0;
  aggregation = 0;
  payload_type = 0;
  ssrc = 0;
  seq = 0;
  timestamp = 0;
}

-- The static variables of `handleRequests`, before the first call.
abbrev pub first_inbox : Inbox
first_inbox = record {
  buf_pos = 0;
  state = HdrState.hdr_unknown;
  recv_buf = replicate rtsp_buffer_size 0;
}

-- `workerThread` before its loop: a streamer with one session, at the beginning of the file. The
-- session's `debug`, which is set to false then, is that of the streamer, false already.
unfoldable pub worker_start : RtpMuxContext → Bytes → ℕ → ℕ → Server
worker_start mux stream random s = record {
  udp = add_session (record { str = sim_streamer; closed = [] }) random s;
  inbox = first_inbox;
  worker = record {
    stream_buf = 0;
    stream_len_temp = length stream;
    wire = record { mux = mux; sent = [] };
  };
}

-- A call of `accept` and of `fork`: the 32 bits of what `accept` returned, so that the -1 of a failure,
-- which is not tested, is 0xffffffff; whether `fork` returned 0; and what the process of the client
-- reads from sockets, a round at a time.
pub record Connection : Type 0 where
  pub socket : ℕ
  pub in_child : Bool
  pub recvs : List (ℕ → ℕ → Recv)

-- What a process does: it has returned from `main`, having served a client or not; it accepts clients,
-- with the sockets of those that came still open; or it serves one, with the sockets of those that came
-- before, which it has from the process that forked it and never closes.
pub data Process : Type 0 where
  returned : ℤ → Process
  finished : List ℕ → Udp → Process
  accepting : List ℕ → Process
  working : List ℕ → Server → Process

-- The end of `main` in the process of a client, after the destructor of its streamer.
unfoldable pub finish_worker : ℕ → List ℕ → Server → Process
finish_worker master opened v =
    if any_sessions v.udp.str
    then working opened v
    else finished opened (udpsocketclose (destroy v.udp) master)

-- `if (res)`
abbrev pub is_failure : ℤ → Bool
is_failure n = not (is_zero n)

-- Whether `setsockopt`, `bind` and `listen` succeed, and the descriptor of the listening socket.
pub record Listening : Type 0 where
  pub master : ℕ
  pub option_set : Bool
  pub bound : Bool
  pub listens : Bool

-- `random` is what `rand()` gives first: nothing seeds it and `fork` copies its state, so that it is
-- the same in every process.
module _ (sys : System) (date : Bytes) (getpeername : ℕ → Option (ℕ × ℕ)) (addr random : ℕ)
    (fs : FileSystem) (net : Listening) where
  -- The loop that accepts clients, for those that come.
  unfoldable pub accept_loop : RtpMuxContext → Bytes → List Connection → List ℕ → Option Process
  accept_loop mux stream [] opened = some (accepting opened)
  accept_loop mux stream (c ∷ cs) opened =
      let rest = accept_loop mux stream cs (opened ++ c.socket ∷ []) in
      if c.in_child
      then (do
        v ←
            worker_loop sys date getpeername stream addr (map socketread c.recvs)
              (worker_start mux stream random c.socket)
        some (finish_worker net.master opened v))
      else rest

  -- The length in the program is an `int`. A file of 2 ^ 31 bytes or more, of which it is not the
  -- size, has no answer here.
  abbrev fits_int : ReadFile → Bool
  fits_int f = ltb (length f.stream) (2 ^ 31)

  -- `main`
  unfoldable pub main : List Connection → Option Process
  main connections = do
    let mux = init_rtp_mux_context zero_context
    f ← read_file fs file_name [] (pos 0)
    if is_failure f.res
        then some (returned (negsuc 0))
        else if not net.option_set || not net.bound || not net.listens
        then some (returned (pos 0))
        else if fits_int f
        then accept_loop mux f.stream connections []
        else none
