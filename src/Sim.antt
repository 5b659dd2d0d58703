-- ===== src/Sim.antt =====
-- src/SimStreamer.cpp, and the loop of `workerThread` in main/main.cpp: the next NAL unit of the
-- file in memory, and sending it. `mem` is the file, `addr` the address of its first byte, and
-- pointers into it are offsets, so `buf` is never `NULL`. A size below 0 is 0 here: the program
-- only tests whether it is above 0.
pub mod AnnexB
pub mod Select
pub mod Serve
use rtsp_h.Prelude.{
  ℕ, zero, suc, ◌+◌, ◌-◌, ◌%◌, ◌^◌, Bool, Option, none, some, List, [], ◌∷◌, ◌++◌, ltb, ◌==◌,
  if◌then◌else◌, ◌>>=◌, Bytes, length, get_elem?, drop,
}
use rtsp_h.Avc.{find_startcode}
use rtsp_h.Streamer.{Streamer, Wire, with_mux, stream_nal}

-- `while (!*(r++));`
unfoldable pub skip_startcode : Bytes → ℕ → ℕ → Option ℕ
skip_startcode mem zero r = none
skip_startcode mem (suc k) r =
    let rest = skip_startcode mem k (r + 1) in
    do b ← get_elem? mem r; if b == 0 then rest else some (r + 1)

-- The arguments of `SelectNextNal` after the call; `nal` is `none` where it stays `NULL`.
pub record Selected : Type 0 where
  pub buf : ℕ
  pub size : ℕ
  pub nal : Option ℕ
  pub nal_len : ℕ

-- A negative length is a fault: the program hands it on to `memcpy`.
unfoldable pub select_next_nal : Bytes → ℕ → ℕ → ℕ → Option Selected
select_next_nal mem addr buf size =
    if size == 0 then some (record { buf = buf; size = size; nal = none; nal_len = 0 }) else do
      let end = buf + size
      code ← find_startcode mem addr buf end
      r ← skip_startcode mem (length mem + 1) code
      r₁ ← find_startcode mem addr r end
      if ltb r₁ r
          then none
          else some
              (record { buf = r₁; size = size - (r₁ - r) - 4; nal = some r; nal_len = r₁ - r })

-- The state of the loop of `workerThread`: the pointer into the file, and what is sent.
pub record Worker : Type 0 where
  pub stream_buf : ℕ
  pub stream_len_temp : ℕ
  pub wire : Wire

-- `rtpMuxContext.timestamp += (90000.0 / 30)`, a conversion from double that is undefined from 2 ^ 32
-- on and wraps here, as one by way of 64 bits does.
abbrev pub advance_timestamp : Wire → Wire
advance_timestamp w = with_mux w (record (w.mux) { timestamp = (w.mux.timestamp + 3000) % 2 ^ 32 })

module _ (getpeername : ℕ → Option (ℕ × ℕ)) (str : Streamer) (mem : Bytes) (addr : ℕ) where
  -- The bytes at `nal`, as far as the memory goes.
  abbrev bytes_at : Option ℕ → Bytes
  bytes_at none = []
  bytes_at (some r) = drop r mem

  -- The branch of the loop for a round in which no request was handled.
  unfoldable pub serve_nal : Worker → Option Worker
  serve_nal worker = do
    s ← select_next_nal mem addr worker.stream_buf worker.stream_len_temp
    w ← stream_nal getpeername str worker.wire (bytes_at s.nal) s.nal_len
    let w' = advance_timestamp w
    some (
        if s.size == 0
        then record { stream_buf = 0; stream_len_temp = length mem; wire = w' }
        else record { stream_buf = s.buf; stream_len_temp = s.size; wire = w' })

  -- Rounds in which no request is handled.
  unfoldable pub serve_nals : ℕ → Worker → Option Worker
  serve_nals zero worker = some worker
  serve_nals (suc k) worker = do worker' ← serve_nal worker; serve_nals k worker'
