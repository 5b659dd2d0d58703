-- ===== src/Posix.antt =====
-- src/platglue-posix.h, `socketread`: a read with a timeout. What `recv` gives is an argument.
pub mod Within
use rtsp_h.Prelude.{ℕ, Bool, ◌||◌, Option, none, some, [], ◌==◌, if◌then◌else◌, Bytes}

-- What `recv` returns: bytes, none of them where the peer has closed, or an error with its `errno`.
pub data Recv : Type 0 where
  received : Bytes → Recv
  failed : ℕ → Recv

-- `EAGAIN` and `EWOULDBLOCK` are one number on Linux.
abbrev pub eagain : ℕ
eagain = 11

abbrev pub ewouldblock : ℕ
ewouldblock = 11

-- A timeout, -1 in the program, is `none`, and 0 is no bytes.
abbrev pub read_result : Recv → Option Bytes
read_result (received chunk) = some chunk
read_result (failed errno) = if errno == ewouldblock || errno == eagain then none else some []

abbrev pub socketread : (ℕ → ℕ → Recv) → ℕ → ℕ → Option Bytes
socketread recv sock buflen = read_result (recv sock buflen)
