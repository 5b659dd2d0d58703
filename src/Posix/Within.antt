-- ===== src/Posix/Within.antt =====
-- src/platglue-posix.h: how much `recv` is asked for, and where it is stored.
use rtsp_h.Prelude.{ℕ, ◌≤◌, ◌≡◌, Bytes, length}
use rtsp_h.Server.{Server}
use rtsp_h.Posix.{Recv, received}

-- `recv` writes no more bytes than it is asked for.
abbrev pub IsRecv : (ℕ → ℕ → Recv) → Type 0
IsRecv recv = (sock n : ℕ) (chunk : Bytes) → recv sock n ≡ received chunk → length chunk ≤ n
