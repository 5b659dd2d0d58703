-- ===== src/Program/Accepts.antt =====
-- main/main.cpp, `main`: the process that listens, and those of its clients.
use rtsp_h.Prelude.{
  ℕ, ◌≡◌, refl, ap, sym, ◌∙◌, true, false, Option, some, List, [], ◌∷◌, ◌++◌, map, append_assoc,
  append-nil, ◌>>=◌, Bytes,
}
use rtsp_h.Mux.{RtpMuxContext}
use rtsp_h.Transport.{System}
use rtsp_h.Server.{worker_loop}
use rtsp_h.Posix.{socketread}
use rtsp_h.Files.{FileSystem}
use rtsp_h.Program.{Connection, Process, Listening, worker_start, finish_worker, accept_loop}

-- `fork` returned another number than 0 for each of them.
abbrev pub AllForked : List Connection → Type 0
AllForked [] = Unit
AllForked (c ∷ cs) = (c.in_child ≡ false) × AllForked cs

abbrev pub sockets : List Connection → List ℕ
sockets cs = map (λ (c : Connection). c.socket) cs

module _ (sys : System) (date : Bytes) (getpeername : ℕ → Option (ℕ × ℕ)) (addr random : ℕ)
    (fs : FileSystem) (net : Listening) (mux : RtpMuxContext) (stream : Bytes) where
  -- What the process of a client does, from its start.
  abbrev pub client_process : List ℕ → Connection → Option Process
  client_process opened c = do
    v ←
        worker_loop sys date getpeername stream addr (map socketread c.recvs)
          (worker_start mux stream random c.socket)
    some (finish_worker net.master opened v)

  abbrev pub accepts : List Connection → List ℕ → Option Process
  accepts cs opened = accept_loop sys date getpeername addr random fs net mux stream cs opened

  accept_loop-append :
      (cs ds : List Connection) (opened : List ℕ)
      → AllForked cs
      → accepts (cs ++ ds) opened ≡ accepts ds (opened ++ sockets cs)
  unfolding accept_loop
  accept_loop-append [] ds opened all = ap (accepts ds) (sym (append-nil opened))
  accept_loop-append (c ∷ cs) ds opened (forked, all) = rw forked (
      accept_loop-append cs ds (opened ++ c.socket ∷ []) all
      ∙ ap (accepts ds) (append_assoc opened (c.socket ∷ []) (sockets cs)))

  -- The process of a client that comes after others, which `fork` made a process for.
  pub accept_loop-client :
      (cs rest : List Connection) (c : Connection) (opened : List ℕ)
      → AllForked cs
      → c.in_child ≡ true
      → accepts (cs ++ c ∷ rest) opened ≡ client_process (opened ++ sockets cs) c
  unfolding accept_loop
  accept_loop-client cs rest c opened all child =
      accept_loop-append cs (c ∷ rest) opened all ∙ rw child refl
