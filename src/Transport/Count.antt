-- ===== src/Transport/Count.antt =====
-- src/CStreamer.cpp: the count of the sessions that use the UDP sockets.
use rtsp_h.Prelude.{
  ℕ, zero, suc, ◌≡◌, refl, ap, true, Option, none, some, List, [], ◌∷◌, pos, increment, decrement,
  arith,
}
use rtsp_h.Transport.{Udp, System, udpsocketclose, init_udp_transport, release_udp_transport}
use rtsp_h.Transport.Ports.{init_udp_transport-ports}

-- The calls that the sessions make.
pub data Call : Type 0 where
  init release : Call

abbrev pub run_call : System → Call → Udp → Udp
run_call sys init u = (init_udp_transport sys u).0
run_call sys release u = release_udp_transport u

abbrev pub run_calls : System → List Call → Udp → Udp
run_calls sys [] u = u
run_calls sys (c ∷ cs) u = run_calls sys cs (run_call sys c u)

-- The sessions left on UDP, if no call releases what was not taken.
abbrev pub balance : List Call → ℕ → Option ℕ
balance [] n = some n
balance (init ∷ cs) n = balance cs (suc n)
balance (release ∷ cs) (suc n) = balance cs n
balance (release ∷ cs) zero = none

-- `n` sessions share the sockets; with none there are neither sockets nor ports.
pub record Shared (u : Udp) (n : ℕ) : Type 0 where
  pub count : u.str.udp_ref_count ≡ pos n
  pub idle :
      n ≡ 0
      → (u.str.rtp_socket ≡ 0)
        × (u.str.rtcp_socket ≡ 0)
        × (u.str.rtp_server_port ≡ 0)
        × (u.str.rtcp_server_port ≡ 0)

init-Shared :
    (sys : System) (u : Udp) (n : ℕ) → Shared u n → Shared (init_udp_transport sys u).0 (suc n)
init-Shared sys u zero s = record {
  count = (init_udp_transport-ports sys u s.count).0;
  idle = λ e. cc;
}
init-Shared sys u (suc n) s = record {
  count = unfold init_udp_transport increment in rw (s.count) (ap pos (omega arith));
  idle = λ e. cc;
}

release-Shared : (u : Udp) (n : ℕ) → Shared u (suc n) → Shared (release_udp_transport u) n
unfolding release_udp_transport udpsocketclose decrement
release-Shared u zero s = record {
  count = rw (s.count) refl;
  idle = λ e. rw (s.count) (refl, refl, refl, refl);
}
release-Shared u (suc n) s = record { count = rw (s.count) refl; idle = λ e. cc }

-- Over any calls that release no more than was taken before, the count is the number of sessions on
-- UDP, and when it is 0 the sockets and the ports of the streamer are 0.
pub run_calls-Shared :
    (sys : System) (cs : List Call) (u : Udp) (n m : ℕ)
    → Shared u n
    → balance cs n ≡ some m
    → Shared (run_calls sys cs u) m
run_calls-Shared sys [] u n m s e = ground arith
run_calls-Shared sys (init ∷ cs) u n m s e =
    run_calls-Shared sys cs _ (suc n) m (init-Shared sys u n s) e
run_calls-Shared sys (release ∷ cs) u (suc n) m s e =
    run_calls-Shared sys cs _ n m (release-Shared u n s) e
run_calls-Shared sys (release ∷ cs) u zero m s e = cc

-- A release that nothing matches, as by a session on TCP, makes the next session on UDP get no
-- sockets: the call reports success, no descriptor is closed, the ports and the sockets stay 0, and
-- the count is 0 again.
pub init-release_unmatched :
    (sys : System) (u : Udp)
    → Shared u 0
    → ((init_udp_transport sys (release_udp_transport u)).1 ≡ true)
      × ((init_udp_transport sys (release_udp_transport u)).0.closed ≡ u.closed)
      × (Shared (init_udp_transport sys (release_udp_transport u)).0 0)
unfolding init_udp_transport release_udp_transport increment decrement
init-release_unmatched sys u s =
    let none_open = s.idle refl in
    rw (s.count) (refl, refl, record { count = refl; idle = λ _. none_open })
