-- ===== src/Transport/Ports.antt =====
-- src/CStreamer.cpp, `InitUdpTransport`: which ports the search takes.
use rtsp_h.Prelude.{
  ℕ, zero, suc, ◌+◌, ◌*◌, ◌<◌, ◌≡◌, refl, ◌∙◌, ap, ◌⊎◌, inl, inr, Bool, true, false, not, ◌&&◌, ltb,
  ◌==◌, ltb→lt, ltb→le, Bool-cases, pos, increment, arith,
}
use rtsp_h.Transport.{
  Udp, System, udpsocketclose, udpsocketcreate, try_port, port_loop, init_udp_transport, is_zero,
}

-- Both ports of the pair can be had.
abbrev pub usable : System → ℕ → Bool
usable sys p =
    (sys.binds p && not (sys.descriptor p == 0))
    && (sys.binds (p + 1) && not (sys.descriptor (p + 1) == 0))

-- What the search leaves from `p` on: the first usable pair, or no usable pair and the old ports.
record Searched (sys : System) (u u' : Udp) (p : ℕ) : Type 0 where
  count : u'.str.udp_ref_count ≡ u.str.udp_ref_count
  result :
      ((j : ℕ) × (p + 2 * j < 0xfffe)
        × (usable sys (p + 2 * j) ≡ true)
        × ((i : ℕ) → i < j → usable sys (p + 2 * i) ≡ false)
        × (u'.str.rtp_server_port ≡ p + 2 * j)
        × (u'.str.rtcp_server_port ≡ p + 2 * j + 1)
        × (u'.str.rtp_socket ≡ sys.descriptor (p + 2 * j))
        × (u'.str.rtcp_socket ≡ sys.descriptor (p + 2 * j + 1)))
      ⊎ (((i : ℕ) → p + 2 * i < 0xfffe → usable sys (p + 2 * i) ≡ false)
          × (u'.str.rtp_server_port ≡ u.str.rtp_server_port)
          × (u'.str.rtcp_server_port ≡ u.str.rtcp_server_port))

module _ (sys : System) where
  try_port-done :
      (u : Udp) (p : ℕ)
      → (try_port sys u p).1 ≡ true
      → (usable sys p ≡ true)
        × ((try_port sys u p).0.str.udp_ref_count ≡ u.str.udp_ref_count)
        × ((try_port sys u p).0.str.rtp_server_port ≡ p)
        × ((try_port sys u p).0.str.rtcp_server_port ≡ p + 1)
        × ((try_port sys u p).0.str.rtp_socket ≡ sys.descriptor p)
        × ((try_port sys u p).0.str.rtcp_socket ≡ sys.descriptor (p + 1))
  unfolding try_port udpsocketcreate udpsocketclose
  try_port-done u p h = ground arith

  try_port-failed :
      (u : Udp) (p : ℕ)
      → (try_port sys u p).1 ≡ false
      → (usable sys p ≡ false)
        × ((try_port sys u p).0.str.udp_ref_count ≡ u.str.udp_ref_count)
        × ((try_port sys u p).0.str.rtp_server_port ≡ u.str.rtp_server_port)
        × ((try_port sys u p).0.str.rtcp_server_port ≡ u.str.rtcp_server_port)
  unfolding try_port udpsocketcreate udpsocketclose
  try_port-failed u p h = ground arith

  -- Earlier candidates, one more of them.
  earlier :
      (p n : ℕ) {b : Bool}
      → usable sys p ≡ b
      → ((i : ℕ) → i < n → usable sys (p + 2 + 2 * i) ≡ b)
      → (i : ℕ) → i < suc n
      → usable sys (p + 2 * i) ≡ b
  earlier p n h rest zero lt = ap (usable sys) (omega arith) ∙ h
  earlier p n h rest (suc i) lt = ap (usable sys) (omega arith) ∙ rest i (omega arith)

  none_before :
      (p : ℕ)
      → usable sys p ≡ false
      → ((i : ℕ) → p + 2 + 2 * i < 0xfffe → usable sys (p + 2 + 2 * i) ≡ false)
      → (i : ℕ) → p + 2 * i < 0xfffe
      → usable sys (p + 2 * i) ≡ false
  none_before p bad rest zero lt = ap (usable sys) (omega arith) ∙ bad
  none_before p bad rest (suc i) lt = ap (usable sys) (omega arith) ∙ rest i (omega arith)

  Searched-next :
      (u u₁ u' : Udp) (p : ℕ)
      → usable sys p ≡ false
      → u₁.str.udp_ref_count ≡ u.str.udp_ref_count
      → u₁.str.rtp_server_port ≡ u.str.rtp_server_port
      → u₁.str.rtcp_server_port ≡ u.str.rtcp_server_port
      → Searched sys u₁ u' (p + 2)
      → Searched sys u u' p
  Searched-next u u₁ u' p bad c r t s = record {
    count = s.count ∙ c;
    result = elim (s.result) [
      | inl (j, below, good, before, rp, tp, rs, ts) ↦
          let e : p + 2 + 2 * j ≡ p + 2 * suc j = omega arith in
          inl (
            suc j,
            omega arith,
            rw (← e) good,
            earlier p j bad before,
            omega arith,
            omega arith,
            rw (← e) rs,
            rw (← e) ts,
          )
      | inr (none_left, rp, tp) ↦ inr (none_before p bad none_left, rp ∙ r, tp ∙ t)
    ];
  }

  port_loop-Searched :
      (k : ℕ) (u : Udp) (p : ℕ) → 0xfffe < p + 2 * k → Searched sys u (port_loop sys k u p) p
  unfolding port_loop
  port_loop-Searched zero u p fuel = record {
    count = refl;
    result = inr ((λ i lt. absurd (omega arith)), refl, refl);
  }
  port_loop-Searched (suc k) u p fuel = elim (Bool-cases (ltb p 0xfffe)) [
    | inr off ↦ rw off (record {
      count = refl;
      result = inr ((λ i lt. absurd (omega (arith, ltb→le _ _ off))), refl, refl);
    })
    | inl on ↦ elim (Bool-cases (try_port sys u p).1) [
      | inl done ↦
          let (good, c, rp, tp, rs, ts) = try_port-done u p done in
          let e : p + 2 * 0 ≡ p = omega arith in
          rw (on, done)
            (record {
              count = c;
              result = inl (
                0,
                omega (arith, ltb→lt _ _ on),
                rw e good,
                (λ i lt. elim lt [ ]),
                rw e rp,
                rw e tp,
                rw e rs,
                rw e ts,
              );
            })
      | inr failed ↦
          let (bad, c, rp, tp) = try_port-failed u p failed in
          rw (on, failed)
            (Searched-next u (try_port sys u p).0 _ p bad c rp tp
              (port_loop-Searched k (try_port sys u p).0 (p + 2) (omega arith)))
    ]
  ]

-- With no session on UDP before: the first pair of an even port from 6970 on and the next one that
-- can both be had below 65534 becomes the server's, with its sockets; where no pair can be had, the
-- ports stay what they were. Either way the count is 1 and the call reports success.
pub init_udp_transport-ports :
    (sys : System) (u : Udp)
    → u.str.udp_ref_count ≡ pos 0
    → ((init_udp_transport sys u).0.str.udp_ref_count ≡ pos 1)
      × ((init_udp_transport sys u).1 ≡ true)
      × (((j : ℕ) × (6970 + 2 * j < 0xfffe)
            × (usable sys (6970 + 2 * j) ≡ true)
            × ((i : ℕ) → i < j → usable sys (6970 + 2 * i) ≡ false)
            × ((init_udp_transport sys u).0.str.rtp_server_port ≡ 6970 + 2 * j)
            × ((init_udp_transport sys u).0.str.rtcp_server_port ≡ 6970 + 2 * j + 1)
            × ((init_udp_transport sys u).0.str.rtp_socket ≡ sys.descriptor (6970 + 2 * j))
            × ((init_udp_transport sys u).0.str.rtcp_socket ≡ sys.descriptor (6970 + 2 * j + 1)))
          ⊎ (((i : ℕ) → 6970 + 2 * i < 0xfffe → usable sys (6970 + 2 * i) ≡ false)
              × ((init_udp_transport sys u).0.str.rtp_server_port ≡ u.str.rtp_server_port)
              × ((init_udp_transport sys u).0.str.rtcp_server_port ≡ u.str.rtcp_server_port)))
unfolding init_udp_transport increment
init_udp_transport-ports sys u zero_count =
    let s = port_loop-Searched sys 29283 u 6970 (omega arith) in
    let first : is_zero u.str.udp_ref_count ≡ true = ap is_zero zero_count in
    rw first (ap increment (s.count ∙ zero_count), refl, s.result)
