-- ===== src/Network/Opened.antt =====
-- src/Network.cpp, `udpInit`: when it reports success.
use rtsp_h.Prelude.{
  ℕ, ◌≡◌, ◌≢◌, refl, ap, inl, inr, false, true, Option, none, some, [], ◌∷◌, ==_iff, Bool-cases,
  Bytes, ℤ, pos, negsuc, arith,
}
use rtsp_h.Network.{
  UdpContext, Net, to_peer, is_negative, is_count, is_zero_port, with_address, open_udp, check_udp,
  udp_init,
}

-- What a context needs to be opened: an address, a port, a socket, and a probe that goes out.
pub record Opens (net : Net) (udp : UdpContext) : Type 0 where
  pub ip : Bytes
  pub given : udp.dst_ip ≡ some ip
  pub port : udp.dst_port ≢ pos 0
  pub socket : is_negative net.socket ≡ false
  pub probe : net.sendto (to_peer (with_address net udp ip) (0 ∷ [])) ≡ pos 1
  pub after :
      udp_init net (some udp)
      ≡ (some (with_address net udp ip), (pos 0, to_peer (with_address net udp ip) (0 ∷ []) ∷ []))

is_count-pos : (z : ℤ) (n : ℕ) → is_count z n ≡ true → z ≡ pos n
is_count-pos (pos m) n h = ap pos ((==_iff m n).0 h)
is_count-pos (negsuc _) n h = cc h

not_zero : (z : ℤ) → is_zero_port z ≡ false → z ≢ pos 0
not_zero (pos n) h e = ground arith
not_zero (negsuc n) h e = cc e

module _ (net : Net) (udp : UdpContext) (ok : (udp_init net (some udp)).1.0 ≡ pos 0) where
  opened : (ip : Bytes) → udp.dst_ip ≡ some ip → Opens net udp
  unfolding udp_init check_udp open_udp
  opened ip e =
      let r = rw e at ok in
      elim (Bool-cases (is_zero_port udp.dst_port)) [
        | inl zero_port ↦ cc (rw zero_port at r)
        | inr some_port ↦
            let r₁ = rw some_port at r in
            elim (Bool-cases (is_negative net.socket)) [
              | inl failed ↦ cc (rw failed at r₁)
              | inr got ↦
                  let r₂ = rw got at r₁ in
                  elim (Bool-cases
                    (is_count (net.sendto (to_peer (with_address net udp ip) (0 ∷ []))) 1)) [
                      | inl sent ↦ record {
                        ip = ip;
                        given = e;
                        port = not_zero udp.dst_port some_port;
                        socket = got;
                        probe = is_count-pos _ 1 sent;
                        after = rw e (rw some_port (rw got (rw sent refl)));
                      }
                      | inr lost ↦ cc (rw lost at r₂)
                    ]
            ]
      ]

  found : (o : Option Bytes) → udp.dst_ip ≡ o → Opens net udp
  unfolding udp_init check_udp
  found none e = cc (rw e at ok)
  found (some ip) e = opened ip e

  -- If the context is opened with success, then it had an address and a port, a socket was got, and
  -- the one datagram that went out is a byte 0 to the peer, which was sent as a whole.
  pub udp_init-Opens : Opens net udp
  udp_init-Opens = found udp.dst_ip refl
