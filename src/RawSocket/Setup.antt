-- ===== src/RawSocket/Setup.antt =====
-- What holds when `init_with_raw_socket` returns.
use tcp_hw.Base.{
  ℕ, ◌≡◌, ◌⊎◌, inl, inr, refl, arith, Bool, true, false, Option, some, none, Bytes, length, htons,
}
use tcp_hw.Process.{exit, returned}
use tcp_hw.RawSocket.{
  Kernel, RawState, ifr_name, ifnamsiz, or_exit, done_or_exit, get_netif_index,
  init_with_raw_socket, loopback, af_packet, af_inet, sock_dgram, sock_raw, eth_p_ip, ipproto_ip,
  ipproto_raw, ip_hdrincl,
}
use tcp_hw.RawSocket.Name.{c_string, get_netif_index_lem}

or_exit-cases :
    {A W : Type 0} (code : ℕ) (r : Option A × W)
    → (or_exit code r ≡ exit code) ⊎ ((a : A) × (w : W) × (r ≡ (some a, w)))
or_exit-cases code (none, w) = inl refl
or_exit-cases code (some a, w) = inr (a, w, refl)

done_or_exit-cases :
    {W : Type 0} (code : ℕ) (r : Bool × W)
    → ((w : W) × (done_or_exit code r ≡ exit code) × (r ≡ (false, w))) ⊎ ((w : W) × (r ≡ (true, w)))
done_or_exit-cases code (false, w) = inl (w, refl, refl)
done_or_exit-cases code (true, w) = inr (w, refl)

-- "lo" is short enough, so the kernel is asked for it.
loopback_index :
    {W : Type 0} (kernel : Kernel W) (stale : Bytes) (sock : ℕ) (w : W)
    → length stale ≡ ifnamsiz
    → (c_string (ifr_name stale loopback) ≡ loopback)
      × (get_netif_index kernel stale sock loopback w
          ≡ or_exit 1 (kernel.if_index sock (ifr_name stale loopback) w))
loopback_index kernel stale sock w full =
    elim (get_netif_index_lem kernel stale loopback sock w full ((λ e. cc), ((λ e. cc), tt))) [
      | inl (_, name, asked) ↦ (name, asked)
      | inr (long, _) ↦ absurd (omega (arith, long))
    ]

-- The calls that were made, in this order, and all succeeded.
pub record Opened {W : Type 0} (kernel : Kernel W) (s : RawState) (w : W) (s' : RawState) (w' : W)
    : Type 0 where
  pub name : Bytes
  pub ifindex : ℕ
  pub w1 : W
  pub w2 : W
  pub w3 : W
  pub w4 : W
  pub recv_opened : kernel.socket af_packet sock_dgram (htons eth_p_ip) w ≡ (some s'.recv_sock, w1)
  pub is_loopback : c_string name ≡ loopback
  pub indexed : kernel.if_index s'.recv_sock name w1 ≡ (some ifindex, w2)
  pub bound :
      kernel.bind s'.recv_sock
        (record { sll_family = af_packet; sll_ifindex = ifindex; sll_protocol = htons eth_p_ip })
        w2
      ≡ (true, w3)
  pub send_opened : kernel.socket af_inet sock_raw ipproto_raw w3 ≡ (some s'.send_sock, w4)
  pub headers_included : kernel.set_option s'.send_sock ipproto_ip ip_hdrincl 1 w4 ≡ (true, w')
  pub dest_kept : s'.dest_addr ≡ s.dest_addr

-- `init_with_raw_socket` never returns unless it has opened a socket that receives IP packets,
-- found the interface "lo" and bound the socket to it, opened a socket for sending, and set it to
-- take packets with their headers, in this order; the state then holds the two sockets and still
-- the destination. Otherwise the process exits: with 1, or, where only the last of these calls
-- failed, with 0.
pub init_with_raw_socket_lem :
    {W : Type 0} (kernel : Kernel W) (stale : Bytes) (s : RawState) (w : W)
    → length stale ≡ ifnamsiz
    → ((s' : RawState) × (w' : W) × (init_with_raw_socket kernel stale s w ≡ returned (s', w'))
        × Opened kernel s w s' w')
      ⊎ (init_with_raw_socket kernel stale s w ≡ exit 1)
      ⊎ ((sock : ℕ) × (w4 w5 : W) × (kernel.set_option sock ipproto_ip ip_hdrincl 1 w4
            ≡ (false, w5))
          × (init_with_raw_socket kernel stale s w ≡ exit 0))
unfolding init_with_raw_socket
init_with_raw_socket_lem kernel stale s w full =
    let lo : Bytes = ifr_name stale loopback in
    elim (or_exit-cases 1 (kernel.socket af_packet sock_dgram (htons eth_p_ip) w)) [
      | inl e ↦ inr (inl (rw e refl))
      | inr (recv_sock, w1, e1) ↦
          let (name, asked) = loopback_index kernel stale recv_sock w1 full in
          elim (or_exit-cases 1 (kernel.if_index recv_sock lo w1)) [
            | inl e ↦ inr (inl (rw (e1, asked, e) refl))
            | inr (i, w2, e2) ↦
                elim (done_or_exit-cases 1 (
                  kernel.bind recv_sock
                    (record {
                      sll_family = af_packet;
                      sll_ifindex = i;
                      sll_protocol = htons eth_p_ip;
                    })
                    w2)) [
                      | inl (_, e, _) ↦ inr (inl (rw (e1, asked, e2, e) refl))
                      | inr (w3, e3) ↦
                          elim (or_exit-cases 1 (kernel.socket af_inet sock_raw ipproto_raw w3)) [
                            | inl e ↦ inr (inl (rw (e1, asked, e2, e3, e) refl))
                            | inr (send_sock, w4, e4) ↦
                                elim (done_or_exit-cases 0
                                  (kernel.set_option send_sock ipproto_ip ip_hdrincl 1 w4)) [
                                    | inl (w5, e, bad) ↦ inr (
                                        inr (
                                          send_sock,
                                          w4,
                                          w5,
                                          bad,
                                          rw (e1, asked, e2, e3, e4, e) refl,
                                        ))
                                    | inr (w5, e5) ↦ inl (
                                      record s { recv_sock = recv_sock; send_sock = send_sock },
                                      w5,
                                      rw (e1, asked, e2, e3, e4, e5) refl,
                                      record {
                                        name = lo;
                                        ifindex = i;
                                        w1 = w1;
                                        w2 = w2;
                                        w3 = w3;
                                        w4 = w4;
                                        recv_opened = e1;
                                        is_loopback = name;
                                        indexed = e2;
                                        bound = e3;
                                        send_opened = e4;
                                        headers_included = e5;
                                        dest_kept = refl;
                                      },
                                    )
                                  ]
                          ]
                    ]
          ]
    ]
