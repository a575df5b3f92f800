-- ===== src/RawSocket/Examples.antt =====
-- The raw socket over a small operating system, which counts descriptors and keeps one packet.
use tcp_hw.Base.{ℕ, suc, ◌≤◌, ◌≡◌, ◌⊎◌, refl, true, false, some, Bytes, length, replicate}
use tcp_hw.Process.{exit, returned}
use tcp_hw.RawSocket.{
  Kernel, RawState, failed, ifr_name, ifnamsiz, or_exit, get_netif_index, init_with_raw_socket,
  loopback, eagain, ipproto_ip, ip_hdrincl,
}
use tcp_hw.RawSocket.Name.{c_string, get_netif_index_lem}
use tcp_hw.RawSocket.Setup.{Opened, init_with_raw_socket_lem}

abbrev kernel : Kernel ℕ
kernel = record {
  socket = λ domain type protocol w. (some w, suc w);
  if_index = λ sock name w. (some 1, w);
  bind = λ sock addr w. (true, w);
  set_option = λ sock level name value w. (true, w);
  recvfrom = λ sock size w. (failed eagain, w);
  sendto = λ sock pkt addr w. (some (length pkt), w);
}

abbrev stack : Bytes
stack = replicate 16 170

abbrev unset : RawState
unset = record { send_sock = 0; recv_sock = 0; dest_addr = record { sin_port = 80; s_addr = 7 } }

get_netif_index_example :
    ((length (ifr_name stack loopback) ≡ ifnamsiz)
      × (c_string (ifr_name stack loopback) ≡ loopback)
      × (get_netif_index kernel stack 3 loopback 4
          ≡ or_exit 1 (kernel.if_index 3 (ifr_name stack loopback) 4)))
    ⊎ ((ifnamsiz ≤ length loopback) × (get_netif_index kernel stack 3 loopback 4 ≡ exit 1))
get_netif_index_example =
    get_netif_index_lem kernel stack loopback 3 4 refl ((λ e. cc), ((λ e. cc), tt))

init_with_raw_socket_example :
    ((s' : RawState) × (w' : ℕ) × (init_with_raw_socket kernel stack unset 3 ≡ returned (s', w'))
      × Opened kernel unset 3 s' w')
    ⊎ (init_with_raw_socket kernel stack unset 3 ≡ exit 1)
    ⊎ ((sock : ℕ) × (w4 w5 : ℕ) × (kernel.set_option sock ipproto_ip ip_hdrincl 1 w4 ≡ (false, w5))
        × (init_with_raw_socket kernel stack unset 3 ≡ exit 0))
init_with_raw_socket_example = init_with_raw_socket_lem kernel stack unset 3 refl

-- It returns here.
returns :
    init_with_raw_socket kernel stack unset 3
    ≡ returned (record unset { recv_sock = 3; send_sock = 4 }, 5)
unfolding init_with_raw_socket get_netif_index
returns = refl
