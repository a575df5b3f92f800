-- ===== src/RawSocket.antt =====
-- sim_dpi/raw_testing_lib.cpp: packets over a raw socket of the host. The operating system is a
-- parameter: each call of it is a function on its state. Messages of `perror` are left out.
pub mod Name
pub mod Setup
mod Examples
use tcp_hw.Base.{
  ℕ, ◌+◌, Bool, true, false, Option, none, some, List, [], ◌∷◌, ◌++◌, Bytes, length, drop, ltb,
  ◌==◌, ◌||◌, if◌then◌else◌, htons,
}
use tcp_hw.Process.{Exits, exit, returned, ◌>>=◌}
use tcp_hw.Headers.{SockAddr}

-- The fields of `struct sockaddr_ll` that are set; the others are zero.
pub record LinkAddr : Type 0 where
  pub sll_family : ℕ
  pub sll_ifindex : ℕ
  pub sll_protocol : ℕ

-- `recvfrom`: the bytes stored, or `errno`.
pub data Received : Type 0 where
  received : Bytes → Received
  failed : ℕ → Received

-- The calls of the operating system with states `W`. `none` and `false` stand for a negative
-- result.
pub record Kernel (W : Type 0) : Type 0 where
  pub socket : ℕ → ℕ → ℕ → W → Option ℕ × W
  pub if_index : ℕ → Bytes → W → Option ℕ × W
  pub bind : ℕ → LinkAddr → W → Bool × W
  pub set_option : ℕ → ℕ → ℕ → ℕ → W → Bool × W
  pub recvfrom : ℕ → ℕ → W → Received × W
  pub sendto : ℕ → Bytes → SockAddr → W → Option ℕ × W

-- Constants of the host's headers.
abbrev pub af_inet : ℕ
af_inet = 2

abbrev pub af_packet : ℕ
af_packet = 17

abbrev pub sock_dgram : ℕ
sock_dgram = 2

abbrev pub sock_raw : ℕ
sock_raw = 3

abbrev pub eth_p_ip : ℕ
eth_p_ip = 0x0800

abbrev pub ipproto_ip : ℕ
ipproto_ip = 0

abbrev pub ipproto_raw : ℕ
ipproto_raw = 255

abbrev pub ip_hdrincl : ℕ
ip_hdrincl = 3

abbrev pub eagain : ℕ
eagain = 11

-- The size of `ifr_name`.
abbrev pub ifnamsiz : ℕ
ifnamsiz = 16

-- The bytes of "lo".
abbrev pub loopback : Bytes
loopback = 108 ∷ 111 ∷ []

-- The fields of `sock_state` that are set or used here.
pub record RawState : Type 0 where
  pub send_sock : ℕ
  pub recv_sock : ℕ
  pub dest_addr : SockAddr

-- `ifr_name` of a struct on the stack, which held `stale`, once the name and a zero are stored.
unfoldable pub ifr_name : Bytes → Bytes → Bytes
ifr_name stale if_name = if_name ++ (0 ∷ drop (length if_name + 1) stale)

-- A result without which the process ends.
abbrev or_exit {ℓ κ} : {A : Type ℓ} {W : Type κ} → ℕ → Option A × W → Exits (A × W)
or_exit code (none, w) = exit code
or_exit code (some a, w) = returned (a, w)

abbrev done_or_exit {ℓ} : {W : Type ℓ} → ℕ → Bool × W → Exits W
done_or_exit code (false, w) = exit code
done_or_exit code (true, w) = returned w

-- What `recvfrom` means for the caller: nothing there counts as an empty packet.
abbrev packet_or_exit {ℓ} : {W : Type ℓ} → Received × W → Exits (Bytes × W)
packet_or_exit (received pkt, w) = returned (pkt, w)
packet_or_exit (failed errno, w) = if errno == eagain then returned ([], w) else exit 1

module _ {W : Type 0} (kernel : Kernel W) where
  open kernel use {socket, if_index, bind, set_option, recvfrom, sendto}

  unfoldable pub get_netif_index : Bytes → ℕ → Bytes → W → Exits (ℕ × W)
  get_netif_index stale sock if_name w =
      if ltb (length if_name) ifnamsiz
      then or_exit 1 (if_index sock (ifr_name stale if_name) w)
      else exit 1

  unfoldable pub init_with_raw_socket : Bytes → RawState → W → Exits (RawState × W)
  init_with_raw_socket stale s w = do
    (recv_sock, w1) ← or_exit 1 (socket af_packet sock_dgram (htons eth_p_ip) w)
    (ifindex, w2) ← get_netif_index stale recv_sock loopback w1
    w3 ← done_or_exit 1 (
        bind recv_sock
          (record { sll_family = af_packet; sll_ifindex = ifindex; sll_protocol = htons eth_p_ip })
          w2)
    (send_sock, w4) ← or_exit 1 (socket af_inet sock_raw ipproto_raw w3)
    w5 ← done_or_exit 0 (set_option send_sock ipproto_ip ip_hdrincl 1 w4)
    returned (record s { recv_sock = recv_sock; send_sock = send_sock }, w5)

  -- The bytes that are stored in the buffer, whose number is returned. EWOULDBLOCK is EAGAIN.
  unfoldable pub get_buffer_from_raw_socket : RawState → W → Exits (Bytes × W)
  get_buffer_from_raw_socket s w = packet_or_exit (recvfrom s.recv_sock 65536 w)

  unfoldable pub put_buffer_to_raw_socket : RawState → Bytes → W → Exits (ℕ × W)
  put_buffer_to_raw_socket s buffer w = or_exit 0 (sendto s.send_sock buffer s.dest_addr w)
