-- ===== src/Network.antt =====
-- sim_dpi/sim_network_side_queue.cpp: packets of the backend go to the hardware in beats of
-- MAC_INTERFACE_W bits (`get_data`), and beats from the hardware are joined to packets
-- (`put_data`).
pub mod Packets
pub mod Memory
pub mod Loopback
pub mod Echo
pub mod Ready
pub mod Reach
pub mod Branches
pub mod Lift
pub mod Stream
pub mod Send
mod Examples
use tcp_hw.Base.{
  ℕ, zero, suc, ◌+◌, Bool, true, false, Option, none, some, List, [], ◌∷◌, ◌++◌, Bytes, length,
  take, set, replicate, ltb, leb, ◌==◌, if◌then◌else◌, ◌>>=◌, ◌>>◌, require, load8, load16, htons,
  memcpy, drop,
}
use tcp_hw.Backend.{DpiTestingLib}
use tcp_hw.Arp.{SockState, handle_arp, ethertype_arp, ethertype_ip}

-- `MAC_INTERFACE_W >> 3`, for the MAC_INTERFACE_W of sim_dpi/testing_utils.h.
abbrev pub beat_bytes : ℕ
beat_bytes = 32

-- `sizeof(ether_header)`
abbrev pub ether_header_size : ℕ
ether_header_size = 14

-- What `drive_rx_if` is given: the bytes of the bit vector in memory order, the lowest first. The
-- first byte of the packet stands last.
pub record Beat : Type 0 where
  pub val : Bool
  pub bytes : Bytes
  pub last : Bool
  pub padbytes : ℕ

-- `rx_data_if`; `none` is a buffer that is not allocated.
pub record RxDataInterface : Type 0 where
  pub buffer : Option Bytes
  pub buffer_len : ℕ
  pub buffer_pos : ℕ

-- A read of the buffer: a fault if it is not allocated, or at an index out of range.
unfoldable pub read_buffer : Option Bytes → ℕ → Option ℕ
read_buffer none pos = none
read_buffer (some bs) pos = load8 bs pos

-- The first loop: `slots` is `i + 1`. The vector, the position and `i + 1` where it ends.
unfoldable pub copy_loop : ℕ → Bytes → RxDataInterface → Option (Bytes × RxDataInterface × ℕ)
copy_loop zero vector rx = some (vector, rx, 0)
copy_loop (suc i) vector rx =
    let more = (do
      b ← read_buffer rx.buffer rx.buffer_pos
      copy_loop i (set vector i b) (record rx { buffer_pos = rx.buffer_pos + 1 })) in
    if ltb rx.buffer_pos rx.buffer_len then more else some (vector, rx, suc i)

-- The second loop writes zeros below.
unfoldable pub pad_loop : ℕ → Bytes → Bytes
pad_loop zero vector = vector
pad_loop (suc i) vector = pad_loop i (set vector i 0)

-- A beat of the packet in the buffer, which is freed behind its last byte. `vector` is what the
-- uninitialised vector holds.
unfoldable pub next_beat : Bytes → RxDataInterface → Option (Beat × RxDataInterface)
next_beat vector rx = do
  (filled, rx', padbytes) ← copy_loop beat_bytes vector rx
  let last = rx'.buffer_pos == rx'.buffer_len
  let beat : Beat = record {
    val = true;
    bytes = pad_loop padbytes filled;
    last = last;
    padbytes = padbytes;
  }
  if leb rx'.buffer_len rx'.buffer_pos
      then some (beat, record rx' { buffer = none })
      else some (beat, rx')

-- The globals of the file. `tx_data_if.buffer_len` and `buffer_pos` are never used.
pub record NetworkSide (S : Type 0) : Type 0 where
  pub backend : S
  pub instance_state : SockState
  pub rx_data_if : RxDataInterface
  pub tx_buffer : Bytes

-- The beat that says that there is no data.
abbrev pub no_beat : Beat
no_beat = record { val = false; bytes = replicate beat_bytes 0; last = false; padbytes = 0 }

-- The second loop of `put_data`: `slots` is `i + 1`, and `pad` is `dpi_padbytes`.
unfoldable pub push_loop : ℕ → ℕ → Bytes → Bytes → Option Bytes
push_loop zero pad vector out = some out
push_loop (suc i) pad vector out =
    let more = (do b ← load8 vector i; push_loop i pad vector (out ++ (b ∷ []))) in
    if leb pad i then more else some out

module _ {S : Type 0} (sim_backend : DpiTestingLib S) where
  open sim_backend use {get_buf_fr_io, put_buf_on_io}

  -- The status and the globals. The `memcpy` takes as many bytes as the IP header claims.
  unfoldable pub recv_from_socket : NetworkSide S → Option (ℕ × NetworkSide S)
  recv_from_socket net = do
    (pkt_buf, s) ← get_buf_fr_io net.backend
    let packet = (do
      ether_type ← load16 pkt_buf 12
      let arp = (do
        (s', state) ← handle_arp sim_backend s net.instance_state (drop ether_header_size pkt_buf)
        some (0, record net { backend = s'; instance_state = state }))
      let ip = (do
        tot_len ← load16 pkt_buf (ether_header_size + 2)
        buffer ← memcpy pkt_buf 0 (htons tot_len + ether_header_size)
        some (
          htons tot_len + ether_header_size,
          record net {
            backend = s;
            rx_data_if = record {
              buffer = some buffer;
              buffer_len = htons tot_len + ether_header_size;
              buffer_pos = 0;
            };
          },
        ))
      if htons ether_type == ethertype_arp
          then arp
          else if htons ether_type == ethertype_ip
          then ip
          else some (0, record net { backend = s }))
    if length pkt_buf == 0 then some (0, record net { backend = s }) else packet

  -- The beat that is driven, and the globals.
  unfoldable pub get_data : Bytes → NetworkSide S → Option (Beat × NetworkSide S)
  get_data vector net =
      let next = λ (n : NetworkSide S). (do
        (beat, rx) ← next_beat vector n.rx_data_if
        some (beat, record n { rx_data_if = rx })) in
      let receive = (do
        (status, net') ← recv_from_socket net
        if status == 0 then some (no_beat, net') else next net') in
      if leb net.rx_data_if.buffer_len net.rx_data_if.buffer_pos then receive else next net

  unfoldable pub send_on_socket : NetworkSide S → Option (NetworkSide S)
  send_on_socket net = do
    (bytes, s) ← put_buf_on_io net.tx_buffer net.backend
    some (record net { backend = s; tx_buffer = [] })

  unfoldable pub put_data : Bytes → Bool → ℕ → NetworkSide S → Option (NetworkSide S)
  put_data dpi_vector last padbytes net = do
    let dpi_padbytes = if last then padbytes else 0
    buffer ← push_loop beat_bytes dpi_padbytes dpi_vector net.tx_buffer
    let pushed : NetworkSide S = record net { tx_buffer = buffer }
    if last then send_on_socket pushed else some pushed

-- `init_network_side_state` up to the choice of the backend, whose state is `backend`: the address
-- 192.0.0.2, the hardware address, and an empty receive interface. `stale` holds what is not set.
unfoldable pub init_network_side_state :
    {S : Type 0} → S → SockState → NetworkSide S → NetworkSide S
init_network_side_state backend stale net = record net {
  backend = backend;
  instance_state = record stale {
    s_addr = 192 ∷ 0 ∷ 0 ∷ 2 ∷ [];
    sin_port = 1234;
    source_mac_addr = 0x24 ∷ 0xbe ∷ 0x05 ∷ 0xbf ∷ 0x5b ∷ 0x91 ∷ [];
    has_syn_acked = 0;
  };
  rx_data_if = record net.rx_data_if { buffer_len = 0; buffer_pos = 0 };
}
