-- ===== src/Network/Examples.antt =====
-- The network side with a backend that holds the packets of both directions.
mod Calls
mod Streams
use tcp_hw.Base.{
  ◌≡◌, refl, arith, Option, none, some, List, [], ◌∷◌, ◌++◌, Bytes, length, take, replicate, load8,
  load16, htons,
}
use tcp_hw.Backend.{DpiTestingLib}
use tcp_hw.Network.{Beat, NetworkSide, send_on_socket}
use tcp_hw.Network.Loopback.{BeatsOf, get_packet, put_packet}
use tcp_hw.Network.Echo.{echo_lem}

-- The packets for the hardware, and those that came from it.
abbrev pub Wire : Type 0
Wire = List Bytes × List Bytes

abbrev take_front : Wire → Option (Bytes × Wire)
take_front ([], back) = some ([], ([], back))
take_front (p ∷ ps, back) = some (p, (ps, back))

abbrev pub wire : DpiTestingLib Wire
wire = record {
  get_buf_fr_io = take_front;
  put_buf_on_io = λ p w. some (length p, (w.0, w.1 ++ (p ∷ [])));
}

-- An IP packet of 26 bytes in a frame of 46, of which 6 are padding.
abbrev pub packet : Bytes
packet = replicate 12 3 ++ (8 ∷ 0 ∷ 0x45 ∷ 0 ∷ 0 ∷ 26 ∷ replicate 28 7)

abbrev pub side : Wire → Bytes → NetworkSide Wire
side w tx = record {
  backend = w;
  instance_state = record {
    s_addr = 192 ∷ 0 ∷ 0 ∷ 2 ∷ [];
    sin_port = 1234;
    source_mac_addr = 0x24 ∷ 0xbe ∷ 0x05 ∷ 0xbf ∷ 0x5b ∷ 0x91 ∷ [];
    dest_mac_addr = [];
    has_syn_acked = 0;
  };
  rx_data_if = record { buffer = none; buffer_len = 0; buffer_pos = 0 };
  tx_buffer = tx;
}

echo_example :
    (bs : List Beat) × (net' : NetworkSide Wire) × (get_packet wire
        (λ n. replicate 32 0)
        2
        (side (packet ∷ [], []) [])
      ≡ some (bs, net'))
    × BeatsOf (take 40 packet) bs
    × (net'.rx_data_if.buffer ≡ none)
    × (net'.rx_data_if.buffer_pos ≡ net'.rx_data_if.buffer_len)
    × (net'.backend ≡ ([], []))
    × (put_packet wire bs (side ([], []) []) ≡ send_on_socket wire (side ([], []) (take 40 packet)))
unfolding load16 load8 htons
echo_example =
    echo_lem wire (side (packet ∷ [], []) []) packet ([], []) 8 0x1a00 (omega arith) refl refl refl
      refl (omega arith) (λ n. replicate 32 0) 1 (side ([], []) []) (λ i. refl) (omega arith) refl
