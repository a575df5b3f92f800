-- ===== src/Network/Examples/Streams.antt =====
-- Two packets of a backend in one stream of beats.
use tcp_hw.Base.{
  ℕ, ◌≤◌, ◌≡◌, refl, arith, some, List, [], ◌∷◌, map, replicate, load8, load16, htons,
}
use tcp_hw.Backend.{Yields, gives, rests}
use tcp_hw.Network.{RxDataInterface, Beat}
use tcp_hw.Network.Lift.{calls}
use tcp_hw.Network.Stream.{Stream, IsIp, claimed, gets, stream_lem}
use tcp_hw.Network.Examples.{wire, packet, side}

-- The third call of the backend returns nothing.
packets-Yields : Yields wire (packet ∷ packet ∷ [], []) (packet ∷ packet ∷ []) ([], [])
packets-Yields = gives refl (gives refl (gives refl rests))

packet-IsIp : IsIp packet
unfolding load16 load8 htons
packet-IsIp = (8, 0x1a00, refl, refl, refl, omega arith)

two_packets_example :
    (m : ℕ) × (bs : List Beat) × (rx : RxDataInterface) × (calls wire
        (gets (λ i. replicate 32 0) 0 m)
        (side (packet ∷ packet ∷ [], []) [])
      ≡ some (bs, record (side ([], []) []) { rx_data_if = rx }))
    × Stream bs (map claimed (packet ∷ packet ∷ []))
    × (rx.buffer_len ≤ rx.buffer_pos)
two_packets_example =
    stream_lem wire (λ i. replicate 32 0) 0 (side (packet ∷ packet ∷ [], []) [])
      (packet ∷ packet ∷ []) ([], []) refl packets-Yields (λ j. refl) (omega arith)
      (packet-IsIp, (packet-IsIp, tt))
