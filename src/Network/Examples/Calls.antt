-- ===== src/Network/Examples/Calls.antt =====
-- Single calls on the network side: packets that are dropped, that are too short, and ARP requests.
use tcp_hw.Base.{
  ℕ, ◌≤◌, ◌≡◌, ◌⊎◌, refl, arith, none, some, [], ◌∷◌, ◌++◌, Bytes, take, drop, replicate, load8,
  load16, htons, ◌>>=◌,
}
use tcp_hw.Arp.{SockState}
use tcp_hw.Arp.Reply.{Asks, Replies}
use tcp_hw.Network.{Beat, NetworkSide, no_beat, get_data, recv_from_socket, init_network_side_state}
use tcp_hw.Network.Ready.{Ready, IsBeat}
use tcp_hw.Network.Reach.{start, get_data_safe}
use tcp_hw.Network.Branches.{get_data_overruns, get_data-arp}
use tcp_hw.Network.Examples.{Wire, wire, packet, side}

abbrev vector : Bytes
vector = replicate 32 0

abbrev stale_state : SockState
stale_state = (side ([], []) []).instance_state

abbrev started : NetworkSide Wire
started = init_network_side_state (packet ∷ [], []) stale_state (side ([], []) [])

get_data_safe_example :
    ((beat : Beat) × (net' : NetworkSide Wire) × (get_data wire vector started ≡ some (beat, net'))
      × IsBeat beat
      × Ready net'.rx_data_if)
    ⊎ ((get_data wire vector started ≡ none)
        × (started.rx_data_if.buffer_len ≤ started.rx_data_if.buffer_pos)
        × (recv_from_socket wire started ≡ none))
get_data_safe_example =
    get_data_safe wire vector started refl (start (packet ∷ [], []) stale_state (side ([], []) []))

-- The header claims 26 bytes, of which 16 are there.
get_data_overruns_example : get_data wire vector (side (take 30 packet ∷ [], []) []) ≡ none
unfolding load16 load8 htons
get_data_overruns_example =
    get_data_overruns wire (side (take 30 packet ∷ [], []) []) (take 30 packet) ([], [])
      (omega arith) refl 8 refl (omega arith) vector 0x1a00 refl refl (omega arith)

abbrev request : Bytes
request =
    replicate 12 255
    ++ (8
          ∷ 6
          ∷ 0
          ∷ 1
          ∷ 8
          ∷ 0
          ∷ 6
          ∷ 4
          ∷ 0
          ∷ 1
          ∷ 2
          ∷ 0
          ∷ 0
          ∷ 0
          ∷ 0
          ∷ 1
          ∷ 192
          ∷ 0
          ∷ 0
          ∷ 1
          ∷ replicate 6 0
        ++ (192 ∷ 0 ∷ 0 ∷ 2 ∷ []))

get_data-arp_example :
    ((sha : Bytes) × (spa : Bytes) × (reply : Bytes) × Asks stale_state (drop 14 request)
      × Replies stale_state sha spa reply
      × (get_data wire vector (side (request ∷ [], []) []) ≡ (
          wire.put_buf_on_io reply ([], []) >>= λ (r : ℕ × Wire). some (
            no_beat,
            record (side (request ∷ [], []) []) {
              backend = r.1;
              instance_state = record stale_state { dest_mac_addr = sha };
            },
          ))))
    ⊎ ((get_data wire vector (side (request ∷ [], []) []) ≡ some (no_beat, side ([], []) []))
        × ¬ Asks stale_state (drop 14 request))
unfolding load16 load8 htons
get_data-arp_example =
    get_data-arp wire (side (request ∷ [], []) []) request ([], []) (omega arith) refl 0x608 refl
      (omega arith) vector refl (omega arith) refl refl
