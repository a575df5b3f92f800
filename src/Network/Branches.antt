-- ===== src/Network/Branches.antt =====
-- What the network side does with the packets that are not for the hardware, and with IP packets
-- that claim more bytes than they have.
use tcp_hw.Base.{
  ne→==_false, ℕ, ◌+◌, ◌≤◌, ◌<◌, ◌≡◌, ◌≢◌, ◌⊎◌, inl, inr, refl, some, none, [], Bytes, length, drop,
  le→leb, lt→leb, pos→==_false, ◌>>=◌, load16, htons, memcpy, Option-cases,
}
use tcp_hw.Backend.{DpiTestingLib}
use tcp_hw.Arp.{ethertype_arp, ethertype_ip, handle_arp}
use tcp_hw.Arp.Reply.{Asks, Replies, answer_lem}
use tcp_hw.Network.{NetworkSide, ether_header_size, no_beat, get_data, recv_from_socket}
use native.Mathlib.Nat.{zero-add}

module _ {S : Type 0} (sim_backend : DpiTestingLib S) (net : NetworkSide S) (pkt : Bytes) (s : S)
    (idle : net.rx_data_if.buffer_len ≤ net.rx_data_if.buffer_pos)
    (given : sim_backend.get_buf_fr_io net.backend ≡ some (pkt, s)) where
  open sim_backend use {put_buf_on_io}

  -- Where nothing is left to drive and the backend gives no packet, or one that is neither ARP nor
  -- IP, the hardware gets a beat that is not valid, the packet is dropped, and nothing but the
  -- backend changes.
  pub get_data_ignores :
      (v : Bytes)
      → (pkt ≡ [])
        ⊎ ((ether_type : ℕ) × (load16 pkt 12 ≡ some ether_type)
            × (0 < length pkt)
            × (htons ether_type ≢ ethertype_arp)
            × (htons ether_type ≢ ethertype_ip))
      → get_data sim_backend v net ≡ some (no_beat, record net { backend = s })
  unfolding get_data recv_from_socket
  get_data_ignores v (inl e) =
      rw (le→leb net.rx_data_if.buffer_len net.rx_data_if.buffer_pos idle, given, e) refl
  get_data_ignores v (inr (ether_type, typed, pos, not_arp, not_ip)) =
      rw
        (
          le→leb net.rx_data_if.buffer_len net.rx_data_if.buffer_pos idle,
          given,
          pos→==_false (length pkt) pos,
          typed,
          ne→==_false (htons ether_type) ethertype_arp not_arp,
          ne→==_false (htons ether_type) ethertype_ip not_ip,
        )
        refl

  module _ (ether_type : ℕ) (typed : load16 pkt 12 ≡ some ether_type) (pos : 0 < length pkt) where
    -- An IP packet whose header claims more bytes than the backend gave is copied past its end:
    -- there is no defined behaviour.
    pub get_data_overruns :
        (v : Bytes) (tot_len : ℕ)
        → htons ether_type ≡ ethertype_ip
        → load16 pkt 16 ≡ some tot_len
        → length pkt < htons tot_len + ether_header_size
        → get_data sim_backend v net ≡ none
    unfolding get_data recv_from_socket memcpy
    get_data_overruns v tot_len is_ip sized short =
        rw
          (
            le→leb net.rx_data_if.buffer_len net.rx_data_if.buffer_pos idle,
            given,
            pos→==_false (length pkt) pos,
            typed,
            is_ip,
            sized,
            zero-add,
            lt→leb (htons tot_len + ether_header_size) (length pkt) short,
          )
          refl

    -- An ARP packet of at least 28 bytes gives the hardware a beat that is not valid. If it asks
    -- for the address of the network side, its answer is put on the backend, and the requester's
    -- hardware address is kept; if not, nothing but the backend changes.
    pub get_data-arp :
        (v : Bytes)
        → htons ether_type ≡ ethertype_arp
        → 28 ≤ length (drop ether_header_size pkt)
        → length net.instance_state.source_mac_addr ≡ 6
        → length net.instance_state.s_addr ≡ 4
        → ((sha : Bytes) × (spa : Bytes) × (reply : Bytes) × Asks net.instance_state
              (drop ether_header_size pkt)
            × Replies net.instance_state sha spa reply
            × (get_data sim_backend v net ≡ (
                put_buf_on_io reply s >>= λ (r : ℕ × S). some (
                  no_beat,
                  record net {
                    backend = r.1;
                    instance_state = record net.instance_state { dest_mac_addr = sha };
                  },
                ))))
          ⊎ ((get_data sim_backend v net ≡ some (no_beat, record net { backend = s }))
              × ¬ Asks net.instance_state (drop ether_header_size pkt))
    unfolding get_data recv_from_socket handle_arp
    get_data-arp v is_arp long hm ha =
        let stopped = le→leb net.rx_data_if.buffer_len net.rx_data_if.buffer_pos idle in
        let some_left = pos→==_false (length pkt) pos in
        elim (answer_lem net.instance_state (drop ether_header_size pkt) long hm ha) [
          | inl (sha, spa, reply, asks, _, _, run, replies) ↦ inl (
            sha,
            spa,
            reply,
            asks,
            replies,
            elim (Option-cases (put_buf_on_io reply s)) [
              | inl e ↦ rw (stopped, given, some_left, typed, is_arp, run, e) refl
              | inr (r, e) ↦ rw (stopped, given, some_left, typed, is_arp, run, e) refl
            ],
          )
          | inr (run, not) ↦ inr (rw (stopped, given, some_left, typed, is_arp, run) refl, not)
        ]
