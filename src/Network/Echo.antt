-- ===== src/Network/Echo.antt =====
-- The network side as a whole: a packet from the backend, taken by the hardware beat by beat and
-- sent back beat by beat, returns to the backend.
use tcp_hw.Base.{
  ℕ, suc, ◌+◌, ◌*◌, ◌≤◌, ◌≡◌, ◌∙◌, refl, ap, arith, some, none, List, [], ◌++◌, Bytes, length, take,
  length-take, le→leb, lt→leb, load16, htons, memcpy, pos→==_false,
}
use tcp_hw.Backend.{DpiTestingLib}
use tcp_hw.Arp.{ethertype_ip}
use tcp_hw.Network.{
  Beat, NetworkSide, beat_bytes, ether_header_size, get_data, send_on_socket, recv_from_socket,
}
use tcp_hw.Network.Packets.{Left}
use tcp_hw.Network.Loopback.{BeatsOf, get_packet, put_packet, get_packet_lem, put_packet_lem}
use native.Mathlib.Nat.{zero-add}

module _ {S : Type 0} (sim_backend : DpiTestingLib S) where
  open sim_backend use {get_buf_fr_io}

  -- The state in which the packet `pkt` has been received.
  abbrev pub loaded : Bytes → ℕ → S → NetworkSide S → NetworkSide S
  loaded pkt len s net = record net {
    backend = s;
    rx_data_if = record { buffer = some (take len pkt); buffer_len = len; buffer_pos = 0 };
  }

  module _ (net : NetworkSide S) (pkt : Bytes) (s : S) (ether_type tot_len : ℕ)
      (idle : net.rx_data_if.buffer_len ≤ net.rx_data_if.buffer_pos)
      (given : get_buf_fr_io net.backend ≡ some (pkt, s)) (typed : load16 pkt 12 ≡ some ether_type)
      (is_ip : htons ether_type ≡ ethertype_ip) (sized : load16 pkt 16 ≡ some tot_len)
      (whole : htons tot_len + ether_header_size ≤ length pkt) where
    pub received :
        recv_from_socket sim_backend net
        ≡ some (
          htons tot_len + ether_header_size,
          loaded pkt (htons tot_len + ether_header_size) s net,
        )
    unfolding recv_from_socket memcpy
    received =
        rw
          (
            given,
            pos→==_false (length pkt) (omega arith),
            typed,
            is_ip,
            sized,
            zero-add,
            le→leb (htons tot_len + ether_header_size) (length pkt) whole,
          )
          refl

    abbrev len : ℕ
    len = htons tot_len + ether_header_size

    -- The first call receives; from then on the calls find the packet in the buffer.
    get_packet-received :
        (stale : ℕ → Bytes) (n : ℕ)
        → get_packet sim_backend stale (suc n) net
          ≡ get_packet sim_backend stale (suc n) (loaded pkt len s net)
    unfolding get_packet get_data
    get_packet-received stale n =
        rw
          (
            le→leb net.rx_data_if.buffer_len net.rx_data_if.buffer_pos idle,
            received,
            pos→==_false len (omega arith),
            lt→leb len 0 (omega arith),
          )
          refl

    -- From an idle state, where the backend gives an IP packet that is at least as long as its
    -- header claims: the hardware gets the bytes that the header claims in beats, the last of them
    -- marked, with no fault, in as many calls as there are beats of 32 bytes, and the network side
    -- is idle again with the buffer freed. Sent back to a network side with nothing in its send
    -- buffer, these beats put exactly those bytes on the backend.
    pub echo_lem :
        (stale : ℕ → Bytes) (n : ℕ) (out : NetworkSide S)
        → ((i : ℕ) → length (stale i) ≡ beat_bytes)
        → len ≤ beat_bytes * suc n
        → out.tx_buffer ≡ []
        → (bs : List Beat) × (net' : NetworkSide S) × (get_packet sim_backend stale (suc n) net
            ≡ some (bs, net'))
          × BeatsOf (take len pkt) bs
          × (net'.rx_data_if.buffer ≡ none)
          × (net'.rx_data_if.buffer_pos ≡ net'.rx_data_if.buffer_len)
          × (net'.backend ≡ s)
          × (put_packet sim_backend bs out
              ≡ send_on_socket sim_backend (record out { tx_buffer = take len pkt }))
    echo_lem stale n out full fuel e =
        let bytes : Bytes = take len pkt in
        let sizes : length bytes ≡ len = omega (arith, length-take len pkt) in
        let left : Left bytes bytes (loaded pkt len s net).rx_data_if = record {
          allocated = refl;
          sized = omega (arith, sizes);
          rest = refl;
          inside = omega arith;
        } in
        let (bs, rx, run, are, gone, done) =
          get_packet_lem sim_backend stale (suc n) (loaded pkt len s net) bytes bytes full left
            (omega (arith, sizes)) (omega (arith, sizes)) in
        (
          bs,
          record (loaded pkt len s net) { rx_data_if = rx },
          get_packet-received stale n ∙ run,
          are,
          gone,
          done,
          refl,
          put_packet_lem sim_backend bytes bs out are
              ∙ ap
                  (λ (t : Bytes).
                    send_on_socket sim_backend (record out { tx_buffer = t ++ bytes }))
                  e,
        )
