-- ===== src/Print/Wire.antt =====
-- `print_wire_header` on a packet whose headers `fill_ip_header` and `fill_tcp_header` made.
use tcp_hw.Base.{
  ℕ, ◌+◌, ◌*◌, ◌/◌, ◌%◌, ◌^◌, ◌≤◌, ◌≡◌, ◌∙◌, refl, arith, some, List, [], ◌∷◌, ◌++◌, Bytes, length,
  drop, bytes16, bytes32, htons, htonl, u16, u32, word16, word32, load8, load16, load32, memcpy,
  ◌==◌, if◌then◌else◌, memcpy-some, Bool-cases, inl, inr,
}
use tcp_hw.Arp.Reply.{six}
use tcp_hw.Headers.{SockAddr, fill_ip_header, fill_tcp_header, filled_ip, filled_tcp}
use tcp_hw.Headers.Fill.{fill_ip_form}
use tcp_hw.Headers.FillTcp.{fill_tcp_form, checksum_of}
use tcp_hw.Print.{
  Line, number, text, packet_size, source_mac, dest_mac, source_address, destination_address,
  identification, protocol, tcp_header_size, source_port, dest_port, syn, ack, ack_num,
  print_wire_header,
}

read16 : (x : ℕ) → htons (word16 (htons x % 256) (htons x / 256 % 256)) ≡ u16 x
unfolding htons
read16 x = omega arith

read32 :
    (x : ℕ)
    → htonl (
        word32
          (htonl x % 256)
          (htonl x / 256 % 256)
          (htonl x / 65536 % 256)
          (htonl x / 2 ^ 24 % 256))
      ≡ u32 x
unfolding htonl
read32 x = omega arith

kept32 : (x : ℕ) → word32 (x % 256) (x / 256 % 256) (x / 65536 % 256) (x / 2 ^ 24 % 256) ≡ u32 x
kept32 x = omega arith

flag_syn : (s a : ℕ) → (s % 2 * 2 + a % 2 * 16) / 2 % 2 ≡ s % 2
flag_syn s a = omega arith

flag_ack : (s a : ℕ) → (s % 2 * 2 + a % 2 * 16) / 16 % 2 ≡ a % 2
flag_ack s a = omega arith

identified : htons (word16 (u16 (htonl 54321) % 256) (u16 (htonl 54321) / 256 % 256)) ≡ 0
unfolding htons htonl
identified = refl

-- The lines for these values.
abbrev pub lines :
    (ℕ → Bytes) → (Bytes → Bytes) → Bytes → Bytes → SockAddr → SockAddr → ℕ → ℕ → ℕ → ℕ → List Line
lines inet_ntoa ether_ntoa dhost shost source dest payload_len number_acked synced acked =
    number packet_size (u16 (40 + payload_len))
    ∷ text source_mac (ether_ntoa shost)
    ∷ text dest_mac (ether_ntoa dhost)
    ∷ text source_address (inet_ntoa (u32 source.s_addr))
    ∷ text destination_address (inet_ntoa (u32 dest.s_addr))
    ∷ number identification 0
    ∷ number protocol 6
    ∷ number tcp_header_size 20
    ∷ number source_port (u16 source.sin_port)
    ∷ number dest_port (u16 dest.sin_port)
    ∷ number syn (synced % 2)
    ∷ number ack (acked % 2)
    ∷ (if acked % 2 == 0 then [] else number ack_num (u32 number_acked) ∷ [])

-- What is printed, for the values that are loaded.
loaded :
    (inet_ntoa : ℕ → Bytes) (ether_ntoa : Bytes → Bytes) (packet shost dhost : Bytes)
    (saddr from daddr to tot_len id proto doff flags ack_seq : ℕ)
    → load8 packet 14 ≡ some 0x45
    → load32 packet 26 ≡ some saddr
    → load16 packet 34 ≡ some from
    → load32 packet 30 ≡ some daddr
    → load16 packet 36 ≡ some to
    → load16 packet 16 ≡ some tot_len
    → memcpy packet 6 6 ≡ some shost
    → memcpy packet 0 6 ≡ some dhost
    → load16 packet 18 ≡ some id
    → load8 packet 23 ≡ some proto
    → load8 packet 46 ≡ some doff
    → load8 packet 47 ≡ some flags
    → load32 packet 42 ≡ some ack_seq
    → print_wire_header inet_ntoa ether_ntoa packet
      ≡ some (
          number packet_size (htons tot_len)
          ∷ text source_mac (ether_ntoa shost)
          ∷ text dest_mac (ether_ntoa dhost)
          ∷ text source_address (inet_ntoa saddr)
          ∷ text destination_address (inet_ntoa daddr)
          ∷ number identification (htons id)
          ∷ number protocol proto
          ∷ number tcp_header_size (doff / 16 * 4)
          ∷ number source_port (htons from)
          ∷ number dest_port (htons to)
          ∷ number syn (flags / 2 % 2)
          ∷ number ack (flags / 16 % 2)
          ∷ (if flags / 16 % 2 == 0 then [] else number ack_num (htonl ack_seq) ∷ []))
unfolding print_wire_header
loaded inet_ntoa ether_ntoa packet shost dhost saddr from daddr to tot_len id proto doff flags
      ack_seq e1 e2 e3 e4 e5 e6 e7 e8 e9 e10 e11 e12 e13 =
    elim (Bool-cases (flags / 16 % 2 == 0)) [
      | inl b ↦ rw (e1, e2, e3, e4, e5, e6, e7, e8, e9, e10, e11, e12, b) refl
      | inr b ↦ rw (e1, e2, e3, e4, e5, e6, e7, e8, e9, e10, e11, e12, b, e13) refl
    ]

module _ (inet_ntoa : ℕ → Bytes) (ether_ntoa : Bytes → Bytes) (source dest : SockAddr)
    (payload_len seq_num number_acked synced acked ip_sum tcp_sum : ℕ) (rest : Bytes) where
  abbrev wire_packet : Bytes → Bytes → Bytes
  wire_packet dhost shost =
      dhost
      ++ (shost
          ++ (8
                ∷ 0
                ∷ (filled_ip payload_len
                    ++ (bytes16 ip_sum ++ (bytes32 source.s_addr ++ bytes32 dest.s_addr)))
              ++ (filled_tcp source dest seq_num number_acked synced acked
                  ++ (bytes16 tcp_sum ++ rest))))

  module _ (a b c d e f g h i j k l : ℕ) where
    abbrev dhost : Bytes
    dhost = a ∷ b ∷ c ∷ d ∷ e ∷ f ∷ []

    abbrev shost : Bytes
    shost = g ∷ h ∷ i ∷ j ∷ k ∷ l ∷ []

    shows_at :
        print_wire_header inet_ntoa ether_ntoa (wire_packet dhost shost)
        ≡ some (
            lines inet_ntoa ether_ntoa dhost shost source dest payload_len number_acked synced
              acked)
    unfolding load8 load16 load32
    shows_at =
        let packet : Bytes = wire_packet dhost shost in
        loaded inet_ntoa ether_ntoa packet shost dhost _ _ _ _ _ _ _ _ _ _ refl refl refl refl refl
          refl (memcpy-some packet 6 6 (omega arith)).0 (memcpy-some packet 0 6 (omega arith)).0
          refl refl refl refl refl
        ∙ cc (
          read16 (40 + payload_len),
          read16 source.sin_port,
          read16 dest.sin_port,
          read32 number_acked,
          kept32 source.s_addr,
          kept32 dest.s_addr,
          flag_syn synced acked,
          flag_ack synced acked,
          identified,
        )

-- Let a packet be an Ethernet header with two addresses of 6 bytes, an IP header of 20 bytes that
-- `fill_ip_header` made, with the addresses of two hosts, and what `fill_tcp_header` made for these
-- hosts in at least 20 bytes. Then both are made, and `print_wire_header` prints: the size of the
-- packet, modulo 2^16, the addresses, the header size, the ports, the flags, and the
-- acknowledgement only if its flag is set. The identification is printed as 0.
pub print_wire_header-fill :
    (inet_ntoa : ℕ → Bytes) (ether_ntoa : Bytes → Bytes) (dhost shost front memory : Bytes)
    (source dest : SockAddr) (payload_len seq_num number_acked synced acked : ℕ)
    → length dhost ≡ 6
    → length shost ≡ 6
    → length front ≡ 12
    → 20 ≤ length memory
    → (ip : Bytes) × (tcp : Bytes) × (fill_ip_header
          (front ++ (bytes32 source.s_addr ++ bytes32 dest.s_addr))
          payload_len
        ≡ some ip)
      × (fill_tcp_header memory source dest seq_num number_acked synced acked ≡ some tcp)
      × (print_wire_header inet_ntoa ether_ntoa (dhost ++ (shost ++ (8 ∷ 0 ∷ ip ++ tcp)))
          ≡ some (
              lines inet_ntoa ether_ntoa dhost shost source dest payload_len number_acked synced
                acked))
print_wire_header-fill inet_ntoa ether_ntoa dhost shost front memory source dest payload_len seq_num
      number_acked synced acked hd hs hf hm =
    let addresses : Bytes = bytes32 source.s_addr ++ bytes32 dest.s_addr in
    let (ip_sum, filled) = fill_ip_form front addresses payload_len hf refl in
    let tcp_sum : ℕ = checksum_of source dest seq_num number_acked synced acked in
    let rest : Bytes = 0 ∷ 0 ∷ drop 20 memory in
    let (a, b, c, d, e, f, p) = six dhost hd in
    let (g, h, i, j, k, l, q) = six shost hs in
    let shown =
      shows_at inet_ntoa ether_ntoa source dest payload_len seq_num number_acked synced acked ip_sum
        tcp_sum rest a b c d e f g h i j k l in
    (
      filled_ip payload_len ++ (bytes16 ip_sum ++ addresses),
      filled_tcp source dest seq_num number_acked synced acked ++ (bytes16 tcp_sum ++ rest),
      filled,
      fill_tcp_form memory source dest seq_num number_acked synced acked hm,
      rw (p, q) shown,
    )
