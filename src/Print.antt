-- ===== src/Print.antt =====
-- The printing functions of sim_dpi/testing_utils.cpp. What is printed is a list of lines; a label
-- stands for the text in front of the value.
pub mod Shows
pub mod Wire
mod Examples
use tcp_hw.Base.{
  ℕ, ◌+◌, ◌*◌, ◌/◌, ◌%◌, Option, some, List, [], ◌∷◌, ◌++◌, Bytes, ◌>>=◌, load8, load16, load32,
  memcpy, htons, htonl, ◌==◌, if◌then◌else◌,
}
use tcp_hw.Headers.{TcpHeader, IpHeader}

pub data Label : Type 0 where
  tcp_src_port : Label
  tcp_dst_port : Label
  tcp_seq_num : Label
  tcp_ack_num : Label
  tcp_hdr_len : Label
  tcp_rsved : Label
  tcp_flags : Label
  tcp_win_size : Label
  tcp_chksum : Label
  tcp_urg_pointer : Label
  ip_ihl : Label
  ip_version : Label
  ip_tos : Label
  ip_tot_len : Label
  ip_id : Label
  ip_frag_off : Label
  ip_ttl : Label
  ip_protocol : Label
  ip_checksum : Label
  ip_source_address : Label
  ip_dest_address : Label
  packet_size : Label
  source_mac : Label
  dest_mac : Label
  source_address : Label
  destination_address : Label
  identification : Label
  protocol : Label
  tcp_header_size : Label
  source_port : Label
  dest_port : Label
  syn : Label
  ack : Label
  ack_num : Label

pub data Line : Type 0 where
  number : Label → ℕ → Line
  text : Label → Bytes → Line

unfoldable pub print_tcp_header : TcpHeader → List Line
print_tcp_header h =
    number tcp_src_port h.src_port
    ∷ number tcp_dst_port h.dst_port
    ∷ number tcp_seq_num h.seq_num
    ∷ number tcp_ack_num h.ack_num
    ∷ number tcp_hdr_len (h.hdrlen_rsvd_nonce / 16)
    ∷ number tcp_rsved (h.hdrlen_rsvd_nonce / 2 % 8)
    ∷ number tcp_flags h.flags
    ∷ number tcp_win_size h.win_size
    ∷ number tcp_chksum h.chksum
    ∷ number tcp_urg_pointer h.urg_pointer
    ∷ []

-- `inet_ntoa` and `ether_ntoa` write an address as text.
module _ (inet_ntoa : ℕ → Bytes) where
  unfoldable pub print_ip_header : IpHeader → List Line
  print_ip_header h =
      number ip_ihl h.ihl
      ∷ number ip_version h.version
      ∷ number ip_tos h.tos
      ∷ number ip_tot_len h.tot_len
      ∷ number ip_id h.id
      ∷ number ip_frag_off h.frag_off
      ∷ number ip_ttl h.ttl
      ∷ number ip_protocol h.protocol
      ∷ number ip_checksum h.check
      ∷ text ip_source_address (inet_ntoa h.saddr)
      ∷ text ip_dest_address (inet_ntoa h.daddr)
      ∷ []

  module _ (ether_ntoa : Bytes → Bytes) where
    -- The acknowledgement is printed only if the flag is set; the empty line at the end is left
    -- out.
    unfoldable pub print_wire_header : Bytes → Option (List Line)
    print_wire_header packet = do
      ver_ihl ← load8 packet 14
      let tcp = 14 + ver_ihl % 16 * 4
      saddr ← load32 packet 26
      source ← load16 packet tcp
      daddr ← load32 packet 30
      dest ← load16 packet (tcp + 2)
      tot_len ← load16 packet 16
      shost ← memcpy packet 6 6
      dhost ← memcpy packet 0 6
      id ← load16 packet 18
      proto ← load8 packet 23
      doff ← load8 packet (tcp + 12)
      flags ← load8 packet (tcp + 13)
      ack_line ←
          (if flags / 16 % 2 == 0
            then some []
            else (do ack_seq ← load32 packet (tcp + 8); some (number ack_num (htonl ack_seq) ∷ [])))
      some (
          number packet_size (htons tot_len)
          ∷ text source_mac (ether_ntoa shost)
          ∷ text dest_mac (ether_ntoa dhost)
          ∷ text source_address (inet_ntoa saddr)
          ∷ text destination_address (inet_ntoa daddr)
          ∷ number identification (htons id)
          ∷ number protocol proto
          ∷ number tcp_header_size (doff / 16 * 4)
          ∷ number source_port (htons source)
          ∷ number dest_port (htons dest)
          ∷ number syn (flags / 2 % 2)
          ∷ number ack (flags / 16 % 2)
          ∷ ack_line)
