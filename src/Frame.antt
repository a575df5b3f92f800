-- ===== src/Frame.antt =====
-- How the trace backends look into an Ethernet frame: the packed structs `eth_hdr`, `ip_hdr` and
-- `tcp_header` of sim_dpi/flows.h laid over a buffer, and the test of the destination address.
pub mod Address
mod Examples
use tcp_hw.Base.{
  ℕ, zero, suc, ◌+◌, ◌-◌, ◌*◌, ◌/◌, ◌%◌, ◌^◌, Bool, true, false, Option, some, Bytes, ◌&&◌, ◌==◌,
  if◌then◌else◌, ◌>>=◌, load8, load16, load32, u16,
}

-- `sizeof(struct eth_hdr)`
abbrev pub eth_hdr_size : ℕ
eth_hdr_size = 14

-- The TCP flags by which the backends tell packets apart.
abbrev pub tcp_syn : ℕ
tcp_syn = 0b00000010

abbrev pub tcp_ack : ℕ
tcp_ack = 0b00010000

-- The packet buffer is compared with the six bytes of an address, up to the first difference.
unfoldable pub same_mac_from : ℕ → ℕ → Bytes → Bytes → Option Bool
same_mac_from zero i frame mac = some true
same_mac_from (suc rounds) i frame mac = do
  a ← load8 frame i
  b ← load8 mac i
  let rest = same_mac_from rounds (suc i) frame mac
  if a == b then rest else some false

-- Whether the frame is addressed to `mac`: such a packet is sent, any other is expected back.
unfoldable pub send_packet : Bytes → Bytes → Option Bool
unfolding same_mac_from
send_packet frame mac = same_mac_from 6 0 frame mac

-- `(ip_packet->ver_ihl & 0xf) << 2`
unfoldable pub ip_hdr_len : Bytes → Option ℕ
unfolding load8
ip_hdr_len frame = do ver_ihl ← load8 frame (eth_hdr_size + 0); some (ver_ihl % 16 * 4)

-- `struct TCPFlowTuple`. The values are kept as they lie in the packet.
pub record FlowTuple : Type 0 where
  pub my_ip : ℕ
  pub their_ip : ℕ
  pub my_port : ℕ
  pub their_port : ℕ

-- `operator==`
unfoldable pub flow_eq : FlowTuple → FlowTuple → Bool
flow_eq a b =
    a.my_ip == b.my_ip
    && (a.their_ip == b.their_ip && (a.my_port == b.my_port && a.their_port == b.their_port))

abbrev tuple_of : Bool → ℕ → ℕ → ℕ → ℕ → FlowTuple
tuple_of true src_ip dst_ip src_port dst_port = record {
  my_ip = src_ip;
  their_ip = dst_ip;
  my_port = src_port;
  their_port = dst_port;
}
tuple_of false src_ip dst_ip src_port dst_port = record {
  my_ip = dst_ip;
  their_ip = src_ip;
  my_port = dst_port;
  their_port = src_port;
}

-- `TCPFlowTupleHash`, over the `hash_value`s of boost for the two widths and its `hash_combine`.
unfoldable pub flow_hash : (ℕ → ℕ) → (ℕ → ℕ) → (ℕ → ℕ → ℕ) → FlowTuple → ℕ
flow_hash hash_value32 hash_value16 hash_combine k =
    hash_combine
      (hash_combine (hash_combine (hash_combine 0 (hash_value32 k.my_ip)) (hash_value32 k.their_ip))
        (hash_value16 k.my_port))
      (hash_value16 k.their_port)

-- The flow of a packet whose TCP header stands `ip_len` bytes after the Ethernet header. The side
-- of the trace that sends to the hardware is "my" side.
unfoldable pub lookup_tuple : Bool → ℕ → Bytes → Option FlowTuple
lookup_tuple send ip_len frame = do
  src_ip ← load32 frame (eth_hdr_size + 12)
  dst_ip ← load32 frame (eth_hdr_size + 16)
  src_port ← load16 frame (eth_hdr_size + ip_len)
  dst_port ← load16 frame (eth_hdr_size + ip_len + 2)
  some (tuple_of send src_ip dst_ip src_port dst_port)

-- What the state updates read of a packet.
pub record Parsed : Type 0 where
  pub seq_num : ℕ
  pub ack_num : ℕ
  pub flags : ℕ
  pub payload_len : ℕ

-- `total_length`, `seq_num` and `ack_num` are used as they are loaded, with no `ntohs` or `ntohl`.
-- The subtraction is of `uint32_t`s, and its result goes into a `uint16_t`.
unfoldable pub parse : Bytes → Option Parsed
parse packet = do
  ip_len ← ip_hdr_len packet
  total_length ← load16 packet (eth_hdr_size + 2)
  seq ← load32 packet (eth_hdr_size + ip_len + 4)
  ack ← load32 packet (eth_hdr_size + ip_len + 8)
  hdrlen ← load8 packet (eth_hdr_size + ip_len + 12)
  flags ← load8 packet (eth_hdr_size + ip_len + 13)
  some (record {
    seq_num = seq;
    ack_num = ack;
    flags = flags;
    payload_len = u16 (total_length + 2 ^ 32 - ip_len - hdrlen / 16 * 4);
  })
