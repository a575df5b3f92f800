-- ===== src/Headers.antt =====
-- The conversions of headers and bit vectors in sim_dpi/testing_utils.cpp. A `svBitVecVal` array is
-- a list of 32-bit words, the lowest first; `none` is a read outside it.
pub mod RoundTrip
pub mod Fill
pub mod FillTcp
mod Examples
use tcp_hw.Base.{
  ℕ, ◌+◌, ◌*◌, ◌/◌, ◌%◌, ◌^◌, Option, none, some, List, [], ◌∷◌, ◌++◌, Bytes, get_elem?, ◌>>=◌,
  bytes32, htons, htonl, u8, u16, u32, drop, bytes16, memcpy, leb, length, if◌then◌else◌, ◌>>◌,
  require,
}
use tcp_hw.Checksum.{csum, store16, ip_check, tcp_check, ipproto_tcp, pseudo_header}

-- `struct tcp_header`, and `struct tcphdr` with the same layout: `hdrlen_rsvd_nonce` and `flags`
-- hold the bit fields of the latter.
pub record TcpHeader : Type 0 where
  pub src_port : ℕ
  pub dst_port : ℕ
  pub seq_num : ℕ
  pub ack_num : ℕ
  pub hdrlen_rsvd_nonce : ℕ
  pub flags : ℕ
  pub win_size : ℕ
  pub chksum : ℕ
  pub urg_pointer : ℕ

-- `struct iphdr`
pub record IpHeader : Type 0 where
  pub ihl : ℕ
  pub version : ℕ
  pub tos : ℕ
  pub tot_len : ℕ
  pub id : ℕ
  pub frag_off : ℕ
  pub ttl : ℕ
  pub protocol : ℕ
  pub check : ℕ
  pub saddr : ℕ
  pub daddr : ℕ

unfoldable pub convert_tcp_header_to_external : TcpHeader → TcpHeader
convert_tcp_header_to_external h = record h {
  src_port = htons h.src_port;
  dst_port = htons h.dst_port;
  seq_num = htonl h.seq_num;
  ack_num = htonl h.ack_num;
  win_size = htons 5840;
}

unfoldable pub convert_external_to_tcp_header : TcpHeader → TcpHeader
convert_external_to_tcp_header h = record h {
  ack_num = htonl h.ack_num;
  seq_num = htonl h.seq_num;
  src_port = htons h.src_port;
  dst_port = htons h.dst_port;
  win_size = htons h.win_size;
  hdrlen_rsvd_nonce = u8 (5 * 2 ^ 4);
}

unfoldable pub convert_ip_header_to_external : IpHeader → IpHeader
convert_ip_header_to_external h = record h { tot_len = htons h.tot_len }

unfoldable pub bitvec_to_tcp_header : List ℕ → Option TcpHeader
bitvec_to_tcp_header bitvec = do
  w4 ← get_elem? bitvec 4
  w3 ← get_elem? bitvec 3
  w2 ← get_elem? bitvec 2
  w1 ← get_elem? bitvec 1
  w0 ← get_elem? bitvec 0
  some (record {
    src_port = u16 (w4 / 2 ^ 16);
    dst_port = w4 % 2 ^ 16;
    seq_num = w3;
    ack_num = w2;
    hdrlen_rsvd_nonce = u8 (w1 / 2 ^ 24);
    flags = w1 / 2 ^ 16 % 2 ^ 8;
    win_size = w1 % 2 ^ 16;
    chksum = htons (w0 / 2 ^ 16);
    urg_pointer = w0 % 2 ^ 16;
  })

unfoldable pub bitvec_to_ip_header : List ℕ → Option IpHeader
bitvec_to_ip_header bitvec = do
  w4 ← get_elem? bitvec 4
  w3 ← get_elem? bitvec 3
  w2 ← get_elem? bitvec 2
  w1 ← get_elem? bitvec 1
  w0 ← get_elem? bitvec 0
  some (record {
    ihl = w4 / 2 ^ 28 % 2 ^ 4;
    version = w4 / 2 ^ 24 % 2 ^ 4;
    tos = w4 / 2 ^ 16 % 2 ^ 8;
    tot_len = w4 % 2 ^ 16;
    id = w3 / 2 ^ 16 % 2 ^ 16;
    frag_off = w3 % 2 ^ 16;
    ttl = w2 / 2 ^ 24 % 2 ^ 8;
    protocol = w2 / 2 ^ 16 % 2 ^ 8;
    check = w2 % 2 ^ 16;
    saddr = htonl w1;
    daddr = htonl w0;
  })

-- The five words that are written, the lowest first.
unfoldable pub tcp_header_to_bitvec : TcpHeader → List ℕ
tcp_header_to_bitvec h =
    u32 (h.chksum * 2 ^ 16 + h.urg_pointer)
    ∷ u32 (h.hdrlen_rsvd_nonce * 2 ^ 24 + h.flags * 2 ^ 16 + h.win_size)
    ∷ h.ack_num
    ∷ h.seq_num
    ∷ u32 (h.src_port * 2 ^ 16 + h.dst_port)
    ∷ []

-- The bytes of a word, the highest first.
abbrev big_endian32 : ℕ → Bytes
big_endian32 w = w / 2 ^ 24 % 256 ∷ w / 65536 % 256 ∷ w / 256 % 256 ∷ w % 256 ∷ []

-- The eight bytes that are written to `dest_buf`.
unfoldable pub data_swizzle_64_bitvec_to_c_buf : List ℕ → Option Bytes
data_swizzle_64_bitvec_to_c_buf data_input = do
  low_addr_bytes ← get_elem? data_input 1
  high_addr_bytes ← get_elem? data_input 0
  some (big_endian32 low_addr_bytes ++ big_endian32 high_addr_bytes)

-- The number that the eight bytes written to `dest_buf` are.
unfoldable pub data_swizzle_64_c_buf_to_dpi_longint : Bytes → Option ℕ
data_swizzle_64_c_buf_to_dpi_longint data_input = do
  b7 ← get_elem? data_input 7
  b6 ← get_elem? data_input 6
  b5 ← get_elem? data_input 5
  b4 ← get_elem? data_input 4
  b3 ← get_elem? data_input 3
  b2 ← get_elem? data_input 2
  b1 ← get_elem? data_input 1
  b0 ← get_elem? data_input 0
  some (
      b7
      + 2 ^ 8 * b6
      + 2 ^ 16 * b5
      + 2 ^ 24 * b4
      + 2 ^ 32 * b3
      + 2 ^ 40 * b2
      + 2 ^ 48 * b1
      + 2 ^ 56 * b0)

-- The bytes of an IP header as `fill_ip_header` makes them before the checksum, in front of the
-- addresses. The identification keeps the low 16 bits of `htonl (54321)`.
abbrev pub filled_ip : ℕ → Bytes
filled_ip payload_len =
    0x45 ∷ 0 ∷ bytes16 (htons (20 + 20 + payload_len))
    ++ (bytes16 (u16 (htonl 54321)) ++ (bytes16 0 ++ (255 ∷ ipproto_tcp ∷ [])))

-- The memory of the header afterwards; the addresses and what is behind them stay. `state` is not
-- used.
unfoldable pub fill_ip_header : Bytes → ℕ → Option Bytes
fill_ip_header ip_header payload_len = do
  addresses ← memcpy ip_header 12 8
  let memory = filled_ip payload_len ++ (0 ∷ 0 ∷ addresses ++ drop 20 ip_header)
  checksum ← csum memory 20
  store16 memory ip_check checksum

-- The fields of `struct sockaddr_in` that are read: the port in host order, the address as it lies
-- in the packet.
pub record SockAddr : Type 0 where
  pub sin_port : ℕ
  pub s_addr : ℕ

-- The 16 bytes in front of the checksum. `syn` and `ack` are bits.
abbrev pub filled_tcp : SockAddr → SockAddr → ℕ → ℕ → ℕ → ℕ → Bytes
filled_tcp source dest seq_num ack_num syn ack =
    bytes16 (htons source.sin_port)
    ++ (bytes16 (htons dest.sin_port)
        ++ (bytes32 (htonl seq_num)
            ++ (bytes32 (htonl ack_num)
                ++ (0x50 ∷ (syn % 2 * 2 + ack % 2 * 16) ∷ bytes16 (htons 5840)))))

-- The memory of the header afterwards. All its 20 bytes are set; `source` is `state->source_addr`.
unfoldable pub fill_tcp_header : Bytes → SockAddr → SockAddr → ℕ → ℕ → ℕ → ℕ → Option Bytes
fill_tcp_header memory source dest seq_num ack_num syn ack = do
  require (leb 20 (length memory))
  let header = filled_tcp source dest seq_num ack_num syn ack ++ (0 ∷ 0 ∷ 0 ∷ 0 ∷ [])
  checksum ← csum (pseudo_header source.s_addr dest.s_addr 20 ++ header) 32
  store16 (header ++ drop 20 memory) tcp_check checksum
