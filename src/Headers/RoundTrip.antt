-- ===== src/Headers/RoundTrip.antt =====
-- Headers and data that are converted and converted back.
use tcp_hw.Base.{
  ℕ, ◌+◌, ◌*◌, ◌/◌, ◌%◌, ◌^◌, ◌<◌, ◌≡◌, ◌∙◌, refl, ap, arith, some, [], ◌∷◌, ◌>>=◌, htons, htonl,
  htons-htons, htonl-htonl, u32, u16, u8,
}
use tcp_hw.Headers.{
  TcpHeader, convert_tcp_header_to_external, convert_external_to_tcp_header, bitvec_to_tcp_header,
  tcp_header_to_bitvec, data_swizzle_64_bitvec_to_c_buf, data_swizzle_64_c_buf_to_dpi_longint,
}

-- The fields hold what their types can.
pub record IsTcpHeader (h : TcpHeader) : Type 0 where
  pub src_port : h.src_port < 2 ^ 16
  pub dst_port : h.dst_port < 2 ^ 16
  pub seq_num : h.seq_num < 2 ^ 32
  pub ack_num : h.ack_num < 2 ^ 32
  pub hdrlen_rsvd_nonce : h.hdrlen_rsvd_nonce < 2 ^ 8
  pub flags : h.flags < 2 ^ 8
  pub win_size : h.win_size < 2 ^ 16
  pub chksum : h.chksum < 2 ^ 16
  pub urg_pointer : h.urg_pointer < 2 ^ 16

-- Headers with equal fields are equal.
same_header :
    (h k : TcpHeader)
    → h.src_port ≡ k.src_port
    → h.dst_port ≡ k.dst_port
    → h.seq_num ≡ k.seq_num
    → h.ack_num ≡ k.ack_num
    → h.hdrlen_rsvd_nonce ≡ k.hdrlen_rsvd_nonce
    → h.flags ≡ k.flags
    → h.win_size ≡ k.win_size
    → h.chksum ≡ k.chksum
    → h.urg_pointer ≡ k.urg_pointer
    → h ≡ k
same_header h k a b c d e f g j l = λ i. record {
  src_port = a i;
  dst_port = b i;
  seq_num = c i;
  ack_num = d i;
  hdrlen_rsvd_nonce = e i;
  flags = f i;
  win_size = g i;
  chksum = j i;
  urg_pointer = l i;
}

twice16 : (x : ℕ) → x < 2 ^ 16 → htons (htons x) ≡ x
twice16 x h = omega (arith, htons-htons x)

twice32 : (x : ℕ) → x < 2 ^ 32 → htonl (htonl x) ≡ x
twice32 x h = omega (arith, htonl-htonl x)

-- The parts of a word.
parts2 :
    (a b : ℕ)
    → a < 2 ^ 16
    → b < 2 ^ 16
    → (u32 (a * 2 ^ 16 + b) / 2 ^ 16 ≡ a) × (u32 (a * 2 ^ 16 + b) % 2 ^ 16 ≡ b)
parts2 a b ha hb = (omega arith, omega arith)

parts3 :
    (a b c : ℕ)
    → a < 2 ^ 8
    → b < 2 ^ 8
    → c < 2 ^ 16
    → let w = u32 (a * 2 ^ 24 + b * 2 ^ 16 + c) in
      (u8 (w / 2 ^ 24) ≡ a) × (w / 2 ^ 16 % 2 ^ 8 ≡ b) × (w % 2 ^ 16 ≡ c)
parts3 a b c ha hb hc = (omega arith, omega arith, omega arith)

-- On the wire the sequence number and the ACK number are the same numbers in the other byte order,
-- neither one ahead, and the header that comes back is the same, but for the window, which is then
-- 5840, and the byte with the header length, which then says 20 bytes.
pub external-external :
    (h : TcpHeader)
    → IsTcpHeader h
    → let wire = convert_tcp_header_to_external h in
      (htonl wire.seq_num ≡ h.seq_num)
      × (htonl wire.ack_num ≡ h.ack_num)
      × (convert_external_to_tcp_header wire ≡ record h { win_size = 5840; hdrlen_rsvd_nonce = 80 })
unfolding convert_external_to_tcp_header convert_tcp_header_to_external
external-external h is = (
  twice32 h.seq_num is.seq_num,
  twice32 h.ack_num is.ack_num,
  same_header (convert_external_to_tcp_header (convert_tcp_header_to_external h))
      (record h { win_size = 5840; hdrlen_rsvd_nonce = 80 }) (twice16 h.src_port is.src_port)
      (twice16 h.dst_port is.dst_port) (twice32 h.seq_num is.seq_num) (twice32 h.ack_num is.ack_num)
      refl refl (twice16 5840 (omega arith)) refl refl,
)

-- A header that goes to a bit vector and back is the same, but for the checksum, whose bytes are
-- swapped.
pub bitvec-bitvec :
    (h : TcpHeader)
    → IsTcpHeader h
    → bitvec_to_tcp_header (tcp_header_to_bitvec h) ≡ some (record h { chksum = htons h.chksum })
unfolding bitvec_to_tcp_header tcp_header_to_bitvec
bitvec-bitvec h is =
    let (p, q) = parts2 h.src_port h.dst_port is.src_port is.dst_port in
    let (r, s) = parts2 h.chksum h.urg_pointer is.chksum is.urg_pointer in
    let (t, u, v) =
      parts3 h.hdrlen_rsvd_nonce h.flags h.win_size is.hdrlen_rsvd_nonce is.flags is.win_size in
    ap some (
      same_header _ _ (ap (λ x. u16 x) p ∙ omega (arith, is.src_port)) q refl refl t u v
        (ap htons r) s)

-- A 64-bit value that goes from a bit vector to bytes and back to a number is the same value.
pub swizzle-swizzle :
    (w0 w1 : ℕ)
    → w0 < 2 ^ 32
    → w1 < 2 ^ 32
    → (data_swizzle_64_bitvec_to_c_buf (w0 ∷ w1 ∷ []) >>= data_swizzle_64_c_buf_to_dpi_longint)
      ≡ some (2 ^ 32 * w1 + w0)
unfolding data_swizzle_64_bitvec_to_c_buf data_swizzle_64_c_buf_to_dpi_longint
swizzle-swizzle w0 w1 h0 h1 = ap some (omega arith)
