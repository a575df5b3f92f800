-- ===== src/Headers/Examples.antt =====
-- A header and a value at which the conversions run.
use tcp_hw.Base.{
  htonl, load8, load16, load32, take, Bytes, ◌++◌, replicate, memcpy, drop, ◌+◌, ◌*◌, ◌^◌, ◌≡◌,
  arith, some, [], ◌∷◌, ◌>>=◌, htons,
}
use tcp_hw.Checksum.{csum, pseudo_header}
use tcp_hw.Headers.FillTcp.{fill_tcp_header_lem}
use tcp_hw.Headers.Fill.{fill_ip_header_lem}
use tcp_hw.Headers.{
  SockAddr, fill_tcp_header, fill_ip_header, TcpHeader, convert_tcp_header_to_external,
  convert_external_to_tcp_header, bitvec_to_tcp_header, tcp_header_to_bitvec,
  data_swizzle_64_bitvec_to_c_buf, data_swizzle_64_c_buf_to_dpi_longint,
}
use tcp_hw.Headers.RoundTrip.{IsTcpHeader, external-external, bitvec-bitvec, swizzle-swizzle}

abbrev header : TcpHeader
header = record {
  src_port = 1234;
  dst_port = 80;
  seq_num = 7;
  ack_num = 0xffff_ffff;
  hdrlen_rsvd_nonce = 0x50;
  flags = 0x18;
  win_size = 100;
  chksum = 0x1234;
  urg_pointer = 0;
}

header-IsTcpHeader : IsTcpHeader header
header-IsTcpHeader = record {
  src_port = omega arith;
  dst_port = omega arith;
  seq_num = omega arith;
  ack_num = omega arith;
  hdrlen_rsvd_nonce = omega arith;
  flags = omega arith;
  win_size = omega arith;
  chksum = omega arith;
  urg_pointer = omega arith;
}

external-external_example :
    (htonl (convert_tcp_header_to_external header).seq_num ≡ header.seq_num)
    × (htonl (convert_tcp_header_to_external header).ack_num ≡ header.ack_num)
    × (convert_external_to_tcp_header (convert_tcp_header_to_external header)
        ≡ record header { win_size = 5840; hdrlen_rsvd_nonce = 80 })
external-external_example = external-external header header-IsTcpHeader

bitvec-bitvec_example :
    bitvec_to_tcp_header (tcp_header_to_bitvec header)
    ≡ some (record header { chksum = htons 0x1234 })
bitvec-bitvec_example = bitvec-bitvec header header-IsTcpHeader

swizzle-swizzle_example :
    (data_swizzle_64_bitvec_to_c_buf (0x0102_0304 ∷ 0xaabb_ccdd ∷ [])
      >>= data_swizzle_64_c_buf_to_dpi_longint)
    ≡ some (2 ^ 32 * 0xaabb_ccdd + 0x0102_0304)
swizzle-swizzle_example = swizzle-swizzle 0x0102_0304 0xaabb_ccdd (omega arith) (omega arith)

abbrev memory : Bytes
memory = replicate 12 9 ++ (192 ∷ 0 ∷ 0 ∷ 2 ∷ 192 ∷ 0 ∷ 0 ∷ 1 ∷ 5 ∷ [])

fill_ip_header_example :
    (out : Bytes) × (fill_ip_header memory 3 ≡ some out)
    × (csum out 20 ≡ some 0)
    × (memcpy out 12 8 ≡ memcpy memory 12 8)
    × (drop 20 out ≡ 5 ∷ [])
fill_ip_header_example = fill_ip_header_lem memory 3 (omega arith) (omega arith)

abbrev host : SockAddr
host = record { sin_port = 1234; s_addr = 0x0200_00c0 }

abbrev peer : SockAddr
peer = record { sin_port = 80; s_addr = 0x0100_00c0 }

fill_tcp_header_example :
    (out : Bytes) × (fill_tcp_header memory host peer 7 9 1 1 ≡ some out)
    × (load16 out 0 ≡ some (htons 1234))
    × (load16 out 2 ≡ some (htons 80))
    × (load32 out 4 ≡ some (htonl 7))
    × (load32 out 8 ≡ some (htonl 9))
    × (load8 out 12 ≡ some 0x50)
    × (csum (pseudo_header 0x0200_00c0 0x0100_00c0 20 ++ take 20 out) 32 ≡ some 0)
    × (drop 20 out ≡ 5 ∷ [])
fill_tcp_header_example = fill_tcp_header_lem memory host peer 7 9 1 1 (omega arith)
