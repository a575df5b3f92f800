-- ===== src/Checksum/Examples.antt =====
-- The checksum at the header of RFC 1071's kind, and at a TCP segment.
use tcp_hw.Base.{
  ◌%◌, ◌≡◌, ◌<◌, ◌↔◌, refl, arith, some, [], ◌∷◌, ◌++◌, Bytes, length, take, drop, load8,
}
use tcp_hw.Checksum.{csum, csum_loop, fold_sum, pseudo_header, tcp_header_len, add_tcp_checksum}
use tcp_hw.Checksum.Sum.{words, csum-zero_iff}
use tcp_hw.Checksum.Tcp.{add_tcp_checksum_lem}

abbrev ip_header : Bytes
ip_header =
    69 ∷ 0 ∷ 0 ∷ 115 ∷ 0 ∷ 0 ∷ 64 ∷ 0 ∷ 64 ∷ 17 ∷ 0 ∷ 0 ∷ 192 ∷ 168 ∷ 0 ∷ 1 ∷ 192 ∷ 168 ∷ 0 ∷ 199
    ∷ []

-- The checksum 0xb861, as it is stored.
csum_example : csum ip_header 20 ≡ some 0x61b8
unfolding csum csum_loop fold_sum
csum_example = refl

csum-zero_example :
    (csum ip_header 20 ≡ some 0) ↔ ((0 < words ip_header) × (words ip_header % 65535 ≡ 0))
csum-zero_example = csum-zero_iff ip_header (omega arith) (omega arith)

abbrev segment : Bytes
segment =
    4 ∷ 210 ∷ 0 ∷ 80 ∷ 0 ∷ 0 ∷ 0 ∷ 1 ∷ 0 ∷ 0 ∷ 0 ∷ 2 ∷ 80 ∷ 24 ∷ 22 ∷ 208 ∷ 9 ∷ 9 ∷ 0 ∷ 0 ∷ 104
    ∷ 105 ∷ 33 ∷ 0 ∷ []

add_tcp_checksum_example :
    (out : Bytes) × (add_tcp_checksum segment 3 0x0100_00c0 0x0200_00c0 ≡ some out)
    × (length out ≡ length segment)
    × (take 16 out ≡ take 16 segment)
    × (drop 18 out ≡ drop 18 segment)
    × (csum (pseudo_header 0x0100_00c0 0x0200_00c0 23 ++ take 23 out) 35 ≡ some 0)
unfolding tcp_header_len load8
add_tcp_checksum_example =
    add_tcp_checksum_lem segment 20 3 0x0100_00c0 0x0200_00c0 (omega arith) refl (omega arith)
      (omega arith) (omega arith)
