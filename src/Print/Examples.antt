-- ===== src/Print/Examples.antt =====
-- The printed lines of headers of a SYN-ACK.
use tcp_hw.Base.{ℕ, ◌≡◌, refl, arith, some, [], ◌∷◌, ◌++◌, Bytes, replicate, bytes32}
use tcp_hw.Headers.{SockAddr, fill_ip_header, fill_tcp_header}
use tcp_hw.Print.{print_wire_header}
use tcp_hw.Print.Wire.{lines, print_wire_header-fill}

abbrev one_word : ℕ → Bytes
one_word a = a ∷ []

abbrev host : SockAddr
host = record { sin_port = 1234; s_addr = 0x0200_00c0 }

abbrev peer : SockAddr
peer = record { sin_port = 80; s_addr = 0x0100_00c0 }

print_wire_header-fill_example :
    (ip : Bytes) × (tcp : Bytes) × (fill_ip_header
        (replicate 12 1 ++ (bytes32 0x0200_00c0 ++ bytes32 0x0100_00c0))
        0
      ≡ some ip)
    × (fill_tcp_header (replicate 20 1) host peer 7 9 1 1 ≡ some tcp)
    × (print_wire_header one_word (λ a. a) (replicate 6 1 ++ (replicate 6 2 ++ (8 ∷ 0 ∷ ip ++ tcp)))
        ≡ some (lines one_word (λ a. a) (replicate 6 1) (replicate 6 2) host peer 0 9 1 1))
print_wire_header-fill_example =
    print_wire_header-fill one_word (λ a. a) (replicate 6 1) (replicate 6 2) (replicate 12 1)
      (replicate 20 1) host peer 0 7 9 1 1 refl refl refl (omega arith)
