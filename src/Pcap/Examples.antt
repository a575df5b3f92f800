-- ===== src/Pcap/Examples.antt =====
-- Reading and writing at small files.
use tcp_hw.Base.{ℕ, ◌≡◌, refl, arith, none, some, false, [], ◌∷◌, ◌++◌, Bytes}
use tcp_hw.Stdio.{File, unread, fwrite}
use tcp_hw.Pcap.{file_header, record_bytes, read_pcap_record, write_pcap_header, write_pcap_record}
use tcp_hw.Pcap.Record.{read-record, read-too_long}

-- A file as the two writing functions leave it, rewound behind the header.
abbrev packet : Bytes
packet = 7 ∷ 8 ∷ 9 ∷ []

abbrev file : ℕ → File
file pos = record {
  content = file_header ++ (record_bytes 5 6 packet ++ (1 ∷ 2 ∷ []));
  pos = pos;
  at_end = false;
}

written_example :
    (write_pcap_record 5 6 packet
      (write_pcap_header (record { content = []; pos = 0; at_end = false }))).0.content
    ≡ file_header ++ record_bytes 5 6 packet
unfolding write_pcap_record write_pcap_header fwrite
written_example = refl

read-record_example :
    (f' : File) × (read_pcap_record [] 2048 (file 24) ≡ some (packet, f'))
    × (unread f' ≡ 1 ∷ 2 ∷ [])
read-record_example =
    read-record [] 2048 5 6 packet (1 ∷ 2 ∷ []) (file 24) refl (omega arith) (omega arith)

read-too_long_example : read_pcap_record [] 2 (file 24) ≡ none
read-too_long_example =
    read-too_long [] 2 5 6 packet (1 ∷ 2 ∷ []) (file 24) refl (omega arith) (omega arith)
