-- ===== src/FileIo/Examples.antt =====
-- The first packet of two programs that have just opened the files.
use tcp_hw.Base.{◌≡◌, refl, arith, some, [], ◌∷◌, ◌++◌, false}
use tcp_hw.Stdio.{File}
use tcp_hw.Pcap.{file_header, record_bytes}
use tcp_hw.FileIo.{FileIo, get_buf_fr_io, put_buf_on_io}
use tcp_hw.FileIo.Exchange.{CaughtUp, sees, put-get}
use tcp_hw.FileIo.Polling.{polls, polled_deaf}

abbrev file : File
file = record { content = file_header; pos = 24; at_end = false }

abbrev side : FileIo
side = record { send_file = file; recv_file = file }

put-get_example :
    (writer' : FileIo) × (reader' : FileIo) × (put_buf_on_io 1 2 (7 ∷ 8 ∷ []) side
      ≡ some (2, writer'))
    × (get_buf_fr_io [] (sees writer' side) ≡ some (7 ∷ 8 ∷ [], reader'))
    × CaughtUp writer' reader'
put-get_example =
    put-get 1 2 [] (7 ∷ 8 ∷ []) side side
      (record { same_file = refl; at_last = refl; not_met = refl }) (omega arith)

-- A poll, and another when the file has a packet.
polled_deaf_example :
    (io' : FileIo) × (io'' : FileIo) × (get_buf_fr_io [] side ≡ some ([], io'))
    × (polls (([], file_header ++ record_bytes 1 2 (7 ∷ 8 ∷ [])) ∷ []) io' ≡ some ([], io''))
polled_deaf_example =
    polled_deaf [] side (([], file_header ++ record_bytes 1 2 (7 ∷ 8 ∷ [])) ∷ []) refl
