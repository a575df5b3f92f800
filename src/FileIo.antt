-- ===== src/FileIo.antt =====
-- `FileIOTestingLib` of sim_dpi/file_io_testing_lib.cpp: the backend whose two directions are two
-- pcap files, which another program reads and writes.
pub mod Exchange
pub mod Polling
mod Examples
use tcp_hw.Base.{ℕ, Option, none, some, Bytes, length, ◌>>=◌}
use tcp_hw.Process.{Exits, exit, returned}
use tcp_hw.Stdio.{File}
use tcp_hw.Pcap.{read_pcap_record, write_pcap_header, write_pcap_record}

pub record FileIo : Type 0 where
  pub send_file : File
  pub recv_file : File

-- The constructor behind its guards, with the files that `fopen` returned for "ab+".
unfoldable pub new_file_io : File → File → FileIo
new_file_io send_file recv_file = record {
  send_file = write_pcap_header send_file;
  recv_file = write_pcap_header recv_file;
}

-- The constructor; `none` is the null pointer of an `fopen` that failed.
unfoldable pub open_file_io : Option File → Option File → Exits FileIo
unfolding new_file_io
open_file_io none recv_file = exit 1
open_file_io (some send_file) none = exit 1
open_file_io (some send_file) (some recv_file) = returned (new_file_io send_file recv_file)

-- `sizeof(buffer)`
abbrev pub buffer_size : ℕ
buffer_size = 2048

-- `stale` is what the memory of the packet header holds.
unfoldable pub get_buf_fr_io : Bytes → FileIo → Option (Bytes × FileIo)
get_buf_fr_io stale io = do
  (pkt_buf, f) ← read_pcap_record stale buffer_size io.recv_file
  some (pkt_buf, record io { recv_file = f })

-- At the time `sec`, `usec`. The number is the length that is returned.
unfoldable pub put_buf_on_io : ℕ → ℕ → Bytes → FileIo → Option (ℕ × FileIo)
put_buf_on_io sec usec pkt_buf io =
    let (f, write_len) = write_pcap_record sec usec pkt_buf io.send_file in
    some (write_len, record io { send_file = f })
