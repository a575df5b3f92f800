-- ===== src/OldFile.antt =====
-- sim_dpi/file_testing_lib.cpp: an earlier form of the file backend, as functions on `sock_state`.
-- Messages are left out.
pub mod Same
mod Examples
use tcp_hw.Base.{
  ℕ, ◌+◌, ◌>>=◌, ◌>>◌, require, Option, none, some, List, [], ◌∷◌, ◌++◌, Bytes, length, drop, leb,
  ◌==◌, if◌then◌else◌, load32, bytes16, bytes32, u32,
}
use tcp_hw.Process.{Exits, exit, returned}
use tcp_hw.Stdio.{File, fread, fwrite}

-- The files of `sock_state`.
pub record SockFiles : Type 0 where
  pub send_file : File
  pub recv_file : File

-- One `fwrite` for each field.
abbrev pub write_fields : List Bytes → File → File
write_fields [] f = f
write_fields (field ∷ fields) f = write_fields fields (fwrite field f)

unfoldable pub write_pcap_header : File → File
unfolding fwrite
write_pcap_header f =
    write_fields
      (bytes32 0xa1b2_c3d4
        ∷ bytes16 2
        ∷ bytes16 4
        ∷ bytes32 0
        ∷ bytes32 0
        ∷ bytes32 65535
        ∷ bytes32 1
        ∷ [])
      f

-- With the files that `fopen` returned, `none` for a null pointer.
unfoldable pub init_with_fds : Option File → Option File → Exits SockFiles
init_with_fds none recv_file = exit 1
init_with_fds (some f) none = exit 1
init_with_fds (some f) (some g) =
    returned (record { send_file = write_pcap_header f; recv_file = write_pcap_header g })

-- With a buffer of `room` bytes, and a packet header that held `stale`.
unfoldable pub read_pcap_record : Bytes → ℕ → File → Option (Bytes × File)
read_pcap_record stale room f =
    let (pcap_header, f') = fread 16 f in
    if length pcap_header == 0 then some ([], f') else do
      len ← load32 (pcap_header ++ drop (length pcap_header) stale) 12
      let (buffer, f'') = fread len f'
      require (leb (length buffer) room)
      some (buffer, f'')

-- Two writes; the number is the length that the second returns.
unfoldable pub write_pcap_record : ℕ → ℕ → Bytes → File → File × ℕ
write_pcap_record sec usec buffer f =
    let header =
      bytes32 (u32 sec)
      ++ (bytes32 (u32 usec) ++ (bytes32 (u32 (length buffer)) ++ bytes32 (u32 (length buffer)))) in
    (fwrite buffer (fwrite header f), length buffer)

unfoldable pub get_buffer_from_fd : Bytes → ℕ → SockFiles → Option (Bytes × SockFiles)
get_buffer_from_fd stale room s = do
  (buffer, f) ← read_pcap_record stale room s.recv_file
  some (buffer, record s { recv_file = f })

unfoldable pub put_buffer_to_fd : ℕ → ℕ → Bytes → SockFiles → SockFiles × ℕ
put_buffer_to_fd sec usec buffer s =
    let (f, write_len) = write_pcap_record sec usec buffer s.send_file in
    (record s { send_file = f }, write_len)
