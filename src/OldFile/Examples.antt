-- ===== src/OldFile/Examples.antt =====
-- The earlier form of the file backend on new files.
use tcp_hw.Base.{◌≡◌, ◌>>=◌, some, none, false, [], ◌∷◌, Bytes}
use tcp_hw.Process.{returned}
use tcp_hw.Stdio.{File}
use tcp_hw.FileIo
use tcp_hw.FileIo.{new_file_io, open_file_io, buffer_size}
use tcp_hw.OldFile.{SockFiles, init_with_fds, get_buffer_from_fd, put_buffer_to_fd}
use tcp_hw.OldFile.Same.{as_file_io, renamed, old_file-file_io}

abbrev new_file : File
new_file = record { content = []; pos = 0; at_end = false }

abbrev sock : SockFiles
sock = record {
  send_file = new_file;
  recv_file = record { content = 1 ∷ []; pos = 0; at_end = false };
}

old_file-file_io_example :
    (open_file_io (some new_file) none ≡ renamed (init_with_fds (some new_file) none))
    × ((s' : SockFiles) × (init_with_fds (some new_file) (some new_file) ≡ returned s')
        × (as_file_io s' ≡ new_file_io new_file new_file))
    × (FileIo.get_buf_fr_io [] (as_file_io sock) ≡ (
        get_buffer_from_fd [] buffer_size sock >>= λ (r : Bytes × SockFiles).
        some (r.0, as_file_io r.1)))
    × (FileIo.put_buf_on_io 1 2 (3 ∷ []) (as_file_io sock)
        ≡ some (
          (put_buffer_to_fd 1 2 (3 ∷ []) sock).1,
          as_file_io (put_buffer_to_fd 1 2 (3 ∷ []) sock).0,
        ))
old_file-file_io_example =
    old_file-file_io [] (3 ∷ []) 1 2 new_file new_file (some new_file) none sock
