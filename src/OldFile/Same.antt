-- ===== src/OldFile/Same.antt =====
-- The earlier form does to its files what `FileIOTestingLib` does.
use tcp_hw.Base.{
  ℕ, ◌+◌, ◌>>=◌, ◌≡◌, ◌∙◌, refl, sym, ap, arith, Option, some, none, List, [], ◌∷◌, ◌++◌, Bytes,
  length, length-append, append_assoc, append-nil, bytes16, bytes32, Option-cases, inl, inr,
}
use tcp_hw.Process.{Exits, exit, returned}
use tcp_hw.Stdio.{File, fwrite}
use tcp_hw.Pcap
use tcp_hw.Pcap.{file_header, record_bytes}
use tcp_hw.FileIo
use tcp_hw.FileIo.{FileIo, new_file_io, open_file_io, buffer_size}
use tcp_hw.OldFile
use tcp_hw.OldFile.{SockFiles, init_with_fds, get_buffer_from_fd, put_buffer_to_fd, write_fields}

-- The backend over the same files.
abbrev pub as_file_io : SockFiles → FileIo
as_file_io s = record { send_file = s.send_file; recv_file = s.recv_file }

abbrev pub renamed : Exits SockFiles → Exits FileIo
renamed (exit code) = exit code
renamed (returned s) = returned (as_file_io s)

abbrev joined : List Bytes → Bytes
joined [] = []
joined (xs ∷ xss) = xs ++ joined xss

fwrite-fwrite : (xs ys : Bytes) (f : File) → fwrite ys (fwrite xs f) ≡ fwrite (xs ++ ys) f
unfolding fwrite
fwrite-fwrite xs ys f =
    let content : (f.content ++ xs) ++ ys ≡ f.content ++ (xs ++ ys) =
      append_assoc f.content xs ys in
    let pos : length (f.content ++ xs) + length ys ≡ length f.content + length (xs ++ ys) =
      omega (arith, length-append f.content xs, length-append xs ys) in
    rw (content, pos) refl

write_fields-fwrite :
    (xs : Bytes) (xss : List Bytes) (f : File)
    → write_fields (xs ∷ xss) f ≡ fwrite (xs ++ joined xss) f
write_fields-fwrite xs [] f = ap (λ t. fwrite t f) (sym (append-nil xs))
write_fields-fwrite xs (ys ∷ xss) f =
    ap (λ g. write_fields xss g) (fwrite-fwrite xs ys f)
    ∙ write_fields-fwrite (xs ++ ys) xss f
    ∙ ap (λ t. fwrite t f) (append_assoc xs ys (joined xss))

header-same : (f : File) → OldFile.write_pcap_header f ≡ Pcap.write_pcap_header f
unfolding OldFile.write_pcap_header Pcap.write_pcap_header
header-same f =
    write_fields-fwrite (bytes32 0xa1b2_c3d4)
      (bytes16 2 ∷ bytes16 4 ∷ bytes32 0 ∷ bytes32 0 ∷ bytes32 65535 ∷ bytes32 1 ∷ []) f

write-same :
    (sec usec : ℕ) (buffer : Bytes) (f : File)
    → OldFile.write_pcap_record sec usec buffer f ≡ Pcap.write_pcap_record sec usec buffer f
unfolding OldFile.write_pcap_record Pcap.write_pcap_record
write-same sec usec buffer f = ap (λ g. (g, length buffer)) (fwrite-fwrite _ buffer f)

read-same :
    (stale : Bytes) (room : ℕ) (f : File)
    → OldFile.read_pcap_record stale room f ≡ Pcap.read_pcap_record stale room f
unfolding OldFile.read_pcap_record Pcap.read_pcap_record
read-same stale room f = refl

open-same : (f g : Option File) → open_file_io f g ≡ renamed (init_with_fds f g)
unfolding open_file_io init_with_fds new_file_io
open-same none g = refl
open-same (some f) none = refl
open-same (some f) (some g) = rw (header-same f, header-same g) refl

-- The earlier form of the file backend does to the two files what `FileIOTestingLib` does to them:
-- the initialization, which ends the process with the same code where one of them is not opened, a
-- packet that is put, and a packet that is got with a buffer of 2048 bytes, faults included.
pub old_file-file_io :
    (stale pkt : Bytes) (sec usec : ℕ) (f g : File) (opened_f opened_g : Option File)
    (s : SockFiles)
    → (open_file_io opened_f opened_g ≡ renamed (init_with_fds opened_f opened_g))
      × ((s' : SockFiles) × (init_with_fds (some f) (some g) ≡ returned s')
          × (as_file_io s' ≡ new_file_io f g))
      × (FileIo.get_buf_fr_io stale (as_file_io s) ≡ (
          get_buffer_from_fd stale buffer_size s >>= λ (r : Bytes × SockFiles).
          some (r.0, as_file_io r.1)))
      × (FileIo.put_buf_on_io sec usec pkt (as_file_io s)
          ≡ some
              ((put_buffer_to_fd sec usec pkt s).1, as_file_io (put_buffer_to_fd sec usec pkt s).0))
unfolding get_buffer_from_fd put_buffer_to_fd init_with_fds new_file_io FileIo.get_buf_fr_io
    FileIo.put_buf_on_io
old_file-file_io stale pkt sec usec f g opened_f opened_g s = (
  open-same opened_f opened_g,
  (
    record { send_file = OldFile.write_pcap_header f; recv_file = OldFile.write_pcap_header g },
    refl,
    rw (header-same f, header-same g) refl,
  ),
  elim (Option-cases (Pcap.read_pcap_record stale buffer_size s.recv_file)) [
    | inl e ↦ rw (read-same stale buffer_size s.recv_file, e) refl
    | inr (r, e) ↦ rw (read-same stale buffer_size s.recv_file, e) refl
  ],
  rw (write-same sec usec pkt s.send_file) refl,
)
