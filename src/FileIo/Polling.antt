-- ===== src/FileIo/Polling.antt =====
-- A program with this backend that polls a file which another program still writes.
use tcp_hw.Base.{◌≡◌, refl, arith, true, Option, some, List, [], ◌∷◌, Bytes, ◌>>=◌}
use tcp_hw.Stdio.{File, unread, fread}
use tcp_hw.Backend.{kept}
use tcp_hw.Pcap.{read_pcap_record, pkthdr_size}
use tcp_hw.FileIo.{FileIo, get_buf_fr_io}

-- Calls of `get_buf_fr_io`, before each of which the file has come to have other contents, and the
-- packets that they return. Each call finds its own stale memory.
unfoldable pub polls : List (Bytes × Bytes) → FileIo → Option (List Bytes × FileIo)
polls [] io = some ([], io)
polls ((stale, content) ∷ later) io = do
  (out, io') ←
      get_buf_fr_io stale (record io { recv_file = record io.recv_file { content = content } })
  (outs, io'') ← polls later io'
  some (kept out outs, io'')

-- A call that finds nothing to read meets the end of the file.
read_nothing :
    (stale : Bytes) (io : FileIo)
    → unread io.recv_file ≡ []
    → (io' : FileIo) × (get_buf_fr_io stale io ≡ some ([], io')) × (io'.recv_file.at_end ≡ true)
unfolding get_buf_fr_io read_pcap_record fread
read_nothing stale io e =
    let f : File = io.recv_file in
    let got : (fread pkthdr_size f).0 ≡ [] = rw e in
    let met : (fread pkthdr_size f).1.at_end ≡ true = rw e (ground arith) in
    (record io { recv_file = (fread pkthdr_size f).1 }, rw got refl, met)

polls_met :
    (later : List (Bytes × Bytes)) (io : FileIo)
    → io.recv_file.at_end ≡ true
    → (io' : FileIo) × (polls later io ≡ some ([], io'))
unfolding polls
polls_met [] io e = (io, refl)
polls_met ((stale, content) ∷ later) io e =
    let (io1, got, met) =
      read_nothing stale (record io { recv_file = record io.recv_file { content = content } })
        (rw e refl) in
    let (io2, rest) = polls_met later io1 met in (io2, rw (got, rest) refl)

-- After one call of `get_buf_fr_io` that finds nothing to read, no call returns a packet, whatever
-- the other program writes to the file before each of them; and no call faults.
pub polled_deaf :
    (stale : Bytes) (io : FileIo) (later : List (Bytes × Bytes))
    → unread io.recv_file ≡ []
    → (io' : FileIo) × (io'' : FileIo) × (get_buf_fr_io stale io ≡ some ([], io'))
      × (polls later io' ≡ some ([], io''))
polled_deaf stale io later e =
    let (io1, got, met) = read_nothing stale io e in
    let (io2, rest) = polls_met later io1 met in (io1, io2, got, rest)
