-- ===== src/Pcap.antt =====
-- sim_dpi/pcap_helpers.cpp and pcap_helpers.h: reading and writing pcap files.
-- Messages on stdout are left out. What a function reads of its uninitialised locals is an
-- argument, `stale`.
pub mod Record
pub mod Header
mod Examples
use tcp_hw.Base.{
  ℕ, ◌+◌, ◌%◌, Bool, true, false, Option, some, List, [], ◌∷◌, ◌++◌, Bytes, length, drop, leb, ◌==◌,
  if◌then◌else◌, ◌>>=◌, ◌>>◌, require, load32, bytes16, bytes32, u32,
}
use tcp_hw.Stdio.{File, fread, fread_item, fwrite}

-- The sizes of the fields of `struct pcap_file_header`, in the order in which they are read.
abbrev pub file_header_fields : List ℕ
file_header_fields = 4 ∷ 2 ∷ 2 ∷ 4 ∷ 4 ∷ 4 ∷ 4 ∷ []

-- One `fread` for each field. The first that comes short makes the function return -1 (`false`).
unfoldable pub consume_fields : List ℕ → File → Bool × File
consume_fields [] f = (true, f)
consume_fields (size ∷ sizes) f =
    let (read, f') = fread_item size f in
    let rest = consume_fields sizes f' in if read then rest else (false, f')

-- `consumePCAPHeader`: whether it returns 0.
unfoldable pub consume_pcap_header : File → Bool × File
consume_pcap_header f = consume_fields file_header_fields f

-- `struct pcap_file_header`. The field `thiszone` is signed; it is only ever written as 0.
record FileHeader : Type 0 where
  magic_number : ℕ
  version_major : ℕ
  version_minor : ℕ
  thiszone : ℕ
  sigfigs : ℕ
  snaplen : ℕ
  network : ℕ

-- The bytes that are written, field by field.
abbrev header_bytes : FileHeader → Bytes
header_bytes h =
    bytes32 h.magic_number
    ++ (bytes16 h.version_major
        ++ (bytes16 h.version_minor
            ++ (bytes32 h.thiszone
                ++ (bytes32 h.sigfigs ++ (bytes32 h.snaplen ++ bytes32 h.network)))))

-- The header that `writePCAPHeader` fills in.
abbrev pub file_header : Bytes
file_header = header_bytes (record {
  magic_number = 0xa1b2_c3d4;
  version_major = 2;
  version_minor = 4;
  thiszone = 0;
  sigfigs = 0;
  snaplen = 65535;
  network = 1;
})

unfoldable pub write_pcap_header : File → File
unfolding fwrite
write_pcap_header f = fwrite file_header f

-- `sizeof(struct pcap_pkthdr)`
abbrev pub pkthdr_size : ℕ
pkthdr_size = 16

-- `read_pcap_record` with a buffer of `room` bytes: what it puts at the front of the buffer, whose
-- length it returns. After a short read of the packet header the rest of that struct is stale.
-- A packet that does not fit the buffer is written past its end.
unfoldable pub read_pcap_record : Bytes → ℕ → File → Option (Bytes × File)
read_pcap_record stale room f =
    let (hdr, f') = fread pkthdr_size f in
    if length hdr == 0 then some ([], f') else do
      len ← load32 (hdr ++ drop (length hdr) stale) 12
      let (packet, f'') = fread len f'
      require (leb (length packet) room)
      some (packet, f'')

-- `struct pcap_pkthdr` as it lies in memory.
record Pkthdr : Type 0 where
  ts_sec : ℕ
  ts_usec : ℕ
  caplen : ℕ
  len : ℕ

abbrev pkthdr_bytes : Pkthdr → Bytes
pkthdr_bytes h = bytes32 h.ts_sec ++ (bytes32 h.ts_usec ++ (bytes32 h.caplen ++ bytes32 h.len))

-- What `write_pcap_record` writes at the time `sec`, `usec` (of `gettimeofday`).
abbrev pub record_bytes : ℕ → ℕ → Bytes → Bytes
record_bytes sec usec packet =
    pkthdr_bytes (record {
      ts_sec = u32 sec;
      ts_usec = u32 usec;
      caplen = u32 (length packet);
      len = u32 (length packet);
    })
    ++ packet

-- The second component is the number of bytes that it returns.
unfoldable pub write_pcap_record : ℕ → ℕ → Bytes → File → File × ℕ
unfolding fwrite
write_pcap_record sec usec packet f = (fwrite (record_bytes sec usec packet) f, length packet)
