-- ===== src/Pcap/Record.antt =====
-- `read_pcap_record` on what `write_pcap_record` wrote, and on a file that ends early.
use tcp_hw.Base.{
  ℕ, ◌^◌, ◌≤◌, ◌<◌, ◌≡◌, refl, arith, some, none, [], ◌++◌, Bytes, length, take, drop, load32,
  load8, load32-some, take-all, drop-all, length-append, length-drop, pos→==_false, u32,
  word32-bytes32, le→leb, lt→leb, ◌∙◌, ◌+◌, ap,
}
use tcp_hw.Stdio.{
  File, unread, fread, fread-got, unread-fread, fread-got_append, unread-fread_append,
  content-fread, pos-fread_append, at_end-fread_append,
}
use tcp_hw.Pcap.{read_pcap_record, record_bytes}

module _ (stale : Bytes) (room sec usec : ℕ) (packet rest : Bytes) (f : File)
    (e : unread f ≡ record_bytes sec usec packet ++ rest) where
  abbrev header : Bytes
  header = take 16 (record_bytes sec usec packet)

  abbrev behind : File
  behind = (fread 16 f).1

  opened : unread f ≡ header ++ (packet ++ rest)
  opened = e

  after : unread behind ≡ packet ++ rest
  after = unread-fread_append f header (packet ++ rest) opened

  -- A record of `write_pcap_record` at the front of the unread bytes, whose packet fits the buffer
  -- and whose length fits its field, is read whole, whatever the stale memory holds, and no
  -- further; the position moves on by its length, and the end of the file is not noticed.
  pub read-whole :
      length packet < 2 ^ 32
      → length packet ≤ room
      → (f' : File) × (read_pcap_record stale room f ≡ some (packet, f'))
        × (unread f' ≡ rest)
        × (f'.content ≡ f.content)
        × (f'.pos ≡ f.pos + length (record_bytes sec usec packet))
        × (f'.at_end ≡ f.at_end)
  unfolding read_pcap_record load32 load8
  read-whole fits roomy =
      let got : (fread 16 f).0 ≡ header = fread-got_append f header (packet ++ rest) opened in
      let second : (fread (length packet) behind).0 ≡ packet =
        fread-got_append behind packet rest after in
      let len : u32 (length packet) ≡ length packet = omega arith in
      (
        (fread (length packet) behind).1,
        rw (got, word32-bytes32, len, second, le→leb _ _ roomy) refl,
        unread-fread_append behind packet rest after,
        content-fread (length packet) behind ∙ content-fread 16 f,
        pos-fread_append behind packet rest after
            ∙ ap (λ n. n + length packet) (pos-fread_append f header (packet ++ rest) opened)
            ∙ omega arith,
        at_end-fread_append behind packet rest after
            ∙ at_end-fread_append f header (packet ++ rest) opened,
      )

-- A record of `write_pcap_record` at the front of the unread bytes, whose packet fits the buffer
-- and whose length fits its field, is read whole, whatever the stale memory holds, and no further.
pub read-record :
    (stale : Bytes) (room sec usec : ℕ) (packet rest : Bytes) (f : File)
    → unread f ≡ record_bytes sec usec packet ++ rest
    → length packet < 2 ^ 32
    → length packet ≤ room
    → (f' : File) × (read_pcap_record stale room f ≡ some (packet, f')) × (unread f' ≡ rest)
read-record stale room sec usec packet rest f e fits roomy =
    let (f', read, left, _, _, _) = read-whole stale room sec usec packet rest f e fits roomy in
    (f', read, left)

-- The return value says how much was read. It is 0 at the end of the file.
pub read-end :
    (stale : Bytes) (room : ℕ) (f : File)
    → unread f ≡ []
    → (f' : File) × (read_pcap_record stale room f ≡ some ([], f')) × (unread f' ≡ [])
unfolding read_pcap_record
read-end stale room f e =
    let got : (fread 16 f).0 ≡ [] = fread-got 16 f ∙ rw e in
    ((fread 16 f).1, rw got, unread-fread 16 f ∙ rw e)

-- A packet header cut short by the end of the file counts as the end, whatever the stale memory
-- holds: no bytes are left for the packet.
read-cut_header :
    (stale : Bytes) (room : ℕ) (f : File)
    → 0 < length (unread f)
    → length (unread f) < 16
    → 16 ≤ length stale
    → (f' : File) × (read_pcap_record stale room f ≡ some ([], f')) × (unread f' ≡ [])
unfolding read_pcap_record
read-cut_header stale room f some_left short full =
    let header : Bytes = unread f in
    let got : (fread 16 f).0 ≡ header = fread-got 16 f ∙ take-all 16 header (omega arith) in
    let after : unread (fread 16 f).1 ≡ [] = unread-fread 16 f ∙ drop-all 16 header (omega arith) in
    let (len, loaded) = load32-some (header ++ drop (length header) stale) 12 (
      omega (
        arith,
        length-append header (drop (length header) stale),
        length-drop (length header) stale,
      )) in
    let second : (fread len (fread 16 f).1).0 ≡ [] =
      fread-got len (fread 16 f).1 ∙ rw after (take-all len [] (omega arith)) in
    let f' : File = (fread len (fread 16 f).1).1 in
    (
      f',
      rw (got, pos→==_false _ some_left, loaded, second, le→leb 0 room (omega arith)) refl,
      unread-fread len (fread 16 f).1 ∙ rw after (drop-all len [] (omega arith)),
    )

-- Reading a record of `write_pcap_record` has no defined behaviour where its packet does not fit
-- the buffer.
pub read-too_long :
    (stale : Bytes) (room sec usec : ℕ) (packet rest : Bytes) (f : File)
    → unread f ≡ record_bytes sec usec packet ++ rest
    → length packet < 2 ^ 32
    → room < length packet
    → read_pcap_record stale room f ≡ none
unfolding read_pcap_record load32 load8
read-too_long stale room sec usec packet rest f e fits long =
    let header : Bytes = take 16 (record_bytes sec usec packet) in
    let opened : unread f ≡ header ++ (packet ++ rest) = e in
    let got : (fread 16 f).0 ≡ header = fread-got_append f header (packet ++ rest) opened in
    let after : unread (fread 16 f).1 ≡ packet ++ rest =
      unread-fread_append f header (packet ++ rest) opened in
    let second : (fread (length packet) (fread 16 f).1).0 ≡ packet =
      fread-got_append (fread 16 f).1 packet rest after in
    let len : u32 (length packet) ≡ length packet = omega arith in
    rw (got, word32-bytes32, len, second, lt→leb _ _ long) refl
