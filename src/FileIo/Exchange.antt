-- ===== src/FileIo/Exchange.antt =====
-- Two programs with this backend, each of which reads the file that the other writes.
use tcp_hw.Base.{
  ℕ, zero, suc, drop-all, ◌+◌, ◌≤◌, ◌≡◌, ◌∙◌, refl, sym, ap, arith, some, [], ◌∷◌, ◌++◌, Bytes,
  length, drop, append-nil, false, length-append,
}
use tcp_hw.Stdio.{unread, fwrite}
use tcp_hw.Pcap.{record_bytes, write_pcap_record}
use tcp_hw.Pcap.Record.{read-whole}
use tcp_hw.FileIo.{FileIo, get_buf_fr_io, put_buf_on_io, buffer_size}

drop-append : (n : ℕ) (xs ys : Bytes) → n ≤ length xs → drop n (xs ++ ys) ≡ drop n xs ++ ys
drop-append zero xs ys h = refl
drop-append (suc n) [] ys h = absurd (omega arith)
drop-append (suc n) (x ∷ xs) ys h = drop-append n xs ys (omega arith)

-- The file of `writer` grows, and a reader with the position of `reader` sees that.
abbrev pub sees : FileIo → FileIo → FileIo
sees writer reader = record reader {
  recv_file = record reader.recv_file { content = writer.send_file.content };
}

-- A reader that has read all of the file that the other program writes, and has not met its end.
pub record CaughtUp (writer reader : FileIo) : Type 0 where
  pub same_file : reader.recv_file.content ≡ writer.send_file.content
  pub at_last : reader.recv_file.pos ≡ length reader.recv_file.content
  pub not_met : reader.recv_file.at_end ≡ false

-- Let a reader have read all of the file to which a writer appends, with no call that found
-- nothing. If the writer puts a packet of at most 2048 bytes, its call returns the length of the
-- packet, the reader's next call of `get_buf_fr_io` returns the packet, and then the reader has
-- again read all of the file with no call that found nothing.
pub put-get :
    (sec usec : ℕ) (stale packet : Bytes) (writer reader : FileIo)
    → CaughtUp writer reader
    → length packet ≤ buffer_size
    → (writer' : FileIo) × (reader' : FileIo) × (put_buf_on_io sec usec packet writer
        ≡ some (length packet, writer'))
      × (get_buf_fr_io stale (sees writer' reader) ≡ some (packet, reader'))
      × CaughtUp writer' reader'
unfolding put_buf_on_io get_buf_fr_io write_pcap_record fwrite
put-get sec usec stale packet writer reader caught fits =
    let bytes : Bytes = record_bytes sec usec packet in
    let old : Bytes = writer.send_file.content in
    let at_last : reader.recv_file.pos ≡ length old = caught.at_last ∙ ap length caught.same_file in
    let writer' : FileIo = record writer {
      send_file = record {
        content = old ++ bytes;
        pos = length old + length bytes;
        at_end = writer.send_file.at_end;
      };
    } in
    let new_bytes : drop reader.recv_file.pos (old ++ bytes) ≡ bytes ++ [] =
      drop-append reader.recv_file.pos old bytes (omega (arith, at_last))
      ∙ ap (λ (t : Bytes). t ++ bytes) (drop-all reader.recv_file.pos old (omega (arith, at_last)))
      ∙ sym (append-nil bytes) in
    let opened : unread (sees writer' reader).recv_file ≡ bytes ++ [] =
      rw (caught.not_met, new_bytes) refl in
    let (f, r, _, content, pos, at_end) =
      read-whole stale buffer_size sec usec packet [] (sees writer' reader).recv_file opened
        (omega arith) fits in
    (
      writer',
      record (sees writer' reader) { recv_file = f },
      refl,
      rw r refl,
      record {
        same_file = content;
        at_last =
            pos
            ∙ ap (λ (n : ℕ). n + length bytes) at_last
            ∙ sym (length-append old bytes)
            ∙ ap length (sym content);
        not_met = at_end ∙ caught.not_met;
      },
    )
