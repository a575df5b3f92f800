-- ===== src/Pcap/Header.antt =====
-- `consumePCAPHeader`: when it succeeds, and what it leaves to be read.
use tcp_hw.Base.{
  ℕ, ◌+◌, ◌≤◌, ◌≡◌, ◌∙◌, refl, arith, true, false, List, [], ◌∷◌, ◌++◌, Bytes, length, drop, leb,
  le→leb, lt→leb, length-take, length-drop, drop-drop, drop-all, sym, ap, ◌-◌, ◌↔◌,
}
use tcp_hw.Stdio.{File, unread, fread_item, fread-got, unread-fread}
use tcp_hw.Pcap.{file_header_fields, file_header, consume_fields, consume_pcap_header}
use native.Mathlib.Decide.{dec_le}

unread-item : (size : ℕ) (f : File) → unread (fread_item size f).1 ≡ drop size (unread f)
unfolding fread_item
unread-item size f = unread-fread size f

item-read : (size : ℕ) (f : File) → (fread_item size f).0 ≡ leb size (length (unread f))
unfolding fread_item
item-read size f = rw (fread-got size f, length-take) (ground arith)

leb-same : (a b c d : ℕ) → (a ≤ b) ↔ (c ≤ d) → leb a b ≡ leb c d
leb-same a b c d h = ground arith

abbrev total : List ℕ → ℕ
total [] = 0
total (size ∷ sizes) = size + total sizes

-- Reading stops behind the fields, or at the end of the file.
fields_lem :
    (sizes : List ℕ) (f : File)
    → ((consume_fields sizes f).0 ≡ leb (total sizes) (length (unread f)))
      × (unread (consume_fields sizes f).1 ≡ drop (total sizes) (unread f))
unfolding consume_fields
fields_lem [] f = (sym (le→leb 0 (length (unread f)) (omega arith)), refl)
fields_lem (size ∷ sizes) f =
    let f' : File = (fread_item size f).1 in
    let (read, left) = fields_lem sizes f' in
    let moved : unread f' ≡ drop size (unread f) = unread-item size f in
    let shorter : length (unread f') ≡ length (unread f) - size =
      omega (arith, ap length moved, length-drop size (unread f)) in
    elim (dec_le size (length (unread f))) [
      | yes h ↦
          let here : (fread_item size f).0 ≡ true = item-read size f ∙ le→leb size _ h in
          (
            rw here (
                read
                ∙ leb-same (total sizes) (length (unread f')) (size + total sizes)
                    (length (unread f)) (omega (arith, shorter))),
            rw here
                (left ∙ ap (drop (total sizes)) moved ∙ drop-drop (total sizes) size (unread f)),
          )
      | no h ↦
          let here : (fread_item size f).0 ≡ false =
            item-read size f ∙ lt→leb size _ (omega arith) in
          (
            rw here (sym (lt→leb (size + total sizes) (length (unread f)) (omega arith))),
            rw here (
                moved
                ∙ drop-all size (unread f) (omega arith)
                ∙ sym (drop-all (size + total sizes) (unread f) (omega arith))),
          )
    ]

-- `consumePCAPHeader` returns 0 exactly when 24 bytes are left. It looks at none of their values,
-- and leaves what is behind them, or the end of the file.
consume_header_lem :
    (f : File)
    → ((consume_pcap_header f).0 ≡ leb 24 (length (unread f)))
      × (unread (consume_pcap_header f).1 ≡ drop 24 (unread f))
unfolding consume_pcap_header
consume_header_lem f = fields_lem file_header_fields f

-- Where `writePCAPHeader` wrote the next bytes, `consumePCAPHeader` returns 0 and reads exactly
-- them.
pub consume-write_header :
    (f : File) (rest : Bytes)
    → unread f ≡ file_header ++ rest
    → ((consume_pcap_header f).0 ≡ true) × (unread (consume_pcap_header f).1 ≡ rest)
consume-write_header f rest e =
    let (read, left) = consume_header_lem f in
    let long : 24 ≤ length (unread f) = rw e (omega arith) in
    (read ∙ rw (le→leb 24 _ long), left ∙ rw e)
