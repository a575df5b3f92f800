-- ===== src/Headers/FillTcp.antt =====
-- `fill_tcp_header`: the header reads back as the fields that were asked for, and its checksum
-- holds.
use tcp_hw.Base.{
  ℕ, ◌≤◌, ◌≡◌, refl, ap, subst, arith, some, [], ◌∷◌, ◌++◌, Bytes, All, All-append, IsByte, length,
  length-append, take, drop, bytes16, htons, htonl, htons-lt, htonl-lt, le→leb, load8, load16,
  load32,
}
use tcp_hw.Checksum.{csum, fold_sum, pseudo_header}
use tcp_hw.Checksum.Sum.{words, csum-words}
use tcp_hw.Checksum.Tcp.{store16_lem, stored_verifies, pseudo_header_lem}
use tcp_hw.Headers.{SockAddr, filled_tcp, fill_tcp_header}

module _ (source dest : SockAddr) (seq_num ack_num syn ack : ℕ) where
  abbrev front : Bytes
  front = filled_tcp source dest seq_num ack_num syn ack

  abbrev pseudo : Bytes
  pseudo = pseudo_header source.s_addr dest.s_addr 20

  whole-IsByte : All IsByte (pseudo ++ (front ++ (0 ∷ 0 ∷ 0 ∷ 0 ∷ [])))
  whole-IsByte =
      All-append IsByte pseudo (front ++ (0 ∷ 0 ∷ 0 ∷ 0 ∷ []))
        (pseudo_header_lem source.s_addr dest.s_addr 20).1 (omega arith)

  filled_checksum :
      csum (pseudo ++ (front ++ (0 ∷ 0 ∷ 0 ∷ 0 ∷ []))) 32
      ≡ some (fold_sum (words (pseudo ++ (front ++ (0 ∷ 0 ∷ 0 ∷ 0 ∷ [])))))
  filled_checksum =
      let size : length (pseudo ++ (front ++ (0 ∷ 0 ∷ 0 ∷ 0 ∷ []))) ≡ 32 = omega (
        arith,
        length-append pseudo (front ++ (0 ∷ 0 ∷ 0 ∷ 0 ∷ [])),
        (pseudo_header_lem source.s_addr dest.s_addr 20).0,
      ) in
      subst
        (λ n.
          csum (pseudo ++ (front ++ (0 ∷ 0 ∷ 0 ∷ 0 ∷ []))) n
          ≡ some (fold_sum (words (pseudo ++ (front ++ (0 ∷ 0 ∷ 0 ∷ 0 ∷ []))))))
        size (csum-words (pseudo ++ (front ++ (0 ∷ 0 ∷ 0 ∷ 0 ∷ []))))

-- The checksum that it stores.
abbrev pub checksum_of : SockAddr → SockAddr → ℕ → ℕ → ℕ → ℕ → ℕ
checksum_of source dest seq_num ack_num syn ack = fold_sum (
    words (
      pseudo_header source.s_addr dest.s_addr 20
      ++ (filled_tcp source dest seq_num ack_num syn ack ++ (0 ∷ 0 ∷ 0 ∷ 0 ∷ []))))

-- The bytes that it leaves.
pub fill_tcp_form :
    (memory : Bytes) (source dest : SockAddr) (seq_num ack_num syn ack : ℕ)
    → 20 ≤ length memory
    → fill_tcp_header memory source dest seq_num ack_num syn ack
      ≡ some (
          filled_tcp source dest seq_num ack_num syn ack
          ++ (bytes16 (checksum_of source dest seq_num ack_num syn ack)
              ++ (0 ∷ 0 ∷ drop 20 memory)))
unfolding fill_tcp_header
fill_tcp_form memory source dest seq_num ack_num syn ack long =
    rw (le→leb 20 (length memory) long, filled_checksum source dest seq_num ack_num syn ack)
      (store16_lem (front source dest seq_num ack_num syn ack) 16 0 0 (0 ∷ 0 ∷ drop 20 memory)
        (checksum_of source dest seq_num ack_num syn ack) refl)

-- What `fill_tcp_header` leaves in a buffer of at least 20 bytes has the two ports, the sequence
-- number and the acknowledgement in network order, says that the header has 20 bytes, and, with the
-- pseudo header of a segment without payload, sums up to 0 as a receiver checks it. What is behind
-- the header is as it was.
pub fill_tcp_header_lem :
    (memory : Bytes) (source dest : SockAddr) (seq_num ack_num syn ack : ℕ)
    → 20 ≤ length memory
    → (out : Bytes) × (fill_tcp_header memory source dest seq_num ack_num syn ack ≡ some out)
      × (load16 out 0 ≡ some (htons source.sin_port))
      × (load16 out 2 ≡ some (htons dest.sin_port))
      × (load32 out 4 ≡ some (htonl seq_num))
      × (load32 out 8 ≡ some (htonl ack_num))
      × (load8 out 12 ≡ some 0x50)
      × (csum (pseudo_header source.s_addr dest.s_addr 20 ++ take 20 out) 32 ≡ some 0)
      × (drop 20 out ≡ drop 20 memory)
unfolding load8 load16 load32
fill_tcp_header_lem memory source dest seq_num ack_num syn ack long = (
  front source dest seq_num ack_num syn ack
      ++ (bytes16 (checksum_of source dest seq_num ack_num syn ack) ++ (0 ∷ 0 ∷ drop 20 memory)),
  fill_tcp_form memory source dest seq_num ack_num syn ack long,
  ap some (omega (arith, htons-lt source.sin_port)),
  ap some (omega (arith, htons-lt dest.sin_port)),
  ap some (omega (arith, htonl-lt seq_num)),
  ap some (omega (arith, htonl-lt ack_num)),
  refl,
  stored_verifies (pseudo source dest seq_num ack_num syn ack)
      (front source dest seq_num ack_num syn ack) (0 ∷ 0 ∷ [])
      (pseudo_header_lem source.s_addr dest.s_addr 20).0 refl (omega arith)
      (whole-IsByte source dest seq_num ack_num syn ack),
  refl,
)
