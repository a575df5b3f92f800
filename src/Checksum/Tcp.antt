-- ===== src/Checksum/Tcp.antt =====
-- `add_tcp_checksum` of sim_dpi/testing_utils.cpp: the segment that it leaves passes the check of
-- RFC 793.
use tcp_hw.Base.{
  ℕ, ◌+◌, ◌/◌, ◌%◌, ◌≤◌, ◌<◌, ◌≡◌, ◌∙◌, refl, sym, ap, subst, arith, some, ◌∷◌, ◌++◌, Bytes, All,
  All-append, All-split, IsByte, length, length-append, length-take, length-drop, take, drop,
  take-length_append, drop-length_append, take-append-drop, drop-drop, get_elem?-drop, bytes16, leb,
  le→leb, memcpy, true,
}
use tcp_hw.Checksum.{csum, fold_sum, store16, pseudo_header, tcp_header_len, add_tcp_checksum}
use tcp_hw.Checksum.Sum.{
  words, csum-words, words-append, words-le, max_sum, fold_sum-lt, fold_sum_verifies,
}
use mathlib.Core.List.{append_assoc}

pub take-append : (n : ℕ) (xs ys : Bytes) → length xs ≡ n → take n (xs ++ ys) ≡ xs
take-append n xs ys e = subst (λ k. take k (xs ++ ys) ≡ xs) e (take-length_append xs ys)

pub drop-append : (n : ℕ) (xs ys : Bytes) → length xs ≡ n → drop n (xs ++ ys) ≡ ys
drop-append n xs ys e = subst (λ k. drop k (xs ++ ys) ≡ ys) e (drop-length_append xs ys)

-- A store over two bytes behind a prefix.
pub store16_lem :
    (front : Bytes) (off x y : ℕ) (rest : Bytes) (w : ℕ)
    → length front ≡ off
    → store16 (front ++ (x ∷ y ∷ rest)) off w ≡ some (front ++ (bytes16 w ++ rest))
unfolding store16
store16_lem front off x y rest w e =
    let fits : leb (off + 2) (length (front ++ (x ∷ y ∷ rest))) ≡ true =
      le→leb (off + 2) (length (front ++ (x ∷ y ∷ rest)))
        (omega (arith, length-append front (x ∷ y ∷ rest))) in
    let behind : drop (off + 2) (front ++ (x ∷ y ∷ rest)) ≡ rest =
      sym (drop-drop 2 off (front ++ (x ∷ y ∷ rest)))
      ∙ ap (drop 2) (drop-append off front (x ∷ y ∷ rest) e) in
    rw (fits, behind, take-append off front (x ∷ y ∷ rest) e)

-- Storing the checksum of a buffer that has zeros there adds it to the sum.
stored_sum :
    (header front rest : Bytes) (w : ℕ)
    → length header ≡ 12
    → length front ≡ 16
    → w < 65536
    → words (header ++ (front ++ (bytes16 w ++ rest)))
      ≡ words (header ++ (front ++ (0 ∷ 0 ∷ rest))) + w
stored_sum header front rest w eh ef hw = omega (
  arith,
  words-append 6 header (front ++ (bytes16 w ++ rest)) (omega arith),
  words-append 6 header (front ++ (0 ∷ 0 ∷ rest)) (omega arith),
  words-append 8 front (bytes16 w ++ rest) (omega arith),
  words-append 8 front (0 ∷ 0 ∷ rest) (omega arith),
)

-- The checksum of a buffer in which the field was zero makes the buffer's own checksum zero.
pub stored_verifies :
    (header front rest : Bytes)
    → length header ≡ 12
    → length front ≡ 16
    → length rest ≤ 65535
    → All IsByte (header ++ (front ++ (0 ∷ 0 ∷ rest)))
    → csum
        (header
          ++ (front ++ (bytes16 (fold_sum (words (header ++ (front ++ (0 ∷ 0 ∷ rest))))) ++ rest)))
        (30 + length rest)
      ≡ some 0
stored_verifies header front rest eh ef hr hb =
    let before : Bytes = header ++ (front ++ (0 ∷ 0 ∷ rest)) in
    let after : Bytes = header ++ (front ++ (bytes16 (fold_sum (words before)) ++ rest)) in
    let size : length after ≡ 30 + length rest = omega (
      arith,
      length-append header (front ++ (bytes16 (fold_sum (words before)) ++ rest)),
      length-append front (bytes16 (fold_sum (words before)) ++ rest),
    ) in
    let bound : words before < max_sum = omega (
      arith,
      words-le before hb,
      length-append header (front ++ (0 ∷ 0 ∷ rest)),
      length-append front (0 ∷ 0 ∷ rest),
    ) in
    subst (λ n. csum after n ≡ some 0) size
      (csum-words after
        ∙ ap some (
            ap fold_sum (
              stored_sum header front rest (fold_sum (words before)) eh ef
                (fold_sum-lt (words before)))
            ∙ fold_sum_verifies (words before) bound))

pub pseudo_header_lem :
    (src dst n : ℕ) → (length (pseudo_header src dst n) ≡ 12) × All IsByte (pseudo_header src dst n)
unfolding pseudo_header
pseudo_header_lem src dst n = (refl, omega arith)

-- The copy of the first `n` bytes.
copy_front : (bs behind : Bytes) (n : ℕ) → length bs ≡ n → memcpy (bs ++ behind) 0 n ≡ some bs
unfolding memcpy
copy_front bs behind n e =
    let fits : leb (0 + n) (length (bs ++ behind)) ≡ true =
      le→leb (0 + n) (length (bs ++ behind)) (omega (arith, length-append bs behind)) in
    rw (fits, take-append n bs behind e)

-- A buffer with at least two bytes behind its first 16.
split16 :
    (seg : Bytes) (n : ℕ)
    → 18 ≤ n
    → n ≤ length seg
    → (front : Bytes) × (x : ℕ) × (y : ℕ) × (rest : Bytes) × (behind : Bytes) × (seg
        ≡ (front ++ (x ∷ y ∷ rest)) ++ behind)
      × (length front ≡ 16)
      × (18 + length rest ≡ n)
split16 seg n lo hi =
    let size : length (take n seg) ≡ n = omega (arith, length-take n seg) in
    let (x, _, ex) = get_elem?-drop (take n seg) 16 (omega arith) in
    let (y, _, ey) = get_elem?-drop (take n seg) 17 (omega arith) in
    let parts : take 16 (take n seg) ++ (x ∷ y ∷ drop 18 (take n seg)) ≡ take n seg =
      ap (λ t. take 16 (take n seg) ++ t) (sym (ex ∙ ap (λ t. x ∷ t) ey))
      ∙ take-append-drop 16 (take n seg) in
    (
      take 16 (take n seg),
      x,
      y,
      drop 18 (take n seg),
      drop n seg,
      sym (take-append-drop n seg) ∙ ap (λ t. t ++ drop n seg) (sym parts),
      omega (arith, length-take 16 (take n seg)),
      omega (arith, length-drop 18 (take n seg)),
    )

-- `add_tcp_checksum` on a segment that is split at the field `check` and behind the payload.
add_split :
    (front : Bytes) (x y : ℕ) (rest behind : Bytes) (header_len payload_len src dst : ℕ)
    → tcp_header_len ((front ++ (x ∷ y ∷ rest)) ++ behind) ≡ some header_len
    → length front ≡ 16
    → 18 + length rest ≡ header_len + payload_len
    → add_tcp_checksum ((front ++ (x ∷ y ∷ rest)) ++ behind) payload_len src dst
      ≡ some (
          (front
            ++ (bytes16 (
                  fold_sum (
                    words (
                      pseudo_header src dst (header_len + payload_len)
                      ++ (front ++ (0 ∷ 0 ∷ rest)))))
                ++ rest))
          ++ behind)
unfolding add_tcp_checksum
add_split front x y rest behind header_len payload_len src dst eh ef en =
    let header : Bytes = pseudo_header src dst (header_len + payload_len) in
    let sum : ℕ = words (header ++ (front ++ (0 ∷ 0 ∷ rest))) in
    let size : length (header ++ (front ++ (0 ∷ 0 ∷ rest))) ≡ 12 + (header_len + payload_len) =
      omega (
        arith,
        length-append header (front ++ (0 ∷ 0 ∷ rest)),
        length-append front (0 ∷ 0 ∷ rest),
        (pseudo_header_lem src dst (header_len + payload_len)).0,
      ) in
    let checksum : csum (header ++ (front ++ (0 ∷ 0 ∷ rest))) (12 + (header_len + payload_len))
        ≡ some (fold_sum sum) =
      subst (λ n. csum (header ++ (front ++ (0 ∷ 0 ∷ rest))) n ≡ some (fold_sum sum)) size
        (csum-words (header ++ (front ++ (0 ∷ 0 ∷ rest)))) in
    let copied : memcpy ((front ++ (x ∷ y ∷ rest)) ++ behind) 0 (header_len + payload_len)
        ≡ some (front ++ (x ∷ y ∷ rest)) =
      copy_front (front ++ (x ∷ y ∷ rest)) behind (header_len + payload_len)
        (omega (arith, length-append front (x ∷ y ∷ rest))) in
    let stored : store16 ((front ++ (x ∷ y ∷ rest)) ++ behind) 16 (fold_sum sum)
        ≡ some ((front ++ (bytes16 (fold_sum sum) ++ rest)) ++ behind) =
      ap (λ bs. store16 bs 16 (fold_sum sum)) (append_assoc front (x ∷ y ∷ rest) behind)
      ∙ store16_lem front 16 x y (rest ++ behind) (fold_sum sum) ef
      ∙ ap some (sym (append_assoc front (bytes16 (fold_sum sum) ++ rest) behind)) in
    rw (eh, copied, store16_lem front 16 x y rest 0 ef, checksum, stored)

-- What `add_tcp_checksum` does to a segment.
abbrev AddsChecksum : Bytes → ℕ → ℕ → ℕ → ℕ → Type 0
AddsChecksum tcp_segment header_len payload_len src dst =
    (out : Bytes) × (add_tcp_checksum tcp_segment payload_len src dst ≡ some out)
    × (length out ≡ length tcp_segment)
    × (take 16 out ≡ take 16 tcp_segment)
    × (drop 18 out ≡ drop 18 tcp_segment)
    × (csum
          (pseudo_header src dst (header_len + payload_len) ++ take (header_len + payload_len) out)
          (12 + (header_len + payload_len))
        ≡ some 0)

-- The parts of a buffer around two bytes behind its first 16.
parts16 :
    (front : Bytes) (x y : ℕ) (rest behind : Bytes)
    → length front ≡ 16
    → let bs = (front ++ (x ∷ y ∷ rest)) ++ behind in
      (length bs ≡ 18 + length rest + length behind)
      × (take 16 bs ≡ front)
      × (drop 18 bs ≡ rest ++ behind)
parts16 front x y rest behind e =
    let whole : (front ++ (x ∷ y ∷ rest)) ++ behind ≡ front ++ (x ∷ y ∷ (rest ++ behind)) =
      append_assoc front (x ∷ y ∷ rest) behind in
    (
      omega (
        arith,
        length-append (front ++ (x ∷ y ∷ rest)) behind,
        length-append front (x ∷ y ∷ rest),
      ),
      ap (take 16) whole ∙ take-append 16 front (x ∷ y ∷ (rest ++ behind)) e,
      ap (drop 18) whole
          ∙ sym (drop-drop 2 16 (front ++ (x ∷ y ∷ (rest ++ behind))))
          ∙ ap (drop 2) (drop-append 16 front (x ∷ y ∷ (rest ++ behind)) e),
    )

adds_split :
    (front : Bytes) (x y : ℕ) (rest behind : Bytes) (header_len payload_len src dst : ℕ)
    → All IsByte ((front ++ (x ∷ y ∷ rest)) ++ behind)
    → tcp_header_len ((front ++ (x ∷ y ∷ rest)) ++ behind) ≡ some header_len
    → length front ≡ 16
    → 18 + length rest ≡ header_len + payload_len
    → header_len + payload_len ≤ 65535
    → AddsChecksum ((front ++ (x ∷ y ∷ rest)) ++ behind) header_len payload_len src dst
adds_split front x y rest behind header_len payload_len src dst hb eh ef en top =
    let header : Bytes = pseudo_header src dst (header_len + payload_len) in
    let c : ℕ = fold_sum (words (header ++ (front ++ (0 ∷ 0 ∷ rest)))) in
    let out : Bytes = (front ++ (bytes16 c ++ rest)) ++ behind in
    let (eh12, hh) = pseudo_header_lem src dst (header_len + payload_len) in
    let (hf, (_, (_, hr))) =
      All-split IsByte front (x ∷ y ∷ rest)
        (All-split IsByte (front ++ (x ∷ y ∷ rest)) behind hb).0 in
    let (l1, t1, d1) = parts16 front x y rest behind ef in
    let (l2, t2, d2) = parts16 front (c % 256) (c / 256 % 256) rest behind ef in
    let inside : length (front ++ (bytes16 c ++ rest)) ≡ header_len + payload_len =
      omega (arith, length-append front (bytes16 c ++ rest)) in
    let total : 30 + length rest ≡ 12 + (header_len + payload_len) = omega arith in
    let verified : csum (header ++ (front ++ (bytes16 c ++ rest))) (30 + length rest) ≡ some 0 =
      stored_verifies header front rest eh12 ef (omega arith) (
        All-append IsByte header (front ++ (0 ∷ 0 ∷ rest)) hh
          (All-append IsByte front (0 ∷ 0 ∷ rest) hf (omega arith, (omega arith, hr)))) in
    (
      out,
      add_split front x y rest behind header_len payload_len src dst eh ef en,
      l2 ∙ sym l1,
      t2 ∙ sym t1,
      d2 ∙ sym d1,
      ap (λ bs. csum (header ++ bs) (12 + (header_len + payload_len)))
            (take-append (header_len + payload_len) (front ++ (bytes16 c ++ rest)) behind inside)
          ∙ subst (λ n. csum (header ++ (front ++ (bytes16 c ++ rest))) n ≡ some 0) total verified,
    )

-- With a checksum field inside a segment of at most 65535 bytes that the buffer holds,
-- `add_tcp_checksum` writes into no byte but the two of the field, and the ones' complement sum
-- over the pseudo header and the segment comes out as 0, which is how a receiver checks it.
pub add_tcp_checksum_lem :
    (tcp_segment : Bytes) (header_len payload_len src dst : ℕ)
    → All IsByte tcp_segment
    → tcp_header_len tcp_segment ≡ some header_len
    → 18 ≤ header_len + payload_len
    → header_len + payload_len ≤ length tcp_segment
    → header_len + payload_len ≤ 65535
    → (out : Bytes) × (add_tcp_checksum tcp_segment payload_len src dst ≡ some out)
      × (length out ≡ length tcp_segment)
      × (take 16 out ≡ take 16 tcp_segment)
      × (drop 18 out ≡ drop 18 tcp_segment)
      × (csum
            (pseudo_header src dst (header_len + payload_len)
              ++ take (header_len + payload_len) out)
            (12 + (header_len + payload_len))
          ≡ some 0)
add_tcp_checksum_lem tcp_segment header_len payload_len src dst hb eh lo hi top =
    let (front, x, y, rest, behind, e, ef, en) =
      split16 tcp_segment (header_len + payload_len) lo hi in
    subst (λ seg. AddsChecksum seg header_len payload_len src dst) (sym e)
      (adds_split front x y rest behind header_len payload_len src dst (subst (All IsByte) e hb)
        (subst (λ seg. tcp_header_len seg ≡ some header_len) e eh) ef en top)
