-- ===== src/Headers/Fill.antt =====
-- `fill_ip_header`: the checksum that it leaves.
use tcp_hw.Base.{
  ℕ, ◌+◌, ◌≤◌, ◌<◌, ◌≡◌, ◌∙◌, refl, sym, ap, subst, arith, some, ◌∷◌, ◌++◌, Bytes, All, All-append,
  All-split, IsByte, length, length-append, take, drop, take-append-drop, memcpy, memcpy-some,
  bytes16, take-all, drop-all, append-nil, [],
}
use tcp_hw.Checksum.{csum, fold_sum}
use tcp_hw.Checksum.Sum.{words, words-le, max_sum, csum_front, fold_sum-lt, fold_sum_verifies}
use tcp_hw.Checksum.Tcp.{store16_lem, take-append, drop-append}
use tcp_hw.Headers.{filled_ip, fill_ip_header}

-- The header with the checksum `w`.
abbrev header : ℕ → ℕ → Bytes → Bytes
header payload_len w addresses = filled_ip payload_len ++ (bytes16 w ++ addresses)

stored_sum :
    (payload_len w : ℕ) (addresses : Bytes)
    → w < 65536
    → words (header payload_len w addresses) ≡ words (header payload_len 0 addresses) + w
stored_sum payload_len w addresses h = omega arith

header-IsByte :
    (payload_len : ℕ) (addresses : Bytes)
    → All IsByte addresses
    → All IsByte (header payload_len 0 addresses)
header-IsByte payload_len addresses h =
    All-append IsByte (filled_ip payload_len) (0 ∷ 0 ∷ addresses) (omega arith)
      (omega arith, (omega arith, h))

-- The header that `fill_ip_header` leaves in a buffer of at least 20 bytes passes the check of a
-- receiver: its ones' complement sum comes out as 0. The addresses, and what is behind the header,
-- are as they were.
pub fill_ip_header_lem :
    (ip_header : Bytes) (payload_len : ℕ)
    → All IsByte ip_header
    → 20 ≤ length ip_header
    → (out : Bytes) × (fill_ip_header ip_header payload_len ≡ some out)
      × (csum out 20 ≡ some 0)
      × (memcpy out 12 8 ≡ memcpy ip_header 12 8)
      × (drop 20 out ≡ drop 20 ip_header)
unfolding fill_ip_header
fill_ip_header_lem ip_header payload_len hb long =
    let addresses : Bytes = take 8 (drop 12 ip_header) in
    let behind : Bytes = drop 20 ip_header in
    let (copied, size) = memcpy-some ip_header 12 8 (omega arith) in
    let before : Bytes = header payload_len 0 addresses in
    let c : ℕ = fold_sum (words before) in
    let after : Bytes = header payload_len c addresses in
    let tail_bytes : All IsByte (drop 12 ip_header) =
      (All-split IsByte (take 12 ip_header) (drop 12 ip_header)
        (subst (All IsByte) (sym (take-append-drop 12 ip_header)) hb)).1 in
    let address_bytes : All IsByte addresses =
      (All-split IsByte addresses (drop 8 (drop 12 ip_header))
        (subst (All IsByte) (sym (take-append-drop 8 (drop 12 ip_header))) tail_bytes)).0 in
    let bound : words before < max_sum =
      omega (arith, words-le before (header-IsByte payload_len addresses address_bytes), size) in
    let full : length before ≡ 20 = omega (arith, size) in
    let filled : length after ≡ 20 = omega (arith, size) in
    let checksum : csum (before ++ behind) 20 ≡ some c =
      subst (λ n. csum (before ++ behind) n ≡ some c) full (csum_front before behind) in
    let verified : csum (after ++ behind) 20 ≡ some 0 =
      subst (λ n. csum (after ++ behind) n ≡ some 0) filled
        (csum_front after behind
          ∙ ap some (
              ap fold_sum (stored_sum payload_len c addresses (fold_sum-lt (words before)))
              ∙ fold_sum_verifies (words before) bound)) in
    let (again, _) =
      memcpy-some (after ++ behind) 12 8 (omega (arith, length-append addresses behind, size)) in
    (
      after ++ behind,
      rw (copied, checksum)
          (store16_lem (filled_ip payload_len) 10 0 0 (addresses ++ behind) c refl),
      verified,
      again ∙ ap some (take-append 8 addresses behind size) ∙ sym copied,
      drop-append 8 addresses behind size,
    )

-- The bytes that it leaves in a header of 20 bytes.
pub fill_ip_form :
    (front addresses : Bytes) (payload_len : ℕ)
    → length front ≡ 12
    → length addresses ≡ 8
    → (sum : ℕ) × (fill_ip_header (front ++ addresses) payload_len
        ≡ some (filled_ip payload_len ++ (bytes16 sum ++ addresses)))
unfolding fill_ip_header
fill_ip_form front addresses payload_len h1 h2 =
    let before : Bytes = header payload_len 0 addresses in
    let size : length (front ++ addresses) ≡ 20 = omega (arith, length-append front addresses) in
    let behind : drop 12 (front ++ addresses) ≡ addresses = drop-append 12 front addresses h1 in
    let (copied, _) = memcpy-some (front ++ addresses) 12 8 (omega (arith, size)) in
    let taken : take 8 (drop 12 (front ++ addresses)) ≡ addresses =
      rw behind (take-all 8 addresses (omega (arith, h2))) in
    let nothing : drop 20 (front ++ addresses) ≡ [] =
      drop-all 20 (front ++ addresses) (omega (arith, size)) in
    let full : length before ≡ 20 = omega (arith, h2) in
    let sum : ℕ = fold_sum (words before) in
    let checksum : csum (before ++ []) 20 ≡ some sum =
      subst (λ n. csum (before ++ []) n ≡ some sum) full (csum_front before []) in
    (
      sum,
      rw (copied, taken, nothing, checksum)
          (store16_lem (filled_ip payload_len) 10 0 0 (addresses ++ []) sum refl
            ∙ ap (λ (t : Bytes). some (filled_ip payload_len ++ (bytes16 sum ++ t)))
                (append-nil addresses)),
    )
