-- ===== src/Checksum/Sum.antt =====
-- The ones' complement sum that `csum` computes (RFC 1071), and its folding.
use tcp_hw.Base.{
  some-injective, ℕ, zero, suc, ◌+◌, ◌*◌, ◌%◌, ◌≤◌, ◌<◌, ◌≡◌, ◌↔◌, ◌∙◌, refl, sym, ap, arith, some,
  [], ◌∷◌, ◌++◌, Bytes, All, IsByte, length, word16,
}
use tcp_hw.Checksum.{csum_loop, csum, fold_sum}

-- The sum of the little-endian words of a buffer; an odd byte at the end is the low one of a word.
abbrev pub words : Bytes → ℕ
words [] = 0
words (a ∷ []) = a
words (a ∷ b ∷ bs) = word16 a b + words bs

-- The loop over a whole buffer.
pub csum_loop-words : (bs : Bytes) (sum : ℕ) → csum_loop bs (length bs) sum ≡ some (sum + words bs)
unfolding csum_loop
csum_loop-words [] sum = ap some (omega arith)
csum_loop-words (a ∷ []) sum = refl
csum_loop-words (a ∷ b ∷ bs) sum = csum_loop-words bs (sum + word16 a b) ∙ ap some (omega arith)

-- And over the front of a longer buffer.
pub csum_loop_front :
    (bs behind : Bytes) (sum : ℕ) → csum_loop (bs ++ behind) (length bs) sum ≡ some (sum + words bs)
unfolding csum_loop
csum_loop_front [] behind sum = ap some (omega arith)
csum_loop_front (a ∷ []) [] sum = refl
csum_loop_front (a ∷ []) (b ∷ behind) sum = refl
csum_loop_front (a ∷ b ∷ bs) behind sum =
    csum_loop_front bs behind (sum + word16 a b) ∙ ap some (omega arith)

pub csum_front : (bs behind : Bytes) → csum (bs ++ behind) (length bs) ≡ some (fold_sum (words bs))
unfolding csum
csum_front bs behind =
    rw (csum_loop_front bs behind 0) (ap (λ (k : ℕ). some (fold_sum k)) (omega arith))

pub csum-words : (bs : Bytes) → csum bs (length bs) ≡ some (fold_sum (words bs))
unfolding csum
csum-words bs = rw (csum_loop-words bs 0) (ap (λ (k : ℕ). some (fold_sum k)) (omega arith))

-- A word is at most 65535.
pub words-le : (bs : Bytes) → All IsByte bs → 2 * words bs ≤ 65535 * (length bs + 1)
words-le [] h = omega arith
words-le (a ∷ []) (ha, h) = omega arith
words-le (a ∷ b ∷ bs) (ha, (hb, h)) = omega (arith, words-le bs h)

-- Behind a prefix of even length the words are those of the rest.
pub words-append :
    (k : ℕ) (xs ys : Bytes) → length xs ≡ 2 * k → words (xs ++ ys) ≡ words xs + words ys
words-append k [] ys h = omega arith
words-append k (a ∷ []) ys h = absurd (omega arith)
words-append zero (a ∷ b ∷ xs) ys h = absurd (omega arith)
words-append (suc k) (a ∷ b ∷ xs) ys h = omega (arith, words-append k xs ys (omega arith))

-- Two additions of the carry are enough below this bound: the sum of some 128 KB.
abbrev pub max_sum : ℕ
max_sum = 65535 * 65536

-- The result as an unsigned 16-bit number.
pub fold_sum-lt : (sum : ℕ) → fold_sum sum < 65536
unfolding fold_sum
fold_sum-lt sum = omega arith

-- The checksum is 0 exactly for the sums that are a positive multiple of 65535, the zeros of ones'
-- complement arithmetic.
pub fold_sum-zero_iff :
    (sum : ℕ) → sum < max_sum → (fold_sum sum ≡ 0) ↔ ((0 < sum) × (sum % 65535 ≡ 0))
unfolding fold_sum
fold_sum-zero_iff sum h = (λ e. omega arith, λ (pos, e). omega arith)

-- A sum to which its checksum is added has the checksum 0.
pub fold_sum_verifies : (sum : ℕ) → sum < max_sum → fold_sum (sum + fold_sum sum) ≡ 0
unfolding fold_sum
fold_sum_verifies sum h = omega arith

-- The checksum of a buffer of at most 131070 bytes is 0 exactly when the sum of its words is a
-- positive multiple of 65535, that is, zero in ones' complement arithmetic, and not all bytes are
-- zero.
pub csum-zero_iff :
    (bs : Bytes)
    → All IsByte bs
    → length bs ≤ 131070
    → (csum bs (length bs) ≡ some 0) ↔ ((0 < words bs) × (words bs % 65535 ≡ 0))
csum-zero_iff bs hb h =
    let iff = fold_sum-zero_iff (words bs) (omega (arith, words-le bs hb)) in
    (λ e. iff.0 (some-injective (sym (csum-words bs) ∙ e)), λ z. csum-words bs ∙ ap some (iff.1 z))
