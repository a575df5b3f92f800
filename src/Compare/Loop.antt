-- ===== src/Compare/Loop.antt =====
-- `PcapTestingLib::compare_bufs` of sim_dpi/pcap_trace_testing_lib.cpp as it is written, with a
-- loop over a 32-bit index.
use tcp_hw.Base.{
  ℕ, zero, suc, ◌+◌, ◌^◌, ◌<◌, ◌≡◌, refl, arith, Option, some, none, List, [], ◌∷◌, Bytes, length,
  drop, get_elem?_of_drop, load8, u32, ltb, lt→ltb, le→ltb, ==_iff, ◌==◌, if◌then◌else◌, ◌>>=◌,
  Bool-cases, inl, inr,
}
use tcp_hw.Compare.{Difference, Verdict, different_size, differences, compare_from, compare_bufs}

-- The loop from index `i` on, in at most `n` rounds. A read outside a buffer is a fault, and so is
-- a loop that has not ended by then.
unfoldable pub compare_loop : ℕ → ℕ → Bytes → Bytes → Option (List Difference)
compare_loop zero i ref_buf recved_buf = if ltb i (length ref_buf) then none else some []
compare_loop (suc n) i ref_buf recved_buf =
    let round = (do
      a ← load8 ref_buf i
      b ← load8 recved_buf i
      rest ← compare_loop n (u32 (i + 1)) ref_buf recved_buf
      some (if a == b then rest else record { at = i; expected = a; got = b } ∷ rest)) in
    if ltb i (length ref_buf) then round else some []

unfoldable pub compare_by_index : ℕ → Bytes → Bytes → Option Verdict
compare_by_index n ref_buf recved_buf =
    let loop = (do ds ← compare_loop n 0 ref_buf recved_buf; some (differences ds)) in
    if length ref_buf == length recved_buf
    then loop
    else some (different_size (length ref_buf) (length recved_buf))

-- What is left of the buffers from `i` on is `xs` and `ys`.
compare_loop_lem :
    (n i : ℕ) (ref recved xs ys : Bytes)
    → drop i ref ≡ xs
    → drop i recved ≡ ys
    → i + length xs ≡ length ref
    → i + length ys ≡ length ref
    → length ref < 2 ^ 32
    → length xs < suc n
    → compare_loop n i ref recved ≡ some (compare_from i xs ys)
unfolding compare_loop compare_from load8
compare_loop_lem zero i ref recved [] [] p q ex ey small fuel =
    rw (le→ltb i (length ref) (omega (arith, ex))) refl
compare_loop_lem (suc n) i ref recved [] [] p q ex ey small fuel =
    rw (le→ltb i (length ref) (omega (arith, ex))) refl
compare_loop_lem n i ref recved [] (y ∷ ys) p q ex ey small fuel = absurd (omega (arith, ex, ey))
compare_loop_lem n i ref recved (x ∷ xs) [] p q ex ey small fuel = absurd (omega (arith, ex, ey))
compare_loop_lem zero i ref recved (x ∷ xs) (y ∷ ys) p q ex ey small fuel = absurd (omega arith)
compare_loop_lem (suc n) i ref recved (x ∷ xs) (y ∷ ys) p q ex ey small fuel =
    let (at, dx) = get_elem?_of_drop ref i p in
    let (bt, dy) = get_elem?_of_drop recved i q in
    let next : u32 (i + 1) ≡ suc i = omega (arith, ex, small) in
    let later =
      compare_loop_lem n (suc i) ref recved xs ys dx dy (omega (arith, ex)) (omega (arith, ey))
        small (omega (arith, fuel)) in
    elim (Bool-cases (x == y)) [
      | inl e ↦ rw (lt→ltb i (length ref) (omega (arith, ex)), at, bt, next, later, e) refl
      | inr e ↦ rw (lt→ltb i (length ref) (omega (arith, ex)), at, bt, next, later, e) refl
    ]

-- Let the packet from the trace have less than 2^32 bytes. Then the comparison by indices ends
-- after as many rounds as that packet has bytes, with no read outside the buffers and no overflow
-- of the index, and its verdict is that of the comparison byte by byte from the front.
pub compare_by_index_lem :
    (ref recved : Bytes)
    → length ref < 2 ^ 32
    → compare_by_index (length ref) ref recved ≡ some (compare_bufs ref recved)
unfolding compare_by_index compare_bufs
compare_by_index_lem ref recved small = elim (Bool-cases (length ref == length recved)) [
  | inr e ↦ rw e refl
  | inl e ↦
      let same : length ref ≡ length recved = (==_iff (length ref) (length recved)).0 e in
      rw
        (
          e,
          compare_loop_lem (length ref) 0 ref recved ref recved refl refl (omega arith)
              (omega (arith, same)) small (omega arith),
        )
        refl
]
