-- ===== src/Compare.antt =====
-- `compare_bufs`, which sim_dpi/tcp_pcap_trace_testing_lib.cpp and pcap_trace_testing_lib.cpp
-- share: the verdict on a packet from the hardware. A verdict stands for what is printed.
pub mod Reports
pub mod Loop
mod Examples
use tcp_hw.Base.{ℕ, suc, Bool, true, false, List, [], ◌∷◌, Bytes, length, ◌==◌, if◌then◌else◌}

-- "recved pkt different at byte ..."
pub record Difference : Type 0 where
  pub at : ℕ
  pub expected : ℕ
  pub got : ℕ

pub data Verdict : Type 0 where
  different_size : ℕ → ℕ → Verdict
  differences : List Difference → Verdict

-- The loop from index `i` on, over what is left of two buffers of one size.
unfoldable pub compare_from : ℕ → Bytes → Bytes → List Difference
compare_from i [] recved = []
compare_from i (a ∷ ref) [] = []
compare_from i (a ∷ ref) (b ∷ recved) =
    let rest = compare_from (suc i) ref recved in
    if a == b then rest else record { at = i; expected = a; got = b } ∷ rest

unfoldable pub compare_bufs : Bytes → Bytes → Verdict
unfolding compare_from
compare_bufs ref_buf recved_buf =
    if length ref_buf == length recved_buf
    then differences (compare_from 0 ref_buf recved_buf)
    else different_size (length ref_buf) (length recved_buf)

-- Buffers of different sizes end the simulation: `finish_simulation` deletes the backend.
unfoldable pub finishes : Verdict → Bool
finishes (different_size m n) = true
finishes (differences ds) = false
