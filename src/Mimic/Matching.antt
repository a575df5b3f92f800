-- ===== src/Mimic/Matching.antt =====
-- The part of `TCPPcapTestingLib::put_buf_on_io` that works on one flow: packets from the hardware
-- are matched with the packets of the trace that the hardware is expected to send.
pub mod Fifo
pub mod History
use tcp_hw.Base.{
  ℕ, zero, suc, Bool, true, false, not, Option, none, some, List, [], ◌∷◌, ◌++◌, Bytes, length,
  ◌&&◌, if◌then◌else◌, ◌>>=◌, ◌>>◌, require,
}
use tcp_hw.Compare.{compare_bufs, finishes}
use tcp_hw.Mimic.{
  TcpMimic, pkts_recved_empty, get_pkts_recved_front, put_pkts_recved_back, pkts_to_recv_empty,
  get_pkts_to_recv_front,
}

-- A call of `compare_bufs`; what it prints is its verdict on the two.
pub record Comparison : Type 0 where
  pub reference : Bytes
  pub received : Bytes

-- The body of the `while` loop. The test of the loop reads the flow after it, so a comparison that
-- deletes the backend makes that a fault.
unfoldable pub match_one : TcpMimic → Option (Comparison × TcpMimic)
match_one m = do
  (ref_pkt, m1) ← get_pkts_to_recv_front m
  (test_pkt, m2) ← get_pkts_recved_front m1
  require (not (finishes (compare_bufs ref_pkt test_pkt)))
  some (record { reference = ref_pkt; received = test_pkt }, m2)

-- The loop; `none` is a fault or the end of the fuel.
unfoldable pub match_loop : ℕ → TcpMimic → Option (List Comparison × TcpMimic)
match_loop zero m = none
match_loop (suc fuel) m =
    let round = (do (c, m') ← match_one m; (cs, m'') ← match_loop fuel m'; some (c ∷ cs, m'')) in
    if not (pkts_to_recv_empty m) && not (pkts_recved_empty m) then round else some ([], m)

-- The comparisons made, the flow, and whether the last comparison deleted the backend.
unfoldable pub receive : Bytes → TcpMimic → Option (List Comparison × TcpMimic × Bool)
receive pkt_buf m = do
  (cs, m') ← match_loop (suc (length m.pkts_to_recv)) m
  let last = do
    (ref_pkt, m'') ← get_pkts_to_recv_front m'
    some (
      cs ++ (record { reference = ref_pkt; received = pkt_buf } ∷ []),
      m'',
      finishes (compare_bufs ref_pkt pkt_buf),
    )
  if pkts_to_recv_empty m' then some (cs, put_pkts_recved_back pkt_buf m', false) else last
