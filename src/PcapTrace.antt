-- ===== src/PcapTrace.antt =====
-- `PcapTestingLib` of sim_dpi/pcap_trace_testing_lib.cpp and .hpp: the backend that reads a whole
-- trace at the start, replays the packets for the hardware, and checks those from it in order.
pub mod Fill
pub mod Run
mod Examples
use tcp_hw.Base.{
  ℕ, zero, suc, Bool, true, false, not, Option, none, some, List, [], ◌∷◌, ◌++◌, Bytes, length,
  drop, ltb, if◌then◌else◌, ◌>>=◌, ◌>>◌, require,
}
use tcp_hw.Stdio.{File}
use tcp_hw.Pcap.{read_pcap_record, consume_pcap_header}
use tcp_hw.Frame.{send_packet}
use tcp_hw.Compare.{Verdict, compare_bufs, finishes}

pub record PcapTrace : Type 0 where
  pub send_pkts : List Bytes
  pub recv_pkts : List Bytes
  pub deleted : Bool

abbrev pub push_back : Bool → Bytes → PcapTrace → PcapTrace
push_back true pkt t = record t { send_pkts = t.send_pkts ++ (pkt ∷ []) }
push_back false pkt t = record t { recv_pkts = t.recv_pkts ++ (pkt ∷ []) }

-- `sizeof(buffer)`
abbrev pub buffer_size : ℕ
buffer_size = 2048

module _ (stale : ℕ → Bytes) (mac : Bytes) where
  -- The loop, with one unit of fuel for each call of `read_pcap_record`, which finds stale memory
  -- in its header. The buffer keeps the bytes of longer packets behind a shorter one.
  unfoldable pub fill_pkt_vectors : ℕ → Bytes → File → PcapTrace → Option PcapTrace
  fill_pkt_vectors zero buffer f t = none
  fill_pkt_vectors (suc n) buffer f t = do
    (pkt, f') ← read_pcap_record (stale n) buffer_size f
    let more = (do
      send ← send_packet (pkt ++ drop (length pkt) buffer) mac
      fill_pkt_vectors n (pkt ++ drop (length pkt) buffer) f' (push_back send pkt t))
    if ltb 0 (length pkt) then more else some t

  -- The constructor, with the file that `fopen` returned, and whether it calls `finish_simulation`,
  -- which finds no backend to delete yet.
  unfoldable pub new_pcap : ℕ → Bytes → File → Option (PcapTrace × Bool)
  new_pcap n buffer pcap_file =
      let (whole, f) = consume_pcap_header pcap_file in
      (do
        t ← fill_pkt_vectors n buffer f (record { send_pkts = []; recv_pkts = []; deleted = false })
        some (t, not whole))

unfoldable pub get_buf_fr_io : PcapTrace → Option (Bytes × PcapTrace)
get_buf_fr_io t = do
  require (not t.deleted)
  elim t.send_pkts [ [] ↦ some ([], t) | pkt ∷ pkts ↦ some (pkt, record t { send_pkts = pkts }) ]

abbrev none_left : List Bytes → Bool
none_left [] = true
none_left (p ∷ ps) = false

-- The verdict, if a packet was expected, the state, and the size that is returned. The number of
-- packets left is printed from the backend, which different sizes have deleted. The last expected
-- packet ends the simulation.
unfoldable pub put_buf_on_io : Bytes → PcapTrace → Option (Option Verdict × PcapTrace × ℕ)
put_buf_on_io pkt_buf t = do
  require (not t.deleted)
  elim t.recv_pkts [
    | [] ↦ some (none, t, length pkt_buf)
    | ref_pkt ∷ refs ↦ do
      require (not (finishes (compare_bufs ref_pkt pkt_buf)))
      some (
        some (compare_bufs ref_pkt pkt_buf),
        record t { recv_pkts = refs; deleted = none_left refs },
        length pkt_buf,
      )
  ]

unfoldable pub get_packets_to_send : PcapTrace → ℕ
get_packets_to_send t = length t.send_pkts

unfoldable pub get_packets_to_recv : PcapTrace → ℕ
get_packets_to_recv t = length t.recv_pkts
