-- ===== src/PcapTrace/Examples.antt =====
-- A trace of a packet in each direction.
use tcp_hw.Base.{◌≡◌, refl, arith, false, none, some, List, [], ◌∷◌, ◌++◌, Bytes}
use tcp_hw.Stdio.{File}
use tcp_hw.Pcap.{file_header}
use tcp_hw.PcapTrace.{PcapTrace, new_pcap, get_buf_fr_io, put_buf_on_io}
use tcp_hw.PcapTrace.Run.{Event, get, put, run, pair, empty, run_ends}
use tcp_hw.Compare.{compare_bufs}
use tcp_hw.PcapTrace.Fill.{Entry, records, Split, new_pcap_lem}

abbrev mac : Bytes
mac = 1 ∷ 2 ∷ 3 ∷ 4 ∷ 5 ∷ 6 ∷ []

abbrev trace : List Entry
trace =
    record { sec = 0; usec = 1; packet = 1 ∷ 2 ∷ 3 ∷ 4 ∷ 5 ∷ 6 ∷ 7 ∷ [] }
    ∷ record { sec = 2; usec = 3; packet = 6 ∷ 5 ∷ 4 ∷ 3 ∷ 2 ∷ 1 ∷ [] }
    ∷ []

abbrev file : File
file = record { content = file_header ++ records trace; pos = 0; at_end = false }

new_pcap_example :
    (sends : List Bytes) × (recvs : List Bytes) × (new_pcap (λ n. []) mac 3 [] file
      ≡ some (record { send_pkts = sends; recv_pkts = recvs; deleted = false }, false))
    × Split mac trace sends recvs
new_pcap_example =
    new_pcap_lem (λ n. []) mac (omega arith) trace 3 [] file refl
      ((omega arith, omega arith), ((omega arith, omega arith), tt)) (omega arith)

abbrev loaded : PcapTrace
loaded = record {
  send_pkts = (1 ∷ 2 ∷ []) ∷ [];
  recv_pkts = (3 ∷ 4 ∷ 5 ∷ []) ∷ (6 ∷ []) ∷ [];
  deleted = false;
}

-- The second packet differs in its byte.
abbrev calls : List Event
calls = get ∷ put (3 ∷ 4 ∷ 5 ∷ []) ∷ get ∷ []

run_ends_example :
    (t' : PcapTrace) × (run (calls ++ (put (7 ∷ []) ∷ [])) loaded
      ≡ some (
        (1 ∷ 2 ∷ []) ∷ [] ∷ [],
        compare_bufs (3 ∷ 4 ∷ 5 ∷ []) (3 ∷ 4 ∷ 5 ∷ []) ∷ compare_bufs (6 ∷ []) (7 ∷ []) ∷ [],
        t',
      ))
    × (t'.recv_pkts ≡ [])
    × (t'.send_pkts ≡ [])
    × (get_buf_fr_io t' ≡ none)
    × ((pkt : Bytes) → put_buf_on_io pkt t' ≡ none)
run_ends_example = run_ends calls (7 ∷ []) loaded refl (pair refl (pair refl empty))
