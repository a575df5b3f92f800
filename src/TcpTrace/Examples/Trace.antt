-- ===== src/TcpTrace/Examples/Trace.antt =====
-- A trace of three packets in one flow, read to its end.
use tcp_hw.Base.{
  Bool-cases, inl, inr, All, ◌≡◌, refl, arith, true, false, some, List, [], ◌∷◌, ◌++◌, Bytes, ℕ,
  Bool, load8, load16, load32,
}
use tcp_hw.Stdio.{File}
use tcp_hw.Pcap.{file_header}
use tcp_hw.Frame.{flow_eq, same_mac_from, send_packet, ip_hdr_len, FlowTuple, lookup_tuple, parse}
use tcp_hw.TcpTrace.{TcpTrace, new_trace, packet_key}
use tcp_hw.TcpTrace.Rest.{Log, packets, of_flow, fetch_rest}
use tcp_hw.TcpTrace.Queues.{expects}
use tcp_hw.TcpTrace.Reading.{Labelled, Fits, records, to_hardware, from_hardware, fetch}
use tcp_hw.TcpTrace.Whole.{Calm, whole_trace}
use tcp_hw.TcpTrace.Passes.{Own}
use tcp_hw.TcpTrace.Examples.{hw_mac, to_hw, from_hw, memory, key, keys, keys-Visits}

abbrev pub labelled : Bytes → Bool → Labelled
labelled packet send = record { sec = 1; usec = 2; packet = packet; send = send; key = key }

abbrev pub trace : List Labelled
trace = labelled (to_hw 2) true ∷ labelled (from_hw 18) false ∷ labelled (to_hw 16) true ∷ []

abbrev pub trace_file : File
trace_file = record { content = file_header ++ records trace; pos = 0; at_end = false }

pub stale_length : (i : ℕ) → ip_hdr_len memory.frame ≡ some 20
unfolding ip_hdr_len load8
stale_length i = refl

pub to_hw-Fits :
    Fits 20 hw_mac (labelled (to_hw 2) true) × Fits 20 hw_mac (labelled (to_hw 16) true)
unfolding packet_key send_packet same_mac_from lookup_tuple parse ip_hdr_len load8 load16 load32
to_hw-Fits = (((_, refl), omega arith, refl), ((_, refl), omega arith, refl))

pub from_hw-Fits : Fits 20 hw_mac (labelled (from_hw 18) false)
unfolding packet_key send_packet same_mac_from lookup_tuple parse ip_hdr_len load8 load16 load32
from_hw-Fits = ((_, refl), omega arith, refl)

whole_trace_example :
    (first : Log) × (t : TcpTrace) × (second : Log) × (t' : TcpTrace) × ((new_trace trace_file
        hw_mac).1
      ≡ false)
    × (fetch keys (λ i. memory) 3 (new_trace trace_file hw_mac).0 ≡ some (packets first, t))
    × (fetch_rest keys (λ i. memory) 4 t ≡ some (packets second, t'))
    × ((k : FlowTuple) → of_flow k first ++ of_flow k second ≡ to_hardware k trace)
    × ((k : FlowTuple) → expects k t'.tcp_flows ≡ from_hardware k trace)
    × Calm t'.tcp_flows
    × (t'.deleted ≡ false)
    × (t'.source_mac_addr ≡ hw_mac)
whole_trace_example =
    whole_trace keys (λ i. memory) (λ i. memory) 20 trace_file hw_mac trace keys-Visits stale_length
      (λ i. omega arith) (to_hw-Fits.0, (from_hw-Fits, (to_hw-Fits.1, tt))) refl

-- The hardware sends the packet that the trace expects.
abbrev pub answers : Log
answers = (key, from_hw 18) ∷ []

pub answers-Own : All (Own hw_mac) answers
unfolding packet_key send_packet same_mac_from lookup_tuple ip_hdr_len load8 load16 load32
answers-Own = ((20, refl, refl), tt)

pub all_sent : (k : FlowTuple) → from_hardware k trace ≡ of_flow k answers ++ []
all_sent k = elim (Bool-cases (flow_eq key k)) [ inl b ↦ rw b refl | inr b ↦ rw b refl ]
