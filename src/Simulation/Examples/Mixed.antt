-- ===== src/Simulation/Examples/Mixed.antt =====
-- The hardware answers before the trace has been read to its end, over the network side.
use tcp_hw.Base.{◌≡◌, refl, false, some, List, [], ◌++◌, map, replicate}
use tcp_hw.Frame.{FlowTuple}
use tcp_hw.Mimic.Matching.History.{references, receiveds}
use tcp_hw.TcpTrace.{new_trace}
use tcp_hw.TcpTrace.Drain.{queue}
use tcp_hw.TcpTrace.Rest.{Log, packets, of_flow}
use tcp_hw.TcpTrace.Queues.{expects, unmatched}
use tcp_hw.TcpTrace.Reading.{to_hardware, from_hardware}
use tcp_hw.TcpTrace.Interleaved.{Compared, in_flow, play}
use tcp_hw.Mimic.Matching.Fifo.{pairs}
use tcp_hw.TcpTrace.Interleaved.Expected.{asked, answers, opening, due}
use tcp_hw.TcpTrace.Examples.{keys, memory}
use tcp_hw.TcpTrace.Examples.Trace.{trace_file}
use tcp_hw.TcpTrace.Examples.Orders.{events, same_size, events-Suits, events-Causal}
use tcp_hw.Network.{NetworkSide, Beat, init_network_side_state}
use tcp_hw.Network.Lift.{Call, calls}
use tcp_hw.Network.Stream.{Stream, claimed}
use tcp_hw.Simulation.{Running, SimBackend, pcap_trace}
use tcp_hw.Simulation.Choice.{own_mac}
use tcp_hw.Simulation.Mixed.{Mixes, Sends, silent, waits, sends}
use tcp_hw.Simulation.Interleaved.{end_to_end_mixed}
use tcp_hw.Simulation.Examples.{empty_file, state, globals}
use tcp_hw.Simulation.Examples.Whole.{
  begun, pointer, packet_beats, packet-BeatsOf, to_hw-IsIp, from_hw-IsIp,
}
use tcp_hw.TcpTrace.{TcpTrace}

abbrev beats : List Beat
beats = packet_beats ++ (packet_beats ++ [])

events-Sends : Sends events beats
events-Sends = waits (sends packet-BeatsOf (waits (sends packet-BeatsOf (waits silent))))

end_to_end_mixed_example :
    (script : List Call) × (driven : List Beat) × (log : Log) × (cs : Compared) × (end : NetworkSide
      SimBackend)
    × (r : Running TcpTrace) × (begun.1 ≡ false)
    × Mixes (λ i. replicate 32 0) 0 events beats script
    × (calls pointer script begun.0 ≡ some (driven, end))
    × Stream driven (map claimed (packets log))
    × (end.backend ≡ pcap_trace r)
    × (play keys events (new_trace trace_file (own_mac state globals)).0
        ≡ some (packets log, cs, r.object))
    × (r.object.deleted ≡ false)
    × ((k : FlowTuple) → of_flow k log ≡ opening k (asked events))
    × ((k : FlowTuple) → of_flow k log ++ queue k r.object.tcp_flows ≡ to_hardware k (asked events))
    × ((k : FlowTuple) → in_flow k cs ≡ pairs (due k events) (of_flow k (answers events)))
    × ((k : FlowTuple)
        → references (in_flow k cs) ++ expects k r.object.tcp_flows
          ≡ from_hardware k (asked events))
    × ((k : FlowTuple)
        → receiveds (in_flow k cs) ++ unmatched k r.object.tcp_flows ≡ of_flow k (answers events))
unfolding init_network_side_state
end_to_end_mixed_example =
    end_to_end_mixed keys (λ n. memory) (λ n. []) (λ n. (n, 0)) (λ i. replicate 32 0) 20 empty_file
      empty_file trace_file state globals events [] beats (λ i. refl) refl refl events-Suits
      (to_hw-IsIp.0, (from_hw-IsIp, (to_hw-IsIp.1, tt))) (refl, (refl, (refl, tt))) events-Causal
      same_size events-Sends
