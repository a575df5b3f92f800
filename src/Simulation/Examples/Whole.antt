-- ===== src/Simulation/Examples/Whole.antt =====
-- A trace of three packets, replayed over the network side, with the hardware's answer.
use tcp_hw.Base.{
  ℕ, ◌≡◌, refl, arith, Bool, true, false, some, List, [], ◌∷◌, ◌++◌, map, take, drop, replicate,
  load8, load16, htons,
}
use tcp_hw.Backend.{DpiTestingLib}
use tcp_hw.Frame.{FlowTuple}
use tcp_hw.Network.{NetworkSide, Beat, no_beat, init_network_side_state}
use tcp_hw.Network.Loopback.{BeatsOf, more, final}
use tcp_hw.Network.Lift.{calls}
use tcp_hw.Network.Stream.{Stream, over, pause, carry, IsIp, claimed, gets}
use tcp_hw.Network.Send.{puts}
use tcp_hw.TcpTrace.{TcpTrace}
use tcp_hw.TcpTrace.Rest.{Log, packets, of_flow}
use tcp_hw.TcpTrace.Queues.{expects}
use tcp_hw.TcpTrace.Reading.{to_hardware}
use tcp_hw.TcpTrace.Passes.{check_all, perfect}
use tcp_hw.TcpTrace.Examples.{to_hw, from_hw, keys, keys-Visits, memory}
use tcp_hw.TcpTrace.Examples.Trace.{
  trace, trace_file, answers, stale_length, to_hw-Fits, from_hw-Fits, answers-Own, all_sent,
}
use tcp_hw.Simulation.{
  Running, SimBackend, pcap_trace, pcap_trace_code, init_simulation, sim_backend,
}
use tcp_hw.Simulation.EndToEnd.{end_to_end}
use tcp_hw.Simulation.Examples.{empty_file, state, globals}
use mathlib.Core.List.{reverse}

abbrev pub packet_beats : List Beat
packet_beats =
    record { val = true; bytes = reverse (take 32 (from_hw 18)); last = false; padbytes = 0 }
    ∷ record {
      val = true;
      bytes = replicate 10 0 ++ reverse (drop 32 (from_hw 18));
      last = true;
      padbytes = 10;
    }
    ∷ []

pub packet-BeatsOf : BeatsOf (from_hw 18) packet_beats
packet-BeatsOf =
    more (record { val = refl; pad = refl; bytes = refl; last = refl }) (omega arith)
      (final (record { val = refl; pad = refl; bytes = refl; last = refl }) (omega arith))

-- The beats of the answer, with one that is not valid behind them.
abbrev answer_beats : List Beat
answer_beats = packet_beats ++ (no_beat ∷ [])

answer_beats-Stream : Stream answer_beats (packets answers)
answer_beats-Stream = carry packet-BeatsOf (pause over)

pub to_hw-IsIp : IsIp (to_hw 2) × IsIp (to_hw 16)
unfolding load16 load8 htons
to_hw-IsIp =
    ((8, 0x2800, refl, refl, refl, omega arith), (8, 0x2800, refl, refl, refl, omega arith))

pub from_hw-IsIp : IsIp (from_hw 18)
unfolding load16 load8 htons
from_hw-IsIp = (8, 0x2800, refl, refl, refl, omega arith)

abbrev pub begun : NetworkSide SimBackend × Bool × Beat
begun = init_simulation pcap_trace_code empty_file empty_file trace_file state globals

abbrev pub pointer : DpiTestingLib SimBackend
pointer = sim_backend (λ n. []) (λ n. (n, 0)) keys (λ n. memory)

end_to_end_example :
    (n : ℕ) × (beats : List Beat) × (sent : Log) × (t t' : Running TcpTrace) × (mid
      end : NetworkSide SimBackend)
    × (begun.1 ≡ false)
    × (calls pointer (gets (λ i. replicate 32 0) 0 n) begun.0 ≡ some (beats, mid))
    × Stream beats (map claimed (packets sent))
    × ((k : FlowTuple) → of_flow k sent ≡ to_hardware k trace)
    × (mid.backend ≡ pcap_trace t)
    × (calls pointer (puts answer_beats) mid ≡ some ([], end))
    × (end.backend ≡ pcap_trace t')
    × (check_all (from_hw 18 ∷ []) t.object ≡ some (perfect (from_hw 18 ∷ []), t'.object))
    × (t'.object.deleted ≡ false)
    × ((k : FlowTuple) → expects k t'.object.tcp_flows ≡ [])
unfolding init_network_side_state
end_to_end_example =
    end_to_end keys (λ n. memory) (λ n. []) (λ n. (n, 0)) (λ i. replicate 32 0) 20 empty_file
      empty_file trace_file state globals trace answers (λ k. []) answer_beats keys-Visits
      stale_length (λ i. refl) refl (to_hw-Fits.0, (from_hw-Fits, (to_hw-Fits.1, tt)))
      (to_hw-IsIp.0, (from_hw-IsIp, (to_hw-IsIp.1, tt))) refl answers-Own all_sent
      answer_beats-Stream
