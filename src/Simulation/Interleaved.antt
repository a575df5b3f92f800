-- ===== src/Simulation/Interleaved.antt =====
-- A whole simulation over a trace in which the hardware answers while the trace is being read.
use tcp_hw.Base.{
  ℕ, ◌≡◌, ◌∙◌, sym, ap, subst, false, not, some, List, [], ◌++◌, Bytes, All, All-split, length, map,
}
use tcp_hw.Stdio.{File, unread}
use tcp_hw.Pcap.{file_header}
use tcp_hw.Pcap.Header.{consume-write_header}
use tcp_hw.Frame.{FlowTuple}
use tcp_hw.Arp.{SockState}
use tcp_hw.Mimic.Matching.Fifo.{pairs, AllSameSize}
use tcp_hw.Mimic.Matching.History.{references, receiveds}
use tcp_hw.TcpTrace.{TcpTrace, Stale, FlowMap, new_trace}
use tcp_hw.TcpTrace.Drain.{queue}
use tcp_hw.TcpTrace.Rest.{Log, packets, of_flow}
use tcp_hw.TcpTrace.Queues.{expects, unmatched}
use tcp_hw.TcpTrace.Reading.{records, to_hardware, from_hardware}
use tcp_hw.TcpTrace.Interleaved.{Event, Compared, in_flow, play}
use tcp_hw.TcpTrace.Interleaved.Expected.{asked, answers, Suits, Causal, opening, due}
use tcp_hw.TcpTrace.Interleaved.Fifo.{interleaved}
use tcp_hw.Network.{Beat, NetworkSide, beat_bytes}
use tcp_hw.Network.Lift.{Call, calls, lift}
use tcp_hw.Network.Stream.{Stream, IsIp, claimed}
use tcp_hw.Simulation.{
  Running, SimBackend, pcap_trace, sim_backend, pcap_trace_code, init_simulation,
}
use tcp_hw.Simulation.Choice.{own_mac}
use tcp_hw.Simulation.Sends.{packets-IsIp, to_hardware-IsIp}
use tcp_hw.Simulation.EndToEnd.{opened, opened_lem, init_simulation-trace, calls-trace}
use tcp_hw.Simulation.Mixed.{Mixes, Sends, Timed, mixed_lem}

-- A front of IP packets.
All-front : (xs ys zs : List Bytes) → xs ++ ys ≡ zs → All IsIp zs → All IsIp xs
All-front xs ys zs e ips = (All-split IsIp xs ys (subst (All IsIp) (sym e) ips)).0

new_trace-whole :
    (f : File) (mac rest : Bytes) → unread f ≡ file_header ++ rest → (new_trace f mac).1 ≡ false
unfolding new_trace
new_trace-whole f mac rest e = let (whole, _) = consume-write_header f rest e in ap not whole

module _ (order : FlowMap → List FlowTuple) (stale : ℕ → Stale) (file_stale : ℕ → Bytes)
    (clock : ℕ → ℕ × ℕ) where
  -- Let the vectors have 32 bytes and the send buffer be empty. Let events come in any order: calls
  -- of the backend that each find a record of the trace file, behind its header, and packets of the
  -- hardware in flows of which a packet has been read before. Let the packets have their headers;
  -- let those of the trace fit the buffer and be IP packets at least as long as their headers
  -- claim; let the stale memory of each call have the length of the IP header in the right place;
  -- and let the i-th packet from the hardware in a flow have the size of the i-th that the trace
  -- has from the hardware in it, as far as there are both. Let `beats` carry the packets of the
  -- hardware. Then the initialization for PCAP_TRACE does not end the simulation, and there are
  -- calls of the simulator through the pointer, some of `get_data` for each record and those of
  -- `put_data` with the beats of each packet of the hardware, in the order of the events, that do
  -- not fault and do not end it. They drive the claimed bytes of packets that are, in each flow,
  -- the one that opens the flow, if that is for the hardware, and none else; behind it those held
  -- back are all the others that were read for the hardware, in order. The backend compares in each
  -- flow exactly the i-th packet read from the hardware with the i-th that it sent, among those
  -- read before the last that it sent; what is left on either side still waits, in order.
  pub end_to_end_mixed :
      (vectors : ℕ → Bytes) (ip_len : ℕ) (hw_to_sw sw_to_hw trace : File) (state : SockState)
      (net : NetworkSide SimBackend) (es : List Event) (rest : Bytes) (beats : List Beat)
      → ((i : ℕ) → length (vectors i) ≡ beat_bytes)
      → net.tx_buffer ≡ []
      → unread trace ≡ file_header ++ (records (asked es) ++ rest)
      → All (Suits ip_len (own_mac state net)) es
      → All (λ l. IsIp l.packet) (asked es)
      → Timed order stale 0 es
      → Causal [] es
      → ((k : FlowTuple)
          → AllSameSize (pairs (from_hardware k (asked es)) (of_flow k (answers es))))
      → Sends es beats
      → let start = init_simulation pcap_trace_code hw_to_sw sw_to_hw trace state net in
        let backend = sim_backend file_stale clock order stale in
        (script : List Call) × (driven : List Beat) × (log : Log) × (cs : Compared)
        × (end : NetworkSide SimBackend) × (r : Running TcpTrace) × (start.1 ≡ false)
        × Mixes vectors 0 es beats script
        × (calls backend script start.0 ≡ some (driven, end))
        × Stream driven (map claimed (packets log))
        × (end.backend ≡ pcap_trace r)
        × (play order es (new_trace trace (own_mac state net)).0 ≡ some (packets log, cs, r.object))
        × (r.object.deleted ≡ false)
        × ((k : FlowTuple) → of_flow k log ≡ opening k (asked es))
        × ((k : FlowTuple) → of_flow k log ++ queue k r.object.tcp_flows ≡ to_hardware k (asked es))
        × ((k : FlowTuple) → in_flow k cs ≡ pairs (due k es) (of_flow k (answers es)))
        × ((k : FlowTuple)
            → references (in_flow k cs) ++ expects k r.object.tcp_flows
              ≡ from_hardware k (asked es))
        × ((k : FlowTuple)
            → receiveds (in_flow k cs) ++ unmatched k r.object.tcp_flows ≡ of_flow k (answers es))
  end_to_end_mixed vectors ip_len hw_to_sw sw_to_hw trace state net es rest beats full empty holds
        suits ips timed causal same carried =
      let mac : Bytes = own_mac state net in
      let (at, idle, untouched) = opened_lem trace state net in
      let (log, cs, t, played, alive, opens, handed, compares, refs, recs) =
        interleaved order ip_len rest es trace mac holds suits causal same in
      let all_ip : All IsIp (packets log) = packets-IsIp log (λ k.
        All-front (of_flow k log) (queue k t.tcp_flows) (to_hardware k (asked es)) (handed k)
          (to_hardware-IsIp k (asked es) ips)) in
      let mixed =
        mixed_lem order stale vectors full es beats 0 0 (new_trace trace mac).0
          (opened trace state net) (packets log) cs t played all_ip carried timed at idle
          (untouched ∙ empty) in
      (
        mixed.script,
        mixed.driven,
        log,
        cs,
        lift pcap_trace mixed.after,
        record { calls = mixed.count; object = t },
        rw (init_simulation-trace hw_to_sw sw_to_hw trace state net)
            (new_trace-whole trace mac (records (asked es) ++ rest) holds),
        mixed.mixes,
        rw (init_simulation-trace hw_to_sw sw_to_hw trace state net) (
            calls-trace order stale file_stale clock mixed.script (opened trace state net)
              mixed.runs),
        mixed.stream,
        ap pcap_trace mixed.left,
        played,
        alive,
        opens,
        handed,
        compares,
        refs,
        recs,
      )
