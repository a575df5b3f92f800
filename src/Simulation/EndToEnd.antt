-- ===== src/Simulation/EndToEnd.antt =====
-- A whole simulation over a trace: the packets of the trace reach the hardware as beats, and the
-- beats of the hardware's answers reach the comparison as packets.
use tcp_hw.Base.{
  ℕ, ◌≡◌, ◌∙◌, refl, sym, ap, subst, arith, false, some, List, [], ◌++◌, Bytes, All, length, map,
}
use tcp_hw.Stdio.{File, unread}
use tcp_hw.Pcap.{file_header}
use tcp_hw.Frame.{FlowTuple, ip_hdr_len}
use tcp_hw.Backend.{DpiTestingLib}
use tcp_hw.Arp.{SockState}
use tcp_hw.TcpTrace.{TcpTrace, Stale, FlowMap, new_trace}
use tcp_hw.TcpTrace.Drain.{Visits}
use tcp_hw.TcpTrace.Rest.{Log, packets, of_flow}
use tcp_hw.TcpTrace.Queues.{expects}
use tcp_hw.TcpTrace.Reading.{Labelled, Fits, records, to_hardware, from_hardware}
use tcp_hw.TcpTrace.Passes.{check_all, perfect, Own, check_all_lem}
use tcp_hw.Network.{Beat, NetworkSide, beat_bytes, init_network_side_state, no_beat}
use tcp_hw.Network.Lift.{Call, calls, leaves, lift, calls-lift}
use tcp_hw.Network.Stream.{Stream, IsIp, claimed, Idle, gets, stream_lem}
use tcp_hw.Network.Send.{puts, send_stream_lem}
use tcp_hw.Simulation.{
  Running, SimBackend, pcap_trace, tcp_backend, sim_backend, pcap_trace_code, init_simulation,
  choose_backend,
}
use tcp_hw.Simulation.Calls.{run_at, check_all-Accepts}
use tcp_hw.Simulation.Sends.{packets-IsIp, to_hardware-IsIp, trace-Yields}
use tcp_hw.Simulation.Choice.{based, own_mac, start_trace, trace-Embeds}

-- The network side over the part of the backend that PCAP_TRACE chooses.
abbrev pub opened : File → SockState → NetworkSide SimBackend → NetworkSide (Running TcpTrace)
opened trace state net =
    let run = start_trace trace state net in init_network_side_state run state (based run net)

pub init_simulation-trace :
    (hw_to_sw sw_to_hw trace : File) (state : SockState) (net : NetworkSide SimBackend)
    → init_simulation pcap_trace_code hw_to_sw sw_to_hw trace state net
      ≡ (lift pcap_trace (opened trace state net), (new_trace trace (own_mac state net)).1, no_beat)
unfolding init_simulation choose_backend init_network_side_state
init_simulation-trace hw_to_sw sw_to_hw trace state net = refl

-- It starts with nothing left to drive, and leaves the send buffer as it is.
pub opened_lem :
    (trace : File) (state : SockState) (net : NetworkSide SimBackend)
    → let part = opened trace state net in
      (part.backend ≡ start_trace trace state net) × Idle part × (part.tx_buffer ≡ net.tx_buffer)
unfolding init_network_side_state
opened_lem trace state net = (refl, omega arith, refl)

module _ (order : FlowMap → List FlowTuple) (stale : ℕ → Stale) (file_stale : ℕ → Bytes)
    (clock : ℕ → ℕ × ℕ) where
  abbrev pub sim : DpiTestingLib SimBackend
  sim = sim_backend file_stale clock order stale

  -- Calls over the whole do what they do over the part.
  pub calls-trace :
      (cs : List Call) (net : NetworkSide (Running TcpTrace)) {bs : List Beat}
      {net' : NetworkSide (Running TcpTrace)}
      → calls (tcp_backend order stale) cs net ≡ some (bs, net')
      → calls sim cs (lift pcap_trace net) ≡ some (bs, lift pcap_trace net')
  calls-trace cs net e =
      calls-lift (tcp_backend order stale) sim pcap_trace
        (trace-Embeds file_stale clock order stale) cs net
      ∙ ap (leaves (lift pcap_trace)) e

  -- Let an iteration visit the keys of the map and no others, let all stale memory have the length
  -- of the IP header in the right place and the vectors have 32 bytes, and let the send buffer be
  -- empty. Let the trace file hold the header and records whose packets have their headers, fit the
  -- buffer, have IP headers of that length, and are IP packets at least as long as their headers
  -- claim. Let the hardware's packets have their headers and be, for each flow, the first that the
  -- trace has from the hardware in it, in order, with the flows interleaved in any way, and let
  -- `answers` be beats of these packets in turn, with any invalid beats between packets. Then the
  -- initialization for PCAP_TRACE does not end the simulation. Some number of calls of `get_data`
  -- through the pointer drive the bytes that the headers claim of exactly the packets of the trace
  -- for the hardware, for each flow in the order of the trace, each in its beats, with no fault.
  -- The calls of `put_data` with `answers` that follow do not fault either: every packet is
  -- compared with its equal, nothing ends the simulation, and what each flow still expects are the
  -- remaining packets of the trace.
  pub end_to_end :
      (vectors : ℕ → Bytes) (ip_len : ℕ) (hw_to_sw sw_to_hw trace : File) (state : SockState)
      (net : NetworkSide SimBackend) (ls : List Labelled) (log : Log)
      (left : FlowTuple → List Bytes) (answers : List Beat)
      → Visits order
      → ((i : ℕ) → ip_hdr_len (stale i).frame ≡ some ip_len)
      → ((i : ℕ) → length (vectors i) ≡ beat_bytes)
      → net.tx_buffer ≡ []
      → All (Fits ip_len (own_mac state net)) ls
      → All (λ l. IsIp l.packet) ls
      → unread trace ≡ file_header ++ records ls
      → All (Own (own_mac state net)) log
      → ((k : FlowTuple) → from_hardware k ls ≡ of_flow k log ++ left k)
      → Stream answers (packets log)
      → let start = init_simulation pcap_trace_code hw_to_sw sw_to_hw trace state net in
        (n : ℕ) × (beats : List Beat) × (sent : Log) × (t t' : Running TcpTrace) × (mid
          end : NetworkSide SimBackend)
        × (start.1 ≡ false)
        × (calls sim (gets vectors 0 n) start.0 ≡ some (beats, mid))
        × Stream beats (map claimed (packets sent))
        × ((k : FlowTuple) → of_flow k sent ≡ to_hardware k ls)
        × (mid.backend ≡ pcap_trace t)
        × (calls sim (puts answers) mid ≡ some ([], end))
        × (end.backend ≡ pcap_trace t')
        × (check_all (packets log) t.object ≡ some (perfect (packets log), t'.object))
        × (t'.object.deleted ≡ false)
        × ((k : FlowTuple) → expects k t'.object.tcp_flows ≡ left k)
  end_to_end vectors ip_len hw_to_sw sw_to_hw trace state net ls log left answers visits framed full
        empty fits ips holds own sends stream =
      let mac : Bytes = own_mac state net in
      let (at, idle, untouched) = opened_lem trace state net in
      let (c, t, sent, begun, yields, per_flow, awaits, calm, alive, same_mac) =
        trace-Yields order stale ip_len visits framed trace mac ls fits holds in
      let (u, checked, still, done) =
        check_all_lem log left t alive calm
          (subst (λ (m : Bytes). All (Own m) log) (sym same_mac) own) (λ k. awaits k ∙ sends k) in
      let (d, accepts) =
        check_all-Accepts order stale c t (packets log) (perfect (packets log), u) checked in
      let (n, beats, rx, got, is, quiet) =
        stream_lem (tcp_backend order stale) vectors 0 (opened trace state net) (packets sent)
          (run_at c t) at yields full idle
          (packets-IsIp sent
            (λ k. subst (All IsIp) (sym (per_flow k)) (to_hardware-IsIp k ls ips))) in
      let mid : NetworkSide (Running TcpTrace) = record (opened trace state net) {
        backend = run_at c t;
        rx_data_if = rx;
      } in
      let put =
        send_stream_lem (tcp_backend order stale) mid (packets log) answers (run_at d u) refl
          (untouched ∙ empty) stream accepts in
      (
        n,
        beats,
        sent,
        run_at c t,
        run_at d u,
        lift pcap_trace mid,
        lift pcap_trace (record mid { backend = run_at d u; tx_buffer = [] }),
        rw (init_simulation-trace hw_to_sw sw_to_hw trace state net) begun,
        rw (init_simulation-trace hw_to_sw sw_to_hw trace state net) (calls-trace _ _ got),
        is,
        per_flow,
        refl,
        calls-trace _ _ put,
        refl,
        checked,
        still,
        done,
      )
