-- ===== src/Simulation.antt =====
-- The backends behind the interface, and their choice in `init_network_side_state` of
-- sim_dpi/sim_network_side_queue.cpp.
pub mod Across
pub mod Choice
pub mod Sends
pub mod Recorded
pub mod Mixed
pub mod Interleaved
pub mod EndToEnd
pub mod Calls
mod Examples
use tcp_hw.Base.{
  ℕ, ◌+◌, Bool, true, false, Option, none, some, List, Bytes, ◌==◌, if◌then◌else◌, ◌>>=◌,
}
use tcp_hw.Stdio.{File}
use tcp_hw.Frame.{FlowTuple}
use tcp_hw.Backend.{DpiTestingLib}
use tcp_hw.Arp.{SockState}
use tcp_hw.TcpTrace
use tcp_hw.TcpTrace.{TcpTrace, Stale, FlowMap, new_trace}
use tcp_hw.PcapTrace
use tcp_hw.PcapTrace.{PcapTrace}
use tcp_hw.FileIo
use tcp_hw.FileIo.{FileIo, new_file_io}
use tcp_hw.Network.{NetworkSide, init_network_side_state, Beat, no_beat}

-- A backend, and how often it has been called: each call finds its own stale memory and its own
-- time.
pub record Running (S : Type 0) : Type 0 where
  pub calls : ℕ
  pub object : S

-- The objects behind the pointer `sim_backend`.
unfoldable pub file_backend : (ℕ → Bytes) → (ℕ → ℕ × ℕ) → DpiTestingLib (Running FileIo)
file_backend stale clock = record {
  get_buf_fr_io = λ r. (do
    (pkt, io) ← FileIo.get_buf_fr_io (stale r.calls) r.object
    some (pkt, record { calls = r.calls + 1; object = io }));
  put_buf_on_io = λ pkt r. (do
    (bytes, io) ← FileIo.put_buf_on_io (clock r.calls).0 (clock r.calls).1 pkt r.object
    some (bytes, record { calls = r.calls + 1; object = io }));
}

-- The verdicts are printed.
unfoldable pub tcp_backend :
    (FlowMap → List FlowTuple) → (ℕ → Stale) → DpiTestingLib (Running TcpTrace)
tcp_backend order stale = record {
  get_buf_fr_io = λ r. (do
    (pkt, t) ← TcpTrace.get_buf_fr_io order (stale r.calls) r.object
    some (pkt, record { calls = r.calls + 1; object = t }));
  put_buf_on_io = λ pkt r. (do
    (cs, t, bytes) ← TcpTrace.put_buf_on_io pkt r.object
    some (bytes, record { calls = r.calls + 1; object = t }));
}

unfoldable pub pcap_backend : DpiTestingLib PcapTrace
pcap_backend = record {
  get_buf_fr_io = PcapTrace.get_buf_fr_io;
  put_buf_on_io =
      λ pkt t. (do (verdict, t', bytes) ← PcapTrace.put_buf_on_io pkt t; some (bytes, t'));
}

-- What the pointer points to; it is null at first.
pub data SimBackend : Type 0 where
  null : SimBackend
  file_io : Running FileIo → SimBackend
  pcap_trace : Running TcpTrace → SimBackend

-- FILE_IO and PCAP_TRACE of sim_dpi/testing_utils.h.
abbrev pub file_io_code : ℕ
file_io_code = 1

abbrev pub pcap_trace_code : ℕ
pcap_trace_code = 2

-- The backend for the macro BACKEND, over the files that `fopen` returned, and whether the
-- simulation is ended: for a trace without a whole header, and for any other code.
unfoldable pub choose_backend : ℕ → File → File → File → Bytes → SimBackend × Bool
choose_backend backend hw_to_sw sw_to_hw trace mac =
    let (t, ended) = new_trace trace mac in
    if backend == file_io_code
    then (file_io (record { calls = 0; object = new_file_io hw_to_sw sw_to_hw }), false)
    else if backend == pcap_trace_code
    then (pcap_trace (record { calls = 0; object = t }), ended)
    else (null, true)

-- The whole of `init_network_side_state`, whether it ends the simulation, and the beat that it
-- drives. The address of the network side is set before the choice.
unfoldable pub init_simulation :
    ℕ
    → File
    → File
    → File
    → SockState
    → NetworkSide SimBackend
    → NetworkSide SimBackend × Bool × Beat
init_simulation backend hw_to_sw sw_to_hw trace stale net =
    let net' = init_network_side_state null stale net in
    let (b, ended) =
      choose_backend backend hw_to_sw sw_to_hw trace net'.instance_state.source_mac_addr in
    (record net' { backend = b }, ended, no_beat)

-- A call through the pointer. Through null it is a fault.
unfoldable pub sim_backend :
    (ℕ → Bytes) → (ℕ → ℕ × ℕ) → (FlowMap → List FlowTuple) → (ℕ → Stale) → DpiTestingLib SimBackend
unfolding file_backend tcp_backend
sim_backend file_stale clock order stale = record {
  get_buf_fr_io = λ b. elim b [
    | null ↦ none
    | file_io r ↦ do
      (pkt, r') ← (file_backend file_stale clock).get_buf_fr_io r
      some (pkt, file_io r')
    | pcap_trace r ↦ do
      (pkt, r') ← (tcp_backend order stale).get_buf_fr_io r
      some (pkt, pcap_trace r')
  ];
  put_buf_on_io = λ pkt b. elim b [
    | null ↦ none
    | file_io r ↦ do
      (bytes, r') ← (file_backend file_stale clock).put_buf_on_io pkt r
      some (bytes, file_io r')
    | pcap_trace r ↦ do
      (bytes, r') ← (tcp_backend order stale).put_buf_on_io pkt r
      some (bytes, pcap_trace r')
  ];
}
