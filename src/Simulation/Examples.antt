-- ===== src/Simulation/Examples.antt =====
-- A packet from the hardware of one simulation to that of another.
mod Whole
mod Mixed
mod Files
use tcp_hw.Base.{
  Bool, ◌≢◌, ◌⊎◌, not, ◌≡◌, refl, arith, none, some, List, [], ◌∷◌, ◌++◌, Bytes, take, replicate,
  load8, load16, htons, true, false,
}
use tcp_hw.Stdio.{File}
use tcp_hw.FileIo.{FileIo}
use tcp_hw.Network.{NetworkSide, Beat, init_network_side_state, get_data, no_beat}
use tcp_hw.Network.Loopback.{get_packet, put_packet, BeatsOf, more, final}
use tcp_hw.Simulation.{
  Running, SimBackend, null, file_io, pcap_trace, file_backend, tcp_backend, sim_backend,
  init_simulation, file_io_code, pcap_trace_code,
}
use tcp_hw.Arp.{SockState}
use tcp_hw.Frame.{FlowTuple}
use tcp_hw.Pcap.{consume_pcap_header}
use tcp_hw.Backend.{DpiTestingLib}
use tcp_hw.TcpTrace.{TcpTrace, Stale, FlowMap}
use tcp_hw.Network.Lift.{Call, get, calls, leaves, lift}
use tcp_hw.Simulation.Choice.{start_file, start_trace, based, init_simulation_lem}
use tcp_hw.FileIo.Exchange.{CaughtUp}
use tcp_hw.Simulation.Across.{looks, across}

abbrev pub empty_file : File
empty_file = record { content = []; pos = 0; at_end = false }

abbrev pub simulation : NetworkSide (Running FileIo)
simulation = record {
  backend = record {
    calls = 0;
    object = record { send_file = empty_file; recv_file = empty_file };
  };
  instance_state = record {
    s_addr = 192 ∷ 0 ∷ 0 ∷ 2 ∷ [];
    sin_port = 1234;
    source_mac_addr = 0x24 ∷ 0xbe ∷ 0x05 ∷ 0xbf ∷ 0x5b ∷ 0x91 ∷ [];
    dest_mac_addr = [];
    has_syn_acked = 0;
  };
  rx_data_if = record { buffer = none; buffer_len = 0; buffer_pos = 0 };
  tx_buffer = [];
}

-- An IP packet of 26 bytes in a frame of 46, of which 6 are padding.
abbrev pub ip_packet : Bytes
ip_packet = replicate 12 3 ++ (8 ∷ 0 ∷ 0x45 ∷ 0 ∷ 0 ∷ 26 ∷ replicate 28 7)

abbrev pub beats : List Beat
beats =
    record {
      val = true;
      bytes = replicate 14 7 ++ (26 ∷ 0 ∷ 0 ∷ 0x45 ∷ 0 ∷ 8 ∷ replicate 12 3);
      last = false;
      padbytes = 0;
    }
    ∷ record { val = true; bytes = replicate 18 0 ++ replicate 14 7; last = true; padbytes = 18 }
    ∷ []

pub beats-BeatsOf : BeatsOf ip_packet beats
beats-BeatsOf =
    more (record { val = refl; pad = refl; bytes = refl; last = refl }) (omega arith)
      (final (record { val = refl; pad = refl; bytes = refl; last = refl }) (omega arith))

across_example :
    (a' : NetworkSide (Running FileIo)) × (bs' : List Beat) × (b' : NetworkSide (Running FileIo))
    × (put_packet (file_backend (λ n. []) (λ n. (n, 0))) beats simulation ≡ some a')
    × (get_packet
          (file_backend (λ n. []) (λ n. (n, 0)))
          (λ n. replicate 32 0)
          2
          (looks a' simulation)
        ≡ some (bs', b'))
    × BeatsOf (take 40 ip_packet) bs'
    × CaughtUp a'.backend.object b'.backend.object
unfolding load16 load8 htons
across_example =
    across (λ n. []) (λ n. (n, 0)) (λ n. replicate 32 0) 1 ip_packet beats simulation simulation 8
      0x1a00 (λ i. refl) beats-BeatsOf refl (omega arith)
      (record { same_file = refl; at_last = refl; not_met = refl }) (omega arith) refl refl refl
      (omega arith) (omega arith)

abbrev pub state : SockState
state = simulation.instance_state

abbrev pub globals : NetworkSide SimBackend
globals = record {
  backend = null;
  instance_state = state;
  rx_data_if = simulation.rx_data_if;
  tx_buffer = [];
}

abbrev pub keys : FlowMap → List FlowTuple
keys [] = []
keys ((k, m) ∷ fs) = k ∷ keys fs

abbrev pub memory : Stale
memory = record {
  frame = replicate 15 0x45;
  pkthdr = [];
  mimic = record {
    handshake_done = true;
    my_seq = 5;
    my_expected_ack = 5;
    their_seq = 5;
    their_expected_ack = 5;
    pkts_recved_buf = [];
    pkts_to_recv = [];
    pkts_to_send = [];
  };
}

abbrev asked : List Call
asked = get (replicate 32 0) ∷ []

abbrev begun : NetworkSide SimBackend × Bool × Beat
begun = init_simulation 2 empty_file empty_file empty_file state globals

abbrev pointer : DpiTestingLib SimBackend
pointer = sim_backend (λ n. []) (λ n. (n, 0)) keys (λ n. memory)

abbrev file_run : Running FileIo
file_run = start_file empty_file empty_file

abbrev trace_run : Running TcpTrace
trace_run = start_trace empty_file state globals

init_simulation_example :
    (begun.2 ≡ no_beat)
    × (((2 ≡ file_io_code)
          × (begun.1 ≡ false)
          × (calls pointer asked begun.0
              ≡ leaves (lift file_io) (
                  calls
                    (file_backend (λ n. []) (λ n. (n, 0)))
                    asked
                    (init_network_side_state file_run state (based file_run globals)))))
        ⊎ ((2 ≡ pcap_trace_code)
            × (begun.1 ≡ not (consume_pcap_header empty_file).0)
            × (calls pointer asked begun.0
                ≡ leaves (lift pcap_trace) (
                    calls
                      (tcp_backend keys (λ n. memory))
                      asked
                      (init_network_side_state trace_run state (based trace_run globals)))))
        ⊎ ((2 ≢ file_io_code)
            × (2 ≢ pcap_trace_code)
            × (begun.1 ≡ true)
            × (get_data pointer (replicate 32 0) begun.0 ≡ none)))
init_simulation_example =
    init_simulation_lem (λ n. []) (λ n. (n, 0)) keys (λ n. memory) 2 empty_file empty_file
      empty_file state globals asked (replicate 32 0)
