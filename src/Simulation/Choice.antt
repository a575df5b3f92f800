-- ===== src/Simulation/Choice.antt =====
-- The backend that the initialization chooses, and the calls through the pointer to it.
use tcp_hw.Base.{
  ℕ, ◌≡◌, ◌≢◌, ◌⊎◌, inl, inr, refl, arith, true, false, not, none, List, Bytes, Option-cases,
  Bool-cases, ◌==◌, ==_iff,
}
use tcp_hw.Stdio.{File}
use tcp_hw.Pcap.{consume_pcap_header}
use tcp_hw.Frame.{FlowTuple}
use tcp_hw.Arp.{SockState}
use tcp_hw.TcpTrace.{TcpTrace, Stale, FlowMap, new_trace}
use tcp_hw.FileIo.{FileIo, new_file_io}
use tcp_hw.Network.{NetworkSide, init_network_side_state, get_data, recv_from_socket, no_beat}
use tcp_hw.Network.Lift.{Call, calls, leaves, lift, Embeds, calls-lift}
use tcp_hw.Simulation.{
  Running, SimBackend, file_io, pcap_trace, null, file_backend, tcp_backend, sim_backend,
  file_io_code, pcap_trace_code, choose_backend, init_simulation,
}

-- The globals, with another backend.
abbrev pub based : {S : Type 0} → S → NetworkSide SimBackend → NetworkSide S
based s net = record {
  backend = s;
  instance_state = net.instance_state;
  rx_data_if = net.rx_data_if;
  tx_buffer = net.tx_buffer;
}

abbrev pub start_file : File → File → Running FileIo
start_file hw_to_sw sw_to_hw = record { calls = 0; object = new_file_io hw_to_sw sw_to_hw }

-- The address that the initialization sets.
abbrev pub own_mac : SockState → NetworkSide SimBackend → Bytes
own_mac state net = (init_network_side_state null state net).instance_state.source_mac_addr

abbrev pub start_trace : File → SockState → NetworkSide SimBackend → Running TcpTrace
start_trace trace state net = record { calls = 0; object = (new_trace trace (own_mac state net)).0 }

module _ (file_stale : ℕ → Bytes) (clock : ℕ → ℕ × ℕ) (order : FlowMap → List FlowTuple)
    (stale : ℕ → Stale) where
  pub file-Embeds :
      Embeds (file_backend file_stale clock) (sim_backend file_stale clock order stale) file_io
  unfolding sim_backend
  file-Embeds = record {
    gets = λ r. elim (Option-cases ((file_backend file_stale clock).get_buf_fr_io r)) [
      | inl e ↦ rw e refl
      | inr (p, e) ↦ rw e refl
    ];
    puts = λ pkt r. elim (Option-cases ((file_backend file_stale clock).put_buf_on_io pkt r)) [
      | inl e ↦ rw e refl
      | inr (p, e) ↦ rw e refl
    ];
  }

  pub trace-Embeds :
      Embeds (tcp_backend order stale) (sim_backend file_stale clock order stale) pcap_trace
  unfolding sim_backend
  trace-Embeds = record {
    gets = λ r. elim (Option-cases ((tcp_backend order stale).get_buf_fr_io r)) [
      | inl e ↦ rw e refl
      | inr (p, e) ↦ rw e refl
    ];
    puts = λ pkt r. elim (Option-cases ((tcp_backend order stale).put_buf_on_io pkt r)) [
      | inl e ↦ rw e refl
      | inr (p, e) ↦ rw e refl
    ];
  }

  -- The initialization drives a beat with no data. After it, any calls of the simulator do through the pointer what they do over
  -- the backend that the code stands for: FILE_IO, or PCAP_TRACE, where the simulation is ended at
  -- once if the trace has no whole header. For any other code the simulation is ended, and the
  -- first call of `get_data` goes through a null pointer.
  pub init_simulation_lem :
      (code : ℕ) (hw_to_sw sw_to_hw trace : File) (state : SockState) (net : NetworkSide SimBackend)
      (cs : List Call) (v : Bytes)
      → let start = init_simulation code hw_to_sw sw_to_hw trace state net in
        let sim = sim_backend file_stale clock order stale in
        let file_run = start_file hw_to_sw sw_to_hw in
        let trace_run = start_trace trace state net in
        (start.2 ≡ no_beat)
        × (((code ≡ file_io_code)
              × (start.1 ≡ false)
              × (calls sim cs start.0
                  ≡ leaves (lift file_io) (
                      calls
                        (file_backend file_stale clock)
                        cs
                        (init_network_side_state file_run state (based file_run net)))))
            ⊎ ((code ≡ pcap_trace_code)
                × (start.1 ≡ not (consume_pcap_header trace).0)
                × (calls sim cs start.0
                    ≡ leaves (lift pcap_trace) (
                        calls
                          (tcp_backend order stale)
                          cs
                          (init_network_side_state trace_run state (based trace_run net)))))
            ⊎ ((code ≢ file_io_code)
                × (code ≢ pcap_trace_code)
                × (start.1 ≡ true)
                × (get_data sim v start.0 ≡ none)))
  unfolding init_simulation choose_backend init_network_side_state new_trace get_data
      recv_from_socket sim_backend
  init_simulation_lem code hw_to_sw sw_to_hw trace state net cs v =
      let sim = sim_backend file_stale clock order stale in
      let file_run = start_file hw_to_sw sw_to_hw in
      let trace_run = start_trace trace state net in
      (
        refl,
        elim (Bool-cases (code == file_io_code)) [
          | inl e ↦ inl (
            (==_iff code file_io_code).0 e,
            rw e refl,
            rw e (
                calls-lift (file_backend file_stale clock) sim file_io file-Embeds cs
                  (init_network_side_state file_run state (based file_run net))),
          )
          | inr e ↦ elim (Bool-cases (code == pcap_trace_code)) [
            | inl q ↦ inr (
                inl (
                  (==_iff code pcap_trace_code).0 q,
                  rw (e, q) refl,
                  rw (e, q)
                      (calls-lift (tcp_backend order stale) sim pcap_trace trace-Embeds cs
                        (init_network_side_state trace_run state (based trace_run net))),
                ))
            | inr q ↦
                inr (inr (ground (arith, e), ground (arith, q), rw (e, q) refl, rw (e, q) refl))
          ]
        ],
      )
