-- ===== src/Simulation/Recorded.antt =====
-- What the hardware sends with FILE_IO is recorded in a file, which the backends for traces read.
use tcp_hw.Base.{
  ℕ, suc, ◌+◌, ◌≤◌, ◌<◌, ◌≡◌, ◌∙◌, refl, sym, ap, subst, arith, false, some, List, [], ◌∷◌, ◌++◌,
  Bytes, All, length, map, append_assoc, append-nil,
}
use tcp_hw.Stdio.{File, fwrite}
use tcp_hw.Pcap.{file_header, record_bytes, write_pcap_header, write_pcap_record}
use tcp_hw.Backend.{Accepts, stays, takes}
use tcp_hw.Arp.{SockState}
use tcp_hw.Frame.{FlowTuple}
use tcp_hw.FileIo.{FileIo, new_file_io, put_buf_on_io}
use tcp_hw.TcpTrace.{Stale, FlowMap}
use tcp_hw.PcapTrace.{new_pcap, buffer_size}
use tcp_hw.PcapTrace.Fill.{Entry, records, Split, IsFrame, new_pcap_lem}
use tcp_hw.Network.{Beat, NetworkSide, init_network_side_state, no_beat}
use tcp_hw.Network.Lift.{calls, leaves, lift, calls-lift}
use tcp_hw.Network.Stream.{Stream}
use tcp_hw.Network.Send.{puts, send_stream_lem}
use tcp_hw.Simulation.{
  Running, SimBackend, file_io, file_backend, sim_backend, file_io_code, init_simulation,
  choose_backend,
}
use tcp_hw.Simulation.Choice.{based, start_file, file-Embeds}

-- A packet that holds a destination address and fits the buffer.
abbrev pub IsSized : Bytes → Type 0
IsSized p = (6 ≤ length p) × (length p ≤ buffer_size)

abbrev pub packets_of : List Entry → List Bytes
packets_of = map (λ (e : Entry). e.packet)

framed : (es : List Entry) → All IsSized (packets_of es) → All IsFrame es
framed [] h = tt
framed (e ∷ es) (x, h) = (x, framed es h)

length-packets_of : (es : List Entry) → length (packets_of es) ≡ length es
length-packets_of [] = refl
length-packets_of (e ∷ es) = ap suc (length-packets_of es)

module _ (file_stale : ℕ → Bytes) (clock : ℕ → ℕ × ℕ) where
  -- The file backend takes any packets, and its file grows by their records.
  file-Accepts :
      (pkts : List Bytes) (r : Running FileIo)
      → (es : List Entry) × (r' : Running FileIo) × Accepts
          (file_backend file_stale clock)
          r
          pkts
          r'
        × (packets_of es ≡ pkts)
        × (r'.object.send_file.content ≡ r.object.send_file.content ++ records es)
  unfolding file_backend put_buf_on_io write_pcap_record fwrite
  file-Accepts [] r = ([], r, stays, refl, sym (append-nil r.object.send_file.content))
  file-Accepts (p ∷ ps) r =
      let e : Entry = record { sec = (clock r.calls).0; usec = (clock r.calls).1; packet = p } in
      let bytes : Bytes = record_bytes e.sec e.usec p in
      let old : Bytes = r.object.send_file.content in
      let next : Running FileIo = record {
        calls = r.calls + 1;
        object = record r.object {
          send_file = record {
            content = old ++ bytes;
            pos = length old + length bytes;
            at_end = r.object.send_file.at_end;
          };
        };
      } in
      let (es, r', acc, are, grown) = file-Accepts ps next in
      (e ∷ es, r', takes refl acc, ap (λ q. p ∷ q) are, grown ∙ append_assoc old bytes (records es))

-- The network side over the part of the backend that FILE_IO chooses.
abbrev opened : File → File → SockState → NetworkSide SimBackend → NetworkSide (Running FileIo)
opened hw_to_sw sw_to_hw state net =
    let run = start_file hw_to_sw sw_to_hw in init_network_side_state run state (based run net)

init_simulation-file :
    (hw_to_sw sw_to_hw trace : File) (state : SockState) (net : NetworkSide SimBackend)
    → let part = opened hw_to_sw sw_to_hw state net in
      (init_simulation file_io_code hw_to_sw sw_to_hw trace state net
        ≡ (lift file_io part, false, no_beat))
      × (part.backend ≡ start_file hw_to_sw sw_to_hw)
      × (part.tx_buffer ≡ net.tx_buffer)
      × (part.backend.object.send_file.content ≡ hw_to_sw.content ++ file_header)
unfolding init_simulation choose_backend init_network_side_state new_file_io write_pcap_header
    fwrite
init_simulation-file hw_to_sw sw_to_hw trace state net = (refl, refl, refl, refl)

-- Let the file for the hardware's packets be empty and the send buffer too, let the beats carry
-- packets of at least 6 and at most 2048 bytes in turn, with any invalid beats between packets, and
-- let the address have 6 bytes or more. After the initialization for FILE_IO, the calls of
-- `put_data` with these beats do not fault, and the file that they leave is a trace of these
-- packets: from it, the constructor of `PcapTestingLib` makes the list of the packets whose
-- destination is the address and the list of the others, each in order and with every packet in
-- one of them, and does not end the simulation.
pub recorded :
    (file_stale : ℕ → Bytes) (clock : ℕ → ℕ × ℕ) (order : FlowMap → List FlowTuple)
    (stale : ℕ → Stale) (hw_to_sw sw_to_hw trace : File) (state : SockState)
    (net : NetworkSide SimBackend) (pkts : List Bytes) (beats : List Beat) (memory : ℕ → Bytes)
    (mac buffer : Bytes) (n : ℕ)
    → hw_to_sw.content ≡ []
    → net.tx_buffer ≡ []
    → Stream beats pkts
    → All IsSized pkts
    → 6 ≤ length mac
    → length pkts < n
    → let start = init_simulation file_io_code hw_to_sw sw_to_hw trace state net in
      let sim = sim_backend file_stale clock order stale in
      (end : NetworkSide SimBackend) × (r : Running FileIo) × (es : List Entry) × (sends
        recvs : List Bytes)
      × (calls sim (puts beats) start.0 ≡ some ([], end))
      × (end.backend ≡ file_io r)
      × (packets_of es ≡ pkts)
      × (new_pcap memory mac n buffer
            (record { content = r.object.send_file.content; pos = 0; at_end = false })
          ≡ some (record { send_pkts = sends; recv_pkts = recvs; deleted = false }, false))
      × Split mac es sends recvs
recorded file_stale clock order stale hw_to_sw sw_to_hw trace state net pkts beats memory mac buffer
      n fresh empty stream sized six enough =
    let part : NetworkSide (Running FileIo) = opened hw_to_sw sw_to_hw state net in
    let backend = file_backend file_stale clock in
    let (begun, at, untouched, header) = init_simulation-file hw_to_sw sw_to_hw trace state net in
    let (es, r, acc, are, grown) = file-Accepts file_stale clock pkts part.backend in
    let put = send_stream_lem backend part pkts beats r refl (untouched ∙ empty) stream acc in
    let content : r.object.send_file.content ≡ file_header ++ records es =
      grown
      ∙ ap (λ (c : Bytes). c ++ records es) (header ∙ ap (λ (c : Bytes). c ++ file_header) fresh) in
    let (sends, recvs, run, split) =
      new_pcap_lem memory mac six es n buffer
        (record { content = r.object.send_file.content; pos = 0; at_end = false }) content
        (framed es (subst (All IsSized) (sym are) sized))
        (omega (arith, ap length are, length-packets_of es, enough)) in
    (
      lift file_io (record part { backend = r; tx_buffer = [] }),
      r,
      es,
      sends,
      recvs,
      rw begun (
          calls-lift backend (sim_backend file_stale clock order stale) file_io
            (file-Embeds file_stale clock order stale) (puts beats) part
          ∙ ap (leaves (lift file_io)) put),
      refl,
      are,
      run,
      split,
    )
