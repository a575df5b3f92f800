-- ===== src/Simulation/Examples/Files.antt =====
-- A packet that the hardware sends with FILE_IO.
use tcp_hw.Base.{◌≡◌, refl, arith, false, some, List, [], ◌∷◌, ◌++◌, Bytes, replicate}
use tcp_hw.PcapTrace.{new_pcap}
use tcp_hw.PcapTrace.Fill.{Entry, Split}
use tcp_hw.FileIo.{FileIo}
use tcp_hw.Network.{NetworkSide}
use tcp_hw.Network.Lift.{calls}
use tcp_hw.Network.Stream.{Stream, over, carry}
use tcp_hw.Network.Send.{puts}
use tcp_hw.Simulation.{Running, SimBackend, file_io, sim_backend, file_io_code, init_simulation}
use tcp_hw.Simulation.Recorded.{packets_of, recorded}
use tcp_hw.Simulation.Examples.{
  empty_file, state, globals, keys, memory, ip_packet, beats, beats-BeatsOf,
}

beats-Stream : Stream (beats ++ []) (ip_packet ∷ [])
beats-Stream = carry beats-BeatsOf over

recorded_example :
    (end : NetworkSide SimBackend) × (r : Running FileIo) × (es : List Entry) × (sends recvs : List
      Bytes)
    × (calls
          (sim_backend (λ n. []) (λ n. (n, 0)) keys (λ n. memory))
          (puts beats)
          (init_simulation file_io_code empty_file empty_file empty_file state globals).0
        ≡ some ([], end))
    × (end.backend ≡ file_io r)
    × (packets_of es ≡ ip_packet ∷ [])
    × (new_pcap
          (λ n. [])
          (replicate 6 3)
          2
          []
          (record { content = r.object.send_file.content; pos = 0; at_end = false })
        ≡ some (record { send_pkts = sends; recv_pkts = recvs; deleted = false }, false))
    × Split (replicate 6 3) es sends recvs
recorded_example =
    recorded (λ n. []) (λ n. (n, 0)) keys (λ n. memory) empty_file empty_file empty_file state
      globals (ip_packet ∷ []) (beats ++ []) (λ n. []) (replicate 6 3) [] 2 refl refl beats-Stream
      ((omega arith, omega arith), tt) (omega arith) (omega arith)
