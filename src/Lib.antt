-- ===== src/Lib.antt =====
-- The simulation side of a hardware TCP stack: the C++ that feeds packets to the simulated hardware
-- through the DPI and checks what it sends (sim_dpi/).
--
-- The parts and how they interact. The simulator calls `get_data` and `put_data` (the network side),
-- which cut packets into beats of 32 bytes and join beats to packets. Packets come from and go to a
-- backend behind the interface `DPITestingLib`, of which there are three: `TCPPcapTestingLib` replays a
-- trace flow by flow, `PcapTestingLib` replays a trace in order, `FileIOTestingLib` exchanges packets
-- through files. The trace backends compare what the hardware sends with the trace. All of them read or
-- write pcap files. The network side answers ARP requests itself. Two simulations can be joined through the
-- files of the third backend. Beside it stand an earlier form of that backend and one for raw sockets,
-- which nothing calls.
--
--   Base, Stdio   shared types and lemmas; stdio streams as bytes, a position and the end-of-file
--                 indicator
--   Pcap          sim_dpi/pcap_helpers.cpp
--   Frame         the packed structs of sim_dpi/flows.h, the test of the destination address
--   Compare       `compare_bufs`, what its verdicts say
--   Mimic         `TCPMimic`, the state of one flow; Mimic/Matching is the part of
--                 `TCPPcapTestingLib::put_buf_on_io` that works on one flow
--   TcpTrace      sim_dpi/tcp_pcap_trace_testing_lib.cpp; TcpTrace/Interleaved for calls in any order
--   PcapTrace     sim_dpi/pcap_trace_testing_lib.cpp
--   FileIo        sim_dpi/file_io_testing_lib.cpp
--   Backend       sim_dpi/dpi_testing_lib.hpp
--   Network       sim_dpi/sim_network_side_queue.cpp; Network/Stream and Network/Send join its calls to
--                 streams of packets
--   Arp, Checksum, Headers
--                 `handle_arp`, the checksum functions, and the conversions of headers and bit vectors
--                 of sim_dpi/testing_utils.cpp
--   Print         the printing functions of sim_dpi/testing_utils.cpp
--   Cpu           sim_dpi/sim_cpu.cpp
--   Simulation    the backends behind the pointer `sim_backend`, and their choice in
--                 `init_network_side_state` of sim_dpi/sim_network_side_queue.cpp; whole simulations
--                 (Simulation/EndToEnd, Interleaved, Across, Recorded)
--   Process       results of code that may call `exit`
--   RawSocket     sim_dpi/raw_testing_lib.cpp
--   OldFile       sim_dpi/file_testing_lib.cpp
--
-- How state and operations correspond. An object or the globals of a file are a record; a method is a
-- function from that record to an `Option` of its result and the record after it, under the method's
-- name in lower case with underscores. `none` is undefined behaviour: a read outside a buffer, `front()`
-- of an empty queue, or a call on a deleted backend. Bytes are natural numbers, words are loaded as a
-- little-endian host does. What code reads of uninitialised memory is an argument, named `stale` where
-- it is more than one vector. A `std::queue` or `std::deque` is a list; the `std::unordered_map` is an
-- association list, whose order of iteration is a parameter. `TCPMimic::check_my_ack`, which is declared
-- and defined nowhere, is a parameter too. What is printed is left out, but for the verdicts and warnings
-- that the theorems are about.
--
-- Fuel: `match_loop` has one more than the packets expected in the flow, which `run-fifo` shows to be
-- enough. `fill_pkt_vectors` takes fuel, and one more than the records of the file is enough. The loops
-- `fetch_rest` and `get_packet`, in which calls of the backend and the network side are repeated, take
-- the number of calls; their theorems say how many are enough, and so does `fetch`, which makes one
-- call for each record of a trace. `compare_loop` takes as many rounds as the packet of the trace has
-- bytes, which is enough.
--
-- Code that calls `exit` gives an `Exits`: the exit code, or a result. The calls of the operating system
-- in RawSocket, `inet_ntoa` and `ether_ntoa` in Print, the functions of svdpi.h on scopes in Cpu/Scope,
-- and the hash functions of boost are parameters.
--
-- Not modelled: the hardware itself (SystemVerilog), messages that are not the purpose of a function,
-- and writes that fail. Simulations start from files that `fopen` has opened. A reader of a file that is
-- still written is taken to see whole records: each call of `put_buf_on_io` ends with `fflush`.
pub mod Base
pub mod Stdio
pub mod Process
pub mod Pcap
pub mod Frame
pub mod Compare
pub mod Mimic
pub mod TcpTrace
pub mod Backend
pub mod Checksum
pub mod Arp
pub mod Headers
pub mod Cpu
pub mod PcapTrace
pub mod FileIo
pub mod Network
pub mod Simulation
pub mod RawSocket
pub mod OldFile
pub mod Print
