-- ===== src/TcpTrace.antt =====
-- `TCPPcapTestingLib` of sim_dpi/tcp_pcap_trace_testing_lib.cpp: the backend that replays the
-- packets of a trace to the hardware, flow by flow, and checks the packets that the hardware sends.
pub mod Flows
pub mod Handshake
pub mod Replay
pub mod Drain
pub mod Rest
pub mod Receive
pub mod Queues
pub mod Session
pub mod Share
pub mod Front
pub mod Reading
pub mod Whole
pub mod Passes
pub mod Interleaved
pub mod Examples
use tcp_hw.Base.{
  ℕ, ◌+◌, Bool, true, false, not, Option, none, some, List, [], ◌∷◌, ◌++◌, Bytes, length, drop, ltb,
  ◌==◌, if◌then◌else◌, ◌>>=◌, ◌>>◌, require, u32,
}
use tcp_hw.Stdio.{File}
use tcp_hw.Pcap.{read_pcap_record, consume_pcap_header}
use tcp_hw.Frame.{
  FlowTuple, flow_eq, send_packet, ip_hdr_len, lookup_tuple, parse, Parsed, tcp_syn, tcp_ack,
}
use tcp_hw.Mimic.{
  TcpMimic, new_mimic, update_my_ack, update_their_ack, set_my_seq, set_their_seq, set_my_ack,
  set_their_ack, set_handshake_done, get_handshake_done, pkts_to_send_empty, get_pkts_to_send_front,
  put_pkts_to_send_back, put_pkts_to_recv_back,
}
use tcp_hw.Mimic.Matching.{Comparison, receive}

-- `std::unordered_map<TCPFlowTuple, TCPMimic, TCPFlowTupleHash>` as an association list.
abbrev pub FlowMap : Type 0
FlowMap = List (FlowTuple × TcpMimic)

unfoldable pub find : FlowTuple → FlowMap → Option TcpMimic
find k [] = none
find k ((j, m) ∷ fs) = if flow_eq j k then some m else find k fs

-- An assignment through a reference to the entry of `k`.
unfoldable pub update : FlowTuple → TcpMimic → FlowMap → FlowMap
update k m [] = []
update k m ((j, n) ∷ fs) = if flow_eq j k then (j, m) ∷ fs else (j, n) ∷ update k m fs

-- `insert` of a key that is not there.
unfoldable pub insert : FlowTuple → TcpMimic → FlowMap → FlowMap
insert k m fs = (k, m) ∷ fs

-- The fields, with the address that `instance_state` holds. A backend that `finish_simulation` has
-- deleted must not be used.
pub record TcpTrace : Type 0 where
  pub pcap_file : File
  pub tcp_flows : FlowMap
  pub source_mac_addr : Bytes
  pub deleted : Bool

-- What the memory of uninitialised objects holds: the packet buffer and `struct pcap_pkthdr` on the
-- stack, and a new `TCPMimic`.
pub record Stale : Type 0 where
  pub frame : Bytes
  pub pkthdr : Bytes
  pub mimic : TcpMimic

-- The constructor, with the file that `fopen` returned, and whether it calls `finish_simulation`:
-- for a file with no whole header. `sim_backend` is then still null, so nothing is deleted.
unfoldable pub new_trace : File → Bytes → TcpTrace × Bool
new_trace pcap_file mac =
    let (whole, file) = consume_pcap_header pcap_file in
    (record { pcap_file = file; tcp_flows = []; source_mac_addr = mac; deleted = false }, not whole)

abbrev process : Parsed → TcpMimic → TcpMimic
process p m =
    let m' = set_my_seq p.seq_num m in
    if p.flags == tcp_syn
    then set_my_ack (u32 (p.seq_num + 1)) m'
    else (update_my_ack p.payload_len m').1

unfoldable pub buf_process_helper : Bytes → TcpMimic → Option TcpMimic
unfolding set_my_seq set_my_ack update_my_ack
buf_process_helper pkt_buf m = do p ← parse pkt_buf; some (process p m)

-- `check_my_ack` is declared and nowhere defined: a parameter. Its answer only chooses a warning.
module _ (check_my_ack : ℕ → TcpMimic → Bool) where
  abbrev acknowledge : Parsed → TcpMimic → TcpMimic × Bool
  acknowledge p m =
      let warned = not (check_my_ack p.ack_num m) in
      if p.flags == tcp_ack + tcp_syn
      then (
        set_handshake_done true (set_their_ack (u32 (p.seq_num + 1)) (set_their_seq p.seq_num m)),
        warned,
      )
      else if p.flags == tcp_ack
      then ((update_their_ack p.payload_len (set_their_seq p.seq_num m)).1, warned)
      else (m, true)

  -- The flow, and whether a warning is printed.
  unfoldable pub recv_buf_helper : Bytes → TcpMimic → Option (TcpMimic × Bool)
  unfolding set_their_seq set_their_ack update_their_ack set_handshake_done
  recv_buf_helper pkt_buf m = do p ← parse pkt_buf; some (acknowledge p m)

-- A packet of the trace whose flow is known: what is returned, and the flow.
unfoldable pub known_flow : Bool → Bytes → TcpMimic → Option (Bytes × TcpMimic)
known_flow true pkt_buf m =
    let at_once = (do m' ← buf_process_helper pkt_buf m; some (pkt_buf, m')) in
    let from_queue = (do
      (front, m') ← get_pkts_to_send_front (put_pkts_to_send_back pkt_buf m)
      m'' ← buf_process_helper front m'
      some (front, m'')) in
    if get_handshake_done m
    then (if pkts_to_send_empty m then at_once else from_queue)
    else some ([], put_pkts_to_send_back pkt_buf m)
known_flow false pkt_buf m = some ([], put_pkts_to_recv_back pkt_buf m)

-- A packet that opens a flow.
unfoldable pub new_flow : TcpMimic → Bool → Bytes → Option (Bytes × TcpMimic)
new_flow stale true pkt_buf = do
  m ← buf_process_helper pkt_buf (new_mimic stale false)
  some (pkt_buf, m)
new_flow stale false pkt_buf = some ([], put_pkts_to_recv_back pkt_buf (new_mimic stale false))

-- What is returned for a packet of the flow `key`, and the flows.
unfoldable pub dispatch : TcpMimic → Bool → FlowTuple → Bytes → FlowMap → Option (Bytes × FlowMap)
dispatch stale send key pkt_buf fs = elim (find key fs) [
  | some m ↦ do (out, m') ← known_flow send pkt_buf m; some (out, update key m' fs)
  | none ↦ do (out, m) ← new_flow stale send pkt_buf; some (out, insert key m fs)
]

-- The first packet that waits to be sent in the flow `k`.
unfoldable pub send_front : FlowTuple → TcpMimic → FlowMap → Option (Bytes × FlowMap)
send_front k m fs = do
  (pkt_buf, m') ← get_pkts_to_send_front m
  m'' ← buf_process_helper pkt_buf m'
  some (pkt_buf, update k m'' fs)

-- The end of the file: the first flow on the way with a packet to send gives its front. An
-- iteration visits only keys of the map.
unfoldable pub drain : List FlowTuple → FlowMap → Option (Bytes × FlowMap)
drain [] fs = some ([], fs)
drain (k ∷ ks) fs = elim (find k fs) [
  | none ↦ none
  | some m ↦ if pkts_to_send_empty m then drain ks fs else send_front k m fs
]

-- `sizeof(buffer)`
abbrev pub buffer_size : ℕ
buffer_size = 2048

-- Whether a packet is sent to the hardware, and its flow.
unfoldable pub packet_key : ℕ → Bytes → Bytes → Option (Bool × FlowTuple)
packet_key ip_len frame mac = do
  send ← send_packet frame mac
  key ← lookup_tuple send ip_len frame
  some (send, key)

-- A packet that was read, at the front of a buffer that is stale behind it.
unfoldable pub replay : Stale → ℕ → Bytes → Bytes → FlowMap → Option (Bytes × FlowMap)
replay stale ip_len pkt_buf mac fs = do
  (send, key) ← packet_key ip_len (pkt_buf ++ drop (length pkt_buf) stale.frame) mac
  dispatch stale.mimic send key pkt_buf fs

-- `order` lists the keys of the map as an iteration visits them.
module _ (order : FlowMap → List FlowTuple) where
  unfoldable pub next_packet : Stale → ℕ → Bytes → Bytes → FlowMap → Option (Bytes × FlowMap)
  next_packet stale ip_len pkt_buf mac fs =
      if ltb 0 (length pkt_buf) then replay stale ip_len pkt_buf mac fs else drain (order fs) fs

  -- The place of the TCP header is computed before the packet is read, from the stale buffer.
  unfoldable pub get_buf_fr_io : Stale → TcpTrace → Option (Bytes × TcpTrace)
  get_buf_fr_io stale t = do
    require (not t.deleted)
    ip_len ← ip_hdr_len stale.frame
    (pkt_buf, file) ← read_pcap_record stale.pkthdr buffer_size t.pcap_file
    (out, fs) ← next_packet stale ip_len pkt_buf t.source_mac_addr t.tcp_flows
    some (out, record t { pcap_file = file; tcp_flows = fs })

-- A packet from the hardware in the flow `key`: one of no known flow is ignored. The comparisons
-- made, the state, and the size that is returned.
unfoldable pub receive_in : FlowTuple → Bytes → TcpTrace → Option (List Comparison × TcpTrace × ℕ)
receive_in key pkt_buf t = elim (find key t.tcp_flows) [
  | none ↦ some ([], t, length pkt_buf)
  | some m ↦ do
    (cs, m', gone) ← receive pkt_buf m
    some (cs, record t { tcp_flows = update key m' t.tcp_flows; deleted = gone }, length pkt_buf)
]

unfoldable pub put_buf_on_io : Bytes → TcpTrace → Option (List Comparison × TcpTrace × ℕ)
put_buf_on_io pkt_buf t = do
  require (not t.deleted)
  ip_len ← ip_hdr_len pkt_buf
  (send, key) ← packet_key ip_len pkt_buf t.source_mac_addr
  receive_in key pkt_buf t
