-- ===== src/TcpTrace/Examples.antt =====
-- Tests of the trace backend on a small trace, and its theorems at it.
pub mod Trace
pub mod Orders
use tcp_hw.Base.{
  ℕ, ◌≡◌, refl, arith, Bool, true, false, none, some, List, [], ◌∷◌, ◌++◌, Bytes, length, drop,
  replicate, load8, load16, load32, if◌then◌else◌, inl, inr, Bool-cases, subst, ap,
}
use tcp_hw.Stdio.{File, fread, fread_item}
use tcp_hw.Pcap.{file_header, record_bytes, consume_fields, consume_pcap_header, read_pcap_record}
use tcp_hw.Frame.{same_mac_from, send_packet, ip_hdr_len, FlowTuple, flow_eq, lookup_tuple, parse}
use tcp_hw.Frame.Address.{flow_eq_iff}
use tcp_hw.Compare.{finishes, compare_bufs, compare_from}
use tcp_hw.Mimic.{TcpMimic, new_mimic}
use tcp_hw.TcpTrace.{
  FlowMap, TcpTrace, Stale, find, insert, new_trace, buf_process_helper, new_flow, dispatch,
  packet_key, replay, next_packet, get_buf_fr_io, put_buf_on_io, buffer_size,
}
use tcp_hw.TcpTrace.Replay.{Reach, get, start, next, Reach-Waits, returned_opens}
use tcp_hw.TcpTrace.Drain.{other_side, Visits, queue, Has}
use tcp_hw.TcpTrace.Handshake.{Waits}
use tcp_hw.TcpTrace.Flows.{Every}
use tcp_hw.TcpTrace.Rest.{Log, packets, of_flow, fetch_rest, fetch_rest_lem}
use tcp_hw.TcpTrace.Receive.{put-known, put-different_size}

abbrev pub hw_mac : Bytes
hw_mac = 0x24 ∷ 0xbe ∷ 0x05 ∷ 0xbf ∷ 0x5b ∷ 0x91 ∷ []

abbrev peer_mac : Bytes
peer_mac = 2 ∷ 0 ∷ 0 ∷ 0 ∷ 0 ∷ 1 ∷ []

abbrev hw_ip : Bytes
hw_ip = 192 ∷ 0 ∷ 0 ∷ 2 ∷ []

abbrev peer_ip : Bytes
peer_ip = 192 ∷ 0 ∷ 0 ∷ 1 ∷ []

-- An Ethernet frame with a TCP segment without payload.
abbrev frame : Bytes → Bytes → Bytes → Bytes → Bytes → ℕ → Bytes
frame dst src ip_from ip_to ports flags =
    dst
    ++ (src
        ++ (8 ∷ 0 ∷ 0x45 ∷ 0 ∷ 0 ∷ 40 ∷ 0 ∷ 0 ∷ 0 ∷ 0 ∷ 64 ∷ 6 ∷ 0 ∷ 0 ∷ ip_from
            ++ (ip_to
                ++ (ports
                    ++ (0 ∷ 0 ∷ 0 ∷ 7 ∷ 0 ∷ 0 ∷ 0 ∷ 9 ∷ 0x50 ∷ flags ∷ 22 ∷ 208 ∷ 0 ∷ 0 ∷ 0 ∷ 0
                        ∷ [])))))

abbrev pub to_hw : ℕ → Bytes
to_hw flags = frame hw_mac peer_mac peer_ip hw_ip (0 ∷ 80 ∷ 4 ∷ 210 ∷ []) flags

abbrev pub from_hw : ℕ → Bytes
from_hw flags = frame peer_mac hw_mac hw_ip peer_ip (4 ∷ 210 ∷ 0 ∷ 80 ∷ []) flags

abbrev pub memory : Stale
memory = record {
  frame = replicate 14 0 ++ (0x45 ∷ []);
  pkthdr = [];
  mimic = record {
    handshake_done = true;
    my_seq = 5;
    my_expected_ack = 5;
    their_seq = 5;
    their_expected_ack = 5;
    pkts_recved_buf = [];
    pkts_to_recv = [];
    pkts_to_send = [];
  };
}

abbrev pub key : FlowTuple
key = record { my_ip = 0x0100_00c0; their_ip = 0x0200_00c0; my_port = 0x5000; their_port = 0xd204 }

abbrev file : File
file = record { content = file_header ++ record_bytes 1 2 (to_hw 2); pos = 0; at_end = false }

abbrev pub keys : FlowMap → List FlowTuple
keys [] = []
keys ((k, m) ∷ fs) = k ∷ keys fs

abbrev opened : TcpTrace
opened = record {
  pcap_file = record {
    content = file_header ++ record_bytes 1 2 (to_hw 2);
    pos = 24;
    at_end = false;
  };
  tcp_flows = [];
  source_mac_addr = hw_mac;
  deleted = false;
}

-- The constructor skips the header of the file.
new_trace_example : new_trace file hw_mac ≡ (opened, false)
unfolding new_trace consume_pcap_header consume_fields fread_item fread
new_trace_example = refl

packet_read :
    read_pcap_record [] buffer_size opened.pcap_file
    ≡ some (to_hw 2, record opened.pcap_file { pos = 94 })
unfolding read_pcap_record fread load32 load8
packet_read = refl

abbrev flow : List Bytes → List Bytes → List Bytes → TcpMimic
flow sends recvs got = record {
  handshake_done = false;
  my_seq = 0x0700_0000;
  my_expected_ack = 0x0700_0001;
  their_seq = 5;
  their_expected_ack = 5;
  pkts_recved_buf = got;
  pkts_to_recv = recvs;
  pkts_to_send = sends;
}

abbrev with_flow : TcpMimic → ℕ → TcpTrace
with_flow m pos = record opened {
  pcap_file = record opened.pcap_file { pos = pos };
  tcp_flows = (key, m) ∷ [];
}

-- The packet that opens the flow is returned.
get_example : get_buf_fr_io keys memory opened ≡ some (to_hw 2, with_flow (flow [] [] []) 94)
unfolding get_buf_fr_io next_packet replay dispatch new_flow new_mimic buf_process_helper parse
    packet_key send_packet same_mac_from lookup_tuple ip_hdr_len read_pcap_record fread find insert
    flow_eq load8 load16 load32
get_example = refl

opened-Reach : Reach keys opened
opened-Reach =
    subst (λ t. Reach keys t) (ap (λ (r : TcpTrace × Bool). r.0) new_trace_example)
      (start file hw_mac)

Reach-Waits_example : Every Waits ((key, flow [] [] []) ∷ [])
Reach-Waits_example =
    Reach-Waits keys {t = with_flow (flow [] [] []) 94}
      (next opened-Reach (get memory opened (with_flow (flow [] [] []) 94) (to_hw 2) get_example))

returned_opens_example :
    (ip_len : ℕ) × (k : FlowTuple) × (ip_hdr_len memory.frame ≡ some ip_len)
    × (packet_key ip_len (to_hw 2 ++ drop (length (to_hw 2)) memory.frame) hw_mac ≡ some (true, k))
    × (find k [] ≡ none)
    × (to_hw 2 ≡ to_hw 2)
returned_opens_example =
    returned_opens keys memory opened (with_flow (flow [] [] []) 94)
      (record opened.pcap_file { pos = 94 }) (to_hw 2) (to_hw 2) opened-Reach packet_read
      (omega arith) get_example (λ e. cc)

visits_all : (fs : FlowMap) (k : FlowTuple) (m : TcpMimic) → find k fs ≡ some m → Has k (keys fs)
unfolding find
visits_all [] k m e = cc
visits_all ((j, n) ∷ fs) k m e = elim (Bool-cases (flow_eq j k)) [
  | inl p ↦ inl ((flow_eq_iff j k).0 p)
  | inr p ↦ inr (visits_all fs k m (rw p at e))
]

visits_only :
    (fs : FlowMap) (k : FlowTuple) → Has k (keys fs) → (m : TcpMimic) × (find k fs ≡ some m)
unfolding find
visits_only [] k h = absurd h
visits_only ((j, n) ∷ fs) k h = elim (Bool-cases (flow_eq j k)) [
  | inl p ↦ (n, rw p)
  | inr p ↦ elim h [
    | inl e ↦ absurd (cc ((flow_eq_iff j k).1 e, p))
    | inr later ↦ let (m, e) = visits_only fs k later in (m, rw p e)
  ]
]

pub keys-Visits : Visits keys
keys-Visits = record { all = visits_all; only = visits_only }

-- The hardware has to send the packet with the flags 18 next.
abbrev waiting_for : List Bytes → TcpTrace
waiting_for refs = with_flow (flow [] refs []) 94

own_length : (flags : ℕ) → ip_hdr_len (from_hw flags) ≡ some 20
unfolding ip_hdr_len load8
own_length flags = refl

own_key : packet_key 20 (from_hw 18) hw_mac ≡ some (false, key)
unfolding packet_key send_packet same_mac_from lookup_tuple load8 load16 load32
own_key = refl

found : (m : TcpMimic) (pos : ℕ) → find key (with_flow m pos).tcp_flows ≡ some m
unfolding find flow_eq
found m pos = refl

put-known_example :
    (t' : TcpTrace) × (put_buf_on_io (from_hw 18) (waiting_for (from_hw 18 ∷ []))
      ≡ some (record { reference = from_hw 18; received = from_hw 18 } ∷ [], t', 54))
    × (t'.deleted ≡ false)
    × (t'.pcap_file ≡ record opened.pcap_file { pos = 94 })
    × (t'.source_mac_addr ≡ hw_mac)
    × ((j : FlowTuple)
        → find j t'.tcp_flows ≡ (
            if flow_eq key j
            then some (flow [] [] [])
            else find j (waiting_for (from_hw 18 ∷ [])).tcp_flows))
unfolding compare_bufs compare_from finishes
put-known_example =
    put-known (from_hw 18) (waiting_for (from_hw 18 ∷ [])) 20 false key refl (own_length 18) own_key
      (flow [] (from_hw 18 ∷ []) []) (found (flow [] (from_hw 18 ∷ []) []) 94) (refl, tt)

put-different_size_example :
    (t' : TcpTrace) × (put_buf_on_io (from_hw 18) (waiting_for ((1 ∷ []) ∷ []))
      ≡ some (record { reference = 1 ∷ []; received = from_hw 18 } ∷ [], t', 54))
    × (get_buf_fr_io keys memory t' ≡ none)
    × (put_buf_on_io [] t' ≡ none)
put-different_size_example =
    put-different_size (from_hw 18) (waiting_for ((1 ∷ []) ∷ [])) 20 false key refl (own_length 18)
      own_key keys memory [] (flow [] ((1 ∷ []) ∷ []) []) (1 ∷ []) []
      (found (flow [] ((1 ∷ []) ∷ []) []) 94) refl refl (omega arith)
