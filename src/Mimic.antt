-- ===== src/Mimic.antt =====
-- `TCPMimic` of sim_dpi/tcp_pcap_trace_testing_lib.hpp and .cpp: what the trace backend keeps of
-- one flow. A `std::queue` is a list, its front first; `front()` of an empty queue is a fault.
pub mod Matching
mod Examples
use tcp_hw.Base.{
  ℕ, ◌+◌, Bool, true, false, Option, none, some, List, [], ◌∷◌, ◌++◌, Bytes, length, u32, ◌==◌,
}

pub record TcpMimic : Type 0 where
  pub handshake_done : Bool
  pub my_seq : ℕ
  pub my_expected_ack : ℕ
  pub their_seq : ℕ
  pub their_expected_ack : ℕ
  pub pkts_recved_buf : List Bytes
  pub pkts_to_recv : List Bytes
  pub pkts_to_send : List Bytes

-- The constructor sets `handshake_done` alone and makes the queues empty: the numbers keep what the
-- memory held, as `stale` does.
unfoldable pub new_mimic : TcpMimic → Bool → TcpMimic
new_mimic stale done = record stale {
  handshake_done = done;
  pkts_recved_buf = [];
  pkts_to_recv = [];
  pkts_to_send = [];
}

-- The update of an expected acknowledgement, and the OLD value that is returned.
unfoldable pub update_my_ack : ℕ → TcpMimic → ℕ × TcpMimic
update_my_ack buf_len m =
    (m.my_expected_ack, record m { my_expected_ack = u32 (m.my_expected_ack + buf_len) })

unfoldable pub update_their_ack : ℕ → TcpMimic → ℕ × TcpMimic
update_their_ack buf_len m =
    (m.their_expected_ack, record m { their_expected_ack = u32 (m.their_expected_ack + buf_len) })

unfoldable pub set_my_seq : ℕ → TcpMimic → TcpMimic
set_my_seq seq_num m = record m { my_seq = seq_num }

unfoldable pub set_their_seq : ℕ → TcpMimic → TcpMimic
set_their_seq seq_num m = record m { their_seq = seq_num }

unfoldable pub set_my_ack : ℕ → TcpMimic → TcpMimic
set_my_ack ack_num m = record m { my_expected_ack = ack_num }

unfoldable pub set_their_ack : ℕ → TcpMimic → TcpMimic
set_their_ack ack_num m = record m { their_expected_ack = ack_num }

unfoldable pub set_handshake_done : Bool → TcpMimic → TcpMimic
set_handshake_done done m = record m { handshake_done = done }

unfoldable pub get_handshake_done : TcpMimic → Bool
get_handshake_done m = m.handshake_done

-- `std::queue`
abbrev empty : List Bytes → Bool
empty [] = true
empty (p ∷ ps) = false

-- `front()`, copied, and `pop()`
abbrev front_pop : List Bytes → Option (Bytes × List Bytes)
front_pop [] = none
front_pop (p ∷ ps) = some (p, ps)

unfoldable pub pkts_recved_empty : TcpMimic → Bool
pkts_recved_empty m = empty m.pkts_recved_buf

unfoldable pub get_pkts_recved_front : TcpMimic → Option (Bytes × TcpMimic)
get_pkts_recved_front m = elim (front_pop m.pkts_recved_buf) [
  | none ↦ none
  | some (p, ps) ↦ some (p, record m { pkts_recved_buf = ps })
]

unfoldable pub put_pkts_recved_back : Bytes → TcpMimic → TcpMimic
put_pkts_recved_back pkt_buf m = record m { pkts_recved_buf = m.pkts_recved_buf ++ (pkt_buf ∷ []) }

unfoldable pub pkts_to_recv_empty : TcpMimic → Bool
pkts_to_recv_empty m = empty m.pkts_to_recv

unfoldable pub get_pkts_to_recv_front : TcpMimic → Option (Bytes × TcpMimic)
get_pkts_to_recv_front m = elim (front_pop m.pkts_to_recv) [
  | none ↦ none
  | some (p, ps) ↦ some (p, record m { pkts_to_recv = ps })
]

unfoldable pub put_pkts_to_recv_back : Bytes → TcpMimic → TcpMimic
put_pkts_to_recv_back pkt_buf m = record m { pkts_to_recv = m.pkts_to_recv ++ (pkt_buf ∷ []) }

unfoldable pub pkts_to_recv_size : TcpMimic → ℕ
pkts_to_recv_size m = length m.pkts_to_recv

unfoldable pub pkts_to_send_empty : TcpMimic → Bool
pkts_to_send_empty m = empty m.pkts_to_send

unfoldable pub get_pkts_to_send_front : TcpMimic → Option (Bytes × TcpMimic)
get_pkts_to_send_front m = elim (front_pop m.pkts_to_send) [
  | none ↦ none
  | some (p, ps) ↦ some (p, record m { pkts_to_send = ps })
]

unfoldable pub put_pkts_to_send_back : Bytes → TcpMimic → TcpMimic
put_pkts_to_send_back pkt_buf m = record m { pkts_to_send = m.pkts_to_send ++ (pkt_buf ∷ []) }
