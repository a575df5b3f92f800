-- ===== src/Arp/Examples.antt =====
-- A request for the address of the network side, and its answer.
use tcp_hw.Base.{◌≡◌, ◌⊎◌, refl, arith, some, none, [], ◌∷◌, ◌++◌, Bytes, replicate, memcpy}
use tcp_hw.Arp.{SockState, answer}
use tcp_hw.Arp.Reply.{Asks, Replies, answer_lem}

abbrev host : SockState
host = record {
  s_addr = 192 ∷ 0 ∷ 0 ∷ 2 ∷ [];
  sin_port = 1234;
  source_mac_addr = 0x24 ∷ 0xbe ∷ 0x05 ∷ 0xbf ∷ 0x5b ∷ 0x91 ∷ [];
  dest_mac_addr = [];
  has_syn_acked = 0;
}

abbrev request : Bytes
request =
    0 ∷ 1 ∷ 8 ∷ 0 ∷ 6 ∷ 4 ∷ 0 ∷ 1 ∷ 2 ∷ 0 ∷ 0 ∷ 0 ∷ 0 ∷ 1 ∷ 192 ∷ 0 ∷ 0 ∷ 1 ∷ replicate 6 0
    ++ (192 ∷ 0 ∷ 0 ∷ 2 ∷ [])

answer_example :
    ((sha : Bytes) × (spa : Bytes) × (reply : Bytes) × Asks host request
      × (memcpy request 8 6 ≡ some sha)
      × (memcpy request 14 4 ≡ some spa)
      × (answer host request ≡ some (some (record host { dest_mac_addr = sha }, reply)))
      × Replies host sha spa reply)
    ⊎ ((answer host request ≡ some none) × ¬ Asks host request)
answer_example = answer_lem host request (omega arith) refl refl
