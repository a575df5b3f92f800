-- ===== src/Mimic/Examples.antt =====
-- The matching of packets at a flow in which packets come before they are expected.
use tcp_hw.Base.{◌≡◌, refl, false, some, List, [], ◌∷◌, ◌++◌, Bytes}
use tcp_hw.Compare.{compare_bufs, compare_from, finishes}
use tcp_hw.Mimic.{TcpMimic}
use tcp_hw.Mimic.Matching.{Comparison, receive}
use tcp_hw.Mimic.Matching.Fifo.{receive_lem}
use tcp_hw.Mimic.Matching.History.{
  FlowEvent, expect, from_hardware, run, references, receiveds, run-fifo,
}

abbrev flow : List Bytes → List Bytes → TcpMimic
flow refs got = record {
  handshake_done = false;
  my_seq = 0;
  my_expected_ack = 0;
  their_seq = 0;
  their_expected_ack = 0;
  pkts_recved_buf = got;
  pkts_to_recv = refs;
  pkts_to_send = [];
}

-- The second packet differs from the one expected in a byte.
abbrev events : List FlowEvent
events =
    from_hardware (1 ∷ 2 ∷ [])
    ∷ expect (1 ∷ 2 ∷ [])
    ∷ expect (3 ∷ 4 ∷ [])
    ∷ from_hardware (3 ∷ 5 ∷ [])
    ∷ expect (6 ∷ [])
    ∷ []

run-fifo_example :
    (cs : List Comparison) × (m' : TcpMimic) × (run events (flow [] []) ≡ some (cs, m'))
    × (cs
        ≡ record { reference = 1 ∷ 2 ∷ []; received = 1 ∷ 2 ∷ [] }
          ∷ record { reference = 3 ∷ 4 ∷ []; received = 3 ∷ 5 ∷ [] }
          ∷ [])
    × (references cs ++ m'.pkts_to_recv ≡ (1 ∷ 2 ∷ []) ∷ (3 ∷ 4 ∷ []) ∷ (6 ∷ []) ∷ [])
    × (receiveds cs ++ m'.pkts_recved_buf ≡ (1 ∷ 2 ∷ []) ∷ (3 ∷ 5 ∷ []) ∷ [])
unfolding compare_bufs compare_from finishes
run-fifo_example = run-fifo events (flow [] []) (refl, (refl, tt))

receive_example :
    receive (3 ∷ []) (flow ((1 ∷ []) ∷ (2 ∷ []) ∷ []) ((1 ∷ []) ∷ []))
    ≡ some (
      record { reference = 1 ∷ []; received = 1 ∷ [] }
          ∷ record { reference = 2 ∷ []; received = 3 ∷ [] }
          ∷ [],
      flow [] [],
      false,
    )
unfolding compare_bufs compare_from finishes
receive_example =
    receive_lem (3 ∷ []) (flow ((1 ∷ []) ∷ (2 ∷ []) ∷ []) ((1 ∷ []) ∷ [])) (refl, (refl, tt))
