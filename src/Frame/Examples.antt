-- ===== src/Frame/Examples.antt =====
-- The test of the destination address at a frame, and the equality of two flows.
use tcp_hw.Base.{◌≡◌, refl, false, some, [], ◌∷◌, Bytes, load8}
use tcp_hw.Frame.{same_mac_from, send_packet, FlowTuple, flow_eq}

abbrev frame : Bytes
frame = 1 ∷ 2 ∷ 3 ∷ 4 ∷ 5 ∷ 6 ∷ 7 ∷ 8 ∷ []

abbrev mac : Bytes
mac = 1 ∷ 2 ∷ 3 ∷ 4 ∷ 5 ∷ 7 ∷ []

abbrev a : FlowTuple
a = record { my_ip = 1; their_ip = 2; my_port = 3; their_port = 4 }

abbrev b : FlowTuple
b = record { my_ip = 2; their_ip = 1; my_port = 4; their_port = 3 }

-- The last byte of the address differs.
not_sent : send_packet frame mac ≡ some false
unfolding send_packet same_mac_from load8
not_sent = refl

other_flow : flow_eq a b ≡ false
unfolding flow_eq
other_flow = refl
