-- ===== src/Frame/Address.antt =====
-- The test of the destination address, and the equality of flow tuples.
use tcp_hw.Base.{
  ℕ, zero, suc, ◌+◌, ◌≤◌, ◌≡◌, ◌↔◌, refl, ap, arith, Bool, true, false, some, Bytes, length, take,
  drop, load8, get_elem?-drop, ◌==◌, ==_iff, Bool-cases, inl, inr,
}
use tcp_hw.Frame.{same_mac_from, send_packet, FlowTuple, flow_eq, flow_hash}

-- Over buffers that reach far enough, the loop answers whether the next `rounds` bytes agree.
same_mac_from_iff :
    (rounds i : ℕ) (frame mac : Bytes)
    → i + rounds ≤ length frame
    → i + rounds ≤ length mac
    → (b : Bool) × (same_mac_from rounds i frame mac ≡ some b)
      × ((b ≡ true) ↔ (take rounds (drop i frame) ≡ take rounds (drop i mac)))
unfolding same_mac_from load8
same_mac_from_iff zero i frame mac h k = (true, refl, ((λ _. refl), λ _. refl))
same_mac_from_iff (suc rounds) i frame mac h k =
    let (a, ea, da) = get_elem?-drop frame i (omega arith) in
    let (c, ec, dc) = get_elem?-drop mac i (omega arith) in
    let (b, eb, spec) = same_mac_from_iff rounds (suc i) frame mac (omega arith) (omega arith) in
    elim (Bool-cases (a == c)) [
      | inl e ↦ (
        b,
        rw (ea, ec, e) eb,
        (λ p. rw (da, dc) (cc (spec.0 p, (==_iff a c).0 e)), λ q. spec.1 (cc (rw (da, dc) at q))),
      )
      | inr e ↦ (false, rw (ea, ec, e) refl, (λ p. cc, λ q. ground (arith, (rw (da, dc) at q), e)))
    ]

-- The operator `==` of flow tuples holds exactly for equal tuples.
pub flow_eq_iff : (a b : FlowTuple) → (flow_eq a b ≡ true) ↔ (a ≡ b)
unfolding flow_eq
flow_eq_iff a b = ground arith

-- For buffers of at least 6 bytes, the test of the destination address says whether the first six
-- bytes of the frame are those of the address.
pub send_packet_iff :
    (frame mac : Bytes)
    → 6 ≤ length frame
    → 6 ≤ length mac
    → (b : Bool) × (send_packet frame mac ≡ some b) × ((b ≡ true) ↔ (take 6 frame ≡ take 6 mac))
unfolding send_packet
send_packet_iff frame mac h k = same_mac_from_iff 6 0 frame mac h k

-- Keys that the map takes for equal have the same hash, as `std::unordered_map` requires.
flow_eq-flow_hash :
    (hash_value32 hash_value16 : ℕ → ℕ) (hash_combine : ℕ → ℕ → ℕ) (j k : FlowTuple)
    → flow_eq j k ≡ true
    → flow_hash hash_value32 hash_value16 hash_combine j
      ≡ flow_hash hash_value32 hash_value16 hash_combine k
flow_eq-flow_hash hash_value32 hash_value16 hash_combine j k e =
    ap (flow_hash hash_value32 hash_value16 hash_combine) ((flow_eq_iff j k).0 e)
