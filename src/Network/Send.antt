-- ===== src/Network/Send.antt =====
-- All calls of `put_data` in turn: a stream of beats from the hardware as packets of the backend.
use tcp_hw.Base.{
  ℕ, ◌≡◌, ◌∙◌, refl, sym, ap, some, List, [], ◌∷◌, ◌++◌, Bytes, ◌>>=◌, if◌then◌else◌, Option-cases,
  Bool-cases, inl, inr,
}
use tcp_hw.Backend.{DpiTestingLib, Accepts, stays, takes}
use tcp_hw.Network.{Beat, NetworkSide, put_data, send_on_socket}
use tcp_hw.Network.Loopback.{BeatsOf, final, more, put_packet, put_packet_lem}
use tcp_hw.Network.Lift.{Call, put, calls}
use tcp_hw.Network.Stream.{Stream, over, pause, carry, calls-append}

-- The calls of `put_data` for beats of the hardware. A beat that is not valid makes no call.
abbrev pub puts : List Beat → List Call
puts [] = []
puts (b ∷ bs) = let rest = puts bs in if b.val then put b.bytes b.last b.padbytes ∷ rest else rest

module _ {S : Type 0} (sim_backend : DpiTestingLib S) where
  -- The beats of a packet are all valid.
  puts-BeatsOf :
      (net : NetworkSide S) {p : Bytes} {bs : List Beat}
      → BeatsOf p bs
      → calls sim_backend (puts bs) net ≡ (put_packet sim_backend bs net >>= λ n. some ([], n))
  unfolding calls put_packet
  puts-BeatsOf net (final {b = b} is h) =
      elim (Option-cases (put_data sim_backend b.bytes b.last b.padbytes net)) [
        | inl e ↦ rw (is.val, e) refl
        | inr (mid, e) ↦ rw (is.val, e) refl
      ]
  puts-BeatsOf net (more {b = b} is h are) =
      elim (Option-cases (put_data sim_backend b.bytes b.last b.padbytes net)) [
        | inl e ↦ rw (is.val, e) refl
        | inr (mid, e) ↦ rw (is.val, e) (puts-BeatsOf mid are)
      ]

puts-append : (bs cs : List Beat) → puts (bs ++ cs) ≡ puts bs ++ puts cs
puts-append [] cs = refl
puts-append (b ∷ bs) cs = elim (Bool-cases b.val) [
  | inl e ↦ rw e (ap (λ q. put b.bytes b.last b.padbytes ∷ q) (puts-append bs cs))
  | inr e ↦ rw e (puts-append bs cs)
]

module _ {S : Type 0} (sim_backend : DpiTestingLib S) where
  -- One packet.
  pub send_lem :
      (net : NetworkSide S) {p : Bytes} {bs : List Beat} {size : ℕ} {s : S}
      → BeatsOf p bs
      → net.tx_buffer ≡ []
      → sim_backend.put_buf_on_io p net.backend ≡ some (size, s)
      → calls sim_backend (puts bs) net ≡ some ([], record net { backend = s; tx_buffer = [] })
  unfolding send_on_socket
  send_lem net {p} {bs} are empty taken =
      puts-BeatsOf sim_backend net are
      ∙ rw (put_packet_lem sim_backend p bs net are, empty, taken) refl

  -- Let the send buffer be empty, let the hardware send the beats of packets in turn, and let the
  -- backend take these packets. Then the calls of `put_data` hand it exactly these packets, in
  -- order, with no fault, the send buffer is empty again, and nothing but the backend has changed.
  pub send_stream_lem :
      (net : NetworkSide S) {s : S} (pkts : List Bytes) (bs : List Beat) (s' : S)
      → net.backend ≡ s
      → net.tx_buffer ≡ []
      → Stream bs pkts
      → Accepts sim_backend s pkts s'
      → calls sim_backend (puts bs) net ≡ some ([], record net { backend = s'; tx_buffer = [] })
  unfolding calls
  send_stream_lem net pkts bs s' at empty over stays =
      ap (λ n. some ([], n)) (rw (sym at, sym empty) refl)
  send_stream_lem net pkts bs s' at empty (pause st) acc =
      send_stream_lem net pkts _ s' at empty st acc
  send_stream_lem net pkts bs s' at empty (carry {bs = cs} {cs = ds} are st)
        (takes {s' = s1} {pkts = ps} {size = size} e acc) =
      let taken : sim_backend.put_buf_on_io _ net.backend ≡ some (size, s1) = rw at e in
      rw (puts-append cs ds) (
        calls-append sim_backend (puts cs) (puts ds) net (send_lem net are empty taken)
          (send_stream_lem (record net { backend = s1; tx_buffer = [] }) ps ds s' refl refl st acc))
