-- ===== src/Network/Stream.antt =====
-- All calls of `get_data` in turn: the packets of the backend as one stream of beats.
use tcp_hw.Base.{
  ℕ, zero, suc, ◌+◌, ◌*◌, ◌≤◌, ◌<◌, ◌≡◌, refl, sym, ap, arith, some, none, List, [], ◌∷◌, ◌++◌,
  Bytes, All, length, take, drop, length-take, length-drop, map, ◌>>=◌, >>=-some, Option-cases,
  load16, htons, pos→==_false, le→leb, lt→leb, inl, inr,
}
use tcp_hw.Backend.{DpiTestingLib, Yields, rests, gives}
use tcp_hw.Arp.{ethertype_ip}
use tcp_hw.Network.{
  RxDataInterface, Beat, NetworkSide, beat_bytes, ether_header_size, no_beat, get_data, put_data,
}
use tcp_hw.Network.Packets.{Left}
use tcp_hw.Network.Memory.{next_beat_lem}
use tcp_hw.Network.Loopback.{BeatsOf, final, more, get_data-Left}
use tcp_hw.Network.Echo.{loaded, received}
use tcp_hw.Network.Branches.{get_data_ignores}
use tcp_hw.Network.Lift.{Call, get, put, calls}
use native.Mathlib.Decide.{dec_le}
use native.Mathlib.Nat.{add-zero, add-suc}

-- Beats that carry packets in turn, with idle beats between packets.
pub data Stream : List Beat → List Bytes → Type 0 where
  over : Stream [] []
  pause : {bs : List Beat} {ps : List Bytes} → Stream bs ps → Stream (no_beat ∷ bs) ps
  carry :
      {p : Bytes} {bs cs : List Beat} {ps : List Bytes}
      → BeatsOf p bs
      → Stream cs ps
      → Stream (bs ++ cs) (p ∷ ps)

-- An IP packet that is at least as long as its header claims, and the bytes that the header claims.
abbrev pub IsIp : Bytes → Type 0
IsIp pkt =
    (ether_type : ℕ) × (tot_len : ℕ) × (load16 pkt 12 ≡ some ether_type)
    × (htons ether_type ≡ ethertype_ip)
    × (load16 pkt 16 ≡ some tot_len)
    × (htons tot_len + ether_header_size ≤ length pkt)

abbrev pub claimed : Bytes → Bytes
claimed pkt = elim (load16 pkt 16) [ none ↦ pkt | some n ↦ take (htons n + ether_header_size) pkt ]

-- Nothing is left to drive.
abbrev pub Idle : {S : Type 0} → NetworkSide S → Type 0
Idle net = net.rx_data_if.buffer_len ≤ net.rx_data_if.buffer_pos

-- So many calls of `get_data`, of which the j-th finds `vectors (i + j)`.
abbrev pub gets : (ℕ → Bytes) → ℕ → ℕ → List Call
gets vectors i zero = []
gets vectors i (suc m) = get (vectors i) ∷ gets vectors (suc i) m

gets-append :
    (vectors : ℕ → Bytes) (i m n : ℕ)
    → gets vectors i (n + m) ≡ gets vectors i m ++ gets vectors (i + m) n
gets-append vectors i zero n = rw (add-zero n, add-zero i) refl
gets-append vectors i (suc m) n =
    let next : suc i + m ≡ i + suc m = omega arith in
    rw (add-suc n m, sym next) (ap (λ cs. get (vectors i) ∷ cs) (gets-append vectors (suc i) m n))

module _ {S : Type 0} (sim_backend : DpiTestingLib S) where
  -- Calls behind calls.
  calls_behind :
      (xs ys : List Call) (net : NetworkSide S)
      → calls sim_backend (xs ++ ys) net ≡ (
          calls sim_backend xs net >>= λ (r : List Beat × NetworkSide S).
          calls sim_backend ys r.1 >>= λ (q : List Beat × NetworkSide S). some (r.0 ++ q.0, q.1))
  unfolding calls
  calls_behind [] ys net = sym (>>=-some (calls sim_backend ys net))
  calls_behind (get v ∷ xs) ys net = elim (Option-cases (get_data sim_backend v net)) [
    | inl e ↦ rw e refl
    | inr ((b, mid), e) ↦ elim (Option-cases (calls sim_backend xs mid)) [
      | inl c ↦ rw (e, calls_behind xs ys mid, c) refl
      | inr ((bs, last), c) ↦ elim (Option-cases (calls sim_backend ys last)) [
        | inl d ↦ rw (e, calls_behind xs ys mid, c, d) refl
        | inr (q, d) ↦ rw (e, calls_behind xs ys mid, c, d) refl
      ]
    ]
  ]
  calls_behind (put v last padbytes ∷ xs) ys net =
      elim (Option-cases (put_data sim_backend v last padbytes net)) [
        | inl e ↦ rw e refl
        | inr (mid, e) ↦ rw e (calls_behind xs ys mid)
      ]

  pub calls-append :
      (xs ys : List Call) (net : NetworkSide S) {bs cs : List Beat} {net1 net2 : NetworkSide S}
      → calls sim_backend xs net ≡ some (bs, net1)
      → calls sim_backend ys net1 ≡ some (cs, net2)
      → calls sim_backend (xs ++ ys) net ≡ some (bs ++ cs, net2)
  calls-append xs ys net e1 e2 = rw (calls_behind xs ys net, e1, e2) refl

  -- What is left of a packet is driven to its end.
  packet_lem :
      (vectors : ℕ → Bytes) (i k : ℕ) (net : NetworkSide S) (buf xs : Bytes)
      → ((j : ℕ) → length (vectors j) ≡ beat_bytes)
      → Left buf xs net.rx_data_if
      → 0 < length xs
      → length xs ≤ beat_bytes * k
      → (m : ℕ) × (bs : List Beat) × (rx : RxDataInterface) × (calls sim_backend
            (gets vectors i (suc m))
            net
          ≡ some (bs, record net { rx_data_if = rx }))
        × BeatsOf xs bs
        × (rx.buffer_len ≤ rx.buffer_pos)
  unfolding calls
  packet_lem vectors i zero net buf xs full l pos fuel = absurd (omega arith)
  packet_lem vectors i (suc k) net buf xs full l pos fuel =
      let (b, rx, run, is, after) = next_beat_lem (vectors i) buf xs net.rx_data_if (full i) l in
      let data_got = get_data-Left sim_backend (vectors i) buf xs net l pos in
      elim (dec_le (length xs) beat_bytes) [
        | yes h ↦
            let (gone, idle) = after.done h in
            (0, b ∷ [], rx, rw (data_got, run) refl, final is h, omega (arith, idle))
        | no h ↦
            let (m, bs, rx', later, are, idle) =
              packet_lem vectors (suc i) k (record net { rx_data_if = rx }) buf (drop beat_bytes xs)
                full (after.more (omega arith)) (omega (arith, length-drop beat_bytes xs))
                (omega (arith, length-drop beat_bytes xs)) in
            (suc m, b ∷ bs, rx', rw (data_got, run, later) refl, more is (omega arith) are, idle)
      ]

  -- An IP packet of the backend is driven from an idle state to an idle state.
  pub drive_lem :
      (vectors : ℕ → Bytes) (i : ℕ) (net : NetworkSide S) (pkt : Bytes) (s : S)
      → ((j : ℕ) → length (vectors j) ≡ beat_bytes)
      → Idle net
      → sim_backend.get_buf_fr_io net.backend ≡ some (pkt, s)
      → IsIp pkt
      → (m : ℕ) × (bs : List Beat) × (rx : RxDataInterface) × (calls sim_backend
            (gets vectors i m)
            net
          ≡ some (bs, record net { backend = s; rx_data_if = rx }))
        × BeatsOf (claimed pkt) bs
        × (rx.buffer_len ≤ rx.buffer_pos)
  unfolding calls get_data
  drive_lem vectors i net pkt s full idle given (ether_type, tot_len, typed, is_ip, sized, whole) =
      let len : ℕ = htons tot_len + ether_header_size in
      let bytes : Bytes = take len pkt in
      let sizes : length bytes ≡ len = omega (arith, length-take len pkt) in
      let left : Left bytes bytes (loaded sim_backend pkt len s net).rx_data_if = record {
        allocated = refl;
        sized = omega (arith, sizes);
        rest = refl;
        inside = omega arith;
      } in
      let (m, bs, rx, run, are, done) =
        packet_lem vectors i len (loaded sim_backend pkt len s net) bytes bytes full left
          (omega (arith, sizes)) (omega (arith, sizes)) in
      let first : get_data sim_backend (vectors i) net
          ≡ get_data sim_backend (vectors i) (loaded sim_backend pkt len s net) =
        rw
          (
            le→leb net.rx_data_if.buffer_len net.rx_data_if.buffer_pos idle,
            received sim_backend net pkt s ether_type tot_len idle given typed is_ip sized whole,
            pos→==_false len (omega arith),
            lt→leb len 0 (omega arith),
          )
          refl in
      (suc m, bs, rx, rw first run, rw (claimed, sized) are, done)

  -- Let nothing be left to drive, let the vectors have 32 bytes, and let calls of the backend hand
  -- out IP packets that are at least as long as their headers claim. Then calls of `get_data` drive
  -- the claimed bytes of exactly these packets, in order, each in its beats, with no fault; nothing
  -- is left to drive, and nothing but the backend and the receive interface has changed.
  pub stream_lem :
      (vectors : ℕ → Bytes) (i : ℕ) (net : NetworkSide S) {s : S} (pkts : List Bytes) (s' : S)
      → net.backend ≡ s
      → Yields sim_backend s pkts s'
      → ((j : ℕ) → length (vectors j) ≡ beat_bytes)
      → Idle net
      → All IsIp pkts
      → (m : ℕ) × (bs : List Beat) × (rx : RxDataInterface) × (calls sim_backend
            (gets vectors i m)
            net
          ≡ some (bs, record net { backend = s'; rx_data_if = rx }))
        × Stream bs (map claimed pkts)
        × (rx.buffer_len ≤ rx.buffer_pos)
  unfolding calls
  stream_lem vectors i net pkts s' at rests full quiet ips =
      (0, [], net.rx_data_if, ap (λ b. some ([], record net { backend = b })) at, over, quiet)
  stream_lem vectors i net pkts s' at (gives {s' = s1} {pkt = []} e y) full quiet ips =
      let (m, bs, rx, run, is, done) =
        stream_lem vectors (suc i) (record net { backend = s1 }) pkts s' refl y full quiet ips in
      let first = get_data_ignores sim_backend net [] s1 quiet (rw at e) (vectors i) (inl refl) in
      (suc m, no_beat ∷ bs, rx, rw (first, run) refl, pause is, done)
  stream_lem vectors i net pkts s' at (gives {s' = s1} {pkt = x ∷ xs} {pkts = ps} e y) full quiet
        (ip, ips) =
      let (m, bs, rx, run, are, gone) =
        drive_lem vectors i net (x ∷ xs) s1 full quiet (rw at e) ip in
      let (n, cs, rx', later, is, done) =
        stream_lem vectors (i + m) (record net { backend = s1; rx_data_if = rx }) ps s' refl y full
          gone ips in
      (
        n + m,
        bs ++ cs,
        rx',
        rw (gets-append vectors i m n)
            (calls-append (gets vectors i m) (gets vectors (i + m) n) net run later),
        carry are is,
        done,
      )
