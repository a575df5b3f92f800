-- ===== src/Network/Ready.antt =====
-- The state of the receive interface between calls: the buffer is read only while it is allocated.
use tcp_hw.Base.{
  ℕ, ◌+◌, ◌≤◌, ◌<◌, ◌≡◌, ◌∙◌, ◌⊎◌, inl, inr, refl, sym, ap, subst, arith, Bool, true, false, some,
  none, [], ◌++◌, Bytes, length, take, drop, length-drop, le→leb, lt→leb, ◌==◌, pos→==_false,
  >>=-eq-some, Bool-cases, Option-cases, load16, htons, memcpy, memcpy-some,
}
use tcp_hw.Backend.{DpiTestingLib}
use tcp_hw.Arp.{ethertype_arp, ethertype_ip, handle_arp}
use tcp_hw.Network.{
  RxDataInterface, Beat, NetworkSide, beat_bytes, ether_header_size, no_beat, next_beat, get_data,
  put_data, send_on_socket, recv_from_socket,
}
use tcp_hw.Network.Packets.{Left, push_loop_lem}
use tcp_hw.Network.Memory.{next_beat_lem}
use tcp_hw.Network.Loopback.{length-bytes}
use mathlib.Core.List.{reverse}
use native.Mathlib.Decide.{dec_le}

-- Nothing is left to drive, or the buffer is allocated and holds what is left.
abbrev pub Ready : RxDataInterface → Type 0
Ready rx =
    (rx.buffer_len ≤ rx.buffer_pos)
    ⊎ ((bs : Bytes) × (rx.buffer ≡ some bs)
        × (rx.buffer_len ≡ length bs)
        × (rx.buffer_pos < rx.buffer_len))

-- A beat fills the interface, and its last byte of padding leaves room for a byte of the packet.
pub record IsBeat (beat : Beat) : Type 0 where
  pub full : length beat.bytes ≡ beat_bytes
  pub padded : beat.padbytes < beat_bytes

no_beat-IsBeat : IsBeat no_beat
no_beat-IsBeat = record { full = refl; padded = omega arith }

Left-Ready : (bs xs : Bytes) (rx : RxDataInterface) → Left bs xs rx → 0 < length xs → Ready rx
Left-Ready bs xs rx l pos = inr (bs, l.allocated, l.sized, omega (arith, l.sized, l.inside))

-- A beat of what is left.
next_beat-Ready :
    (v bs : Bytes) (rx : RxDataInterface)
    → length v ≡ beat_bytes
    → rx.buffer ≡ some bs
    → rx.buffer_len ≡ length bs
    → rx.buffer_pos < rx.buffer_len
    → (beat : Beat) × (rx' : RxDataInterface) × (next_beat v rx ≡ some (beat, rx'))
      × IsBeat beat
      × Ready rx'
next_beat-Ready v bs rx full e sized inside =
    let xs : Bytes = drop rx.buffer_pos bs in
    let left : Left bs xs rx = record {
      allocated = e;
      sized = sized;
      rest = refl;
      inside = omega (arith, length-drop rx.buffer_pos bs);
    } in
    let (beat, rx', run, is, after) = next_beat_lem v bs xs rx full left in
    (
      beat,
      rx',
      run,
      record {
        full = length-bytes xs beat is;
        padded = omega (arith, is.pad, length-drop rx.buffer_pos bs);
      },
      elim (dec_le (length xs) beat_bytes) [
        | yes h ↦ inl (omega (arith, (after.done h).1))
        | no h ↦
            Left-Ready bs (drop beat_bytes xs) rx' (after.more (omega arith))
              (omega (arith, length-drop beat_bytes xs))
      ],
    )

length-memcpy : (bs : Bytes) (off n : ℕ) {out : Bytes} → memcpy bs off n ≡ some out → length out ≡ n
unfolding memcpy
length-memcpy bs off n e = elim (dec_le (off + n) (length bs)) [
  | yes h ↦ let (all, size) = memcpy-some bs off n h in ground (arith, all, size, e)
  | no h ↦ cc (rw (lt→leb (off + n) (length bs) (omega arith)) at e)
]

module _ {S : Type 0} (sim_backend : DpiTestingLib S) where
  open sim_backend use {get_buf_fr_io, put_buf_on_io}

  -- What a receive leaves: no packet and the interface as it was, or a packet in the buffer.
  pub recv-Ready :
      (net net' : NetworkSide S) (status : ℕ)
      → recv_from_socket sim_backend net ≡ some (status, net')
      → ((status ≡ 0) × (net'.rx_data_if ≡ net.rx_data_if))
        ⊎ ((bs : Bytes) × (0 < status)
            × (net'.rx_data_if ≡ record { buffer = some bs; buffer_len = status; buffer_pos = 0 })
            × (length bs ≡ status))
  unfolding recv_from_socket
  recv-Ready net net' status e =
      let ((pkt, s), _, e1) = >>=-eq-some (get_buf_fr_io net.backend) _ e in
      elim (Bool-cases (length pkt == 0)) [
        | inl b ↦ inl (ground (arith, rw b at e1))
        | inr b ↦
            let (ether_type, _, e2) = >>=-eq-some (load16 pkt 12) _ (rw b at e1) in
            elim (Bool-cases (htons ether_type == ethertype_arp)) [
              | inl c ↦
                  let ((s', state), _, e3) =
                    >>=-eq-some
                      (handle_arp sim_backend s net.instance_state (drop ether_header_size pkt)) _
                      (rw c at e2) in
                  inl (ground (arith, e3))
              | inr c ↦ elim (Bool-cases (htons ether_type == ethertype_ip)) [
                | inr d ↦ inl (ground (arith, rw (c, d) at e2))
                | inl d ↦
                    let (tot_len, _, e3) =
                      >>=-eq-some (load16 pkt (ether_header_size + 2)) _ (rw (c, d) at e2) in
                    let (buffer, m, e4) =
                      >>=-eq-some (memcpy pkt 0 (htons tot_len + ether_header_size)) _ e3 in
                    let size = length-memcpy pkt 0 (htons tot_len + ether_header_size) m in
                    let len : htons tot_len + ether_header_size ≡ status = ground (arith, e4) in
                    inr (buffer, omega (arith, len), ground (arith, e4), size ∙ len)
              ]
            ]
      ]

  -- In a ready state, with a vector of 32 bytes, `get_data` drives a whole beat and leaves a ready
  -- state, or nothing is left and the fault is in receiving a packet from the backend.
  pub get_data-Ready :
      (v : Bytes) (net : NetworkSide S)
      → length v ≡ beat_bytes
      → Ready net.rx_data_if
      → ((beat : Beat) × (net' : NetworkSide S) × (get_data sim_backend v net ≡ some (beat, net'))
          × IsBeat beat
          × Ready net'.rx_data_if)
        ⊎ ((get_data sim_backend v net ≡ none)
            × (net.rx_data_if.buffer_len ≤ net.rx_data_if.buffer_pos)
            × (recv_from_socket sim_backend net ≡ none))
  unfolding get_data
  get_data-Ready v net full (inr (bs, e, sized, inside)) =
      let (beat, rx, run, is, ready) = next_beat-Ready v bs net.rx_data_if full e sized inside in
      inl (
        beat,
        record net { rx_data_if = rx },
        rw (lt→leb net.rx_data_if.buffer_len net.rx_data_if.buffer_pos inside, run) refl,
        is,
        ready,
      )
  get_data-Ready v net full (inl idle) =
      let stopped = le→leb net.rx_data_if.buffer_len net.rx_data_if.buffer_pos idle in
      elim (Option-cases (recv_from_socket sim_backend net)) [
        | inl e ↦ inr (rw (stopped, e) refl, idle, e)
        | inr ((status, net1), e) ↦ elim (recv-Ready net net1 status e) [
          | inl (z, same) ↦ inl (
            no_beat,
            net1,
            rw (stopped, e, z) refl,
            no_beat-IsBeat,
            subst Ready (sym same) (inl idle),
          )
          | inr (bs, pos, got, size) ↦
              let (beat, rx, run, is, ready) =
                next_beat-Ready v bs net1.rx_data_if full
                  (ap (λ (r : RxDataInterface). r.buffer) got)
                  (ap (λ (r : RxDataInterface). r.buffer_len) got ∙ sym size)
                  (omega (
                    arith,
                    ap (λ (r : RxDataInterface). r.buffer_len) got,
                    ap (λ (r : RxDataInterface). r.buffer_pos) got,
                  )) in
              inl (
                beat,
                record net1 { rx_data_if = rx },
                rw (stopped, e, pos→==_false status pos, run) refl,
                is,
                ready,
              )
        ]
      ]

  -- `put_data` leaves the receive interface alone. Given 32 bytes, it can fault only in the
  -- backend.
  pub put_data-Ready :
      (v : Bytes) (last : Bool) (padbytes : ℕ) (net : NetworkSide S)
      → length v ≡ beat_bytes
      → ((net' : NetworkSide S) × (put_data sim_backend v last padbytes net ≡ some net')
          × (net'.rx_data_if ≡ net.rx_data_if))
        ⊎ ((put_data sim_backend v last padbytes net ≡ none)
            × (last ≡ true)
            × ((tx : Bytes) × (put_buf_on_io tx net.backend ≡ none)))
  unfolding put_data send_on_socket
  put_data-Ready v false padbytes net full = inl (
    record net { tx_buffer = net.tx_buffer ++ reverse (drop 0 (take beat_bytes v)) },
    rw (push_loop_lem beat_bytes 0 v net.tx_buffer (omega arith)) refl,
    refl,
  )
  put_data-Ready v true padbytes net full =
      let tx : Bytes = net.tx_buffer ++ reverse (drop padbytes (take beat_bytes v)) in
      let pushed = push_loop_lem beat_bytes padbytes v net.tx_buffer (omega arith) in
      elim (Option-cases (put_buf_on_io tx net.backend)) [
        | inl e ↦ inr (rw (pushed, e) refl, refl, (tx, e))
        | inr ((bytes, s), e) ↦
            inl (record net { backend = s; tx_buffer = [] }, rw (pushed, e) refl, refl)
      ]
