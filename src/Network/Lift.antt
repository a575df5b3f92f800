-- ===== src/Network/Lift.antt =====
-- The network side over a backend that is one part of another backend.
use tcp_hw.Base.{
  ℕ, ◌+◌, ◌≡◌, refl, Bool, true, false, Option, some, none, List, [], ◌∷◌, Bytes, length, drop, leb,
  ◌==◌, ◌>>=◌, Bool-cases, Option-cases, inl, inr, load16, memcpy, htons,
}
use tcp_hw.Backend.{DpiTestingLib}
use tcp_hw.Arp.{SockState, answer, handle_arp, ethertype_arp, ethertype_ip}
use tcp_hw.Network.{
  NetworkSide, Beat, beat_bytes, ether_header_size, next_beat, push_loop, get_data, put_data,
  send_on_socket, recv_from_socket,
}

-- A function on what a call leaves.
abbrev pub leaves {ℓ} : {A S T : Type ℓ} → (S → T) → Option (A × S) → Option (A × T)
leaves f none = none
leaves f (some (a, s)) = some (a, f s)

abbrev pub lift : {S T : Type 0} → (S → T) → NetworkSide S → NetworkSide T
lift f net = record {
  backend = f net.backend;
  instance_state = net.instance_state;
  rx_data_if = net.rx_data_if;
  tx_buffer = net.tx_buffer;
}

abbrev pub lift? : {S T : Type 0} → (S → T) → Option (NetworkSide S) → Option (NetworkSide T)
lift? f none = none
lift? f (some net) = some (lift f net)

-- The calls of the simulator.
pub data Call : Type 0 where
  get : Bytes → Call
  put : Bytes → Bool → ℕ → Call

-- The calls in turn, and the beats that they drive.
unfoldable pub calls :
    {S : Type 0} → DpiTestingLib S → List Call → NetworkSide S → Option (List Beat × NetworkSide S)
calls backend [] net = some ([], net)
calls backend (get v ∷ cs) net = do
  (beat, net') ← get_data backend v net
  (beats, net'') ← calls backend cs net'
  some (beat ∷ beats, net'')
calls backend (put v last padbytes ∷ cs) net = do
  net' ← put_data backend v last padbytes net
  calls backend cs net'

-- The operations of one backend are those of the other on its part of the states.
pub record Embeds {S T : Type 0} (part : DpiTestingLib S) (whole : DpiTestingLib T) (f : S → T)
    : Type 0 where
  pub gets : (s : S) → whole.get_buf_fr_io (f s) ≡ leaves f (part.get_buf_fr_io s)
  pub puts :
      (pkt : Bytes) (s : S) → whole.put_buf_on_io pkt (f s) ≡ leaves f (part.put_buf_on_io pkt s)

module _ {S T : Type 0} (part : DpiTestingLib S) (whole : DpiTestingLib T) (f : S → T)
    (embeds : Embeds part whole f) where
  send_on_socket-lift :
      (net : NetworkSide S) → send_on_socket whole (lift f net) ≡ lift? f (send_on_socket part net)
  unfolding send_on_socket
  send_on_socket-lift net = elim (Option-cases (part.put_buf_on_io net.tx_buffer net.backend)) [
    | inl e ↦ rw (embeds.puts net.tx_buffer net.backend, e) refl
    | inr (r, e) ↦ rw (embeds.puts net.tx_buffer net.backend, e) refl
  ]

  put_data-lift :
      (v : Bytes) (last : Bool) (padbytes : ℕ) (net : NetworkSide S)
      → put_data whole v last padbytes (lift f net) ≡ lift? f (put_data part v last padbytes net)
  unfolding put_data
  put_data-lift v true padbytes net =
      elim (Option-cases (push_loop beat_bytes padbytes v net.tx_buffer)) [
        | inl e ↦ rw e refl
        | inr (buffer, e) ↦ rw e (send_on_socket-lift (record net { tx_buffer = buffer }))
      ]
  put_data-lift v false padbytes net =
      elim (Option-cases (push_loop beat_bytes 0 v net.tx_buffer)) [
        | inl e ↦ rw e refl
        | inr (buffer, e) ↦ rw e refl
      ]

  -- A result of `handle_arp`.
  abbrev arped : Option (S × SockState) → Option (T × SockState)
  arped none = none
  arped (some (s, state)) = some (f s, state)

  handle_arp-lift :
      (s : S) (state : SockState) (req : Bytes)
      → handle_arp whole (f s) state req ≡ arped (handle_arp part s state req)
  unfolding handle_arp
  handle_arp-lift s state req = elim (Option-cases (answer state req)) [
    | inl e ↦ rw e refl
    | inr (none, e) ↦ rw e refl
    | inr (some (state', resp), e) ↦ elim (Option-cases (part.put_buf_on_io resp s)) [
      | inl p ↦ rw (e, embeds.puts resp s, p) refl
      | inr (r, p) ↦ rw (e, embeds.puts resp s, p) refl
    ]
  ]

  recv_from_socket-lift :
      (net : NetworkSide S)
      → recv_from_socket whole (lift f net) ≡ leaves (lift f) (recv_from_socket part net)
  unfolding recv_from_socket
  recv_from_socket-lift net = elim (Option-cases (part.get_buf_fr_io net.backend)) [
    | inl e ↦ rw (embeds.gets net.backend, e) refl
    | inr ((pkt, s), e) ↦ elim (Bool-cases (length pkt == 0)) [
      | inl z ↦ rw (embeds.gets net.backend, e, z) refl
      | inr z ↦ elim (Option-cases (load16 pkt 12)) [
        | inl t ↦ rw (embeds.gets net.backend, e, z, t) refl
        | inr (ether_type, t) ↦ elim (Bool-cases (htons ether_type == ethertype_arp)) [
          | inl a ↦
              elim (Option-cases
                (handle_arp part s net.instance_state (drop ether_header_size pkt))) [
                  | inl h ↦
                      rw
                        (
                          embeds.gets net.backend,
                          e,
                          z,
                          t,
                          a,
                          handle_arp-lift s net.instance_state (drop ether_header_size pkt),
                          h,
                        )
                        refl
                  | inr (r, h) ↦
                      rw
                        (
                          embeds.gets net.backend,
                          e,
                          z,
                          t,
                          a,
                          handle_arp-lift s net.instance_state (drop ether_header_size pkt),
                          h,
                        )
                        refl
                ]
          | inr a ↦ elim (Bool-cases (htons ether_type == ethertype_ip)) [
            | inr i ↦ rw (embeds.gets net.backend, e, z, t, a, i) refl
            | inl i ↦ elim (Option-cases (load16 pkt 16)) [
              | inl l ↦ rw (embeds.gets net.backend, e, z, t, a, i, l) refl
              | inr (tot_len, l) ↦
                  elim (Option-cases (memcpy pkt 0 (htons tot_len + ether_header_size))) [
                    | inl c ↦ rw (embeds.gets net.backend, e, z, t, a, i, l, c) refl
                    | inr (buffer, c) ↦ rw (embeds.gets net.backend, e, z, t, a, i, l, c) refl
                  ]
            ]
          ]
        ]
      ]
    ]
  ]

  get_data-lift :
      (v : Bytes) (net : NetworkSide S)
      → get_data whole v (lift f net) ≡ leaves (lift f) (get_data part v net)
  unfolding get_data
  get_data-lift v net =
      elim (Bool-cases (leb net.rx_data_if.buffer_len net.rx_data_if.buffer_pos)) [
        | inr b ↦ elim (Option-cases (next_beat v net.rx_data_if)) [
          | inl n ↦ rw (b, n) refl
          | inr (r, n) ↦ rw (b, n) refl
        ]
        | inl b ↦ elim (Option-cases (recv_from_socket part net)) [
          | inl e ↦ rw (b, recv_from_socket-lift net, e) refl
          | inr ((status, net'), e) ↦ elim (Bool-cases (status == 0)) [
            | inl z ↦ rw (b, recv_from_socket-lift net, e, z) refl
            | inr z ↦ elim (Option-cases (next_beat v net'.rx_data_if)) [
              | inl n ↦ rw (b, recv_from_socket-lift net, e, z, n) refl
              | inr (r, n) ↦ rw (b, recv_from_socket-lift net, e, z, n) refl
            ]
          ]
        ]
      ]

  -- Any calls on the network side over the larger backend do what they do over its part.
  pub calls-lift :
      (cs : List Call) (net : NetworkSide S)
      → calls whole cs (lift f net) ≡ leaves (lift f) (calls part cs net)
  unfolding calls
  calls-lift [] net = refl
  calls-lift (get v ∷ cs) net = elim (Option-cases (get_data part v net)) [
    | inl e ↦ rw (get_data-lift v net, e) refl
    | inr ((beat, net'), e) ↦ elim (Option-cases (calls part cs net')) [
      | inl c ↦ rw (get_data-lift v net, e, calls-lift cs net', c) refl
      | inr (r, c) ↦ rw (get_data-lift v net, e, calls-lift cs net', c) refl
    ]
  ]
  calls-lift (put v last padbytes ∷ cs) net =
      elim (Option-cases (put_data part v last padbytes net)) [
        | inl e ↦ rw (put_data-lift v last padbytes net, e) refl
        | inr (net', e) ↦ rw (put_data-lift v last padbytes net, e) (calls-lift cs net')
      ]
