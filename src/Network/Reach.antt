-- ===== src/Network/Reach.antt =====
-- The states that the calls of the simulator reach.
use tcp_hw.Base.{
  some-injective, ℕ, ◌≤◌, ◌≡◌, ◌∙◌, ◌⊎◌, inl, inr, sym, ap, subst, arith, Bool, some, none, Bytes,
  length,
}
use tcp_hw.Backend.{DpiTestingLib}
use tcp_hw.Arp.{SockState}
use tcp_hw.Network.{
  Beat, NetworkSide, beat_bytes, get_data, put_data, recv_from_socket, init_network_side_state,
}
use tcp_hw.Network.Ready.{Ready, IsBeat, get_data-Ready, put_data-Ready}

module _ {S : Type 0} (sim_backend : DpiTestingLib S) where
  -- The calls that the simulator makes, after the initialization.
  pub data Reach : NetworkSide S → Type 0 where
    start :
        (backend : S) (stale : SockState) (net : NetworkSide S)
        → Reach (init_network_side_state backend stale net)
    get :
        {net : NetworkSide S} (v : Bytes) (beat : Beat) (net' : NetworkSide S)
        → Reach net
        → length v ≡ beat_bytes
        → get_data sim_backend v net ≡ some (beat, net')
        → Reach net'
    put :
        {net : NetworkSide S} (v : Bytes) (last : Bool) (padbytes : ℕ) (net' : NetworkSide S)
        → Reach net
        → length v ≡ beat_bytes
        → put_data sim_backend v last padbytes net ≡ some net'
        → Reach net'

  Reach-Ready : {net : NetworkSide S} → Reach net → Ready net.rx_data_if
  unfolding init_network_side_state
  Reach-Ready (start backend stale net) = inl (omega arith)
  Reach-Ready (get {net} v beat net' r full e) =
      elim (get_data-Ready sim_backend v net full (Reach-Ready r)) [
        | inl (beat', net1, e', is, ready) ↦
            subst (λ (n : NetworkSide S). Ready n.rx_data_if)
              (ap (λ (p : Beat × NetworkSide S). p.1) (some-injective (sym e' ∙ e))) ready
        | inr (e', _, _) ↦ cc
      ]
  Reach-Ready (put {net} v last padbytes net' r full e) =
      elim (put_data-Ready sim_backend v last padbytes net full) [
        | inl (net1, e', same) ↦
            subst Ready
              (sym same ∙ ap (λ (n : NetworkSide S). n.rx_data_if) (some-injective (sym e' ∙ e)))
              (Reach-Ready r)
        | inr (e', _, _) ↦ cc
      ]

  -- In every state that the initialization and the calls of the simulator reach: `get_data` drives
  -- a beat of 32 bytes that is not all padding, or it faults in receiving a packet from the
  -- backend, and then no packet was left to drive. So no byte is read of a buffer that is freed or
  -- too short.
  pub get_data_safe :
      (v : Bytes) (net : NetworkSide S)
      → length v ≡ beat_bytes
      → Reach net
      → ((beat : Beat) × (net' : NetworkSide S) × (get_data sim_backend v net ≡ some (beat, net'))
          × IsBeat beat
          × Ready net'.rx_data_if)
        ⊎ ((get_data sim_backend v net ≡ none)
            × (net.rx_data_if.buffer_len ≤ net.rx_data_if.buffer_pos)
            × (recv_from_socket sim_backend net ≡ none))
  get_data_safe v net full r = get_data-Ready sim_backend v net full (Reach-Ready r)
