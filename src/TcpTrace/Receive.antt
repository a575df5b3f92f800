-- ===== src/TcpTrace/Receive.antt =====
-- `put_buf_on_io`: a packet from the hardware concerns its own flow alone.
use tcp_hw.Base.{
  ℕ, suc, ◌≡◌, ◌≢◌, refl, ap, arith, Bool, true, false, some, none, List, [], ◌∷◌, ◌++◌, Bytes,
  length, drop, if◌then◌else◌,
}
use tcp_hw.Frame.{FlowTuple, flow_eq, ip_hdr_len}
use tcp_hw.Compare.{compare_bufs, finishes}
use tcp_hw.Mimic.{TcpMimic, pkts_to_recv_empty, pkts_recved_empty, get_pkts_to_recv_front}
use tcp_hw.Mimic.Matching.{match_loop, receive}
use tcp_hw.Mimic.Matching.Fifo.{pairs, AllSameSize, with_queues, receive_lem}
use tcp_hw.TcpTrace.{
  TcpTrace, Stale, FlowMap, find, update, packet_key, receive_in, get_buf_fr_io, put_buf_on_io,
}
use tcp_hw.TcpTrace.Flows.{find-update}

differ : (ref pkt : Bytes) → length ref ≢ length pkt → finishes (compare_bufs ref pkt) ≡ true
unfolding compare_bufs finishes
differ ref pkt ne = ground arith

nothing_to_match :
    (fuel : ℕ) (m : TcpMimic) → m.pkts_recved_buf ≡ [] → match_loop (suc fuel) m ≡ some ([], m)
unfolding match_loop pkts_to_recv_empty pkts_recved_empty
nothing_to_match fuel m e = ground (arith, e)

received :
    (m : TcpMimic) (ref : Bytes) (refs : List Bytes) (pkt : Bytes)
    → m.pkts_to_recv ≡ ref ∷ refs
    → m.pkts_recved_buf ≡ []
    → length ref ≢ length pkt
    → receive pkt m
      ≡ some
          (record { reference = ref; received = pkt } ∷ [], record m { pkts_to_recv = refs }, true)
unfolding receive pkts_to_recv_empty get_pkts_to_recv_front
received m ref refs pkt q r ne =
    rw (nothing_to_match (length m.pkts_to_recv) m r) (ground (arith, q, differ ref pkt ne))

-- Whatever is called on a deleted backend has no defined behaviour.
deleted_faults :
    (order : FlowMap → List FlowTuple) (stale : Stale) (pkt : Bytes) (t : TcpTrace)
    → t.deleted ≡ true
    → (get_buf_fr_io order stale t ≡ none) × (put_buf_on_io pkt t ≡ none)
unfolding get_buf_fr_io put_buf_on_io
deleted_faults order stale pkt t e = (rw e, rw e)

module _ (pkt : Bytes) (t : TcpTrace) (ip_len : ℕ) (send : Bool) (key : FlowTuple)
    (alive : t.deleted ≡ false) (own : ip_hdr_len pkt ≡ some ip_len)
    (keyed : packet_key ip_len pkt t.source_mac_addr ≡ some (send, key)) where
  -- On a live backend, a packet with its headers and of a flow that the trace has not opened is
  -- dropped without a verdict, and its size is returned as for any other.
  put-unknown : find key t.tcp_flows ≡ none → put_buf_on_io pkt t ≡ some ([], t, length pkt)
  unfolding put_buf_on_io receive_in
  put-unknown e =
      rw (alive, own, keyed, receive_in, e)
        (ap (λ (d : Bool). some ([], record t { deleted = d }, length pkt)) alive)

  -- The flow of the packet is matched, and written back.
  pub known_lem :
      (m : TcpMimic)
      → find key t.tcp_flows ≡ some m
      → let rs = m.pkts_to_recv in
        let ts = m.pkts_recved_buf ++ (pkt ∷ []) in
        AllSameSize (pairs rs ts)
        → put_buf_on_io pkt t
          ≡ some (
            pairs rs ts,
            record t {
              tcp_flows =
                  update key
                    (with_queues (drop (length ts) rs) (drop (length rs) ts) m)
                    t.tcp_flows;
              deleted = false;
            },
            length pkt,
          )
  unfolding put_buf_on_io receive_in
  known_lem m e same = rw (alive, own, keyed, receive_in, e, receive_lem pkt m same) refl

  -- On a live backend, for a packet with its headers and of a known flow, where the sizes agree:
  -- the comparisons are those of the queues with the packet joined to what came before it, its flow
  -- keeps the rest, no other flow changes, the backend lives on, and the size of the packet is
  -- returned.
  pub put-known :
      (m : TcpMimic)
      → find key t.tcp_flows ≡ some m
      → let ts = m.pkts_recved_buf ++ (pkt ∷ []) in
        AllSameSize (pairs m.pkts_to_recv ts)
        → (t' : TcpTrace) × (put_buf_on_io pkt t ≡ some (pairs m.pkts_to_recv ts, t', length pkt))
          × (t'.deleted ≡ false)
          × (t'.pcap_file ≡ t.pcap_file)
          × (t'.source_mac_addr ≡ t.source_mac_addr)
          × ((j : FlowTuple)
              → find j t'.tcp_flows ≡ (
                  if flow_eq key j
                  then some (
                      with_queues
                        (drop (length ts) m.pkts_to_recv)
                        (drop (length m.pkts_to_recv) ts)
                        m)
                  else find j t.tcp_flows))
  put-known m e same =
      let rs : List Bytes = m.pkts_to_recv in
      let ts : List Bytes = m.pkts_recved_buf ++ (pkt ∷ []) in
      let m' : TcpMimic = with_queues (drop (length ts) rs) (drop (length rs) ts) m in
      (
        record t { tcp_flows = update key m' t.tcp_flows; deleted = false },
        known_lem m e same,
        refl,
        refl,
        refl,
        λ j. find-update key j m' t.tcp_flows m e,
      )

  -- On a live backend, a packet with its headers, of a known flow in which no packet waits to be
  -- compared, and whose size differs from that of the one expected next, is compared with it, which
  -- ends the simulation and deletes the backend: whatever is called on it from then on has no
  -- defined behaviour.
  pub put-different_size :
      (order : FlowMap → List FlowTuple) (stale : Stale) (pkt' : Bytes) (m : TcpMimic) (ref : Bytes)
      (refs : List Bytes)
      → find key t.tcp_flows ≡ some m
      → m.pkts_to_recv ≡ ref ∷ refs
      → m.pkts_recved_buf ≡ []
      → length ref ≢ length pkt
      → (t' : TcpTrace) × (put_buf_on_io pkt t
          ≡ some (record { reference = ref; received = pkt } ∷ [], t', length pkt))
        × (get_buf_fr_io order stale t' ≡ none)
        × (put_buf_on_io pkt' t' ≡ none)
  unfolding put_buf_on_io receive_in
  put-different_size order stale pkt' m ref refs e q r ne =
      let t' : TcpTrace = record t {
        tcp_flows = update key (record m { pkts_to_recv = refs }) t.tcp_flows;
        deleted = true;
      } in
      (
        t',
        rw (alive, own, keyed, receive_in, e, received m ref refs pkt q r ne) refl,
        (deleted_faults order stale pkt' t' refl).0,
        (deleted_faults order stale pkt' t' refl).1,
      )
