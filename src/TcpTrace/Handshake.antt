-- ===== src/TcpTrace/Handshake.antt =====
-- The handshake of a flow is never completed: `recv_buf_helper`, which alone would do so, has no
-- caller. So a flow's later packets wait until the file has been read.
use tcp_hw.Base.{
  ℕ, zero, suc, ◌≡◌, subst, arith, Bool, true, false, not, some, List, [], ◌∷◌, ◌++◌, Bytes, length,
  drop, Bool-cases, Option-cases, inl, inr, ◌&&◌, require, >>=-eq-some, ltb,
}
use tcp_hw.Pcap.{read_pcap_record}
use tcp_hw.Frame.{FlowTuple, ip_hdr_len}
use tcp_hw.Mimic.{
  TcpMimic, new_mimic, get_handshake_done, get_pkts_to_send_front, put_pkts_to_send_back,
  pkts_to_send_empty, put_pkts_to_recv_back, pkts_recved_empty, get_pkts_recved_front,
  put_pkts_recved_back, pkts_to_recv_empty, get_pkts_to_recv_front,
}
use tcp_hw.Mimic.Matching.{Comparison, match_one, match_loop, receive}
use tcp_hw.TcpTrace.{
  TcpTrace, Stale, FlowMap, find, update, buf_process_helper, known_flow, new_flow, dispatch,
  send_front, drain, packet_key, replay, next_packet, get_buf_fr_io, receive_in, put_buf_on_io,
  buffer_size,
}
use tcp_hw.TcpTrace.Flows.{Every, Every-find, Every-update, Every-insert}

-- The flow has not completed its handshake.
abbrev pub Waits : TcpMimic → Type 0
Waits m = m.handshake_done ≡ false

process-Waits :
    (pkt : Bytes) (m m' : TcpMimic) → Waits m → buf_process_helper pkt m ≡ some m' → Waits m'
unfolding buf_process_helper
process-Waits pkt m m' w e = ground arith

front-Waits :
    (m m' : TcpMimic) (p : Bytes) → Waits m → get_pkts_to_send_front m ≡ some (p, m') → Waits m'
unfolding get_pkts_to_send_front
front-Waits m m' p w e = ground arith

known-Waits :
    (send : Bool) (pkt out : Bytes) (m m' : TcpMimic)
    → Waits m
    → known_flow send pkt m ≡ some (out, m')
    → Waits m'
unfolding known_flow get_handshake_done put_pkts_to_send_back put_pkts_to_recv_back
known-Waits true pkt out m m' w e = ground arith
known-Waits false pkt out m m' w e = ground arith

new-Waits :
    (stale m : TcpMimic) (send : Bool) (pkt out : Bytes)
    → new_flow stale send pkt ≡ some (out, m)
    → Waits m
unfolding new_flow new_mimic put_pkts_to_recv_back
new-Waits stale m true pkt out e = ground (arith, process-Waits pkt (new_mimic stale false) m)
new-Waits stale m false pkt out e = ground arith

dispatch-Waits :
    (stale : TcpMimic) (send : Bool) (key : FlowTuple) (pkt out : Bytes) (fs fs' : FlowMap)
    → Every Waits fs
    → dispatch stale send key pkt fs ≡ some (out, fs')
    → Every Waits fs'
unfolding dispatch
dispatch-Waits stale send key pkt out fs fs' h e = elim (Option-cases (find key fs)) [
  | inl p ↦
      let ((o, m), q, r) = >>=-eq-some (new_flow stale send pkt) _ (rw (p, dispatch) at e) in
      subst (Every Waits) (ground (arith, r))
        (Every-insert Waits key m fs h (new-Waits stale m send pkt o q))
  | inr (n, p) ↦
      let ((o, m), q, r) = >>=-eq-some (known_flow send pkt n) _ (rw (p, dispatch) at e) in
      subst (Every Waits) (ground (arith, r))
        (Every-update Waits key m fs h (known-Waits send pkt o n m (Every-find Waits key fs h p) q))
]

send_front-Waits :
    (k : FlowTuple) (m : TcpMimic) (fs fs' : FlowMap) (out : Bytes)
    → Every Waits fs
    → Waits m
    → send_front k m fs ≡ some (out, fs')
    → Every Waits fs'
unfolding send_front
send_front-Waits k m fs fs' out h w e =
    let ((p, m1), q, r) = >>=-eq-some (get_pkts_to_send_front m) _ e in
    let (m2, s, t) = >>=-eq-some (buf_process_helper p m1) _ r in
    subst (Every Waits) (ground (arith, t))
      (Every-update Waits k m2 fs h (process-Waits p m1 m2 (front-Waits m m1 p w q) s))

drain-Waits :
    (ks : List FlowTuple) (fs fs' : FlowMap) (out : Bytes)
    → Every Waits fs
    → drain ks fs ≡ some (out, fs')
    → Every Waits fs'
unfolding drain
drain-Waits [] fs fs' out h e = subst (Every Waits) (ground (arith, e)) h
drain-Waits (k ∷ ks) fs fs' out h e = elim (Option-cases (find k fs)) [
  | inl p ↦ cc (rw (p, drain) at e)
  | inr (n, p) ↦ elim (Bool-cases (pkts_to_send_empty n)) [
    | inl b ↦ drain-Waits ks fs fs' out h (rw (p, drain, b) at e)
    | inr b ↦ send_front-Waits k n fs fs' out h (Every-find Waits k fs h p) (rw (p, drain, b) at e)
  ]
]

match_one-Waits :
    (m m' : TcpMimic) (c : Comparison) → Waits m → match_one m ≡ some (c, m') → Waits m'
unfolding match_one get_pkts_to_recv_front get_pkts_recved_front
match_one-Waits m m' c w e = ground arith

match_loop-Waits :
    (fuel : ℕ) (m m' : TcpMimic) (cs : List Comparison)
    → Waits m
    → match_loop fuel m ≡ some (cs, m')
    → Waits m'
unfolding match_loop
match_loop-Waits zero m m' cs w e = cc
match_loop-Waits (suc fuel) m m' cs w e =
    elim (Bool-cases (not (pkts_to_recv_empty m) && not (pkts_recved_empty m))) [
      | inr b ↦ ground (arith, rw (match_loop, b) at e)
      | inl b ↦
          let ((c, m1), q, r) = >>=-eq-some (match_one m) _ (rw (match_loop, b) at e) in
          let ((ds, m2), s, t) = >>=-eq-some (match_loop fuel m1) _ r in
          let later = match_loop-Waits fuel m1 m2 ds (match_one-Waits m m1 c w q) s in
          ground (arith, t)
    ]

receive-Waits :
    (pkt : Bytes) (m m' : TcpMimic) (cs : List Comparison) (gone : Bool)
    → Waits m
    → receive pkt m ≡ some (cs, m', gone)
    → Waits m'
unfolding receive get_pkts_to_recv_front put_pkts_recved_back
receive-Waits pkt m m' cs gone w e =
    let ((ds, n), q, r) = >>=-eq-some (match_loop (suc (length m.pkts_to_recv)) m) _ e in
    let before = match_loop-Waits (suc (length m.pkts_to_recv)) m n ds w q in ground (arith, r)

receive_in-Waits :
    (key : FlowTuple) (pkt : Bytes) (t t' : TcpTrace) (cs : List Comparison) (size : ℕ)
    → Every Waits t.tcp_flows
    → receive_in key pkt t ≡ some (cs, t', size)
    → Every Waits t'.tcp_flows
unfolding receive_in
receive_in-Waits key pkt t t' cs size h e = elim (Option-cases (find key t.tcp_flows)) [
  | inl p ↦
      let path : t.tcp_flows ≡ t'.tcp_flows = ground (arith, rw (p, receive_in) at e) in
      subst (Every Waits) path h
  | inr (m, p) ↦
      let ((ds, m', gone), q, r) = >>=-eq-some (receive pkt m) _ (rw (p, receive_in) at e) in
      let path : update key m' t.tcp_flows ≡ t'.tcp_flows = ground (arith, r) in
      subst (Every Waits) path (
        Every-update Waits key m' t.tcp_flows h
          (receive-Waits pkt m m' ds gone (Every-find Waits key t.tcp_flows h p) q))
]

-- Neither operation of the backend completes the handshake of a flow.
module _ (order : FlowMap → List FlowTuple) where
  next_packet-Waits :
      (stale : Stale) (ip_len : ℕ) (pkt mac out : Bytes) (fs fs' : FlowMap)
      → Every Waits fs
      → next_packet order stale ip_len pkt mac fs ≡ some (out, fs')
      → Every Waits fs'
  unfolding next_packet replay
  next_packet-Waits stale ip_len pkt mac out fs fs' h e = elim (Bool-cases (ltb 0 (length pkt))) [
    | inl b ↦
        let ((send, key), q, r) =
          >>=-eq-some (packet_key ip_len (pkt ++ drop (length pkt) stale.frame) mac) _
            (rw (next_packet, b) at e) in
        dispatch-Waits stale.mimic send key pkt out fs fs' h r
    | inr b ↦ drain-Waits (order fs) fs fs' out h (rw (next_packet, b) at e)
  ]

  pub get-Waits :
      (stale : Stale) (t t' : TcpTrace) (out : Bytes)
      → Every Waits t.tcp_flows
      → get_buf_fr_io order stale t ≡ some (out, t')
      → Every Waits t'.tcp_flows
  unfolding get_buf_fr_io
  get-Waits stale t t' out h e =
      let (_, _, e1) = >>=-eq-some (require (not t.deleted)) _ e in
      let (ip_len, _, e2) = >>=-eq-some (ip_hdr_len stale.frame) _ e1 in
      let ((pkt, file), _, e3) =
        >>=-eq-some (read_pcap_record stale.pkthdr buffer_size t.pcap_file) _ e2 in
      let ((o, fs), q, r) =
        >>=-eq-some (next_packet order stale ip_len pkt t.source_mac_addr t.tcp_flows) _ e3 in
      let path : fs ≡ t'.tcp_flows = ground (arith, r) in
      subst (Every Waits) path
        (next_packet-Waits stale ip_len pkt t.source_mac_addr o t.tcp_flows fs h q)

pub put-Waits :
    (pkt : Bytes) (t t' : TcpTrace) (cs : List Comparison) (size : ℕ)
    → Every Waits t.tcp_flows
    → put_buf_on_io pkt t ≡ some (cs, t', size)
    → Every Waits t'.tcp_flows
unfolding put_buf_on_io
put-Waits pkt t t' cs size h e =
    let (_, _, e1) = >>=-eq-some (require (not t.deleted)) _ e in
    let (ip_len, _, e2) = >>=-eq-some (ip_hdr_len pkt) _ e1 in
    let ((send, key), _, e3) = >>=-eq-some (packet_key ip_len pkt t.source_mac_addr) _ e2 in
    receive_in-Waits key pkt t t' cs size h e3
