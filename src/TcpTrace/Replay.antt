-- ===== src/TcpTrace/Replay.antt =====
-- What the trace backend does with a packet that it reads, in every state that it can reach.
use tcp_hw.Base.{
  ℕ, ◌<◌, ◌≡◌, ◌≢◌, ◌∙◌, sym, ap, arith, Bool, true, false, some, none, List, [], ◌++◌, Bytes,
  length, drop, lt→ltb, Option-cases, inl, inr, >>=-eq-some, require, not, if◌then◌else◌,
}
use tcp_hw.Stdio.{File}
use tcp_hw.Pcap.{read_pcap_record}
use tcp_hw.Frame.{FlowTuple, ip_hdr_len}
use tcp_hw.Mimic.{TcpMimic, get_handshake_done, put_pkts_to_send_back, put_pkts_to_recv_back}
use tcp_hw.Mimic.Matching.{Comparison}
use tcp_hw.TcpTrace.{
  TcpTrace, Stale, FlowMap, find, update, known_flow, new_flow, dispatch, packet_key, replay,
  next_packet, get_buf_fr_io, put_buf_on_io, new_trace, buffer_size,
}
use tcp_hw.TcpTrace.Flows.{Every, Every-find}
use tcp_hw.TcpTrace.Handshake.{Waits, get-Waits, put-Waits}

module _ (order : FlowMap → List FlowTuple) where
  -- The calls that the network side makes of the backend.
  pub data Step : TcpTrace → TcpTrace → Type 0 where
    get :
        (stale : Stale) (t t' : TcpTrace) (out : Bytes)
        → get_buf_fr_io order stale t ≡ some (out, t')
        → Step t t'
    put :
        (pkt : Bytes) (t t' : TcpTrace) (cs : List Comparison) (size : ℕ)
        → put_buf_on_io pkt t ≡ some (cs, t', size)
        → Step t t'

  pub data Reach : TcpTrace → Type 0 where
    start : (f : File) (mac : Bytes) → Reach (new_trace f mac).0
    next : {t t' : TcpTrace} → Reach t → Step t t' → Reach t'

  -- In every state that the calls of the network side reach, no flow has completed its handshake.
  pub Reach-Waits : {t : TcpTrace} → Reach t → Every Waits t.tcp_flows
  unfolding new_trace
  Reach-Waits (start f mac) = tt
  Reach-Waits (next r (get stale t t' out e)) = get-Waits order stale t t' out (Reach-Waits r) e
  Reach-Waits (next r (put pkt t t' cs size e)) = put-Waits pkt t t' cs size (Reach-Waits r) e

-- A packet of a known flow is queued and nothing is returned, whichever side it is for.
pub dispatch-known :
    (stale : TcpMimic) (send : Bool) (key : FlowTuple) (pkt : Bytes) (fs : FlowMap) (m : TcpMimic)
    → Every Waits fs
    → find key fs ≡ some m
    → dispatch stale send key pkt fs
      ≡ some (
        [],
        update key (if send then put_pkts_to_send_back pkt m else put_pkts_to_recv_back pkt m) fs,
      )
unfolding dispatch known_flow get_handshake_done
dispatch-known stale true key pkt fs m h e = rw (e, dispatch, Every-find Waits key fs h e)
dispatch-known stale false key pkt fs m h e = rw (e, dispatch)

new_flow_out :
    (stale m : TcpMimic) (send : Bool) (pkt out : Bytes)
    → new_flow stale send pkt ≡ some (out, m)
    → out ≢ []
    → (send ≡ true) × (out ≡ pkt)
unfolding new_flow
new_flow_out stale m true pkt out e ne = ground (arith, e)
new_flow_out stale m false pkt out e ne = ground (arith, e)

dispatch_out :
    (stale : TcpMimic) (send : Bool) (key : FlowTuple) (pkt out : Bytes) (fs fs' : FlowMap)
    → Every Waits fs
    → dispatch stale send key pkt fs ≡ some (out, fs')
    → out ≢ []
    → (send ≡ true) × (find key fs ≡ none) × (out ≡ pkt)
unfolding dispatch
dispatch_out stale send key pkt out fs fs' h e ne = elim (Option-cases (find key fs)) [
  | inl p ↦
      let ((o, m), q, r) = >>=-eq-some (new_flow stale send pkt) _ (rw (p, dispatch) at e) in
      let same : o ≡ out = ground (arith, r) in
      let (s, t) = new_flow_out stale m send pkt o q (λ z. ne (sym same ∙ z)) in
      (s, p, sym same ∙ t)
  | inr (m, p) ↦ ground (arith, e, ne, dispatch-known stale send key pkt fs m h p)
]

next_packet-read :
    (order : FlowMap → List FlowTuple) (stale : Stale) (ip_len : ℕ) (pkt mac : Bytes) (fs : FlowMap)
    → 0 < length pkt
    → next_packet order stale ip_len pkt mac fs ≡ replay stale ip_len pkt mac fs
unfolding next_packet
next_packet-read order stale ip_len pkt mac fs pos = rw (next_packet, lt→ltb 0 (length pkt) pos)

-- In every reachable state: while the trace still yields packets, the only packets handed to the
-- hardware are those that open a flow. What `get_buf_fr_io` returns after reading a packet is that
-- packet, addressed to the hardware and of a flow not seen before, or it is nothing.
pub returned_opens :
    (order : FlowMap → List FlowTuple) (stale : Stale) (t t' : TcpTrace) (file : File)
    (pkt out : Bytes)
    → Reach order t
    → read_pcap_record stale.pkthdr buffer_size t.pcap_file ≡ some (pkt, file)
    → 0 < length pkt
    → get_buf_fr_io order stale t ≡ some (out, t')
    → out ≢ []
    → (ip_len : ℕ) × (key : FlowTuple) × (ip_hdr_len stale.frame ≡ some ip_len)
      × (packet_key ip_len (pkt ++ drop (length pkt) stale.frame) t.source_mac_addr
          ≡ some (true, key))
      × (find key t.tcp_flows ≡ none)
      × (out ≡ pkt)
unfolding get_buf_fr_io replay
returned_opens order stale t t' file pkt out r got pos e ne =
    let mac : Bytes = t.source_mac_addr in
    let (_, _, e1) = >>=-eq-some (require (not t.deleted)) _ e in
    let (ip_len, i, e2) = >>=-eq-some (ip_hdr_len stale.frame) _ e1 in
    let ((o, fs), q, z) =
      >>=-eq-some (next_packet order stale ip_len pkt mac t.tcp_flows) _ (rw got at e2) in
    let same : o ≡ out = ground (arith, z) in
    let ((send, key), k, d) =
      >>=-eq-some (packet_key ip_len (pkt ++ drop (length pkt) stale.frame) mac) _
        (sym (next_packet-read order stale ip_len pkt mac t.tcp_flows pos) ∙ q) in
    let (s, n, p) =
      dispatch_out stale.mimic send key pkt o t.tcp_flows fs (Reach-Waits order r) d
        (λ z. ne (sym same ∙ z)) in
    (ip_len, key, i, k ∙ ap (λ (b : Bool). some (b, key)) s, n, sym same ∙ p)
