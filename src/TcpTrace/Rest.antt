-- ===== src/TcpTrace/Rest.antt =====
-- After the end of the trace file: every packet that was held back is handed out.
use tcp_hw.Base.{
  ℕ, zero, suc, ◌*◌, ◌%◌, ◌<◌, ◌≡◌, ◌∙◌, refl, sym, subst, arith, false, Option, some, none, List,
  [], ◌∷◌, Bytes, inl, inr, length, ◌==◌, if◌then◌else◌, Bool-cases, ◌>>=◌, load8-some,
  pos→==_false,
}
use tcp_hw.Stdio.{File, unread}
use tcp_hw.Pcap.Record.{read-end}
use tcp_hw.Frame.{FlowTuple, flow_eq, parse, ip_hdr_len}
use tcp_hw.Frame.Address.{flow_eq_iff}
use tcp_hw.TcpTrace.{find, TcpTrace, Stale, FlowMap, next_packet, get_buf_fr_io, drain, buffer_size}
use tcp_hw.TcpTrace.Flows.{Every}
use tcp_hw.TcpTrace.Drain.{other_side, Visits, CanParse, Sendable, queue, pending, Sends, drain_lem}

abbrev pub Log : Type 0
Log = List (FlowTuple × Bytes)

abbrev pub packets : Log → List Bytes
packets [] = []
packets ((k, p) ∷ log) = p ∷ packets log

abbrev pub of_flow : FlowTuple → Log → List Bytes
of_flow j [] = []
of_flow j ((k, p) ∷ log) = if flow_eq k j then p ∷ of_flow j log else of_flow j log

ip_len-some : (frame : Bytes) → 14 < length frame → (n : ℕ) × (ip_hdr_len frame ≡ some n)
unfolding ip_hdr_len
ip_len-some frame h = let (x, e) = load8-some frame 14 h in (x % 16 * 4, rw e refl)

pub CanParse-pos : (pkt : Bytes) → CanParse pkt → 0 < length pkt
unfolding parse ip_hdr_len
CanParse-pos [] (p, e) = cc
CanParse-pos (x ∷ pkt) can = omega arith

of_flow-sent :
    {fs fs' : FlowMap} {k : FlowTuple} {out : Bytes}
    → Sends fs k out fs'
    → (log : Log) → ((j : FlowTuple) → of_flow j log ≡ queue j fs')
    → (j : FlowTuple) → of_flow j ((k, out) ∷ log) ≡ queue j fs
of_flow-sent {fs} {fs'} {k} {out} sends log each j = elim (Bool-cases (flow_eq k j)) [
  | inl e ↦
      rw (e, each j)
        (subst (λ i. out ∷ queue i fs' ≡ queue i fs) ((flow_eq_iff k j).0 e) (sym sends.front))
  | inr e ↦ rw e (each j ∙ sends.others j e)
]

module _ (order : FlowMap → List FlowTuple) (stale : ℕ → Stale) where
  -- Calls of `get_buf_fr_io` until it returns nothing; the n-th call from the last finds `stale n`.
  unfoldable pub fetch_rest : ℕ → TcpTrace → Option (List Bytes × TcpTrace)
  fetch_rest zero t = none
  fetch_rest (suc n) t = do
    (out, t') ← get_buf_fr_io order (stale n) t
    let more = (do (outs, t'') ← fetch_rest n t'; some (out ∷ outs, t''))
    if length out == 0 then some ([], t') else more

  -- At the end of the file a call is a `drain`.
  get_at_end :
      (n : ℕ) (t : TcpTrace) {out : Bytes} {fs : FlowMap}
      → 14 < length (stale n).frame
      → t.deleted ≡ false
      → unread t.pcap_file ≡ []
      → drain (order t.tcp_flows) t.tcp_flows ≡ some (out, fs)
      → (f : File) × (get_buf_fr_io order (stale n) t
          ≡ some (out, record t { pcap_file = f; tcp_flows = fs }))
        × (unread f ≡ [])
  unfolding get_buf_fr_io next_packet
  get_at_end n t framed alive ended d =
      let (ip_len, i) = ip_len-some (stale n).frame framed in
      let (f, r, e) = read-end (stale n).pkthdr buffer_size t.pcap_file ended in
      (f, rw (alive, i, r, d) refl, e)

  -- Let an iteration visit the keys of the map and no others, the stale buffers reach to `ver_ihl`,
  -- the backend not be deleted, and the headers of the queued packets lie within them. When the
  -- trace file has been read, the calls of `get_buf_fr_io` that follow, up to the first that
  -- returns nothing, return exactly the packets that were held back: each once, those of one flow
  -- in the order in which they were queued. Then no flow holds a packet; what each flow expects of
  -- the hardware and has got of it is as before, and the backend lives on, with its address. One
  -- call more than there are packets is enough.
  pub fetch_rest_lem :
      (n : ℕ) (t : TcpTrace)
      → Visits order
      → ((i : ℕ) → 14 < length (stale i).frame)
      → t.deleted ≡ false
      → unread t.pcap_file ≡ []
      → Every Sendable t.tcp_flows
      → pending t.tcp_flows < n
      → (log : Log) × (t' : TcpTrace) × (fetch_rest n t ≡ some (packets log, t'))
        × ((k : FlowTuple) → of_flow k log ≡ queue k t.tcp_flows)
        × ((k : FlowTuple) → queue k t'.tcp_flows ≡ [])
        × ((k : FlowTuple) → other_side (find k t'.tcp_flows) ≡ other_side (find k t.tcp_flows))
        × (t'.deleted ≡ false)
        × (t'.source_mac_addr ≡ t.source_mac_addr)
  unfolding fetch_rest
  fetch_rest_lem zero t v framed alive ended h fuel = absurd (omega arith)
  fetch_rest_lem (suc n) t v framed alive ended h fuel = elim (drain_lem order t.tcp_flows v h) [
    | inl (run, idle) ↦
        let (f, g, e) = get_at_end n t (framed n) alive ended run in
        (
          [],
          record t { pcap_file = f },
          rw g refl,
          (λ k. sym (idle k)),
          idle,
          (λ k. refl),
          alive,
          refl,
        )
    | inr (k, out, fs, run, sends) ↦
        let (f, g, e) = get_at_end n t (framed n) alive ended run in
        let (log, t', rest, each, idle, other_way, still, mac) =
          fetch_rest_lem n (record t { pcap_file = f; tcp_flows = fs }) v framed alive e
            sends.sendable (omega (arith, sends.fewer)) in
        (
          (k, out) ∷ log,
          t',
          rw (g, pos→==_false _ (CanParse-pos out sends.was_sendable), rest) refl,
          of_flow-sent sends log each,
          idle,
          (λ j. other_way j ∙ sends.other_way j),
          still,
          mac,
        )
  ]
