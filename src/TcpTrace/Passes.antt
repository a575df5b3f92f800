-- ===== src/TcpTrace/Passes.antt =====
-- Hardware that sends what the trace has: it passes, however the flows are interleaved.
use tcp_hw.Base.{
  suc, ◌<◌, ℕ, ◌≡◌, ◌∙◌, refl, sym, ap, subst, arith, false, Option, some, none, List, [], ◌∷◌,
  ◌++◌, Bytes, All, length, drop, drop-all, ==_iff, ◌>>=◌, Bool-cases, Option-cases, inl, inr,
}
use tcp_hw.Stdio.{File, unread}
use tcp_hw.Pcap.{file_header}
use tcp_hw.Frame.{FlowTuple, flow_eq, ip_hdr_len}
use tcp_hw.Frame.Address.{flow_eq_iff}
use tcp_hw.Compare.{compare_bufs, finishes}
use tcp_hw.Mimic.{TcpMimic}
use tcp_hw.Mimic.Matching.{Comparison}
use tcp_hw.Mimic.Matching.Fifo.{with_queues, pairs-nil}
use tcp_hw.TcpTrace.{TcpTrace, Stale, FlowMap, find, packet_key, put_buf_on_io, new_trace}
use tcp_hw.TcpTrace.Receive.{put-known}
use tcp_hw.TcpTrace.Whole.{Calm, whole_trace}
use tcp_hw.TcpTrace.Drain.{Visits}
use tcp_hw.TcpTrace.Rest.{fetch_rest, Log, packets, of_flow}
use tcp_hw.TcpTrace.Queues.{awaited, expects}
use tcp_hw.TcpTrace.Reading.{Labelled, Fits, records, from_hardware, fetch}

-- The hardware sends packets in turn: the comparisons that are made.
unfoldable pub check_all : List Bytes → TcpTrace → Option (List Comparison × TcpTrace)
check_all [] t = some ([], t)
check_all (p ∷ ps) t = do
  (cs, t', size) ← put_buf_on_io p t
  (ds, t'') ← check_all ps t'
  some (cs ++ ds, t'')

-- Every packet is compared with its equal.
abbrev pub perfect : List Bytes → List Comparison
perfect [] = []
perfect (p ∷ ps) = record { reference = p; received = p } ∷ perfect ps

-- A packet with its headers, from the hardware, in the flow that it is labelled with.
abbrev pub Own : Bytes → FlowTuple × Bytes → Type 0
Own mac e =
    (ip_len : ℕ) × (ip_hdr_len e.1 ≡ some ip_len) × (packet_key ip_len e.1 mac ≡ some (false, e.0))

equal_goes_on : (p : Bytes) → finishes (compare_bufs p p) ≡ false
unfolding compare_bufs finishes
equal_goes_on p = rw ((==_iff (length p) (length p)).1 refl) refl

awaited-some :
    (k : FlowTuple) (fs : FlowMap) {p : Bytes} {ps : List Bytes}
    → expects k fs ≡ p ∷ ps
    → (m : TcpMimic) × (find k fs ≡ some m) × (m.pkts_to_recv ≡ p ∷ ps)
awaited-some k fs e = elim (Option-cases (find k fs)) [
  | inl gone ↦ cc (ap awaited gone, e)
  | inr (m, found) ↦ (m, found, sym (ap awaited found) ∙ e)
]

-- One packet, the first that its flow expects.
put_first :
    (key : FlowTuple) (p : Bytes) (ps : List Bytes) (t : TcpTrace)
    → t.deleted ≡ false
    → Calm t.tcp_flows
    → Own t.source_mac_addr (key, p)
    → expects key t.tcp_flows ≡ p ∷ ps
    → (t' : TcpTrace) × (put_buf_on_io p t
        ≡ some (record { reference = p; received = p } ∷ [], t', length p))
      × (t'.deleted ≡ false)
      × (t'.source_mac_addr ≡ t.source_mac_addr)
      × Calm t'.tcp_flows
      × (expects key t'.tcp_flows ≡ ps)
      × ((j : FlowTuple) → flow_eq key j ≡ false → expects j t'.tcp_flows ≡ expects j t.tcp_flows)
put_first key p ps t alive calm (ip_len, own, keyed) e =
    let (m, found, queued) = awaited-some key t.tcp_flows e in
    let none_waits : m.pkts_recved_buf ≡ [] = calm key m found in
    let nil : drop {A = Bytes} (length ps) [] ≡ [] = drop-all (length ps) [] (omega arith) in
    let (t', run, alive', _, mac, each) =
      (rw (queued, none_waits, pairs-nil ps, nil) at
          (put-known p t ip_len false key alive own keyed m found))
        (equal_goes_on p, tt) in
    let m' : TcpMimic = with_queues ps [] m in
    let mine : find key t'.tcp_flows ≡ some m' =
      each key ∙ rw ((flow_eq_iff key key).1 refl) refl in
    (
      t',
      run,
      alive',
      mac,
      (λ k n q. elim (Bool-cases (flow_eq key k)) [
        | inl b ↦
            let same : some m' ≡ some n = sym (each k ∙ rw b refl) ∙ q in
            ap (λ (o : Option TcpMimic). elim o [ none ↦ [] | some x ↦ x.pkts_recved_buf ])
              (sym same)
        | inr b ↦ calm k n (sym (each k ∙ rw b refl) ∙ q)
      ]),
      ap awaited mine,
      λ j b.
          let same : find j t'.tcp_flows ≡ find j t.tcp_flows = each j ∙ rw b refl in
          ap awaited same,
    )

-- What each flow still expects once a log of packets has been sent.
abbrev pub Before : Log → (FlowTuple → List Bytes) → FlowMap → Type 0
Before log left fs = (k : FlowTuple) → expects k fs ≡ of_flow k log ++ left k

step-Before :
    (key : FlowTuple) (p : Bytes) (log : Log) (left : FlowTuple → List Bytes) (fs fs' : FlowMap)
    → Before ((key, p) ∷ log) left fs
    → expects key fs' ≡ of_flow key log ++ left key
    → ((j : FlowTuple) → flow_eq key j ≡ false → expects j fs' ≡ expects j fs)
    → Before log left fs'
step-Before key p log left fs fs' before mine others k = elim (Bool-cases (flow_eq key k)) [
  | inl b ↦ subst (λ j. expects j fs' ≡ of_flow j log ++ left j) ((flow_eq_iff key k).0 b) mine
  | inr b ↦ others k b ∙ (rw b at (before k))
]

-- Packets that are, flow by flow, the next that the trace expects: each is compared with its equal.
pub check_all_lem :
    (log : Log) (left : FlowTuple → List Bytes) (t : TcpTrace)
    → t.deleted ≡ false
    → Calm t.tcp_flows
    → All (Own t.source_mac_addr) log
    → Before log left t.tcp_flows
    → (t' : TcpTrace) × (check_all (packets log) t ≡ some (perfect (packets log), t'))
      × (t'.deleted ≡ false)
      × ((k : FlowTuple) → expects k t'.tcp_flows ≡ left k)
unfolding check_all
check_all_lem [] left t alive calm own before = (t, refl, alive, before)
check_all_lem ((key, p) ∷ log) left t alive calm (o, own) before =
    let next : expects key t.tcp_flows ≡ p ∷ (of_flow key log ++ left key) =
      rw ((flow_eq_iff key key).1 refl) at (before key) in
    let (u, put, alive', mac, calm', mine, others) =
      put_first key p (of_flow key log ++ left key) t alive calm o next in
    let (t', run, still, done) =
      check_all_lem log left u alive' calm' (subst (λ (m : Bytes). All (Own m) log) (sym mac) own)
        (step-Before key p log left t.tcp_flows u.tcp_flows before mine others) in
    (t', rw (put, run) refl, still, done)

-- Let an iteration visit the keys of the map and no others, let the stale buffers have the length
-- of the IP header in the right place, and let a trace file hold the header and records whose
-- packets have their headers, fit the buffer, and have IP headers of that length. When the whole
-- trace has been replayed, up to the call that returns nothing, let the hardware send packets with
-- their headers, which are, for each flow, the first that the trace has from the hardware in it, in
-- order, with the flows interleaved in any way. Then no call faults, every packet is compared with
-- its equal, nothing ends the simulation, and what each flow expects afterwards are the remaining
-- packets of the trace.
trace_passes :
    (order : FlowMap → List FlowTuple) (stale later : ℕ → Stale) (ip_len : ℕ) (f : File)
    (mac : Bytes) (ls : List Labelled) (log : Log) (left : FlowTuple → List Bytes)
    → Visits order
    → ((i : ℕ) → ip_hdr_len (stale i).frame ≡ some ip_len)
    → ((i : ℕ) → 14 < length (later i).frame)
    → All (Fits ip_len mac) ls
    → unread f ≡ file_header ++ records ls
    → All (Own mac) log
    → ((k : FlowTuple) → from_hardware k ls ≡ of_flow k log ++ left k)
    → (first : List Bytes) × (t : TcpTrace) × (second : List Bytes) × (t' t'' : TcpTrace) × (fetch
          order stale
          (length ls)
          (new_trace f mac).0
        ≡ some (first, t))
      × (fetch_rest order later (suc (length ls)) t ≡ some (second, t'))
      × (check_all (packets log) t' ≡ some (perfect (packets log), t''))
      × (t''.deleted ≡ false)
      × ((k : FlowTuple) → expects k t''.tcp_flows ≡ left k)
trace_passes order stale later ip_len f mac ls log left visits same framed fits e own sends =
    let (first, t, second, t', _, read, rest, _, awaits, calm, alive, same_mac) =
      whole_trace order stale later ip_len f mac ls visits same framed fits e in
    let (t'', run, still, done) =
      check_all_lem log left t' alive calm
        (subst (λ (m : Bytes). All (Own m) log) (sym same_mac) own) (λ k. awaits k ∙ sends k) in
    (packets first, t, packets second, t', t'', read, rest, run, still, done)
