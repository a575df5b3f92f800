-- ===== src/TcpTrace/Whole.antt =====
-- A whole trace: what the backend hands out until the trace is used up, and what it then expects of
-- the hardware.
use tcp_hw.Base.{
  sym, none, Option, refl, false, [], ℕ, suc, ◌<◌, ◌≡◌, ◌∙◌, refl, ap, arith, false, not, some,
  List, ◌++◌, Bytes, All, length,
}
use tcp_hw.Stdio.{File, unread}
use tcp_hw.Pcap.{file_header}
use tcp_hw.Pcap.Header.{consume-write_header}
use tcp_hw.Frame.{FlowTuple, ip_hdr_len}
use tcp_hw.TcpTrace.{TcpTrace, Stale, FlowMap, find, new_trace}
use tcp_hw.TcpTrace.Drain.{Visits}
use tcp_hw.TcpTrace.Rest.{Log, packets, of_flow, fetch_rest, fetch_rest_lem}
use tcp_hw.TcpTrace.Queues.{expects}
use tcp_hw.Mimic.{TcpMimic}
use tcp_hw.TcpTrace.Flows.{Every, Every-find}
use tcp_hw.TcpTrace.Drain.{other_side}
use tcp_hw.TcpTrace.Session.{Fresh}
use tcp_hw.TcpTrace.Queues.{awaited}
use tcp_hw.TcpTrace.Reading.{Labelled, Fits, records, to_hardware, from_hardware, fetch, read_lem}

-- No flow has a packet that waits to be compared.
abbrev pub Calm : FlowMap → Type 0
Calm fs = (k : FlowTuple) (m : TcpMimic) → find k fs ≡ some m → m.pkts_recved_buf ≡ []

same_awaited : (o p : Option TcpMimic) → other_side o ≡ other_side p → awaited o ≡ awaited p
same_awaited none none e = refl
same_awaited none (some n) e = cc
same_awaited (some m) none e = cc
same_awaited (some m) (some n) e = cc

same_recved :
    (m : TcpMimic) (p : Option TcpMimic)
    → other_side (some m) ≡ other_side p
    → (n : TcpMimic) × (p ≡ some n) × (m.pkts_recved_buf ≡ n.pkts_recved_buf)
same_recved m none e = cc
same_recved m (some n) e = (n, refl, cc)

other_side-Calm :
    (fs fs' : FlowMap)
    → Every Fresh fs
    → ((k : FlowTuple) → other_side (find k fs') ≡ other_side (find k fs))
    → Calm fs'
other_side-Calm fs fs' fresh same k m e =
    let (n, found, recved) = same_recved m (find k fs) (ap other_side (sym e) ∙ same k) in
    recved ∙ Every-find Fresh k fs fresh found

-- Let an iteration visit the keys of the map and no others, let the stale buffers have the length
-- of the IP header in the right place, and let a trace file hold the header and records whose
-- packets have their headers, fit the buffer, and have IP headers of that length. The constructor
-- accepts the file. Then one call of `get_buf_fr_io` for each record, and further calls up to the
-- first that returns nothing, which are at most one more than there are records, return exactly the
-- packets of the trace that are addressed to the hardware: for each flow all of them, each once, in
-- the order of the trace. Then each flow expects exactly the packets of the trace that the hardware
-- has to send in it, in the order of the trace, no packet from the hardware waits to be compared,
-- and the backend lives on, with its address.
pub whole_trace :
    (order : FlowMap → List FlowTuple) (stale later : ℕ → Stale) (ip_len : ℕ) (f : File)
    (mac : Bytes) (ls : List Labelled)
    → Visits order
    → ((i : ℕ) → ip_hdr_len (stale i).frame ≡ some ip_len)
    → ((i : ℕ) → 14 < length (later i).frame)
    → All (Fits ip_len mac) ls
    → unread f ≡ file_header ++ records ls
    → (first : Log) × (t : TcpTrace) × (second : Log) × (t' : TcpTrace) × ((new_trace f mac).1
        ≡ false)
      × (fetch order stale (length ls) (new_trace f mac).0 ≡ some (packets first, t))
      × (fetch_rest order later (suc (length ls)) t ≡ some (packets second, t'))
      × ((k : FlowTuple) → of_flow k first ++ of_flow k second ≡ to_hardware k ls)
      × ((k : FlowTuple) → expects k t'.tcp_flows ≡ from_hardware k ls)
      × Calm t'.tcp_flows
      × (t'.deleted ≡ false)
      × (t'.source_mac_addr ≡ mac)
unfolding new_trace find
whole_trace order stale later ip_len f mac ls visits same framed fits e =
    let (whole, left) = consume-write_header f (records ls) e in
    let (first, t, read) =
      read_lem order stale ip_len mac same ls (new_trace f mac).0 fits refl refl left tt tt in
    let (second, t', rest, queued, _, other_way, alive, same_mac) =
      fetch_rest_lem order later (suc (length ls)) t visits framed read.alive read.ended
        read.sendable (omega (arith, read.few)) in
    (
      first,
      t,
      second,
      t',
      ap not whole,
      read.runs,
      rest,
      (λ k. ap (λ q. of_flow k first ++ q) (queued k) ∙ read.sent k),
      (λ k. same_awaited (find k t'.tcp_flows) (find k t.tcp_flows) (other_way k) ∙ read.awaits k),
      other_side-Calm t.tcp_flows t'.tcp_flows (read.fresh tt) other_way,
      alive,
      same_mac ∙ read.same_mac,
    )
