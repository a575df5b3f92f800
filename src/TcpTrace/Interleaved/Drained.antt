-- ===== src/TcpTrace/Interleaved/Drained.antt =====
-- Behind calls in any order, the packets that were held back.
use tcp_hw.Base.{
  ℕ, suc, ◌<◌, ◌≡◌, ◌∙◌, sym, ap, arith, false, some, List, [], ◌++◌, Bytes, All, length,
  append-nil,
}
use tcp_hw.Stdio.{File, unread}
use tcp_hw.Pcap.{file_header}
use tcp_hw.Frame.{FlowTuple}
use tcp_hw.Mimic.Matching.Fifo.{pairs, AllSameSize}
use tcp_hw.TcpTrace.{TcpTrace, Stale, FlowMap, find, new_trace}
use tcp_hw.TcpTrace.Drain.{Visits, pending}
use tcp_hw.TcpTrace.Rest.{Log, packets, of_flow, fetch_rest, fetch_rest_lem}
use tcp_hw.TcpTrace.Reading.{records, to_hardware, from_hardware}
use tcp_hw.TcpTrace.Interleaved.{Event, Compared, play}
use tcp_hw.TcpTrace.Interleaved.Expected.{asked, answers, Suits, Causal}
use tcp_hw.TcpTrace.Interleaved.Fifo.{run_from_start}

-- Let the calls of `get_buf_fr_io` and `put_buf_on_io` come in any order. Let each of the former
-- find a record of the trace file, which holds the header and these records, whose packet has its
-- headers and fits the buffer, and stale memory with the length of its IP header in the right
-- place; let each of the latter be given a packet with its headers in a flow of which a packet has
-- been read before, the i-th in a flow with the size of the i-th that the trace has from the
-- hardware in it, if there is one. Let an iteration visit the keys of the map and no others, and
-- let the stale memory of later calls reach to `ver_ihl`. Then no call faults, further calls of
-- `get_buf_fr_io` up to the first that returns nothing end without a fault, and in each flow the
-- packets handed out are all those that the trace has for the hardware, each once and in order.
pub interleaved_drains :
    (order : FlowMap → List FlowTuple) (ip_len : ℕ) (later : ℕ → Stale) (es : List Event) (f : File)
    (mac : Bytes)
    → Visits order
    → ((i : ℕ) → 14 < length (later i).frame)
    → unread f ≡ file_header ++ records (asked es)
    → All (Suits ip_len mac) es
    → Causal [] es
    → ((k : FlowTuple) → AllSameSize (pairs (from_hardware k (asked es)) (of_flow k (answers es))))
    → (first : Log) × (cs : Compared) × (t : TcpTrace) × (n : ℕ) × (second : Log) × (t' : TcpTrace)
      × (play order es (new_trace f mac).0 ≡ some (packets first, cs, t))
      × (fetch_rest order later n t ≡ some (packets second, t'))
      × (t'.deleted ≡ false)
      × ((k : FlowTuple) → of_flow k first ++ of_flow k second ≡ to_hardware k (asked es))
unfolding new_trace find
interleaved_drains order ip_len later es f mac visits framed e suits causal same =
    let (first, cs, t, played) =
      run_from_start order ip_len [] es f mac
        (e ∙ ap (λ (r : Bytes). file_header ++ r) (sym (append-nil (records (asked es))))) suits
        causal same in
    let (second, t', rest, queued, _, _, alive, _) =
      fetch_rest_lem order later (suc (pending t.tcp_flows)) t visits framed played.alive
        played.ended played.sendable (omega arith) in
    (
      first,
      cs,
      t,
      suc (pending t.tcp_flows),
      second,
      t',
      played.runs,
      rest,
      alive,
      λ k. ap (λ q. of_flow k first ++ q) (queued k) ∙ played.sends k,
    )
