-- ===== src/TcpTrace/Interleaved/Fifo.antt =====
-- While a trace is read and the hardware answers in any order, each flow is first in, first out.
use tcp_hw.Base.{
  ℕ, ◌≡◌, ◌∙◌, refl, sym, ap, subst, false, some, List, [], ◌∷◌, ◌++◌, Bytes, All, append_assoc,
  append-nil, inl, inr, not,
}
use tcp_hw.Stdio.{File, unread}
use tcp_hw.Pcap.{file_header, record_bytes}
use tcp_hw.Pcap.Header.{consume-write_header}
use tcp_hw.Frame.{FlowTuple}
use tcp_hw.Frame.Address.{flow_eq_iff}
use tcp_hw.Mimic.Matching.Fifo.{pairs, AllSameSize}
use tcp_hw.Mimic.Matching.History.{
  references, receiveds, references-append, receiveds-append, made-pairs, made-expect,
}
use tcp_hw.TcpTrace.{TcpTrace, FlowMap, find, new_trace}
use tcp_hw.TcpTrace.Flows.{Every}
use tcp_hw.TcpTrace.Handshake.{Waits}
use tcp_hw.TcpTrace.Drain.{Sendable, queue, Has}
use tcp_hw.TcpTrace.Rest.{Log, packets, of_flow}
use tcp_hw.TcpTrace.Queues.{expects, unmatched, Opened}
use tcp_hw.TcpTrace.Share.{mine, if_new-nil}
use tcp_hw.TcpTrace.Session.{entry_of}
use tcp_hw.TcpTrace.Reading.{
  records, to_hardware, from_hardware, get_reads, kept-packets, of_flow-append, joined,
}
use tcp_hw.TcpTrace.Interleaved.{
  Event, ask, answer, Compared, in_flow, in_flow-append, labelled_with, play,
}
use tcp_hw.TcpTrace.Interleaved.Answers.{answer_lem}
use tcp_hw.TcpTrace.Interleaved.Expected.{
  asked, answers, Causal, Suits, opening, due, due-nil, Played, hands_more,
}

module _ (order : FlowMap → List FlowTuple) (ip_len : ℕ) (rest : Bytes) where
  play_lem :
      (es : List Event) (t : TcpTrace) (seen : List FlowTuple)
      → t.deleted ≡ false
      → unread t.pcap_file ≡ records (asked es) ++ rest
      → Every Waits t.tcp_flows
      → Every Sendable t.tcp_flows
      → All (Suits ip_len t.source_mac_addr) es
      → ((k : FlowTuple) → Has k seen → Opened k t.tcp_flows)
      → Causal seen es
      → ((k : FlowTuple)
          → AllSameSize (
              pairs
                (expects k t.tcp_flows ++ from_hardware k (asked es))
                (unmatched k t.tcp_flows ++ of_flow k (answers es))))
      → (log : Log) × (cs : Compared) × (t' : TcpTrace) × Played order rest es t log cs t'
  unfolding play
  play_lem [] t seen alive e w h suits there causal same = (
    [],
    [],
    t,
    record {
      runs = refl;
      alive = alive;
      ended = e;
      sendable = h;
      sends = λ k. sym (append-nil (queue k t.tcp_flows));
      refs = λ k. sym (append-nil (expects k t.tcp_flows));
      recs = λ k. sym (append-nil (unmatched k t.tcp_flows));
      hands = λ k. sym (if_new-nil (find k t.tcp_flows));
      makes = λ k. refl;
    },
  )
  play_lem (ask stale l ∷ es) t seen alive e w h ((framed, fits), suits) there causal same =
      let (out, f, fs, run, left, done) =
        get_reads order stale ip_len l (records (asked es) ++ rest) t framed fits alive
          (e ∙ append_assoc (record_bytes l.sec l.usec l.packet) (records (asked es)) rest) w h in
      let u : TcpTrace = record t { pcap_file = f; tcp_flows = fs } in
      let (log, cs, t', played) =
        play_lem es u (l.key ∷ seen) alive left done.waits done.sendable suits
          (λ k has. done.opens k (elim has [ inl q ↦ inl q | inr r ↦ inr (there k r) ])) causal
          (λ k. rw (done.recvs k, done.arrivals k, append_assoc) (same k)) in
      (
        entry_of l.key out ++ log,
        cs,
        t',
        record {
          runs =
              rw (run, played.runs) (ap (λ q. some (q, cs, t')) (sym (kept-packets l.key out log)));
          alive = played.alive;
          ended = played.ended;
          sendable = played.sendable;
          sends = λ k.
              ap (λ q. q ++ queue k t'.tcp_flows) (of_flow-append k (entry_of l.key out) log)
              ∙ joined (of_flow k (entry_of l.key out)) (of_flow k log) (queue k fs)
                  (queue k t.tcp_flows) (queue k t'.tcp_flows) (mine l.send l.key l.packet k)
                  (to_hardware k (asked es)) (done.sends k) (played.sends k);
          refs = λ k.
              played.refs k
              ∙ ap (λ q. q ++ from_hardware k (asked es)) (done.recvs k)
              ∙ append_assoc (expects k t.tcp_flows) (mine (not l.send) l.key l.packet k)
                  (from_hardware k (asked es));
          recs = λ k. played.recs k ∙ ap (λ q. q ++ of_flow k (answers es)) (done.arrivals k);
          hands = λ k.
              of_flow-append k (entry_of l.key out) log
              ∙ (λ i. done.hands k i ++ played.hands k i)
              ∙ hands_more k l (asked es) t.tcp_flows fs (done.others k) (done.opens k);
          makes = λ k.
              played.makes k
              ∙ rw (done.recvs k, done.arrivals k)
                  (made-expect (expects k t.tcp_flows) (unmatched k t.tcp_flows)
                    (mine (not l.send) l.key l.packet k) (due k es) (of_flow k (answers es)));
        },
      )
  play_lem (answer key p ∷ es) t seen alive e w h (own, suits) there (has, causal) same =
      let (cs, t1, now) =
        answer_lem t key p alive own (there key has) w h (from_hardware key (asked es))
          (of_flow key (answers es)) (rw ((flow_eq_iff key key).1 refl) at (same key)) in
      let (log, ds, t', played) =
        play_lem es t1 seen now.alive (ap unread now.same_file ∙ e) now.waits now.sendable
          (subst (λ (m : Bytes). All (Suits ip_len m) es) (sym now.same_mac) suits)
          (λ k r. now.opens k (there k r)) causal
          (λ k. now.later k (from_hardware k (asked es)) (of_flow k (answers es)) (same k)) in
      (
        log,
        labelled_with key cs ++ ds,
        t',
        record {
          runs = rw (now.runs, played.runs) refl;
          alive = played.alive;
          ended = played.ended;
          sendable = played.sendable;
          sends = λ k. played.sends k ∙ ap (λ q. q ++ to_hardware k (asked es)) (now.queues k);
          refs = λ k.
              rw (in_flow-append k (labelled_with key cs) ds, references-append)
                (append_assoc (references (in_flow k (labelled_with key cs)))
                    (references (in_flow k ds)) (expects k t'.tcp_flows)
                  ∙ ap (λ q. references (in_flow k (labelled_with key cs)) ++ q) (played.refs k)
                  ∙ now.refs k (from_hardware k (asked es)));
          recs = λ k.
              rw (in_flow-append k (labelled_with key cs) ds, receiveds-append)
                (append_assoc (receiveds (in_flow k (labelled_with key cs)))
                    (receiveds (in_flow k ds)) (unmatched k t'.tcp_flows)
                  ∙ ap (λ q. receiveds (in_flow k (labelled_with key cs)) ++ q) (played.recs k)
                  ∙ now.recs k (of_flow k (answers es)));
          hands = λ k. played.hands k ∙ now.same_flows k (opening k (asked es));
          makes = λ k.
              in_flow-append k (labelled_with key cs) ds
              ∙ ap (λ q. in_flow k (labelled_with key cs) ++ q) (played.makes k)
              ∙ now.makes k (due k es) (of_flow k (answers es)) (due-nil k es);
        },
      )

-- A run from the start.
pub run_from_start :
    (order : FlowMap → List FlowTuple) (ip_len : ℕ) (rest : Bytes) (es : List Event) (f : File)
    (mac : Bytes)
    → unread f ≡ file_header ++ (records (asked es) ++ rest)
    → All (Suits ip_len mac) es
    → Causal [] es
    → ((k : FlowTuple) → AllSameSize (pairs (from_hardware k (asked es)) (of_flow k (answers es))))
    → (log : Log) × (cs : Compared) × (t' : TcpTrace) × Played order rest es
        (new_trace f mac).0
        log
        cs
        t'
unfolding new_trace find
run_from_start order ip_len rest es f mac e suits causal same =
    let (_, left) = consume-write_header f (records (asked es) ++ rest) e in
    play_lem order ip_len rest es (new_trace f mac).0 [] refl left tt tt suits
      (λ k none. absurd none) causal same

-- Let the calls of `get_buf_fr_io` and `put_buf_on_io` come in any order. Let each of the former
-- find a record of the trace file, behind its header, whose packet has its headers and fits the
-- buffer, and stale memory with the length of its IP header in the right place; let each of the
-- latter be given a packet with its headers in a flow of which a packet has been read before. Let
-- the i-th packet that the hardware sends in a flow have the size of the i-th that the trace has
-- from the hardware in it, as far as there are both. Then no call faults and nothing ends the
-- simulation. In each flow the packet handed out is the one that opens the flow, if that is for the
-- hardware, and none else; behind it those held back are all the others that were read for the
-- hardware, in order. The comparisons made in a flow are exactly those of the i-th packet read from
-- the hardware with the i-th that it sent, among those read before the last that it sent; what is
-- left on either side still waits, in order.
pub interleaved :
    (order : FlowMap → List FlowTuple) (ip_len : ℕ) (rest : Bytes) (es : List Event) (f : File)
    (mac : Bytes)
    → unread f ≡ file_header ++ (records (asked es) ++ rest)
    → All (Suits ip_len mac) es
    → Causal [] es
    → ((k : FlowTuple) → AllSameSize (pairs (from_hardware k (asked es)) (of_flow k (answers es))))
    → (log : Log) × (cs : Compared) × (t' : TcpTrace) × (play order es (new_trace f mac).0
        ≡ some (packets log, cs, t'))
      × (t'.deleted ≡ false)
      × ((k : FlowTuple) → of_flow k log ≡ opening k (asked es))
      × ((k : FlowTuple) → of_flow k log ++ queue k t'.tcp_flows ≡ to_hardware k (asked es))
      × ((k : FlowTuple) → in_flow k cs ≡ pairs (due k es) (of_flow k (answers es)))
      × ((k : FlowTuple)
          → references (in_flow k cs) ++ expects k t'.tcp_flows ≡ from_hardware k (asked es))
      × ((k : FlowTuple)
          → receiveds (in_flow k cs) ++ unmatched k t'.tcp_flows ≡ of_flow k (answers es))
unfolding new_trace find
interleaved order ip_len rest es f mac e suits causal same =
    let (log, cs, t', played) = run_from_start order ip_len rest es f mac e suits causal same in
    (
      log,
      cs,
      t',
      played.runs,
      played.alive,
      played.hands,
      played.sends,
      (λ k. played.makes k ∙ made-pairs (due k es) (of_flow k (answers es))),
      played.refs,
      played.recs,
    )
