-- ===== src/TcpTrace/Examples/Orders.antt =====
-- The hardware answers before the trace has been read to its end, and once before it is expected
-- to.
use tcp_hw.Base.{
  ℕ, arith, ◌≡◌, refl, false, true, some, List, [], ◌∷◌, ◌++◌, All, inl, inr, Bool-cases,
}
use tcp_hw.Frame.{FlowTuple, flow_eq}
use tcp_hw.Compare.{compare_bufs, finishes, compare_from}
use tcp_hw.Mimic.Matching.Fifo.{pairs, AllSameSize}
use tcp_hw.Mimic.Matching.History.{references, receiveds}
use tcp_hw.TcpTrace.{TcpTrace, new_trace}
use tcp_hw.TcpTrace.Drain.{queue}
use tcp_hw.TcpTrace.Rest.{Log, packets, of_flow, fetch_rest}
use tcp_hw.TcpTrace.Queues.{expects, unmatched}
use tcp_hw.TcpTrace.Reading.{to_hardware, from_hardware}
use tcp_hw.TcpTrace.Interleaved.{Event, ask, answer, Compared, in_flow, play}
use tcp_hw.TcpTrace.Interleaved.Expected.{asked, answers, Suits, Causal, opening, due}
use tcp_hw.TcpTrace.Interleaved.Fifo.{interleaved}
use tcp_hw.TcpTrace.Interleaved.Drained.{interleaved_drains}
use tcp_hw.TcpTrace.Examples.{hw_mac, to_hw, from_hw, memory, key, keys, keys-Visits}
use tcp_hw.TcpTrace.Examples.Trace.{
  labelled, trace_file, stale_length, to_hw-Fits, from_hw-Fits, answers-Own,
}

-- The answer comes before the record with which it is compared, at the next packet.
abbrev pub events : List Event
events =
    ask memory (labelled (to_hw 2) true)
    ∷ answer key (from_hw 18)
    ∷ ask memory (labelled (from_hw 18) false)
    ∷ answer key (from_hw 18)
    ∷ ask memory (labelled (to_hw 16) true)
    ∷ []

pub same_size :
    (k : FlowTuple)
    → AllSameSize (pairs (from_hardware k (asked events)) (of_flow k (answers events)))
unfolding compare_bufs finishes compare_from
same_size k = elim (Bool-cases (flow_eq key k)) [ inl b ↦ rw b (refl, tt) | inr b ↦ rw b tt ]

pub events-Suits : All (Suits 20 hw_mac) events
events-Suits = (
  (stale_length 0, to_hw-Fits.0),
  (
    answers-Own.0,
    ((stale_length 0, from_hw-Fits), (answers-Own.0, ((stale_length 0, to_hw-Fits.1), tt))),
  ),
)

pub events-Causal : Causal [] events
events-Causal = (inl refl, (inr (inl refl), tt))

interleaved_example :
    (log : Log) × (cs : Compared) × (t' : TcpTrace) × (play keys events
        (new_trace trace_file hw_mac).0
      ≡ some (packets log, cs, t'))
    × (t'.deleted ≡ false)
    × ((k : FlowTuple) → of_flow k log ≡ opening k (asked events))
    × ((k : FlowTuple) → of_flow k log ++ queue k t'.tcp_flows ≡ to_hardware k (asked events))
    × ((k : FlowTuple) → in_flow k cs ≡ pairs (due k events) (of_flow k (answers events)))
    × ((k : FlowTuple)
        → references (in_flow k cs) ++ expects k t'.tcp_flows ≡ from_hardware k (asked events))
    × ((k : FlowTuple)
        → receiveds (in_flow k cs) ++ unmatched k t'.tcp_flows ≡ of_flow k (answers events))
interleaved_example =
    interleaved keys 20 [] events trace_file hw_mac refl events-Suits events-Causal same_size

interleaved_drains_example :
    (first : Log) × (cs : Compared) × (t : TcpTrace) × (n : ℕ) × (second : Log) × (t' : TcpTrace)
    × (play keys events (new_trace trace_file hw_mac).0 ≡ some (packets first, cs, t))
    × (fetch_rest keys (λ i. memory) n t ≡ some (packets second, t'))
    × (t'.deleted ≡ false)
    × ((k : FlowTuple) → of_flow k first ++ of_flow k second ≡ to_hardware k (asked events))
interleaved_drains_example =
    interleaved_drains keys 20 (λ i. memory) events trace_file hw_mac keys-Visits (λ i. omega arith)
      refl events-Suits events-Causal same_size
