-- ===== src/TcpTrace/Interleaved.antt =====
-- A trace that is being read while the hardware answers, in any order.
pub mod Answers
pub mod Expected
pub mod Fifo
pub mod Drained
use tcp_hw.Base.{
  ℕ, ◌≡◌, ◌∙◌, refl, sym, ap, subst, arith, true, false, Option, some, List, [], ◌∷◌, ◌++◌, Bytes,
  All, All-split, length, drop, append_assoc, append-nil, ◌⊎◌, inl, inr, Bool-cases, if◌then◌else◌,
  ◌>>=◌,
}
use tcp_hw.Backend.{kept}
use tcp_hw.Frame.{FlowTuple, flow_eq}
use tcp_hw.Frame.Address.{flow_eq_iff}
use tcp_hw.Mimic.{TcpMimic}
use tcp_hw.Mimic.Matching.{Comparison}
use tcp_hw.Mimic.Matching.Fifo.{pairs, AllSameSize, with_queues}
use tcp_hw.Mimic.Matching.History.{
  references, receiveds, references-pairs, receiveds-pairs, pairs-append,
}
use tcp_hw.TcpTrace.{TcpTrace, Stale, FlowMap, find, update, get_buf_fr_io, put_buf_on_io}
use tcp_hw.TcpTrace.Flows.{Every, Every-find, Every-update, find-update}
use tcp_hw.TcpTrace.Handshake.{Waits}
use tcp_hw.TcpTrace.Drain.{Sendable, queue, waiting}
use tcp_hw.TcpTrace.Queues.{expects, awaited, unmatched, arrived, Opened, written-Opened}
use tcp_hw.TcpTrace.Receive.{known_lem}
use tcp_hw.TcpTrace.Reading.{Labelled}
use tcp_hw.TcpTrace.Passes.{Own}

-- A call of `get_buf_fr_io`, which finds a record, and a packet of the hardware in a flow.
pub data Event : Type 0 where
  ask : Stale → Labelled → Event
  answer : FlowTuple → Bytes → Event

-- Comparisons with their flows.
abbrev pub Compared : Type 0
Compared = List (FlowTuple × Comparison)

abbrev pub in_flow : FlowTuple → Compared → List Comparison
in_flow k [] = []
in_flow k ((j, c) ∷ cs) = if flow_eq j k then c ∷ in_flow k cs else in_flow k cs

abbrev pub labelled_with : FlowTuple → List Comparison → Compared
labelled_with k [] = []
labelled_with k (c ∷ cs) = (k, c) ∷ labelled_with k cs

-- The calls in turn, the packets that they hand out, and the comparisons that are made.
unfoldable pub play :
    (FlowMap → List FlowTuple) → List Event → TcpTrace → Option (List Bytes × Compared × TcpTrace)
play order [] t = some ([], [], t)
play order (ask stale l ∷ es) t = do
  (out, t') ← get_buf_fr_io order stale t
  (outs, cs, t'') ← play order es t'
  some (kept out outs, cs, t'')
play order (answer k p ∷ es) t = do
  (cs, t', size) ← put_buf_on_io p t
  (outs, ds, t'') ← play order es t'
  some (outs, labelled_with k cs ++ ds, t'')

pub in_flow-append :
    (k : FlowTuple) (xs ys : Compared) → in_flow k (xs ++ ys) ≡ in_flow k xs ++ in_flow k ys
in_flow-append k [] ys = refl
in_flow-append k ((j, c) ∷ xs) ys = elim (Bool-cases (flow_eq j k)) [
  | inl e ↦ rw e (ap (λ q. c ∷ q) (in_flow-append k xs ys))
  | inr e ↦ rw e (in_flow-append k xs ys)
]

all_of :
    (j k : FlowTuple) (cs : List Comparison)
    → flow_eq k j ≡ true
    → in_flow j (labelled_with k cs) ≡ cs
all_of j k [] e = refl
all_of j k (c ∷ cs) e = rw e (ap (λ q. c ∷ q) (all_of j k cs e))

none_of :
    (j k : FlowTuple) (cs : List Comparison)
    → flow_eq k j ≡ false
    → in_flow j (labelled_with k cs) ≡ []
none_of j k [] e = refl
none_of j k (c ∷ cs) e = rw e (none_of j k cs e)

pub in_flow-labelled_with :
    (k j : FlowTuple) (cs : List Comparison)
    → in_flow j (labelled_with k cs) ≡ (if flow_eq k j then cs else [])
in_flow-labelled_with k j cs = elim (Bool-cases (flow_eq k j)) [
  | inl e ↦ rw e (all_of j k cs e)
  | inr e ↦ rw e (none_of j k cs e)
]
