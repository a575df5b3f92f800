-- ===== src/TcpTrace/Interleaved/Expected.antt =====
-- What is to become of a trace that is read while the hardware answers.
use tcp_hw.Base.{
  ℕ, ◌≡◌, ◌∙◌, refl, sym, ap, false, some, List, [], ◌∷◌, ◌++◌, Bytes, append-nil, inl, inr, not,
  true, ◌⊎◌, Bool-cases, if◌then◌else◌,
}
use tcp_hw.Stdio.{unread}
use tcp_hw.Frame.{FlowTuple, flow_eq, ip_hdr_len}
use tcp_hw.Frame.Address.{flow_eq_iff}
use tcp_hw.Mimic.Matching.History.{references, receiveds, before, made}
use tcp_hw.TcpTrace.{TcpTrace, FlowMap, find}
use tcp_hw.TcpTrace.Flows.{Every}
use tcp_hw.TcpTrace.Drain.{Sendable, queue, Has}
use tcp_hw.TcpTrace.Rest.{Log, packets, of_flow}
use tcp_hw.TcpTrace.Queues.{expects, unmatched, Opened}
use tcp_hw.TcpTrace.Share.{mine, mine-own, mine-other, if_new, if_new-nil}
use tcp_hw.TcpTrace.Reading.{Labelled, Fits, to_hardware, from_hardware}
use tcp_hw.TcpTrace.Passes.{Own}
use tcp_hw.TcpTrace.Interleaved.{Event, ask, answer, Compared, in_flow, play}

-- The records that are read, and the packets of the hardware.
abbrev pub asked : List Event → List Labelled
asked [] = []
asked (ask stale l ∷ es) = l ∷ asked es
asked (answer k p ∷ es) = asked es

abbrev pub answers : List Event → Log
answers [] = []
answers (ask stale l ∷ es) = answers es
answers (answer k p ∷ es) = (k, p) ∷ answers es

-- The hardware answers only in flows of which the trace has shown a packet.
abbrev pub Causal : List FlowTuple → List Event → Type 0
Causal seen [] = Unit
Causal seen (ask stale l ∷ es) = Causal (l.key ∷ seen) es
Causal seen (answer k p ∷ es) = Has k seen × Causal seen es

-- The labels are those of the packets, and the stale buffer has the length of the IP header.
abbrev pub Suits : ℕ → Bytes → Event → Type 0
Suits ip_len mac (ask stale l) = (ip_hdr_len stale.frame ≡ some ip_len) × Fits ip_len mac l
Suits ip_len mac (answer k p) = Own mac (k, p)

-- The packet of a flow that is handed out while a trace is read: the one that opens the flow, if it
-- is for the hardware.
abbrev pub opening : FlowTuple → List Labelled → List Bytes
opening k [] = []
opening k (l ∷ ls) =
    if flow_eq l.key k then (if l.send then l.packet ∷ [] else []) else opening k ls

-- The packets that a flow is to get from the hardware and that are read before the last packet of
-- the hardware in the flow.
abbrev pub due : FlowTuple → List Event → List Bytes
due k [] = []
due k (ask stale l ∷ es) =
    before (of_flow k (answers es)) (mine (not l.send) l.key l.packet k ++ due k es)
due k (answer key p ∷ es) = due k es

pub due-nil : (k : FlowTuple) (es : List Event) → of_flow k (answers es) ≡ [] → due k es ≡ []
due-nil k [] e = refl
due-nil k (ask stale l ∷ es) e = rw e refl
due-nil k (answer key p ∷ es) e = elim (Bool-cases (flow_eq key k)) [
  | inl b ↦ cc (rw b at e)
  | inr b ↦ due-nil k es (rw b at e)
]

-- What a run leaves, from the state `t` on.
pub record Played (order : FlowMap → List FlowTuple) (rest : Bytes) (es : List Event) (t : TcpTrace)
    (log : Log) (cs : Compared) (t' : TcpTrace) : Type 0 where
  pub runs : play order es t ≡ some (packets log, cs, t')
  pub alive : t'.deleted ≡ false
  pub ended : unread t'.pcap_file ≡ rest
  pub sendable : Every Sendable t'.tcp_flows
  pub sends :
      (k : FlowTuple)
      → of_flow k log ++ queue k t'.tcp_flows ≡ queue k t.tcp_flows ++ to_hardware k (asked es)
  pub refs :
      (k : FlowTuple)
      → references (in_flow k cs) ++ expects k t'.tcp_flows
        ≡ expects k t.tcp_flows ++ from_hardware k (asked es)
  pub recs :
      (k : FlowTuple)
      → receiveds (in_flow k cs) ++ unmatched k t'.tcp_flows
        ≡ unmatched k t.tcp_flows ++ of_flow k (answers es)
  pub hands : (k : FlowTuple) → of_flow k log ≡ if_new (find k t.tcp_flows) (opening k (asked es))
  pub makes :
      (k : FlowTuple)
      → in_flow k cs
        ≡ made (expects k t.tcp_flows) (unmatched k t.tcp_flows) (due k es) (of_flow k (answers es))

opening-own :
    (k : FlowTuple) (l : Labelled) (ls : List Labelled)
    → flow_eq l.key k ≡ true
    → opening k (l ∷ ls) ≡ (if l.send then l.packet ∷ [] else [])
opening-own k l ls b = rw b refl

opening-other :
    (k : FlowTuple) (l : Labelled) (ls : List Labelled)
    → flow_eq l.key k ≡ false
    → opening k (l ∷ ls) ≡ opening k ls
opening-other k l ls b = rw b refl

-- A packet that is read, and what is read after it.
pub hands_more :
    (k : FlowTuple) (l : Labelled) (ls : List Labelled) (fs fs' : FlowMap)
    → (flow_eq l.key k ≡ false → find k fs' ≡ find k fs)
    → ((l.key ≡ k) ⊎ Opened k fs → Opened k fs')
    → if_new (find k fs) (mine l.send l.key l.packet k) ++ if_new (find k fs') (opening k ls)
      ≡ if_new (find k fs) (opening k (l ∷ ls))
hands_more k l ls fs fs' other opens = elim (Bool-cases (flow_eq l.key k)) [
  | inl b ↦
      let (m, there) = opens (inl ((flow_eq_iff l.key k).0 b)) in
      ap (λ o. if_new (find k fs) (mine l.send l.key l.packet k) ++ if_new o (opening k ls)) there
      ∙ append-nil (if_new (find k fs) (mine l.send l.key l.packet k))
      ∙ ap (λ q. if_new (find k fs) q)
          (mine-own l.send l.key k l.packet b ∙ sym (opening-own k l ls b))
  | inr b ↦
      ap (λ q. if_new (find k fs) q ++ if_new (find k fs') (opening k ls))
        (mine-other l.send l.key k l.packet b)
      ∙ ap (λ q. q ++ if_new (find k fs') (opening k ls)) (if_new-nil (find k fs))
      ∙ ap (λ o. if_new o (opening k ls)) (other b)
      ∙ ap (λ q. if_new (find k fs) q) (sym (opening-other k l ls b))
]
