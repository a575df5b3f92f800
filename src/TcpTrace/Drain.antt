-- ===== src/TcpTrace/Drain.antt =====
-- The end of the trace file: `get_buf_fr_io` hands out the packets that wait in the flows.
use tcp_hw.Base.{
  ℕ, suc, ◌+◌, ◌≤◌, ◌≡◌, ◌≢◌, ◌∙◌, refl, sym, ap, subst, arith, true, false, Option, some, none,
  List, [], ◌∷◌, Bytes, All, ◌⊎◌, inl, inr, length, Bool-cases, Option-cases, List-cases,
}
use tcp_hw.Frame.{FlowTuple, flow_eq, Parsed, parse}
use tcp_hw.Frame.Address.{flow_eq_iff}
use tcp_hw.Mimic.{TcpMimic, pkts_to_send_empty, get_pkts_to_send_front}
use tcp_hw.TcpTrace.{FlowMap, find, update, process, buf_process_helper, send_front, drain}
use tcp_hw.TcpTrace.Flows.{Every, Every-find, Every-update, find-update}

abbrev pub Has : FlowTuple → List FlowTuple → Type 0
Has k [] = ⊥
Has k (j ∷ js) = (j ≡ k) ⊎ Has k js

-- What an iteration of `std::unordered_map` visits: every key of the map, and no other.
pub record Visits (order : FlowMap → List FlowTuple) : Type 0 where
  pub all : (fs : FlowMap) (k : FlowTuple) (m : TcpMimic) → find k fs ≡ some m → Has k (order fs)
  pub only :
      (fs : FlowMap) (k : FlowTuple) → Has k (order fs) → (m : TcpMimic) × (find k fs ≡ some m)

-- The headers of the packet lie within it.
abbrev pub CanParse : Bytes → Type 0
CanParse pkt = (p : Parsed) × (parse pkt ≡ some p)

abbrev pub Sendable : TcpMimic → Type 0
Sendable m = All CanParse m.pkts_to_send

-- The packets that wait in a flow; none in one that is not there.
abbrev pub waiting : Option TcpMimic → List Bytes
waiting none = []
waiting (some m) = m.pkts_to_send

abbrev pub queue : FlowTuple → FlowMap → List Bytes
queue k fs = waiting (find k fs)

-- How many packets wait in all.
abbrev pub pending : FlowMap → ℕ
pending [] = 0
pending ((k, m) ∷ fs) = length m.pkts_to_send + pending fs

pub pending-update :
    (k : FlowTuple) (m n : TcpMimic) (fs : FlowMap)
    → find k fs ≡ some n
    → pending (update k m fs) + length n.pkts_to_send ≡ pending fs + length m.pkts_to_send
unfolding find update
pending-update k m n [] e = cc
pending-update k m n ((j, o) ∷ fs) e = ground (arith, pending-update k m n fs)

pub length-queue-le : (k : FlowTuple) (fs : FlowMap) → length (queue k fs) ≤ pending fs
unfolding find
length-queue-le k [] = omega arith
length-queue-le k ((j, m) ∷ fs) = elim (Bool-cases (flow_eq j k)) [
  | inl e ↦ rw e (omega arith)
  | inr e ↦ rw e (omega (arith, length-queue-le k fs))
]

-- What a flow expects of the hardware, and what it has got of it.
abbrev pub other_side : Option TcpMimic → Option (List Bytes × List Bytes)
other_side none = none
other_side (some m) = some (m.pkts_to_recv, m.pkts_recved_buf)

-- One packet leaves the front of a flow's queue, and nothing else changes.
pub record Sends (fs : FlowMap) (k : FlowTuple) (out : Bytes) (fs' : FlowMap) : Type 0 where
  pub front : queue k fs ≡ out ∷ queue k fs'
  pub others : (j : FlowTuple) → flow_eq k j ≡ false → queue j fs' ≡ queue j fs
  pub fewer : pending fs ≡ suc (pending fs')
  pub sendable : Every Sendable fs'
  pub was_sendable : CanParse out
  pub other_way : (j : FlowTuple) → other_side (find j fs') ≡ other_side (find j fs)

-- The update of the numbers leaves the queues alone, and succeeds on a packet with its headers.
process-queue :
    (pkt : Bytes) (m : TcpMimic)
    → CanParse pkt
    → (m' : TcpMimic) × (buf_process_helper pkt m ≡ some m')
      × (m'.pkts_to_send ≡ m.pkts_to_send)
      × (other_side (some m') ≡ other_side (some m))
unfolding buf_process_helper
process-queue pkt m (p, e) = (process p m, rw e refl, ground arith, ground arith)

popped :
    (m : TcpMimic) {pkt : Bytes} {rest : List Bytes}
    → m.pkts_to_send ≡ pkt ∷ rest
    → get_pkts_to_send_front m ≡ some (pkt, record m { pkts_to_send = rest })
unfolding get_pkts_to_send_front
popped m e = ground (arith, e)

nonempty : (m : TcpMimic) → pkts_to_send_empty m ≡ false → m.pkts_to_send ≢ []
unfolding pkts_to_send_empty
nonempty m e = ground (arith, e)

empty_queue : (m : TcpMimic) → pkts_to_send_empty m ≡ true → m.pkts_to_send ≡ []
unfolding pkts_to_send_empty
empty_queue m e = ground (arith, e)

flow_eq_self : (k : FlowTuple) → flow_eq k k ≡ true
flow_eq_self k = (flow_eq_iff k k).1 refl

pub send_front_lem :
    (k : FlowTuple) (m : TcpMimic) (fs : FlowMap)
    → Every Sendable fs
    → find k fs ≡ some m
    → m.pkts_to_send ≢ []
    → (out : Bytes) × (fs' : FlowMap) × (send_front k m fs ≡ some (out, fs')) × Sends fs k out fs'
unfolding send_front
send_front_lem k m fs h e ne = elim (List-cases m.pkts_to_send) [
  | inl q ↦ absurd (ne q)
  | inr (pkt, rest, q) ↦
      let (can, cans) =
        subst (λ (l : List Bytes). All CanParse l) q (Every-find Sendable k fs h e) in
      let (m', run, kept, same) = process-queue pkt (record m { pkts_to_send = rest }) can in
      let mine : queue k (update k m' fs) ≡ rest =
        ap waiting (find-update k k m' fs m e) ∙ rw (flow_eq_self k) kept in
      (
        pkt,
        update k m' fs,
        rw (popped m q, run) refl,
        record {
          front = ap waiting e ∙ q ∙ rw mine;
          others = λ j d. ap waiting (find-update k j m' fs m e) ∙ rw d;
          fewer = omega (arith, pending-update k m' m fs e, ap length q, ap length kept);
          sendable =
              Every-update Sendable k m' fs h
                (subst (λ (l : List Bytes). All CanParse l) (sym kept) cans);
          was_sendable = can;
          other_way = λ j. elim (Bool-cases (flow_eq k j)) [
            | inl b ↦
                ap other_side (find-update k j m' fs m e)
                ∙ rw b (
                    same
                    ∙ sym (ap other_side e)
                    ∙ ap (λ i. other_side (find i fs)) ((flow_eq_iff k j).0 b))
            | inr b ↦ ap other_side (find-update k j m' fs m e) ∙ rw b refl
          ];
        },
      )
]

-- With only known flows to visit, an iteration finds a flow with a packet to send, or none has one.
drain_cases :
    (ks : List FlowTuple) (fs : FlowMap)
    → Every Sendable fs
    → ((k : FlowTuple) → Has k ks → (m : TcpMimic) × (find k fs ≡ some m))
    → ((drain ks fs ≡ some ([], fs)) × ((k : FlowTuple) → Has k ks → queue k fs ≡ []))
      ⊎ ((k : FlowTuple) × (out : Bytes) × (fs' : FlowMap) × (drain ks fs ≡ some (out, fs'))
          × Sends fs k out fs')
unfolding drain
drain_cases [] fs h known = inl (refl, λ k absent. absurd absent)
drain_cases (j ∷ ks) fs h known =
    let (m, e) = known j (inl refl) in
    elim (Bool-cases (pkts_to_send_empty m)) [
      | inr b ↦
          let (out, fs', run, sends) = send_front_lem j m fs h e (nonempty m b) in
          inr (j, out, fs', rw (e, drain, b) run, sends)
      | inl b ↦ elim (drain_cases ks fs h (λ k p. known k (inr p))) [
        | inl (run, idle) ↦ inl (
          rw (e, drain, b) run,
          λ k p. elim p [
            | inl same ↦
                subst (λ (i : FlowTuple). queue i fs ≡ []) same (ap waiting e ∙ empty_queue m b)
            | inr later ↦ idle k later
          ],
        )
        | inr (k, out, fs', run, sends) ↦ inr (k, out, fs', rw (e, drain, b) run, sends)
      ]
    ]

-- So for an iteration that visits the whole map: what is handed out is the front of some flow's
-- queue, and nothing is handed out only when no packet waits in any flow.
pub drain_lem :
    (order : FlowMap → List FlowTuple) (fs : FlowMap)
    → Visits order
    → Every Sendable fs
    → ((drain (order fs) fs ≡ some ([], fs)) × ((k : FlowTuple) → queue k fs ≡ []))
      ⊎ ((k : FlowTuple) × (out : Bytes) × (fs' : FlowMap) × (drain (order fs) fs ≡ some (out, fs'))
          × Sends fs k out fs')
drain_lem order fs v h = elim (drain_cases (order fs) fs h (v.only fs)) [
  | inl (run, idle) ↦ inl (
    run,
    λ k. elim (Option-cases (find k fs)) [
      | inl gone ↦ ap waiting gone
      | inr (m, e) ↦ idle k (v.all fs k m e)
    ],
  )
  | inr sent ↦ inr sent
]
