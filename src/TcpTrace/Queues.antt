-- ===== src/TcpTrace/Queues.antt =====
-- What `update` and `insert` do to the queues of the flows.
use tcp_hw.Base.{
  ◌≡◌, ◌∙◌, sym, ap, Option, some, none, List, [], ◌++◌, Bytes, if◌then◌else◌, Bool-cases, ◌⊎◌, inl,
  inr, refl, append-nil,
}
use tcp_hw.Frame.{FlowTuple, flow_eq}
use tcp_hw.Frame.Address.{flow_eq_iff}
use tcp_hw.Mimic.{TcpMimic}
use tcp_hw.TcpTrace.{FlowMap, find, update, insert}
use tcp_hw.TcpTrace.Flows.{find-update, find-insert}
use tcp_hw.TcpTrace.Drain.{queue, waiting}

-- The packets that a flow expects of the hardware; none in one that is not there.
abbrev pub awaited : Option TcpMimic → List Bytes
awaited none = []
awaited (some m) = m.pkts_to_recv

abbrev pub expects : FlowTuple → FlowMap → List Bytes
expects k fs = awaited (find k fs)

-- The packets of the hardware that wait in a flow to be compared.
abbrev pub arrived : Option TcpMimic → List Bytes
arrived none = []
arrived (some m) = m.pkts_recved_buf

abbrev pub unmatched : FlowTuple → FlowMap → List Bytes
unmatched k fs = arrived (find k fs)

-- A flow that is in the map.
abbrev pub Opened : FlowTuple → FlowMap → Type 0
Opened k fs = (m : TcpMimic) × (find k fs ≡ some m)

module _ (key : FlowTuple) (m' : TcpMimic) (fs fs' : FlowMap)
    (found : (k : FlowTuple) → find k fs' ≡ (if flow_eq key k then some m' else find k fs)) where
  -- A flow that is written is in the map afterwards, and no flow leaves it.
  pub written-Opened : (k : FlowTuple) → (key ≡ k) ⊎ Opened k fs → Opened k fs'
  written-Opened k h = elim (Bool-cases (flow_eq key k)) [
    | inl b ↦ (m', found k ∙ rw b refl)
    | inr b ↦ elim h [
      | inl q ↦ cc ((flow_eq_iff key k).1 q, b)
      | inr (n, e) ↦ (n, found k ∙ rw b e)
    ]
  ]

  -- Where the packets that wait in the flow stay, they stay in all flows.
  pub unmatched_lem :
      arrived (some m') ≡ unmatched key fs → (k : FlowTuple) → unmatched k fs' ≡ unmatched k fs
  unmatched_lem same k = elim (Bool-cases (flow_eq key k)) [
    | inl b ↦
        ap arrived (found k) ∙ rw b (same ∙ ap (λ j. unmatched j fs) ((flow_eq_iff key k).0 b))
    | inr b ↦ ap arrived (found k) ∙ rw b refl
  ]

module _ (key : FlowTuple) (pkt : Bytes) (fs : FlowMap) where
  module _ (m m' : TcpMimic) (e : find key fs ≡ some m) where
    pub queue-update :
        (extra : List Bytes) (k : FlowTuple)
        → m'.pkts_to_send ≡ m.pkts_to_send ++ extra
        → queue k (update key m' fs) ≡ queue k fs ++ (if flow_eq key k then extra else [])
    queue-update extra k h = elim (Bool-cases (flow_eq key k)) [
      | inl b ↦
          ap waiting (find-update key k m' fs m e)
          ∙ rw b (
              h
              ∙ ap (λ q. q ++ extra) (sym (ap waiting e))
              ∙ ap (λ j. queue j fs ++ extra) ((flow_eq_iff key k).0 b))
      | inr b ↦ ap waiting (find-update key k m' fs m e) ∙ rw b (sym (append-nil (queue k fs)))
    ]

    pub expects-update :
        (extra : List Bytes) (k : FlowTuple)
        → m'.pkts_to_recv ≡ m.pkts_to_recv ++ extra
        → expects k (update key m' fs) ≡ expects k fs ++ (if flow_eq key k then extra else [])
    expects-update extra k h = elim (Bool-cases (flow_eq key k)) [
      | inl b ↦
          ap awaited (find-update key k m' fs m e)
          ∙ rw b (
              h
              ∙ ap (λ q. q ++ extra) (sym (ap awaited e))
              ∙ ap (λ j. expects j fs ++ extra) ((flow_eq_iff key k).0 b))
      | inr b ↦ ap awaited (find-update key k m' fs m e) ∙ rw b (sym (append-nil (expects k fs)))
    ]

  module _ (m : TcpMimic) (e : find key fs ≡ none) where
    pub queue-insert :
        (k : FlowTuple)
        → queue k (insert key m fs) ≡ queue k fs ++ (if flow_eq key k then m.pkts_to_send else [])
    queue-insert k = elim (Bool-cases (flow_eq key k)) [
      | inl b ↦
          ap waiting (find-insert key k m fs)
          ∙ rw b (
              ap (λ q. q ++ m.pkts_to_send) (sym (ap waiting e))
              ∙ ap (λ j. queue j fs ++ m.pkts_to_send) ((flow_eq_iff key k).0 b))
      | inr b ↦ ap waiting (find-insert key k m fs) ∙ rw b (sym (append-nil (queue k fs)))
    ]

    pub expects-insert :
        (k : FlowTuple)
        → expects k (insert key m fs)
          ≡ expects k fs ++ (if flow_eq key k then m.pkts_to_recv else [])
    expects-insert k = elim (Bool-cases (flow_eq key k)) [
      | inl b ↦
          ap awaited (find-insert key k m fs)
          ∙ rw b (
              ap (λ q. q ++ m.pkts_to_recv) (sym (ap awaited e))
              ∙ ap (λ j. expects j fs ++ m.pkts_to_recv) ((flow_eq_iff key k).0 b))
      | inr b ↦ ap awaited (find-insert key k m fs) ∙ rw b (sym (append-nil (expects k fs)))
    ]
