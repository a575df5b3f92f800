-- ===== src/TcpTrace/Flows.antt =====
-- The map of flows.
use tcp_hw.Base.{◌≡◌, refl, subst, arith, some, [], ◌∷◌, if◌then◌else◌, Bool-cases, inl, inr, All}
use tcp_hw.Frame.{FlowTuple, flow_eq}
use tcp_hw.Frame.Address.{flow_eq_iff}
use tcp_hw.Mimic.{TcpMimic}
use tcp_hw.TcpTrace.{FlowMap, find, update, insert}

-- A reference to one entry reaches that entry alone.
pub find-update :
    (k j : FlowTuple) (m : TcpMimic) (fs : FlowMap) (n : TcpMimic)
    → find k fs ≡ some n
    → find j (update k m fs) ≡ (if flow_eq k j then some m else find j fs)
unfolding find update
find-update k j m [] n e = cc
find-update k j m ((i, o) ∷ fs) n e =
    ground (arith, find-update k j m fs n, flow_eq_iff i k, flow_eq_iff i j, flow_eq_iff k j)

pub find-insert :
    (k j : FlowTuple) (m : TcpMimic) (fs : FlowMap)
    → find j (insert k m fs) ≡ (if flow_eq k j then some m else find j fs)
unfolding find insert
find-insert k j m fs = refl

module _ (P : TcpMimic → Type 0) where
  -- A property of every flow.
  abbrev pub Every : FlowMap → Type 0
  Every fs = All (λ (e : FlowTuple × TcpMimic). P e.1) fs

  pub Every-find :
      (k : FlowTuple) (fs : FlowMap) {m : TcpMimic} → Every fs → find k fs ≡ some m → P m
  unfolding find
  Every-find k [] h e = cc
  Every-find k ((j, n) ∷ fs) {m} h e = elim (Bool-cases (flow_eq j k)) [
    | inl p ↦ subst P (cc (rw p at e)) h.0
    | inr p ↦ Every-find k fs h.1 (rw p at e)
  ]

  pub Every-update :
      (k : FlowTuple) (m : TcpMimic) (fs : FlowMap) → Every fs → P m → Every (update k m fs)
  unfolding update
  Every-update k m [] h p = tt
  Every-update k m ((j, n) ∷ fs) h p = elim (Bool-cases (flow_eq j k)) [
    | inl e ↦ rw e (p, h.1)
    | inr e ↦ rw e (h.0, Every-update k m fs h.1 p)
  ]

  pub Every-insert :
      (k : FlowTuple) (m : TcpMimic) (fs : FlowMap) → Every fs → P m → Every (insert k m fs)
  unfolding insert
  Every-insert k m fs h p = (p, h)
