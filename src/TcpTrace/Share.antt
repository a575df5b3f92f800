-- ===== src/TcpTrace/Share.antt =====
-- What one packet of a trace brings to each flow.
use tcp_hw.Base.{
  ◌≡◌, ◌∙◌, refl, sym, ap, subst, Bool, true, false, ◌&&◌, some, Option, none, List, [], ◌∷◌, Bytes,
  if◌then◌else◌, Bool-cases, inl, inr,
}
use tcp_hw.Frame.{FlowTuple, flow_eq}
use tcp_hw.Frame.Address.{flow_eq_iff}
use tcp_hw.Mimic.{TcpMimic}
use tcp_hw.TcpTrace.{FlowMap, find}

-- A packet that goes one way, seen from the flow `k`.
abbrev pub mine : Bool → FlowTuple → Bytes → FlowTuple → List Bytes
mine way key pkt k = if way && flow_eq key k then pkt ∷ [] else []

-- What comes only to a flow that is not in the map.
abbrev pub if_new : Option TcpMimic → List Bytes → List Bytes
if_new none xs = xs
if_new (some m) xs = []

pub if_new-nil : (o : Option TcpMimic) → if_new o [] ≡ []
if_new-nil none = refl
if_new-nil (some m) = refl

pub mine-own :
    (way : Bool) (key k : FlowTuple) (pkt : Bytes)
    → flow_eq key k ≡ true
    → mine way key pkt k ≡ (if way then pkt ∷ [] else [])
mine-own true key k pkt b = rw b refl
mine-own false key k pkt b = refl

pub mine-other :
    (way : Bool) (key k : FlowTuple) (pkt : Bytes) → flow_eq key k ≡ false → mine way key pkt k ≡ []
mine-other true key k pkt b = rw b refl
mine-other false key k pkt b = refl

-- Nothing is new in a flow that is there, and all is in one that is not.
pub if_new-there :
    (way : Bool) (key : FlowTuple) (pkt : Bytes) (fs : FlowMap) (m : TcpMimic)
    → find key fs ≡ some m
    → (k : FlowTuple) → if_new (find k fs) (mine way key pkt k) ≡ []
if_new-there way key pkt fs m e k = elim (Bool-cases (flow_eq key k)) [
  | inl b ↦
      let there : find k fs ≡ some m =
        subst (λ j. find j fs ≡ some m) ((flow_eq_iff key k).0 b) e in
      ap (λ o. if_new o (mine way key pkt k)) there
  | inr b ↦ ap (λ q. if_new (find k fs) q) (mine-other way key k pkt b) ∙ if_new-nil (find k fs)
]

pub if_new-missing :
    (way : Bool) (key : FlowTuple) (pkt : Bytes) (fs : FlowMap)
    → find key fs ≡ none
    → (k : FlowTuple) → mine way key pkt k ≡ if_new (find k fs) (mine way key pkt k)
if_new-missing way key pkt fs e k = elim (Bool-cases (flow_eq key k)) [
  | inl b ↦
      let missing : find k fs ≡ none = subst (λ j. find j fs ≡ none) ((flow_eq_iff key k).0 b) e in
      sym (ap (λ o. if_new o (mine way key pkt k)) missing)
  | inr b ↦
      let nothing_here : mine way key pkt k ≡ [] = mine-other way key k pkt b in
      nothing_here ∙ sym (ap (λ q. if_new (find k fs) q) nothing_here ∙ if_new-nil (find k fs))
]
