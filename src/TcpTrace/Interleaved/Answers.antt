-- ===== src/TcpTrace/Interleaved/Answers.antt =====
-- A packet of the hardware, seen from all flows.
use tcp_hw.Base.{
  ◌≡◌, ◌∙◌, refl, sym, ap, subst, true, false, some, List, [], ◌∷◌, ◌++◌, Bytes, All-split, length,
  drop, append_assoc, inl, inr, Bool-cases, if◌then◌else◌,
}
use tcp_hw.Frame.{FlowTuple, flow_eq}
use tcp_hw.Frame.Address.{flow_eq_iff}
use tcp_hw.Mimic.{TcpMimic}
use tcp_hw.Mimic.Matching.{Comparison}
use tcp_hw.Mimic.Matching.Fifo.{pairs, AllSameSize, with_queues}
use tcp_hw.Mimic.Matching.History.{
  references, receiveds, references-pairs, receiveds-pairs, pairs-append, made, made-send,
}
use tcp_hw.TcpTrace.{TcpTrace, FlowMap, find, update, put_buf_on_io}
use tcp_hw.TcpTrace.Flows.{Every, Every-find, Every-update, find-update}
use tcp_hw.TcpTrace.Handshake.{Waits}
use tcp_hw.TcpTrace.Drain.{Sendable, queue, waiting}
use tcp_hw.TcpTrace.Queues.{expects, awaited, unmatched, arrived, Opened, written-Opened}
use tcp_hw.TcpTrace.Receive.{known_lem}
use tcp_hw.TcpTrace.Share.{if_new}
use tcp_hw.TcpTrace.Passes.{Own}
use tcp_hw.TcpTrace.Interleaved.{in_flow, in_flow-labelled_with, labelled_with}

-- What a packet of the hardware in the flow `key` does to all flows.
pub record Answered (t : TcpTrace) (key : FlowTuple) (p : Bytes) (cs : List Comparison)
    (t' : TcpTrace) : Type 0 where
  pub runs : put_buf_on_io p t ≡ some (cs, t', length p)
  pub alive : t'.deleted ≡ false
  pub same_file : t'.pcap_file ≡ t.pcap_file
  pub same_mac : t'.source_mac_addr ≡ t.source_mac_addr
  pub waits : Every Waits t'.tcp_flows
  pub sendable : Every Sendable t'.tcp_flows
  pub opens : (k : FlowTuple) → Opened k t.tcp_flows → Opened k t'.tcp_flows
  pub refs :
      (k : FlowTuple) (rs : List Bytes)
      → references (in_flow k (labelled_with key cs)) ++ (expects k t'.tcp_flows ++ rs)
        ≡ expects k t.tcp_flows ++ rs
  pub recs :
      (k : FlowTuple) (ts : List Bytes)
      → receiveds (in_flow k (labelled_with key cs)) ++ (unmatched k t'.tcp_flows ++ ts)
        ≡ unmatched k t.tcp_flows ++ (if flow_eq key k then p ∷ ts else ts)
  pub queues : (k : FlowTuple) → queue k t'.tcp_flows ≡ queue k t.tcp_flows
  pub makes :
      (k : FlowTuple) (ds more : List Bytes)
      → (more ≡ [] → ds ≡ [])
      → in_flow k (labelled_with key cs)
          ++ made (expects k t'.tcp_flows) (unmatched k t'.tcp_flows) ds more
        ≡ made
            (expects k t.tcp_flows)
            (unmatched k t.tcp_flows)
            ds
            (if flow_eq key k then p ∷ more else more)
  pub same_flows :
      (k : FlowTuple) (xs : List Bytes)
      → if_new (find k t'.tcp_flows) xs ≡ if_new (find k t.tcp_flows) xs
  pub later :
      (k : FlowTuple) (rs ts : List Bytes)
      → AllSameSize (
          pairs
            (expects k t.tcp_flows ++ rs)
            (unmatched k t.tcp_flows ++ (if flow_eq key k then p ∷ ts else ts)))
      → AllSameSize (pairs (expects k t'.tcp_flows ++ rs) (unmatched k t'.tcp_flows ++ ts))

-- The pairs that a packet completes, and those that come later.
split_pairs :
    (rs buf : List Bytes) (p : Bytes) (r s : List Bytes)
    → let ts = buf ++ (p ∷ []) in
      AllSameSize (pairs (rs ++ r) (buf ++ (p ∷ s)))
      → AllSameSize (pairs rs ts)
        × AllSameSize (pairs (drop (length ts) rs ++ r) (drop (length rs) ts ++ s))
split_pairs rs buf p r s same =
    let ts : List Bytes = buf ++ (p ∷ []) in
    All-split _ (pairs rs ts) _ (rw (← append_assoc buf (p ∷ []) s, pairs-append rs ts r s) at same)

module _ (t : TcpTrace) (key : FlowTuple) (p : Bytes) (m : TcpMimic)
    (found : find key t.tcp_flows ≡ some m) where
  abbrev rs : List Bytes
  rs = m.pkts_to_recv

  abbrev ts : List Bytes
  ts = m.pkts_recved_buf ++ (p ∷ [])

  abbrev matched : TcpMimic
  matched = with_queues (drop (length ts) rs) (drop (length rs) ts) m

  abbrev written : FlowMap
  written = update key matched t.tcp_flows

  each :
      (k : FlowTuple)
      → find k written ≡ (if flow_eq key k then some matched else find k t.tcp_flows)
  each k = find-update key k matched t.tcp_flows m found

  -- The flow itself, and the others.
  own_flow :
      (k : FlowTuple)
      → flow_eq key k ≡ true
      → (expects k written ≡ drop (length ts) rs)
        × (unmatched k written ≡ drop (length rs) ts)
        × (expects k t.tcp_flows ≡ rs)
        × (unmatched k t.tcp_flows ≡ m.pkts_recved_buf)
  own_flow k b =
      let there : find k t.tcp_flows ≡ some m =
        subst (λ j. find j t.tcp_flows ≡ some m) ((flow_eq_iff key k).0 b) found in
      (
        ap awaited (each k) ∙ rw b refl,
        ap arrived (each k) ∙ rw b refl,
        ap awaited there,
        ap arrived there,
      )

  other_flow :
      (k : FlowTuple)
      → flow_eq key k ≡ false
      → (expects k written ≡ expects k t.tcp_flows)
        × (unmatched k written ≡ unmatched k t.tcp_flows)
  other_flow k b = (ap awaited (each k) ∙ rw b refl, ap arrived (each k) ∙ rw b refl)

  refs_of :
      (k : FlowTuple) (r : List Bytes)
      → references (in_flow k (labelled_with key (pairs rs ts))) ++ (expects k written ++ r)
        ≡ expects k t.tcp_flows ++ r
  refs_of k r = elim (Bool-cases (flow_eq key k)) [
    | inl b ↦
        let (now, _, before, _) = own_flow k b in
        rw (in_flow-labelled_with key k (pairs rs ts), b, now, before)
          (sym (append_assoc (references (pairs rs ts)) (drop (length ts) rs) r)
            ∙ ap (λ q. q ++ r) (references-pairs rs ts))
    | inr b ↦
        let (now, _) = other_flow k b in rw (in_flow-labelled_with key k (pairs rs ts), b, now) refl
  ]

  recs_of :
      (k : FlowTuple) (s : List Bytes)
      → receiveds (in_flow k (labelled_with key (pairs rs ts))) ++ (unmatched k written ++ s)
        ≡ unmatched k t.tcp_flows ++ (if flow_eq key k then p ∷ s else s)
  recs_of k s = elim (Bool-cases (flow_eq key k)) [
    | inl b ↦
        let (_, now, _, before) = own_flow k b in
        rw (in_flow-labelled_with key k (pairs rs ts), b, now, before)
          (sym (append_assoc (receiveds (pairs rs ts)) (drop (length rs) ts) s)
            ∙ ap (λ q. q ++ s) (receiveds-pairs rs ts)
            ∙ append_assoc m.pkts_recved_buf (p ∷ []) s)
    | inr b ↦
        let (_, now) = other_flow k b in rw (in_flow-labelled_with key k (pairs rs ts), b, now) refl
  ]

  queues_of : (k : FlowTuple) → queue k written ≡ queue k t.tcp_flows
  queues_of k = elim (Bool-cases (flow_eq key k)) [
    | inl b ↦
        let there : find k t.tcp_flows ≡ some m =
          subst (λ j. find j t.tcp_flows ≡ some m) ((flow_eq_iff key k).0 b) found in
        ap waiting (each k) ∙ rw b (sym (ap waiting there))
    | inr b ↦ ap waiting (each k) ∙ rw b refl
  ]

  makes_of :
      (k : FlowTuple) (ds more : List Bytes)
      → (more ≡ [] → ds ≡ [])
      → in_flow k (labelled_with key (pairs rs ts))
          ++ made (expects k written) (unmatched k written) ds more
        ≡ made
            (expects k t.tcp_flows)
            (unmatched k t.tcp_flows)
            ds
            (if flow_eq key k then p ∷ more else more)
  makes_of k ds more h = elim (Bool-cases (flow_eq key k)) [
    | inl b ↦
        let (now_e, now_u, was_e, was_u) = own_flow k b in
        rw (in_flow-labelled_with key k (pairs rs ts), b, now_e, now_u, was_e, was_u)
          (made-send rs m.pkts_recved_buf p ds more h)
    | inr b ↦
        let (now_e, now_u) = other_flow k b in
        rw (in_flow-labelled_with key k (pairs rs ts), b, now_e, now_u) refl
  ]

  same_flows_of :
      (k : FlowTuple) (xs : List Bytes)
      → if_new (find k written) xs ≡ if_new (find k t.tcp_flows) xs
  same_flows_of k xs = elim (Bool-cases (flow_eq key k)) [
    | inl b ↦
        let there : find k t.tcp_flows ≡ some m =
          subst (λ j. find j t.tcp_flows ≡ some m) ((flow_eq_iff key k).0 b) found in
        ap (λ o. if_new o xs) (each k) ∙ rw b (sym (ap (λ o. if_new o xs) there))
    | inr b ↦ ap (λ o. if_new o xs) (each k) ∙ rw b refl
  ]

  later_of :
      (k : FlowTuple) (r s : List Bytes)
      → AllSameSize (
          pairs
            (expects k t.tcp_flows ++ r)
            (unmatched k t.tcp_flows ++ (if flow_eq key k then p ∷ s else s)))
      → AllSameSize (pairs (expects k written ++ r) (unmatched k written ++ s))
  later_of k r s same = elim (Bool-cases (flow_eq key k)) [
    | inl b ↦
        let (now_e, now_u, was_e, was_u) = own_flow k b in
        rw (now_e, now_u) (split_pairs rs m.pkts_recved_buf p r s (rw (b, was_e, was_u) at same)).1
    | inr b ↦ let (now_e, now_u) = other_flow k b in rw (now_e, now_u) (rw b at same)
  ]

-- A packet of the hardware in a flow of the map, where the sizes agree with those of the packets
-- that it is then compared with.
pub answer_lem :
    (t : TcpTrace) (key : FlowTuple) (p : Bytes)
    → t.deleted ≡ false
    → Own t.source_mac_addr (key, p)
    → Opened key t.tcp_flows
    → Every Waits t.tcp_flows
    → Every Sendable t.tcp_flows
    → (r s : List Bytes)
    → AllSameSize (pairs (expects key t.tcp_flows ++ r) (unmatched key t.tcp_flows ++ (p ∷ s)))
    → (cs : List Comparison) × (t' : TcpTrace) × Answered t key p cs t'
answer_lem t key p alive (ip_len, own, keyed) (m, found) w h r s same =
    let fs' : FlowMap = written t key p m found in
    (
      pairs m.pkts_to_recv (m.pkts_recved_buf ++ (p ∷ [])),
      record t { tcp_flows = fs'; deleted = false },
      record {
        runs =
            known_lem p t ip_len false key alive own keyed m found
              (split_pairs m.pkts_to_recv m.pkts_recved_buf p r s
                (rw (ap awaited found, ap arrived found) at same)).0;
        alive = refl;
        same_file = refl;
        same_mac = refl;
        waits =
            Every-update Waits key (matched t key p m found) t.tcp_flows w
              (Every-find Waits key t.tcp_flows w found);
        sendable =
            Every-update Sendable key (matched t key p m found) t.tcp_flows h
              (Every-find Sendable key t.tcp_flows h found);
        opens = λ k o.
            written-Opened key (matched t key p m found) t.tcp_flows fs' (each t key p m found) k
              (inr o);
        refs = refs_of t key p m found;
        recs = recs_of t key p m found;
        queues = queues_of t key p m found;
        makes = makes_of t key p m found;
        same_flows = same_flows_of t key p m found;
        later = later_of t key p m found;
      },
    )
