-- ===== src/TcpTrace/Session.antt =====
-- One packet of the trace, dispatched in a state in which no flow has completed its handshake: what
-- it adds to the queues of its flow.
use tcp_hw.Base.{
  suc, ◌+◌, ◌≤◌, ◌<◌, ◌≡◌, ◌∙◌, refl, sym, ap, subst, arith, Bool, true, false, not, some, none,
  List, [], ◌∷◌, ◌++◌, Bytes, All, All-append, length, length-append, if◌then◌else◌, Bool-cases,
  Option-cases, ◌⊎◌, inl, inr, append-nil,
}
use tcp_hw.Frame.{FlowTuple, flow_eq, Parsed}
use tcp_hw.Frame.Address.{flow_eq_iff}
use tcp_hw.Mimic.{TcpMimic, new_mimic, put_pkts_to_send_back, put_pkts_to_recv_back}
use tcp_hw.TcpTrace.{FlowMap, find, update, insert, process, buf_process_helper, new_flow, dispatch}
use tcp_hw.TcpTrace.Flows.{Every, Every-find, Every-update, Every-insert, find-update, find-insert}
use tcp_hw.TcpTrace.Handshake.{Waits}
use tcp_hw.TcpTrace.Replay.{dispatch-known}
use tcp_hw.TcpTrace.Drain.{CanParse, Sendable, queue, waiting, pending, pending-update}
use tcp_hw.TcpTrace.Rest.{Log, of_flow, CanParse-pos}
use tcp_hw.TcpTrace.Share.{mine, if_new, if_new-there, if_new-missing}
use tcp_hw.TcpTrace.Queues.{
  arrived, unmatched, unmatched_lem, Opened, written-Opened, expects, queue-update, expects-update,
  queue-insert, expects-insert,
}

-- What is handed out for a packet, as part of a log.
abbrev pub entry_of : FlowTuple → Bytes → Log
entry_of key [] = []
entry_of key (b ∷ bs) = (key, b ∷ bs) ∷ []

-- No packet from the hardware waits to be compared.
abbrev pub Fresh : TcpMimic → Type 0
Fresh m = m.pkts_recved_buf ≡ []

-- The packet joins one queue of its flow, or is handed out where the flow had none in its queue.
pub record Dispatched (fs : FlowMap) (send : Bool) (key : FlowTuple) (pkt out : Bytes)
    (fs' : FlowMap) : Type 0 where
  pub sends :
      (k : FlowTuple)
      → of_flow k (entry_of key out) ++ queue k fs' ≡ queue k fs ++ mine send key pkt k
  pub recvs : (k : FlowTuple) → expects k fs' ≡ expects k fs ++ mine (not send) key pkt k
  pub waits : Every Waits fs'
  pub sendable : Every Sendable fs'
  pub fresh : Every Fresh fs → Every Fresh fs'
  pub one_more : pending fs' ≤ suc (pending fs)
  pub arrivals : (k : FlowTuple) → unmatched k fs' ≡ unmatched k fs
  pub opens : (k : FlowTuple) → (key ≡ k) ⊎ Opened k fs → Opened k fs'
  pub hands :
      (k : FlowTuple) → of_flow k (entry_of key out) ≡ if_new (find k fs) (mine send key pkt k)
  pub others : (k : FlowTuple) → flow_eq key k ≡ false → find k fs' ≡ find k fs

nothing : (b : Bool) (xs : List Bytes) → xs ++ (if b then [] else []) ≡ xs ++ []
nothing true xs = refl
nothing false xs = refl

-- The update of the numbers leaves queues and handshake alone.
process_keeps :
    (p : Parsed) (m : TcpMimic)
    → ((process p m).pkts_to_send ≡ m.pkts_to_send)
      × ((process p m).pkts_to_recv ≡ m.pkts_to_recv)
      × ((process p m).handshake_done ≡ m.handshake_done)
      × ((process p m).pkts_recved_buf ≡ m.pkts_recved_buf)
unfolding buf_process_helper
process_keeps p m = ground arith

known_lem :
    (stale : TcpMimic) (send : Bool) (key : FlowTuple) (pkt : Bytes) (fs : FlowMap) (m : TcpMimic)
    → Every Waits fs
    → Every Sendable fs
    → CanParse pkt
    → find key fs ≡ some m
    → (out : Bytes) × (fs' : FlowMap) × (dispatch stale send key pkt fs ≡ some (out, fs'))
      × Dispatched fs send key pkt out fs'
unfolding put_pkts_to_send_back put_pkts_to_recv_back
known_lem stale true key pkt fs m w h can e =
    let m' : TcpMimic = put_pkts_to_send_back pkt m in
    (
      [],
      update key m' fs,
      dispatch-known stale true key pkt fs m w e,
      record {
        sends = λ k. queue-update key pkt fs m m' e (pkt ∷ []) k refl;
        recvs = λ k.
            expects-update key pkt fs m m' e [] k (sym (append-nil m.pkts_to_recv))
            ∙ nothing (flow_eq key k) (expects k fs);
        waits = Every-update Waits key m' fs w (Every-find Waits key fs w e);
        sendable = Every-update Sendable key m' fs h (
            All-append CanParse m.pkts_to_send (pkt ∷ []) (Every-find Sendable key fs h e)
              (can, tt));
        fresh = λ f. Every-update Fresh key m' fs f (Every-find Fresh key fs f e);
        one_more =
            omega (arith, pending-update key m' m fs e, length-append m.pkts_to_send (pkt ∷ []));
        arrivals =
            unmatched_lem key m' fs (update key m' fs) (λ k. find-update key k m' fs m e)
              (sym (ap arrived e));
        opens = written-Opened key m' fs (update key m' fs) (λ k. find-update key k m' fs m e);
        hands = λ k. sym (if_new-there true key pkt fs m e k);
        others = λ k b. find-update key k m' fs m e ∙ rw b refl;
      },
    )
known_lem stale false key pkt fs m w h can e =
    let m' : TcpMimic = put_pkts_to_recv_back pkt m in
    (
      [],
      update key m' fs,
      dispatch-known stale false key pkt fs m w e,
      record {
        sends = λ k.
            queue-update key pkt fs m m' e [] k (sym (append-nil m.pkts_to_send))
            ∙ nothing (flow_eq key k) (queue k fs);
        recvs = λ k. expects-update key pkt fs m m' e (pkt ∷ []) k refl;
        waits = Every-update Waits key m' fs w (Every-find Waits key fs w e);
        sendable = Every-update Sendable key m' fs h (Every-find Sendable key fs h e);
        fresh = λ f. Every-update Fresh key m' fs f (Every-find Fresh key fs f e);
        one_more = omega (arith, pending-update key m' m fs e);
        arrivals =
            unmatched_lem key m' fs (update key m' fs) (λ k. find-update key k m' fs m e)
              (sym (ap arrived e));
        opens = written-Opened key m' fs (update key m' fs) (λ k. find-update key k m' fs m e);
        hands = λ k. sym (if_new-there false key pkt fs m e k);
        others = λ k b. find-update key k m' fs m e ∙ rw b refl;
      },
    )

handed :
    (key k : FlowTuple) (pkt : Bytes)
    → 0 < length pkt
    → of_flow k (entry_of key pkt) ≡ mine true key pkt k
handed key k [] pos = absurd (omega arith)
handed key k (b ∷ bs) pos = refl

-- What is handed out of a flow that is not there comes in front of an empty queue.
in_front :
    (key k : FlowTuple) (pkt : Bytes) (fs : FlowMap)
    → find key fs ≡ none
    → mine true key pkt k ++ queue k fs ≡ queue k fs ++ mine true key pkt k
in_front key k pkt fs e = elim (Bool-cases (flow_eq key k)) [
  | inl b ↦
      let path : queue k fs ≡ [] =
        ap (λ j. queue j fs) (sym ((flow_eq_iff key k).0 b)) ∙ ap waiting e in
      rw (b, path) refl
  | inr b ↦ rw b (sym (append-nil (queue k fs)))
]

pending-insert :
    (key : FlowTuple) (m : TcpMimic) (fs : FlowMap)
    → pending (insert key m fs) ≡ length m.pkts_to_send + pending fs
unfolding insert
pending-insert key m fs = refl

new_lem :
    (stale : TcpMimic) (send : Bool) (key : FlowTuple) (pkt : Bytes) (fs : FlowMap)
    → Every Waits fs
    → Every Sendable fs
    → CanParse pkt
    → find key fs ≡ none
    → (out : Bytes) × (fs' : FlowMap) × (dispatch stale send key pkt fs ≡ some (out, fs'))
      × Dispatched fs send key pkt out fs'
unfolding dispatch new_flow new_mimic buf_process_helper put_pkts_to_recv_back
new_lem stale true key pkt fs w h (p, parsed) e =
    let fresh : TcpMimic = new_mimic stale false in
    let m : TcpMimic = process p fresh in
    let (sends, recvs, done, calm) = process_keeps p fresh in
    (
      pkt,
      insert key m fs,
      rw (e, dispatch) (rw parsed refl),
      record {
        sends = λ k.
            ap (λ q. of_flow k (entry_of key pkt) ++ q)
              (queue-insert key pkt fs m e k
                ∙ ap (λ q. queue k fs ++ (if flow_eq key k then q else [])) sends
                ∙ nothing (flow_eq key k) (queue k fs)
                ∙ append-nil (queue k fs))
            ∙ ap (λ o. o ++ queue k fs) (handed key k pkt (CanParse-pos pkt (p, parsed)))
            ∙ in_front key k pkt fs e;
        recvs = λ k.
            expects-insert key pkt fs m e k
            ∙ ap (λ q. expects k fs ++ (if flow_eq key k then q else [])) recvs
            ∙ nothing (flow_eq key k) (expects k fs);
        waits = Every-insert Waits key m fs w done;
        sendable =
            Every-insert Sendable key m fs h
              (subst (λ (q : List Bytes). All CanParse q) (sym sends) tt);
        fresh = λ f. Every-insert Fresh key m fs f calm;
        one_more = omega (arith, ap length sends, pending-insert key m fs);
        arrivals =
            unmatched_lem key m fs (insert key m fs) (λ k. find-insert key k m fs)
              (calm ∙ sym (ap arrived e));
        opens = written-Opened key m fs (insert key m fs) (λ k. find-insert key k m fs);
        hands = λ k.
            handed key k pkt (CanParse-pos pkt (p, parsed)) ∙ if_new-missing true key pkt fs e k;
        others = λ k b. find-insert key k m fs ∙ rw b refl;
      },
    )
new_lem stale false key pkt fs w h can e =
    let m : TcpMimic = put_pkts_to_recv_back pkt (new_mimic stale false) in
    (
      [],
      insert key m fs,
      rw (e, dispatch) refl,
      record {
        sends = λ k. queue-insert key pkt fs m e k ∙ nothing (flow_eq key k) (queue k fs);
        recvs = λ k. expects-insert key pkt fs m e k;
        waits = Every-insert Waits key m fs w refl;
        sendable = Every-insert Sendable key m fs h tt;
        fresh = λ f. Every-insert Fresh key m fs f refl;
        one_more = omega (arith, pending-insert key m fs);
        arrivals =
            unmatched_lem key m fs (insert key m fs) (λ k. find-insert key k m fs)
              (sym (ap arrived e));
        opens = written-Opened key m fs (insert key m fs) (λ k. find-insert key k m fs);
        hands = λ k. if_new-missing false key pkt fs e k;
        others = λ k b. find-insert key k m fs ∙ rw b refl;
      },
    )

-- A packet with its headers is dispatched with no fault, as `Dispatched` says.
pub dispatch_lem :
    (stale : TcpMimic) (send : Bool) (key : FlowTuple) (pkt : Bytes) (fs : FlowMap)
    → Every Waits fs
    → Every Sendable fs
    → CanParse pkt
    → (out : Bytes) × (fs' : FlowMap) × (dispatch stale send key pkt fs ≡ some (out, fs'))
      × Dispatched fs send key pkt out fs'
dispatch_lem stale send key pkt fs w h can = elim (Option-cases (find key fs)) [
  | inl e ↦ new_lem stale send key pkt fs w h can e
  | inr (m, e) ↦ known_lem stale send key pkt fs m w h can e
]
