-- ===== src/TcpTrace/Reading.antt =====
-- The records of a trace, read one by one from its file.
use tcp_hw.Base.{
  ℕ, zero, suc, ◌+◌, ◌≤◌, ◌≡◌, ◌∙◌, refl, sym, ap, subst, arith, Bool, false, not, Option, some,
  List, [], ◌∷◌, ◌++◌, Bytes, All, length, drop, lt→ltb, append-nil, append_assoc, ◌>>=◌,
  Bool-cases, inl, inr,
}
use tcp_hw.Backend.{kept}
use tcp_hw.Stdio.{File, unread}
use tcp_hw.Pcap.{record_bytes}
use tcp_hw.Pcap.Record.{read-record}
use tcp_hw.Frame.{FlowTuple, flow_eq, ip_hdr_len}
use tcp_hw.TcpTrace.{
  TcpTrace, Stale, FlowMap, packet_key, replay, next_packet, get_buf_fr_io, buffer_size,
}
use tcp_hw.TcpTrace.Flows.{Every}
use tcp_hw.TcpTrace.Handshake.{Waits}
use tcp_hw.TcpTrace.Drain.{CanParse, Sendable, queue, pending}
use tcp_hw.TcpTrace.Front.{packet_key-front}
use tcp_hw.TcpTrace.Rest.{Log, packets, of_flow, CanParse-pos}
use tcp_hw.TcpTrace.Share.{mine}
use tcp_hw.TcpTrace.Session.{Fresh, entry_of, Dispatched, dispatch_lem}
use tcp_hw.TcpTrace.Queues.{expects}

-- A packet of a trace, with the time of its record, whether it is for the hardware, and its flow.
pub record Labelled : Type 0 where
  pub sec : ℕ
  pub usec : ℕ
  pub packet : Bytes
  pub send : Bool
  pub key : FlowTuple

-- The labels are those of the packet, which has its headers and fits the buffer.
abbrev pub Fits : ℕ → Bytes → Labelled → Type 0
Fits ip_len mac l =
    CanParse l.packet
    × (length l.packet ≤ buffer_size)
    × (packet_key ip_len l.packet mac ≡ some (l.send, l.key))

-- The records of a trace, behind the header of the file.
abbrev pub records : List Labelled → Bytes
records [] = []
records (l ∷ ls) = record_bytes l.sec l.usec l.packet ++ records ls

-- The packets of a flow that a trace sends to the hardware, and those that it expects of it.
abbrev pub to_hardware : FlowTuple → List Labelled → List Bytes
to_hardware k [] = []
to_hardware k (l ∷ ls) = mine l.send l.key l.packet k ++ to_hardware k ls

abbrev pub from_hardware : FlowTuple → List Labelled → List Bytes
from_hardware k [] = []
from_hardware k (l ∷ ls) = mine (not l.send) l.key l.packet k ++ from_hardware k ls

pub kept-packets :
    (key : FlowTuple) (out : Bytes) (log : Log)
    → packets (entry_of key out ++ log) ≡ kept out (packets log)
kept-packets key [] log = refl
kept-packets key (b ∷ bs) log = refl

pub of_flow-append :
    (k : FlowTuple) (xs ys : Log) → of_flow k (xs ++ ys) ≡ of_flow k xs ++ of_flow k ys
of_flow-append k [] ys = refl
of_flow-append k ((j, p) ∷ xs) ys = elim (Bool-cases (flow_eq j k)) [
  | inl e ↦ rw e (ap (λ q. p ∷ q) (of_flow-append k xs ys))
  | inr e ↦ rw e (of_flow-append k xs ys)
]

pub joined :
    (a b c d e f g : List Bytes) → a ++ c ≡ d ++ f → b ++ e ≡ c ++ g → (a ++ b) ++ e ≡ d ++ (f ++ g)
joined a b c d e f g first second =
    append_assoc a b e
    ∙ ap (λ q. a ++ q) second
    ∙ sym (append_assoc a c g)
    ∙ ap (λ q. q ++ g) first
    ∙ append_assoc d f g

module _ (order : FlowMap → List FlowTuple) where
  -- A call that finds a record.
  pub get_reads :
      (stale : Stale) (ip_len : ℕ) (l : Labelled) (rest : Bytes) (t : TcpTrace)
      → ip_hdr_len stale.frame ≡ some ip_len
      → Fits ip_len t.source_mac_addr l
      → t.deleted ≡ false
      → unread t.pcap_file ≡ record_bytes l.sec l.usec l.packet ++ rest
      → Every Waits t.tcp_flows
      → Every Sendable t.tcp_flows
      → (out : Bytes) × (f : File) × (fs : FlowMap) × (get_buf_fr_io order stale t
          ≡ some (out, record t { pcap_file = f; tcp_flows = fs }))
        × (unread f ≡ rest)
        × Dispatched t.tcp_flows l.send l.key l.packet out fs
  unfolding get_buf_fr_io next_packet replay
  get_reads stale ip_len l rest t i (can, fits, label) alive e w h =
      let (f, got, left) =
        read-record stale.pkthdr buffer_size l.sec l.usec l.packet rest t.pcap_file e (omega arith)
          fits in
      let (out, fs, run, done) =
        dispatch_lem stale.mimic l.send l.key l.packet t.tcp_flows w h can in
      (
        out,
        f,
        fs,
        rw
            (
              alive,
              i,
              got,
              lt→ltb 0 (length l.packet) (CanParse-pos l.packet can),
              packet_key-front ip_len l.packet (drop (length l.packet) stale.frame)
                  t.source_mac_addr label,
              run,
            )
            refl,
        left,
        done,
      )

  module _ (stale : ℕ → Stale) where
    -- So many calls, and the packets that they return.
    unfoldable pub fetch : ℕ → TcpTrace → Option (List Bytes × TcpTrace)
    fetch zero t = some ([], t)
    fetch (suc n) t = do
      (out, t') ← get_buf_fr_io order (stale n) t
      (outs, t'') ← fetch n t'
      some (kept out outs, t'')

    -- What reading the whole of a trace leaves.
    pub record Read (ls : List Labelled) (t : TcpTrace) (log : Log) (t' : TcpTrace) : Type 0 where
      pub runs : fetch (length ls) t ≡ some (packets log, t')
      pub alive : t'.deleted ≡ false
      pub ended : unread t'.pcap_file ≡ []
      pub sent :
          (k : FlowTuple)
          → of_flow k log ++ queue k t'.tcp_flows ≡ queue k t.tcp_flows ++ to_hardware k ls
      pub awaits :
          (k : FlowTuple) → expects k t'.tcp_flows ≡ expects k t.tcp_flows ++ from_hardware k ls
      pub sendable : Every Sendable t'.tcp_flows
      pub fresh : Every Fresh t.tcp_flows → Every Fresh t'.tcp_flows
      pub same_mac : t'.source_mac_addr ≡ t.source_mac_addr
      pub few : pending t'.tcp_flows ≤ length ls + pending t.tcp_flows

    module _ (ip_len : ℕ) (mac : Bytes)
        (same : (i : ℕ) → ip_hdr_len (stale i).frame ≡ some ip_len) where
      pub read_lem :
          (ls : List Labelled) (t : TcpTrace)
          → All (Fits ip_len mac) ls
          → t.source_mac_addr ≡ mac
          → t.deleted ≡ false
          → unread t.pcap_file ≡ records ls
          → Every Waits t.tcp_flows
          → Every Sendable t.tcp_flows
          → (log : Log) × (t' : TcpTrace) × Read ls t log t'
      unfolding fetch
      read_lem [] t fits addr alive e w h = (
        [],
        t,
        record {
          runs = refl;
          alive = alive;
          ended = e;
          sent = λ k. sym (append-nil (queue k t.tcp_flows));
          awaits = λ k. sym (append-nil (expects k t.tcp_flows));
          sendable = h;
          fresh = λ f. f;
          same_mac = refl;
          few = omega arith;
        },
      )
      read_lem (l ∷ ls) t (fit, fits) addr alive e w h =
          let n : ℕ = length ls in
          let (out, f, fs, run, left, done) =
            get_reads (stale n) ip_len l (records ls) t (same n)
              (subst (λ (m : Bytes). Fits ip_len m l) (sym addr) fit) alive e w h in
          let u : TcpTrace = record t { pcap_file = f; tcp_flows = fs } in
          let (log, t', rest) = read_lem ls u fits addr alive left done.waits done.sendable in
          (
            entry_of l.key out ++ log,
            t',
            record {
              runs =
                  rw (run, rest.runs) (ap (λ q. some (q, t')) (sym (kept-packets l.key out log)));
              alive = rest.alive;
              ended = rest.ended;
              sent = λ k.
                  ap (λ q. q ++ queue k t'.tcp_flows) (of_flow-append k (entry_of l.key out) log)
                  ∙ joined (of_flow k (entry_of l.key out)) (of_flow k log) (queue k fs)
                      (queue k t.tcp_flows) (queue k t'.tcp_flows) (mine l.send l.key l.packet k)
                      (to_hardware k ls) (done.sends k) (rest.sent k);
              awaits = λ k.
                  rest.awaits k
                  ∙ ap (λ q. q ++ from_hardware k ls) (done.recvs k)
                  ∙ append_assoc (expects k t.tcp_flows) (mine (not l.send) l.key l.packet k)
                      (from_hardware k ls);
              sendable = rest.sendable;
              fresh = λ f. rest.fresh (done.fresh f);
              same_mac = rest.same_mac;
              few = omega (arith, rest.few, done.one_more);
            },
          )
